-- ===== src/Config/Loading.antt =====
-- What a configuration that `Load` returns satisfies.
use nats_oidc_callout.Prelude.{
  ℕ, ◌≤◌, ◌≡◌, ◌≢◌, refl, Bool, true, false, not, ◌&&◌, Option, none, some, List, [], ◌∷◌, arith,
  ◌⊎◌, inl, inr, Result, ok, err, >>=-eq-ok, fail_if-ok, fail_if-last, is_empty, any, All, ltb,
  Bool-cases, if◌then◌else◌,
}
use nats_oidc_callout.Prelude.Texts.{Text, codes}
use nats_oidc_callout.Prelude.Int.{ℤ, pos, negsuc, is_positive, is_negative, is_zero}
use nats_oidc_callout.Regexp.{Engine}
use nats_oidc_callout.Authz.Cel.{Cel}
use nats_oidc_callout.Authz.Policy.{Policy, PolicyError, validate}
use nats_oidc_callout.Authz.Policy.Validation.{IsValidPolicy, validate_sound}
use nats_oidc_callout.Verifier.{IssuerOption}
use nats_oidc_callout.Config.{
  Config, Files, MetricsConfig, auth_methods, check, validated, fill_defaults, fill_metrics,
  text_or, with_policy, choose_policy, load, unreadable, unparsable, int_or, validate_path,
  lift_path, or_fail, decode_config,
}

-- Exactly what the service relies on when it starts or reloads.
pub record IsReady (files : Files) (engine : Engine) (cel : Cel) (c : Config) : Type 0 where
  pub url : c.nats.url ≢ []
  pub one_method : auth_methods c.nats ≤ 1
  pub password_has_user : (c.nats.password ≡ []) ⊎ (c.nats.username ≢ [])
  pub seed : c.issuer_account_seed ≢ []
  pub audiences : c.audiences ≢ []
  pub signing_algs : c.signing_algs ≢ []
  pub issuers : c.issuers ≢ []
  pub issuer_urls : All (λ iss. iss.url ≢ []) c.issuers
  pub metrics_path :
      (c.metrics.enabled ≡ false)
      ⊎ ((c.metrics.path ≢ [])
          × (c.metrics.address ≢ [])
          × (validate_path files c.metrics.path ≡ ok tt))
  pub workers : is_positive c.workers ≡ true
  pub verify_timeout : is_positive c.verify_timeout ≡ true
  pub jwks_refresh_interval : is_positive c.jwks_refresh_interval ≡ true
  pub http_timeout : is_zero c.http_timeout ≡ false
  pub policy : IsValidPolicy engine cel c.policy

nonempty_of : {A : Type 0} (xs : List A) → is_empty xs ≡ false → xs ≢ []
nonempty_of [] h e = cc
nonempty_of (x ∷ xs) h e = cc

nonempty_urls :
    (issuers : List IssuerOption)
    → any (λ iss. is_empty iss.url) issuers ≡ false
    → All (λ iss. iss.url ≢ []) issuers
nonempty_urls [] h = tt
nonempty_urls (iss ∷ issuers) h =
    (nonempty_of iss.url (ground arith), nonempty_urls issuers (ground arith))

int_or-positive :
    (d : ℕ) (x : ℤ)
    → is_positive (pos d) ≡ true
    → is_negative (int_or (pos d) x) ≡ false
    → is_positive (int_or (pos d) x) ≡ true
int_or-positive d (pos n) h k = ground arith
int_or-positive d (negsuc n) h k = cc

record Checked (files : Files) (c : Config) : Type 0 where
  url : is_empty c.nats.url ≡ false
  one_method : auth_methods c.nats ≤ 1
  password : (not (is_empty c.nats.password) && is_empty c.nats.username) ≡ false
  seed : is_empty c.issuer_account_seed ≡ false
  audiences : is_empty c.audiences ≡ false
  signing_algs : is_empty c.signing_algs ≡ false
  issuers : is_empty c.issuers ≡ false
  urls : any (λ iss. is_empty iss.url) c.issuers ≡ false
  path :
      ((c.metrics.enabled && not (is_empty c.metrics.path)) ≡ false)
      ⊎ (validate_path files c.metrics.path ≡ ok tt)
  workers : is_negative c.workers ≡ false
  verify_timeout : is_negative c.verify_timeout ≡ false
  refresh : is_negative c.jwks_refresh_interval ≡ false

lift_path-ok : (r : Result _ (Unit {0})) → lift_path r ≡ ok tt → r ≡ ok tt
lift_path-ok (ok tt) h = refl
lift_path-ok (err e) h = cc

path_checked :
    (b : Bool) (files : Files) (c : Config)
    → (if b then lift_path (validate_path files c.metrics.path) else ok tt) ≡ ok tt
    → (b ≡ false) ⊎ (validate_path files c.metrics.path ≡ ok tt)
path_checked true files c h = inr (lift_path-ok (validate_path files c.metrics.path) h)
path_checked false files c h = inl refl

at_most_one : (n : ℕ) → ltb 1 n ≡ false → n ≤ 1
at_most_one n h = ground arith

check_sound : (files : Files) (c : Config) → check files c ≡ ok tt → Checked files c
unfolding check
check_sound files c h =
    let (url, h1) = fail_if-ok (is_empty c.nats.url) _ _ h in
    let (methods, h2) = fail_if-ok (ltb 1 (auth_methods c.nats)) _ _ h1 in
    let (password, h3) =
      fail_if-ok (not (is_empty c.nats.password) && is_empty c.nats.username) _ _ h2 in
    let (seed, h4) = fail_if-ok (is_empty c.issuer_account_seed) _ _ h3 in
    let (audiences, h5) = fail_if-ok (is_empty c.audiences) _ _ h4 in
    let (algs, h6) = fail_if-ok (is_empty c.signing_algs) _ _ h5 in
    let (issuers, h7) = fail_if-ok (is_empty c.issuers) _ _ h6 in
    let (urls, h8) = fail_if-ok (any (λ iss. is_empty iss.url) c.issuers) _ _ h7 in
    let (_, path, h9) = >>=-eq-ok _ _ h8 in
    let (workers, h10) = fail_if-ok (is_negative c.workers) _ _ h9 in
    let (timeout, h11) = fail_if-ok (is_negative c.verify_timeout) _ _ h10 in
    record {
      url = url;
      one_method = at_most_one (auth_methods c.nats) methods;
      password = password;
      seed = seed;
      audiences = audiences;
      signing_algs = algs;
      issuers = issuers;
      urls = urls;
      path = path_checked (c.metrics.enabled && not (is_empty c.metrics.path)) files c path;
      workers = workers;
      verify_timeout = timeout;
      refresh = fail_if-last (is_negative c.jwks_refresh_interval) _ h11;
    }

text_or-nonempty : (d x : Text) → d ≢ [] → text_or d x ≢ []
text_or-nonempty d [] h e = h e
text_or-nonempty d (b ∷ x) h e = cc

abbrev filled : MetricsConfig → MetricsConfig
filled m = record m {
  address = text_or (codes ":9090") m.address;
  path = text_or (codes "/metrics") m.path;
}

filled_on : (m : MetricsConfig) → m.enabled ≡ true → fill_metrics m ≡ filled m
unfolding fill_metrics
filled_on m e = ground arith

filled_off : (m : MetricsConfig) → m.enabled ≡ false → fill_metrics m ≡ m
unfolding fill_metrics
filled_off m e = ground arith

on_blocked :
    (enabled : Bool) (path : Text)
    → enabled ≡ true
    → path ≢ []
    → (enabled && not (is_empty path)) ≢ false
on_blocked enabled [] e ne h = absurd (ne refl)
on_blocked enabled (c ∷ path) e ne h = ground arith

metrics_on :
    (files : Files) (m : MetricsConfig)
    → m.enabled ≡ true
    → ((m.enabled && not (is_empty (filled m).path)) ≡ false)
      ⊎ (validate_path files (filled m).path ≡ ok tt)
    → ((filled m).path ≢ [])
      × ((filled m).address ≢ [])
      × (validate_path files (filled m).path ≡ ok tt)
metrics_on files m e (inl off) = absurd (
    on_blocked m.enabled (filled m).path e (text_or-nonempty (codes "/metrics") m.path (λ h. cc))
      off)
metrics_on files m e (inr valid) = (
  text_or-nonempty (codes "/metrics") m.path (λ h. cc),
  text_or-nonempty (codes ":9090") m.address (λ h. cc),
  valid,
)

metrics_ready :
    (files : Files) (m : MetricsConfig)
    → (((fill_metrics m).enabled && not (is_empty (fill_metrics m).path)) ≡ false)
      ⊎ (validate_path files (fill_metrics m).path ≡ ok tt)
    → ((fill_metrics m).enabled ≡ false)
      ⊎ (((fill_metrics m).path ≢ [])
          × ((fill_metrics m).address ≢ [])
          × (validate_path files (fill_metrics m).path ≡ ok tt))
metrics_ready files m h = elim (Bool-cases m.enabled) [
  | inl e ↦ rw (filled_on m e) (inr (metrics_on files m e (rw (filled_on m e) at h)))
  | inr e ↦ rw (filled_off m e) (inl e)
]

password_ready :
    (password username : Text)
    → (not (is_empty password) && is_empty username) ≡ false
    → (password ≡ []) ⊎ (username ≢ [])
password_ready [] username h = inl refl
password_ready (c ∷ password) username h = inr (nonempty_of username h)

int_or-nonzero : (d : ℕ) (x : ℤ) → is_zero (pos d) ≡ false → is_zero (int_or (pos d) x) ≡ false
int_or-nonzero d (pos n) h = ground arith
int_or-nonzero d (negsuc n) h = refl

ready :
    (files : Files) (engine : Engine) (cel : Cel) (c : Config) (p : Policy)
    → Checked files (fill_defaults c)
    → IsValidPolicy engine cel p
    → IsReady files engine cel (record (fill_defaults c) { policy = p })
unfolding fill_defaults
ready files engine cel c p k valid = record {
  url = nonempty_of c.nats.url k.url;
  one_method = k.one_method;
  password_has_user = password_ready c.nats.password c.nats.username k.password;
  seed = nonempty_of c.issuer_account_seed k.seed;
  audiences = nonempty_of c.audiences k.audiences;
  signing_algs = nonempty_of c.signing_algs k.signing_algs;
  issuers = nonempty_of c.issuers k.issuers;
  issuer_urls = nonempty_urls c.issuers k.urls;
  metrics_path = metrics_ready files c.metrics k.path;
  workers = int_or-positive 8 c.workers refl k.workers;
  verify_timeout = int_or-positive 1_500_000_000 c.verify_timeout refl k.verify_timeout;
  jwks_refresh_interval = int_or-positive 30_000_000_000 c.jwks_refresh_interval refl k.refresh;
  http_timeout = int_or-nonzero 10_000_000_000 c.http_timeout refl;
  policy = valid;
}

with_policy-ok :
    (c d : Config) (r : Policy × Option PolicyError)
    → with_policy c r ≡ ok d
    → (r.1 ≡ none) × (d ≡ record c { policy = r.0 })
with_policy-ok c d (p, none) h = (refl, ground arith)
with_policy-ok c d (p, some e) h = cc

validated_sound :
    (files : Files) (engine : Engine) (cel : Cel) (c d : Config)
    → validated files engine cel (fill_defaults c) ≡ ok d
    → IsReady files engine cel d
unfolding validated
validated_sound files engine cel c d h =
    let (_, checked, policed) = >>=-eq-ok _ _ h in
    let (accepted, same) =
      with_policy-ok (fill_defaults c) d (validate engine cel (fill_defaults c).policy) policed in
    rw same (
      ready files engine cel c (validate engine cel (fill_defaults c).policy).0
        (check_sound files (fill_defaults c) checked)
        (validate_sound engine cel (fill_defaults c).policy accepted).0)

-- A configuration that is loaded is ready to serve: it names a NATS server with at most one way to
-- authenticate and no password without a user, a signing seed, audiences, algorithms and issuers with
-- URLs, a usable metrics path if metrics are on, positive workers, verification timeout and refresh
-- interval, an HTTP timeout that is not zero, and an accepted policy, be it inline or from a file.
pub load-IsReady :
    (files : Files) (engine : Engine) (cel : Cel) (path : Text) (c : Config)
    → load files engine cel path ≡ ok c
    → IsReady files engine cel c
unfolding load
load-IsReady files engine cel path c h =
    let (data_read, _, h1) = >>=-eq-ok (or_fail unreadable (files.read path)) _ h in
    let (decoded, _, h2) = >>=-eq-ok (or_fail unparsable (decode_config files data_read)) _ h1 in
    let (chosen, _, h3) = >>=-eq-ok (choose_policy files engine cel decoded) _ h2 in
    validated_sound files engine cel chosen c h3
