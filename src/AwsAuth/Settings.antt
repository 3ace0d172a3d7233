-- ===== src/AwsAuth/Settings.antt =====
-- What a source that is built asks of STS.
use nats_oidc_callout.Prelude.{
  ℕ, ◌*◌, ◌/◌, ◌≤◌, ◌<◌, ◌≡◌, ◌≢◌, refl, sym, Bool, true, false, Option, none, some, [], ◌∷◌, arith,
  ◌⊎◌, inl, inr, ok, Bool-cases, >>=-eq-ok, fail_if-ok, ok-injective, is_empty, length, ltb,
  if◌then◌else◌, ◌==◌, fail_if-last,
}
use nats_oidc_callout.Prelude.Texts.{Text, codes, text_eq, text_eq_iff}
use nats_oidc_callout.Prelude.Int.{
  ℤ, pos, negsuc, is_zero, is_positive, is_negative, quot, to_int32,
}
use nats_oidc_callout.AwsAuth.{
  Config, AwsConfig, TokenSource, validate, check_algorithm, check_duration, built, new_with_client,
  new_from_aws_config, new, sts_input, second, default_cache_refresh_before, default_duration,
  default_signing_algorithm,
}

-- The duration is a whole number of seconds that STS accepts.
abbrev pub IsWhole : ℤ → ℕ → Type 0
IsWhole d secs = (d ≡ pos (secs * second)) × (60 ≤ secs) × (secs ≤ 3600)

check_duration_sound :
    (d : ℤ)
    → check_duration d ≡ ok tt
    → (secs : ℕ) × IsWhole (if is_zero d then default_duration else d) secs
unfolding check_duration
check_duration_sound (pos n) h = elim (Bool-cases (n == 0)) [
  | inl e ↦ (300, (ground arith, omega arith, omega arith))
  | inr e ↦ (n / second, (ground arith, ground arith, ground arith))
]
check_duration_sound (negsuc n) h = cc

to_int32_small : (n : ℕ) → n < 2_147_483_648 → to_int32 (pos n) ≡ pos n
to_int32_small n h = ground arith

-- An algorithm is one that STS signs with.
abbrev pub IsSupported : Text → Type 0
IsSupported alg = (alg ≡ codes "RS256") ⊎ (alg ≡ codes "ES384")

abbrev algorithm_of : Text → Text
algorithm_of alg = if is_empty alg then default_signing_algorithm else alg

check_algorithm_sound : (alg : Text) → check_algorithm alg ≡ ok tt → IsSupported (algorithm_of alg)
unfolding check_algorithm
check_algorithm_sound [] h = inl refl
check_algorithm_sound (c ∷ alg) h =
    let known = fail_if-last _ _ h in
    elim (Bool-cases (text_eq (codes "RS256") (c ∷ alg))) [
      | inl e ↦ inl (sym ((text_eq_iff (codes "RS256") (c ∷ alg)).0 e))
      | inr e ↦ inr (sym ((text_eq_iff (codes "ES384") (c ∷ alg)).0 (ground arith)))
    ]

refresh_before_positive :
    (d : ℤ)
    → is_negative d ≡ false
    → is_positive (if is_zero d then default_cache_refresh_before else d) ≡ true
refresh_before_positive (pos n) h = ground arith
refresh_before_positive (negsuc n) h = cc

-- A source that keeps to the limits of STS.
pub record IsWithinLimits (cfg : Config) (ts : TokenSource) : Type 0 where
  pub secs : ℕ
  pub whole : IsWhole ts.duration secs
  pub asked : (sts_input ts).duration_seconds ≡ pos secs
  pub audience : (sts_input ts).audience ≡ cfg.audience ∷ []
  pub named : cfg.audience ≢ []
  pub short : length cfg.audience ≤ 1000
  pub algorithm : IsSupported (sts_input ts).signing_algorithm
  pub refresh_before : is_positive ts.cache_refresh_before ≡ true
  pub cache_path : ts.cache_path ≡ cfg.cache_path

asked_secs : (d : ℤ) (secs : ℕ) → IsWhole d secs → to_int32 (quot d second) ≡ pos secs
asked_secs d secs (e, _, most) =
    let exact : secs * second / second ≡ secs = omega arith in
    rw (e, exact) (to_int32_small secs (omega arith))

built-IsWithinLimits : (cfg : Config) → validate cfg ≡ ok tt → IsWithinLimits cfg (built cfg)
unfolding validate built sts_input
built-IsWithinLimits cfg h =
    let (named, h1) = fail_if-ok (is_empty cfg.audience) _ _ h in
    let (short, h2) = fail_if-ok (ltb 1000 (length cfg.audience)) _ _ h1 in
    let (_, algorithm, h3) = >>=-eq-ok (check_algorithm cfg.signing_algorithm) _ h2 in
    let (_, duration, h4) = >>=-eq-ok (check_duration cfg.duration) _ h3 in
    let (secs, whole) = check_duration_sound cfg.duration duration in
    record {
      secs = secs;
      whole = whole;
      asked =
          asked_secs (if is_zero cfg.duration then default_duration else cfg.duration) secs whole;
      audience = refl;
      named = λ empty. ground arith;
      short = ground arith;
      algorithm = check_algorithm_sound cfg.signing_algorithm algorithm;
      refresh_before = refresh_before_positive cfg.cache_refresh_before (fail_if-last _ _ h4);
      cache_path = refl;
    }

new_with_client_sound :
    (cfg : Config) (ts : TokenSource) → new_with_client cfg ≡ ok ts → IsWithinLimits cfg ts
unfolding new_with_client
new_with_client_sound cfg ts h =
    let (_, valid, made) = >>=-eq-ok (validate cfg) _ h in
    let same : built cfg ≡ ts = ok-injective _ ts (ok _) refl made in
    rw (← same) (built-IsWithinLimits cfg valid)

with_credentials :
    (cfg : Config) (ts : TokenSource) (b : Bool)
    → IsWithinLimits cfg ts
    → IsWithinLimits cfg (record ts { has_credentials = b })
unfolding sts_input
with_credentials cfg ts b l = record {
  secs = l.secs;
  whole = l.whole;
  asked = l.asked;
  audience = l.audience;
  named = l.named;
  short = l.short;
  algorithm = l.algorithm;
  refresh_before = l.refresh_before;
  cache_path = l.cache_path;
}

new_from_aws_config_sound :
    (aws : AwsConfig) (cfg : Config) (ts : TokenSource)
    → new_from_aws_config aws cfg ≡ ok ts
    → IsWithinLimits cfg ts
unfolding new_from_aws_config
new_from_aws_config_sound aws cfg ts h =
    let (_, _, h1) = >>=-eq-ok (validate cfg) _ h in
    let (_, h2) = fail_if-ok (is_empty aws.region) _ _ h1 in
    let (made, built_now, h3) = >>=-eq-ok (new_with_client cfg) _ h2 in
    let same : record made { has_credentials = aws.has_credentials } ≡ ts =
      ok-injective _ ts (ok _) refl h3 in
    rw (← same)
      (with_credentials cfg made aws.has_credentials (new_with_client_sound cfg made built_now))

-- A source that `New` builds asks STS for exactly its duration, a whole number of seconds from 60 to
-- 3600 that the conversion to an int32 keeps, for the one configured audience of 1 to 1000 bytes, with
-- an algorithm that STS supports; its margin for a refresh is positive and its cache the configured
-- one.
pub new-IsWithinLimits :
    (loaded : Option AwsConfig) (cfg : Config) (ts : TokenSource)
    → new loaded cfg ≡ ok ts
    → IsWithinLimits cfg ts
unfolding new
new-IsWithinLimits none cfg ts h =
    let (_, _, h1) = >>=-eq-ok (validate cfg) _ h in absurd (ground arith)
new-IsWithinLimits (some aws) cfg ts h =
    let (_, _, h1) = >>=-eq-ok (validate cfg) _ h in new_from_aws_config_sound aws cfg ts h1
