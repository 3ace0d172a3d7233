-- ===== src/AwsAuth/Tokens/Origin.antt =====
-- Where a token that `Token` returns comes from.
use nats_oidc_callout.Prelude.{
  ℕ, ◌≡◌, refl, ap, sym, ◌∙◌, true, Option, none, some, List, [], ◌∷◌, arith, ◌⊎◌, inl, inr, Result,
  ok, err, ok-injective, Option-cases, any,
}
use nats_oidc_callout.Prelude.Texts.{Text, text_eq}
use nats_oidc_callout.Prelude.Int.{ℤ}
use nats_oidc_callout.Strings.{trim_space}
use nats_oidc_callout.AwsAuth.{TokenSource, Sts, sts_input, mint, token_of}
use nats_oidc_callout.AwsAuth.Cache.{
  Formats, fingerprint, entry_of, read_cache, before, unverified_expiry_audience,
}
use nats_oidc_callout.AwsAuth.Cache.Files.{read_cache_iff}
use nats_oidc_callout.AwsAuth.Tokens.{
  Write, Outcome, token, with_key, minted, cache_key, from_cache,
}
use nats_oidc_callout.AwsAuth.Tokens.Encoding.{
  JsonLaw, HashLaw, AreAscii, entry_law, Logged-IsAscii,
}
use nats_oidc_callout.AwsAuth.Tokens.Isolation.{World, Reach, Logged, FromLog, Inv, Reach-Inv}

-- The token is cached: STS is not called, and the token was issued earlier, to a key with the
-- fingerprint of the current one, and has not expired.
pub record IsCached (formats : Formats) (now : ℕ) (log : List Write) (audience : Text) (o : Outcome)
    (key tok : Text) : Type 0 where
  pub source : Write
  pub exp : ℤ
  pub auds : List Text
  pub not_called : o.called ≡ none
  pub issued_before : Logged source log
  pub same_key : fingerprint formats source.key ≡ fingerprint formats key
  pub same_token : trim_space source.token ≡ tok
  pub expires : unverified_expiry_audience formats tok ≡ some (exp, auds)
  pub alive : before now exp ≡ true
  pub for_audience : any (λ a. text_eq a audience) auds ≡ true

-- The token is new: STS issued it in this call, which was signed with the key, or with the client's
-- own credentials where the cache is not used.
pub record IsIssued (sts : Sts) (ts : TokenSource) (o : Outcome) (key : Option Text) (tok : Text)
    : Type 0 where
  pub called : o.called ≡ some key
  pub answer : sts key (sts_input ts) ≡ some (some tok)

token_of-ok : (o : Option (Option Text)) (tok : Text) → token_of o ≡ ok tok → o ≡ some (some tok)
token_of-ok none tok h = cc
token_of-ok (some none) tok h = cc
token_of-ok (some (some [])) tok h = cc
token_of-ok (some (some (c ∷ t))) tok h = ground arith

minted-IsIssued :
    (sts : Sts) (ts : TokenSource) (key : Option Text) (tok : Text)
    → (minted key (mint sts ts key)).result ≡ ok tok
    → IsIssued sts ts (minted key (mint sts ts key)) key tok
unfolding minted mint
minted-IsIssued sts ts none tok h = go (token_of (sts none (sts_input ts))) refl h
  where
    go :
        (r : Result _ Text)
        → token_of (sts none (sts_input ts)) ≡ r
        → (minted none r).result ≡ ok tok
        → IsIssued sts ts (minted none r) none tok
    go (err e) same h = absurd (ground arith)
    go (ok t) same h = record { called = refl; answer = token_of-ok _ tok (same ∙ h) }
minted-IsIssued sts ts (some key) tok h = go (token_of (sts (some key) (sts_input ts))) refl h
  where
    go :
        (r : Result _ Text)
        → token_of (sts (some key) (sts_input ts)) ≡ r
        → (minted (some key) r).result ≡ ok tok
        → IsIssued sts ts (minted (some key) r) (some key) tok
    go (err e) same h = absurd (ground arith)
    go (ok t) same h = record { called = refl; answer = token_of-ok _ tok (same ∙ h) }

with_key_miss :
    (formats : Formats) (sts : Sts) (now : ℕ) (ts : TokenSource) (file : Option Text) (key : Text)
    → read_cache formats now ts.audience (fingerprint formats key) file ≡ none
    → with_key formats sts now ts file (some key) ≡ minted (some key) (mint sts ts (some key))
unfolding with_key
with_key_miss formats sts now ts file key e = rw (e, with_key) refl

pub with_key_hit :
    (formats : Formats) (sts : Sts) (now : ℕ) (ts : TokenSource) (file : Option Text) (key : Text)
    (found : Text × ℤ)
    → read_cache formats now ts.audience (fingerprint formats key) file ≡ some found
    → with_key formats sts now ts file (some key) ≡ from_cache now ts found
unfolding with_key
with_key_hit formats sts now ts file key found e = rw (e, with_key) refl

some-injective : {A : Type 0} (a b : A) → some a ≡ some b → a ≡ b
some-injective a b h = ap (get_or a) h
  where
    get_or : {A : Type 0} → A → Option A → A
    get_or a none = a
    get_or a (some b) = b

module _ (formats : Formats) (law : JsonLaw formats) (hash : HashLaw formats) (now : ℕ) where
  cached :
      (w : World) (ts : TokenSource) (key tok : Text) (found : Text × ℤ) (o : Outcome)
      → Inv formats w
      → AreAscii w.log
      → o ≡ from_cache now ts found
      → o.result ≡ ok tok
      → read_cache formats now ts.audience (fingerprint formats key) w.file ≡ some found
      → IsCached formats now w.log ts.audience o key tok
  cached w ts key tok (t, exp) o inv ascii same h found = go w.file inv.stored found
    where
      go :
          (file : Option Text)
          → FromLog formats file w.log
          → read_cache formats now ts.audience (fingerprint formats key) file ≡ some (t, exp)
          → IsCached formats now w.log ts.audience o key tok
      go none origin found = absurd (unfold read_cache in ground arith)
      go (some contents) (x, logged, made) found =
          let u =
            (read_cache_iff formats now ts.audience (fingerprint formats key) contents t exp).0
              found in
          let decoded : formats.unmarshal contents
              ≡ some (entry_of x.token (fingerprint formats x.key)) =
            entry_law formats x.token x.key contents law hash (Logged-IsAscii x w.log ascii logged)
              made in
          let same_tok : t ≡ tok = ok-injective t tok o.result (ap (λ q. q.result) same) h in
          let entry : entry_of x.token (fingerprint formats x.key) ≡ u.entry =
            some-injective _ _ (sym decoded ∙ u.decoded) in
          record {
            source = x;
            exp = exp;
            not_called = ap (λ q. q.called) same;
            issued_before = logged;
            same_key = ap (λ e. e.credential) entry ∙ u.bound;
            same_token = ap (λ e. trim_space e.token) entry ∙ u.trimmed ∙ same_tok;
            auds = u.auds;
            expires = rw (← same_tok) u.claims;
            alive = u.alive;
            for_audience = u.audience_named;
          }

-- Whichever processes share a cache file that they alone write and that starts out absent, with
-- whatever credentials, interleavings and failing file operations, with an STS that issues tokens in
-- ASCII, and with JSON and SHA-256 as documented: a token that `Token` returns is either one that STS
-- issued in this very call, signed with the key that the cache is used under, or with the client's own
-- credentials where it is not used, or a cached one for the source's audience whose own expiry is not
-- over and that STS issued earlier to a key with the same fingerprint. Nothing else in the file is ever
-- returned.
pub token_origin :
    (formats : Formats) (law : JsonLaw formats) (hash : HashLaw formats) (w : World) (sts : Sts)
    (now : ℕ) (ts : TokenSource) (retrieved : Option Text) (tok : Text)
    → Reach formats w
    → AreAscii w.log
    → (token formats sts now ts retrieved w.file).result ≡ ok tok
    → IsIssued sts ts (token formats sts now ts retrieved w.file) (cache_key ts retrieved) tok
      ⊎ ((key : Text) × (cache_key ts retrieved ≡ some key)
          × IsCached formats now w.log ts.audience
              (token formats sts now ts retrieved w.file)
              key
              tok)
unfolding token with_key
token_origin formats law hash w sts now ts retrieved tok r ascii = go (cache_key ts retrieved)
  where
    go :
        (key : Option Text)
        → (with_key formats sts now ts w.file key).result ≡ ok tok
        → IsIssued sts ts (with_key formats sts now ts w.file key) key tok
          ⊎ ((k : Text) × (key ≡ some k)
              × IsCached formats now w.log ts.audience
                  (with_key formats sts now ts w.file key)
                  k
                  tok)
    go none h = inl (minted-IsIssued sts ts none tok h)
    go (some key) h =
        elim (Option-cases (read_cache formats now ts.audience (fingerprint formats key) w.file)) [
          | inl e ↦
              let same = with_key_miss formats sts now ts w.file key e in
              inl (rw same (minted-IsIssued sts ts (some key) tok (rw same at h)))
          | inr (found, e) ↦
              let same = with_key_hit formats sts now ts w.file key found e in
              inr (
                key,
                refl,
                cached formats law hash now w ts key tok found _ (Reach-Inv r) ascii same h e,
              )
        ]
