-- ===== src/Verifier/KeySet/Signatures.antt =====
-- Which payload the verification of a token's signature returns.
use nats_oidc_callout.Prelude.{
  ◌≡◌, refl, ◌∙◌, false, not, ◌&&◌, some, List, [], ◌∷◌, arith, ◌⊎◌, inl, inr, Result, ok, err,
  is_empty, Bool-cases, Option-cases,
}
use nats_oidc_callout.Prelude.Texts.{Text, text_eq}
use nats_oidc_callout.Verifier.KeySet.{
  Jwk, Jws, Jose, SignatureError, verify_with, retry, verify_parsed, verify_signature,
}

-- The key is a candidate: it has the id that the token names, or the token names none.
abbrev pub IsCandidate : Text → Jwk → Type 0
IsCandidate kid key = (not (is_empty kid) && not (text_eq key.key_id kid)) ≡ false

-- Some candidate of the keys verifies the token, with the payload.
pub data Verified (jose : Jose) (jws : Jws) (kid : Text) (payload : Text) : List Jwk → Type 0 where
  by_first :
      {key : Jwk} {keys : List Jwk}
      → IsCandidate kid key
      → jose.verify jws key ≡ some payload
      → Verified jose jws kid payload (key ∷ keys)
  by_later :
      {key : Jwk} {keys : List Jwk}
      → Verified jose jws kid payload keys
      → Verified jose jws kid payload (key ∷ keys)

verify_with-Verified :
    (jose : Jose) (jws : Jws) (kid : Text) (keys : List Jwk) (payload : Text)
    → verify_with jose jws kid keys ≡ some payload
    → Verified jose jws kid payload keys
unfolding verify_with
verify_with-Verified jose jws kid [] payload h = absurd (ground arith)
verify_with-Verified jose jws kid (key ∷ keys) payload h =
    let later = verify_with-Verified jose jws kid keys payload in
    elim (Bool-cases (not (is_empty kid) && not (text_eq key.key_id kid))) [
      | inl e ↦ by_later (later (rw e at h))
      | inr e ↦ elim (Option-cases (jose.verify jws key)) [
        | inl e' ↦ by_later (later (rw (e, e') at h))
        | inr (found, e') ↦ by_first {key = key} e (e' ∙ rw (e, e') at h)
      ]
    ]

verify_with-Accepts :
    (jose : Jose) (jws : Jws) (kid : Text) (keys : List Jwk) (payload : Text)
    → Verified jose jws kid payload keys
    → (found : Text) × (verify_with jose jws kid keys ≡ some found)
unfolding verify_with
verify_with-Accepts jose jws kid [] payload v = elim v [ ]
verify_with-Accepts jose jws kid (key ∷ keys) payload (by_first c h) = (payload, rw (c, h) refl)
verify_with-Accepts jose jws kid (key ∷ keys) payload (by_later v) =
    let (found, later) = verify_with-Accepts jose jws kid keys payload v in
    elim (Bool-cases (not (is_empty kid) && not (text_eq key.key_id kid))) [
      | inl e ↦ (found, rw e later)
      | inr e ↦ elim (Option-cases (jose.verify jws key)) [
        | inl e' ↦ (found, rw (e, e') later)
        | inr (first, e') ↦ (first, rw (e, e') refl)
      ]
    ]

-- The token parses with one of the algorithms and names one key id, and a candidate of the cached
-- keys verifies it, or the refresh succeeded and a candidate of the refreshed keys verifies it.
pub record Signed (jose : Jose) (algs : List Text) (raw : Text) (keys : List Jwk)
    (refreshed : Result SignatureError (Unit {0})) (keys' : List Jwk) (payload : Text)
    : Type 0 where
  pub jws : Jws
  pub kid : Text
  pub parsed : jose.parse_signed raw algs ≡ some jws
  pub one_signature : jws.key_ids ≡ kid ∷ []
  pub verified :
      Verified jose jws kid payload keys
      ⊎ ((refreshed ≡ ok tt) × Verified jose jws kid payload keys')

retry-Verified :
    (jose : Jose) (jws : Jws) (kid : Text) (refreshed : Result SignatureError (Unit {0}))
    (keys' : List Jwk) (payload : Text)
    → retry jose jws kid refreshed keys' ≡ ok payload
    → (refreshed ≡ ok tt) × Verified jose jws kid payload keys'
unfolding retry
retry-Verified jose jws kid (err e) keys' payload h = absurd (ground arith)
retry-Verified jose jws kid (ok tt) keys' payload h =
    elim (Option-cases (verify_with jose jws kid keys')) [
      | inl e ↦ absurd (ground arith)
      | inr (found, e) ↦ (refl, verify_with-Verified jose jws kid keys' payload (ground arith))
    ]

verify_parsed-Signed :
    (jose : Jose) (algs : List Text) (raw : Text) (jws : Jws) (kids : List Text) (keys : List Jwk)
    (refreshed : Result SignatureError (Unit {0})) (keys' : List Jwk) (payload : Text)
    → jose.parse_signed raw algs ≡ some jws
    → jws.key_ids ≡ kids
    → verify_parsed jose jws kids keys refreshed keys' ≡ ok payload
    → Signed jose algs raw keys refreshed keys' payload
unfolding verify_parsed
verify_parsed-Signed jose algs raw jws [] keys refreshed keys' payload p o h = absurd (ground arith)
verify_parsed-Signed jose algs raw jws (_ ∷ _ ∷ _) keys refreshed keys' payload p o h =
    absurd (ground arith)
verify_parsed-Signed jose algs raw jws (kid ∷ []) keys refreshed keys' payload p o h = record {
  jws = jws;
  kid = kid;
  parsed = p;
  one_signature = o;
  verified = elim (Option-cases (verify_with jose jws kid keys)) [
    | inl e ↦ inr (retry-Verified jose jws kid refreshed keys' payload (rw (e, verify_parsed) at h))
    | inr (found, e) ↦ inl (verify_with-Verified jose jws kid keys payload (ground arith))
  ];
}

-- A payload that the signature check returns is one that a candidate key verifies: a cached key, or
-- one that a successful refresh brought. A token with no signature or several is never accepted.
pub verify_signature_sound :
    (jose : Jose) (algs : List Text) (raw : Text) (keys : List Jwk)
    (refreshed : Result SignatureError (Unit {0})) (keys' : List Jwk) (payload : Text)
    → verify_signature jose algs raw keys refreshed keys' ≡ ok payload
    → Signed jose algs raw keys refreshed keys' payload
unfolding verify_signature
verify_signature_sound jose algs raw keys refreshed keys' payload h =
    elim (Option-cases (jose.parse_signed raw algs)) [
      | inl e ↦ absurd (ground arith)
      | inr (jws, e) ↦
          verify_parsed-Signed jose algs raw jws jws.key_ids keys refreshed keys' payload e refl
            (rw (e, verify_signature) at h)
    ]

pub retry-Accepts :
    (jose : Jose) (jws : Jws) (kid : Text) (keys' : List Jwk) (payload : Text)
    → Verified jose jws kid payload keys'
    → (found : Text) × (retry jose jws kid (ok tt) keys' ≡ ok found)
unfolding retry
retry-Accepts jose jws kid keys' payload v =
    let (found, e) = verify_with-Accepts jose jws kid keys' payload v in (found, rw (e, retry) refl)

verify_parsed-Accepts :
    (jose : Jose) (jws : Jws) (kid : Text) (keys : List Jwk)
    (refreshed : Result SignatureError (Unit {0})) (keys' : List Jwk) (payload : Text)
    → Verified jose jws kid payload keys
      ⊎ ((refreshed ≡ ok tt) × Verified jose jws kid payload keys')
    → (found : Text) × (verify_parsed jose jws (kid ∷ []) keys refreshed keys' ≡ ok found)
unfolding verify_parsed
verify_parsed-Accepts jose jws kid keys refreshed keys' payload (inl v) =
    let (found, e) = verify_with-Accepts jose jws kid keys payload v in
    (found, rw (e, verify_parsed) refl)
verify_parsed-Accepts jose jws kid keys refreshed keys' payload (inr (r, v)) =
    let (found, e) = retry-Accepts jose jws kid keys' payload v in
    elim (Option-cases (verify_with jose jws kid keys)) [
      | inl e' ↦ (found, rw (e', verify_parsed, r) e)
      | inr (first, e') ↦ (first, rw (e', verify_parsed) refl)
    ]

only_kid :
    (jose : Jose) (jws : Jws) (kid : Text) (kids : List Text) (keys : List Jwk)
    (refreshed : Result SignatureError (Unit {0})) (keys' : List Jwk) (payload : Text)
    → kids ≡ kid ∷ []
    → verify_parsed jose jws (kid ∷ []) keys refreshed keys' ≡ ok payload
    → verify_parsed jose jws kids keys refreshed keys' ≡ ok payload
only_kid jose jws kid kids keys refreshed keys' payload o e = rw o e

-- A token with one signature that a candidate of the cached keys verifies is accepted whatever the
-- refresh does, and one that only a key brought by a successful refresh verifies is accepted too,
-- so that a rotation of the issuer's keys is followed.
pub verify_signature_complete :
    (jose : Jose) (algs : List Text) (raw : Text) (keys : List Jwk)
    (refreshed : Result SignatureError (Unit {0})) (keys' : List Jwk) (payload : Text)
    → Signed jose algs raw keys refreshed keys' payload
    → (found : Text) × (verify_signature jose algs raw keys refreshed keys' ≡ ok found)
unfolding verify_signature
verify_signature_complete jose algs raw keys refreshed keys' payload s =
    let (found, e) =
      verify_parsed-Accepts jose s.jws s.kid keys refreshed keys' payload s.verified in
    (
      found,
      rw (s.parsed, verify_signature)
          (only_kid jose s.jws s.kid s.jws.key_ids keys refreshed keys' found s.one_signature e),
    )
