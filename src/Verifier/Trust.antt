-- ===== src/Verifier/Trust.antt =====
-- What a verified identity rests on.
use nats_oidc_callout.Prelude.{
  ℕ, ◌≤◌, ◌≡◌, ◌≢◌, refl, true, ◌⊎◌, ◌↔◌, inl, inr, Option, none, some, List, [], ◌∷◌, arith, ok,
  err, any, is_empty, is_empty-ne-nil, ◌∙◌, In, Bool-cases, Option-cases, Result-cases,
}
use nats_oidc_callout.Prelude.Texts.{Text, text_eq, text_eq_iff}
use nats_oidc_callout.Prelude.Maps.{lookup}
use nats_oidc_callout.Identity.{Identity, Claims, claim, parse}
use nats_oidc_callout.Identity.Claims.{HasClaims}
use nats_oidc_callout.Verifier.{
  IdToken, Codec, Oidc, OidcLaws, IssuerEntry, Verifier, unverified_issuer, untrusted_issuer,
  audience_allowed, check_claims, fill_in, verify, verify_token, google,
}

any-text_eq_iff : (a : Text) (xs : List Text) → (any (λ x. text_eq x a) xs ≡ true) ↔ In a xs
any-text_eq_iff a [] = (λ h. cc, λ h. absurd h)
any-text_eq_iff a (x ∷ xs) =
    ground (arith, text_eq_iff x a, (any-text_eq_iff a xs).0, (any-text_eq_iff a xs).1)

-- Two lists have a text in common.
abbrev pub Meets : List Text → List Text → Type 0
Meets [] allowed = ⊥
Meets (x ∷ xs) allowed = In x allowed ⊎ Meets xs allowed

audience_allowed_iff :
    (v : Verifier) (auds : List Text) → (audience_allowed v auds ≡ true) ↔ Meets auds v.audiences
unfolding audience_allowed
audience_allowed_iff v [] = (λ h. cc, λ h. absurd h)
audience_allowed_iff v (x ∷ xs) = ground (
  arith,
  (any-text_eq_iff x v.audiences).0,
  (any-text_eq_iff x v.audiences).1,
  (audience_allowed_iff v xs).0,
  (audience_allowed_iff v xs).1,
)

check_claims_iff :
    (wanted : Claims) (id : Identity) → (check_claims wanted id ≡ ok tt) ↔ HasClaims wanted id
unfolding check_claims
check_claims_iff [] id = (λ _. tt, λ _. refl)
check_claims_iff ((k, want) ∷ wanted) id = elim (Option-cases (claim id k)) [
  | inl e ↦ (λ h. absurd (ground arith), λ h. ground arith)
  | inr (got, e) ↦ (
    λ h. (ground (arith, text_eq_iff got want), (check_claims_iff wanted id).0 (ground arith)),
    λ h. ground (arith, text_eq_iff got want, (check_claims_iff wanted id).1 h.1),
  )
]

-- What a token that is accepted at the time `now` has been checked for.
pub record IsTrusted (codec : Codec) (oidc : Oidc) (signature : Text → Text → Option Text)
    (v : Verifier) (now : ℕ) (raw : Text) (id : Identity) : Type 0 where
  pub url : Text
  pub entry : IssuerEntry
  pub token : IdToken
  pub payload : Text
  pub flattened : Identity
  pub nonempty : raw ≢ []
  pub named : unverified_issuer codec raw ≡ ok url
  pub configured : lookup url v.issuers ≡ some entry
  pub accepted : oidc (signature entry.url) entry.url entry.algs now raw ≡ some token
  pub audience : Meets token.audience v.audiences
  pub readable : token.claims ≡ some payload
  pub parsed : parse codec.members payload ≡ ok flattened
  pub filled : id ≡ fill_in token flattened
  pub bound : HasClaims entry.require_claims id

-- The checks behind the selection of the issuer.
verify_token_sound :
    (codec : Codec) (token : IdToken) (v : Verifier) (entry : IssuerEntry) (id : Identity)
    → verify_token codec token v entry ≡ ok id
    → (audience_allowed v token.audience ≡ true)
      × (payload : Text) × (flattened : Identity) × (token.claims ≡ some payload)
      × (parse codec.members payload ≡ ok flattened)
      × (id ≡ fill_in token flattened)
      × (check_claims entry.require_claims id ≡ ok tt)
unfolding verify_token
verify_token_sound codec token v entry id h = elim (Option-cases token.claims) [
  | inl e ↦ absurd (ground arith)
  | inr (payload, e) ↦ elim (Result-cases (parse codec.members payload)) [
    | inl (_, e') ↦ absurd (ground arith)
    | inr (flattened, e') ↦
        let same : id ≡ fill_in token flattened = ground arith in
        (ground arith, payload, flattened, e, e', same, rw same (ground arith))
  ]
]

verify_token_complete :
    (codec : Codec) (token : IdToken) (v : Verifier) (entry : IssuerEntry) (payload : Text)
    (flattened : Identity)
    → audience_allowed v token.audience ≡ true
    → token.claims ≡ some payload
    → parse codec.members payload ≡ ok flattened
    → check_claims entry.require_claims (fill_in token flattened) ≡ ok tt
    → verify_token codec token v entry ≡ ok (fill_in token flattened)
unfolding verify_token
verify_token_complete codec token v entry payload flattened aud readable made bound = ground arith

module _ (codec : Codec) (oidc : Oidc) (signature : Text → Text → Option Text) (v : Verifier)
    (now : ℕ) (raw : Text) (id : Identity) where
  verify_sound :
      verify codec oidc signature v now raw ≡ ok id → IsTrusted codec oidc signature v now raw id
  unfolding verify
  verify_sound h = elim (Bool-cases (is_empty raw)) [
    | inl e ↦ absurd (ground arith)
    | inr e ↦ elim (Result-cases (unverified_issuer codec raw)) [
      | inl (_, e1) ↦ absurd (ground arith)
      | inr (url, e1) ↦ elim (Option-cases (lookup url v.issuers)) [
        | inl e2 ↦ absurd (ground arith)
        | inr (entry, e2) ↦
            elim (Option-cases (oidc (signature entry.url) entry.url entry.algs now raw)) [
              | inl e3 ↦ absurd (ground arith)
              | inr (token, e3) ↦
                  let (aud, payload, flattened, readable, made, filled, bound) =
                    verify_token_sound codec token v entry id (ground arith) in
                  record {
                    url = url;
                    entry = entry;
                    token = token;
                    payload = payload;
                    flattened = flattened;
                    nonempty = λ none_given. ground arith;
                    named = e1;
                    configured = e2;
                    accepted = e3;
                    audience = (audience_allowed_iff v token.audience).0 aud;
                    readable = readable;
                    parsed = made;
                    filled = filled;
                    bound = (check_claims_iff entry.require_claims id).0 bound;
                  }
            ]
      ]
    ]
  ]

  verify_complete :
      IsTrusted codec oidc signature v now raw id → verify codec oidc signature v now raw ≡ ok id
  unfolding verify
  verify_complete t =
      let bound : check_claims t.entry.require_claims (fill_in t.token t.flattened) ≡ ok tt =
        rw (← t.filled) ((check_claims_iff t.entry.require_claims id).1 t.bound) in
      let checked =
        verify_token_complete codec t.token v t.entry t.payload t.flattened
          ((audience_allowed_iff v t.token.audience).1 t.audience) t.readable t.parsed bound in
      ground (
        arith,
        is_empty-ne-nil raw t.nonempty,
        t.named,
        t.configured,
        t.accepted,
        checked,
        t.filled,
      )

-- A token is verified, as an identity, exactly when its unverified issuer is a configured one whose
-- go-oidc verifier accepts it, one of its audiences is allowed, and the identity is its flattened
-- payload with the token's own issuer, subject, audience and expiry, and holds the required claims.
pub verify-eq-ok_iff :
    (codec : Codec) (oidc : Oidc) (signature : Text → Text → Option Text) (v : Verifier) (now : ℕ)
    (raw : Text) (id : Identity)
    → (verify codec oidc signature v now raw ≡ ok id) ↔ IsTrusted codec oidc signature v now raw id
verify-eq-ok_iff codec oidc signature v now raw id = (
  verify_sound codec oidc signature v now raw id,
  verify_complete codec oidc signature v now raw id,
)

-- A token whose issuer is not configured is refused as untrusted without a question to any key set
-- or to go-oidc: they have no part in the answer.
pub verify_untrusted :
    (codec : Codec) (v : Verifier) (raw url : Text)
    → raw ≢ []
    → unverified_issuer codec raw ≡ ok url
    → lookup url v.issuers ≡ none
    → (oidc : Oidc) (signature : Text → Text → Option Text) (now : ℕ)
    → verify codec oidc signature v now raw ≡ err untrusted_issuer
unfolding verify
verify_untrusted codec v raw url given named unknown oidc signature now =
    ground (arith, is_empty-ne-nil raw given)

-- With go-oidc as documented, a verified identity has not expired, comes from the configured issuer
-- that it names, and flattens a payload whose signature that issuer's keys verified.
pub verify_authentic :
    (codec : Codec) (oidc : Oidc) (signature : Text → Text → Option Text) (v : Verifier) (now : ℕ)
    (raw : Text) (id : Identity)
    → OidcLaws oidc
    → verify codec oidc signature v now raw ≡ ok id
    → (now ≤ id.expiry)
      × (named : Text) × (entry : IssuerEntry) × (payload : Text) × (flattened : Identity) × (lookup
            named v.issuers
          ≡ some entry)
      × ((id.issuer ≡ entry.url) ⊎ (entry.url ≡ google))
      × (signature entry.url raw ≡ some payload)
      × (parse codec.members payload ≡ ok flattened)
      × (id.claims ≡ flattened.claims)
verify_authentic codec oidc signature v now raw id laws h =
    let t = verify_sound codec oidc signature v now raw id h in
    let (issuer, alive, signed, _) =
      laws (signature t.entry.url) t.entry.url t.entry.algs now raw t.token t.accepted in
    rw t.filled (
      alive,
      t.url,
      t.entry,
      t.payload,
      t.flattened,
      t.configured,
      issuer,
      signed ∙ t.readable,
      t.parsed,
      refl,
    )
