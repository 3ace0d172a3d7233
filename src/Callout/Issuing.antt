-- ===== src/Callout/Issuing.antt =====
-- What a user JWT is issued for, and when it expires.
use nats_oidc_callout.Prelude.{
  ℕ, ◌+◌, ◌*◌, ◌≤◌, ◌<◌, ◌≡◌, ◌≢◌, none, some, [], arith, ok, err, min, inl, inr, Bool-cases,
  Option-cases, Result-cases, is_empty, is_empty-ne-nil, if◌then◌else◌, ◌↔◌,
}
use nats_oidc_callout.Prelude.Int.{ℤ, is_positive, pos_part}
use nats_oidc_callout.Prelude.Texts.{Text}
use nats_oidc_callout.Identity.{Identity}
use nats_oidc_callout.Authz.Rules.{Decision}
use nats_oidc_callout.Authz.Policy.{evaluate}
use nats_oidc_callout.Verifier.{verify}
use nats_oidc_callout.Metrics.{no_token, verification_failed, policy_no_match}
use nats_oidc_callout.Metrics.Consistency.{
  AreConsistent, record_allowed-IsConsistent, record_denied-IsConsistent,
}
use nats_oidc_callout.Callout.{
  Request, UserClaims, Authorizer, Services, Moment, denied, user_claims, capped_expiry, sign,
  authorize,
}

-- The expiry is the token's own one, or the earlier of it and the policy's cap.
pub capped_expiry_lem :
    (now token_expiry : ℕ) (max_expiry : ℤ)
    → capped_expiry now token_expiry max_expiry ≡ (
        if is_positive max_expiry
        then min token_expiry (now + pos_part max_expiry)
        else token_expiry)
unfolding capped_expiry
capped_expiry_lem now token_expiry max_expiry = grind arith

pub user_claims-expires_le :
    (req : Request) (now : ℕ) (id : Identity) (d : Decision)
    → ((user_claims req now id d).expires * 1_000_000_000 ≤ id.expiry)
      × ((user_claims req now id d).expires * 1_000_000_000
          ≤ (if is_positive d.max_expiry then now + pos_part d.max_expiry else id.expiry))
unfolding user_claims
user_claims-expires_le req now id d = ground (arith, capped_expiry_lem now id.expiry d.max_expiry)

-- Of a token that has not expired, a second or more after the epoch, the issued JWT has an expiry:
-- it is never 0, which NATS reads as none.
pub user_claims-expires_pos :
    (req : Request) (now : ℕ) (id : Identity) (d : Decision)
    → 1_000_000_000 ≤ now
    → 1_000_000_000 ≤ id.expiry
    → 0 < (user_claims req now id d).expires
unfolding user_claims
user_claims-expires_pos req now id d h h' =
    ground (arith, capped_expiry_lem now id.expiry d.max_expiry)

-- The steps of an authorization that ends with a user JWT.
pub record Issued (s : Services) (t : Moment) (a : Authorizer) (req : Request) (user_jwt : Text)
    : Type 0 where
  pub id : Identity
  pub decision : Decision
  pub given : req.token ≢ []
  pub verified : verify s.codec s.oidc t.signature a.state.verifier t.verified req.token ≡ ok id
  pub granted : evaluate s.engine s.cel t.evaluated a.state.policy id ≡ ok decision
  pub signed : s.encode (user_claims req t.capped id decision) ≡ some user_jwt

authorize_sound :
    (s : Services) (t : Moment) (a : Authorizer) (req : Request) (user_jwt : Text)
    → (authorize s t a req).1 ≡ ok user_jwt
    → Issued s t a req user_jwt
unfolding authorize sign
authorize_sound s t a req user_jwt h = elim (Bool-cases (is_empty req.token)) [
  | inl e ↦ absurd (ground arith)
  | inr e ↦
      elim (Result-cases
        (verify s.codec s.oidc t.signature a.state.verifier t.verified req.token)) [
          | inl (_, e') ↦ absurd (ground arith)
          | inr (id, e') ↦
              elim (Result-cases (evaluate s.engine s.cel t.evaluated a.state.policy id)) [
                | inl (_, e'') ↦ absurd (ground arith)
                | inr (d, e'') ↦ record {
                  id = id;
                  decision = d;
                  given = λ empty. ground arith;
                  verified = e';
                  granted = e'';
                  signed = ground arith;
                }
              ]
        ]
]

authorize_complete :
    (s : Services) (t : Moment) (a : Authorizer) (req : Request) (user_jwt : Text)
    → Issued s t a req user_jwt
    → (authorize s t a req).1 ≡ ok user_jwt
unfolding authorize sign
authorize_complete s t a req user_jwt i =
    ground (arith, is_empty-ne-nil req.token i.given, i.verified, i.granted, i.signed)

-- A user JWT is issued exactly when a token is given, the token is verified, the policy grants the
-- identity a decision, and the claims made of the two are signed; the JWT is the signed one.
pub authorize-eq-ok_iff :
    (s : Services) (t : Moment) (a : Authorizer) (req : Request) (user_jwt : Text)
    → ((authorize s t a req).1 ≡ ok user_jwt) ↔ Issued s t a req user_jwt
authorize-eq-ok_iff s t a req user_jwt =
    (authorize_sound s t a req user_jwt, authorize_complete s t a req user_jwt)

-- A failure to sign the user JWT is denied too, and leaves every counter as it was.
pub authorize-signing_failed :
    (s : Services) (t : Moment) (a : Authorizer) (req : Request) (id : Identity) (d : Decision)
    → req.token ≢ []
    → verify s.codec s.oidc t.signature a.state.verifier t.verified req.token ≡ ok id
    → evaluate s.engine s.cel t.evaluated a.state.policy id ≡ ok d
    → s.encode (user_claims req t.capped id d) ≡ none
    → authorize s t a req ≡ (a, err denied)
unfolding authorize sign
authorize-signing_failed s t a req id d given verified granted failed =
    ground (arith, is_empty-ne-nil req.token given)

sign-AreConsistent :
    (s : Services) (t : Moment) (a : Authorizer) (uc : UserClaims)
    → AreConsistent a.metrics
    → AreConsistent (sign s t a uc).0.metrics
unfolding sign
sign-AreConsistent s t a uc h = elim (Option-cases (s.encode uc)) [
  | inl e ↦ rw (e, sign) h
  | inr (user_jwt, e) ↦ rw (e, sign) (record_allowed-IsConsistent a.metrics t.elapsed h)
]

-- An authorization keeps the counters consistent with one another.
pub authorize-AreConsistent :
    (s : Services) (t : Moment) (a : Authorizer) (req : Request)
    → AreConsistent a.metrics
    → AreConsistent (authorize s t a req).0.metrics
unfolding authorize
authorize-AreConsistent s t a req h = elim (Bool-cases (is_empty req.token)) [
  | inl e ↦ rw (e, authorize) (record_denied-IsConsistent a.metrics no_token t.elapsed h)
  | inr e ↦
      elim (Result-cases
        (verify s.codec s.oidc t.signature a.state.verifier t.verified req.token)) [
          | inl (_, e') ↦
              rw (e, authorize)
                (rw e' (record_denied-IsConsistent a.metrics verification_failed t.elapsed h))
          | inr (id, e') ↦
              elim (Result-cases (evaluate s.engine s.cel t.evaluated a.state.policy id)) [
                | inl (_, e'') ↦
                    rw (e, authorize)
                      (rw e'
                        (rw e'' (record_denied-IsConsistent a.metrics policy_no_match t.elapsed h)))
                | inr (d, e'') ↦
                    rw (e, authorize)
                      (rw e' (rw e'' (sign-AreConsistent s t a (user_claims req t.capped id d) h)))
              ]
        ]
]
