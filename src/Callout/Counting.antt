-- ===== src/Callout/Counting.antt =====
-- Which authorizations the metrics miss.
use nats_oidc_callout.Prelude.{
  ℕ, suc, ◌≡◌, ◌≢◌, ap, ◌∙◌, Option, none, some, [], arith, ok, inl, inr, Bool-cases, Option-cases,
  Result-cases, is_empty, ◌↔◌, length,
}
use nats_oidc_callout.Identity.{Identity}
use nats_oidc_callout.Authz.Rules.{Decision}
use nats_oidc_callout.Authz.Policy.{evaluate}
use nats_oidc_callout.Verifier.{verify}
use nats_oidc_callout.Metrics.{
  Metrics, Reason, record_allowed, record_denied, no_token, verification_failed, policy_no_match,
}
use nats_oidc_callout.Callout.{Request, Authorizer, Services, Moment, user_claims, sign, authorize}
use nats_oidc_callout.Callout.Issuing.{authorize-signing_failed}

-- The request is verified and granted, and its user JWT cannot be signed.
pub record Unsigned (s : Services) (t : Moment) (a : Authorizer) (req : Request) : Type 0 where
  pub id : Identity
  pub decision : Decision
  pub given : req.token ≢ []
  pub verified : verify s.codec s.oidc t.signature a.state.verifier t.verified req.token ≡ ok id
  pub granted : evaluate s.engine s.cel t.evaluated a.state.policy id ≡ ok decision
  pub failed : s.encode (user_claims req t.capped id decision) ≡ none

-- The number of observed durations, 0 if metrics are off.
abbrev observations : Option Metrics → ℕ
observations none = 0
observations (some m) = length m.durations

record_denied-grows :
    (m : Metrics) (reason : Reason) (elapsed : ℕ) → record_denied (some m) reason elapsed ≢ some m
unfolding record_denied
record_denied-grows m reason elapsed h =
    let same : suc (length m.durations) ≡ length m.durations = ap observations h in omega arith

record_allowed-grows : (m : Metrics) (elapsed : ℕ) → record_allowed (some m) elapsed ≢ some m
unfolding record_allowed
record_allowed-grows m elapsed h =
    let same : suc (length m.durations) ≡ length m.durations = ap observations h in omega arith

uncounted_sound :
    (s : Services) (t : Moment) (a : Authorizer) (req : Request) (m : Metrics)
    → a.metrics ≡ some m
    → (authorize s t a req).0.metrics ≡ some m
    → Unsigned s t a req
unfolding authorize sign
uncounted_sound s t a req m on h = elim (Bool-cases (is_empty req.token)) [
  | inl e ↦ absurd (record_denied-grows m no_token t.elapsed (ground arith))
  | inr e ↦
      elim (Result-cases
        (verify s.codec s.oidc t.signature a.state.verifier t.verified req.token)) [
          | inl (_, e') ↦
              absurd (record_denied-grows m verification_failed t.elapsed (ground arith))
          | inr (id, e') ↦
              elim (Result-cases (evaluate s.engine s.cel t.evaluated a.state.policy id)) [
                | inl (_, e'') ↦
                    absurd (record_denied-grows m policy_no_match t.elapsed (ground arith))
                | inr (d, e'') ↦ elim (Option-cases (s.encode (user_claims req t.capped id d))) [
                  | inl f ↦ record {
                    id = id;
                    decision = d;
                    given = λ empty. ground arith;
                    verified = e';
                    granted = e'';
                    failed = f;
                  }
                  | inr (_, f) ↦ absurd (record_allowed-grows m t.elapsed (ground arith))
                ]
              ]
        ]
]

-- With metrics on, a request leaves the metrics as they were exactly if it is verified and granted
-- and its user JWT cannot be signed: no other outcome is missed, and this one always is.
pub authorize-uncounted_iff :
    (s : Services) (t : Moment) (a : Authorizer) (req : Request) (m : Metrics)
    → a.metrics ≡ some m
    → ((authorize s t a req).0.metrics ≡ some m) ↔ Unsigned s t a req
authorize-uncounted_iff s t a req m on = (
  uncounted_sound s t a req m on,
  λ u.
      ap (λ r. r.0.metrics)
        (authorize-signing_failed s t a req u.id u.decision u.given u.verified u.granted u.failed)
      ∙ on,
)
