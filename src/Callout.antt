-- ===== src/Callout.antt =====
-- internal/callout/callout.go: the authorizer.
pub mod Issuing
pub mod Safety
pub mod Counting
use nats_oidc_callout.Prelude.{
  ℕ, ◌+◌, ◌/◌, Bool, true, false, Option, none, some, List, [], ◌∷◌, Result, ok, err, if◌then◌else◌,
  is_empty, ltb,
}
use nats_oidc_callout.Prelude.Texts.{Text}
use nats_oidc_callout.Prelude.Int.{ℤ, pos, is_positive, pos_part}
use nats_oidc_callout.Regexp.{Engine}
use nats_oidc_callout.Identity.{Identity}
use nats_oidc_callout.Authz.Cel.{Cel}
use nats_oidc_callout.Authz.Rules.{Decision, PermissionLimits}
use nats_oidc_callout.Authz.Policy.{Policy, evaluate}
use nats_oidc_callout.Verifier.{Codec, Oidc, Verifier, verify}
use nats_oidc_callout.Metrics.{
  Metrics, no_token, verification_failed, policy_no_match, record_allowed, record_denied,
}

-- The parts of `jwt.AuthorizationRequest` that the source reads.
pub record Request : Type 0 where
  pub user_nkey : Text
  pub token : Text

-- The parts of `jwt.UserClaims` that the source sets; `expires` is in seconds since the epoch.
pub record UserClaims : Type 0 where
  pub subject : Text
  pub name : Text
  pub audience : Text
  pub permissions : PermissionLimits
  pub expires : ℕ

-- `ruleset`
pub record Ruleset : Type 0 where
  pub verifier : Verifier
  pub policy : Policy

-- `Authorizer`; the key is a parameter of `authorize`.
pub record Authorizer : Type 0 where
  pub state : Ruleset
  pub metrics : Option Metrics
  pub verify_timeout : ℤ

-- 1500 ms
abbrev pub default_verify_timeout : ℤ
default_verify_timeout = pos 1_500_000_000

-- `New`
unfoldable pub new : Verifier → Policy → Option Metrics → ℤ → Authorizer
new v policy m timeout = record {
  state = record { verifier = v; policy = policy };
  metrics = m;
  verify_timeout = if is_positive timeout then timeout else default_verify_timeout;
}

-- `Reload`
unfoldable pub reload : Authorizer → Verifier → Policy → Authorizer
reload a v policy = record a { state = record { verifier = v; policy = policy } }

-- `cappedExpiry` at the time `now`, in nanoseconds
unfoldable pub capped_expiry : ℕ → ℕ → ℤ → ℕ
capped_expiry now token_expiry max_expiry =
    let cap = now + pos_part max_expiry in
    if is_positive max_expiry
    then (if ltb cap token_expiry then cap else token_expiry)
    else token_expiry

-- `time.Time.Unix` of a time after the epoch
abbrev pub unix : ℕ → ℕ
unix t = t / 1_000_000_000

-- What the authorizer uses and does not implement: the token formats, go-oidc, the regular
-- expressions, CEL, and the signing of a user JWT with the account key.
pub record Services : Type 0 where
  pub codec : Codec
  pub oidc : Oidc
  pub engine : Engine
  pub cel : Cel
  pub encode : UserClaims → Option Text

-- What one request meets: the answers of the issuers' key sets, and the clock at the verification, at
-- the evaluation of the policy and at the capping of the expiry, and the time since the start when
-- the metrics are recorded.
pub record Moment : Type 0 where
  pub signature : Text → Text → Option Text
  pub verified : ℕ
  pub evaluated : ℕ
  pub capped : ℕ
  pub elapsed : ℕ

-- The claims that `Authorize` fills in.
unfoldable pub user_claims : Request → ℕ → Identity → Decision → UserClaims
user_claims req now id d = record {
  subject = req.user_nkey;
  name = id.subject;
  audience = d.account;
  permissions = d.permissions;
  expires = unix (capped_expiry now id.expiry d.max_expiry);
}

-- `errDenied`, the one error that leaves `Authorize`
pub data Denied : Type 0 where
  denied : Denied

-- The last part of `Authorize`: the user JWT is signed. A failure there records no metric.
unfoldable pub sign : Services → Moment → Authorizer → UserClaims → Authorizer × Result Denied Text
sign s t a uc = elim (s.encode uc) [
  | none ↦ (a, err denied)
  | some user_jwt ↦ (record a { metrics = record_allowed a.metrics t.elapsed }, ok user_jwt)
]

-- `Authorize`: the authorizer with its metrics updated, and the user JWT or the error.
unfoldable pub authorize :
    Services → Moment → Authorizer → Request → Authorizer × Result Denied Text
authorize s t a req =
    if is_empty req.token
    then (record a { metrics = record_denied a.metrics no_token t.elapsed }, err denied)
    else elim (verify s.codec s.oidc t.signature a.state.verifier t.verified req.token) [
      | err _ ↦
          (record a { metrics = record_denied a.metrics verification_failed t.elapsed }, err denied)
      | ok id ↦ elim (evaluate s.engine s.cel t.evaluated a.state.policy id) [
        | err _ ↦
            (record a { metrics = record_denied a.metrics policy_no_match t.elapsed }, err denied)
        | ok d ↦ sign s t a (user_claims req t.capped id d)
      ]
    ]
