-- ===== src/Authz/Rules.antt =====
-- The policy of internal/authz/authz.go: its rules, what a rule grants and when it matches.
pub mod Matching
use nats_oidc_callout.Prelude.{
  ℕ, zero, suc, ◌+◌, ◌/◌, ◌%◌, Bool, true, false, not, ◌&&◌, ◌||◌, Option, none, some, List, [],
  ◌∷◌, ◌++◌, Result, ok, err, ◌>>=◌, ◌>>◌, fail_if, if◌then◌else◌, is_empty, any, ltb,
}
use nats_oidc_callout.Prelude.Texts.{Text, codes, text_eq}
use nats_oidc_callout.Prelude.Int.{ℤ}
use nats_oidc_callout.Prelude.Maps.{lookup, has_key}
use nats_oidc_callout.Identity.{Identity, Claims, claim}
use nats_oidc_callout.Regexp.{Engine, Regexp}
use nats_oidc_callout.Authz.Cel.{Cel, eval_cel}
use nats_oidc_callout.Authz.Patterns.{
  sub_is_exact, account_pinned_in_arn, is_aws_account_id, sub_matches,
}

-- `Match`
pub record Match : Type 0 where
  pub issuer : Text
  pub sub : Text
  pub claims : Claims
  pub expr : Text
  pub allow_broad : Bool

-- `Permission`, and `jwt.Permission` with the same fields
pub record Permission : Type 0 where
  pub allow : List Text
  pub deny : List Text

-- `Response`, and `jwt.ResponsePermission` with the same fields
pub record Response : Type 0 where
  pub max_msgs : ℤ
  pub ttl : ℤ

-- `Grant`
pub record Grant : Type 0 where
  pub account : Text
  pub publish : Option Permission
  pub subscribe : Option Permission
  pub response : Option Response
  pub max_expiry : ℤ

-- `Rule`
pub record Rule : Type 0 where
  pub name : Text
  pub match : Match
  pub grant : Grant
  pub matcher : Option Regexp
  pub cel_program : Option Text

-- The part of `jwt.UserPermissionLimits` that the source sets; the rest stays zero.
pub record PermissionLimits : Type 0 where
  pub publish : Permission
  pub subscribe : Permission
  pub resp : Option Response

-- `Decision`
pub record Decision : Type 0 where
  pub rule_name : Text
  pub account : Text
  pub permissions : PermissionLimits
  pub max_expiry : ℤ

-- The decimal digits of a number, as `%d` prints them; more fuel than the number is enough.
unfoldable pub decimal : ℕ → ℕ → Text
decimal zero n = []
decimal (suc fuel) n =
    let more = decimal fuel (n / 10) ++ ((48 + n % 10) ∷ []) in
    if ltb n 10 then (48 + n) ∷ [] else more

-- `(*Rule).identity`
unfoldable pub identity : Rule → ℕ → Text
unfolding decimal
identity r i = if is_empty r.name then codes "#" ++ decimal (suc i) i else r.name

-- `githubStrongPinKeys`
abbrev pub github_strong_pin_keys : List Text
github_strong_pin_keys = codes "repository" ∷ codes "repository_id" ∷ codes "job_workflow_ref" ∷ []

abbrev pub aws_account_key : Text
aws_account_key = codes "aws.aws_account"

unfoldable pub is_strong_pin_key : Text → Bool
is_strong_pin_key k = any (λ s. text_eq s k) github_strong_pin_keys

-- The claim `aws.aws_account` is set to a literal account.
unfoldable pub pins_aws_account : Claims → Bool
unfolding is_aws_account_id lookup
pins_aws_account claims = elim (lookup aws_account_key claims) [
  | none ↦ false
  | some v ↦ is_aws_account_id v
]

-- `hasStrongPin`
unfoldable pub has_strong_pin : Match → Bool
unfolding pins_aws_account is_strong_pin_key sub_is_exact account_pinned_in_arn
has_strong_pin m =
    if sub_is_exact m.sub
    then true
    else if account_pinned_in_arn m.sub
    then true
    else if pins_aws_account m.claims
    then true
    else any (λ c. is_strong_pin_key c.0) m.claims

-- The loop of `matches` over the rule's claims.
unfoldable pub claims_match : Claims → Identity → Bool
unfolding claim text_eq
claims_match [] id = true
claims_match ((k, want) ∷ claims) id =
    let later = claims_match claims id in
    elim (claim id k) [ none ↦ false | some got ↦ if text_eq got want then later else false ]

abbrev pub issuer_matches : Text → Identity → Bool
issuer_matches issuer id = is_empty issuer || text_eq issuer id.issuer

abbrev pub program_matches : Cel → ℕ → Option Text → Identity → Bool
program_matches cel now none id = true
program_matches cel now (some program) id = eval_cel cel now program id

-- `(*Rule).matches`, at the time `now`
unfoldable pub matches : Engine → Cel → ℕ → Rule → Identity → Bool
matches engine cel now r id =
    if not (issuer_matches r.match.issuer id)
    then false
    else if not (sub_matches engine r.matcher id.subject)
    then false
    else if not (claims_match r.match.claims id)
    then false
    else program_matches cel now r.cel_program id

-- `(*Permission).jwtPermission`: an omitted direction denies all subjects.
unfoldable pub jwt_permission : Option Permission → Permission
jwt_permission none = record { allow = []; deny = codes ">" ∷ [] }
jwt_permission (some p) = record { allow = p.allow; deny = p.deny }

-- `(*Grant).permissionLimits`
unfoldable pub permission_limits : Grant → PermissionLimits
unfolding jwt_permission
permission_limits g = record {
  publish = jwt_permission g.publish;
  subscribe = jwt_permission g.subscribe;
  resp = g.response;
}
