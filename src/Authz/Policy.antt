-- ===== src/Authz/Policy.antt =====
-- `Policy` of internal/authz/authz.go: validation, which compiles the rules, and evaluation.
pub mod Evaluation
pub mod Validation
pub mod Expressions
pub mod Guardrail
use nats_oidc_callout.Prelude.{
  ℕ, suc, Bool, true, false, not, ◌&&◌, ◌||◌, Option, none, some, List, [], ◌∷◌, Result, ok, err,
  ◌>>=◌, ◌>>◌, fail_if, if◌then◌else◌, is_empty,
}
use nats_oidc_callout.Prelude.Texts.{Text}
use nats_oidc_callout.Identity.{Identity}
use nats_oidc_callout.Regexp.{Engine, Regexp}
use nats_oidc_callout.Authz.Cel.{Cel, CelError, compile_cel_program, variables}
use nats_oidc_callout.Authz.Patterns.{SubError, compile_sub}
use nats_oidc_callout.Authz.Rules.{
  Permission, Grant, Rule, Decision, identity, has_strong_pin, matches, permission_limits,
}

pub record Policy : Type 0 where
  pub rules : List Rule
  pub validated : Bool

-- The errors of `Validate`, the texts of Go reduced to their causes.
pub data RuleError : Type 0 where
  account_required empty_publish empty_subscribe expr_not_broad broad : RuleError
  bad_sub : SubError → RuleError
  bad_expr : CelError → RuleError

pub data PolicyError : Type 0 where
  no_rules cel_environment : PolicyError
  rule_error : Text → RuleError → PolicyError

-- `(*Permission).validate` fails: the permission is present and lists nothing.
unfoldable pub is_empty_permission : Option Permission → Bool
is_empty_permission none = false
is_empty_permission (some p) = is_empty p.allow && is_empty p.deny

abbrev lift_sub : Text → Result SubError (Option Regexp) → Result PolicyError (Option Regexp)
lift_sub who (ok re) = ok re
lift_sub who (err e) = err (rule_error who (bad_sub e))

abbrev lift_cel : Text → Result CelError Text → Result PolicyError (Option Text)
lift_cel who (ok program) = ok (some program)
lift_cel who (err e) = err (rule_error who (bad_expr e))

-- The checks of one round of `Validate` in front of the pattern's compilation.
unfoldable pub check_grant : Text → Grant → Result PolicyError (Unit {0})
check_grant who g = do
  fail_if (is_empty g.account) (rule_error who account_required)
  fail_if (is_empty_permission g.publish) (rule_error who empty_publish)
  fail_if (is_empty_permission g.subscribe) (rule_error who empty_subscribe)

-- The block of `Validate` under `r.Match.Expr != ""`; the result is the rule's program.
unfoldable pub check_expr : Cel → Text → Rule → Result PolicyError (Option Text)
check_expr cel who r = if is_empty r.match.expr then ok r.cel_program else do
  fail_if (not r.match.allow_broad) (rule_error who expr_not_broad)
  fail_if (not (cel.new_env variables)) cel_environment
  lift_cel who (compile_cel_program cel r.match.expr)

-- The end of a round: the rule with its program, and the guardrail.
unfoldable pub check_pin : Text → Rule → Rule × Option PolicyError
check_pin who r =
    if not (has_strong_pin r.match) && not r.match.allow_broad
    then (r, some (rule_error who broad))
    else (r, none)

abbrev set_program : Text → Rule → Result PolicyError (Option Text) → Rule × Option PolicyError
set_program who r (err e) = (r, some e)
set_program who r (ok program) = check_pin who (record r { cel_program = program })

abbrev set_matcher :
    Cel → Text → Rule → Result PolicyError (Option Regexp) → Rule × Option PolicyError
set_matcher cel who r (err e) = (r, some e)
set_matcher cel who r (ok re) =
    let r' = record r { matcher = re } in set_program who r' (check_expr cel who r')

-- One round of the loop of `Validate`: the rule as it is left, and the error if there is one.
unfoldable pub validate_rule : Engine → Cel → ℕ → Rule → Rule × Option PolicyError
validate_rule engine cel i r = elim (check_grant (identity r i) r.grant) [
  | err e ↦ (r, some e)
  | ok _ ↦
      set_matcher cel (identity r i) r (lift_sub (identity r i) (compile_sub engine r.match.sub))
]

abbrev pub continue :
    List Rule
    → Rule × Option PolicyError
    → List Rule × Option PolicyError
    → List Rule × Option PolicyError
continue rs (r, some e) later = (r ∷ rs, some e)
continue rs (r, none) (rs', e) = (r ∷ rs', e)

-- The loop of `Validate`, from the index `i` on; after an error the later rules are as they were.
unfoldable pub validate_rules : Engine → Cel → ℕ → List Rule → List Rule × Option PolicyError
validate_rules engine cel i [] = ([], none)
validate_rules engine cel i (r ∷ rs) =
    continue rs (validate_rule engine cel i r) (validate_rules engine cel (suc i) rs)

abbrev pub mark : Policy → List Rule × Option PolicyError → Policy × Option PolicyError
mark p (rs, some e) = (record p { rules = rs }, some e)
mark p (rs, none) = (record p { rules = rs; validated = true }, none)

-- `(*Policy).Validate`: the policy as it is left, and the error if there is one.
unfoldable pub validate : Engine → Cel → Policy → Policy × Option PolicyError
validate engine cel p =
    if is_empty p.rules then (p, some no_rules) else mark p (validate_rules engine cel 0 p.rules)

pub data EvaluateError : Type 0 where
  not_validated no_match : EvaluateError

abbrev pub decide_by : Rule → ℕ → Decision
decide_by r i = record {
  rule_name = identity r i;
  account = r.grant.account;
  permissions = permission_limits r.grant;
  max_expiry = r.grant.max_expiry;
}

-- The loop of `Evaluate`, from the index `i` on.
unfoldable pub evaluate_rules :
    Engine → Cel → ℕ → ℕ → List Rule → Identity → Result EvaluateError Decision
evaluate_rules engine cel now i [] id = err no_match
evaluate_rules engine cel now i (r ∷ rs) id =
    let later = evaluate_rules engine cel now (suc i) rs id in
    if matches engine cel now r id then ok (decide_by r i) else later

-- `(*Policy).Evaluate`, at the time `now`
unfoldable pub evaluate : Engine → Cel → ℕ → Policy → Identity → Result EvaluateError Decision
evaluate engine cel now p id =
    if not p.validated then err not_validated else evaluate_rules engine cel now 0 p.rules id
