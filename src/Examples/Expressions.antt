-- ===== src/Examples/Expressions.antt =====
-- A rule with an expression.
use nats_oidc_callout.Prelude.{◌≡◌, ◌≢◌, refl, true, false, none, some, List, [], ◌∷◌, get_elem?}
use nats_oidc_callout.Prelude.Texts.{Text, codes, text_eq}
use nats_oidc_callout.Authz.Cel.{
  Cel, Outcome, Value, string, strings, string_map, time, failed, other, boolean, activation,
  compile_cel_program,
}
use nats_oidc_callout.Authz.Cel.Typing.{CelLaws}
use nats_oidc_callout.Authz.Patterns.{compile_sub}
use nats_oidc_callout.Authz.Rules.{Rule, has_strong_pin, program_matches}
use nats_oidc_callout.Authz.Policy.{
  Policy, validate, validate_rules, validate_rule, check_grant, check_expr, check_pin,
  is_empty_permission,
}
use nats_oidc_callout.Authz.Policy.Expressions.{Decides, validate-Decides}
use nats_oidc_callout.Examples.Policies.{bot_regexp}
use nats_oidc_callout.Examples.Fixtures.{engine, bot_rule, bot, now}

abbrev sub_is_bot : Text
sub_is_bot = codes "sub == 'bot'"

-- The test of the first variable.
abbrev eval_sub : List (Text × Value) → Outcome
eval_sub ((k, string s) ∷ values) = boolean (text_eq s (codes "bot"))
eval_sub _ = failed

-- A library that knows one expression.
abbrev cel : Cel
cel = record {
  new_env = λ _. true;
  compiles = λ _ expr. text_eq expr sub_is_bot;
  is_bool = λ _ _. true;
  makes_program = λ _ _. true;
  eval = λ _ values. eval_sub values;
}

eval_sub-ne-other : (values : List (Text × Value)) → eval_sub values ≢ other
eval_sub-ne-other [] h = cc
eval_sub-ne-other ((k, string s) ∷ values) h = cc
eval_sub-ne-other ((k, strings s) ∷ values) h = cc
eval_sub-ne-other ((k, string_map s) ∷ values) h = cc
eval_sub-ne-other ((k, time s) ∷ values) h = cc

cel-laws : CelLaws cel
cel-laws declared expr values compiles is_bool typed = eval_sub-ne-other values

abbrev expr_rule : Rule
expr_rule = record bot_rule {
  match = record bot_rule.match { expr = sub_is_bot; allow_broad = true };
}

abbrev policy : Policy
policy = record { rules = expr_rule ∷ []; validated = false }

accepted : (validate engine cel policy).1 ≡ none
unfolding validate validate_rules validate_rule check_grant is_empty_permission compile_sub
    check_expr compile_cel_program check_pin has_strong_pin
accepted = refl

abbrev rule : Rule
rule = record expr_rule { matcher = some bot_regexp; cel_program = some sub_is_bot }

in_place : get_elem? (validate engine cel policy).0.rules 0 ≡ some rule
unfolding validate validate_rules validate_rule check_grant is_empty_permission compile_sub
    check_expr compile_cel_program check_pin has_strong_pin
in_place = refl

has_expr : rule.match.expr ≢ []
has_expr h = cc

validate-Decides_example :
    Decides
      (cel.eval sub_is_bot (activation now bot))
      (program_matches cel now rule.cel_program bot)
validate-Decides_example =
    validate-Decides engine cel policy now bot rule 0 cel-laws accepted in_place has_expr
