-- ===== src/Examples/Policies.antt =====
-- Rules and policies.
use nats_oidc_callout.Prelude.{
  ℕ, ◌≡◌, ◌≢◌, refl, true, none, some, [], ◌∷◌, ok, ◌↔◌, ◌⊎◌, get_elem?, map,
}
use nats_oidc_callout.Prelude.Texts.{codes}
use nats_oidc_callout.Prelude.Maps.{lookup}
use nats_oidc_callout.Identity.{claim}
use nats_oidc_callout.Identity.Claims.{HasClaims}
use nats_oidc_callout.Regexp.{Regexp, simple, begin, lit, finish}
use nats_oidc_callout.Authz.Patterns.{compile_sub, sub_matches}
use nats_oidc_callout.Authz.Rules.{
  Rule, Decision, claims_match, has_strong_pin, matches, identity, permission_limits,
}
use nats_oidc_callout.Authz.Rules.Matching.{IsMatched, IsPinned, matches_iff, has_strong_pin_sound}
use nats_oidc_callout.Authz.Policy.{
  validate, validate_rules, validate_rule, evaluate, evaluate_rules, decide_by, check_grant,
  check_expr, check_pin, is_empty_permission,
}
use nats_oidc_callout.Authz.Policy.Evaluation.{Fires, evaluate-eq-ok_iff}
use nats_oidc_callout.Authz.Policy.Validation.{IsValidPolicy, declared, validate_sound}
use nats_oidc_callout.Authz.Policy.Guardrail.{IsExplicit, evaluate-IsPinned, evaluate-IsExplicit}
use nats_oidc_callout.Examples.Fixtures.{engine, cel, bot_rule, policy, bot, now}

abbrev pub bot_regexp : Regexp
bot_regexp = simple (begin ∷ lit b'b' ∷ lit b'o' ∷ lit b't' ∷ finish ∷ [])

abbrev compiled_bot_rule : Rule
compiled_bot_rule = record bot_rule { matcher = some bot_regexp }

rule_compiles : compile_sub engine compiled_bot_rule.match.sub ≡ ok compiled_bot_rule.matcher
unfolding compile_sub
rule_compiles = refl

subject_matches : sub_matches engine compiled_bot_rule.matcher bot.subject ≡ true
unfolding sub_matches
subject_matches = refl

rule_pins : has_strong_pin compiled_bot_rule.match ≡ true
unfolding has_strong_pin
rule_pins = refl

env_held : HasClaims compiled_bot_rule.match.claims bot
unfolding claim sub_matches claims_match lookup
env_held = ((matches_iff engine cel now compiled_bot_rule bot).0 (unfold matches in refl)).claims

has_strong_pin_sound_example : IsPinned compiled_bot_rule.match bot
has_strong_pin_sound_example =
    has_strong_pin_sound engine compiled_bot_rule bot rule_compiles subject_matches env_held
      rule_pins

pub accepted : (validate engine cel policy).1 ≡ none
unfolding validate validate_rules validate_rule check_grant is_empty_permission compile_sub
    check_expr check_pin has_strong_pin
accepted = refl

validate_sound_example :
    IsValidPolicy engine cel (validate engine cel policy).0
    × (map declared (validate engine cel policy).0.rules ≡ map declared policy.rules)
validate_sound_example = validate_sound engine cel policy accepted

abbrev pub decision : Decision
decision = record {
  rule_name = codes "bot";
  account = codes "APP";
  permissions = permission_limits bot_rule.grant;
  max_expiry = bot_rule.grant.max_expiry;
}

pub granted : evaluate engine cel now (validate engine cel policy).0 bot ≡ ok decision
unfolding validate evaluate validate_rules validate_rule check_grant is_empty_permission compile_sub
    check_expr check_pin has_strong_pin evaluate_rules matches sub_matches claims_match identity
granted = refl

evaluate-IsPinned_example :
    (rule : Rule) × (index : ℕ) × (get_elem? (validate engine cel policy).0.rules index ≡ some rule)
    × (decision ≡ decide_by rule index)
    × IsMatched engine cel now rule bot
    × ((rule.match.allow_broad ≡ true) ⊎ IsPinned rule.match bot)
    × ((rule.match.expr ≡ []) ⊎ (rule.match.allow_broad ≡ true))
evaluate-IsPinned_example = evaluate-IsPinned engine cel now policy bot decision accepted granted

evaluate-IsExplicit_example :
    IsExplicit decision.permissions.publish
    × IsExplicit decision.permissions.subscribe
    × (decision.account ≢ [])
evaluate-IsExplicit_example =
    evaluate-IsExplicit engine cel now policy bot decision accepted granted

validated : (validate engine cel policy).0.validated ≡ true
unfolding validate validate_rules validate_rule check_grant is_empty_permission compile_sub
    check_expr check_pin has_strong_pin
validated = refl

evaluate-eq-ok_iff_example :
    (evaluate engine cel now (validate engine cel policy).0 bot ≡ ok decision)
    ↔ Fires engine cel now bot 0 (validate engine cel policy).0.rules decision
evaluate-eq-ok_iff_example =
    evaluate-eq-ok_iff engine cel now (validate engine cel policy).0 bot decision validated
