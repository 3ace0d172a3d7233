-- ===== src/Authz/Policy/Validation.antt =====
-- What `Validate` leaves of a policy that it accepts.
use nats_oidc_callout.Prelude.{
  ℕ, suc, ◌≡◌, refl, ap, Bool, true, false, not, ◌&&◌, Option, none, some, List, [], ◌∷◌, arith,
  ◌≢◌, ◌⊎◌, inl, inr, All, map, ◌∙◌, Bool-cases, ok, is_empty, Result-cases, Option-cases,
}
use nats_oidc_callout.Prelude.Texts.{Text}
use nats_oidc_callout.Regexp.{Engine, Regexp}
use nats_oidc_callout.Authz.Cel.{Cel, compile_cel_program, variables}
use nats_oidc_callout.Authz.Patterns.{compile_sub}
use nats_oidc_callout.Authz.Rules.{Match, Grant, Rule, identity, has_strong_pin}
use nats_oidc_callout.Authz.Policy.{
  Policy, PolicyError, is_empty_permission, check_grant, check_expr, check_pin, validate_rule,
  validate_rules, validate, continue,
}

-- The expression type-checks on the variables of the environment, as a Boolean.
abbrev pub IsBoolean : Cel → Text → Type 0
IsBoolean cel expr = (cel.compiles variables expr ≡ true) × (cel.is_bool variables expr ≡ true)

-- A rule as validation leaves it.
pub record IsValidRule (engine : Engine) (cel : Cel) (r : Rule) : Type 0 where
  pub account : r.grant.account ≢ []
  pub publish : is_empty_permission r.grant.publish ≡ false
  pub subscribe : is_empty_permission r.grant.subscribe ≡ false
  pub compiled : compile_sub engine r.match.sub ≡ ok r.matcher
  pub guarded : (has_strong_pin r.match ≡ true) ⊎ (r.match.allow_broad ≡ true)
  pub expr_is_broad : (r.match.expr ≡ []) ⊎ (r.match.allow_broad ≡ true)
  pub program : (r.match.expr ≡ []) ⊎ (r.cel_program ≡ some r.match.expr)
  pub checked : (r.match.expr ≡ []) ⊎ IsBoolean cel r.match.expr

-- What the policy file says of a rule, which validation leaves as it is.
abbrev pub declared : Rule → Text × Match × Grant
declared r = (r.name, r.match, r.grant)

check_grant_sound :
    (who : Text) (g : Grant)
    → check_grant who g ≡ ok tt
    → (g.account ≢ [])
      × (is_empty_permission g.publish ≡ false)
      × (is_empty_permission g.subscribe ≡ false)
unfolding check_grant
check_grant_sound who g h = ground arith

-- The program that a round leaves is the expression, if there is one, and that is acknowledged.
check_expr_sound :
    (cel : Cel) (who : Text) (r : Rule) (program : Option Text)
    → check_expr cel who r ≡ ok program
    → ((r.match.expr ≡ []) ⊎ (r.match.allow_broad ≡ true))
      × ((r.match.expr ≡ []) ⊎ (program ≡ some r.match.expr))
      × ((r.match.expr ≡ []) ⊎ IsBoolean cel r.match.expr)
unfolding check_expr compile_cel_program
check_expr_sound cel who r program h = ground arith

abbrev compiled_rule : Rule → Option Regexp → Option Text → Rule
compiled_rule r re program = record r { matcher = re; cel_program = program }

pinned_or_broad :
    (pin allow : Bool) → (not pin && not allow) ≡ false → (pin ≡ true) ⊎ (allow ≡ true)
pinned_or_broad pin allow h = ground arith

-- The steps of a round that ends with no error.
record Passed (engine : Engine) (cel : Cel) (who : Text) (r : Rule)
    (round : Rule × Option PolicyError) : Type 0 where
  re : Option Regexp
  program : Option Text
  granted : check_grant who r.grant ≡ ok tt
  compiled : compile_sub engine r.match.sub ≡ ok re
  expr : check_expr cel who (record r { matcher = re }) ≡ ok program
  pinned : (not (has_strong_pin r.match) && not r.match.allow_broad) ≡ false
  result : round.0 ≡ compiled_rule r re program

check_pin-none :
    (who : Text) (r : Rule)
    → (check_pin who r).1 ≡ none
    → ((not (has_strong_pin r.match) && not r.match.allow_broad) ≡ false)
      × ((check_pin who r).0 ≡ r)
unfolding check_pin
check_pin-none who r h =
    elim (Bool-cases (not (has_strong_pin r.match) && not r.match.allow_broad)) [
      | inl e ↦ absurd (ground arith)
      | inr e ↦ (e, rw e)
    ]

-- A round whose steps succeed ends with the guardrail.
validate_rule_steps :
    (engine : Engine) (cel : Cel) (i : ℕ) (r : Rule) (re : Option Regexp) (program : Option Text)
    → check_grant (identity r i) r.grant ≡ ok tt
    → compile_sub engine r.match.sub ≡ ok re
    → check_expr cel (identity r i) (record r { matcher = re }) ≡ ok program
    → validate_rule engine cel i r ≡ check_pin (identity r i) (compiled_rule r re program)
unfolding validate_rule
validate_rule_steps engine cel i r re program granted compiled expr =
    rw (granted, validate_rule) (rw compiled (rw expr refl))

validate_rule_inv :
    (engine : Engine) (cel : Cel) (i : ℕ) (r : Rule)
    → (validate_rule engine cel i r).1 ≡ none
    → Passed engine cel (identity r i) r (validate_rule engine cel i r)
unfolding validate_rule
validate_rule_inv engine cel i r h = elim (Result-cases (check_grant (identity r i) r.grant)) [
  | inl (e, failed) ↦ absurd (ground arith)
  | inr (_, granted) ↦ elim (Result-cases (compile_sub engine r.match.sub)) [
    | inl (e, failed) ↦ absurd (ground arith)
    | inr (re, compiled) ↦
        elim (Result-cases (check_expr cel (identity r i) (record r { matcher = re }))) [
          | inl (e, failed) ↦ absurd (ground arith)
          | inr (program, expr) ↦
              let round = validate_rule_steps engine cel i r re program granted compiled expr in
              let (pinned, same) =
                check_pin-none (identity r i) (compiled_rule r re program) (rw round at h) in
              record {
                re = re;
                program = program;
                granted = granted;
                compiled = compiled;
                expr = expr;
                pinned = pinned;
                result = ap (λ x. x.0) round ∙ same;
              }
        ]
  ]
]

validate_rule_sound :
    (engine : Engine) (cel : Cel) (i : ℕ) (r : Rule)
    → (validate_rule engine cel i r).1 ≡ none
    → IsValidRule engine cel (validate_rule engine cel i r).0
      × (declared (validate_rule engine cel i r).0 ≡ declared r)
validate_rule_sound engine cel i r h =
    let p = validate_rule_inv engine cel i r h in
    let (account, publish, subscribe) = check_grant_sound (identity r i) r.grant p.granted in
    let (expr_is_broad, program, checked) =
      check_expr_sound cel (identity r i) (record r { matcher = p.re }) p.program p.expr in
    rw p.result (
      record {
        account = account;
        publish = publish;
        subscribe = subscribe;
        compiled = p.compiled;
        guarded = pinned_or_broad (has_strong_pin r.match) r.match.allow_broad p.pinned;
        expr_is_broad = expr_is_broad;
        program = program;
        checked = checked;
      },
      refl,
    )

-- A round without an error goes on; one with an error ends the loop.
continue-none :
    (rs : List Rule) (x : Rule × Option PolicyError) (later : List Rule × Option PolicyError)
    → x.1 ≡ none
    → continue rs x later ≡ (x.0 ∷ later.0, later.1)
continue-none rs x later h =
    let step : x ≡ (x.0, none) = ap (λ e. (x.0, e)) h in ap (λ y. continue rs y later) step

continue-some :
    (rs : List Rule) (x : Rule × Option PolicyError) (later : List Rule × Option PolicyError)
    (e : PolicyError)
    → x.1 ≡ some e
    → continue rs x later ≡ (x.0 ∷ rs, some e)
continue-some rs x later e h =
    let step : x ≡ (x.0, some e) = ap (λ o. (x.0, o)) h in ap (λ y. continue rs y later) step

validate_rules_sound :
    (engine : Engine) (cel : Cel) (i : ℕ) (rs : List Rule)
    → (validate_rules engine cel i rs).1 ≡ none
    → All (IsValidRule engine cel) (validate_rules engine cel i rs).0
      × (map declared (validate_rules engine cel i rs).0 ≡ map declared rs)
unfolding validate_rules
validate_rules_sound engine cel i [] h = (tt, refl)
validate_rules_sound engine cel i (r ∷ rs) h =
    elim (Option-cases (validate_rule engine cel i r).1) [
      | inl passed ↦
          let later = validate_rules engine cel (suc i) rs in
          let step = continue-none rs (validate_rule engine cel i r) later passed in
          let (valid, same) = validate_rule_sound engine cel i r passed in
          let (valid', same') = validate_rules_sound engine cel (suc i) rs (rw step at h) in
          rw step ((valid, valid'), λ j. same j ∷ same' j)
      | inr (e, failed) ↦
          let later = validate_rules engine cel (suc i) rs in
          let step = continue-some rs (validate_rule engine cel i r) later e failed in
          absurd (let wrong : some e ≡ none = rw step at h in cc)
    ]

nonempty_of_map :
    (xs ys : List Rule) → map declared xs ≡ map declared ys → is_empty ys ≡ false → xs ≢ []
nonempty_of_map [] [] same h = cc
nonempty_of_map [] (y ∷ ys) same h = cc
nonempty_of_map (x ∷ xs) ys same h = λ e. cc

-- Validation of a policy with rules is its loop, and the mark if the loop has no error.
validate_accepts :
    (engine : Engine) (cel : Cel) (p : Policy)
    → (validate engine cel p).1 ≡ none
    → (is_empty p.rules ≡ false)
      × ((validate_rules engine cel 0 p.rules).1 ≡ none)
      × ((validate engine cel p).0
          ≡ record { rules = (validate_rules engine cel 0 p.rules).0; validated = true })
unfolding validate
validate_accepts engine cel p h = ground arith

-- The policy that an accepted validation leaves.
pub record IsValidPolicy (engine : Engine) (cel : Cel) (p : Policy) : Type 0 where
  pub validated : p.validated ≡ true
  pub nonempty : p.rules ≢ []
  pub rules : All (IsValidRule engine cel) p.rules

-- An accepted policy has at least one rule, and each is compiled from its own pattern and
-- expression, which type-checks as a Boolean, grants to a named account and names its permissions;
-- its name, match block and grant are those of the policy that was validated.
pub validate_sound :
    (engine : Engine) (cel : Cel) (p : Policy)
    → (validate engine cel p).1 ≡ none
    → IsValidPolicy engine cel (validate engine cel p).0
      × (map declared (validate engine cel p).0.rules ≡ map declared p.rules)
validate_sound engine cel p h =
    let (nonempty, passed, result) = validate_accepts engine cel p h in
    let (valid, same) = validate_rules_sound engine cel 0 p.rules passed in
    rw result (
      record {
        validated = refl;
        nonempty = nonempty_of_map _ p.rules same nonempty;
        rules = valid;
      },
      same,
    )

-- A refused policy keeps the mark that it had, so that one that was never accepted stays unusable.
pub validate_refused :
    (engine : Engine) (cel : Cel) (p : Policy) (e : PolicyError)
    → (validate engine cel p).1 ≡ some e
    → (validate engine cel p).0.validated ≡ p.validated
unfolding validate
validate_refused engine cel p e h = ground arith
