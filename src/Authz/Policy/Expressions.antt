-- ===== src/Authz/Policy/Expressions.antt =====
-- The expressions of an accepted policy at the evaluation of a request.
use nats_oidc_callout.Prelude.{
  ℕ, ◌≡◌, ◌≢◌, refl, ◌⊎◌, inl, inr, Bool, false, none, some, get_elem?, All-get_elem?, [],
}
use nats_oidc_callout.Prelude.Texts.{Text}
use nats_oidc_callout.Identity.{Identity}
use nats_oidc_callout.Regexp.{Engine}
use nats_oidc_callout.Authz.Cel.{
  Cel, Outcome, failed, other, boolean, activation, eval_cel, variables,
}
use nats_oidc_callout.Authz.Cel.Typing.{CelLaws, activation-types}
use nats_oidc_callout.Authz.Rules.{Rule, program_matches}
use nats_oidc_callout.Authz.Policy.{Policy, validate}
use nats_oidc_callout.Authz.Policy.Validation.{IsValidRule, IsBoolean, validate_sound}

-- The outcome is a Boolean, which is the answer, or an error, which is none.
abbrev pub Decides : Outcome → Bool → Type 0
Decides outcome answer =
    ((outcome ≡ failed) × (answer ≡ false)) ⊎ ((b : Bool) × (outcome ≡ boolean b) × (answer ≡ b))

eval_cel-Decides :
    (cel : Cel) (now : ℕ) (program : Text) (id : Identity) (outcome : Outcome)
    → cel.eval program (activation now id) ≡ outcome
    → outcome ≢ other
    → Decides outcome (eval_cel cel now program id)
unfolding eval_cel
eval_cel-Decides cel now program id failed e n = inl (refl, rw (e, eval_cel) refl)
eval_cel-Decides cel now program id other e n = absurd (n refl)
eval_cel-Decides cel now program id (boolean b) e n = inr (b, refl, rw (e, eval_cel) refl)

IsBoolean-ne-other :
    (cel : Cel) (now : ℕ) (expr : Text) (id : Identity)
    → CelLaws cel
    → IsBoolean cel expr
    → cel.eval expr (activation now id) ≢ other
IsBoolean-ne-other cel now expr id laws (compiles, is_bool) =
    laws variables expr (activation now id) compiles is_bool (activation-types now id)

-- With the CEL library as documented, each expression of an accepted policy, whatever the identity and
-- the time, evaluates to a Boolean, which is what the rule's expression answers, or to an error, on
-- which it does not match; no evaluation yields another kind of value.
pub validate-Decides :
    (engine : Engine) (cel : Cel) (p : Policy) (now : ℕ) (id : Identity) (r : Rule) (i : ℕ)
    → CelLaws cel
    → (validate engine cel p).1 ≡ none
    → get_elem? (validate engine cel p).0.rules i ≡ some r
    → r.match.expr ≢ []
    → Decides (cel.eval r.match.expr (activation now id)) (program_matches cel now r.cel_program id)
validate-Decides engine cel p now id r i laws accepted at given_one =
    let valid = (validate_sound engine cel p accepted).0 in
    let rule =
      All-get_elem? (IsValidRule engine cel) (validate engine cel p).0.rules i valid.rules at in
    elim rule.program [
      | inl none_given ↦ absurd (given_one none_given)
      | inr compiled ↦ elim rule.checked [
        | inl none_given ↦ absurd (given_one none_given)
        | inr checked ↦ rw compiled (
            eval_cel-Decides cel now r.match.expr id (cel.eval r.match.expr (activation now id))
              refl (IsBoolean-ne-other cel now r.match.expr id laws checked))
      ]
    ]
