-- ===== src/Authz/Policy/Guardrail.antt =====
-- What a decision of an accepted policy says of the identity and of the permissions.
use nats_oidc_callout.Prelude.{
  ℕ, ◌+◌, ◌≡◌, refl, ap, ◌∙◌, true, false, Option, none, some, List, [], ◌∷◌, ◌++◌, arith, ◌≢◌, ◌⊎◌,
  inl, inr, All, ok, length, get_elem?, is_empty, ◌&&◌,
}
use nats_oidc_callout.Identity.{Identity}
use nats_oidc_callout.Regexp.{Engine}
use nats_oidc_callout.Authz.Cel.{Cel}
use nats_oidc_callout.Authz.Rules.{
  Permission, Rule, Decision, jwt_permission, permission_limits, has_strong_pin,
}
use nats_oidc_callout.Authz.Rules.Matching.{IsPinned, IsMatched, has_strong_pin_sound}
use nats_oidc_callout.Authz.Policy.{Policy, is_empty_permission, validate, evaluate, decide_by}
use nats_oidc_callout.Authz.Policy.Evaluation.{evaluate-eq-ok_iff}
use nats_oidc_callout.Authz.Policy.Validation.{IsValidRule, IsValidPolicy, validate_sound}

module _ {ℓ κ} {A : Type ℓ} (P : A → Type κ) where
  All-middle : (before : List A) {x : A} (after : List A) → All P (before ++ (x ∷ after)) → P x
  All-middle [] after (p, _) = p
  All-middle (y ∷ before) after (_, h) = All-middle before after h

get_elem?-middle {ℓ} :
    {A : Type ℓ} (before : List A) (x : A) (after : List A)
    → get_elem? (before ++ (x ∷ after)) (length before) ≡ some x
get_elem?-middle [] x after = refl
get_elem?-middle (y ∷ before) x after = get_elem?-middle before x after

-- A direction that is not the empty permission, which NATS takes as unrestricted.
abbrev pub IsExplicit : Permission → Type 0
IsExplicit p = (is_empty p.allow && is_empty p.deny) ≡ false

jwt_permission-IsExplicit :
    (p : Option Permission) → is_empty_permission p ≡ false → IsExplicit (jwt_permission p)
unfolding jwt_permission is_empty_permission
jwt_permission-IsExplicit none h = refl
jwt_permission-IsExplicit (some p) h = h

-- The rule behind a decision, with what validation and matching say of it.
pub record Granted (engine : Engine) (cel : Cel) (now : ℕ) (p : Policy) (id : Identity)
    (d : Decision) : Type 0 where
  pub rule : Rule
  pub index : ℕ
  pub listed : get_elem? p.rules index ≡ some rule
  pub decided : d ≡ decide_by rule index
  pub matched : IsMatched engine cel now rule id
  pub valid : IsValidRule engine cel rule

granted :
    (engine : Engine) (cel : Cel) (now : ℕ) (p : Policy) (id : Identity) (d : Decision)
    → IsValidPolicy engine cel p
    → evaluate engine cel now p id ≡ ok d
    → Granted engine cel now p id d
granted engine cel now p id d v h =
    let f = (evaluate-eq-ok_iff engine cel now p id d v.validated).0 h in
    let index : 0 + length f.before ≡ length f.before = omega arith in
    record {
      rule = f.rule;
      index = length f.before;
      listed = rw f.order (get_elem?-middle f.before f.rule f.after);
      decided = f.decided ∙ ap (decide_by f.rule) index;
      matched = f.matched;
      valid = All-middle (IsValidRule engine cel) f.before f.after (rw f.order at v.rules);
    }

-- The rule of a decision was accepted as broad, or it pins the identity.
Granted-IsPinned :
    (engine : Engine) (cel : Cel) (now : ℕ) (p : Policy) (id : Identity) (d : Decision)
    → (g : Granted engine cel now p id d)
    → (g.rule.match.allow_broad ≡ true) ⊎ IsPinned g.rule.match id
Granted-IsPinned engine cel now p id d g = go g.valid.guarded
  where
    go :
        (has_strong_pin g.rule.match ≡ true) ⊎ (g.rule.match.allow_broad ≡ true)
        → (g.rule.match.allow_broad ≡ true) ⊎ IsPinned g.rule.match id
    go (inl pin) = inr (
        has_strong_pin_sound engine g.rule id g.valid.compiled g.matched.subject g.matched.claims
          pin)
    go (inr broad) = inl broad

-- The rule behind a decision of a valid policy, as the guardrail promises it.
pub IsValidPolicy-IsPinned :
    (engine : Engine) (cel : Cel) (now : ℕ) (p : Policy) (id : Identity) (d : Decision)
    → IsValidPolicy engine cel p
    → evaluate engine cel now p id ≡ ok d
    → (rule : Rule) × (index : ℕ) × (get_elem? p.rules index ≡ some rule)
      × (d ≡ decide_by rule index)
      × IsMatched engine cel now rule id
      × ((rule.match.allow_broad ≡ true) ⊎ IsPinned rule.match id)
      × ((rule.match.expr ≡ []) ⊎ (rule.match.allow_broad ≡ true))
IsValidPolicy-IsPinned engine cel now p id d v h =
    let g = granted engine cel now p id d v h in
    (
      g.rule,
      g.index,
      g.listed,
      g.decided,
      g.matched,
      Granted-IsPinned engine cel now p id d g,
      g.valid.expr_is_broad,
    )

pub IsValidPolicy-IsExplicit :
    (engine : Engine) (cel : Cel) (now : ℕ) (p : Policy) (id : Identity) (d : Decision)
    → IsValidPolicy engine cel p
    → evaluate engine cel now p id ≡ ok d
    → IsExplicit d.permissions.publish × IsExplicit d.permissions.subscribe × (d.account ≢ [])
unfolding permission_limits
IsValidPolicy-IsExplicit engine cel now p id d v h =
    let g = granted engine cel now p id d v h in
    rw g.decided (
      jwt_permission-IsExplicit g.rule.grant.publish g.valid.publish,
      jwt_permission-IsExplicit g.rule.grant.subscribe g.valid.subscribe,
      g.valid.account,
    )

-- The guardrail: a decision of an accepted policy comes from a rule of that policy that matches the
-- identity and either acknowledges with `allow_broad` that it is broad or pins the identity: by the
-- exact subject that the rule names, by the first five fields of the rule's ARN with a literal account,
-- by the AWS account that the rule asks for, or by the value that it asks for in one of the strong GitHub
-- claims. A rule with a CEL expression is always of the first kind.
pub evaluate-IsPinned :
    (engine : Engine) (cel : Cel) (now : ℕ) (p : Policy) (id : Identity) (d : Decision)
    → (validate engine cel p).1 ≡ none
    → evaluate engine cel now (validate engine cel p).0 id ≡ ok d
    → (rule : Rule) × (index : ℕ) × (get_elem? (validate engine cel p).0.rules index ≡ some rule)
      × (d ≡ decide_by rule index)
      × IsMatched engine cel now rule id
      × ((rule.match.allow_broad ≡ true) ⊎ IsPinned rule.match id)
      × ((rule.match.expr ≡ []) ⊎ (rule.match.allow_broad ≡ true))
evaluate-IsPinned engine cel now p id d accepted h =
    IsValidPolicy-IsPinned engine cel now (validate engine cel p).0 id d
      (validate_sound engine cel p accepted).0 h

-- No decision of an accepted policy carries a permission that NATS would take as unrestricted by
-- omission: each direction lists an allowed or a denied subject, and the account has a name.
pub evaluate-IsExplicit :
    (engine : Engine) (cel : Cel) (now : ℕ) (p : Policy) (id : Identity) (d : Decision)
    → (validate engine cel p).1 ≡ none
    → evaluate engine cel now (validate engine cel p).0 id ≡ ok d
    → IsExplicit d.permissions.publish × IsExplicit d.permissions.subscribe × (d.account ≢ [])
evaluate-IsExplicit engine cel now p id d accepted h =
    IsValidPolicy-IsExplicit engine cel now (validate engine cel p).0 id d
      (validate_sound engine cel p accepted).0 h
