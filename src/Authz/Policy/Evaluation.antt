-- ===== src/Authz/Policy/Evaluation.antt =====
-- `Evaluate` is decided by the first rule that matches.
use nats_oidc_callout.Prelude.{
  ℕ, suc, ◌+◌, ◌≡◌, refl, ap, true, false, List, [], ◌∷◌, ◌++◌, arith, ◌↔◌, inl, inr, All,
  Bool-cases, ok, err, length, ◌∙◌, ◌≢◌,
}
use native.Mathlib.Nat.{add-zero}
use nats_oidc_callout.Identity.{Identity}
use nats_oidc_callout.Regexp.{Engine}
use nats_oidc_callout.Authz.Cel.{Cel}
use nats_oidc_callout.Authz.Rules.{Rule, Decision, matches}
use nats_oidc_callout.Authz.Rules.Matching.{IsMatched, matches_iff}
use nats_oidc_callout.Authz.Policy.{
  Policy, evaluate, evaluate_rules, decide_by, not_validated, no_match,
}

module _ (engine : Engine) (cel : Cel) (now : ℕ) (id : Identity) where
  abbrev pub Skipped : Rule → Type 0
  Skipped r = ¬ IsMatched engine cel now r id

  -- The rule that decides: the first one that matches, at its index in the policy.
  pub record Fires (start : ℕ) (rules : List Rule) (d : Decision) : Type 0 where
    pub before : List Rule
    pub rule : Rule
    pub after : List Rule
    pub order : rules ≡ before ++ (rule ∷ after)
    pub skipped : All Skipped before
    pub matched : IsMatched engine cel now rule id
    pub decided : d ≡ decide_by rule (start + length before)

  skips : (r : Rule) → matches engine cel now r id ≡ false → Skipped r
  skips r e m = ground (arith, (matches_iff engine cel now r id).1 m)

  Fires-cons :
      (start : ℕ) (r : Rule) (rs : List Rule) (d : Decision)
      → Skipped r
      → Fires (suc start) rs d
      → Fires start (r ∷ rs) d
  Fires-cons start r rs d skip f = record {
    before = r ∷ f.before;
    rule = f.rule;
    after = f.after;
    order = ap (λ q. r ∷ q) f.order;
    skipped = (skip, f.skipped);
    matched = f.matched;
    decided = f.decided ∙ ap (decide_by f.rule) (omega arith);
  }

  evaluate_rules_sound :
      (start : ℕ) (rules : List Rule) (d : Decision)
      → evaluate_rules engine cel now start rules id ≡ ok d
      → Fires start rules d
  unfolding evaluate_rules
  evaluate_rules_sound start [] d h = cc
  evaluate_rules_sound start (r ∷ rs) d h = elim (Bool-cases (matches engine cel now r id)) [
    | inl e ↦ record {
      before = [];
      rule = r;
      after = rs;
      order = refl;
      skipped = tt;
      matched = (matches_iff engine cel now r id).0 e;
      decided = rw (add-zero start) (ground arith);
    }
    | inr e ↦
        Fires-cons start r rs d (skips r e) (evaluate_rules_sound (suc start) rs d (ground arith))
  ]

  evaluate_rules_complete :
      (start : ℕ) (before : List Rule) (r : Rule) (after : List Rule)
      → All Skipped before
      → IsMatched engine cel now r id
      → evaluate_rules engine cel now start (before ++ (r ∷ after)) id
        ≡ ok (decide_by r (start + length before))
  unfolding evaluate_rules
  evaluate_rules_complete start [] r after h m =
      rw ((matches_iff engine cel now r id).1 m) (ap (λ i. ok (decide_by r i)) (omega arith))
  evaluate_rules_complete start (q ∷ before) r after (skip, h) m =
      elim (Bool-cases (matches engine cel now q id)) [
        | inl e ↦ absurd (skip ((matches_iff engine cel now q id).0 e))
        | inr e ↦ ground (arith, evaluate_rules_complete (suc start) before r after h m)
      ]

  evaluate_rules_none :
      (start : ℕ) (rules : List Rule)
      → (evaluate_rules engine cel now start rules id ≡ err no_match) ↔ All Skipped rules
  unfolding evaluate_rules
  evaluate_rules_none start [] = (λ _. tt, λ _. refl)
  evaluate_rules_none start (r ∷ rs) = elim (Bool-cases (matches engine cel now r id)) [
    | inl e ↦
        (λ h. absurd (ground arith), λ h. absurd (h.0 ((matches_iff engine cel now r id).0 e)))
    | inr e ↦ (
      λ h. (skips r e, (evaluate_rules_none (suc start) rs).0 (ground arith)),
      λ h. ground (arith, (evaluate_rules_none (suc start) rs).1 h.1),
    )
  ]

-- The loop itself never claims that the policy was not validated.
evaluate_rules-ne-not_validated :
    (engine : Engine) (cel : Cel) (now : ℕ) (id : Identity) (start : ℕ) (rules : List Rule)
    → evaluate_rules engine cel now start rules id ≢ err not_validated
unfolding evaluate_rules
evaluate_rules-ne-not_validated engine cel now id start [] h = cc
evaluate_rules-ne-not_validated engine cel now id start (r ∷ rs) h =
    ground (arith, evaluate_rules-ne-not_validated engine cel now id (suc start) rs)

-- A validated policy grants a decision exactly when some rule matches, and then the decision is
-- that of the first rule that does, under its name or its index.
pub evaluate-eq-ok_iff :
    (engine : Engine) (cel : Cel) (now : ℕ) (p : Policy) (id : Identity) (d : Decision)
    → p.validated ≡ true
    → (evaluate engine cel now p id ≡ ok d) ↔ Fires engine cel now id 0 p.rules d
unfolding evaluate
evaluate-eq-ok_iff engine cel now p id d v = (
  λ h. evaluate_rules_sound engine cel now id 0 p.rules d (ground arith),
  λ f. ground (
    arith,
    f.order,
    f.decided,
    evaluate_rules_complete engine cel now id 0 f.before f.rule f.after f.skipped f.matched,
  ),
)

-- Evaluation denies exactly when the policy was not validated, which no rule can change, or when it
-- was and no rule matches.
pub evaluate-denies_iff :
    (engine : Engine) (cel : Cel) (now : ℕ) (p : Policy) (id : Identity)
    → ((evaluate engine cel now p id ≡ err not_validated) ↔ (p.validated ≡ false))
      × ((evaluate engine cel now p id ≡ err no_match)
          ↔ ((p.validated ≡ true) × All (Skipped engine cel now id) p.rules))
unfolding evaluate
evaluate-denies_iff engine cel now p id =
    let never = evaluate_rules-ne-not_validated engine cel now id 0 p.rules in
    let (to, from) = evaluate_rules_none engine cel now id 0 p.rules in
    (
      (λ h. ground arith, λ h. ground arith),
      (λ h. (ground arith, to (ground arith)), λ h. ground (arith, from h.1)),
    )
