-- ===== src/Examples/Probes.antt =====
-- The metrics endpoint under its default path.
use nats_oidc_callout.Config.{check_decoded}
use nats_oidc_callout.Strings.{contains_byte, has_prefix}
use nats_oidc_callout.Prelude.{
  ◌≡◌, refl, ap, subst, In, none, some, List, [], ◌∷◌, ok, inl, inr, All, Bool-cases, if◌then◌else◌,
}
use nats_oidc_callout.Prelude.Texts.{Text, text_eq, text_eq_iff}
use nats_oidc_callout.Config.{validate_path}
use nats_oidc_callout.Metrics.Server.{Handler, default_path}
use nats_oidc_callout.Metrics.Server.Routes.{
  Mux, MuxLaw, AreDistinct, PlainLaw, AreServed, validate_path-AreServed,
}
use nats_oidc_callout.Examples.Services.{files}

-- The first pattern that is the path.
abbrev first_of : Mux
first_of [] path = none
first_of ((q, k) ∷ patterns) path =
    let later = first_of patterns path in if text_eq q path then some k else later

every_one : {A : Type 0} (P : A → Type 0) (xs : List A) (x : A) → All P xs → In x xs → P x
every_one P [] x all r = elim r [ ]
every_one P (y ∷ ys) x (p, all) (inl e) = subst P e p
every_one P (y ∷ ys) x (p, all) (inr r) = every_one P ys x all r

first_of-In :
    (patterns : List (Text × Handler)) (path : Text) (h : Handler)
    → AreDistinct files patterns
    → In (path, h) patterns
    → first_of patterns path ≡ some h
first_of-In [] path h apart r = elim r [ ]
first_of-In ((q, k) ∷ patterns) path h (alone, others) (inl e) =
    let same = (text_eq_iff q path).1 (ap (λ x. x.0) e) in rw same (ap (λ x. some x.1) e)
first_of-In ((q, k) ∷ patterns) path h (alone, others) (inr r) =
    elim (Bool-cases (text_eq q path)) [
      | inl e ↦
          let there = every_one _ patterns (path, h) alone r in
          absurd (there (ap some ((text_eq_iff q path).0 e)))
      | inr e ↦ rw e (first_of-In patterns path h others r)
    ]

mux_law : MuxLaw files first_of
mux_law patterns path h literal distinct clean same r = first_of-In patterns path h distinct r

plain_law : PlainLaw files
plain_law = record {
  liveness_plain = refl;
  liveness_clean = refl;
  readiness_plain = refl;
  readiness_clean = refl;
}

accepted : validate_path files default_path ≡ ok tt
unfolding validate_path has_prefix contains_byte check_decoded text_eq
accepted = refl

validate_path-AreServed_example : AreServed files first_of default_path
validate_path-AreServed_example =
    validate_path-AreServed files first_of default_path mux_law plain_law accepted
