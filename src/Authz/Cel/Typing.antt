-- ===== src/Authz/Cel/Typing.antt =====
-- The types of the variables that programs are compiled for and are handed.
use nats_oidc_callout.Prelude.{ℕ, ◌≡◌, ◌≢◌, refl, true, List, map}
use nats_oidc_callout.Prelude.Texts.{Text}
use nats_oidc_callout.Identity.{Identity}
use nats_oidc_callout.Authz.Cel.{
  Cel, CelType, string_type, timestamp_type, list_type, map_type, Value, string, strings,
  string_map, time, other, variables, activation,
}

-- The type under which cel-go takes a value of Go.
abbrev pub type_of : Value → CelType
type_of (string _) = string_type
type_of (strings _) = list_type string_type
type_of (string_map _) = map_type string_type string_type
type_of (time _) = timestamp_type

abbrev pub types : List (Text × Value) → List (Text × CelType)
types values = map (λ (v : Text × Value). (v.0, type_of v.1)) values

-- What the CEL library documents: an expression that type-checks as a Boolean on the declared variables
-- evaluates, on values of their types, to a Boolean or to an error.
abbrev pub CelLaws : Cel → Type 0
CelLaws cel =
    (declared : List (Text × CelType)) (expr : Text) (values : List (Text × Value))
    → cel.compiles declared expr ≡ true
    → cel.is_bool declared expr ≡ true
    → types values ≡ declared
    → cel.eval expr values ≢ other

-- Every evaluation hands a program a value of the declared type for each declared variable.
pub activation-types : (now : ℕ) (id : Identity) → types (activation now id) ≡ variables
unfolding variables activation
activation-types now id = refl
