-- ===== src/Authz/Cel.antt =====
-- internal/authz/cel.go. The CEL library is a parameter: a compiled program is represented by its
-- source, since the environment and the options are fixed.
pub mod Typing
use nats_oidc_callout.Prelude.{ℕ, Bool, false, not, List, [], ◌∷◌, Result, ok, ◌>>◌, fail_if}
use nats_oidc_callout.Prelude.Texts.{Text, codes}
use nats_oidc_callout.Identity.{Identity, Claims}

-- The types of cel-go that the environment uses.
pub data CelType : Type 0 where
  string_type timestamp_type : CelType
  list_type : CelType → CelType
  map_type : CelType → CelType → CelType

-- The variables that `newCELEnv` declares.
unfoldable pub variables : List (Text × CelType)
variables =
    (codes "sub", string_type)
    ∷ (codes "iss", string_type)
    ∷ (codes "aud", list_type string_type)
    ∷ (codes "claims", map_type string_type string_type)
    ∷ (codes "exp", timestamp_type)
    ∷ (codes "now", timestamp_type)
    ∷ []

-- A value of Go that a program is handed: a string, a []string, a map[string]string or a time.
pub data Value : Type 0 where
  string : Text → Value
  strings : List Text → Value
  string_map : Claims → Value
  time : ℕ → Value

-- What `Eval` returns: an error (the cost limit among them), a Boolean, or another value.
pub data Outcome : Type 0 where
  failed other : Outcome
  boolean : Bool → Outcome

-- The library, on the declared variables.
pub record Cel : Type 0 where
  pub new_env : List (Text × CelType) → Bool  -- `cel.NewEnv` succeeds
  pub compiles : List (Text × CelType) → Text → Bool  -- `env.Compile` has no issues
  pub is_bool : List (Text × CelType) → Text → Bool  -- the output type is exactly bool
  pub makes_program : List (Text × CelType) → Text → Bool  -- `env.Program` succeeds
  pub eval : Text → List (Text × Value) → Outcome  -- `prg.Eval`, under the cost limit

pub data CelError : Type 0 where
  invalid_expr not_bool bad_program : CelError

-- `compileCELProgram`
unfoldable pub compile_cel_program : Cel → Text → Result CelError Text
compile_cel_program cel expr = do
  fail_if (not (cel.compiles variables expr)) invalid_expr
  fail_if (not (cel.is_bool variables expr)) not_bool
  fail_if (not (cel.makes_program variables expr)) bad_program
  ok expr

-- The map that `evalCEL` hands to the program.
unfoldable pub activation : ℕ → Identity → List (Text × Value)
activation now id =
    (codes "sub", string id.subject)
    ∷ (codes "iss", string id.issuer)
    ∷ (codes "aud", strings id.audience)
    ∷ (codes "claims", string_map id.claims)
    ∷ (codes "exp", time id.expiry)
    ∷ (codes "now", time now)
    ∷ []

-- `evalCEL`: an error or a value that is no Boolean is no match.
unfoldable pub eval_cel : Cel → ℕ → Text → Identity → Bool
eval_cel cel now program id = elim (cel.eval program (activation now id)) [
  | failed ↦ false
  | other ↦ false
  | boolean b ↦ b
]
