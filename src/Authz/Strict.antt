-- ===== src/Authz/Strict.antt =====
-- `DecodeStrict` of internal/authz/authz.go. The YAML decoder is a parameter: each of its two calls has
-- an outcome.
use nats_oidc_callout.Prelude.{◌≡◌, refl, Option, none, some, arith, ◌⊎◌, ◌↔◌, inl, inr}

-- What a call of the decoder meets: the end of the input, malformed YAML or an unknown field, or a
-- document.
pub data Decoded (A : Type 0) : Type 0 where
  end_of_input malformed : Decoded A
  document : A → Decoded A

-- The second call: nothing may follow the document.
abbrev pub alone : {A : Type 0} → A → Decoded (Unit {0}) → Option A
alone a end_of_input = some a
alone a malformed = none
alone a (document _) = none

-- `DecodeStrict` into a value that is `zero_value` before; none is an error.
unfoldable pub decode_strict : {A : Type 0} → A → Decoded A → Decoded (Unit {0}) → Option A
decode_strict zero_value end_of_input next_one = some zero_value
decode_strict zero_value malformed next_one = none
decode_strict zero_value (document a) next_one = alone a next_one

-- A value is decoded exactly if the input is empty, and then it is the zero value, or holds that value
-- as its one document: an unknown field or a further document is an error.
pub decode_strict_iff :
    {A : Type 0} (zero_value a : A) (first : Decoded A) (next_one : Decoded (Unit {0}))
    → (decode_strict zero_value first next_one ≡ some a) ↔ (
        ((first ≡ end_of_input) × (zero_value ≡ a))
        ⊎ ((first ≡ document a) × (next_one ≡ end_of_input)))
unfolding decode_strict
decode_strict_iff zero_value a end_of_input next_one = (λ h. inl (refl, cc), λ h. ground arith)
decode_strict_iff zero_value a malformed next_one = (λ h. absurd (cc), λ h. ground arith)
decode_strict_iff zero_value a (document b) end_of_input =
    (λ h. let same : b ≡ a = cc in inr (rw same refl, refl), λ h. ground arith)
decode_strict_iff zero_value a (document b) malformed = (λ h. absurd (cc), λ h. ground arith)
decode_strict_iff zero_value a (document b) (document _) = (λ h. absurd (cc), λ h. ground arith)
