-- ===== src/Strings.antt =====
-- The functions of Go's `strings` that the source calls, over texts as lists of bytes. A separator
-- is one byte, as in every call of the source.
pub mod Splitting
use nats_oidc_callout.Prelude.{
  ℕ, zero, suc, Bool, true, false, ◌&&◌, ◌||◌, Option, none, some, List, [], ◌∷◌, ◌++◌, ◌==◌,
  if◌then◌else◌, leb,
}
use nats_oidc_callout.Prelude.Texts.{Text, text_eq}

unfoldable pub has_prefix : Text → Text → Bool
has_prefix s [] = true
has_prefix [] (d ∷ p) = false
has_prefix (c ∷ s) (d ∷ p) = c == d && has_prefix s p

-- The text behind the prefix, if the text has it.
unfoldable pub cut_prefix : Text → Text → Option Text
cut_prefix s [] = some s
cut_prefix [] (d ∷ p) = none
cut_prefix (c ∷ s) (d ∷ p) = let rest = cut_prefix s p in if c == d then rest else none

unfoldable pub has_suffix : Text → Text → Bool
unfolding text_eq
has_suffix [] p = text_eq [] p
has_suffix (c ∷ s) p = text_eq (c ∷ s) p || has_suffix s p

-- The text without the suffix, or the text itself if it does not end so.
unfoldable pub trim_suffix : Text → Text → Text
unfolding text_eq
trim_suffix [] p = []
trim_suffix (c ∷ s) p = let rest = trim_suffix s p in if text_eq (c ∷ s) p then [] else c ∷ rest

unfoldable pub contains_byte : ℕ → Text → Bool
contains_byte b [] = false
contains_byte b (c ∷ s) = c == b || contains_byte b s

-- Puts a byte in front of the first part.
abbrev pub cons_head : ℕ → List Text → List Text
cons_head c [] = (c ∷ []) ∷ []
cons_head c (p ∷ ps) = (c ∷ p) ∷ ps

unfoldable pub split : ℕ → Text → List Text
split sep [] = [] ∷ []
split sep (c ∷ s) = let rest = split sep s in if c == sep then [] ∷ rest else cons_head c rest

-- `SplitN(s, sep, cuts + 1)`: the last part keeps what is left uncut.
unfoldable pub split_n : ℕ → ℕ → Text → List Text
split_n sep zero s = s ∷ []
split_n sep (suc cuts) [] = [] ∷ []
split_n sep (suc cuts) (c ∷ s) =
    let cut = [] ∷ split_n sep cuts s in
    let longer = cons_head c (split_n sep (suc cuts) s) in if c == sep then cut else longer

unfoldable pub join : ℕ → List Text → Text
join sep [] = []
join sep (p ∷ []) = p
join sep (p ∷ q ∷ ps) = p ++ (sep ∷ join sep (q ∷ ps))

-- `unicode.IsSpace` on ASCII: tab, line feed, vertical tab, form feed, carriage return, space.
unfoldable pub is_space : ℕ → Bool
is_space c = c == 32 || leb 9 c && leb c 13

unfoldable pub trim_left : Text → Text
unfolding is_space
trim_left [] = []
trim_left (c ∷ s) = let rest = trim_left s in if is_space c then rest else c ∷ s

-- Drops the spaces at the end: a byte stays if it is no space or something stays behind it.
unfoldable pub trim_right : Text → Text
unfolding is_space
trim_right [] = []
trim_right (c ∷ s) = elim (trim_right s) [
  | [] ↦ if is_space c then [] else c ∷ []
  | d ∷ t ↦ c ∷ d ∷ t
]

unfoldable pub trim_space : Text → Text
unfolding trim_left trim_right
trim_space s = trim_right (trim_left s)
