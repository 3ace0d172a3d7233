-- ===== src/Regexp.antt =====
-- Go's `regexp`: the part of its syntax that a compiled glob uses is modelled here byte by byte
-- (anchors, literals, escapes and `.*`). A pattern outside that part goes to an engine, which is a
-- parameter: only a "re:" pattern of a policy can hold one.
pub mod Glob
use nats_oidc_callout.Prelude.{
  ℕ, zero, suc, ◌+◌, Bool, true, false, ◌||◌, Option, none, some, List, [], ◌∷◌, ◌++◌, ◌==◌, any,
  if◌then◌else◌,
}
use nats_oidc_callout.Prelude.Texts.{Text, codes}
use mathlib.Core.Option

-- The bytes that `QuoteMeta` escapes.
abbrev pub special_bytes : List ℕ
special_bytes = codes "\\.+*?()|[]{}^$"

unfoldable pub is_special : ℕ → Bool
is_special c = any (λ d. d == c) special_bytes

unfoldable pub quote_meta : Text → Text
unfolding is_special
quote_meta [] = []
quote_meta (c ∷ s) = let rest = quote_meta s in if is_special c then b'\\' ∷ c ∷ rest else c ∷ rest

-- `begin` and `finish` are the anchors ^ and $ of the whole text, `gap` is `.*`.
pub data Item : Type 0 where
  begin finish gap : Item
  lit : ℕ → Item

-- What the parser has read: nothing, a backslash, or a dot.
pub data Pending : Type 0 where
  plain escaped dotted : Pending

-- One byte of the pattern: the next state and the items that it completes.
unfoldable pub parse_byte : Pending → ℕ → Option (Pending × List Item)
unfolding is_special
parse_byte plain c =
    if c == b'^'
    then some (plain, begin ∷ [])
    else if c == b'$'
    then some (plain, finish ∷ [])
    else if c == b'\\'
    then some (escaped, [])
    else if c == b'.'
    then some (dotted, [])
    else if is_special c
    then none
    else some (plain, lit c ∷ [])
parse_byte escaped c = if is_special c then some (plain, lit c ∷ []) else none
parse_byte dotted c = if c == b'*' then some (plain, gap ∷ []) else none

-- The items of a pattern, `none` if it leaves the part of the syntax that is modelled.
unfoldable pub parse : Pending → Text → Option (List Item)
unfolding parse_byte
parse plain [] = some []
parse escaped [] = none
parse dotted [] = none
parse p (c ∷ s) = elim (parse_byte p c) [
  | none ↦ none
  | some (p', items) ↦ Option.map (λ rest. items ++ rest) (parse p' s)
]

-- The `regexp` package on the patterns that `parse` leaves: does a source compile, and the leftmost
-- match of it in a text, as start and end.
pub record Engine : Type 0 where
  pub compiles : Text → Bool
  pub find : Text → Text → Option (ℕ × ℕ)

pub data Regexp : Type 0 where
  simple : List Item → Regexp
  general : Text → Regexp

-- `regexp.Compile`; `none` is its error.
unfoldable pub compile : Engine → Text → Option Regexp
unfolding parse
compile engine source = elim (parse plain source) [
  | some items ↦ some (simple items)
  | none ↦ if engine.compiles source then some (general source) else none
]

-- The longest gap first, as `.*` is greedy; a gap holds no line feed.
abbrev pub skip : (Bool → Text → Option ℕ) → Bool → Text → Option ℕ
skip rest at_begin [] = rest at_begin []
skip rest at_begin (c ∷ s) =
    let here = rest at_begin (c ∷ s) in
    let longer = skip rest false s in
    if c == b'\n' then here else elim longer [ some n ↦ some (suc n) | none ↦ here ]

-- The number of bytes of the match that begins here; `at_begin` holds at the start of the text.
unfoldable pub run : List Item → Bool → Text → Option ℕ
run [] at_begin s = some 0
run (begin ∷ items) at_begin s = let rest = run items at_begin s in if at_begin then rest else none
run (finish ∷ items) at_begin [] = run items at_begin []
run (finish ∷ items) at_begin (c ∷ s) = none
run (gap ∷ items) at_begin s = skip (run items) at_begin s
run (lit d ∷ items) at_begin [] = none
run (lit d ∷ items) at_begin (c ∷ s) =
    let rest = run items false s in if c == d then Option.map suc rest else none

-- The leftmost match, from the position `pos` on.
unfoldable pub find_from : List Item → ℕ → Bool → Text → Option (ℕ × ℕ)
unfolding run
find_from items pos at_begin [] = Option.map (λ n. (pos, pos + n)) (run items at_begin [])
find_from items pos at_begin (c ∷ s) =
    let later = find_from items (suc pos) false s in
    elim (run items at_begin (c ∷ s)) [ some n ↦ some (pos, pos + n) | none ↦ later ]

-- `(*Regexp).FindStringIndex`
unfoldable pub find_string_index : Engine → Regexp → Text → Option (ℕ × ℕ)
unfolding find_from
find_string_index engine (simple items) s = find_from items 0 true s
find_string_index engine (general source) s = engine.find source s
