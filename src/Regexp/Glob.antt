-- ===== src/Regexp/Glob.antt =====
-- Globs as regular expressions: the source that a glob compiles to, and what it matches.
use mathlib.Core.Path.{subst}
use nats_oidc_callout.Prelude.{
  ℕ, ◌+◌, ◌≡◌, refl, ap, ◌∙◌, Bool, false, Option, none, some, List, [], ◌∷◌, ◌++◌, map, ◌==◌,
  arith, ◌≢◌, inl, inr, length, All, length-append, append_assoc, append-nil, Option-cases,
  Bool-cases,
}
use nats_oidc_callout.Prelude.Texts.{Text, codes}
use nats_oidc_callout.Regexp.{quote_meta, Item, finish, gap, lit, plain, parse, skip, run}

-- A text matches a list of parts if it is the parts in order with gaps between them, no gap with a
-- line feed in it.
abbrev pub Matches : List Text → Text → Type 0
Matches [] t = ⊥
Matches (p ∷ []) t = t ≡ p
Matches (p ∷ q ∷ ps) t =
    (g : Text) × (rest : Text) × (t ≡ p ++ (g ++ rest))
    × All (λ c. c ≢ b'\n') g
    × Matches (q ∷ ps) rest

-- The items between the anchors, and the closing anchor.
abbrev pub body : List Text → List Item
body [] = finish ∷ []
body (p ∷ []) = map lit p ++ (finish ∷ [])
body (p ∷ q ∷ ps) = map lit p ++ (gap ∷ body (q ∷ ps))

-- The text between the anchors of a glob's source.
abbrev pub source_of : List Text → Text
source_of [] = []
source_of (p ∷ []) = quote_meta p
source_of (p ∷ q ∷ ps) = quote_meta p ++ (codes ".*" ++ source_of (q ∷ ps))

-- A byte that is escaped is read as that byte, and so is one that needs no escape.
parse-quote_meta :
    (p s : Text) (items : List Item)
    → parse plain s ≡ some items
    → parse plain (quote_meta p ++ s) ≡ some (map lit p ++ items)
unfolding parse quote_meta
parse-quote_meta [] s items h = h
parse-quote_meta (c ∷ p) s items h = ground (arith, parse-quote_meta p s items h)

parse-gap :
    (s : Text) (items : List Item)
    → parse plain s ≡ some items
    → parse plain (codes ".*" ++ s) ≡ some (gap ∷ items)
unfolding parse
parse-gap s items h = rw h

-- The source of a glob is read back as its parts.
pub parse-source_of :
    (p : Text) (ps : List Text)
    → parse plain (source_of (p ∷ ps) ++ codes "$") ≡ some (body (p ∷ ps))
parse-source_of p [] = parse-quote_meta p (codes "$") (finish ∷ []) (unfold parse in refl)
parse-source_of p (q ∷ ps) =
    let tail_items = parse-gap (source_of (q ∷ ps) ++ codes "$") _ (parse-source_of q ps) in
    rw append_assoc (parse-quote_meta p _ (gap ∷ body (q ∷ ps)) tail_items)

-- What a literal consumes.
run-lit_sound :
    (p : Text) (items : List Item) (at : Bool) (t : Text) (n : ℕ)
    → run (map lit p ++ items) at t ≡ some n
    → (at' : Bool) × (rest : Text) × (k : ℕ) × (t ≡ p ++ rest)
      × (run items at' rest ≡ some k)
      × (n ≡ length p + k)
unfolding run
run-lit_sound [] items at t n h = (at, t, n, refl, h, omega arith)
run-lit_sound (d ∷ p) items at [] n h = cc
run-lit_sound (d ∷ p) items at (c ∷ t) n h =
    elim (Option-cases (run (map lit p ++ items) false t)) [
      | inl e ↦ absurd (ground arith)
      | inr (m, e) ↦
          let (at', rest, k, et, er, en) = run-lit_sound p items false t m e in
          (at', rest, k, ground arith, er, ground arith)
    ]

run-lit_complete :
    (p : Text) (items : List Item) (t : Text)
    → ((at : Bool) → run items at t ≢ none)
    → (at : Bool) → run (map lit p ++ items) at (p ++ t) ≢ none
unfolding run
run-lit_complete [] items t h at = h at
run-lit_complete (d ∷ p) items t h at = ground (arith, run-lit_complete p items t h false)

-- What a gap consumes.
skip_sound :
    (f : Bool → Text → Option ℕ) (at : Bool) (t : Text) (n : ℕ)
    → skip f at t ≡ some n
    → (g : Text) × (at' : Bool) × (rest : Text) × (k : ℕ) × (t ≡ g ++ rest)
      × All (λ c. c ≢ b'\n') g
      × (f at' rest ≡ some k)
      × (n ≡ length g + k)
skip_sound f at [] n h = ([], at, [], n, refl, tt, h, omega arith)
skip_sound f at (c ∷ t) n h = elim (Bool-cases (c == b'\n')) [
  | inl e ↦ ([], at, c ∷ t, n, refl, tt, ground arith, omega arith)
  | inr e ↦ elim (Option-cases (skip f false t)) [
    | inl e' ↦ ([], at, c ∷ t, n, refl, tt, ground arith, omega arith)
    | inr (m, e') ↦
        let (g, at', rest, k, et, lacks, er, en) = skip_sound f false t m e' in
        (c ∷ g, at', rest, k, ap (λ r. c ∷ r) et, (ground arith, lacks), er, ground arith)
  ]
]

skip_complete :
    (f : Bool → Text → Option ℕ) (g rest : Text)
    → All (λ c. c ≢ b'\n') g
    → ((at : Bool) → f at rest ≢ none)
    → (at : Bool) → skip f at (g ++ rest) ≢ none
skip_complete f [] [] _ h at = h at
skip_complete f [] (c ∷ t) _ h at = ground (arith, h at)
skip_complete f (c ∷ g) rest (p, lacks) h at = ground (arith, skip_complete f g rest lacks h false)

run-finish : (at : Bool) (t : Text) (n : ℕ) → run (finish ∷ []) at t ≡ some n → (t ≡ []) × (n ≡ 0)
unfolding run
run-finish at [] n h = (refl, ground arith)
run-finish at (c ∷ t) n h = cc

run-finish_nil : (at : Bool) → run (finish ∷ []) at [] ≢ none
unfolding run
run-finish_nil at h = cc

run-gap_complete :
    (items : List Item) (g rest : Text)
    → All (λ c. c ≢ b'\n') g
    → ((at : Bool) → run items at rest ≢ none)
    → (at : Bool) → run (gap ∷ items) at (g ++ rest) ≢ none
unfolding run
run-gap_complete items g rest lacks h at = skip_complete (run items) g rest lacks h at

-- A match of the items of a glob is a match of the whole text.
pub run-body_sound :
    (p : Text) (ps : List Text) (at : Bool) (t : Text) (n : ℕ)
    → run (body (p ∷ ps)) at t ≡ some n
    → Matches (p ∷ ps) t × (n ≡ length t)
run-body_sound p [] at t n h =
    let (at', rest, k, et, er, en) = run-lit_sound p (finish ∷ []) at t n h in
    let (nothing, zero_bytes) = run-finish at' rest k er in
    let same : t ≡ p = et ∙ rw nothing (append-nil p) in (same, rw same (omega arith))
run-body_sound p (q ∷ ps) at t n h =
    let (at', rest, k, et, er, en) = run-lit_sound p (gap ∷ body (q ∷ ps)) at t n h in
    let (g, at'', rest', k', et', lacks, er', en') =
      skip_sound (run (body (q ∷ ps))) at' rest k (unfold run in er) in
    let (later, whole) = run-body_sound q ps at'' rest' k' er' in
    (
      (g, rest', rw (← et') et, lacks, later),
      omega (arith, ap length et, ap length et', length-append p rest, length-append g rest'),
    )

-- Every text that matches the parts is matched by the items of the glob.
pub run-body_complete :
    (p : Text) (ps : List Text) (t : Text)
    → Matches (p ∷ ps) t
    → (at : Bool) → run (body (p ∷ ps)) at t ≢ none
run-body_complete p [] t e at = rw e (
    subst (λ (u : Text). run (map lit p ++ (finish ∷ [])) at u ≢ none) (append-nil p)
      (run-lit_complete p (finish ∷ []) [] run-finish_nil at))
run-body_complete p (q ∷ ps) t (g, rest, e, lacks, m) at = rw e (
    run-lit_complete p (gap ∷ body (q ∷ ps)) (g ++ rest)
      (run-gap_complete (body (q ∷ ps)) g rest lacks (run-body_complete q ps rest m)) at)
