-- ===== src/Authz/Patterns/Globs.antt =====
-- A glob pattern matches exactly the subjects that its parts describe.
use mathlib.Core.Option
use nats_oidc_callout.Prelude.{
  ℕ, suc, ◌+◌, ◌≡◌, refl, inl, inr, true, false, none, some, List, [], ◌∷◌, ◌++◌, ◌==◌, arith, ◌↔◌,
  ◌≢◌, ok, append_assoc, Option-cases, Bool-cases,
}
use nats_oidc_callout.Prelude.Texts.{Text, codes, text_eq_refl}
use nats_oidc_callout.Strings.{cut_prefix, split}
use nats_oidc_callout.Strings.Splitting.{trim_suffix-append}
use nats_oidc_callout.Regexp.{
  Engine, Regexp, simple, Item, begin, compile, run, find_from, find_string_index,
}
use nats_oidc_callout.Regexp.Glob.{
  Matches, body, source_of, parse-source_of, run-body_sound, run-body_complete,
}
use nats_oidc_callout.Authz.Patterns.{compile_sub, glob_source, write_segments, sub_matches}

-- The items of a compiled glob.
abbrev pub glob : List Text → Regexp
glob parts = simple (begin ∷ body parts)

-- A text has at least one part.
split-cons : (sep : ℕ) (s : Text) → (p : Text) × (ps : List Text) × (split sep s ≡ p ∷ ps)
unfolding split
split-cons sep [] = ([], [], refl)
split-cons sep (c ∷ s) = elim (Bool-cases (c == sep)) [
  | inl e ↦ ([], split sep s, ground arith)
  | inr e ↦ let (p, ps, h) = split-cons sep s in (c ∷ p, ps, ground arith)
]

write_segments_lem :
    (p : Text) (ps : List Text) → write_segments (p ∷ ps) ≡ source_of (p ∷ ps) ++ codes ".*"
unfolding write_segments
write_segments_lem p [] = refl
write_segments_lem p (q ∷ ps) = rw (write_segments_lem q ps, append_assoc) refl

glob_source_lem :
    (pattern p : Text) (ps : List Text)
    → split b'*' pattern ≡ p ∷ ps
    → glob_source pattern ≡ codes "^" ++ (source_of (p ∷ ps) ++ codes "$")
unfolding glob_source
glob_source_lem pattern p ps e =
    let cut =
      trim_suffix-append (source_of (p ∷ ps)) (codes ".*") (text_eq_refl (codes ".*")) (λ h. cc) in
    rw (e, write_segments_lem p ps, cut)

compile-glob_source :
    (engine : Engine) (pattern : Text)
    → compile engine (glob_source pattern) ≡ some (glob (split b'*' pattern))
unfolding compile
compile-glob_source engine pattern =
    let (p, ps, e) = split-cons b'*' pattern in
    rw (glob_source_lem pattern p ps e, e) (rw (parse-source_of p ps, compile))

find_from-begin_later :
    (items : List Item) (pos : ℕ) (t : Text) → find_from (begin ∷ items) pos false t ≡ none
unfolding find_from
find_from-begin_later items pos [] = refl
find_from-begin_later items pos (c ∷ t) = rw (find_from-begin_later items (suc pos) t) refl

-- The match of an anchored pattern is the one that begins at 0.
find-glob :
    (engine : Engine) (parts : List Text) (t : Text)
    → find_string_index engine (glob parts) t
      ≡ Option.map (λ (n : ℕ). (0, 0 + n)) (run (body parts) true t)
unfolding find_string_index run
find-glob engine parts [] = refl
find-glob engine parts (c ∷ t) = ground (arith, find_from-begin_later (body parts) 1 t)

-- A compiled glob matches the subjects that its parts match.
sub_matches-parts :
    (engine : Engine) (p : Text) (ps : List Text) (t : Text)
    → (sub_matches engine (some (glob (p ∷ ps))) t ≡ true) ↔ Matches (p ∷ ps) t
unfolding sub_matches
sub_matches-parts engine p ps t = elim (Option-cases (run (body (p ∷ ps)) true t)) [
  | inl e ↦ (
    λ h. absurd (ground (arith, find-glob engine (p ∷ ps) t)),
    λ m. absurd (run-body_complete p ps t m true e),
  )
  | inr (n, e) ↦
      let (m, whole) = run-body_sound p ps true t n e in
      (λ _. m, λ _. rw (find-glob engine (p ∷ ps) t, e, whole) (ground arith))
]

-- A glob, that is a nonempty pattern without the prefix "re:", compiles, and the rule's subject test
-- accepts exactly the subjects that consist of the pattern's parts between its "*", in order, with
-- any bytes but line feeds in their gaps.
pub sub_matches-glob :
    (engine : Engine) (pattern sub : Text)
    → pattern ≢ []
    → cut_prefix pattern (codes "re:") ≡ none
    → (compile_sub engine pattern ≡ ok (some (glob (split b'*' pattern))))
      × ((sub_matches engine (some (glob (split b'*' pattern))) sub ≡ true)
          ↔ Matches (split b'*' pattern) sub)
unfolding compile_sub
sub_matches-glob engine [] sub ne e = absurd (ne refl)
sub_matches-glob engine (c ∷ pattern) sub ne e =
    let (p, ps, parts) = split-cons b'*' (c ∷ pattern) in
    (
      ground (arith, compile-glob_source engine (c ∷ pattern)),
      rw parts (sub_matches-parts engine p ps sub),
    )
