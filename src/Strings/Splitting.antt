-- ===== src/Strings/Splitting.antt =====
-- Facts on cutting texts at separators, prefixes and suffixes.
use nats_oidc_callout.Prelude.{
  Bool-cases, inl, inr, none, List, ◌==◌, ℕ, zero, suc, ◌≡◌, refl, ap, true, false, some, [], ◌∷◌,
  ◌++◌, arith, ◌≢◌, length, All, length-append,
}
use nats_oidc_callout.Prelude.Texts.{Text, text_eq, text_eq_iff}
use nats_oidc_callout.Strings.{
  has_prefix, cons_head, cut_prefix, trim_suffix, contains_byte, split, split_n,
}

-- A byte that stands nowhere in the text.
abbrev pub Lacks : ℕ → Text → Type 0
Lacks b s = All (λ c. c ≢ b) s

pub contains_byte-Lacks : (b : ℕ) (s : Text) → contains_byte b s ≡ false → Lacks b s
unfolding contains_byte
contains_byte-Lacks b [] h = tt
contains_byte-Lacks b (c ∷ s) h = (ground arith, contains_byte-Lacks b s (ground arith))

pub Lacks-contains_byte : (b : ℕ) (s : Text) → Lacks b s → contains_byte b s ≡ false
unfolding contains_byte
Lacks-contains_byte b [] h = refl
Lacks-contains_byte b (c ∷ s) (p, h) = ground (arith, Lacks-contains_byte b s h)

-- A text without the separator is one part.
pub split_of_Lacks : (sep : ℕ) (s : Text) → Lacks sep s → split sep s ≡ s ∷ []
unfolding split
split_of_Lacks sep [] h = refl
split_of_Lacks sep (c ∷ s) (p, h) = ground (arith, split_of_Lacks sep s h)

-- Splitting at the first separator.
pub split-append :
    (sep : ℕ) (s t : Text) → Lacks sep s → split sep (s ++ (sep ∷ t)) ≡ s ∷ split sep t
unfolding split
split-append sep [] t h = ground arith
split-append sep (c ∷ s) t (p, h) = ground (arith, split-append sep s t h)

-- No cut inside a piece that lacks the separator.
pub split_n-append :
    (sep cuts : ℕ) (s t : Text)
    → Lacks sep s
    → split_n sep (suc cuts) (s ++ (sep ∷ t)) ≡ s ∷ split_n sep cuts t
unfolding split_n
split_n-append sep cuts [] t h = ground arith
split_n-append sep cuts (c ∷ s) t (p, h) = ground (arith, split_n-append sep cuts s t h)

pub split_n_of_Lacks : (sep cuts : ℕ) (s : Text) → Lacks sep s → split_n sep cuts s ≡ s ∷ []
unfolding split_n
split_n_of_Lacks sep zero s h = refl
split_n_of_Lacks sep (suc cuts) [] h = refl
split_n_of_Lacks sep (suc cuts) (c ∷ s) (p, h) = ground (arith, split_n_of_Lacks sep (suc cuts) s h)

pub cut_prefix-append : (p s : Text) → cut_prefix (p ++ s) p ≡ some s
unfolding cut_prefix
cut_prefix-append [] s = refl
cut_prefix-append (c ∷ p) s = ground (arith, cut_prefix-append p s)

pub cut_prefix-eq-some : (s p t : Text) → cut_prefix s p ≡ some t → s ≡ p ++ t
unfolding cut_prefix
cut_prefix-eq-some s [] t h = ground arith
cut_prefix-eq-some [] (d ∷ p) t h = cc
cut_prefix-eq-some (c ∷ s) (d ∷ p) t h = ground (arith, cut_prefix-eq-some s p t)

-- A text that is longer than the suffix is not the suffix.
longer-text_eq : (c : ℕ) (s p : Text) → text_eq (c ∷ s ++ p) p ≡ false
longer-text_eq c s p =
    ground
      (arith, text_eq_iff (c ∷ s ++ p) p, λ (e : c ∷ s ++ p ≡ p). ap length e, length-append s p)

pub trim_suffix-append : (s p : Text) → text_eq p p ≡ true → p ≢ [] → trim_suffix (s ++ p) p ≡ s
unfolding trim_suffix
trim_suffix-append [] [] h ne = refl
trim_suffix-append [] (c ∷ p) h ne = rw h
trim_suffix-append (c ∷ s) p h ne = rw (longer-text_eq c s p, trim_suffix-append s p h ne)

-- A text with the prefix is never without a rest behind it.
pub cut_prefix_of_has_prefix : (s p : Text) → has_prefix s p ≡ false → cut_prefix s p ≡ none
unfolding has_prefix cut_prefix
cut_prefix_of_has_prefix s [] h = cc
cut_prefix_of_has_prefix [] (d ∷ p) h = refl
cut_prefix_of_has_prefix (c ∷ s) (d ∷ p) h = ground (arith, cut_prefix_of_has_prefix s p)

pub split_n-ne-nil : (sep cuts : ℕ) (s : Text) → split_n sep cuts s ≢ []
unfolding split_n
split_n-ne-nil sep zero s h = cc
split_n-ne-nil sep (suc cuts) [] h = cc
split_n-ne-nil sep (suc cuts) (c ∷ s) h = ground (arith, split_n-ne-nil sep (suc cuts) s)

cons_head_inv :
    (c : ℕ) (ps : List Text) (f : Text) (fs : List Text)
    → ps ≢ []
    → cons_head c ps ≡ f ∷ fs
    → (f' : Text) × (ps ≡ f' ∷ fs) × (f ≡ c ∷ f')
cons_head_inv c [] f fs ne h = absurd (ne refl)
cons_head_inv c (p ∷ ps) f fs ne h = (p, ground arith, ground arith)

-- A part that is followed by another one ends at a separator, and holds none.
pub split_n_inv :
    (sep cuts : ℕ) (s f g : Text) (fs : List Text)
    → split_n sep (suc cuts) s ≡ f ∷ g ∷ fs
    → (t : Text) × (s ≡ f ++ (sep ∷ t)) × Lacks sep f × (split_n sep cuts t ≡ g ∷ fs)
unfolding split_n
split_n_inv sep cuts [] f g fs h = absurd (ground arith)
split_n_inv sep cuts (c ∷ s) f g fs h = elim (Bool-cases (c == sep)) [
  | inl e ↦
      let nothing : f ≡ [] = ground arith in
      (s, rw nothing (ground arith), rw nothing tt, ground arith)
  | inr e ↦
      let (f', later, same) =
        cons_head_inv c _ f (g ∷ fs) (split_n-ne-nil sep (suc cuts) s) (ground arith) in
      let (t, cut, lacks, rest) = split_n_inv sep cuts s f' g fs later in
      (t, rw same (ap (λ r. c ∷ r) cut), rw same (ground arith, lacks), rest)
]

-- The only part is the whole text.
pub split_n_single : (sep cuts : ℕ) (s f : Text) → split_n sep cuts s ≡ f ∷ [] → s ≡ f
unfolding split_n
split_n_single sep zero s f h = ground arith
split_n_single sep (suc cuts) [] f h = ground arith
split_n_single sep (suc cuts) (c ∷ s) f h = elim (Bool-cases (c == sep)) [
  | inl e ↦ absurd (ground (arith, split_n-ne-nil sep cuts s))
  | inr e ↦
      let (f', later, same) =
        cons_head_inv c _ f [] (split_n-ne-nil sep (suc cuts) s) (ground arith) in
      rw same (ap (λ r. c ∷ r) (split_n_single sep (suc cuts) s f' later))
]
