-- ===== src/Prelude/Lists.antt =====
-- Lists measured by native numbers, tests over the elements, and the predicate `All`.
use Prim.Native.Nat.{ℕ, zero, suc, ◌+◌, ◌<◌}
use mathlib.Core.Path.{◌≡◌, refl, ap}
use mathlib.Core.Logic.{◌≢◌, ◌⊎◌, inl, inr}
use mathlib.Core.Bool.{Bool, true, false, ◌&&◌, ◌||◌}
use mathlib.Core.Option.{Option, none, some}
use mathlib.Core.List.{List, [], ◌∷◌, ◌++◌, map}
use native.Mathlib.Omega.{arith}

module _ {ℓ} {A : Type ℓ} where
  abbrev pub length : List A → ℕ
  length [] = 0
  length (x ∷ xs) = suc (length xs)

  -- `len(xs) == 0`
  abbrev pub is_empty : List A → Bool
  is_empty [] = true
  is_empty (x ∷ xs) = false

  abbrev pub get_elem? : List A → ℕ → Option A
  get_elem? [] i = none
  get_elem? (x ∷ xs) zero = some x
  get_elem? (x ∷ xs) (suc i) = get_elem? xs i

  pub get_elem?-append :
      (xs ys : List A) (i : ℕ) {a : A} → get_elem? xs i ≡ some a → get_elem? (xs ++ ys) i ≡ some a
  get_elem?-append [] ys i h = cc
  get_elem?-append (x ∷ xs) ys zero h = h
  get_elem?-append (x ∷ xs) ys (suc i) h = get_elem?-append xs ys i h

  pub get_elem?-last : (xs : List A) (a : A) → get_elem? (xs ++ (a ∷ [])) (length xs) ≡ some a
  get_elem?-last [] a = refl
  get_elem?-last (x ∷ xs) a = get_elem?-last xs a

  pub get_elem?-bound : (xs : List A) (i : ℕ) {a : A} → get_elem? xs i ≡ some a → i < length xs
  get_elem?-bound [] i h = cc
  get_elem?-bound (x ∷ xs) zero h = omega arith
  get_elem?-bound (x ∷ xs) (suc i) h = omega (arith, get_elem?-bound xs i h)

  pub get_elem?-snoc :
      (xs : List A) (x : A) (i : ℕ) {a : A}
      → get_elem? (xs ++ (x ∷ [])) i ≡ some a
      → (get_elem? xs i ≡ some a) ⊎ ((i ≡ length xs) × (some x ≡ some a))
  get_elem?-snoc [] x zero h = inr (refl, h)
  get_elem?-snoc [] x (suc i) h = cc
  get_elem?-snoc (y ∷ xs) x zero h = inl h
  get_elem?-snoc (y ∷ xs) x (suc i) h = elim (get_elem?-snoc xs x i h) [
    | inl e ↦ inl e
    | inr (e, same) ↦ inr (ap suc e, same)
  ]

  pub get_elem?-exists : (xs : List A) (i : ℕ) → i < length xs → (a : A) × (get_elem? xs i ≡ some a)
  get_elem?-exists [] i h = absurd (omega arith)
  get_elem?-exists (x ∷ xs) zero h = (x, refl)
  get_elem?-exists (x ∷ xs) (suc i) h = get_elem?-exists xs i (omega (arith, h))

  abbrev pub take : ℕ → List A → List A
  take zero xs = []
  take (suc n) [] = []
  take (suc n) (x ∷ xs) = x ∷ take n xs

  -- `len(xs) == 0` fails.
  pub is_empty-ne-nil : (xs : List A) → xs ≢ [] → is_empty xs ≡ false
  is_empty-ne-nil [] h = absurd (h refl)
  is_empty-ne-nil (x ∷ xs) h = refl

  pub length-append : (xs ys : List A) → length (xs ++ ys) ≡ length xs + length ys
  length-append [] ys = omega arith
  length-append (x ∷ xs) ys = omega (arith, length-append xs ys)

  abbrev pub all : (A → Bool) → List A → Bool
  all p [] = true
  all p (x ∷ xs) = p x && all p xs

  abbrev pub any : (A → Bool) → List A → Bool
  any p [] = false
  any p (x ∷ xs) = p x || any p xs

abbrev pub In : {A : Type 0} → A → List A → Type 0
In a [] = ⊥
In a (x ∷ xs) = (x ≡ a) ⊎ In a xs

-- Every element, as nested pairs that compute.
module _ {ℓ κ} {A : Type ℓ} (P : A → Type κ) where
  abbrev pub All : List A → Type κ
  All [] = Unit
  All (x ∷ xs) = P x × All xs

  pub All-append : (xs ys : List A) → All xs → All ys → All (xs ++ ys)
  All-append [] ys _ k = k
  All-append (x ∷ xs) ys (p, h) k = (p, All-append xs ys h k)

  pub All-get_elem? : (xs : List A) (i : ℕ) {a : A} → All xs → get_elem? xs i ≡ some a → P a
  All-get_elem? [] i all h = cc
  All-get_elem? (x ∷ xs) zero {a} all h = let same : x ≡ a = cc in rw (← same) all.0
  All-get_elem? (x ∷ xs) (suc i) all h = All-get_elem? xs i all.1 h

  -- The element behind `xs` holds, and it can be replaced by another that does.
  pub All-at : (xs : List A) (x : A) (ys : List A) → All (xs ++ (x ∷ ys)) → P x
  All-at [] x ys h = h.0
  All-at (z ∷ xs) x ys h = All-at xs x ys h.1

  pub All-put :
      (xs : List A) (x y : A) (ys : List A) → P y → All (xs ++ (x ∷ ys)) → All (xs ++ (y ∷ ys))
  All-put [] x y ys p h = (p, h.1)
  All-put (z ∷ xs) x y ys p h = (h.0, All-put xs x y ys p h.1)

pub All-map {ℓ κ μ} :
    {A : Type ℓ} (P : A → Type κ) (Q : A → Type μ)
    → ((x : A) → P x → Q x)
    → (xs : List A) → All P xs
    → All Q xs
All-map P Q f [] h = tt
All-map P Q f (x ∷ xs) (p, h) = (f x p, All-map P Q f xs h)

pub map-append {ℓ κ} :
    {A : Type ℓ} {B : Type κ} (f : A → B) (xs ys : List A) → map f (xs ++ ys) ≡ map f xs ++ map f ys
map-append f [] ys = refl
map-append f (x ∷ xs) ys = ap (λ l. f x ∷ l) (map-append f xs ys)
