-- ===== src/MockOidc/Exponent.antt =====
-- The bytes of a published exponent, as a reader of the key set takes them.
use nats_oidc_callout.Prelude.{
  ℕ, zero, suc, ◌+◌, ◌*◌, ◌/◌, ◌%◌, ◌<◌, ◌≡◌, ◌≢◌, refl, ap, ◌∙◌, List, [], ◌∷◌, ◌++◌, arith,
  length, length-append,
}
use nats_oidc_callout.MockOidc.{big_endian, strip, encode_exponent}

-- The number that bytes denote, the most significant one first, as a reader of a key set takes them.
abbrev pub read_from : ℕ → List ℕ → ℕ
read_from n [] = n
read_from n (b ∷ bytes) = read_from (n * 256 + b) bytes

abbrev pub read_big_endian : List ℕ → ℕ
read_big_endian bytes = read_from 0 bytes

-- 256 to a power.
abbrev limit : ℕ → ℕ
limit zero = 1
limit (suc n) = 256 * limit n

read_from-append :
    (n : ℕ) (xs : List ℕ) (b : ℕ) → read_from n (xs ++ (b ∷ [])) ≡ read_from n xs * 256 + b
read_from-append n [] b = refl
read_from-append n (x ∷ xs) b = read_from-append (n * 256 + x) xs b

read-big_endian : (n e : ℕ) → e < limit n → read_big_endian (big_endian n e) ≡ e
unfolding big_endian
read-big_endian zero e h = omega arith
read-big_endian (suc n) e h =
    let shorter : e / 256 < limit n = omega arith in
    read_from-append 0 (big_endian n (e / 256)) (e % 256)
    ∙ (ap (λ q. q * 256 + e % 256) (read-big_endian n (e / 256) shorter) ∙ omega arith)

read-strip : (bytes : List ℕ) → read_big_endian (strip bytes) ≡ read_big_endian bytes
unfolding strip
read-strip [] = refl
read-strip (b ∷ []) = refl
read-strip (zero ∷ c ∷ bytes) = read-strip (c ∷ bytes)
read-strip (suc b ∷ c ∷ bytes) = refl

-- No superfluous leading zero: at least one byte, and none in front of another byte is zero.
abbrev pub IsMinimal : List ℕ → Type 0
IsMinimal [] = ⊥
IsMinimal (b ∷ []) = Unit
IsMinimal (b ∷ c ∷ bytes) = b ≢ 0

strip-IsMinimal : (bytes : List ℕ) → bytes ≢ [] → IsMinimal (strip bytes)
unfolding strip
strip-IsMinimal [] h = h refl
strip-IsMinimal (b ∷ []) h = tt
strip-IsMinimal (zero ∷ c ∷ bytes) h = strip-IsMinimal (c ∷ bytes) (λ e. cc)
strip-IsMinimal (suc b ∷ c ∷ bytes) h = λ e. omega arith

length-big_endian : (n e : ℕ) → length (big_endian n e) ≡ n
unfolding big_endian
length-big_endian zero e = refl
length-big_endian (suc n) e =
    omega (
      arith,
      length-append (big_endian n (e / 256)) ((e % 256) ∷ []),
      length-big_endian n (e / 256),
    )

-- An exponent of 64 bits is published as bytes that denote it, with no superfluous leading zero, as the
-- "e" of a JSON Web Key demands.
pub encode_exponent-read :
    (e : ℕ)
    → e < 18_446_744_073_709_551_616
    → (read_big_endian (encode_exponent e) ≡ e) × IsMinimal (encode_exponent e)
unfolding encode_exponent
encode_exponent-read e h = (
  read-strip (big_endian 8 e) ∙ read-big_endian 8 e h,
  strip-IsMinimal (big_endian 8 e)
      (λ empty. let n = length-big_endian 8 e in let m = ap length empty in omega arith),
)
