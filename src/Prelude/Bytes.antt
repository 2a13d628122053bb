-- ===== src/Prelude/Bytes.antt =====
-- Byte strings: little-endian words as encoding/binary writes and reads them, and readers, which
-- take bytes off the front and fail where they run out (`io.ReadFull`).
use Prim.Native.Nat.{ℕ, zero, suc, ◌+◌, ◌*◌, ◌/◌, ◌%◌, ◌^◌, ◌<◌}
use mathlib.Core.Path.{◌≡◌, refl, ap, ◌∙◌}
use mathlib.Core.Bool.{Bool, true, false, ◌&&◌}
use mathlib.Core.List.{List, [], ◌∷◌, ◌++◌}
use mathlib.Core.Option.{Option, none, some}
use native.Mathlib.Omega.{arith}
use mathlib.Core.Logic.{inl, inr}
use pixel_beetle.Prelude.Tests.{◌==◌, Option-cases}
use pixel_beetle.Prelude.Lists.{length}

abbrev pub same_bytes : List ℕ → List ℕ → Bool
same_bytes [] [] = true
same_bytes [] (c ∷ t) = false
same_bytes (b ∷ s) [] = false
same_bytes (b ∷ s) (c ∷ t) = b == c && same_bytes s t

pub same_bytes_refl : (s : List ℕ) → same_bytes s s ≡ true
same_bytes_refl [] = refl
same_bytes_refl (b ∷ s) = ground (arith, same_bytes_refl s)

-- `PutUint64` and `PutUint32` for 8 and 4 bytes, and back.
unfoldable pub le : ℕ → ℕ → List ℕ
le zero v = []
le (suc n) v = v % 256 ∷ le n (v / 256)

unfoldable pub le_value : List ℕ → ℕ
le_value [] = 0
le_value (b ∷ s) = b + 256 * le_value s

-- `v` fits into `n` bytes.
abbrev pub IsWord : ℕ → ℕ → Type 0
IsWord zero v = v ≡ 0
IsWord (suc n) v = IsWord n (v / 256)

abbrev pub IsU64 : ℕ → Type 0
IsU64 v = v < 2 ^ 64

pub word8 : (v : ℕ) → IsU64 v → IsWord 8 v
word8 v h = omega arith

pub word4 : (v : ℕ) → v < 2 ^ 32 → IsWord 4 v
word4 v h = omega arith

pub length-le : (n v : ℕ) → length (le n v) ≡ n
unfolding le
length-le zero v = refl
length-le (suc n) v = ap suc (length-le n (v / 256))

pub le_value-le : (n v : ℕ) → IsWord n v → le_value (le n v) ≡ v
unfolding le le_value
le_value-le zero v h = omega (arith, h)
le_value-le (suc n) v h = omega (arith, le_value-le n (v / 256) h)

abbrev pub Reader : Type 0 → Type 0
Reader A = List ℕ → Option (A × List ℕ)

infixl 5 ◌>>=◌ ◌>>◌
abbrev pub ◌>>=◌ : {A B : Type 0} → Reader A → (A → Reader B) → Reader B
◌>>=◌ m f s = elim (m s) [ none ↦ none | some (a, rest) ↦ f a rest ]

abbrev pub ◌>>◌ : {B : Type 0} → Reader (Unit {0}) → Reader B → Reader B
m >> k = m >>= λ _. k

abbrev pub pure : {A : Type 0} → A → Reader A
pure a s = some (a, s)

abbrev pub require : Bool → Reader (Unit {0})
require true s = some (tt, s)
require false s = none

abbrev pub prepend : ℕ → Option (List ℕ × List ℕ) → Option (List ℕ × List ℕ)
prepend b none = none
prepend b (some (s, rest)) = some (b ∷ s, rest)

-- A step that succeeds.
pub >>=-some :
    {A B : Type 0} (m : Reader A) (f : A → Reader B) {s : List ℕ} {a : A} {rest : List ℕ}
    → m s ≡ some (a, rest)
    → (m >>= f) s ≡ f a rest
>>=-some m f e = rw (e, ◌>>=◌) refl

unfoldable pub read_full : ℕ → Reader (List ℕ)
read_full zero s = some ([], s)
read_full (suc n) [] = none
read_full (suc n) (b ∷ s) = prepend b (read_full n s)

unfoldable pub read_le : ℕ → Reader ℕ
read_le n = do s ← read_full n; pure (le_value s)

pub read_full-append :
    (s rest : List ℕ) (n : ℕ) → length s ≡ n → read_full n (s ++ rest) ≡ some (s, rest)
unfolding read_full
read_full-append [] rest zero h = refl
read_full-append [] rest (suc n) h = absurd (omega (arith, h))
read_full-append (b ∷ s) rest zero h = absurd (omega (arith, h))
read_full-append (b ∷ s) rest (suc n) h =
    ap (prepend b) (read_full-append s rest n (omega (arith, h)))

pub read_le-le :
    (n v : ℕ) (rest : List ℕ) → IsWord n v → read_le n (le n v ++ rest) ≡ some (v, rest)
unfolding read_le
read_le-le n v rest h =
    >>=-some (read_full n) (λ s. pure (le_value s))
      (read_full-append (le n v) rest n (length-le n v))
    ∙ ap (λ x. some (x, rest)) (le_value-le n v h)

-- What is behind the bytes that a read takes does not change it.
pub read_full-more :
    (n : ℕ) (s t : List ℕ) {b r : List ℕ}
    → read_full n s ≡ some (b, r)
    → read_full n (s ++ t) ≡ some (b, r ++ t)
unfolding read_full
read_full-more zero s t h = ground (arith, h)
read_full-more (suc n) [] t h = absurd (ground (arith, h))
read_full-more (suc n) (b ∷ s) t h = elim (Option-cases (read_full n s)) [
  | inl e ↦ absurd (ground (arith, e, h))
  | inr ((x, r), e) ↦ ground (arith, read_full-more n s t e, e, h)
]

-- A read takes as many bytes as it is asked for, or fails on fewer.
pub read_full-short : (n : ℕ) (s : List ℕ) → length s < n → read_full n s ≡ none
unfolding read_full
read_full-short zero s h = absurd (omega (arith, h))
read_full-short (suc n) [] h = refl
read_full-short (suc n) (b ∷ s) h = ap (prepend b) (read_full-short n s (omega (arith, h)))

pub read_full-length :
    (n : ℕ) (s : List ℕ) {b r : List ℕ} → read_full n s ≡ some (b, r) → length s ≡ n + length r
unfolding read_full
read_full-length zero s h = ground (arith, h)
read_full-length (suc n) [] h = absurd (ground (arith, h))
read_full-length (suc n) (b ∷ s) h = elim (Option-cases (read_full n s)) [
  | inl e ↦ absurd (ground (arith, e, h))
  | inr ((x, r), e) ↦ ground (arith, read_full-length n s e, e, h)
]

pub read_le-length :
    (n : ℕ) (s : List ℕ) {v : ℕ} {r : List ℕ} → read_le n s ≡ some (v, r) → length s ≡ n + length r
unfolding read_le
read_le-length n s h = elim (Option-cases (read_full n s)) [
  | inl e ↦ absurd (ground (arith, e, h))
  | inr ((x, r), e) ↦ ground (arith, read_full-length n s e, e, h)
]
