-- ===== src/Prelude/Decimal.antt =====
-- Texts in ASCII, and decimal numbers as big.Int.SetString, strconv.ParseUint and strconv.Atoi read them.
use Prim.Native.Char.{code}
use Prim.Native.Nat.{ℕ, zero, suc, ◌+◌, ◌-◌, ◌*◌, ◌/◌, ◌%◌, ◌≤◌}
use mathlib.Core.Path.{◌≡◌, refl, ap, ◌∙◌}
use mathlib.Core.Logic.{inl, inr}
use native.Mathlib.Omega.{arith}
use Prim.Native.String.{String}
use mathlib.Core.Bool.{Bool, true, false, ◌&&◌}
use mathlib.Core.List.{List, [], ◌∷◌, ◌++◌}
use mathlib.Core.Option.{Option, none, some}
use pixel_beetle.Prelude.Tests.{ltb, leb, ◌==◌, if◌then◌else◌, Bool-cases}

-- The bytes of a text in ASCII.
abbrev pub codes : String → List ℕ
codes String.[] = []
codes (String.◌∷◌ c s) = code c ∷ codes s

abbrev pub push_decimal : Option ℕ → ℕ → Option ℕ
push_decimal none c = none
push_decimal (some v) c = if leb 48 c && leb c 57 then some (v * 10 + (c - 48)) else none

-- The number that digits spell behind those read so far.
unfoldable pub decimal_from : Option ℕ → List ℕ → Option ℕ
decimal_from acc [] = acc
decimal_from acc (c ∷ s) = decimal_from (push_decimal acc c) s

abbrev pub digits : List ℕ → Option ℕ
digits [] = none
digits (c ∷ s) = decimal_from (some 0) (c ∷ s)

abbrev pub signed_by : Bool → Option ℕ → Option (Bool × ℕ)
signed_by negative none = none
signed_by negative (some v) = some (negative && ltb 0 v, v)

-- A sign or none, then digits: whether the number is negative, and its size.
abbrev pub set_string : List ℕ → Option (Bool × ℕ)
set_string [] = none
set_string (c ∷ s) =
    if c == 45
    then signed_by true (digits s)
    else if c == 43
    then signed_by false (digits s)
    else signed_by false (digits (c ∷ s))

-- The digits of `v`, for fuel of at least `v`.
unfoldable pub decimal : ℕ → ℕ → List ℕ
decimal zero v = (48 + v % 10) ∷ []
decimal (suc f) v =
    let front = decimal f (v / 10) in
    if ltb v 10 then (48 + v) ∷ [] else front ++ (48 + v % 10) ∷ []

decimal_from-append :
    (acc : Option ℕ) (s t : List ℕ)
    → decimal_from acc (s ++ t) ≡ decimal_from (decimal_from acc s) t
unfolding decimal_from
decimal_from-append acc [] t = refl
decimal_from-append acc (c ∷ s) t = decimal_from-append (push_decimal acc c) s t

pub decimal_from-decimal : (f v : ℕ) → v ≤ f → decimal_from (some 0) (decimal f v) ≡ some v
unfolding decimal_from decimal
decimal_from-decimal zero v h = ground (arith, h)
decimal_from-decimal (suc f) v h = elim (Bool-cases (ltb v 10)) [
  | inl t ↦ rw t (ground (arith, t))
  | inr t ↦
      let front = decimal_from-decimal f (v / 10) (ground (arith, t, h)) in
      rw t (
        decimal_from-append (some 0) (decimal f (v / 10)) ((48 + v % 10) ∷ [])
        ∙ (ap (λ acc. push_decimal acc (48 + v % 10)) front ∙ ground arith))
]

-- The first byte of a decimal is a digit.
abbrev pub StartsWithDigit : List ℕ → Type 0
StartsWithDigit [] = ⊥
StartsWithDigit (c ∷ s) = (48 ≤ c) × (c ≤ 57)

StartsWithDigit-append : (s t : List ℕ) → StartsWithDigit s → StartsWithDigit (s ++ t)
StartsWithDigit-append [] t h = absurd h
StartsWithDigit-append (c ∷ s) t h = h

pub decimal-StartsWithDigit : (f v : ℕ) → StartsWithDigit (decimal f v)
unfolding decimal
decimal-StartsWithDigit zero v = (omega arith, omega arith)
decimal-StartsWithDigit (suc f) v = elim (Bool-cases (ltb v 10)) [
  | inl t ↦ rw t (ground (arith, t), ground (arith, t))
  | inr t ↦ rw t (
      StartsWithDigit-append (decimal f (v / 10)) ((48 + v % 10) ∷ [])
        (decimal-StartsWithDigit f (v / 10)))
]

pub digits-decimal : (s : List ℕ) → StartsWithDigit s → digits s ≡ decimal_from (some 0) s
digits-decimal [] h = absurd h
digits-decimal (c ∷ s) h = refl

pub set_string-digit :
    (s : List ℕ) → StartsWithDigit s → set_string s ≡ signed_by false (decimal_from (some 0) s)
set_string-digit [] h = absurd h
set_string-digit (c ∷ s) h = ground (arith, h)

-- The digits of a number are between '0' and '9'.
abbrev pub AreDigits : List ℕ → Type 0
AreDigits [] = Unit {0}
AreDigits (c ∷ s) = (48 ≤ c) × (c ≤ 57) × AreDigits s

AreDigits-append : (s t : List ℕ) → AreDigits s → AreDigits t → AreDigits (s ++ t)
AreDigits-append [] t h h' = h'
AreDigits-append (c ∷ s) t (a, b, h) h' = (a, b, AreDigits-append s t h h')

pub decimal-AreDigits : (f v : ℕ) → AreDigits (decimal f v)
unfolding decimal
decimal-AreDigits zero v = (omega arith, omega arith, tt)
decimal-AreDigits (suc f) v = elim (Bool-cases (ltb v 10)) [
  | inl t ↦ rw t (ground (arith, t), ground (arith, t), tt)
  | inr t ↦ rw t (
      AreDigits-append (decimal f (v / 10)) ((48 + v % 10) ∷ []) (decimal-AreDigits f (v / 10))
        (omega arith, omega arith, tt))
]
