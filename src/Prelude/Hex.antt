-- ===== src/Prelude/Hex.antt =====
-- Hexadecimal numbers as encoding/hex writes them, in lower case, and reads them, in either case.
use Prim.Native.Nat.{ℕ, zero, suc, ◌+◌, ◌-◌, ◌*◌, ◌/◌, ◌%◌, ◌<◌, ◌^◌}
use mathlib.Core.Path.{◌≡◌, refl, ap}
use mathlib.Core.Bool.{◌&&◌}
use mathlib.Core.List.{List, [], ◌∷◌}
use mathlib.Core.Option.{Option, none, some}
use native.Mathlib.Omega.{arith}
use pixel_beetle.Prelude.Tests.{ltb, leb, if◌then◌else◌}
use pixel_beetle.Prelude.Lists.{length}

abbrev pub hex_digit : ℕ → ℕ
hex_digit n = if ltb n 10 then 48 + n else 87 + n

abbrev pub hex_value : ℕ → Option ℕ
hex_value c =
    if leb 48 c && leb c 57
    then some (c - 48)
    else if leb 97 c && leb c 102
    then some (c - 97 + 10)
    else if leb 65 c && leb c 70
    then some (c - 65 + 10)
    else none

pub hex_value-hex_digit : (n : ℕ) → n < 16 → hex_value (hex_digit n) ≡ some n
hex_value-hex_digit n h = ground arith

-- The digits of the lowest `n` bytes of a number, the lowest byte first.
unfoldable pub hex_of_bytes : ℕ → ℕ → List ℕ
hex_of_bytes zero v = []
hex_of_bytes (suc n) v = hex_digit (v / 16 % 16) ∷ hex_digit (v % 16) ∷ hex_of_bytes n (v / 256)

abbrev push_byte : Option ℕ → Option ℕ → Option ℕ → Option ℕ
push_byte none d rest = none
push_byte (some c) none rest = none
push_byte (some c) (some d) none = none
push_byte (some c) (some d) (some v) = some (c * 16 + d + v * 256)

-- The number that the bytes of such a text spell.
unfoldable pub bytes_of_hex : List ℕ → Option ℕ
bytes_of_hex [] = some 0
bytes_of_hex (c ∷ []) = none
bytes_of_hex (c ∷ d ∷ s) = push_byte (hex_value c) (hex_value d) (bytes_of_hex s)

pub length-hex_of_bytes : (n v : ℕ) → length (hex_of_bytes n v) ≡ n * 2
unfolding hex_of_bytes
length-hex_of_bytes zero v = refl
length-hex_of_bytes (suc n) v = omega (arith, length-hex_of_bytes n (v / 256))

pub bytes_of_hex-hex_of_bytes : (n v : ℕ) → v < 256 ^ n → bytes_of_hex (hex_of_bytes n v) ≡ some v
unfolding bytes_of_hex hex_of_bytes
bytes_of_hex-hex_of_bytes zero v h = ap some {x = 0} {y = v} (omega (arith, h))
bytes_of_hex-hex_of_bytes (suc n) v h =
    let high = hex_value-hex_digit (v / 16 % 16) (omega arith) in
    let low = hex_value-hex_digit (v % 16) (omega arith) in
    let rest = bytes_of_hex-hex_of_bytes n (v / 256) (omega (arith, h)) in
    rw (high, low, rest)
      (ap some {x = v / 16 % 16 * 16 + v % 16 + v / 256 * 256} {y = v} (omega arith))
