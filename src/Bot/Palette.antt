-- ===== src/Bot/Palette.antt =====
-- internal/bot/palette.go: the palette of the canvas, hex colors and the nearest palette color.
-- Strings are lists of bytes.
pub mod Nearest
pub mod Hex
use pixel_beetle.Prelude.{
  ℕ, zero, suc, ◌+◌, ◌-◌, ◌*◌, ◌%◌, ◌^◌, Bool, true, false, ◌&&◌, Option, none, some, List, [], ◌∷◌,
  ltb, leb, ◌==◌, if◌then◌else◌,
}

abbrev pub Rgb : Type 0
Rgb = ℕ × ℕ × ℕ

abbrev pub palette : List Rgb
palette =
    (0xff, 0xff, 0xff)
    ∷ (0xe4, 0xe4, 0xe4)
    ∷ (0x88, 0x88, 0x88)
    ∷ (0x22, 0x22, 0x22)
    ∷ (0xff, 0xb4, 0x70)
    ∷ (0x9a, 0x63, 0x24)
    ∷ (0x80, 0x00, 0x00)
    ∷ (0xba, 0x2d, 0x2d)
    ∷ (0xff, 0xd6, 0x00)
    ∷ (0x80, 0x80, 0x00)
    ∷ (0x46, 0x99, 0x90)
    ∷ (0x42, 0xd4, 0xf4)
    ∷ (0x43, 0x63, 0xd8)
    ∷ (0x00, 0x00, 0x75)
    ∷ (0xf0, 0x32, 0xe6)
    ∷ (0xfa, 0xbe, 0xd4)
    ∷ []

abbrev pub hex_nibble : ℕ → Option ℕ
hex_nibble c =
    if leb 48 c && leb c 57
    then some (c - 48)
    else if leb 97 c && leb c 102
    then some (c - 97 + 10)
    else if leb 65 c && leb c 70
    then some (c - 65 + 10)
    else none

-- `hi<<4 | lo`
abbrev pub hex_byte : Option ℕ → Option ℕ → Option ℕ
hex_byte none lo = none
hex_byte (some hi) none = none
hex_byte (some hi) (some lo) = some (hi * 16 + lo)

abbrev pub rgb_of : Option ℕ → Option ℕ → Option ℕ → Option Rgb
rgb_of none g b = none
rgb_of (some r) none b = none
rgb_of (some r) (some g) none = none
rgb_of (some r) (some g) (some b) = some (r, g, b)

-- Six digits, and no more.
abbrev pub parse_digits : List ℕ → Option Rgb
parse_digits (a ∷ b ∷ c ∷ d ∷ e ∷ f ∷ []) =
    rgb_of (hex_byte (hex_nibble a) (hex_nibble b)) (hex_byte (hex_nibble c) (hex_nibble d))
      (hex_byte (hex_nibble e) (hex_nibble f))
parse_digits _ = none

unfoldable pub parse_hex : List ℕ → Option Rgb
parse_hex [] = none
parse_hex (c ∷ s) = if c == 35 then parse_digits s else none

-- The square of a difference of bytes.
abbrev pub gap_sq : ℕ → ℕ → ℕ
gap_sq a b = if leb b a then (a - b) * (a - b) else (b - a) * (b - a)

unfoldable pub distance : Rgb → Rgb → ℕ
distance (r, g, b) (pr, pg, pb) = (2 * gap_sq r pr + 4 * gap_sq g pg + 3 * gap_sq b pb) % 2 ^ 32

abbrev pub closer : ℕ → ℕ → ℕ × ℕ → ℕ × ℕ
closer i d (best, best_d) = if ltb d best_d then (i, d) else (best, best_d)

-- The loop over the palette.
unfoldable pub nearest_from : Rgb → List Rgb → ℕ → ℕ × ℕ → ℕ × ℕ
unfolding distance
nearest_from c [] i acc = acc
nearest_from c (p ∷ l) i acc = nearest_from c l (suc i) (closer i (distance c p) acc)

unfoldable pub nearest_color : Rgb → ℕ
unfolding nearest_from
nearest_color c = (nearest_from c palette 0 (0, 2 ^ 32 - 1)).0

abbrev pub named : Option Rgb → Option ℕ
named none = none
named (some c) = some (nearest_color c)

unfoldable pub palette_color : List ℕ → Option ℕ
unfolding parse_hex nearest_color
palette_color s = named (parse_hex s)
