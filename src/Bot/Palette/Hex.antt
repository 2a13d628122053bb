-- ===== src/Bot/Palette/Hex.antt =====
-- Hex colors of internal/bot/palette.go, and how internal/bot/blueprint.go writes them.
use pixel_beetle.Prelude.{
  hex_digit, ℕ, zero, suc, ◌+◌, ◌*◌, ◌/◌, ◌%◌, ◌<◌, ◌≡◌, refl, ap, subst, ◌∙◌, Bool, true, ◌&&◌,
  some, List, [], ◌∷◌, ◌==◌, arith, get_elem?,
}
use pixel_beetle.Bot.Palette.{
  Rgb, palette, hex_nibble, hex_byte, rgb_of, parse_hex, nearest_color, named, palette_color,
}
use pixel_beetle.Bot.Palette.Nearest.{IsColor}

-- `#%02x%02x%02x`
unfoldable pub print_hex : Rgb → List ℕ
print_hex (r, g, b) =
    35
    ∷ hex_digit (r / 16)
    ∷ hex_digit (r % 16)
    ∷ hex_digit (g / 16)
    ∷ hex_digit (g % 16)
    ∷ hex_digit (b / 16)
    ∷ hex_digit (b % 16)
    ∷ []

hex_nibble-hex_digit : (n : ℕ) → n < 16 → hex_nibble (hex_digit n) ≡ some n
hex_nibble-hex_digit n h = ground arith

hex_byte-hex_digit :
    (n : ℕ)
    → n < 256
    → hex_byte (hex_nibble (hex_digit (n / 16))) (hex_nibble (hex_digit (n % 16))) ≡ some n
hex_byte-hex_digit n h =
    ap (λ o. hex_byte o (hex_nibble (hex_digit (n % 16))))
      (hex_nibble-hex_digit (n / 16) (omega (arith, h)))
    ∙ ap (hex_byte (some (n / 16))) (hex_nibble-hex_digit (n % 16) (omega arith))
    ∙ ap some {x = n / 16 * 16 + n % 16} (omega arith)

-- A printed color parses to itself.
pub parse_hex-print_hex : (c : Rgb) → IsColor c → parse_hex (print_hex c) ≡ some c
unfolding parse_hex print_hex
parse_hex-print_hex (r, g, b) (h, k, l) =
    ap
      (λ o.
        rgb_of o (hex_byte (hex_nibble (hex_digit (g / 16))) (hex_nibble (hex_digit (g % 16))))
          (hex_byte (hex_nibble (hex_digit (b / 16))) (hex_nibble (hex_digit (b % 16)))))
      (hex_byte-hex_digit r h)
    ∙ ap
        (λ o.
          rgb_of (some r) o
            (hex_byte (hex_nibble (hex_digit (b / 16))) (hex_nibble (hex_digit (b % 16)))))
        (hex_byte-hex_digit g k)
    ∙ ap (rgb_of (some r) (some g)) (hex_byte-hex_digit b l)

-- The test of a whole table, as the palette passes it.
abbrev all_exact : List Rgb → ℕ → Bool
all_exact [] i = true
all_exact (p ∷ l) i = nearest_color p == i && all_exact l (suc i)

abbrev AreColors : List Rgb → Type 0
AreColors [] = Unit
AreColors (p ∷ l) = IsColor p × AreColors l

exact_at :
    (l : List Rgb) (i j : ℕ) (p : Rgb)
    → all_exact l i ≡ true
    → AreColors l
    → get_elem? l j ≡ some p
    → (nearest_color p ≡ i + j) × IsColor p
exact_at [] i j p h a e = absurd (ground (arith, e))
exact_at (q ∷ l) i zero p h a e =
    let same : q ≡ p = ground (arith, e) in
    subst (λ x. (nearest_color x ≡ i + 0) × IsColor x) same (ground (arith, h), a.0)
exact_at (q ∷ l) i (suc j) p h a e =
    let (n, c) = exact_at l (suc i) j p (ground (arith, h)) a.1 e in (omega (arith, n), c)

palette_exact : all_exact palette 0 ≡ true
unfolding nearest_color
palette_exact = refl

palette_colors : AreColors palette
palette_colors = omega arith

-- The hex form of a palette color resolves to its index.
pub palette_color-print_hex :
    (i : ℕ) (p : Rgb) → get_elem? palette i ≡ some p → palette_color (print_hex p) ≡ some i
unfolding palette_color
palette_color-print_hex i p e =
    let (n, c) = exact_at palette 0 i p palette_exact palette_colors e in
    ap named (parse_hex-print_hex p c) ∙ ap some {x = nearest_color p} (omega (arith, n))
