-- ===== src/Bot/Shapes/Parse/Printed.antt =====
-- A printed -draw spec is read back (internal/bot/shapes.go).
use pixel_beetle.Prelude.{
  ℕ, ◌/◌, ◌%◌, ◌^◌, ◌<◌, ◌≡◌, refl, ap, ◌∙◌, inl, ◌||◌, if◌then◌else◌, false, some, List, [], ◌∷◌,
  ◌++◌, map, ◌==◌, arith, get_elem?, same_bytes, codes, hex_digit, decimal, AreDigits,
  decimal-AreDigits, decimal_from-decimal, decimal-StartsWithDigit, set_string-digit, signed_by,
}
use pixel_beetle.Bot.Palette.{Rgb, palette, palette_color}
use pixel_beetle.Bot.Palette.Hex.{print_hex, palette_color-print_hex}
use pixel_beetle.Bot.Blueprint.TextArt.{split_on}
use pixel_beetle.Bot.Shapes.Parse.{
  non_negative, non_neg_int, parse_ints, cut, init_last, named_shape, ints_shape, colored_shape,
  args_shape, cut_shape, parse_shape, Shape, marks, finished, finished_marks, zero_size,
  zero_radius,
}
use pixel_beetle.Bot.Shapes.{fill_rect, rect_outline}
use pixel_beetle.Bot.Shapes.Line.{line_points}
use pixel_beetle.Bot.Shapes.Circle.{circle_points}

abbrev pub plain : ℕ → List ℕ
plain v = decimal v v

-- `v,...,#hex`
unfoldable pub print_args : List ℕ → List ℕ → List ℕ
print_args [] hex = hex
print_args (v ∷ vs) hex = plain v ++ 44 ∷ print_args vs hex

-- `name:v,...,#hex`
unfoldable pub print_spec : List ℕ → List ℕ → Rgb → List ℕ
unfolding print_args
print_spec name ints color = name ++ 58 ∷ print_args ints (print_hex color)

-- The byte `sep` is not in the text.
abbrev pub Lacks : ℕ → List ℕ → Type 0
Lacks sep [] = Unit {0}
Lacks sep (c ∷ s) = ((c == sep) ≡ false) × Lacks sep s

AreDigits-Lacks : (s : List ℕ) → AreDigits s → Lacks 44 s
AreDigits-Lacks [] h = tt
AreDigits-Lacks (c ∷ s) (h, h', rest) = (ground (arith, h), AreDigits-Lacks s rest)

hex_digit-ne-comma : (n : ℕ) → (hex_digit n == 44) ≡ false
hex_digit-ne-comma n = ground arith

print_hex-Lacks : (c : Rgb) → Lacks 44 (print_hex c)
unfolding print_hex
print_hex-Lacks (r, g, b) = (
  refl,
  (
    hex_digit-ne-comma (r / 16),
    (
      hex_digit-ne-comma (r % 16),
      (
        hex_digit-ne-comma (g / 16),
        (
          hex_digit-ne-comma (g % 16),
          (hex_digit-ne-comma (b / 16), (hex_digit-ne-comma (b % 16), tt)),
        ),
      ),
    ),
  ),
)

cut-append : (sep : ℕ) (s t : List ℕ) → Lacks sep s → cut sep (s ++ sep ∷ t) ≡ some (s, t)
unfolding cut
cut-append sep [] t h = ground arith
cut-append sep (c ∷ s) t (h, rest) = ground (arith, h, cut-append sep s t rest)

split_on-append :
    (sep : ℕ) (s t : List ℕ) → Lacks sep s → split_on sep (s ++ sep ∷ t) ≡ s ∷ split_on sep t
unfolding split_on
split_on-append sep [] t h = ground arith
split_on-append sep (c ∷ s) t (h, rest) = ground (arith, h, split_on-append sep s t rest)

split_on-Lacks : (sep : ℕ) (s : List ℕ) → Lacks sep s → split_on sep s ≡ s ∷ []
unfolding split_on
split_on-Lacks sep [] h = refl
split_on-Lacks sep (c ∷ s) (h, rest) = ground (arith, h, split_on-Lacks sep s rest)

split_on-print_args :
    (vs hex : List ℕ) → Lacks 44 hex → split_on 44 (print_args vs hex) ≡ map plain vs ++ hex ∷ []
unfolding print_args
split_on-print_args [] hex h = split_on-Lacks 44 hex h
split_on-print_args (v ∷ vs) hex h =
    split_on-append 44 (plain v) (print_args vs hex)
      (AreDigits-Lacks (plain v) (decimal-AreDigits v v))
    ∙ ap (◌∷◌ (plain v)) (split_on-print_args vs hex h)

init_last-append :
    (a : List ℕ) (args : List (List ℕ)) (b : List ℕ) → init_last a (args ++ b ∷ []) ≡ (a ∷ args, b)
unfolding init_last
init_last-append a [] b = refl
init_last-append a (c ∷ args) b = ground (arith, init_last-append c args b)

abbrev pub AreInts : List ℕ → Type 0
AreInts [] = Unit {0}
AreInts (v ∷ vs) = (v < 2 ^ 63) × AreInts vs

non_neg_int-plain : (v : ℕ) → v < 2 ^ 63 → non_neg_int (plain v) ≡ some v
unfolding non_neg_int
non_neg_int-plain v h =
    ap non_negative (
      set_string-digit (plain v) (decimal-StartsWithDigit v v)
      ∙ ap (signed_by false) (decimal_from-decimal v v (omega arith)))
    ∙ ground (arith, h)

parse_ints-plain : (vs : List ℕ) → AreInts vs → parse_ints (map plain vs) ≡ some vs
unfolding parse_ints
parse_ints-plain [] h = refl
parse_ints-plain (v ∷ vs) (h, rest) =
    ground (arith, non_neg_int-plain v h, parse_ints-plain vs rest)

-- The shapes other than a text, with the numbers of their specs.
pub data ShapeSpec : Type 0 where
  rect_spec fillrect_spec line_spec : ℕ → ℕ → ℕ → ℕ → ShapeSpec
  circle_spec : ℕ → ℕ → ℕ → ShapeSpec

abbrev pub print_shape : ShapeSpec → Rgb → List ℕ
print_shape (rect_spec x y w h) = print_spec (codes "rect") (x ∷ y ∷ w ∷ h ∷ [])
print_shape (fillrect_spec x y w h) = print_spec (codes "fillrect") (x ∷ y ∷ w ∷ h ∷ [])
print_shape (line_spec x0 y0 x1 y1) = print_spec (codes "line") (x0 ∷ y0 ∷ x1 ∷ y1 ∷ [])
print_shape (circle_spec cx cy r) = print_spec (codes "circle") (cx ∷ cy ∷ r ∷ [])

-- What a shape is to draw, in the color `c`.
abbrev pub drawn_shape : ShapeSpec → ℕ → Shape
drawn_shape (rect_spec x y w h) c =
    if w == 0 || h == 0 then inl zero_size else marks (rect_outline c x y w h)
drawn_shape (fillrect_spec x y w h) c =
    if w == 0 || h == 0 then inl zero_size else marks (fill_rect c x w y h)
drawn_shape (line_spec x0 y0 x1 y1) c = finished (line_points x0 y0 x1 y1 c)
drawn_shape (circle_spec cx cy r) c =
    if r == 0 then inl zero_radius else finished_marks (circle_points cx cy r c)

-- Every number has 61 bits, so that no sum of two wraps around.
abbrev pub AreSmall : ShapeSpec → Type 0
AreSmall (rect_spec x y w h) = (x < 2 ^ 61) × (y < 2 ^ 61) × (w < 2 ^ 61) × (h < 2 ^ 61)
AreSmall (fillrect_spec x y w h) = (x < 2 ^ 61) × (y < 2 ^ 61) × (w < 2 ^ 61) × (h < 2 ^ 61)
AreSmall (line_spec x0 y0 x1 y1) = (x0 < 2 ^ 61) × (y0 < 2 ^ 61) × (x1 < 2 ^ 61) × (y1 < 2 ^ 61)
AreSmall (circle_spec cx cy r) = (cx < 2 ^ 61) × (cy < 2 ^ 61) × (r < 2 ^ 61)

four_ints :
    (a b c d : ℕ)
    → (a < 2 ^ 61) × (b < 2 ^ 61) × (c < 2 ^ 61) × (d < 2 ^ 61)
    → AreInts (a ∷ b ∷ c ∷ d ∷ [])
four_ints a b c d (h, k, l, m) =
    (omega (arith, h), (omega (arith, k), (omega (arith, l), (omega (arith, m), tt))))

module _ (to_upper : List ℕ → List ℕ) (runes : List ℕ → List (ℕ × ℕ)) where
  args_shape-append :
      (name a : List ℕ) (args : List (List ℕ)) (b : List ℕ)
      → same_bytes name (codes "text") ≡ false
      → args_shape to_upper runes name (a ∷ (args ++ b ∷ []))
        ≡ colored_shape name (a ∷ args) (palette_color b)
  args_shape-append name a [] b other =
      rw other (ap (λ r. colored_shape name r.0 (palette_color r.1)) (init_last-append a [] b))
  args_shape-append name a (c ∷ args) b other =
      rw other
        (ap (λ r. colored_shape name r.0 (palette_color r.1)) (init_last-append a (c ∷ args) b))

  parse_shape-named :
      (name : List ℕ) (v : ℕ) (vs : List ℕ) (i : ℕ) (color : Rgb)
      → Lacks 58 name
      → same_bytes name (codes "text") ≡ false
      → AreInts (v ∷ vs)
      → get_elem? palette i ≡ some color
      → parse_shape to_upper runes (print_spec name (v ∷ vs) color) ≡ named_shape name i (v ∷ vs)
  unfolding parse_shape print_spec
  parse_shape-named name v vs i color free other ints e =
      let hex = print_hex color in
      ap (cut_shape to_upper runes) (cut-append 58 name (print_args (v ∷ vs) hex) free)
      ∙ (ap (args_shape to_upper runes name)
            (split_on-print_args (v ∷ vs) hex (print_hex-Lacks color))
          ∙ (args_shape-append name (plain v) (map plain vs) hex other
              ∙ (ap (colored_shape name (map plain (v ∷ vs))) (palette_color-print_hex i color e)
                  ∙ ap (ints_shape name i) (parse_ints-plain (v ∷ vs) ints))))

  -- The printed spec of a rectangle, outlined or filled, a line or a circle, with numbers of 61 bits and a
  -- palette color, is read as that shape's points in the index of the color, or as the error of a
  -- size or a radius of 0.
  pub parse_shape-print_shape :
      (d : ShapeSpec) (i : ℕ) (color : Rgb)
      → AreSmall d
      → get_elem? palette i ≡ some color
      → parse_shape to_upper runes (print_shape d color) ≡ drawn_shape d i
  unfolding named_shape
  parse_shape-print_shape (rect_spec x y w h) i color k e =
      parse_shape-named (codes "rect") x (y ∷ w ∷ h ∷ []) i color (refl, (refl, (refl, (refl, tt))))
        refl (four_ints x y w h k) e
  parse_shape-print_shape (fillrect_spec x y w h) i color k e =
      parse_shape-named (codes "fillrect") x (y ∷ w ∷ h ∷ []) i color
        (refl, (refl, (refl, (refl, (refl, (refl, (refl, (refl, tt)))))))) refl
        (four_ints x y w h k) e
  parse_shape-print_shape (line_spec x0 y0 x1 y1) i color k e =
      parse_shape-named (codes "line") x0 (y0 ∷ x1 ∷ y1 ∷ []) i color
        (refl, (refl, (refl, (refl, tt)))) refl (four_ints x0 y0 x1 y1 k) e
  parse_shape-print_shape (circle_spec cx cy r) i color (h, k, l) e =
      parse_shape-named (codes "circle") cx (cy ∷ r ∷ []) i color
        (refl, (refl, (refl, (refl, (refl, (refl, tt)))))) refl
        (omega (arith, h), (omega (arith, k), (omega (arith, l), tt))) e
