-- ===== src/Bot/Shapes/Text/Box.antt =====
-- The box that a text fills (internal/bot/shapes.go).
use pixel_beetle.Prelude.{
  ℕ, suc, ◌+◌, ◌*◌, ◌<◌, ◌≤◌, ◌≡◌, refl, sym, ap, ◌∙◌, Bool, true, ◌&&◌, some, inl, inr, List, [],
  ◌∷◌, ◌++◌, Table, lookup, length, leb, ◌==◌, if◌then◌else◌, arith, Bool-cases, Option-cases,
}
use pixel_beetle.Bot.Blueprint.{Placement}
use pixel_beetle.Bot.Shapes.Text.Font.{font_glyphs}
use pixel_beetle.Bot.Shapes.Text.{glyph_row, glyph_rows, drawn_glyph, render_text}

-- The placements lie in the columns from `x` to below `right` and in the rows from `y` to below
-- `bottom`.
abbrev pub InBox : ℕ → ℕ → ℕ → ℕ → List Placement → Type 0
InBox x right y bottom [] = Unit {0}
InBox x right y bottom (p ∷ ps) =
    ((x ≤ p.x) × (p.x < right) × (y ≤ p.y) × (p.y < bottom)) × InBox x right y bottom ps

InBox-append :
    (x right y bottom : ℕ) (ps qs : List Placement)
    → InBox x right y bottom ps
    → InBox x right y bottom qs
    → InBox x right y bottom (ps ++ qs)
InBox-append x right y bottom [] qs h h' = h'
InBox-append x right y bottom (p ∷ ps) qs h h' = (h.0, InBox-append x right y bottom ps qs h.1 h')

-- Seven rows of five columns.
abbrev narrow_rows : List (List ℕ) → Bool
narrow_rows [] = true
narrow_rows (row ∷ rows) = leb (length row) 5 && narrow_rows rows

abbrev fits_glyph : List (List ℕ) → Bool
fits_glyph rows = leb (length rows) 7 && narrow_rows rows

all_fit : Table (List (List ℕ)) → Bool
all_fit [] = true
all_fit ((k, rows) ∷ t) = fits_glyph rows && all_fit t

font_glyphs-all_fit : all_fit font_glyphs ≡ true
unfolding all_fit font_glyphs
font_glyphs-all_fit = refl

lookup-fits :
    (t : Table (List (List ℕ))) (r : ℕ) (rows : List (List ℕ))
    → all_fit t ≡ true
    → lookup r t ≡ some rows
    → fits_glyph rows ≡ true
unfolding all_fit lookup
lookup-fits [] r rows h e = absurd (ground (arith, e))
lookup-fits ((k, g) ∷ t) r rows h e = elim (Bool-cases (k == r)) [
  | inl u ↦
      let same : some g ≡ some rows = sym (ap (λ b. if b then some g else lookup r t) u) ∙ e in
      ground (arith, h, same)
  | inr u ↦
      lookup-fits t r rows (ground (arith, h))
        (sym (ap (λ b. if b then some g else lookup r t) u) ∙ e)
]

glyph_row-InBox :
    (c left x right y top bottom : ℕ) (row : List ℕ)
    → left ≤ x
    → x + length row ≤ right
    → (top ≤ y) × (y < bottom)
    → InBox left right top bottom (glyph_row c x y row)
unfolding glyph_row
glyph_row-InBox c left x right y top bottom [] h h' k = tt
glyph_row-InBox c left x right y top bottom (ch ∷ row) h h' k =
    let rest =
      glyph_row-InBox c left (suc x) right y top bottom row (omega (arith, h)) (omega (arith, h'))
        k in
    elim (Bool-cases (ch == 88)) [
      | inl t ↦ rw t ((h, omega (arith, h'), k.0, k.1), rest)
      | inr t ↦ rw t rest
    ]

glyph_rows-InBox :
    (c x y top bottom : ℕ) (rows : List (List ℕ))
    → narrow_rows rows ≡ true
    → top ≤ y
    → y + length rows ≤ bottom
    → InBox x (x + 5) top bottom (glyph_rows c x y rows)
unfolding glyph_rows
glyph_rows-InBox c x y top bottom [] h k k' = tt
glyph_rows-InBox c x y top bottom (row ∷ rows) h k k' =
    InBox-append x (x + 5) top bottom (glyph_row c x y row) (glyph_rows c x (suc y) rows)
      (glyph_row-InBox c x x (x + 5) y top bottom row (omega arith) (ground (arith, h))
        (k, omega (arith, k')))
      (glyph_rows-InBox c x (suc y) top bottom rows (ground (arith, h)) (omega (arith, k))
        (omega (arith, k')))

InBox-wider :
    (x x' right right' y bottom : ℕ) (ps : List Placement)
    → x ≤ x'
    → right' ≤ right
    → InBox x' right' y bottom ps
    → InBox x right y bottom ps
InBox-wider x x' right right' y bottom [] a b h = tt
InBox-wider x x' right right' y bottom (p ∷ ps) a b ((h, h', k, k'), rest) = (
  (omega (arith, a, h), omega (arith, b, h'), k, k'),
  InBox-wider x x' right right' y bottom ps a b rest,
)

drawn_glyph-InBox :
    (c x y r : ℕ) → InBox x (x + 5) y (y + 7) (drawn_glyph c x y (lookup r font_glyphs))
drawn_glyph-InBox c x y r = elim (Option-cases (lookup r font_glyphs)) [
  | inl e ↦ rw e tt
  | inr (rows, e) ↦
      let fits = lookup-fits font_glyphs r rows font_glyphs-all_fit e in
      rw e (
        glyph_rows-InBox c x y y (y + 7) rows (ground (arith, fits)) (omega arith)
          (ground (arith, fits)))
]

-- Every offset is below `n`.
abbrev pub OffsetsBelow : ℕ → List (ℕ × ℕ) → Type 0
OffsetsBelow n [] = Unit {0}
OffsetsBelow n ((i, r) ∷ runes) = (i < n) × OffsetsBelow n runes

-- A text of `n` bytes at (x, y) stays in the 6 * n columns from `x` on and in the seven rows from `y`
-- on.
pub render_text-InBox :
    (c x y n : ℕ) (runes : List (ℕ × ℕ))
    → OffsetsBelow n runes
    → InBox x (x + 6 * n) y (y + 7) (render_text c x y runes)
unfolding render_text
render_text-InBox c x y n [] h = tt
render_text-InBox c x y n ((i, r) ∷ runes) (h, rest) =
    InBox-append x (x + 6 * n) y (y + 7) (drawn_glyph c (x + i * 6) y (lookup r font_glyphs))
      (render_text c x y runes)
      (InBox-wider x (x + i * 6) (x + 6 * n) (x + i * 6 + 5) y (y + 7)
        (drawn_glyph c (x + i * 6) y (lookup r font_glyphs)) (omega arith) (omega (arith, h))
        (drawn_glyph-InBox c (x + i * 6) y r))
      (render_text-InBox c x y n runes rest)
