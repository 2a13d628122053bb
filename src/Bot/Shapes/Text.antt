-- ===== src/Bot/Shapes/Text.antt =====
-- `renderText` of internal/bot/shapes.go. What a `range` loop reads from a string is a parameter of the
-- caller: each rune with the offset of its first byte.
pub mod Font
pub mod Box
use pixel_beetle.Prelude.{
  ℕ, suc, ◌+◌, ◌*◌, Option, none, some, List, [], ◌∷◌, ◌++◌, lookup, ◌==◌, if◌then◌else◌,
}
use pixel_beetle.Bot.Blueprint.{Placement}
use pixel_beetle.Bot.Shapes.{placement}
use pixel_beetle.Bot.Shapes.Text.Font.{font_glyphs}

abbrev pub glyph_advance : ℕ
glyph_advance = 6

-- A row of a glyph from the column `x` on; 88 is 'X'.
unfoldable pub glyph_row : ℕ → ℕ → ℕ → List ℕ → List Placement
glyph_row c x y [] = []
glyph_row c x y (ch ∷ row) =
    let rest = glyph_row c (suc x) y row in if ch == 88 then placement x y c ∷ rest else rest

-- The rows of a glyph from `y` down.
unfoldable pub glyph_rows : ℕ → ℕ → ℕ → List (List ℕ) → List Placement
unfolding glyph_row
glyph_rows c x y [] = []
glyph_rows c x y (row ∷ rows) = glyph_row c x y row ++ glyph_rows c x (suc y) rows

abbrev pub drawn_glyph : ℕ → ℕ → ℕ → Option (List (List ℕ)) → List Placement
drawn_glyph c x y none = []
drawn_glyph c x y (some rows) = glyph_rows c x y rows

unfoldable pub render_text : ℕ → ℕ → ℕ → List (ℕ × ℕ) → List Placement
unfolding glyph_rows
render_text c x y [] = []
render_text c x y ((i, r) ∷ runes) =
    drawn_glyph c (x + i * glyph_advance) y (lookup r font_glyphs) ++ render_text c x y runes
