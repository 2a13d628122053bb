-- ===== src/Bot/Preview.antt =====
-- internal/bot/preview.go: RenderPreview. `none` is a panic: of Get, or of a letter that there is not.
pub mod Rendered
mod Tests
use pixel_beetle.Prelude.{
  ℕ, zero, suc, ◌+◌, ◌-◌, ◌%◌, ◌&&◌, Option, none, some, List, [], ◌∷◌, ◌++◌, leb, ltb, ◌==◌,
  if◌then◌else◌,
}
use pixel_beetle.Canvas.{Bitmap, get_cell}
use pixel_beetle.Bot.Blueprint.{Placement, Blueprint, cell_color}

-- `previewChars[c]`
abbrev pub preview_char : ℕ → Option ℕ
preview_char c = if ltb c 16 then some (97 + c) else none

-- The map `cells`.
unfoldable pub preview_cells : List Placement → List Placement → List Placement
preview_cells [] cells = cells
preview_cells (p ∷ ps) cells = preview_cells ps (p ∷ cells)

-- `cells[[2]int{int(x) - int(off[0]), int(y) - int(off[1])}]`, whose keys are not negative.
abbrev pub shifted_color : List Placement → ℕ × ℕ → ℕ → ℕ → Option ℕ
shifted_color cells (ox, oy) x y =
    if leb ox x && leb oy y then cell_color cells (x - ox) (y - oy) else none

-- The character of a cell, by the color that the blueprint has for it and its byte.
abbrev pub overlaid : Option ℕ → ℕ → Option ℕ
overlaid (some c) v = if v == 0 then preview_char c else some 88
overlaid none v = if v == 0 then some 46 else preview_char ((v - 1) % 16)

abbrev pub overlaid_byte : Option ℕ → Option ℕ → Option ℕ
overlaid_byte o none = none
overlaid_byte o (some v) = overlaid o v

unfoldable pub preview_cell : Bitmap → List Placement → ℕ × ℕ → ℕ → ℕ → Option ℕ
preview_cell b cells off x y = overlaid_byte (shifted_color cells off x y) (get_cell x y b)

abbrev pub cons_char : Option ℕ → Option (List ℕ) → Option (List ℕ)
cons_char none row = none
cons_char (some c) none = none
cons_char (some c) (some row) = some (c ∷ row)

abbrev pub join_rows : Option (List ℕ) → Option (List ℕ) → Option (List ℕ)
join_rows none rest = none
join_rows (some row) none = none
join_rows (some row) (some rest) = some (row ++ rest)

-- `n` cells of a row from `x` on, and its end.
unfoldable pub preview_row : (ℕ → Option ℕ) → ℕ → ℕ → Option (List ℕ)
preview_row cell x zero = some (10 ∷ [])
preview_row cell x (suc n) = cons_char (cell x) (preview_row cell (suc x) n)

-- `n` rows from `y` on.
unfoldable pub preview_rows : (ℕ → ℕ → Option ℕ) → ℕ → ℕ → ℕ → Option (List ℕ)
unfolding preview_row
preview_rows cell w y zero = some []
preview_rows cell w y (suc n) =
    join_rows (preview_row (λ x. cell x y) 0 w) (preview_rows cell w (suc y) n)

unfoldable pub render_preview : Bitmap → ℕ → ℕ → Blueprint → ℕ × ℕ → Option (List ℕ)
unfolding preview_cells preview_cell preview_rows
render_preview b grid_w grid_h bp off =
    preview_rows (preview_cell b (preview_cells bp.placements []) off) grid_w 0 grid_h
