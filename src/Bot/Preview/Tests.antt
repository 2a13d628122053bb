-- ===== src/Bot/Preview/Tests.antt =====
-- The preview of a drawing on a small canvas.
use pixel_beetle.Prelude.{ℕ, ◌≡◌, refl, some, List, [], ◌∷◌, arith}
use pixel_beetle.Canvas.{Bitmap, get_cell}
use pixel_beetle.Bot.Blueprint.{Blueprint, cell_color}
use pixel_beetle.Bot.Blueprint.Compose.{painted}
use pixel_beetle.Bot.Preview.{
  preview_cells, preview_cell, preview_row, preview_rows, render_preview,
}
use pixel_beetle.Bot.Preview.Rendered.{
  IsRows, shown, drawn_color, canvas_byte, render_preview-IsRows,
}

-- A canvas with a cell of color 4.
abbrev canvas_of_two : Bitmap
canvas_of_two = record { data_bytes = 0 ∷ 5 ∷ 0 ∷ 0 ∷ []; w = 2; h = 2 }

abbrev dot : Blueprint
dot = record { w = 1; h = 1; placements = record { x = 0; y = 0; color = 3 } ∷ [] }

-- `.e` over `.d`: the drawing's cell is in lower case.
test_lower_case :
    render_preview canvas_of_two 2 2 dot (1, 1) ≡ some (46 ∷ 101 ∷ 10 ∷ 46 ∷ 100 ∷ 10 ∷ [])
unfolding render_preview preview_rows preview_row preview_cell preview_cells cell_color get_cell
test_lower_case = refl

render_preview-IsRows_example :
    (text : List ℕ) × (render_preview canvas_of_two 2 2 dot (1, 0) ≡ some text)
    × IsRows (λ x y. shown (drawn_color dot (1, 0) x y) (canvas_byte canvas_of_two x y)) 2 0 2 text
unfolding painted
render_preview-IsRows_example =
    render_preview-IsRows canvas_of_two dot (1, 0)
      (record { filled = omega arith; bounded = omega arith }) (λ x y c e. ground (arith, e))
