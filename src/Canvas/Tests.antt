-- ===== src/Canvas/Tests.antt =====
-- The bitmap of internal/canvas/bitmap.go at concrete inputs.
use pixel_beetle.Prelude.{◌≡◌, refl, some, [], ◌∷◌, arith}
use pixel_beetle.Canvas.{Bitmap, new_bitmap, set_cell, get_cell}
use pixel_beetle.Canvas.Cells.{IsSized, IsWritten, set_cell-IsWritten}

abbrev small : Bitmap
small = record { data_bytes = 0 ∷ 7 ∷ 0 ∷ 0 ∷ 0 ∷ 0 ∷ []; w = 3; h = 2 }

small-IsSized : IsSized small
small-IsSized = record { filled = refl; bounded = omega arith }

new_is_blank : get_cell 2 1 (new_bitmap 3 2) ≡ some 0
unfolding new_bitmap get_cell
new_is_blank = refl

-- No bounds check: a column past the edge is a cell of the next row.
column_wraps : get_cell 3 0 small ≡ get_cell 0 1 small
unfolding get_cell
column_wraps = refl

set_cell-IsWritten_example :
    (b' : Bitmap) × (set_cell 2 1 5 small ≡ some b') × IsWritten 2 1 5 small b'
set_cell-IsWritten_example =
    set_cell-IsWritten 2 1 5 small small-IsSized (omega arith) (omega arith)
