-- ===== src/Bot/Preview/Rendered.antt =====
-- What RenderPreview (internal/bot/preview.go) prints for each cell.
use pixel_beetle.Prelude.{
  ℕ, zero, suc, ◌+◌, ◌-◌, ◌*◌, ◌%◌, ◌<◌, ◌≡◌, refl, ap, ◌∙◌, inl, inr, ◌&&◌, Option, none, some,
  List, [], ◌∷◌, ◌++◌, leb, ◌==◌, if◌then◌else◌, arith, length, get_elem?, get_or, Bool-cases,
  length-append, get_elem?-get_or,
}
use pixel_beetle.Canvas.{Bitmap, get_cell}
use pixel_beetle.Canvas.Cells.{IsSized, cell_bound, index_exact}
use pixel_beetle.Bot.Blueprint.Compose.{painted, or_else}
use pixel_beetle.Bot.Blueprint.{Placement, Blueprint, cell_color}
use pixel_beetle.Bot.Preview.{
  preview_cells, shifted_color, overlaid, overlaid_byte, preview_cell, preview_row, preview_rows,
  render_preview,
}

get_elem?-append :
    (xs ys : List ℕ) (i : ℕ) → i < length xs → get_elem? (xs ++ ys) i ≡ get_elem? xs i
get_elem?-append [] ys i h = absurd (omega arith)
get_elem?-append (x ∷ xs) ys zero h = refl
get_elem?-append (x ∷ xs) ys (suc i) h = get_elem?-append xs ys i (omega (arith, h))

get_elem?-append_right :
    (xs ys : List ℕ) (i j : ℕ) → i ≡ length xs + j → get_elem? (xs ++ ys) i ≡ get_elem? ys j
get_elem?-append_right [] ys i j h = ap (get_elem? ys) {x = i} {y = j} (omega (arith, h))
get_elem?-append_right (x ∷ xs) ys zero j h = absurd (omega (arith, h))
get_elem?-append_right (x ∷ xs) ys (suc i) j h = get_elem?-append_right xs ys i j (omega (arith, h))

-- A row of `n` characters and its end.
abbrev IsRow : (ℕ → ℕ) → ℕ → List ℕ → Type 0
IsRow g n row =
    (length row ≡ n + 1)
    × ((i : ℕ) → i < n + 1 → get_elem? row i ≡ some (if i == n then 10 else g i))

row_cons :
    (g : ℕ → ℕ) (n : ℕ) (row : List ℕ)
    → ((i : ℕ) → i < n + 1 → get_elem? row i ≡ some (if i == n then 10 else g (suc i)))
    → (i : ℕ) → i < suc n + 1
    → get_elem? (g 0 ∷ row) i ≡ some (if i == suc n then 10 else g i)
row_cons g n row h zero k = ground arith
row_cons g n row h (suc i) k = h i (omega (arith, k)) ∙ ground arith

row_end :
    (g : ℕ → ℕ) (i : ℕ) → i < 0 + 1 → get_elem? (10 ∷ []) i ≡ some (if i == 0 then 10 else g i)
row_end g zero h = refl
row_end g (suc i) h = absurd (omega (arith, h))

size_append :
    (w n : ℕ) (row rest : List ℕ)
    → length row ≡ w + 1
    → length rest ≡ n * (w + 1)
    → length (row ++ rest) ≡ suc n * (w + 1)
size_append w n row rest h k = let both = length-append row rest in grind (arith, both)

preview_row-IsRow :
    (cell : ℕ → Option ℕ) (g : ℕ → ℕ) (x n : ℕ)
    → ((i : ℕ) → i < n → cell (x + i) ≡ some (g i))
    → (row : List ℕ) × (preview_row cell x n ≡ some row) × IsRow g n row
unfolding preview_row
preview_row-IsRow cell g x zero h = (10 ∷ [], refl, (refl, row_end g))
preview_row-IsRow cell g x (suc n) h =
    let (row, e, (size, cells)) =
      preview_row-IsRow cell (λ i. g (suc i)) (suc x) n
        (λ i a.
          ap cell {x = suc x + i} {y = x + suc i} (omega arith) ∙ h (suc i) (omega (arith, a))) in
    let first = ap cell {x = x} {y = x + 0} (omega arith) ∙ h 0 (omega arith) in
    (g 0 ∷ row, rw (first, e) refl, (omega (arith, size), row_cons g n row cells))

-- `n` rows of `w` characters, each with its end.
abbrev pub IsRows : (ℕ → ℕ → ℕ) → ℕ → ℕ → ℕ → List ℕ → Type 0
IsRows g w j n text =
    (length text ≡ n * (w + 1))
    × ((x y : ℕ)
        → x < w + 1
        → y < n
        → get_elem? text (y * (w + 1) + x) ≡ some (if x == w then 10 else g x (j + y)))

rows_append :
    (g : ℕ → ℕ → ℕ) (w j n : ℕ) (row rest : List ℕ)
    → IsRow (λ x. g x j) w row
    → IsRows g w (suc j) n rest
    → (x y : ℕ) → x < w + 1
    → y < suc n
    → get_elem? (row ++ rest) (y * (w + 1) + x) ≡ some (if x == w then 10 else g x (j + y))
rows_append g w j n row rest (size, cells) (size', cells') x zero h k =
    ap (get_elem? (row ++ rest)) {x = 0 * (w + 1) + x} {y = x} (omega arith)
    ∙ get_elem?-append row rest x (omega (arith, size, h))
    ∙ cells x h
    ∙ ap (λ v. some (if x == w then 10 else g x v)) {x = j} {y = j + 0} (omega arith)
rows_append g w j n row rest (size, cells) (size', cells') x (suc y) h k =
    get_elem?-append_right row rest (suc y * (w + 1) + x) (y * (w + 1) + x) (grind (arith, size))
    ∙ cells' x y h (omega (arith, k))
    ∙ ap (λ v. some (if x == w then 10 else g x v)) {x = suc j + y} {y = j + suc y} (omega arith)

preview_rows-IsRows :
    (cell : ℕ → ℕ → Option ℕ) (g : ℕ → ℕ → ℕ) (w j n : ℕ)
    → ((x y : ℕ) → x < w → y < j + n → cell x y ≡ some (g x y))
    → (text : List ℕ) × (preview_rows cell w j n ≡ some text) × IsRows g w j n text
unfolding preview_rows
preview_rows-IsRows cell g w j zero h =
    ([], refl, (omega arith, λ x y a b. absurd (omega (arith, b))))
preview_rows-IsRows cell g w j (suc n) h =
    let (row, e, line) =
      preview_row-IsRow (λ x. cell x j) (λ x. g x j) 0 w
        (λ i a. ap (λ v. cell v j) {x = 0 + i} {y = i} (omega arith) ∙ h i j a (omega arith)) in
    let (rest, e', below) =
      preview_rows-IsRows cell g w (suc j) n (λ x y a b. h x y a (omega (arith, b))) in
    (
      row ++ rest,
      rw (e, e') refl,
      (size_append w n row rest line.0 below.0, rows_append g w j n row rest line below),
    )

-- The map holds the last placement of each cell.
cell_color-preview_cells :
    (ps cells : List Placement) (x y : ℕ)
    → cell_color (preview_cells ps cells) x y ≡ or_else (painted ps x y) (cell_color cells x y)
unfolding preview_cells painted cell_color
cell_color-preview_cells [] cells x y = refl
cell_color-preview_cells (p ∷ ps) cells x y =
    ground (arith, cell_color-preview_cells ps (p ∷ cells) x y)

cell_color-written_all :
    (ps : List Placement) (x y : ℕ) → cell_color (preview_cells ps []) x y ≡ painted ps x y
unfolding cell_color
cell_color-written_all ps x y = ground (arith, cell_color-preview_cells ps [] x y)

-- The byte of a cell of the canvas.
abbrev pub canvas_byte : Bitmap → ℕ → ℕ → ℕ
canvas_byte b x y = get_or b.data_bytes (y * b.w + x) 0

get_cell-canvas_byte :
    (b : Bitmap) (x y : ℕ)
    → IsSized b
    → x < b.w
    → y < b.h
    → get_cell x y b ≡ some (canvas_byte b x y)
unfolding get_cell
get_cell-canvas_byte b x y sized hx hy =
    ap (get_elem? b.data_bytes) (index_exact x y b sized hx hy)
    ∙ get_elem?-get_or b.data_bytes (y * b.w + x) 0
        (omega (arith, cell_bound x y b.w b.h hx hy, sized.filled))

-- The color that a drawing at an offset has for a cell of the canvas.
abbrev pub drawn_color : Blueprint → ℕ × ℕ → ℕ → ℕ → Option ℕ
drawn_color bp (ox, oy) x y =
    if leb ox x && leb oy y then painted bp.placements (x - ox) (y - oy) else none

-- A lower-case letter, `X` where a painted cell is painted over, or a dot.
abbrev pub shown : Option ℕ → ℕ → ℕ
shown (some c) v = if v == 0 then 97 + c else 88
shown none v = if v == 0 then 46 else 97 + (v - 1) % 16

overlaid-shown :
    (o : Option ℕ) (v : ℕ) → ((c : ℕ) → o ≡ some c → c < 16) → overlaid o v ≡ some (shown o v)
overlaid-shown none v h = elim (Bool-cases (v == 0)) [
  | inl t ↦ rw t refl
  | inr t ↦ rw t (ground arith)
]
overlaid-shown (some c) v h = let k = h c refl in ground (arith, k)

shifted_color-drawn_color :
    (bp : Blueprint) (off : ℕ × ℕ) (x y : ℕ)
    → shifted_color (preview_cells bp.placements []) off x y ≡ drawn_color bp off x y
shifted_color-drawn_color bp (ox, oy) x y =
    ap (λ o. if leb ox x && leb oy y then o else none)
      (cell_color-written_all bp.placements (x - ox) (y - oy))

-- RenderPreview of a canvas of fewer than 2 ^ 32 cells and a drawing of palette colors does not
-- panic. It prints a line for each row, and in it for each cell a dot where nothing is or will be,
-- the lower-case letter of the color that the canvas holds or that the drawing puts on an empty
-- cell, or X where the drawing paints over a painted cell; the last placement of a cell counts.
pub render_preview-IsRows :
    (b : Bitmap) (bp : Blueprint) (off : ℕ × ℕ)
    → IsSized b
    → ((x y c : ℕ) → drawn_color bp off x y ≡ some c → c < 16)
    → (text : List ℕ) × (render_preview b b.w b.h bp off ≡ some text)
      × IsRows (λ x y. shown (drawn_color bp off x y) (canvas_byte b x y)) b.w 0 b.h text
unfolding render_preview preview_cell
render_preview-IsRows b bp off sized colors =
    preview_rows-IsRows (preview_cell b (preview_cells bp.placements []) off)
      (λ x y. shown (drawn_color bp off x y) (canvas_byte b x y)) b.w 0 b.h
      (λ x y hx hy.
        ap (overlaid_byte (shifted_color (preview_cells bp.placements []) off x y))
          (get_cell-canvas_byte b x y sized hx (omega (arith, hy)))
        ∙ ap (λ o. overlaid o (canvas_byte b x y)) (shifted_color-drawn_color bp off x y)
        ∙ overlaid-shown (drawn_color bp off x y) (canvas_byte b x y) (colors x y))
