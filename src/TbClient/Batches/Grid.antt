-- ===== src/TbClient/Batches/Grid.antt =====
-- The order in which `EnsureAllPixels` (internal/tbclient/tbclient.go) visits the grid.
use native.Mathlib.Nat.{mul-add-div_right, div-eq_of_lt, mul-add-mod_self_right, mod-eq_of_lt}
use pixel_beetle.Prelude.{
  ℕ, zero, suc, ◌+◌, ◌*◌, ◌/◌, ◌%◌, ◌^◌, ◌<◌, ◌≤◌, ◌≡◌, refl, ◌∙◌, ap, List, [], ◌∷◌, ◌++◌, map,
  arith,
}
use pixel_beetle.TbClient.External.{TbLib, Transfer}
use pixel_beetle.TbClient.Ids.{pixel_id}
use pixel_beetle.TbClient.Transfers.{fund_transfer}
use pixel_beetle.TbClient.Batches.{indices, grid_ids, grid_funds}

-- `n` cells of the row `y` from the column `x` on.
unfoldable pub row_cells : ℕ → ℕ → ℕ → List (ℕ × ℕ)
row_cells y x zero = []
row_cells y x (suc n) = (x, y) ∷ row_cells y (suc x) n

-- `h` rows from the row `y` on, each from left to right.
unfoldable pub all_cells : ℕ → ℕ → ℕ → List (ℕ × ℕ)
all_cells w y zero = []
all_cells w y (suc h) = row_cells y 0 w ++ all_cells w (suc y) h

abbrev cell_of : ℕ → ℕ → ℕ × ℕ
cell_of w i = (i % 2 ^ 32 % w, i % 2 ^ 32 / w)

indices-append : (i n m : ℕ) → indices i (n + m) ≡ indices i n ++ indices (i + n) m
unfolding indices
indices-append i zero m =
    ap (indices i) {x = 0 + m} {y = m} (omega arith)
    ∙ ap (λ j. indices j m) {x = i} {y = i + 0} (omega arith)
indices-append i (suc n) m =
    ap (indices i) {x = suc n + m} {y = suc (n + m)} (omega arith)
    ∙ ap (λ l. i ∷ l)
        (indices-append (i + 1) n m
          ∙ ap (λ j. indices (i + 1) n ++ indices j m) {x = i + 1 + n} {y = i + suc n}
              (omega arith))

map-append {ℓ} :
    {X Y : Type ℓ} (f : X → Y) (xs ys : List X) → map f (xs ++ ys) ≡ map f xs ++ map f ys
map-append f [] ys = refl
map-append f (x ∷ xs) ys = ap (λ l. f x ∷ l) (map-append f xs ys)

cell_of-index : (w x y : ℕ) → x < w → y * w + x < 2 ^ 32 → cell_of w (y * w + x) ≡ (x, y)
cell_of-index w x y h below =
    let plain : (y * w + x) % 2 ^ 32 ≡ y * w + x = mod-eq_of_lt below in
    let column : (y * w + x) % w ≡ x = mul-add-mod_self_right y w x ∙ mod-eq_of_lt h in
    let row : (y * w + x) / w ≡ y =
      mul-add-div_right (omega (arith, h)) y x ∙ ap (λ q. y + q) (div-eq_of_lt h) ∙ omega arith in
    ap (λ i. (i % w, i / w)) plain ∙ ap (λ c. (c, (y * w + x) / w)) column ∙ ap (λ r. (x, r)) row

row_cells-indices :
    (w y x n : ℕ)
    → x + n ≤ w
    → y * w + x + n ≤ 2 ^ 32
    → map (cell_of w) (indices (y * w + x) n) ≡ row_cells y x n
unfolding indices row_cells
row_cells-indices w y x zero h below = refl
row_cells-indices w y x (suc n) h below =
    ap (λ c. c ∷ map (cell_of w) (indices (y * w + x + 1) n))
      (cell_of-index w x y (omega (arith, h)) (omega (arith, below)))
    ∙ ap (λ l. (x, y) ∷ l)
        (ap (λ i. map (cell_of w) (indices i n)) {x = y * w + x + 1} {y = y * w + suc x}
            (omega arith)
          ∙ row_cells-indices w y (suc x) n (omega (arith, h)) (omega (arith, below)))

all_cells-indices :
    (w y h : ℕ)
    → y * w + h * w ≤ 2 ^ 32
    → map (cell_of w) (indices (y * w) (h * w)) ≡ all_cells w y h
unfolding all_cells indices
all_cells-indices w y zero below =
    ap (λ n. map (cell_of w) (indices (y * w) n)) {x = 0 * w} {y = 0} (omega arith)
all_cells-indices w y (suc h) below =
    let size : suc h * w ≡ w + h * w = grind arith in
    let next : y * w + w ≡ suc y * w = grind arith in
    ap (λ n. map (cell_of w) (indices (y * w) n)) size
    ∙ ap (map (cell_of w)) (indices-append (y * w) w (h * w))
    ∙ map-append (cell_of w) (indices (y * w) w) (indices (y * w + w) (h * w))
    ∙ ap (λ l. l ++ map (cell_of w) (indices (y * w + w) (h * w)))
        (ap (λ i. map (cell_of w) (indices i w)) {x = y * w} {y = y * w + 0} (omega arith)
          ∙ row_cells-indices w y 0 w (omega arith) (omega (arith, below, size)))
    ∙ ap (λ l. row_cells y 0 w ++ l)
        (ap (λ i. map (cell_of w) (indices i (h * w))) next
          ∙ all_cells-indices w (suc y) h (omega (arith, below, size, next)))

module _ (tb : TbLib) (w : ℕ) where
  -- The accounts and the funds of the cells of a grid, row by row.
  abbrev pub cell_ids : ℕ → List ℕ
  cell_ids h = map (λ c. pixel_id tb c.0 c.1) (all_cells w 0 h)

  abbrev pub cell_funds : ℕ → List Transfer
  cell_funds h = map (λ c. fund_transfer tb c.0 c.1) (all_cells w 0 h)

  grid_ids-cells :
      (is : List ℕ) → grid_ids tb w is ≡ map (λ c. pixel_id tb c.0 c.1) (map (cell_of w) is)
  unfolding grid_ids
  grid_ids-cells [] = refl
  grid_ids-cells (i ∷ is) =
      ap (◌∷◌ (pixel_id tb (i % 2 ^ 32 % w) (i % 2 ^ 32 / w))) (grid_ids-cells is)

  grid_funds-cells :
      (is : List ℕ) → grid_funds tb w is ≡ map (λ c. fund_transfer tb c.0 c.1) (map (cell_of w) is)
  unfolding grid_funds
  grid_funds-cells [] = refl
  grid_funds-cells (i ∷ is) =
      ap (◌∷◌ (fund_transfer tb (i % 2 ^ 32 % w) (i % 2 ^ 32 / w))) (grid_funds-cells is)

  cells_of_grid : (h : ℕ) → w * h ≤ 2 ^ 32 → map (cell_of w) (indices 0 (w * h)) ≡ all_cells w 0 h
  cells_of_grid h below =
      ap (λ n. map (cell_of w) (indices 0 n)) {x = w * h} {y = h * w} (grind arith)
      ∙ ap (λ i. map (cell_of w) (indices i (h * w))) {x = 0} {y = 0 * w} (omega arith)
      ∙ all_cells-indices w 0 h (grind (arith, below))

  -- What `EnsureAllPixels` sends for a grid of at most 2 ^ 32 cells.
  pub grid_row_major :
      (h : ℕ)
      → w * h ≤ 2 ^ 32
      → (grid_ids tb w (indices 0 (w * h)) ≡ cell_ids h)
        × (grid_funds tb w (indices 0 (w * h)) ≡ cell_funds h)
  grid_row_major h below = (
    grid_ids-cells (indices 0 (w * h))
        ∙ ap (map (λ c. pixel_id tb c.0 c.1)) (cells_of_grid h below),
    grid_funds-cells (indices 0 (w * h))
        ∙ ap (map (λ c. fund_transfer tb c.0 c.1)) (cells_of_grid h below),
  )
