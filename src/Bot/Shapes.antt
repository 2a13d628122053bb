-- ===== src/Bot/Shapes.antt =====
-- internal/bot/shapes.go: the rectangles; the children have the lines, the circles, the text and the
-- parser of a shape. Go's `int` is unbounded in the rectangles here;
-- lines and circles are modelled where it does not wrap.
pub mod Line
pub mod Circle
pub mod Text
pub mod Rectangles
pub mod Parse
mod Tests
use pixel_beetle.Prelude.{ℕ, zero, suc, ◌+◌, ◌-◌, List, [], ◌∷◌, ◌++◌}
use pixel_beetle.Bot.Blueprint.{Placement}

abbrev pub placement : ℕ → ℕ → ℕ → Placement
placement x y color = record { x = x; y = y; color = color }

-- `n` cells of a row from `x` on.
unfoldable pub fill_row : ℕ → ℕ → ℕ → ℕ → List Placement
fill_row c y x zero = []
fill_row c y x (suc n) = placement x y c ∷ fill_row c y (suc x) n

-- The two loops of "fillrect", for `h` rows from `y` on.
unfoldable pub fill_rect : ℕ → ℕ → ℕ → ℕ → ℕ → List Placement
unfolding fill_row
fill_rect c x w y zero = []
fill_rect c x w y (suc h) = fill_row c y x w ++ fill_rect c x w (suc y) h

-- The first loop of "rect": the cells of the rows `top` and `bottom`, for `n` columns from `x` on.
unfoldable pub rect_rows : ℕ → ℕ → ℕ → ℕ → ℕ → List Placement
rect_rows c top bottom x zero = []
rect_rows c top bottom x (suc n) =
    placement x top c ∷ placement x bottom c ∷ rect_rows c top bottom (suc x) n

-- The second loop: the cells of the columns `left` and `right`, for `n` rows from `y` on.
unfoldable pub rect_columns : ℕ → ℕ → ℕ → ℕ → ℕ → List Placement
rect_columns c left right y zero = []
rect_columns c left right y (suc n) =
    placement left y c ∷ placement right y c ∷ rect_columns c left right (suc y) n

unfoldable pub rect_outline : ℕ → ℕ → ℕ → ℕ → ℕ → List Placement
unfolding rect_rows rect_columns
rect_outline c x y w h =
    rect_rows c y (y + h - 1) x w ++ rect_columns c x (x + w - 1) (y + 1) (h - 2)
