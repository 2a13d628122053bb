-- ===== src/Bot/Shapes/Rectangles.antt =====
-- The cells of the rectangles of internal/bot/shapes.go.
use pixel_beetle.Prelude.{
  ℕ, zero, suc, ◌+◌, ◌-◌, ◌<◌, ◌≡◌, ◌∙◌, ◌&&◌, ◌||◌, none, some, ltb, leb, ◌==◌, if◌then◌else◌,
  arith,
}
use pixel_beetle.Bot.Blueprint.Compose.{painted, painted-append}
use pixel_beetle.Bot.Shapes.{fill_row, fill_rect, rect_rows, rect_columns, rect_outline}

painted-fill_row :
    (c y x n px py : ℕ)
    → painted (fill_row c y x n) px py
      ≡ (if y == py && leb x px && ltb px (x + n) then some c else none)
unfolding painted fill_row
painted-fill_row c y x zero px py = ground arith
painted-fill_row c y x (suc n) px py = ground (arith, painted-fill_row c y (suc x) n px py)

-- "fillrect" paints the cells of its rectangle and no other.
pub painted-fill_rect :
    (c x w y h px py : ℕ)
    → painted (fill_rect c x w y h) px py
      ≡ (if leb x px && ltb px (x + w) && leb y py && ltb py (y + h) then some c else none)
unfolding painted fill_rect
painted-fill_rect c x w y zero px py = ground arith
painted-fill_rect c x w y (suc h) px py =
    painted-append (fill_row c y x w) (fill_rect c x w (suc y) h) px py
    ∙ ground (arith, painted-fill_row c y x w px py, painted-fill_rect c x w (suc y) h px py)

painted-rect_rows :
    (c top bottom x n px py : ℕ)
    → painted (rect_rows c top bottom x n) px py
      ≡ (if (top == py || bottom == py) && leb x px && ltb px (x + n) then some c else none)
unfolding painted rect_rows
painted-rect_rows c top bottom x zero px py = ground arith
painted-rect_rows c top bottom x (suc n) px py =
    ground (arith, painted-rect_rows c top bottom (suc x) n px py)

painted-rect_columns :
    (c left right y n px py : ℕ)
    → painted (rect_columns c left right y n) px py
      ≡ (if (left == px || right == px) && leb y py && ltb py (y + n) then some c else none)
unfolding painted rect_columns
painted-rect_columns c left right y zero px py = ground arith
painted-rect_columns c left right y (suc n) px py =
    ground (arith, painted-rect_columns c left right (suc y) n px py)

-- "rect" with a positive width and height paints the border of its rectangle and no other cell.
pub painted-rect_outline :
    (c x y w h px py : ℕ)
    → 0 < w
    → 0 < h
    → painted (rect_outline c x y w h) px py ≡ (
        if leb x px
          && ltb px (x + w)
          && leb y py
          && ltb py (y + h)
          && (px == x || px + 1 == x + w || py == y || py + 1 == y + h)
        then some c
        else none)
unfolding rect_outline
painted-rect_outline c x y w h px py hw hh =
    painted-append (rect_rows c y (y + h - 1) x w) (rect_columns c x (x + w - 1) (y + 1) (h - 2)) px
      py
    ∙ ground (
      arith,
      painted-rect_rows c y (y + h - 1) x w px py,
      painted-rect_columns c x (x + w - 1) (y + 1) (h - 2) px py,
    )
