-- ===== src/Bot/Shapes/Circle.antt =====
-- `circlePoints` and `setToScanline` of internal/bot/shapes.go. The set of points is a list; a point may
-- lie left of the drawing or above it. The loop runs on fuel, and `none` means that it ran out or
-- that the numbers of a circle are too large.
pub mod Round
pub mod Scan
pub mod Drawn
use pixel_beetle.Prelude.{
  ℕ, zero, suc, ◌+◌, ◌-◌, ◌*◌, ◌^◌, Bool, true, false, ◌&&◌, ◌||◌, Option, none, some, List, [],
  ◌∷◌, ◌++◌, ltb, leb, if◌then◌else◌, ℤ, pos, negsuc, ◌+ℤ◌, ◌-ℤ◌, leb_ℤ, eqb_ℤ, pos_part,
}

abbrev pub Point : Type 0
Point = ℤ × ℤ

-- A placement, of which only the row is never negative.
pub record Mark : Type 0 where
  pub x : ℤ
  pub y : ℕ
  pub color : ℕ

-- The variables of the loop; `x` and `y` are not negative.
pub record Octant : Type 0 where
  pub x : ℕ
  pub y : ℕ
  pub err : ℤ

-- The eight points of a round.
abbrev pub mirrored : ℤ → ℤ → ℕ → ℕ → List Point
mirrored cx cy x y =
    (cx +ℤ pos x, cy +ℤ pos y)
    ∷ (cx +ℤ pos y, cy +ℤ pos x)
    ∷ (cx -ℤ pos y, cy +ℤ pos x)
    ∷ (cx -ℤ pos x, cy +ℤ pos y)
    ∷ (cx -ℤ pos x, cy -ℤ pos y)
    ∷ (cx -ℤ pos y, cy -ℤ pos x)
    ∷ (cx +ℤ pos y, cy -ℤ pos x)
    ∷ (cx +ℤ pos x, cy -ℤ pos y)
    ∷ []

abbrev pub is_negative : ℤ → Bool
is_negative (pos n) = false
is_negative (negsuc n) = true

-- `err += 2*y + 1`, or `x--` and `err += 2*(y-x) + 1`.
unfoldable pub octant_step : Octant → Octant
octant_step o =
    let y = suc o.y in
    if is_negative o.err
    then record o { y = y; err = o.err +ℤ pos (2 * y + 1) }
    else record o { x = o.x - 1; y = y; err = o.err +ℤ (pos (2 * y + 1) -ℤ pos (2 * (o.x - 1))) }

abbrev pub with_points : List Point → Option (List Point) → Option (List Point)
with_points ps none = none
with_points ps (some qs) = some (ps ++ qs)

unfoldable pub circle_from : ℕ → ℤ → ℤ → Octant → Option (List Point)
unfolding octant_step
circle_from zero cx cy o = none
circle_from (suc f) cx cy o =
    let rest = circle_from f cx cy (octant_step o) in
    if leb o.y o.x then with_points (mirrored cx cy o.x o.y) rest else some []

-- `_, ok := set[[2]int{x, y}]`
unfoldable pub has_point : ℤ → ℤ → List Point → Bool
has_point x y [] = false
has_point x y ((px, py) ∷ ps) = (eqb_ℤ px x && eqb_ℤ py y) || has_point x y ps

abbrev pub min_int : ℤ → ℤ → ℤ
min_int a b = if leb_ℤ a b then a else b

abbrev pub max_int : ℤ → ℤ → ℤ
max_int a b = if leb_ℤ a b then b else a

-- The least and the largest `x`, and the largest `y`.
pub record Bounds : Type 0 where
  pub min_x : ℤ
  pub max_x : ℤ
  pub max_y : ℤ

abbrev pub no_bounds : Bounds
no_bounds = record {
  min_x = pos 1_073_741_824;
  max_x = negsuc 1_073_741_823;
  max_y = negsuc 1_073_741_823;
}

unfoldable pub bounds_from : List Point → Bounds → Bounds
bounds_from [] b = b
bounds_from ((x, y) ∷ ps) b =
    bounds_from ps
      (record { min_x = min_int x b.min_x; max_x = max_int b.max_x x; max_y = max_int b.max_y y })

-- The number of integers from `a` up to `b`.
abbrev pub span : ℤ → ℤ → ℕ
span a b = if leb_ℤ a b then pos_part (b -ℤ a) + 1 else 0

-- `n` cells of a row from `x` on.
unfoldable pub mark_row : List Point → ℕ → ℕ → ℤ → ℕ → List Mark
unfolding has_point
mark_row set c y x zero = []
mark_row set c y x (suc n) =
    let rest = mark_row set c y (x +ℤ pos 1) n in
    if has_point x (pos y) set then record { x = x; y = y; color = c } ∷ rest else rest

-- `n` rows from `y` on.
unfoldable pub mark_rows : List Point → ℕ → ℤ → ℕ → ℕ → ℕ → List Mark
unfolding mark_row
mark_rows set c min_x w y zero = []
mark_rows set c min_x w y (suc n) = mark_row set c y min_x w ++ mark_rows set c min_x w (suc y) n

unfoldable pub set_to_scanline : List Point → ℕ → List Mark
unfolding bounds_from mark_rows
set_to_scanline [] c = []
set_to_scanline (p ∷ ps) c =
    let b = bounds_from (p ∷ ps) no_bounds in
    mark_rows (p ∷ ps) c b.min_x (span b.min_x b.max_x) 0 (span (pos 0) b.max_y)

abbrev pub scanned : ℕ → Option (List Point) → Option (List Mark)
scanned c none = none
scanned c (some set) = some (set_to_scanline set c)

-- At the largest int the loop over the columns does not end, and a larger sum wraps around; with a radius
-- below 2 ^ 61 neither `err` nor what is added to it leaves an int. `none` where one is larger.
abbrev pub is_inside_int : ℕ → ℕ → ℕ → Bool
is_inside_int cx cy r = ltb (cx + r) (2 ^ 63 - 1) && (ltb (cy + r) (2 ^ 63 - 1) && ltb r (2 ^ 61))

-- Fuel for one round more than the radius.
unfoldable pub circle_points : ℕ → ℕ → ℕ → ℕ → Option (List Mark)
unfolding circle_from set_to_scanline
circle_points cx cy r c =
    if is_inside_int cx cy r
    then scanned c (
        circle_from (suc (suc r)) (pos cx) (pos cy) (record { x = r; y = 0; err = pos 1 -ℤ pos r }))
    else none
