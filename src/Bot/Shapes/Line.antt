-- ===== src/Bot/Shapes/Line.antt =====
-- `linePoints` of internal/bot/shapes.go, Bresenham's line. The loop runs on fuel, and `none` means
-- that the fuel ran out or that the numbers of a line are too large. The vertical abs_diff is kept as it is; the source negates it.
pub mod Steps
pub mod Traced
use pixel_beetle.Prelude.{
  ℕ, zero, suc, ◌+◌, ◌-◌, ◌^◌, Bool, true, false, ◌&&◌, Option, none, some, List, [], ◌∷◌, ltb, leb,
  ◌==◌, if◌then◌else◌, ℤ, pos, negsuc, ◌+ℤ◌, ◌-ℤ◌, leb_ℤ,
}
use pixel_beetle.Bot.Blueprint.{Placement}
use pixel_beetle.Bot.Shapes.{placement}

-- The fixed variables of the loop: the last point, the distances `dx` and `-dy`, whether `sx` and `sy`
-- are -1, and the color.
pub record Line : Type 0 where
  pub x1 : ℕ
  pub y1 : ℕ
  pub width : ℕ
  pub height : ℕ
  pub left : Bool
  pub up : Bool
  pub color : ℕ

-- The variables that the loop changes.
pub record Pen : Type 0 where
  pub x : ℕ
  pub y : ℕ
  pub e : ℤ

-- `absInt(b - a)`
abbrev pub abs_diff : ℕ → ℕ → ℕ
abs_diff a b = if leb a b then b - a else a - b

abbrev pub line_of : ℕ → ℕ → ℕ → ℕ → ℕ → Line
line_of x0 y0 x1 y1 c = record {
  x1 = x1;
  y1 = y1;
  width = abs_diff x0 x1;
  height = abs_diff y0 y1;
  left = ltb x1 x0;
  up = ltb y1 y0;
  color = c;
}

abbrev pub moved : Bool → ℕ → ℕ
moved true v = v - 1
moved false v = v + 1

-- The two `if` of a round; both read the `e2` from before.
abbrev pub step_x : Line → ℤ → Pen → Pen
step_x l e2 p =
    if leb_ℤ (pos 0 -ℤ pos l.height) e2
    then record p { x = moved l.left p.x; e = p.e -ℤ pos l.height }
    else p

abbrev pub step_y : Line → ℤ → Pen → Pen
step_y l e2 p =
    if leb_ℤ e2 (pos l.width) then record p { y = moved l.up p.y; e = p.e +ℤ pos l.width } else p

unfoldable pub line_step : Line → Pen → Pen
line_step l p = let e2 = p.e +ℤ p.e in step_y l e2 (step_x l e2 p)

abbrev pub after_point : Placement → Option (List Placement) → Option (List Placement)
after_point a none = none
after_point a (some ps) = some (a ∷ ps)

unfoldable pub line_from : ℕ → Line → Pen → Option (List Placement)
unfolding line_step
line_from zero l p = none
line_from (suc f) l p =
    let rest = line_from f l (line_step l p) in
    if p.x == l.x1 && p.y == l.y1
    then some (placement p.x p.y l.color ∷ [])
    else after_point (placement p.x p.y l.color) rest

-- Where both distances are below 2 ^ 61, `err` stays between one and a half times each, and neither it
-- nor `2*err` leaves an int; `none` where one is not.
abbrev pub is_short : Line → Bool
is_short l = ltb l.width (2 ^ 61) && ltb l.height (2 ^ 61)

-- Fuel for one round more than the sum of the distances.
unfoldable pub line_points : ℕ → ℕ → ℕ → ℕ → ℕ → Option (List Placement)
unfolding line_from
line_points x0 y0 x1 y1 c =
    let l = line_of x0 y0 x1 y1 c in
    if is_short l
    then line_from (suc (l.width + l.height)) l
        (record { x = x0; y = y0; e = pos l.width -ℤ pos l.height })
    else none
