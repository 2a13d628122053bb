-- ===== src/Bot/Shapes/Circle/Drawn.antt =====
-- What `circlePoints` of internal/bot/shapes.go draws.
use pixel_beetle.Prelude.{ℕ, ◌≡◌, true, List, [], ◌∷◌, ◌++◌, arith, ℤ, pos, ◌+ℤ◌, ◌-ℤ◌}
use pixel_beetle.Bot.Shapes.Circle.{Point, has_point}

has_point-append :
    (x y : ℤ) (ps qs : List Point) → has_point x y ps ≡ true → has_point x y (ps ++ qs) ≡ true
unfolding has_point
has_point-append x y [] qs h = ground (arith, h)
has_point-append x y (p ∷ ps) qs h = ground (arith, h, has_point-append x y ps qs)

-- The points that a round at (r, 0) draws to the right and to the left of the center, and below it.
abbrev HasPoles : ℤ → ℤ → ℕ → List Point → Type 0
HasPoles cx cy r ps =
    (has_point (cx +ℤ pos r) (cy +ℤ pos 0) ps ≡ true)
    × (has_point (cx -ℤ pos r) (cy +ℤ pos 0) ps ≡ true)
    × (has_point (cx +ℤ pos 0) (cy +ℤ pos r) ps ≡ true)
