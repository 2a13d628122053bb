-- ===== src/Bot/Shapes/Tests.antt =====
-- The shapes of internal/bot/shapes.go at small arguments.
use pixel_beetle.Prelude.{
  ℕ, ◌+◌, ◌≡◌, refl, inl, some, List, [], ◌∷◌, map, arith, length, codes, ℤ, ◌+ℤ◌, ◌-ℤ◌, lookup,
}
use pixel_beetle.Bot.Blueprint.{Placement}
use pixel_beetle.Bot.Shapes.{placement, rect_outline}
use pixel_beetle.Bot.Shapes.Line.{line_of, line_points}
use pixel_beetle.Bot.Shapes.Line.Traced.{LeadsToEnd, longer, line_points-LeadsToEnd}
use pixel_beetle.Bot.Shapes.Circle.{Mark}
use pixel_beetle.Bot.Shapes.Text.{render_text}
use pixel_beetle.Bot.Shapes.Text.Font.{font_glyphs}
use pixel_beetle.Bot.Shapes.Parse.{zero_size, bad_number, marks, parse_shape}
use pixel_beetle.Bot.Shapes.Parse.Printed.{
  rect_spec, print_shape, drawn_shape, parse_shape-print_shape,
}

abbrev at : ℕ × ℕ → Placement
at (x, y) = placement x y 4

line_up :
    line_points 2 3 7 1 4 ≡ some (map at ((2, 3) ∷ (3, 3) ∷ (4, 2) ∷ (5, 2) ∷ (6, 1) ∷ (7, 1) ∷ []))
unfolding line_points ◌+ℤ◌ ◌-ℤ◌
line_up = refl

line_points-LeadsToEnd_example :
    (ps : List Placement) × (line_points 2 3 7 1 4 ≡ some (placement 2 3 4 ∷ ps))
    × (length ps ≡ longer 2 3 7 1 4)
    × LeadsToEnd (line_of 2 3 7 1 4) (longer 2 3 7 1 4) 2 3 ps
line_points-LeadsToEnd_example = line_points-LeadsToEnd 2 3 7 1 4 (omega arith, omega arith)

abbrev mark : ℤ × ℕ → Mark
mark (x, y) = record { x = x; y = y; color = 4 }

abbrev same_text : List ℕ → List ℕ
same_text s = s

abbrev ascii_from : ℕ → List ℕ → List (ℕ × ℕ)
ascii_from i [] = []
ascii_from i (c ∷ s) = (i, c) ∷ ascii_from (i + 1) s

abbrev ascii : List ℕ → List (ℕ × ℕ)
ascii s = ascii_from 0 s

parse_shape-print_shape_example :
    parse_shape same_text ascii (print_shape (rect_spec 2 1 5 3) (0xff, 0xb4, 0x70))
    ≡ drawn_shape (rect_spec 2 1 5 3) 4
parse_shape-print_shape_example =
    parse_shape-print_shape same_text ascii (rect_spec 2 1 5 3) 4 (0xff, 0xb4, 0x70) (omega arith)
      refl

rect_is_parsed :
    parse_shape same_text ascii (codes "rect:2,1,3,2,#ffb470") ≡ marks (rect_outline 4 2 1 3 2)
unfolding parse_shape rect_outline
rect_is_parsed = refl

zero_size_is_refused : parse_shape same_text ascii (codes "rect:2,1,0,2,#ffb470") ≡ inl zero_size
unfolding parse_shape
zero_size_is_refused = refl

minus_is_refused : parse_shape same_text ascii (codes "line:2,-1,0,2,#ffb470") ≡ inl bad_number
unfolding parse_shape
minus_is_refused = refl

text_is_drawn :
    parse_shape same_text ascii (codes "text:3,2,-,#ffb470")
    ≡ marks (map at ((4, 5) ∷ (5, 5) ∷ (6, 5) ∷ []))
unfolding parse_shape render_text lookup font_glyphs
text_is_drawn = refl
