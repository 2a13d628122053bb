-- ===== src/Bot/Shapes/Parse.antt =====
-- The parser of a -draw spec, `parseShape`, and `ComposeShapes` of internal/bot/shapes.go. Strings are
-- lists of bytes; `strings.ToUpper` and what a `range` loop reads from a string, its runes with their
-- offsets, are parameters.
pub mod Printed
use pixel_beetle.Prelude.{
  ℕ, ◌^◌, ◌⊎◌, inl, inr, Bool, true, false, ◌&&◌, ◌||◌, Option, none, some, List, [], ◌∷◌, ◌++◌,
  map, ltb, leb, ◌==◌, if◌then◌else◌, length, same_bytes, codes, decimal_from, set_string, ℤ, pos,
}
use pixel_beetle.Bot.Palette.{palette_color}
use pixel_beetle.Bot.Blueprint.{Placement}
use pixel_beetle.Bot.Blueprint.TextArt.{split_on}
use pixel_beetle.Bot.Shapes.{fill_rect, rect_outline}
use pixel_beetle.Bot.Shapes.Line.{line_points}
use pixel_beetle.Bot.Shapes.Circle.{Mark, circle_points}
use pixel_beetle.Bot.Shapes.Text.{render_text}

-- `out_of_range` is no error of the source: its points are not modelled for numbers that large.
pub data ShapeError : Type 0 where
  bad_spec bad_count bad_number bad_color : ShapeError
  zero_size zero_radius empty_text long_text unknown_shape : ShapeError
  out_of_range : ShapeError

abbrev pub Shape : Type 0
Shape = ShapeError ⊎ List Mark

abbrev pub max_text_glyph : ℕ
max_text_glyph = 32

abbrev pub mark_of : Placement → Mark
mark_of p = record { x = pos p.x; y = p.y; color = p.color }

abbrev pub marks : List Placement → Shape
marks ps = inr (map mark_of ps)

abbrev pub finished : Option (List Placement) → Shape
finished none = inl out_of_range
finished (some ps) = marks ps

abbrev pub finished_marks : Option (List Mark) → Shape
finished_marks none = inl out_of_range
finished_marks (some ms) = inr ms

abbrev pub non_negative : Option (Bool × ℕ) → Option ℕ
non_negative none = none
non_negative (some (negative, v)) = if negative || leb (2 ^ 63) v then none else some v

unfoldable pub non_neg_int : List ℕ → Option ℕ
unfolding decimal_from
non_neg_int s = non_negative (set_string s)

abbrev pub cons_int : Option ℕ → Option (List ℕ) → Option (List ℕ)
cons_int none o = none
cons_int (some v) none = none
cons_int (some v) (some vs) = some (v ∷ vs)

unfoldable pub parse_ints : List (List ℕ) → Option (List ℕ)
unfolding non_neg_int
parse_ints [] = some []
parse_ints (a ∷ args) = cons_int (non_neg_int a) (parse_ints args)

abbrev pub cut_left : ℕ → Option (List ℕ × List ℕ) → Option (List ℕ × List ℕ)
cut_left c none = none
cut_left c (some (s, t)) = some (c ∷ s, t)

-- `strings.Cut`
unfoldable pub cut : ℕ → List ℕ → Option (List ℕ × List ℕ)
cut sep [] = none
cut sep (c ∷ s) = let rest = cut sep s in if c == sep then some ([], s) else cut_left c rest

-- The arguments before the last one, and the last one.
unfoldable pub init_last : List ℕ → List (List ℕ) → List (List ℕ) × List ℕ
init_last a [] = ([], a)
init_last a (b ∷ args) = let (front, last) = init_last b args in (a ∷ front, last)

abbrev pub rect_shape : Bool → ℕ → List ℕ → Shape
rect_shape fill c (x ∷ y ∷ w ∷ h ∷ []) =
    if w == 0 || h == 0
    then inl zero_size
    else if fill
    then marks (fill_rect c x w y h)
    else marks (rect_outline c x y w h)
rect_shape fill c _ = inl bad_count

abbrev pub circle_shape : ℕ → List ℕ → Shape
circle_shape c (cx ∷ cy ∷ r ∷ []) =
    if r == 0 then inl zero_radius else finished_marks (circle_points cx cy r c)
circle_shape c _ = inl bad_count

abbrev pub line_shape : ℕ → List ℕ → Shape
line_shape c (x0 ∷ y0 ∷ x1 ∷ y1 ∷ []) = finished (line_points x0 y0 x1 y1 c)
line_shape c _ = inl bad_count

-- The `switch` over the name.
unfoldable pub named_shape : List ℕ → ℕ → List ℕ → Shape
named_shape name c ints =
    if same_bytes name (codes "rect")
    then rect_shape false c ints
    else if same_bytes name (codes "fillrect")
    then rect_shape true c ints
    else if same_bytes name (codes "circle")
    then circle_shape c ints
    else if same_bytes name (codes "line")
    then line_shape c ints
    else inl unknown_shape

abbrev pub ints_shape : List ℕ → ℕ → Option (List ℕ) → Shape
ints_shape name c none = inl bad_number
ints_shape name c (some ints) = named_shape name c ints

abbrev pub colored_shape : List ℕ → List (List ℕ) → Option ℕ → Shape
colored_shape name args none = inl bad_color
colored_shape name args (some c) = ints_shape name c (parse_ints args)

module _ (to_upper : List ℕ → List ℕ) (runes : List ℕ → List (ℕ × ℕ)) where
  abbrev pub upper_text : ℕ → ℕ → ℕ → List ℕ → Shape
  upper_text x y c [] = inl empty_text
  upper_text x y c (b ∷ s) =
      if ltb max_text_glyph (length (runes (b ∷ s)))
      then inl long_text
      else marks (render_text c x y (runes (b ∷ s)))

  abbrev pub text_fields : Option ℕ → Option ℕ → Option ℕ → List ℕ → Shape
  text_fields none y c s = inl bad_number
  text_fields (some x) none c s = inl bad_number
  text_fields (some x) (some y) none s = inl bad_color
  text_fields (some x) (some y) (some c) s = upper_text x y c (to_upper s)

  abbrev pub text_shape : List (List ℕ) → Shape
  text_shape (x ∷ y ∷ s ∷ c ∷ []) = text_fields (non_neg_int x) (non_neg_int y) (palette_color c) s
  text_shape _ = inl bad_count

  abbrev pub args_shape : List ℕ → List (List ℕ) → Shape
  args_shape name [] = inl bad_spec
  args_shape name (a ∷ []) = inl bad_spec
  args_shape name (a ∷ b ∷ args) =
      if same_bytes name (codes "text")
      then text_shape (a ∷ b ∷ args)
      else (let (front, last) = init_last a (b ∷ args) in
          colored_shape name front (palette_color last))

  abbrev pub cut_shape : Option (List ℕ × List ℕ) → Shape
  cut_shape none = inl bad_spec
  cut_shape (some (name, rest)) = args_shape name (split_on 44 rest)

  -- 58 is the colon, 44 the comma.
  unfoldable pub parse_shape : List ℕ → Shape
  unfolding cut split_on init_last parse_ints non_neg_int named_shape palette_color
  parse_shape spec = cut_shape (cut 58 spec)

  abbrev pub append_shape : Shape → Shape → Shape
  append_shape (inl e) rest = inl e
  append_shape (inr ms) (inl e) = inl e
  append_shape (inr ms) (inr ns) = inr (ms ++ ns)

  unfoldable pub compose_shapes : List (List ℕ) → Shape
  unfolding parse_shape
  compose_shapes [] = inr []
  compose_shapes (d ∷ draws) = append_shape (parse_shape d) (compose_shapes draws)
