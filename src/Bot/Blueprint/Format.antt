-- ===== src/Bot/Blueprint/Format.antt =====
-- `FormatTextArt` of internal/bot/blueprint.go. The Go map of the cells is a list with one placement for
-- each of its keys. `none` is the panic on a color that the palette does not have.
pub mod Order
pub mod Legend
pub mod Lines
pub mod Read
pub mod Width
pub mod RoundTrip
mod Tests
use pixel_beetle.Prelude.{
  ℕ, zero, suc, ◌+◌, Bool, ◌&&◌, Option, none, some, List, [], ◌∷◌, ◌++◌, ltb, ◌==◌, if◌then◌else◌,
  get_or,
}
use pixel_beetle.Bot.Palette.{Rgb, palette}
use pixel_beetle.Bot.Palette.Hex.{print_hex}
use pixel_beetle.Bot.Blueprint.{Placement, Blueprint, is_at, cell_color}
use pixel_beetle.Bot.Blueprint.TextArt.{legend_prefix}

-- `cells[[2]int{p.X, p.Y}] = p.Color`
unfoldable pub store : Placement → List Placement → List Placement
store p [] = p ∷ []
store p (q ∷ cells) = let rest = store p cells in if is_at q p.x p.y then p ∷ cells else q ∷ rest

unfoldable pub store_all : List Placement → List Placement → List Placement
unfolding store
store_all [] cells = cells
store_all (p ∷ ps) cells = store_all ps (store p cells)

-- `counts[c]`
unfoldable pub count_color : ℕ → List Placement → ℕ
count_color c [] = 0
count_color c (p ∷ cells) = (if p.color == c then 1 else 0) + count_color c cells

abbrev pub are_colors : List Placement → Bool
are_colors [] = Bool.true
are_colors (p ∷ cells) = ltb p.color 16 && are_colors cells

-- The colors from `c` on, `n` of them, that are used.
unfoldable pub used_from : List Placement → ℕ → ℕ → List ℕ
unfolding count_color
used_from cells c zero = []
used_from cells c (suc n) =
    let rest = used_from cells (suc c) n in if ltb 0 (count_color c cells) then c ∷ rest else rest

-- The test that `sort.Slice` is given.
abbrev pub goes_first : List Placement → ℕ → ℕ → Bool
goes_first cells a b =
    if count_color a cells == count_color b cells
    then ltb a b
    else ltb (count_color b cells) (count_color a cells)

unfoldable pub insert_color : List Placement → ℕ → List ℕ → List ℕ
unfolding count_color
insert_color cells c [] = c ∷ []
insert_color cells c (o ∷ order) =
    let rest = insert_color cells c order in
    if goes_first cells o c then o ∷ rest else c ∷ o ∷ order

-- The order that `sort.Slice` leaves, which is the only one that the test allows.
unfoldable pub sort_colors : List Placement → List ℕ → List ℕ
unfolding insert_color
sort_colors cells [] = []
sort_colors cells (c ∷ order) = insert_color cells c (sort_colors cells order)

unfoldable pub color_order : List Placement → List ℕ
unfolding used_from sort_colors
color_order cells = sort_colors cells (used_from cells 0 16)

-- `charOf[c]`, where the first color has `a`.
unfoldable pub char_from : ℕ → List ℕ → ℕ → ℕ
char_from r [] c = 0
char_from r (o ∷ order) c = let rest = char_from (suc r) order c in if o == c then r else rest

-- The entries of the legend, each behind a space.
unfoldable pub print_legend : ℕ → List ℕ → List ℕ
unfolding print_hex
print_legend r [] = []
print_legend r (c ∷ order) =
    32 ∷ r ∷ 61 ∷ (print_hex (get_or palette c (0, 0, 0)) ++ print_legend (suc r) order)

abbrev pub cell_char : List ℕ → Option ℕ → ℕ
cell_char order none = 46
cell_char order (some c) = char_from 97 order c

-- `n` cells of a row from `x` on.
unfoldable pub format_row : (ℕ → ℕ) → ℕ → ℕ → List ℕ
format_row char x zero = []
format_row char x (suc n) = char x ∷ format_row char (suc x) n

unfoldable pub format_rows : (ℕ → ℕ → ℕ) → ℕ → ℕ → ℕ → List ℕ
unfolding format_row
format_rows char w y zero = []
format_rows char w y (suc n) = format_row (λ x. char x y) 0 w ++ (10 ∷ format_rows char w (suc y) n)

abbrev pub format_cells : List Placement → List ℕ → ℕ → ℕ → List ℕ
format_cells cells order w h =
    legend_prefix
    ++ (print_legend 97 order
        ++ (10 ∷ format_rows (λ x y. cell_char order (cell_color cells x y)) w 0 h))

unfoldable pub format_text_art : Blueprint → Option (List ℕ)
unfolding store_all color_order char_from print_legend format_rows cell_color
format_text_art bp =
    let cells = store_all bp.placements [] in
    if are_colors cells then some (format_cells cells (color_order cells) bp.w bp.h) else none
