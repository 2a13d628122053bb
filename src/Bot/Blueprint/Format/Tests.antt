-- ===== src/Bot/Blueprint/Format/Tests.antt =====
-- Printing text art (internal/bot/blueprint.go) at a small drawing.
use pixel_beetle.Prelude.{ℕ, ◌≡◌, refl, inr, some, List, [], ◌∷◌, codes}
use pixel_beetle.Bot.Palette.Hex.{print_hex}
use pixel_beetle.Bot.Blueprint.{Placement, Blueprint, cell_color}
use pixel_beetle.Bot.Blueprint.TextArt.{parse_text_art}
use pixel_beetle.Bot.Blueprint.Format.{
  store, store_all, count_color, used_from, insert_color, sort_colors, color_order, char_from,
  print_legend, format_row, format_rows, format_text_art,
}
use pixel_beetle.Bot.Blueprint.Format.RoundTrip.{IsReread, parse_text_art-format_text_art}

abbrev cell : ℕ → ℕ → ℕ → Placement
cell x y color = record { x = x; y = y; color = color }

-- Three cells in two colors, one of them placed twice.
abbrev sketch : Blueprint
sketch = record {
  w = 2;
  h = 2;
  placements = cell 0 0 3 ∷ cell 1 0 4 ∷ cell 0 0 5 ∷ cell 0 1 5 ∷ [];
}

-- The color of more cells has the first letter.
test_sketch : format_text_art sketch ≡ some (codes "legend: a=#9a6324 b=#ffb470\nab\na.\n")
unfolding format_text_art format_rows format_row print_legend print_hex char_from color_order
    sort_colors insert_color used_from count_color store_all store cell_color
test_sketch = refl

parse_text_art-format_text_art_example :
    (text : List ℕ) × (bp' : Blueprint) × (format_text_art sketch ≡ some text)
    × (parse_text_art (λ s. s) text ≡ inr bp')
    × IsReread sketch bp'
parse_text_art-format_text_art_example =
    parse_text_art-format_text_art (λ s. s) (λ s h. refl) sketch refl
