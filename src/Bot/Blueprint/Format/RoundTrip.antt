-- ===== src/Bot/Blueprint/Format/RoundTrip.antt =====
-- What FormatTextArt (internal/bot/blueprint.go) writes parses back with ParseTextArt.
use pixel_beetle.Prelude.{
  ℕ, zero, suc, ◌≤◌, ◌≡◌, refl, ap, ◌∙◌, ◌⊎◌, inl, inr, true, ◌&&◌, Option, none, some, List, [],
  ◌∷◌, ◌++◌, ltb, ◌==◌, if◌then◌else◌, get_elem?, length, arith, Bool-cases, Table,
}
use pixel_beetle.Bot.Blueprint.{Placement, Blueprint, is_at, cell_color}
use pixel_beetle.Bot.Blueprint.Compose.{painted}
use pixel_beetle.Bot.Blueprint.TextArt.{
  ArtError, bad_legend, no_entry, split_on, drop_final, strip_prefix, trim_cr, legend_prefix,
  fields, parse_legend, parse_art, parse_below, parse_raw, parse_text_art,
}
use pixel_beetle.Bot.Blueprint.TextArt.Rows.{IsParsed, parse_art-IsParsed}
use pixel_beetle.Bot.Blueprint.Format.{
  store, store_all, are_colors, color_order, cell_char, print_legend, format_row, format_rows,
  format_cells, format_text_art,
}
use pixel_beetle.Bot.Blueprint.Format.Order.{cell_color-store_all, color_order-IsOrder}
use pixel_beetle.Bot.Blueprint.Format.Legend.{both, entered, parse_legend-print_legend}
use pixel_beetle.Bot.Blueprint.Format.Lines.{
  drop_final-line, format_lines, drop_final-format_rows, length-format_lines, is_free-print_legend,
}
use pixel_beetle.Bot.Blueprint.Format.Read.{
  IsRead, char-IsRead, are_ascii, length-line, none_missing, art_color-format_lines,
}
use pixel_beetle.Bot.Blueprint.Format.Width.{IsNarrowArt, parse_art-IsNarrowArt}

are_colors-store :
    (p : Placement) (cells : List Placement)
    → ltb p.color 16 ≡ true
    → are_colors cells ≡ true
    → are_colors (store p cells) ≡ true
unfolding store
are_colors-store p [] h k = rw h refl
are_colors-store p (q ∷ cells) h k =
    let (first, rest) = both (ltb q.color 16) (are_colors cells) k in
    elim (Bool-cases (is_at q p.x p.y)) [
      | inl t ↦ rw (t, h, rest) refl
      | inr t ↦ rw (t, first, are_colors-store p cells h rest) refl
    ]

are_colors-store_all :
    (ps cells : List Placement)
    → are_colors ps ≡ true
    → are_colors cells ≡ true
    → are_colors (store_all ps cells) ≡ true
unfolding store_all
are_colors-store_all [] cells h k = k
are_colors-store_all (p ∷ ps) cells h k =
    let (first, rest) = both (ltb p.color 16) (are_colors ps) h in
    are_colors-store_all ps (store p cells) rest (are_colors-store p cells first k)

-- The blueprint that is read is the one that was written, clipped to its size; one without rows has
-- no columns either.
abbrev pub IsReread : Blueprint → Blueprint → Type 0
IsReread bp bp' =
    (bp'.h ≡ bp.h)
    × (bp'.w ≡ (if bp.h == 0 then 0 else bp.w))
    × ((x y : ℕ)
        → painted bp'.placements x y
          ≡ (if ltb x bp.w && ltb y bp.h then painted bp.placements x y else none))

module _ (runes : List ℕ → List ℕ) (plain : (s : List ℕ) → are_ascii s ≡ true → runes s ≡ s) where
  -- The lines of a canvas of characters, by what they were parsed to.
  module _ (legend : Table ℕ) (char : ℕ → ℕ → ℕ) (color : ℕ → ℕ → Option ℕ)
      (reads : (x y : ℕ) → IsRead legend (char x y) (color x y)) (w h : ℕ) where
    abbrev IsDrawn : Blueprint → Type 0
    IsDrawn bp =
        (bp.h ≡ h)
        × (bp.w ≡ (if h == 0 then 0 else w))
        × ((x y : ℕ) → painted bp.placements x y ≡ (if ltb x w && ltb y h then color x y else none))

    line_bound :
        (n m : ℕ) (t : List ℕ)
        → n ≡ h
        → get_elem? (format_lines char w 0 n) m ≡ some t
        → length (runes (trim_cr t)) ≤ (if h == 0 then 0 else w)
    line_bound zero m t e at = absurd (ground (arith, at))
    line_bound (suc n) m t e at =
        let size = length-line runes plain legend char color reads w (suc n) m t at in
        ground (arith, size, e)

    width_reached :
        (n v : ℕ)
        → n ≡ h
        → ((m : ℕ) (t : List ℕ)
            → get_elem? (format_lines char w 0 n) m ≡ some t
            → length (runes (trim_cr t)) ≤ v)
        → (if h == 0 then 0 else w) ≤ v
    width_reached zero v e k = ground (arith, e)
    width_reached (suc n) v e k =
        let first : List ℕ = format_row (λ x. char x 0) 0 w in
        let size = length-line runes plain legend char color reads w (suc n) 0 first refl in
        let bound = k 0 first refl in ground (arith, size, bound, e)

    parsed-IsDrawn :
        (q : ArtError ⊎ Blueprint)
        → IsParsed runes legend 1 (format_lines char w 0 h) q
        → IsNarrowArt runes (if h == 0 then 0 else w) q
        → (bp : Blueprint) × (q ≡ inr bp) × IsDrawn bp
    parsed-IsDrawn (inl bad_legend) p n = elim p [ ]
    parsed-IsDrawn (inl (no_entry l k r)) p n =
        absurd (none_missing runes plain legend char color reads 1 w h l k r p)
    parsed-IsDrawn (inr bp) (size, wide, cells) n = (
      bp,
      refl,
      (
        size ∙ length-format_lines char w 0 h,
        omega (arith, n, width_reached h bp.w refl wide),
        λ x y. cells x y ∙ art_color-format_lines runes plain legend char color reads w h x y,
      ),
    )

    parse_art-IsDrawn :
        (bp : Blueprint) × (parse_art runes legend 1 (format_lines char w 0 h) ≡ inr bp)
        × IsDrawn bp
    parse_art-IsDrawn =
        parsed-IsDrawn (parse_art runes legend 1 (format_lines char w 0 h))
          (parse_art-IsParsed runes legend 1 (format_lines char w 0 h))
          (parse_art-IsNarrowArt runes (if h == 0 then 0 else w) legend 1 (format_lines char w 0 h)
            (λ m t at. line_bound h m t refl at))

  drop_final-format_cells :
      (cells : List Placement) (w h : ℕ)
      → are_colors cells ≡ true
      → drop_final (split_on 10 (format_cells cells (color_order cells) w h))
        ≡ (legend_prefix ++ print_legend 97 (color_order cells))
          ∷ format_lines (λ x y. cell_char (color_order cells) (cell_color cells x y)) w 0 h
  drop_final-format_cells cells w h colors =
      let char = λ (x y : ℕ). cell_char (color_order cells) (cell_color cells x y) in
      let (size, below) = color_order-IsOrder cells in
      drop_final-line (legend_prefix ++ print_legend 97 (color_order cells))
        (format_rows char w 0 h) (is_free-print_legend 97 (color_order cells) (omega arith) below)
      ∙ ap (λ ls. (legend_prefix ++ print_legend 97 (color_order cells)) ∷ ls)
          (drop_final-format_rows char w 0 h (λ i j. (char-IsRead cells colors i j).newline))

  parse_raw-legend :
      (order : List ℕ) (legend : Table ℕ) (ls : List (List ℕ))
      → parse_legend (fields (print_legend 97 order)) [] ≡ some legend
      → parse_raw runes ((legend_prefix ++ print_legend 97 order) ∷ ls)
        ≡ parse_art runes legend 1 ls
  unfolding strip_prefix
  parse_raw-legend order legend ls e = ap (λ o. parse_below runes o ls) e

  parse_text_art-format_cells :
      (cells : List Placement) (w h : ℕ)
      → are_colors cells ≡ true
      → parse_text_art runes (format_cells cells (color_order cells) w h)
        ≡ parse_art runes
            (entered 97 (color_order cells) [])
            1
            (format_lines (λ x y. cell_char (color_order cells) (cell_color cells x y)) w 0 h)
  unfolding parse_text_art
  parse_text_art-format_cells cells w h colors =
      ap (parse_raw runes) (drop_final-format_cells cells w h colors)
      ∙ parse_raw-legend (color_order cells) (entered 97 (color_order cells) []) _
          (parse_legend-print_legend (color_order cells) (color_order-IsOrder cells).1)

  cell_color-store_all_painted :
      (ps : List Placement) (x y : ℕ) → cell_color (store_all ps []) x y ≡ painted ps x y
  unfolding cell_color
  cell_color-store_all_painted ps x y = ground (arith, cell_color-store_all ps [] x y)

  -- FormatTextArt of a blueprint of palette colors does not panic, and ParseTextArt reads its text,
  -- where the runes of ASCII are its bytes: as a blueprint of the same size, or of no columns where it
  -- has no rows, that paints each cell inside the size in the color of its last placement, and no
  -- other cell.
  pub parse_text_art-format_text_art :
      (bp : Blueprint)
      → are_colors bp.placements ≡ true
      → (text : List ℕ) × (bp' : Blueprint) × (format_text_art bp ≡ some text)
        × (parse_text_art runes text ≡ inr bp')
        × IsReread bp bp'
  unfolding format_text_art
  parse_text_art-format_text_art bp h =
      let cells = store_all bp.placements [] in
      let colors = are_colors-store_all bp.placements [] h refl in
      let (bp', read, (height, width, drawn)) =
        parse_art-IsDrawn (entered 97 (color_order cells) [])
          (λ x y. cell_char (color_order cells) (cell_color cells x y)) (cell_color cells)
          (char-IsRead cells colors) bp.w bp.h in
      (
        format_cells cells (color_order cells) bp.w bp.h,
        bp',
        rw colors refl,
        parse_text_art-format_cells cells bp.w bp.h colors ∙ read,
        (
          height,
          width,
          λ x y.
              drawn x y
              ∙ ap (λ o. if ltb x bp.w && ltb y bp.h then o else none)
                  (cell_color-store_all_painted bp.placements x y),
        ),
      )
