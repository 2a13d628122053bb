-- ===== src/Bot/Blueprint/TextArt.antt =====
-- `ParseTextArt` and `parseLegend` of internal/bot/blueprint.go. A file is a list of bytes; the runes
-- that a `range` loop reads from the bytes of a line are a parameter. White space is the ASCII one.
pub mod Rows
use pixel_beetle.Prelude.{
  ℕ, zero, suc, ◌+◌, ◌⊎◌, inl, inr, Bool, true, false, not, ◌&&◌, ◌||◌, Option, none, some, List,
  [], ◌∷◌, ◌++◌, Table, lookup, insert, ltb, leb, ◌==◌, if◌then◌else◌, length,
}
use pixel_beetle.Bot.Palette.{palette_color}
use pixel_beetle.Bot.Blueprint.{Placement, Blueprint}

-- The line, the column and the rune, counted from 1.
pub data ArtError : Type 0 where
  bad_legend : ArtError
  no_entry : ℕ → ℕ → ℕ → ArtError

abbrev pub push_front : ℕ → List (List ℕ) → List (List ℕ)
push_front c [] = (c ∷ []) ∷ []
push_front c (l ∷ ls) = (c ∷ l) ∷ ls

-- `strings.Split`
unfoldable pub split_on : ℕ → List ℕ → List (List ℕ)
split_on sep [] = [] ∷ []
split_on sep (c ∷ s) =
    let rest = split_on sep s in if c == sep then [] ∷ rest else push_front c rest

abbrev pub is_nil : List ℕ → Bool
is_nil [] = true
is_nil (c ∷ s) = false

-- Without the empty line behind a trailing newline.
unfoldable pub drop_final : List (List ℕ) → List (List ℕ)
drop_final [] = []
drop_final (l ∷ []) = if is_nil l then [] else l ∷ []
drop_final (l ∷ m ∷ ls) = l ∷ drop_final (m ∷ ls)

-- `strings.TrimPrefix`, where the prefix is there.
unfoldable pub strip_prefix : List ℕ → List ℕ → Option (List ℕ)
strip_prefix [] s = some s
strip_prefix (c ∷ p) [] = none
strip_prefix (c ∷ p) (d ∷ s) = let rest = strip_prefix p s in if c == d then rest else none

-- `strings.TrimSuffix(line, "\r")`
unfoldable pub trim_cr : List ℕ → List ℕ
trim_cr [] = []
trim_cr (c ∷ []) = if c == 13 then [] else c ∷ []
trim_cr (c ∷ d ∷ s) = c ∷ trim_cr (d ∷ s)

abbrev pub is_space : ℕ → Bool
is_space c = c == 32 || leb 9 c && leb c 13

abbrev pub add_field : List ℕ → List (List ℕ) → List (List ℕ)
add_field [] ls = ls
add_field (c ∷ s) ls = (c ∷ s) ∷ ls

-- The field that the string begins with, and the fields behind it.
unfoldable pub fields_from : List ℕ → List ℕ × List (List ℕ)
fields_from [] = ([], [])
fields_from (c ∷ s) =
    let (f, ls) = fields_from s in if is_space c then ([], add_field f ls) else (c ∷ f, ls)

-- `strings.Fields`, which also trims.
unfoldable pub fields : List ℕ → List (List ℕ)
unfolding fields_from
fields s = let (f, ls) = fields_from s in add_field f ls

-- "legend:"
abbrev pub legend_prefix : List ℕ
legend_prefix = 108 ∷ 101 ∷ 103 ∷ 101 ∷ 110 ∷ 100 ∷ 58 ∷ []

abbrev pub is_skip : ℕ → Bool
is_skip r = r == 46 || r == 32

abbrev pub entry : ℕ → Option ℕ → Option (ℕ × ℕ)
entry r none = none
entry r (some c) = some (r, c)

-- The first `=` is the second byte, and something follows it.
abbrev pub legend_token : List ℕ → Option (ℕ × ℕ)
legend_token (r ∷ e ∷ c ∷ hex) =
    if not (r == 61) && e == 61 && not (is_skip r) then entry r (palette_color (c ∷ hex)) else none
legend_token _ = none

unfoldable pub parse_legend : List (List ℕ) → Table ℕ → Option (Table ℕ)
parse_legend [] legend = some legend
parse_legend (tok ∷ toks) legend = elim (legend_token tok) [
  | none ↦ none
  | some (r, c) ↦ parse_legend toks (insert r c legend)
]

abbrev pub placed : ℕ → ℕ → ℕ → ArtError ⊎ (List Placement × ℕ) → ArtError ⊎ (List Placement × ℕ)
placed x y c (inl e) = inl e
placed x y c (inr (ps, w)) = inr (record { x = x; y = y; color = c } ∷ ps, w)

-- The loop over the runes of row `y` from column `x` on, on line `line` of the file.
unfoldable pub parse_line : Table ℕ → ℕ → ℕ → ℕ → List ℕ → ArtError ⊎ (List Placement × ℕ)
parse_line legend line y x [] = inr ([], x)
parse_line legend line y x (r ∷ s) = elim (is_skip r) [
  | true ↦ parse_line legend line y (suc x) s
  | false ↦ elim (lookup r legend) [
    | none ↦ inl (no_entry line (suc x) r)
    | some c ↦ placed x y c (parse_line legend line y (suc x) s)
  ]
]

abbrev pub widest :
    List Placement → ℕ → ArtError ⊎ (List Placement × ℕ) → ArtError ⊎ (List Placement × ℕ)
widest ps x (inl e) = inl e
widest ps x (inr (qs, w)) = inr (ps ++ qs, if ltb w x then x else w)

abbrev pub art_of : ℕ → ArtError ⊎ (List Placement × ℕ) → ArtError ⊎ Blueprint
art_of h (inl e) = inl e
art_of h (inr (ps, w)) = inr (record { w = w; h = h; placements = ps })

module _ (runes : List ℕ → List ℕ) where
  -- The loop over the lines from row `y` on; the legend's line comes before `off` = 1 of them.
  unfoldable pub parse_rows : Table ℕ → ℕ → ℕ → List (List ℕ) → ArtError ⊎ (List Placement × ℕ)
  unfolding parse_line trim_cr
  parse_rows legend off y [] = inr ([], 0)
  parse_rows legend off y (l ∷ ls) =
      elim (parse_line legend (y + 1 + off) y 0 (runes (trim_cr l))) [
        | inl e ↦ inl e
        | inr (ps, x) ↦ widest ps x (parse_rows legend off (suc y) ls)
      ]

  abbrev pub parse_art : Table ℕ → ℕ → List (List ℕ) → ArtError ⊎ Blueprint
  parse_art legend off ls = art_of (length ls) (parse_rows legend off 0 ls)

  abbrev pub parse_below : Option (Table ℕ) → List (List ℕ) → ArtError ⊎ Blueprint
  parse_below none ls = inl bad_legend
  parse_below (some legend) ls = parse_art legend 1 ls

  abbrev pub parse_raw : List (List ℕ) → ArtError ⊎ Blueprint
  parse_raw [] = parse_art [] 0 []
  parse_raw (l ∷ ls) = elim (strip_prefix legend_prefix l) [
    | none ↦ parse_art [] 0 (l ∷ ls)
    | some s ↦ parse_below (parse_legend (fields s) []) ls
  ]

  unfoldable pub parse_text_art : List ℕ → ArtError ⊎ Blueprint
  unfolding parse_rows parse_legend split_on drop_final strip_prefix fields
  parse_text_art data_bytes = parse_raw (drop_final (split_on 10 data_bytes))
