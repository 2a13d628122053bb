-- ===== src/Bot/Blueprint/Format/Legend.antt =====
-- How the legend that FormatTextArt (internal/bot/blueprint.go) writes is read back.
use pixel_beetle.Prelude.{
  ℕ, zero, suc, ◌+◌, ◌-◌, ◌<◌, ◌≡◌, refl, ap, inl, inr, Bool, true, false, not, ◌&&◌, some, List,
  [], ◌∷◌, ◌++◌, ltb, leb, ◌==◌, if◌then◌else◌, get_or, get_elem?, length, arith, Bool-cases, Table,
  lookup, insert, lookup-insert, get_elem?-get_or,
}
use pixel_beetle.Bot.Palette.{Rgb, palette}
use pixel_beetle.Bot.Palette.Hex.{print_hex, palette_color-print_hex}
use pixel_beetle.Bot.Blueprint.TextArt.{is_space, fields_from, fields, legend_token, parse_legend}
use pixel_beetle.Bot.Blueprint.Format.{print_legend}
use pixel_beetle.Bot.Blueprint.Format.Order.{AreColors}

abbrev pub token : ℕ → ℕ → List ℕ
token r c = r ∷ 61 ∷ print_hex (get_or palette c (0, 0, 0))

abbrev tokens : ℕ → List ℕ → List (List ℕ)
tokens r [] = []
tokens r (c ∷ order) = token r c ∷ tokens (suc r) order

-- No character is white space.
abbrev pub are_solid : List ℕ → Bool
are_solid [] = true
are_solid (c ∷ s) = not (is_space c) && are_solid s

pub both : (a b : Bool) → (a && b) ≡ true → (a ≡ true) × (b ≡ true)
both true true h = (refl, refl)
both true false h = cc
both false b h = cc

pub and_parts : (a b : Bool) → (not a && b) ≡ true → (a ≡ false) × (b ≡ true)
and_parts false true h = (refl, refl)
and_parts false false h = cc
and_parts true b h = cc

fields_from-append :
    (t s : List ℕ) (ls : List (List ℕ))
    → are_solid t ≡ true
    → fields_from s ≡ ([], ls)
    → fields_from (t ++ s) ≡ (t, ls)
unfolding fields_from
fields_from-append [] s ls h e = e
fields_from-append (c ∷ t) s ls h e =
    let (solid, rest) = and_parts (is_space c) (are_solid t) h in
    rw (fields_from-append t s ls rest e, solid) refl

abbrev all_solid : List Rgb → Bool
all_solid [] = true
all_solid (p ∷ l) = are_solid (print_hex p) && all_solid l

palette_solid : all_solid palette ≡ true
unfolding print_hex
palette_solid = refl

solid_at :
    (l : List Rgb) (c : ℕ) (d : Rgb)
    → all_solid l ≡ true
    → c < length l
    → are_solid (print_hex (get_or l c d)) ≡ true
solid_at [] c d h k = elim k [ ]
solid_at (p ∷ l) zero d h k = (both _ _ h).0
solid_at (p ∷ l) (suc c) d h k = solid_at l c d ((both _ _ h).1) (omega (arith, k))

pub token-solid : (r c : ℕ) → 96 < r → c < 16 → are_solid (token r c) ≡ true
token-solid r c h k =
    let hex = solid_at palette c (0, 0, 0) palette_solid k in
    let plain : is_space r ≡ false = ground (arith, h) in rw (plain, hex) refl

-- A token, and the fields behind it.
fields_from-token :
    (r c : ℕ) (s : List ℕ) (ls : List (List ℕ))
    → 96 < r
    → c < 16
    → fields_from s ≡ ([], ls)
    → fields_from (32 ∷ (token r c ++ s)) ≡ ([], token r c ∷ ls)
unfolding fields_from
fields_from-token r c s ls h k e =
    rw (fields_from-append (token r c) s ls (token-solid r c h k) e) refl

fields_from-print_legend :
    (r : ℕ) (order : List ℕ)
    → 96 < r
    → AreColors order
    → fields_from (print_legend r order) ≡ ([], tokens r order)
unfolding print_legend fields_from
fields_from-print_legend r [] h k = refl
fields_from-print_legend r (c ∷ order) h (k, l) =
    fields_from-token r c (print_legend (suc r) order) (tokens (suc r) order) h k
      (fields_from-print_legend (suc r) order (omega (arith, h)) l)

-- The table that the legend is read as.
abbrev pub entered : ℕ → List ℕ → Table ℕ → Table ℕ
entered r [] legend = legend
entered r (c ∷ order) legend = entered (suc r) order (insert r c legend)

legend_token-token : (r c : ℕ) → 96 < r → c < 16 → legend_token (token r c) ≡ some (r, c)
unfolding print_hex
legend_token-token r c h k =
    let named =
      palette_color-print_hex c (get_or palette c (0, 0, 0))
        (get_elem?-get_or palette c (0, 0, 0) k) in
    ground (arith, named, h)

parse_legend-tokens :
    (r : ℕ) (order : List ℕ) (legend : Table ℕ)
    → 96 < r
    → AreColors order
    → parse_legend (tokens r order) legend ≡ some (entered r order legend)
unfolding parse_legend
parse_legend-tokens r [] legend h k = refl
parse_legend-tokens r (c ∷ order) legend h (k, l) =
    rw (parse_legend, legend_token-token r c h k)
      (parse_legend-tokens (suc r) order (insert r c legend) (omega (arith, h)) l)

-- What a character stands for in that table.
pub lookup-entered :
    (r : ℕ) (order : List ℕ) (legend : Table ℕ) (i : ℕ)
    → lookup i (entered r order legend)
      ≡ (if leb r i && ltb i (r + length order) then get_elem? order (i - r) else lookup i legend)
lookup-entered r [] legend i = ground arith
lookup-entered r (c ∷ order) legend i = elim (Bool-cases (r == i)) [
  | inl t ↦
      let first : get_elem? (c ∷ order) (i - r) ≡ some c =
        ap (get_elem? (c ∷ order)) {x = i - r} {y = 0} (ground (arith, t)) in
      ground (
        arith,
        t,
        first,
        lookup-entered (suc r) order (insert r c legend) i,
        lookup-insert r i c legend,
      )
  | inr t ↦ elim (Bool-cases (leb r i)) [
    | inl u ↦
        let next : get_elem? (c ∷ order) (i - r) ≡ get_elem? order (i - suc r) =
          ap (get_elem? (c ∷ order)) {x = i - r} {y = suc (i - suc r)} (ground (arith, t, u)) in
        ground (
          arith,
          t,
          u,
          next,
          lookup-entered (suc r) order (insert r c legend) i,
          lookup-insert r i c legend,
        )
    | inr u ↦ ground (
      arith,
      t,
      u,
      lookup-entered (suc r) order (insert r c legend) i,
      lookup-insert r i c legend,
    )
  ]
]

-- The legend of an order of colors.
pub parse_legend-print_legend :
    (order : List ℕ)
    → AreColors order
    → parse_legend (fields (print_legend 97 order)) [] ≡ some (entered 97 order [])
unfolding fields
parse_legend-print_legend order h =
    rw (fields_from-print_legend 97 order (omega arith) h)
      (parse_legend-tokens 97 order [] (omega arith) h)
