-- ===== src/Bot/Blueprint/TextArt/Rows.antt =====
-- The rows of a text art file (internal/bot/blueprint.go) and the placements they become.
use pixel_beetle.Prelude.{
  ℕ, zero, suc, ◌+◌, ◌-◌, ◌≤◌, ◌≡◌, refl, ap, subst, ◌⊎◌, inl, inr, true, false, ◌&&◌, Option, none,
  some, List, [], ◌∷◌, Table, lookup, ltb, leb, ◌==◌, if◌then◌else◌, arith, Option-cases,
  Bool-cases, length, get_elem?,
}
use pixel_beetle.Bot.Blueprint.{Placement, Blueprint}
use pixel_beetle.Bot.Blueprint.Compose.{painted, painted-append}
use pixel_beetle.Bot.Blueprint.TextArt.{
  ArtError, bad_legend, no_entry, is_skip, placed, parse_line, widest, art_of, parse_rows,
  parse_art, trim_cr,
}

-- What a rune of the art stands for: nothing, or the color of its legend entry.
abbrev pub rune_color : Table ℕ → Option ℕ → Option ℕ
rune_color legend none = none
rune_color legend (some r) = if is_skip r then none else lookup r legend

-- The color that a row of runes, from column `x` of row `y` on, gives a cell.
abbrev pub line_color : Table ℕ → ℕ → ℕ → List ℕ → ℕ → ℕ → Option ℕ
line_color legend y x s i j =
    if j == y && leb x i then rune_color legend (get_elem? s (i - x)) else none

line_color-cons :
    (legend : Table ℕ) (y x r : ℕ) (s : List ℕ) (i j : ℕ)
    → line_color legend y x (r ∷ s) i j
      ≡ (if j == y && i == x then rune_color legend (some r) else line_color legend y (suc x) s i j)
line_color-cons legend y x r s i j = elim (Bool-cases (i == x)) [
  | inl t ↦
      let first : get_elem? (r ∷ s) (i - x) ≡ some r =
        ap (get_elem? (r ∷ s)) {x = i - x} {y = 0} (ground (arith, t)) in
      ground (arith, t, first)
  | inr t ↦ elim (Bool-cases (leb x i)) [
    | inl u ↦
        let next : get_elem? (r ∷ s) (i - x) ≡ get_elem? s (i - suc x) =
          ap (get_elem? (r ∷ s)) {x = i - x} {y = suc (i - suc x)} (ground (arith, t, u)) in
        ground (arith, t, u, next)
    | inr u ↦ ground (arith, t, u)
  ]
]

-- What the loop over a row from column `x` on makes of it: an error at the first rune without an
-- entry, or the row's placements and its end.
abbrev pub IsLine : Table ℕ → ℕ → ℕ → ℕ → List ℕ → ArtError ⊎ (List Placement × ℕ) → Type 0
IsLine legend line y x s (inl bad_legend) = ⊥
IsLine legend line y x s (inl (no_entry l k r)) =
    (i : ℕ) × (l ≡ line)
    × (k ≡ x + i + 1)
    × (get_elem? s i ≡ some r)
    × (is_skip r ≡ false)
    × (lookup r legend ≡ none)
IsLine legend line y x s (inr (ps, w)) =
    (w ≡ x + length s) × ((i j : ℕ) → painted ps i j ≡ line_color legend y x s i j)

skip-IsLine :
    (legend : Table ℕ) (line y x r : ℕ) (s : List ℕ) (q : ArtError ⊎ (List Placement × ℕ))
    → is_skip r ≡ true
    → IsLine legend line y (suc x) s q
    → IsLine legend line y x (r ∷ s) q
skip-IsLine legend line y x r s (inl bad_legend) t h = h
skip-IsLine legend line y x r s (inl (no_entry l k c)) t (i, a, b, g, u, v) =
    (suc i, a, omega (arith, b), g, u, v)
skip-IsLine legend line y x r s (inr (ps, w)) t (a, h) =
    (omega (arith, a), λ i j. ground (arith, h i j, line_color-cons legend y x r s i j, t))

placed-IsLine :
    (legend : Table ℕ) (line y x r c : ℕ) (s : List ℕ) (q : ArtError ⊎ (List Placement × ℕ))
    → is_skip r ≡ false
    → lookup r legend ≡ some c
    → IsLine legend line y (suc x) s q
    → IsLine legend line y x (r ∷ s) (placed x y c q)
unfolding painted
placed-IsLine legend line y x r c s (inl bad_legend) t e h = h
placed-IsLine legend line y x r c s (inl (no_entry l k d)) t e (i, a, b, g, u, v) =
    (suc i, a, omega (arith, b), g, u, v)
placed-IsLine legend line y x r c s (inr (ps, w)) t e (a, h) =
    (omega (arith, a), λ i j. ground (arith, h i j, line_color-cons legend y x r s i j, t, e))

pub parse_line-IsLine :
    (legend : Table ℕ) (line y x : ℕ) (s : List ℕ)
    → IsLine legend line y x s (parse_line legend line y x s)
unfolding parse_line painted
parse_line-IsLine legend line y x [] = (omega arith, λ i j. ground arith)
parse_line-IsLine legend line y x (r ∷ s) = elim (Bool-cases (is_skip r)) [
  | inl t ↦
      rw (parse_line, t)
        (skip-IsLine legend line y x r s (parse_line legend line y (suc x) s) t
          (parse_line-IsLine legend line y (suc x) s))
  | inr t ↦ elim (Option-cases (lookup r legend)) [
    | inl e ↦ rw (parse_line, t) rw (e) (0, refl, omega arith, refl, t, e)
    | inr (c, e) ↦
        rw (parse_line, t) rw (e)
          (placed-IsLine legend line y x r c s (parse_line legend line y (suc x) s) t e
            (parse_line-IsLine legend line y (suc x) s))
  ]
]

module _ (runes : List ℕ → List ℕ) where
  abbrev pub line_at : Table ℕ → ℕ → Option (List ℕ) → Option ℕ
  line_at legend x none = none
  line_at legend x (some l) = rune_color legend (get_elem? (runes (trim_cr l)) x)

  -- The color that the lines of the art give the cell in column `x` of row `y`.
  abbrev pub art_color : Table ℕ → List (List ℕ) → ℕ → ℕ → Option ℕ
  art_color legend ls x y = line_at legend x (get_elem? ls y)

  abbrev rows_color : Table ℕ → ℕ → List (List ℕ) → ℕ → ℕ → Option ℕ
  rows_color legend y ls i j = if leb y j then art_color legend ls i (j - y) else none

  rows_color-cons :
      (legend : Table ℕ) (y : ℕ) (l : List ℕ) (ls : List (List ℕ)) (i j : ℕ)
      → rows_color legend y (l ∷ ls) i j ≡ (
          if j == y
          then rune_color legend (get_elem? (runes (trim_cr l)) i)
          else rows_color legend (suc y) ls i j)
  rows_color-cons legend y l ls i j = elim (Bool-cases (j == y)) [
    | inl t ↦
        let first : art_color legend (l ∷ ls) i (j - y) ≡ art_color legend (l ∷ ls) i 0 =
          ap (art_color legend (l ∷ ls) i) {x = j - y} {y = 0} (ground (arith, t)) in
        ground (arith, t, first)
    | inr t ↦ elim (Bool-cases (leb y j)) [
      | inl u ↦
          let next : art_color legend (l ∷ ls) i (j - y) ≡ art_color legend ls i (j - suc y) =
            ap (art_color legend (l ∷ ls) i) {x = j - y} {y = suc (j - suc y)}
              (ground (arith, t, u)) in
          ground (arith, t, u, next)
      | inr u ↦ ground (arith, t, u)
    ]
  ]

  -- A rune of the lines that stands for nothing and has no entry, at its line and column in the file.
  abbrev pub IsMissing : Table ℕ → ℕ → ℕ → List (List ℕ) → ℕ → ℕ → ℕ → Type 0
  IsMissing legend off y ls l k r =
      (m i : ℕ) × (t : List ℕ) × (l ≡ y + m + 1 + off)
      × (k ≡ i + 1)
      × (get_elem? ls m ≡ some t)
      × (get_elem? (runes (trim_cr t)) i ≡ some r)
      × (is_skip r ≡ false)
      × (lookup r legend ≡ none)

  abbrev pub IsRows : Table ℕ → ℕ → ℕ → List (List ℕ) → ArtError ⊎ (List Placement × ℕ) → Type 0
  IsRows legend off y ls (inl bad_legend) = ⊥
  IsRows legend off y ls (inl (no_entry l k r)) = IsMissing legend off y ls l k r
  IsRows legend off y ls (inr (ps, w)) =
      ((i j : ℕ) → painted ps i j ≡ rows_color legend y ls i j)
      × ((m : ℕ) (t : List ℕ) → get_elem? ls m ≡ some t → length (runes (trim_cr t)) ≤ w)

  wide :
      (x w : ℕ) (l : List ℕ) (ls : List (List ℕ))
      → length (runes (trim_cr l)) ≤ x
      → ((m : ℕ) (t : List ℕ) → get_elem? ls m ≡ some t → length (runes (trim_cr t)) ≤ w)
      → (m : ℕ) (t : List ℕ) → get_elem? (l ∷ ls) m ≡ some t
      → length (runes (trim_cr t)) ≤ (if ltb w x then x else w)
  wide x w l ls h b zero t e =
      let same : l ≡ t = ground (arith, e) in
      subst (λ u. length (runes (trim_cr u)) ≤ (if ltb w x then x else w)) same (ground (arith, h))
  wide x w l ls h b (suc m) t e = ground (arith, b m t e)

  widest-IsRows :
      (legend : Table ℕ) (off y x : ℕ) (l : List ℕ) (ls : List (List ℕ)) (ps : List Placement)
      (q : ArtError ⊎ (List Placement × ℕ))
      → IsLine legend (y + 1 + off) y 0 (runes (trim_cr l)) (inr (ps, x))
      → IsRows legend off (suc y) ls q
      → IsRows legend off y (l ∷ ls) (widest ps x q)
  widest-IsRows legend off y x l ls ps (inl bad_legend) h k = k
  widest-IsRows legend off y x l ls ps (inl (no_entry n c r)) h (m, i, t, a, b, e, g, u, v) =
      (suc m, i, t, omega (arith, a), b, e, g, u, v)
  widest-IsRows legend off y x l ls ps (inr (qs, w)) (a, h) (k, b) = (
    λ i j.
        ground (arith, painted-append ps qs i j, h i j, k i j, rows_color-cons legend y l ls i j),
    wide x w l ls (omega (arith, a)) b,
  )

  abbrev pub joined :
      Table ℕ
      → ℕ
      → ℕ
      → List (List ℕ)
      → ArtError ⊎ (List Placement × ℕ)
      → ArtError ⊎ (List Placement × ℕ)
  joined legend off y ls (inl e) = inl e
  joined legend off y ls (inr (ps, x)) = widest ps x (parse_rows runes legend off (suc y) ls)

  joined-IsRows :
      (legend : Table ℕ) (off y : ℕ) (l : List ℕ) (ls : List (List ℕ))
      (q : ArtError ⊎ (List Placement × ℕ))
      → IsLine legend (y + 1 + off) y 0 (runes (trim_cr l)) q
      → IsRows legend off (suc y) ls (parse_rows runes legend off (suc y) ls)
      → IsRows legend off y (l ∷ ls) (joined legend off y ls q)
  joined-IsRows legend off y l ls (inl bad_legend) h k = h
  joined-IsRows legend off y l ls (inl (no_entry n c r)) (i, a, b, e, u, v) k =
      (0, i, l, omega (arith, a), omega (arith, b), refl, e, u, v)
  joined-IsRows legend off y l ls (inr (ps, x)) h k =
      widest-IsRows legend off y x l ls ps (parse_rows runes legend off (suc y) ls) h k

  parse_rows-IsRows :
      (legend : Table ℕ) (off y : ℕ) (ls : List (List ℕ))
      → IsRows legend off y ls (parse_rows runes legend off y ls)
  unfolding parse_rows painted
  parse_rows-IsRows legend off y [] = (λ i j. ground arith, λ m t e. absurd (ground (arith, e)))
  parse_rows-IsRows legend off y (l ∷ ls) =
      joined-IsRows legend off y l ls (parse_line legend (y + 1 + off) y 0 (runes (trim_cr l)))
        (parse_line-IsLine legend (y + 1 + off) y 0 (runes (trim_cr l)))
        (parse_rows-IsRows legend off (suc y) ls)

  abbrev pub IsParsed : Table ℕ → ℕ → List (List ℕ) → ArtError ⊎ Blueprint → Type 0
  IsParsed legend off ls (inl bad_legend) = ⊥
  IsParsed legend off ls (inl (no_entry l k r)) = IsMissing legend off 0 ls l k r
  IsParsed legend off ls (inr bp) =
      (bp.h ≡ length ls)
      × ((m : ℕ) (t : List ℕ) → get_elem? ls m ≡ some t → length (runes (trim_cr t)) ≤ bp.w)
      × ((x y : ℕ) → painted bp.placements x y ≡ art_color legend ls x y)

  art_of-IsParsed :
      (legend : Table ℕ) (off : ℕ) (ls : List (List ℕ)) (q : ArtError ⊎ (List Placement × ℕ))
      → IsRows legend off 0 ls q
      → IsParsed legend off ls (art_of (length ls) q)
  art_of-IsParsed legend off ls (inl bad_legend) h = h
  art_of-IsParsed legend off ls (inl (no_entry l k r)) h = h
  art_of-IsParsed legend off ls (inr (ps, w)) (h, b) = (refl, b, λ x y. ground (arith, h x y))

  -- The rows of the art parse to a blueprint of as many rows as lines, wide enough for each, that
  -- paints every cell with its rune's legend entry; or they fail at a rune that is neither
  -- a skip nor in the legend, with its line and column in the file.
  pub parse_art-IsParsed :
      (legend : Table ℕ) (off : ℕ) (ls : List (List ℕ))
      → IsParsed legend off ls (parse_art runes legend off ls)
  parse_art-IsParsed legend off ls =
      art_of-IsParsed legend off ls (parse_rows runes legend off 0 ls)
        (parse_rows-IsRows legend off 0 ls)
