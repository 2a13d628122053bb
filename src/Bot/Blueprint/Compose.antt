-- ===== src/Bot/Blueprint/Compose.antt =====
-- `compose` of internal/bot/blueprint.go: the last placement wins, the result is in scanline order.
use pixel_beetle.Prelude.{
  ℕ, zero, suc, ◌+◌, ◌^◌, ◌≤◌, ◌<◌, ◌≡◌, refl, sym, ap, subst, ◌∙◌, ◌⊎◌, inl, inr, ◌&&◌, Option,
  none, some, List, [], ◌∷◌, ◌++◌, ltb, leb, ◌==◌, if◌then◌else◌, arith, Option-cases, Bool-cases,
}
use pixel_beetle.Bot.Blueprint.{
  Placement, Blueprint, is_at, cell_color, grown, Merged, merge, place, scan_row, scan_rows,
  compose,
}

-- The color that a list of placements leaves on a cell: the last one's.
unfoldable pub painted : List Placement → ℕ → ℕ → Option ℕ
painted [] x y = none
painted (p ∷ ps) x y = elim (painted ps x y) [
  | some c ↦ some c
  | none ↦ if is_at p x y then some p.color else none
]

abbrev pub or_else : Option ℕ → Option ℕ → Option ℕ
or_else none o = o
or_else (some c) o = some c

pub painted-append :
    (ps qs : List Placement) (x y : ℕ)
    → painted (ps ++ qs) x y ≡ or_else (painted qs x y) (painted ps x y)
unfolding painted
painted-append [] qs x y = ground arith
painted-append (p ∷ ps) qs x y = ground (arith, painted-append ps qs x y)

cell_color-merge :
    (ps : List Placement) (m : Merged) (x y : ℕ)
    → cell_color (merge ps m).cells x y ≡ or_else (painted ps x y) (cell_color m.cells x y)
unfolding merge painted cell_color
cell_color-merge [] m x y = refl
cell_color-merge (p ∷ ps) m x y = ground (
  arith,
  cell_color-merge ps (record { cells = p ∷ m.cells; w = grown p.x m.w; h = grown p.y m.h }) x y,
)

-- Every cell that is written lies inside the size.
AreInside : Merged → Type 0
AreInside m = (x y c : ℕ) → cell_color m.cells x y ≡ some c → (x < m.w) × (y < m.h)

-- No coordinate is the largest int.
abbrev pub AreBounded : List Placement → Type 0
AreBounded [] = Unit
AreBounded (p ∷ ps) = (p.x + 1 < 2 ^ 63) × (p.y + 1 < 2 ^ 63) × AreBounded ps

merge-AreInside :
    (ps : List Placement) (m : Merged) → AreBounded ps → AreInside m → AreInside (merge ps m)
unfolding merge AreInside cell_color
merge-AreInside [] m bounded h = h
merge-AreInside (p ∷ ps) m (bx, by, rest) h =
    merge-AreInside ps (record { cells = p ∷ m.cells; w = grown p.x m.w; h = grown p.y m.h }) rest
      (λ x y c e. elim (Bool-cases (is_at p x y)) [
        | inl t ↦ (ground (arith, t, bx), ground (arith, t, by))
        | inr t ↦
            let k = h x y c (ground (arith, t, e)) in (ground (arith, k, bx), ground (arith, k, by))
      ])

painted-place :
    (i j x y : ℕ) (o : Option ℕ) (ps : List Placement)
    → painted (place i j o ps) x y ≡ or_else (painted ps x y) (if i == x && j == y then o else none)
unfolding painted
painted-place i j x y none ps = ground arith
painted-place i j x y (some c) ps = ground arith

painted-scan_row :
    (color : ℕ → ℕ → Option ℕ) (j i n x y : ℕ)
    → painted (scan_row color j i n) x y
      ≡ (if j == y && leb i x && ltb x (i + n) then color x y else none)
unfolding scan_row painted
painted-scan_row color j i zero x y = ground arith
painted-scan_row color j i (suc n) x y = elim (Bool-cases (i == x && j == y)) [
  | inl t ↦
      let same_x : i ≡ x = ground (arith, t) in
      let same_y : j ≡ y = ground (arith, t) in
      let same : color i j ≡ color x y = ap (λ a. color a j) same_x ∙ ap (color x) same_y in
      ground (
        arith,
        painted-place i j x y (color i j) (scan_row color j (suc i) n),
        painted-scan_row color j (suc i) n x y,
        same,
        t,
      )
  | inr t ↦ ground (
    arith,
    painted-place i j x y (color i j) (scan_row color j (suc i) n),
    painted-scan_row color j (suc i) n x y,
    t,
  )
]

-- Each scanned cell has its color, and no other cell is painted.
pub painted-scan_rows :
    (color : ℕ → ℕ → Option ℕ) (w j n x y : ℕ)
    → painted (scan_rows color w j n) x y
      ≡ (if leb j y && ltb y (j + n) && ltb x w then color x y else none)
unfolding scan_rows painted
painted-scan_rows color w j zero x y = ground arith
painted-scan_rows color w j (suc n) x y = ground (
  arith,
  painted-append (scan_row color j 0 w) (scan_rows color w (suc j) n) x y,
  painted-scan_row color j 0 w x y,
  painted-scan_rows color w (suc j) n x y,
)

merged : Blueprint → List Placement → Merged
merged base more =
    merge more (merge base.placements (record { cells = []; w = base.w; h = base.h }))

cell_color-merged :
    (base : Blueprint) (more : List Placement) (x y : ℕ)
    → cell_color (merged base more).cells x y ≡ painted (base.placements ++ more) x y
unfolding merged cell_color
cell_color-merged base more x y =
    let start : Merged = record { cells = []; w = base.w; h = base.h } in
    ground (
      arith,
      cell_color-merge more (merge base.placements start) x y,
      cell_color-merge base.placements start x y,
      painted-append base.placements more x y,
    )

merged-AreInside :
    (base : Blueprint) (more : List Placement)
    → AreBounded base.placements
    → AreBounded more
    → AreInside (merged base more)
unfolding merged cell_color AreInside
merged-AreInside base more bb bm =
    let start : Merged = record { cells = []; w = base.w; h = base.h } in
    merge-AreInside more (merge base.placements start) bm
      (merge-AreInside base.placements start bb (λ x y c e. absurd (ground (arith, e))))

-- On every cell, `compose` leaves the color of the last placement there, of both lists in order, where
-- no coordinate is the largest int.
pub painted-compose :
    (base : Blueprint) (more : List Placement) (x y : ℕ)
    → AreBounded base.placements
    → AreBounded more
    → painted (compose base more).placements x y ≡ painted (base.placements ++ more) x y
unfolding compose AreInside merged
painted-compose base more x y bb bm =
    let m = merged base more in
    elim (Option-cases (cell_color m.cells x y)) [
      | inl e ↦ ground (
        arith,
        painted-scan_rows (cell_color m.cells) m.w 0 m.h x y,
        cell_color-merged base more x y,
        e,
      )
      | inr (c, e) ↦ ground (
        arith,
        painted-scan_rows (cell_color m.cells) m.w 0 m.h x y,
        cell_color-merged base more x y,
        merged-AreInside base more bb bm x y c e,
        e,
      )
    ]

-- The cells come row by row, from left to right and each once, from column `i` of row `j` on, on
-- a grid of `w` by `h`.
abbrev pub IsScanline : ℕ → ℕ → ℕ → ℕ → List Placement → Type 0
IsScanline w h j i [] = Unit
IsScanline w h j i (p ∷ ps) =
    ((j < p.y) ⊎ ((j ≡ p.y) × (i ≤ p.x))) × (p.x < w) × (p.y < h) × IsScanline w h p.y (suc p.x) ps

pub next_row :
    (w h j i : ℕ) (ps : List Placement) → IsScanline w h (suc j) 0 ps → IsScanline w h j i ps
next_row w h j i [] s = tt
next_row w h j i (p ∷ ps) (inl l, a, b, c) = (inl (omega (arith, l)), a, b, c)
next_row w h j i (p ∷ ps) (inr (e, _), a, b, c) = (inl (omega (arith, e)), a, b, c)

scan_row-IsScanline :
    (color : ℕ → ℕ → Option ℕ) (ps : List Placement) (w h j i x n : ℕ)
    → i ≤ x
    → x + n ≤ w
    → j < h
    → IsScanline w h (suc j) 0 ps
    → IsScanline w h j i (scan_row color j x n ++ ps)
unfolding scan_row
scan_row-IsScanline color ps w h j i x zero p q r s = next_row w h j i ps s
scan_row-IsScanline color ps w h j i x (suc n) p q r s = elim (Option-cases (color x j)) [
  | inl e ↦
      subst (λ o. IsScanline w h j i (place x j o (scan_row color j (suc x) n) ++ ps)) (sym e)
        (scan_row-IsScanline color ps w h j i (suc x) n (omega (arith, p)) (omega (arith, q)) r s)
  | inr (c, e) ↦
      subst (λ o. IsScanline w h j i (place x j o (scan_row color j (suc x) n) ++ ps)) (sym e)
        (
          inr (refl, p),
          omega (arith, q),
          r,
          scan_row-IsScanline color ps w h j (suc x) (suc x) n (omega arith) (omega (arith, q)) r s,
        )
]

pub scan_rows-IsScanline :
    (color : ℕ → ℕ → Option ℕ) (w h j n : ℕ)
    → j + n ≤ h
    → IsScanline w h j 0 (scan_rows color w j n)
unfolding scan_rows
scan_rows-IsScanline color w h j zero p = tt
scan_rows-IsScanline color w h j (suc n) p =
    scan_row-IsScanline color (scan_rows color w (suc j) n) w h j 0 0 w (omega arith) (omega arith)
      (omega (arith, p)) (scan_rows-IsScanline color w h (suc j) n (omega (arith, p)))

-- The result of `compose` is in scanline order, without a cell twice and inside its own size.
pub compose-IsScanline :
    (base : Blueprint) (more : List Placement)
    → IsScanline (compose base more).w (compose base more).h 0 0 (compose base more).placements
unfolding compose merged
compose-IsScanline base more =
    let m = merged base more in
    scan_rows-IsScanline (cell_color m.cells) m.w m.h 0 m.h (omega arith)
