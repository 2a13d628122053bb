-- ===== src/Bot/Load/Scanline.antt =====
-- Every blueprint that `LoadPaint` (internal/bot/image.go) returns has each cell at most once, row by row.
use pixel_beetle.Prelude.{
  ℕ, suc, ◌+◌, ◌<◌, ◌≤◌, refl, ◌⊎◌, inl, inr, ◌||◌, Option, none, some, List, [], ◌∷◌, ◌++◌, ◌==◌,
  length, arith, Bool-cases, Option-cases, Table, lookup, same_bytes, codes,
}
use pixel_beetle.Bot.Blueprint.{Placement, Blueprint, cell_color, merge}
use pixel_beetle.Bot.Blueprint.Compose.{IsScanline, next_row, scan_rows-IsScanline}
use pixel_beetle.Bot.Blueprint.TextArt.{
  ArtError, is_nil, is_skip, placed, parse_line, widest, art_of, trim_cr, strip_prefix,
  parse_legend, fields, parse_rows, parse_art, parse_below, parse_raw, legend_prefix, split_on,
  drop_final, parse_text_art,
}
use pixel_beetle.Bot.Blueprint.TextArt.Rows.{joined}
use pixel_beetle.Bot.Shapes.Circle.{Mark}
use pixel_beetle.Bot.Shapes.Parse.{Shape, compose_shapes}
use pixel_beetle.Bot.Image.{Image, fit_scale, box_color, scaled, image_to_blueprint}
use pixel_beetle.Bot.Load.{
  Config, Loaded, paint_target, path_ext, merge_marks, compose_marks, art_result, image_result,
  is_image_ext, load_bytes, load_blueprint, drawn, load_draws, load_paint,
}

-- The placements of a row of runes come first on any row that is wide enough, before any later rows.
IsRow : ℕ → ℕ → ArtError ⊎ (List Placement × ℕ) → Type 0
IsRow y x (inl e) = Unit
IsRow y x (inr (ps, v)) =
    (x ≤ v)
    × ((w h i : ℕ) (qs : List Placement)
        → i ≤ x
        → v ≤ w
        → y < h
        → IsScanline w h (suc y) 0 qs
        → IsScanline w h y i (ps ++ qs))

skipped-IsRow : (y x : ℕ) (q : ArtError ⊎ (List Placement × ℕ)) → IsRow y (suc x) q → IsRow y x q
unfolding IsRow
skipped-IsRow y x (inl e) k = tt
skipped-IsRow y x (inr (ps, v)) (k, l) =
    (omega (arith, k), λ w h i qs a b c d. l w h i qs (omega (arith, a)) b c d)

placed-IsRow :
    (y x c : ℕ) (q : ArtError ⊎ (List Placement × ℕ))
    → IsRow y (suc x) q
    → IsRow y x (placed x y c q)
unfolding IsRow
placed-IsRow y x c (inl e) k = tt
placed-IsRow y x c (inr (ps, v)) (k, l) = (
  omega (arith, k),
  λ w h i qs a b t d. (inr (refl, a), omega (arith, k, b), t, l w h (suc x) qs (omega arith) b t d),
)

parse_line-IsRow :
    (legend : Table ℕ) (line y x : ℕ) (s : List ℕ) → IsRow y x (parse_line legend line y x s)
unfolding parse_line IsRow
parse_line-IsRow legend line y x [] = (omega arith, λ w h i qs a b c d. next_row w h y i qs d)
parse_line-IsRow legend line y x (r ∷ s) = elim (Bool-cases (is_skip r)) [
  | inl t ↦
      rw (parse_line, t)
        (skipped-IsRow y x (parse_line legend line y (suc x) s)
          (parse_line-IsRow legend line y (suc x) s))
  | inr t ↦ elim (Option-cases (lookup r legend)) [
    | inl e ↦ rw (parse_line, t) rw (e) tt
    | inr (c, e) ↦
        rw (parse_line, t) rw (e)
          (placed-IsRow y x c (parse_line legend line y (suc x) s)
            (parse_line-IsRow legend line y (suc x) s))
  ]
]

-- The placements of the rows from `y` on, `n` of them.
AreRows : ℕ → ℕ → ArtError ⊎ (List Placement × ℕ) → Type 0
AreRows y n (inl e) = Unit
AreRows y n (inr (ps, v)) = (w h : ℕ) → v ≤ w → y + n ≤ h → IsScanline w h y 0 ps

widest-AreRows :
    (y n x : ℕ) (ps : List Placement) (q : ArtError ⊎ (List Placement × ℕ))
    → IsRow y 0 (inr (ps, x))
    → AreRows (suc y) n q
    → AreRows y (suc n) (widest ps x q)
unfolding IsRow AreRows
widest-AreRows y n x ps (inl e) k l = tt
widest-AreRows y n x ps (inr (qs, v)) (k, row) rows = λ w h a b.
    row w h 0 qs (omega arith) (ground (arith, a)) (omega (arith, b))
      (rows w h (ground (arith, a)) (omega (arith, b)))

module _ (runes : List ℕ → List ℕ) where
  joined-AreRows :
      (legend : Table ℕ) (off y : ℕ) (ls : List (List ℕ)) (q : ArtError ⊎ (List Placement × ℕ))
      → IsRow y 0 q
      → AreRows (suc y) (length ls) (parse_rows runes legend off (suc y) ls)
      → AreRows y (suc (length ls)) (joined runes legend off y ls q)
  unfolding IsRow AreRows
  joined-AreRows legend off y ls (inl e) k l = tt
  joined-AreRows legend off y ls (inr (ps, x)) k l =
      widest-AreRows y (length ls) x ps (parse_rows runes legend off (suc y) ls) k l

  parse_rows-AreRows :
      (legend : Table ℕ) (off y : ℕ) (ls : List (List ℕ))
      → AreRows y (length ls) (parse_rows runes legend off y ls)
  unfolding parse_rows AreRows
  parse_rows-AreRows legend off y [] = λ w h a b. tt
  parse_rows-AreRows legend off y (l ∷ ls) =
      joined-AreRows legend off y ls (parse_line legend (y + 1 + off) y 0 (runes (trim_cr l)))
        (parse_line-IsRow legend (y + 1 + off) y 0 (runes (trim_cr l)))
        (parse_rows-AreRows legend off (suc y) ls)

-- What was loaded is in scanline order inside its size.
abbrev pub IsDrawing : Blueprint → Type 0
IsDrawing bp = IsScanline bp.w bp.h 0 0 bp.placements

IsArt : ArtError ⊎ Blueprint → Type 0
IsArt (inl e) = Unit
IsArt (inr bp) = IsDrawing bp

art_of-IsArt : (n : ℕ) (q : ArtError ⊎ (List Placement × ℕ)) → AreRows 0 n q → IsArt (art_of n q)
unfolding IsArt AreRows
art_of-IsArt n (inl e) k = tt
art_of-IsArt n (inr (ps, v)) k = k v n (omega arith) (omega arith)

abbrev pub IsLoaded : Loaded → Type 0
IsLoaded (inl e) = Unit
IsLoaded (inr bp) = IsDrawing bp

compose_marks-IsDrawing : (base : Blueprint) (ks : List Mark) → IsDrawing (compose_marks base ks)
unfolding compose_marks
compose_marks-IsDrawing base ks =
    let m =
      merge_marks ks (merge base.placements (record { cells = []; w = base.w; h = base.h })) in
    scan_rows-IsScanline (cell_color m.cells) m.w m.h 0 m.h (omega arith)

scaled-IsDrawing : (img : Image) (size : ℕ × ℕ) → IsDrawing (scaled img size)
scaled-IsDrawing img (w, h) = scan_rows-IsScanline (box_color img w h) w h 0 h (omega arith)

module _ (read_file : List ℕ → Option (List ℕ)) (decode : List ℕ → Option Image)
    (to_lower to_upper : List ℕ → List ℕ) (runes : List ℕ → List ℕ)
    (runes_at : List ℕ → List (ℕ × ℕ)) where
  below-IsArt : (o : Option (Table ℕ)) (ls : List (List ℕ)) → IsArt (parse_below runes o ls)
  unfolding IsArt
  below-IsArt none ls = tt
  below-IsArt (some legend) ls = art_of-IsArt (length ls) _ (parse_rows-AreRows runes legend 1 0 ls)

  parse_raw-IsArt : (ls : List (List ℕ)) → IsArt (parse_raw runes ls)
  unfolding AreRows
  parse_raw-IsArt [] = art_of-IsArt 0 _ (parse_rows-AreRows runes [] 0 0 [])
  parse_raw-IsArt (l ∷ ls) =
      elim (strip_prefix legend_prefix l)
        as (λ o. IsArt (elim o [
          | none ↦ parse_art runes [] 0 (l ∷ ls)
          | some s ↦ parse_below runes (parse_legend (fields s) []) ls
        ])) [
          | none ↦ art_of-IsArt (length (l ∷ ls)) _ (parse_rows-AreRows runes [] 0 0 (l ∷ ls))
          | some s ↦ below-IsArt (parse_legend (fields s) []) ls
        ]

  art_result-IsLoaded :
      (q : ArtError ⊎ Blueprint)
      → IsArt q
      → IsLoaded (art_result read_file decode to_lower to_upper runes runes_at q)
  unfolding IsArt
  art_result-IsLoaded (inl e) k = tt
  art_result-IsLoaded (inr bp) k = k

  image_result-IsLoaded :
      (cfg : Config) (o : Option Image)
      → IsLoaded (image_result read_file decode to_lower to_upper runes runes_at cfg o)
  unfolding image_to_blueprint
  image_result-IsLoaded cfg none = tt
  image_result-IsLoaded cfg (some img) =
      let (max_w, max_h) = paint_target cfg in
      elim (Bool-cases (img.width == 0 || img.height == 0)) [
        | inl t ↦ rw t tt
        | inr t ↦ rw t (scaled-IsDrawing img (fit_scale img.width img.height max_w max_h))
      ]

  load_bytes-IsLoaded :
      (cfg : Config) (o : Option (List ℕ))
      → IsLoaded (load_bytes read_file decode to_lower to_upper runes runes_at cfg o)
  unfolding parse_text_art
  load_bytes-IsLoaded cfg none = tt
  load_bytes-IsLoaded cfg (some bytes) =
      let ext = to_lower (path_ext cfg.blueprint_path) in
      elim (Bool-cases (same_bytes ext (codes ".txt"))) [
        | inl t ↦ rw t (art_result-IsLoaded _ (parse_raw-IsArt (drop_final (split_on 10 bytes))))
        | inr t ↦
            elim (Bool-cases (is_image_ext read_file decode to_lower to_upper runes runes_at ext)) [
              | inl u ↦ rw (t, u) (image_result-IsLoaded cfg (decode bytes))
              | inr u ↦ rw (t, u) tt
            ]
      ]

  load_blueprint-IsLoaded :
      (cfg : Config)
      → IsLoaded (load_blueprint read_file decode to_lower to_upper runes runes_at cfg)
  load_blueprint-IsLoaded cfg = elim (Bool-cases (is_nil cfg.blueprint_path)) [
    | inl t ↦ rw t tt
    | inr t ↦ rw t (load_bytes-IsLoaded cfg (read_file cfg.blueprint_path))
  ]

  drawn-IsLoaded :
      (bp : Blueprint) (q : Shape)
      → IsLoaded (drawn read_file decode to_lower to_upper runes runes_at bp q)
  drawn-IsLoaded bp (inl e) = tt
  drawn-IsLoaded bp (inr ks) = compose_marks-IsDrawing bp ks

  load_draws-IsLoaded :
      (draws : List (List ℕ)) (q : Loaded)
      → IsLoaded q
      → IsLoaded (load_draws read_file decode to_lower to_upper runes runes_at draws q)
  load_draws-IsLoaded draws (inl e) k = tt
  load_draws-IsLoaded [] (inr bp) k = k
  load_draws-IsLoaded (d ∷ draws) (inr bp) k =
      drawn-IsLoaded bp (compose_shapes to_upper runes_at (d ∷ draws))

  pub load_paint-IsLoaded :
      (cfg : Config) → IsLoaded (load_paint read_file decode to_lower to_upper runes runes_at cfg)
  unfolding load_paint
  load_paint-IsLoaded cfg = load_draws-IsLoaded cfg.draws _ (load_blueprint-IsLoaded cfg)
