-- ===== src/Bot/Blueprint.antt =====
-- internal/bot/blueprint.go: placements and blueprints, `compose` and `ValidateBounds`. Coordinates
-- are not negative. A Go map from cells is a list of its writes, the last one first.
pub mod Compose
pub mod TextArt
pub mod Format
use pixel_beetle.Prelude.{
  ℕ, zero, suc, ◌+◌, ◌^◌, Bool, true, false, ◌&&◌, Option, none, some, List, [], ◌∷◌, ◌++◌, ltb,
  leb, ◌==◌, if◌then◌else◌,
}

pub record Placement : Type 0 where
  pub x : ℕ
  pub y : ℕ
  pub color : ℕ

pub record Blueprint : Type 0 where
  pub w : ℕ
  pub h : ℕ
  pub placements : List Placement

abbrev pub is_at : Placement → ℕ → ℕ → Bool
is_at p x y = p.x == x && p.y == y

-- `cells[[2]int{x, y}]`
unfoldable pub cell_color : List Placement → ℕ → ℕ → Option ℕ
cell_color [] x y = none
cell_color (p ∷ cells) x y = if is_at p x y then some p.color else cell_color cells x y

-- `i + 1` wraps around to a negative number at the largest int, and then is not larger.
abbrev pub grown : ℕ → ℕ → ℕ
grown i w = if ltb (i + 1) (2 ^ 63) && ltb w (i + 1) then i + 1 else w

-- The map and the size of `compose`.
pub record Merged : Type 0 where
  pub cells : List Placement
  pub w : ℕ
  pub h : ℕ

-- Each of the two loops that fill the map.
unfoldable pub merge : List Placement → Merged → Merged
merge [] m = m
merge (p ∷ ps) m = merge ps (record { cells = p ∷ m.cells; w = grown p.x m.w; h = grown p.y m.h })

abbrev pub place : ℕ → ℕ → Option ℕ → List Placement → List Placement
place x y none ps = ps
place x y (some c) ps = record { x = x; y = y; color = c } ∷ ps

-- `n` cells of a row from `x` on, each with the color that is given for it.
unfoldable pub scan_row : (ℕ → ℕ → Option ℕ) → ℕ → ℕ → ℕ → List Placement
scan_row color y x zero = []
scan_row color y x (suc n) = place x y (color x y) (scan_row color y (suc x) n)

-- `n` rows from `y` on.
unfoldable pub scan_rows : (ℕ → ℕ → Option ℕ) → ℕ → ℕ → ℕ → List Placement
unfolding scan_row
scan_rows color w y zero = []
scan_rows color w y (suc n) = scan_row color y 0 w ++ scan_rows color w (suc y) n

abbrev pub scanned_blueprint : Merged → Blueprint
scanned_blueprint m = record {
  w = m.w;
  h = m.h;
  placements = scan_rows (cell_color m.cells) m.w 0 m.h;
}

unfoldable pub compose : Blueprint → List Placement → Blueprint
unfolding merge scan_rows
compose base more =
    scanned_blueprint
      (merge more (merge base.placements (record { cells = []; w = base.w; h = base.h })))

-- Whether `ValidateBounds` returns nil.
unfoldable pub validate_bounds : Blueprint → ℕ → ℕ → ℕ × ℕ → Bool
validate_bounds b grid_w grid_h (ox, oy) = leb (b.w + ox) grid_w && leb (b.h + oy) grid_h
