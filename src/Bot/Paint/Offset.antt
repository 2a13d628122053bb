-- ===== src/Bot/Paint/Offset.antt =====
-- Where a drawing is placed on the grid (internal/bot/paint.go).
use pixel_beetle.Prelude.{
  ℕ, ◌+◌, ◌-◌, ◌/◌, ◌^◌, ◌<◌, ◌≤◌, ◌≡◌, ◌⊎◌, inl, inr, Option, none, some, leb, arith, Bool-cases,
}
use pixel_beetle.Bot.Blueprint.{Placement, Blueprint}
use pixel_beetle.Bot.Paint.{resolve_paint_offset, shifted}

-- A drawing without an offset of the user is placed if it fits on the grid and refused if not,
-- though the offset of one that does not fit wraps around; where it is placed, the margins on
-- opposite sides differ by one at most. The sizes are below 2 ^ 31.
pub resolve_paint_offset-centered :
    (grid_w grid_h : ℕ) (bp : Blueprint)
    → (grid_w < 2 ^ 31) × (grid_h < 2 ^ 31)
    → (bp.w < 2 ^ 31) × (bp.h < 2 ^ 31)
    → ((bp.w ≤ grid_w)
        × (bp.h ≤ grid_h)
        × ((x y : ℕ) × (resolve_paint_offset none grid_w grid_h bp ≡ some (x, y))
            × ((x + bp.w + x ≡ grid_w) ⊎ (x + bp.w + x + 1 ≡ grid_w))
            × ((y + bp.h + y ≡ grid_h) ⊎ (y + bp.h + y + 1 ≡ grid_h))))
      ⊎ (((grid_w < bp.w) ⊎ (grid_h < bp.h)) × (resolve_paint_offset none grid_w grid_h bp ≡ none))
unfolding resolve_paint_offset
resolve_paint_offset-centered grid_w grid_h bp (a, b) (c, d) = elim (Bool-cases (leb bp.w grid_w)) [
  | inl t ↦ elim (Bool-cases (leb bp.h grid_h)) [
    | inl u ↦ inl (
      ground (arith, t),
      ground (arith, u),
      (
        (grid_w - bp.w) / 2,
        (grid_h - bp.h) / 2,
        ground (arith, t, u),
        ground (arith, t),
        ground (arith, u),
      ),
    )
    | inr u ↦ inr (inr (ground (arith, u)), ground (arith, t, u, b, d))
  ]
  | inr t ↦ inr (inl (ground (arith, t)), ground (arith, t, a, c))
]

-- What is placed lies on the grid: every placement inside the drawing's size is moved to a cell of
-- the grid, for any offset that is accepted.
pub resolve_paint_offset-inside :
    (set : Option (ℕ × ℕ)) (grid_w grid_h : ℕ) (bp : Blueprint) (off : ℕ × ℕ) (p : Placement)
    → resolve_paint_offset set grid_w grid_h bp ≡ some off
    → (p.x < bp.w) × (p.y < bp.h)
    → ((shifted off p).x < grid_w) × ((shifted off p).y < grid_h)
unfolding resolve_paint_offset
resolve_paint_offset-inside none grid_w grid_h bp off p e h =
    (ground (arith, e, h), ground (arith, e, h))
resolve_paint_offset-inside (some o) grid_w grid_h bp off p e h =
    (ground (arith, e, h), ground (arith, e, h))
