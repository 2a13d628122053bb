-- ===== src/Bot/Load/Queue.antt =====
-- The start of `paintRun` and `shufflePlacements` of internal/bot/paint.go: the offset, the order, the
-- accounts of direct mode and the queue. The calls that rand.Shuffle makes are a parameter.
pub mod Counts
pub mod Provisioned
pub mod Started
pub mod Ends
use pixel_beetle.Prelude.{
  ℕ, zero, suc, ◌+◌, ◌%◌, ◌^◌, Bool, true, false, Option, none, some, List, [], ◌∷◌, map, length, ℤ,
  pos, negsuc, if◌then◌else◌, get_elem?, set, same_bytes, codes,
}
use pixel_beetle.TbClient.External.{TbLib, TbServer}
use pixel_beetle.TbClient.Ids.{pixel_id}
use pixel_beetle.TbClient.Client.{TbError, ensure_accounts, fund}
use pixel_beetle.Bot.Blueprint.{Placement, Blueprint}
use pixel_beetle.Bot.Paint.{shifted, Pool, seeded, resolve_paint_offset}
use pixel_beetle.Bot.Load.{Config}

abbrev pub paint_workers_default : ℕ
paint_workers_default = 16

-- The fields of `Config` that only the painter's start reads; `direct` is whether there is a client.
pub record PaintConfig : Type 0 where
  pub config : Config
  pub paint_order : List ℕ
  pub paint_workers : ℤ
  pub direct : Bool

-- `ps[i], ps[j] = ps[j], ps[i]`; `none` is the panic of an index out of range.
unfoldable pub swap : ℕ × ℕ → List Placement → Option (List Placement)
swap (i, j) ps = elim (get_elem? ps i) [
  | none ↦ none
  | some a ↦ elim (get_elem? ps j) [ none ↦ none | some b ↦ some (set (set ps i b) j a) ]
]

unfoldable pub shuffle_placements : List (ℕ × ℕ) → Option (List Placement) → Option (List Placement)
unfolding swap
shuffle_placements ks none = none
shuffle_placements [] (some ps) = some ps
shuffle_placements (k ∷ ks) (some ps) = shuffle_placements ks (swap k ps)

unfoldable pub worker_count : ℤ → ℕ
worker_count (pos zero) = paint_workers_default
worker_count (pos (suc n)) = suc n
worker_count (negsuc n) = paint_workers_default

-- `idle` is the run without a placement, which ends at once.
pub data Start : Type 0 where
  refused panicked idle : Start
  unprovisioned : TbError → Start
  running : ℕ → Pool → Start

-- The placements in the order of the queue; `shuffled n` are the exchanges that rand.Shuffle makes for
-- `n` elements.
unfoldable pub ordered : (ℕ → List (ℕ × ℕ)) → List ℕ → List Placement → Option (List Placement)
unfolding shuffle_placements
ordered shuffled order ps =
    if same_bytes order (codes "random")
    then shuffle_placements (shuffled (length ps)) (some ps)
    else some ps

abbrev pub ordered_from : ℕ → List Placement → Start
ordered_from workers [] = idle
ordered_from workers (p ∷ ps) = running workers (seeded (p ∷ ps))

module _ {S : Type 0} (tb : TbLib) (server : TbServer S) where
  abbrev pub pixel_of : Placement → ℕ
  pixel_of p = pixel_id tb (p.x % 2 ^ 32) (p.y % 2 ^ 32)

  -- Funds one pixel after the other, up to the first error.
  unfoldable pub fund_pixels : List Placement → S → Option TbError × S
  fund_pixels [] s = (none, s)
  fund_pixels (p ∷ ps) s =
      let (e, s') = fund tb server (p.x % 2 ^ 32) (p.y % 2 ^ 32) s in
      let rest = fund_pixels ps s' in elim e [ none ↦ rest | some err ↦ (some err, s') ]

  unfoldable pub provision : Bool → List Placement → S → Option TbError × S
  unfolding fund_pixels
  provision false ps s = (none, s)
  provision true ps s =
      let (e, s') = ensure_accounts tb server (map pixel_of ps) s in
      let rest = fund_pixels ps s' in elim e [ none ↦ rest | some err ↦ (some err, s') ]

  abbrev pub provisioned : ℕ → List Placement → Option TbError × S → Start × S
  provisioned workers ps (none, s) = (ordered_from workers ps, s)
  provisioned workers ps (some e, s) = (unprovisioned e, s)

  abbrev pub queued : PaintConfig → Option (List Placement) → S → Start × S
  queued cfg none s = (panicked, s)
  queued cfg (some ps) s =
      provisioned (worker_count cfg.paint_workers) ps (provision cfg.direct ps s)

module _ {S : Type 0} (tb : TbLib) (server : TbServer S) (shuffled : ℕ → List (ℕ × ℕ)) where
  abbrev pub placed_at : PaintConfig → Blueprint → Option (ℕ × ℕ) → S → Start × S
  placed_at cfg bp none s = (refused, s)
  placed_at cfg bp (some off) s =
      queued tb server cfg (ordered shuffled cfg.paint_order (map (shifted off) bp.placements)) s

  unfoldable pub paint_start : PaintConfig → Blueprint → S → Start × S
  unfolding ordered provision worker_count resolve_paint_offset
  paint_start cfg bp s =
      placed_at cfg bp
        (resolve_paint_offset cfg.config.paint_offset cfg.config.grid_w cfg.config.grid_h bp) s
