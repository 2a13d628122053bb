-- ===== src/Game/Warm.antt =====
-- The rebuild of the service at boot, internal/game/warm.go: `WarmCache` by full replay, and from a
-- snapshot and the transfers since it. What reads and resets files (internal/game/persist.go) is a
-- parameter: the loaded snapshot, and the scan and the reset of the sidecar.
pub mod Replay
pub mod Checkpoints
pub mod Seek
mod Tests
use pixel_beetle.Prelude.{
  ℕ, ◌+◌, ◌*◌, ◌/◌, Bool, true, false, Option, none, some, List, [], ◌∷◌, ltb, ◌==◌, ◌||◌,
  if◌then◌else◌, replicate, set,
}
use pixel_beetle.TbClient.External.{Transfer, TbLib, TbServer}
use pixel_beetle.TbClient.Transfers.{is_posted_claim}
use pixel_beetle.Game.Anchors.{AnchorGrid, AnchorRef, OnEvict, sync_to, fill_to, empty_grid}
use pixel_beetle.Game.Fold.{Folded, FoldError, fold_from}
use pixel_beetle.Game.Service.{Service, World, paint_byte, cell_index}

-- The local variables of the fold, or what a snapshot holds (`last_ts` is its watermark).
pub record Build : Type 0 where
  pub bmp : List ℕ
  pub ag : AnchorGrid
  pub first_paint : ℕ
  pub last_paint : ℕ
  pub last_ts : ℕ

abbrev pub empty_build : ℕ → ℕ → Build
empty_build grid_w grid_h = record {
  bmp = replicate (grid_w * grid_h) 0;
  ag = empty_grid;
  first_paint = 0;
  last_paint = 0;
  last_ts = 0;
}

abbrev pub fold_claim : ℕ → ℕ → Option (ℕ × ℕ × ℕ) → Build → Build
fold_claim grid_w ms none b = b
fold_claim grid_w ms (some (x, y, color)) b = record b {
  bmp = set b.bmp (cell_index grid_w x y) (paint_byte color);
  first_paint = if b.first_paint == 0 || ltb ms b.first_paint then ms else b.first_paint;
  last_paint = if ltb b.last_paint ms then ms else b.last_paint;
}

module _ {F : Type 0} (on_evict : OnEvict F) (tb : TbLib) (grid_w grid_h : ℕ) where
  -- The callback of both folds; the sidecar is written while checkpoints are evicted.
  unfoldable pub warm_step : Transfer → Build × F → (Build × F) × Bool
  warm_step t (b, f) =
      let (ag, f') = sync_to on_evict t.timestamp b.bmp b.ag f in
      let b' =
        fold_claim grid_w (t.timestamp / 1_000_000) (is_posted_claim tb t grid_w grid_h)
          (record b { ag = ag }) in
      ((record b' { last_ts = t.timestamp }, f'), false)

module _ {S F : Type 0} (server : TbServer S) (on_evict : OnEvict F) (tb : TbLib) where
  -- The critical section behind a fold that succeeded.
  unfoldable pub install : ℕ → Build × F → World S F → World S F
  install now_ms (b, f) w =
      let (ag, f') = fill_to on_evict now_ms b.bmp b.ag f in
      record w {
        svc = record w.svc {
          bmp = b.bmp;
          ag = ag;
          first_paint_ms = b.first_paint;
          last_paint_ms = b.last_paint;
          warm_ts = b.last_ts;
          warmed = true;
        };
        sidecar = f';
      }

  abbrev pub installed : ℕ → Folded (Build × F) → World S F → World S F × Option FoldError
  installed now_ms r w = elim r.err [
    | none ↦ (install now_ms r.acc w, none)
    | some e ↦ (record w { sidecar = r.acc.1 }, some e)
  ]

  -- The fold of the transfers from `from` on into `b`.
  unfoldable pub warm_from : ℕ → ℕ → ℕ → Build → World S F → World S F × Option FoldError
  unfolding install fold_from
  warm_from fuel now_ms from b w =
      installed now_ms
        (fold_from server (warm_step on_evict tb w.svc.grid_w w.svc.grid_h) 0 w.store fuel from 0
          (b, w.sidecar))
        w

  -- The full replay.
  unfoldable pub replay : (F → F) → ℕ → ℕ → World S F → World S F × Option FoldError
  unfolding warm_from
  replay reset fuel now_ms w =
      warm_from fuel now_ms 0 (empty_build w.svc.grid_w w.svc.grid_h)
        (record w { sidecar = reset w.sidecar })

  abbrev pub scanned : Option (List AnchorRef) → World S F → World S F
  scanned none w = w
  scanned (some refs) w = record w {
    svc = record w.svc { ag = record w.svc.ag { evicted = refs } };
  }

  -- `WarmCache`: the snapshot is `none` where none is configured or it cannot be used.
  unfoldable pub warm_cache :
      Option Build
      → (F → Option (List AnchorRef))
      → (F → F)
      → ℕ
      → ℕ
      → World S F
      → World S F × Option FoldError
  unfolding replay
  warm_cache none scan reset fuel now_ms w = replay reset fuel now_ms w
  warm_cache (some b) scan reset fuel now_ms w =
      let (w', err) = warm_from fuel now_ms (b.last_ts + 1) b w in
      elim err [
        | none ↦ (scanned (scan w'.sidecar) w', none)
        | some e ↦ replay reset fuel now_ms w'
      ]
