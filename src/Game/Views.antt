-- ===== src/Game/Views.antt =====
-- What internal/game/game.go shows of the canvas: `Snapshot`, `SnapshotBmp` and `InitAllPixels`. The
-- base64 encoding is a parameter, and the table of locks is visited in its order.
pub mod Colors
use pixel_beetle.Prelude.{
  ℕ, zero, suc, ◌-◌, ◌/◌, ◌%◌, Bool, true, false, Option, none, some, List, [], ◌∷◌, Table, insert,
  ltb, if◌then◌else◌,
}
use pixel_beetle.TbClient.External.{TbLib, TbServer}
use pixel_beetle.TbClient.Client.{TbError}
use pixel_beetle.TbClient.Batches.{ensure_all_pixels}
use pixel_beetle.Game.Registry.{Lock, pack}
use pixel_beetle.Game.Service.{Service, World}
use pixel_beetle.Game.Resolution.{key_x, key_y}

-- The loop of `Snapshot` from the cell `i` on. A cell is below the product of two `uint32`, so the
-- conversions of its column and its row keep the values.
unfoldable pub snapshot_from : ℕ → ℕ → List ℕ → Table ℕ → Table ℕ
snapshot_from w i [] out = out
snapshot_from w i (v ∷ bmp) out =
    snapshot_from w (suc i) bmp (if ltb 0 v then insert (pack (i % w) (i / w)) (v - 1) out else out)

unfoldable pub snapshot_colors : Service → Table ℕ
unfolding snapshot_from
snapshot_colors v = snapshot_from v.grid_w 0 v.bmp []

-- The loop of `SnapshotBmp` over the locks.
unfoldable pub held_cells : ℕ → Table Lock → List (ℕ × ℕ)
held_cells now [] = []
held_cells now ((k, l) ∷ locks) =
    let rest = held_cells now locks in if ltb now l.expires then (key_x k, key_y k) ∷ rest else rest

unfoldable pub snapshot_bmp : {B : Type 0} → (List ℕ → B) → ℕ → Service → B × List (ℕ × ℕ)
unfolding held_cells
snapshot_bmp encode now v = (encode v.bmp, held_cells now v.registry.locks)

module _ {S F : Type 0} (tb : TbLib) (server : TbServer S) where
  abbrev pub all_answered : Option TbError × S → World S F → World S F × Option TbError
  all_answered (some e, s) w = (record w { store = s }, some e)
  all_answered (none, s) w =
      (record w { svc = record w.svc { all_created = true }; store = s }, none)

  unfoldable pub init_all_pixels : World S F → World S F × Option TbError
  init_all_pixels w = all_answered (ensure_all_pixels tb server w.svc.grid_w w.svc.grid_h w.store) w
