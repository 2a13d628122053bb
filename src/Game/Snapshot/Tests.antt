-- ===== src/Game/Snapshot/Tests.antt =====
-- The snapshot of internal/game/persist.go of a canvas of two cells with one checkpoint.
use pixel_beetle.Prelude.{ℕ, ◌≡◌, refl, ◌⊎◌, true, false, none, some, [], ◌∷◌, arith, lookup, take}
use pixel_beetle.Game.Anchors.{Anchor}
use pixel_beetle.Game.Service.{Service, new_service}
use pixel_beetle.Game.Snapshot.{all_pooled, write_snapshot, load_snapshot}
use pixel_beetle.Game.Snapshot.RoundTrip.{IsSaveable, build_of, load_snapshot-write_snapshot}
use pixel_beetle.Game.Snapshot.Saving.{Disk, Faults, save_snapshot, save_ops, run_ops}
use pixel_beetle.Game.Snapshot.Saving.Crash.{
  IsClean, IsSaved, save_snapshot-IsSaved, load_disk, load_disk-save_ops,
}

abbrev one_checkpoint : Anchor
one_checkpoint = record { ts_ms = 120_000; hash = 7 }

abbrev two_cells : Service
two_cells = record (new_service 2 1) {
  bmp = 0 ∷ 5 ∷ [];
  warmed = true;
  warm_ts = 60_000_000_000;
  first_paint_ms = 60_000;
  last_paint_ms = 60_000;
  ag = record {
    list = one_checkpoint ∷ [];
    pool = (7, 0 ∷ 5 ∷ []) ∷ [];
    pool_bytes = 2;
    next_boundary = 180_000;
    evicted = [];
  };
}

two_cells-IsSaveable : IsSaveable two_cells
unfolding lookup new_service all_pooled
two_cells-IsSaveable = record {
  times = (omega arith, omega arith, omega arith);
  sides = (omega arith, omega arith);
  cells = refl;
  few = (omega arith, omega arith, omega arith);
  anchors = (omega arith, omega arith, tt);
  pool = (omega arith, omega arith, refl, tt);
  present = refl;
}

load_snapshot-write_snapshot_example :
    (load_snapshot 2 1 (write_snapshot two_cells) ≡ some (build_of two_cells))
    × ((k : ℕ) → lookup k (build_of two_cells).ag.pool ≡ lookup k two_cells.ag.pool)
unfolding new_service
load_snapshot-write_snapshot_example = load_snapshot-write_snapshot two_cells two_cells-IsSaveable

-- The sync fails.
abbrev bad_sync : Faults
bad_sync = record {
  lock_open_fails = false;
  flock_fails = false;
  create_fails = false;
  flush_fails = false;
  sync_fails = true;
  close_fails = false;
  rename_fails = false;
  remove_fails = false;
  written = [];
}

abbrev empty_disk : Disk
empty_disk = record { target = none; temp = none; locked = false }

save_snapshot-IsSaved_example :
    IsSaved
      (save_snapshot bad_sync two_cells empty_disk).1
      two_cells
      empty_disk
      (save_snapshot bad_sync two_cells empty_disk).0
    × IsClean
        (save_snapshot bad_sync two_cells empty_disk).1
        bad_sync
        (save_snapshot bad_sync two_cells empty_disk).0
save_snapshot-IsSaved_example = save_snapshot-IsSaved bad_sync two_cells empty_disk refl

load_disk-save_ops_example :
    (load_disk 2 1 (run_ops (take 2 (save_ops bad_sync two_cells).0) empty_disk)
      ≡ load_disk 2 1 empty_disk)
    ⊎ (load_disk 2 1 (run_ops (take 2 (save_ops bad_sync two_cells).0) empty_disk)
        ≡ some (build_of two_cells))
unfolding new_service
load_disk-save_ops_example = load_disk-save_ops bad_sync two_cells empty_disk 2 two_cells-IsSaveable
