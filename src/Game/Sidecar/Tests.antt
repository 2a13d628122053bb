-- ===== src/Game/Sidecar/Tests.antt =====
-- The sidecar of internal/game/persist.go with one bitmap of two cells.
use pixel_beetle.Prelude.{
  ℕ, ◌≡◌, refl, inl, true, false, List, [], ◌∷◌, ◌++◌, arith, lookup, take, le,
}
use pixel_beetle.Game.Anchors.{Anchor, AnchorRef, bmp_hash, persist}
use pixel_beetle.Game.Sidecar.{
  Sidecar, SidecarIo, lock_anchor_file, write_anchor_blob, full_record, scan_data,
}
use pixel_beetle.Game.Sidecar.Format.{no_records}
use pixel_beetle.Game.Sidecar.Sync.{
  IsSynced, Works, AreCheckpoints, scan_data-torn, persist-IsSynced,
}

abbrev two_cells : List ℕ
two_cells = 0 ∷ 5 ∷ []

abbrev two_hash : ℕ
two_hash = bmp_hash two_cells

abbrev no_faults : SidecarIo
no_faults = record {
  open_fails = false;
  held = λ i. false;
  rounds = 80;
  seek_fails = false;
  write_fails = false;
  torn = 0;
}

abbrev new_sidecar : Sidecar
new_sidecar = record { configured = true; is_open = false; file = []; blobs = []; last_hash = 0 }

new_sidecar-IsSynced : IsSynced new_sidecar []
new_sidecar-IsSynced = record { count = 0; records = no_records; last = inl refl }

no_faults-Works : Works no_faults new_sidecar
unfolding lock_anchor_file
no_faults-Works = (refl, refl, refl, refl)

-- The same bitmap in two minutes.
abbrev idle : List Anchor
idle = record { ts_ms = 60_000; hash = two_hash } ∷ record { ts_ms = 120_000; hash = two_hash } ∷ []

idle-AreCheckpoints : AreCheckpoints idle ((two_hash, two_cells) ∷ [])
unfolding lookup bmp_hash
idle-AreCheckpoints = (
  (omega arith, omega arith, omega arith, omega arith, omega arith, refl),
  ((omega arith, omega arith, omega arith, omega arith, omega arith, refl), tt),
)

persist-IsSynced_example :
    IsSynced
      (persist (write_anchor_blob no_faults) idle ((two_hash, two_cells) ∷ []) [] new_sidecar).1
      (persist (write_anchor_blob no_faults) idle ((two_hash, two_cells) ∷ []) [] new_sidecar).0
persist-IsSynced_example =
    persist-IsSynced no_faults idle ((two_hash, two_cells) ∷ []) [] new_sidecar no_faults-Works
      new_sidecar-IsSynced idle-AreCheckpoints

-- What the eviction leaves, as the references of the grid and the sidecar.
abbrev evicted : List AnchorRef × Sidecar
evicted = persist (write_anchor_blob no_faults) idle ((two_hash, two_cells) ∷ []) [] new_sidecar

evicted-IsSynced : IsSynced evicted.1 evicted.0
evicted-IsSynced =
    persist-IsSynced no_faults idle ((two_hash, two_cells) ∷ []) [] new_sidecar no_faults-Works
      new_sidecar-IsSynced idle-AreCheckpoints

scan_data-torn_example :
    scan_data (evicted.1.file ++ take 21 (full_record 180_000 9 (3 ∷ 4 ∷ [])))
    ≡ (evicted.0, evicted.1.blobs)
unfolding le
scan_data-torn_example =
    scan_data-torn evicted.1 evicted.0 180_000 9 21 (3 ∷ 4 ∷ []) evicted-IsSynced (omega arith)
      (omega arith) (omega arith) (omega arith)

-- The second reference, a reuse of the first one's blob.
abbrev second : AnchorRef
second = record { ts_ms = 120_000; off = 20; len = 2; hash = two_hash }
