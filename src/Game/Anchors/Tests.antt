-- ===== src/Game/Anchors/Tests.antt =====
-- The checkpoint grid of internal/game/anchors.go at concrete inputs.
use pixel_beetle.Prelude.{
  ℕ, zero, suc, ◌≤◌, ◌≡◌, refl, none, some, List, [], ◌∷◌, ◌++◌, lookup, arith, length, drop,
  insert, erase,
}
use pixel_beetle.Game.Anchors.{
  AnchorGrid, OnEvict, empty_grid, checkpoint_of, checkpoint, bmp_hash, insert_anchor, sync_to,
  anchor_max, max_anchor_pool_size, fill, evict, overflow,
}
use pixel_beetle.Game.Anchors.Pool.{total}
use pixel_beetle.Game.Anchors.Search.{IsSorted, latest, checkpoint-latest}
use pixel_beetle.Game.Anchors.Retention.{IsPooled, insert_anchor-IsPooled}

-- The sidecar of the tests: the bitmaps one behind the other.
abbrev append_blob : OnEvict (List ℕ)
append_blob ts hash bmp f = (some (length f, length bmp), f ++ bmp)

-- Two checkpoints a minute apart, and the bitmap of the first one only in the pool twice over.
abbrev two_anchors : AnchorGrid
two_anchors = record empty_grid {
  list = record { ts_ms = 60_000; hash = 11 } ∷ record { ts_ms = 120_000; hash = 12 } ∷ [];
  pool = (11, 0 ∷ 1 ∷ []) ∷ (12, 2 ∷ 1 ∷ []) ∷ [];
  pool_bytes = 4;
  next_boundary = 180_000;
}

two_anchors-IsSorted : IsSorted two_anchors.list
two_anchors-IsSorted zero zero le lt = omega arith
two_anchors-IsSorted zero (suc zero) le lt = omega arith
two_anchors-IsSorted (suc zero) zero le lt = absurd (omega arith)
two_anchors-IsSorted (suc zero) (suc zero) le lt = omega arith
two_anchors-IsSorted (suc (suc i)) j le lt = absurd (omega arith)
two_anchors-IsSorted zero (suc (suc j)) le lt = absurd (omega arith)
two_anchors-IsSorted (suc zero) (suc (suc j)) le lt = absurd (omega arith)

checkpoint-latest_example :
    checkpoint 119_999 two_anchors
    ≡ checkpoint_of (latest 119_999 two_anchors.list) two_anchors.pool
checkpoint-latest_example = checkpoint-latest 119_999 two_anchors two_anchors-IsSorted

checkpoint_at : checkpoint 119_999 two_anchors ≡ some (0 ∷ 1 ∷ [], 60_000_000_000)
unfolding checkpoint lookup
checkpoint_at = refl

checkpoint_before : checkpoint 59_999 two_anchors ≡ none
unfolding checkpoint lookup
checkpoint_before = refl

-- A first event at 3:20 starts the grid at that minute, with the bitmap before the event.
first_sync :
    (sync_to append_blob 200_000_000_000 (5 ∷ []) empty_grid []).0.list
    ≡ record { ts_ms = 180_000; hash = bmp_hash (5 ∷ []) } ∷ []
unfolding sync_to fill insert_anchor evict overflow lookup insert erase
first_sync = refl

empty-IsPooled : IsPooled empty_grid
unfolding lookup total
empty-IsPooled = record { present = λ h c. ground arith; keyed = λ h b e. cc; sized = refl }

abbrev one_anchor : AnchorGrid
one_anchor = (insert_anchor append_blob 60_000 (0 ∷ 1 ∷ []) empty_grid []).0

one_anchor-IsPooled : IsPooled one_anchor
one_anchor-IsPooled =
    (insert_anchor-IsPooled append_blob 60_000 (0 ∷ 1 ∷ []) empty_grid [] empty-IsPooled
      (omega arith)).0

one_anchor-fits : length one_anchor.list ≤ anchor_max
one_anchor-fits =
    (insert_anchor-IsPooled append_blob 60_000 (0 ∷ 1 ∷ []) empty_grid [] empty-IsPooled
      (omega arith)).1

insert_anchor-IsPooled_example :
    IsPooled (insert_anchor append_blob 120_000 (2 ∷ 1 ∷ []) one_anchor []).0
    × (length (insert_anchor append_blob 120_000 (2 ∷ 1 ∷ []) one_anchor []).0.list ≤ anchor_max)
    × (k : ℕ) × (k ≤ length one_anchor.list)
    × ((insert_anchor append_blob 120_000 (2 ∷ 1 ∷ []) one_anchor []).0.list
        ≡ drop k one_anchor.list ++ record { ts_ms = 120_000; hash = bmp_hash (2 ∷ 1 ∷ []) } ∷ [])
insert_anchor-IsPooled_example =
    insert_anchor-IsPooled append_blob 120_000 (2 ∷ 1 ∷ []) one_anchor [] one_anchor-IsPooled
      one_anchor-fits

-- A pool at the cap.
abbrev full_pool : AnchorGrid
full_pool = record two_anchors { pool_bytes = max_anchor_pool_size }
