-- ===== src/Game/Snapshot.antt =====
-- The state snapshot of internal/game/persist.go: `SaveSnapshot` and `loadSnapshotFile`. The entries of
-- the pool are written in the order of the table. Every error of the loader is `none`; its result is
-- what Game/Warm folds into. Times are below 2 ^ 63.
pub mod RoundTrip
pub mod Saving
mod Tests
use pixel_beetle.Prelude.{
  ℕ, zero, suc, ◌+◌, ◌*◌, ◌/◌, Bool, true, false, not, ◌&&◌, Option, none, some, List, [], ◌∷◌,
  ◌++◌, Table, lookup, insert, ◌==◌, if◌then◌else◌, length, same_bytes, le, le_value, Reader, ◌>>=◌,
  ◌>>◌, pure, require, read_full, read_le,
}
use pixel_beetle.Game.Anchors.{Anchor, AnchorGrid, anchor_interval_ms, empty_grid}
use pixel_beetle.Game.Service.{Service}
use pixel_beetle.Game.Warm.{Build}

-- "PBSSNAP2"
abbrev pub snapshot_magic : List ℕ
snapshot_magic = 80 ∷ 66 ∷ 83 ∷ 83 ∷ 78 ∷ 65 ∷ 80 ∷ 50 ∷ []

abbrev pub snapshot_header_size : ℕ
snapshot_header_size = 48

-- The loops of `SaveSnapshot` over the anchors and over the pool.
unfoldable pub write_anchors : List Anchor → List ℕ
write_anchors [] = []
write_anchors (a ∷ l) = le 8 a.ts_ms ++ (le 8 a.hash ++ write_anchors l)

unfoldable pub write_pool : Table (List ℕ) → List ℕ
write_pool [] = []
write_pool ((h, b) ∷ pool) = le 8 h ++ (le 4 (length b) ++ (b ++ write_pool pool))

unfoldable pub write_header : Service → List ℕ
write_header v =
    snapshot_magic
    ++ (le 8 v.warm_ts
        ++ (le 4 v.grid_w
            ++ (le 4 v.grid_h
                ++ (le 8 v.first_paint_ms ++ (le 8 v.last_paint_ms ++ le 8 (length v.bmp))))))

-- The bytes of the snapshot.
unfoldable pub write_snapshot : Service → List ℕ
unfolding write_header write_anchors write_pool
write_snapshot v =
    write_header v
    ++ (v.bmp
        ++ (le 8 (length v.ag.list)
            ++ (write_anchors v.ag.list ++ (le 8 (length v.ag.pool) ++ write_pool v.ag.pool))))

pub record Header : Type 0 where
  pub warm_ts : ℕ
  pub grid_w : ℕ
  pub grid_h : ℕ
  pub first_paint : ℕ
  pub last_paint : ℕ
  pub bmp_len : ℕ

-- The fields of the header, in their order.
unfoldable pub header_fields : Reader Header
header_fields = do
  magic ← read_full 8
  require (same_bytes magic snapshot_magic)
  warm_ts ← read_le 8
  grid_w ← read_le 4
  grid_h ← read_le 4
  first_paint ← read_le 8
  last_paint ← read_le 8
  bmp_len ← read_le 8
  pure (record {
    warm_ts = warm_ts;
    grid_w = grid_w;
    grid_h = grid_h;
    first_paint = first_paint;
    last_paint = last_paint;
    bmp_len = bmp_len;
  })

unfoldable pub read_anchors : ℕ → Reader (List Anchor)
read_anchors zero = pure []
read_anchors (suc n) = do
  ts ← read_le 8
  h ← read_le 8
  rest ← read_anchors n
  pure (record { ts_ms = ts; hash = h } ∷ rest)

-- The pool and its bytes so far.
unfoldable pub read_pool : ℕ → Table (List ℕ) × ℕ → Reader (Table (List ℕ) × ℕ)
read_pool zero acc = pure acc
read_pool (suc n) (pool, bytes) = do
  h ← read_le 8
  len ← read_le 4
  b ← read_full len
  read_pool n (insert h b pool, bytes + length b)

abbrev pub is_pooled : Table (List ℕ) → ℕ → Bool
is_pooled pool h = elim (lookup h pool) [ none ↦ false | some b ↦ true ]

-- The last loop of the loader: every anchor has its bitmap.
unfoldable pub all_pooled : Table (List ℕ) → List Anchor → Bool
all_pooled pool [] = true
all_pooled pool (a ∷ l) = is_pooled pool a.hash && all_pooled pool l

-- The minute after the newest anchor, or after the watermark.
unfoldable pub resume_boundary : ℕ → List Anchor → ℕ
resume_boundary ts_ms [] = (ts_ms / anchor_interval_ms + 1) * anchor_interval_ms
resume_boundary ts_ms (a ∷ l) = resume_boundary a.ts_ms l

-- The sections behind the header, up to the end of the file.
unfoldable pub read_body : Header → Reader Build
unfolding read_anchors read_pool
read_body hdr = do
  bmp ← read_full hdr.bmp_len
  anchor_count ← read_le 8
  anchors ← read_anchors anchor_count
  pool_count ← read_le 8
  (pool, pool_bytes) ← read_pool pool_count ([], 0)
  pure (record {
    bmp = bmp;
    ag = record empty_grid {
      list = anchors;
      pool = pool;
      pool_bytes = pool_bytes;
      next_boundary = resume_boundary (hdr.warm_ts / 1_000_000) anchors;
    };
    first_paint = hdr.first_paint;
    last_paint = hdr.last_paint;
    last_ts = hdr.warm_ts;
  })

abbrev pub fits_grid : ℕ → ℕ → Header → Bool
fits_grid w h hdr = hdr.grid_w == w && hdr.grid_h == h && hdr.bmp_len == hdr.grid_w * hdr.grid_h

abbrev pub is_empty_bytes : List ℕ → Bool
is_empty_bytes [] = true
is_empty_bytes (b ∷ s) = false

abbrev pub checked : Option (Build × List ℕ) → Option Build
checked none = none
checked (some (b, extra)) =
    if is_empty_bytes extra && all_pooled b.ag.pool b.ag.list then some b else none

abbrev pub load_body : ℕ → ℕ → Option (Header × List ℕ) → List ℕ → Option Build
load_body w h none s = none
load_body w h (some (hdr, _)) s = if fits_grid w h hdr then checked (read_body hdr s) else none

abbrev pub load_header : ℕ → ℕ → Option (List ℕ × List ℕ) → Option Build
load_header w h none = none
load_header w h (some (hdr, s)) = load_body w h (header_fields hdr) s

-- `loadSnapshotFile`, on the bytes of the file and the grid of the server.
unfoldable pub load_snapshot : ℕ → ℕ → List ℕ → Option Build
unfolding header_fields read_body all_pooled
load_snapshot w h s = load_header w h (read_full snapshot_header_size s)
