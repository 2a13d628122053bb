-- ===== src/Game/Sidecar.antt =====
-- The anchor sidecar file of internal/game/persist.go: `lockAnchorFile`, `writeAnchorBlob`,
-- `readAnchorBlobLocked`, `scanAnchorSidecar` and `resetAnchorSidecar`. The outcomes of the system
-- calls are parameters. Every error is `none`.
pub mod Format
pub mod Index
pub mod Sync
mod Tests
use pixel_beetle.Prelude.{
  ℕ, zero, suc, ◌+◌, ◌%◌, ◌^◌, Bool, true, false, not, ◌&&◌, ◌||◌, Option, none, some, List, [],
  ◌∷◌, ◌++◌, Table, lookup, insert, ltb, ◌==◌, if◌then◌else◌, length, take, drop, le, Reader, ◌>>=◌,
  ◌>>◌, pure, read_full, read_le,
}
use pixel_beetle.Game.Anchors.{AnchorRef, OnEvict, bmp_hash, max_anchor_pool_size}

abbrev pub anchor_rec_header : ℕ
anchor_rec_header = 20

pub record AnchorBlobLoc : Type 0 where
  pub off : ℕ
  pub len : ℕ

-- The fields of `Service` that belong to the file, and the file. `configured` is a path that is not
-- empty, `is_open` a handle that is not nil.
pub record Sidecar : Type 0 where
  pub configured : Bool
  pub is_open : Bool
  pub file : List ℕ
  pub blobs : Table AnchorBlobLoc
  pub last_hash : ℕ

-- Which calls fail. `held` says whether another process holds the lock in each round of the retries,
-- `rounds` how many rounds the deadline leaves, `torn` how much of a failed write reaches the file.
pub record SidecarIo : Type 0 where
  pub open_fails : Bool
  pub held : ℕ → Bool
  pub rounds : ℕ
  pub seek_fails : Bool
  pub write_fails : Bool
  pub torn : ℕ

unfoldable pub lock_anchor_file : (ℕ → Bool) → ℕ → ℕ → Bool
lock_anchor_file held zero i = not (held i)
lock_anchor_file held (suc n) i = elim (held i) [
  | false ↦ true
  | true ↦ lock_anchor_file held n (suc i)
]

abbrev pub open_sidecar : SidecarIo → Sidecar → Option Sidecar
open_sidecar io f =
    if f.is_open
    then some f
    else if io.open_fails
    then none
    else if lock_anchor_file io.held io.rounds 0
    then some (record f { is_open = true })
    else none

abbrev pub write_record_header : ℕ → ℕ → ℕ → List ℕ
write_record_header ts_ms h len = le 8 ts_ms ++ (le 8 h ++ le 4 len)

abbrev pub full_record : ℕ → ℕ → List ℕ → List ℕ
full_record ts_ms h bmp = write_record_header ts_ms h (length bmp) ++ bmp

abbrev pub no_loc : AnchorBlobLoc
no_loc = record { off = 0; len = 0 }

abbrev pub loc_or_zero : Option AnchorBlobLoc → AnchorBlobLoc
loc_or_zero none = no_loc
loc_or_zero (some loc) = loc

abbrev pub is_known : Option AnchorBlobLoc → Bool
is_known none = false
is_known (some loc) = true

-- The write, and what follows it.
abbrev pub append_record :
    SidecarIo → ℕ → List ℕ → AnchorBlobLoc → Sidecar → Option (ℕ × ℕ) × Sidecar
append_record io h rec loc f =
    if io.write_fails
    then (none, record f { file = f.file ++ take io.torn rec })
    else (some (loc.off, loc.len), record f { file = f.file ++ rec; last_hash = h })

-- The location of a blob behind a header at the end of the file.
abbrev pub end_loc : Sidecar → List ℕ → AnchorBlobLoc
end_loc f bmp = record { off = length f.file + anchor_rec_header; len = length bmp % 2 ^ 32 }

-- Behind the seek to the end.
abbrev pub put_blob : SidecarIo → ℕ → ℕ → List ℕ → Sidecar → Option (ℕ × ℕ) × Sidecar
put_blob io ts_ms h bmp f =
    if h == f.last_hash || is_known (lookup h f.blobs)
    then append_record io h (write_record_header ts_ms h 0) (loc_or_zero (lookup h f.blobs)) f
    else append_record io h (full_record ts_ms h bmp) (end_loc f bmp)
        (record f { blobs = insert h (end_loc f bmp) f.blobs })

abbrev pub put_opened :
    SidecarIo → ℕ → ℕ → List ℕ → Sidecar → Option Sidecar → Option (ℕ × ℕ) × Sidecar
put_opened io ts_ms h bmp f none = (none, f)
put_opened io ts_ms h bmp f (some f') =
    if io.seek_fails then (none, f') else put_blob io ts_ms h bmp f'

-- `writeAnchorBlob`, the hook of the checkpoint grid.
unfoldable pub write_anchor_blob : SidecarIo → OnEvict Sidecar
unfolding lock_anchor_file
write_anchor_blob io ts_ms h bmp f =
    if f.configured then put_opened io ts_ms h bmp f (open_sidecar io f) else (none, f)

abbrev pub taken : Option (List ℕ × List ℕ) → Option (List ℕ)
taken none = none
taken (some (bmp, _)) = some bmp

-- `ReadAt`
unfoldable pub read_at : ℕ → ℕ → List ℕ → Option (List ℕ)
read_at off len file = taken (read_full len (drop off file))

abbrev pub checked_blob : ℕ → Option (List ℕ) → Option (List ℕ)
checked_blob h none = none
checked_blob h (some bmp) = if bmp_hash bmp == h then some bmp else none

abbrev pub fetch_blob : AnchorRef → Sidecar → Option (List ℕ)
fetch_blob ref f =
    if ref.len == 0 || ltb max_anchor_pool_size ref.len
    then none
    else checked_blob ref.hash (read_at ref.off ref.len f.file)

abbrev pub fetch_opened : AnchorRef → Sidecar → Option Sidecar → Option (List ℕ) × Sidecar
fetch_opened ref f none = (none, f)
fetch_opened ref f (some f') = (fetch_blob ref f', f')

-- `readAnchorBlobLocked`
unfoldable pub read_anchor_blob : SidecarIo → AnchorRef → Sidecar → Option (List ℕ) × Sidecar
unfolding lock_anchor_file read_at
read_anchor_blob io ref f =
    if f.is_open || f.configured then fetch_opened ref f (open_sidecar io f) else (none, f)

-- The fixed part of a record, where 20 bytes are left.
unfoldable pub record_header : Reader (ℕ × ℕ × ℕ)
record_header = do ts_ms ← read_le 8; h ← read_le 8; len ← read_le 4; pure (ts_ms, h, len)

-- A blob that is not torn.
unfoldable pub skip_blob : ℕ → List ℕ → Option (List ℕ)
skip_blob len s =
    if ltb max_anchor_pool_size len
    then none
    else elim (read_full len s) [ none ↦ none | some (_, rest) ↦ some rest ]

abbrev pub Scanned : Type 0
Scanned = Option (AnchorRef × ℕ × List ℕ × Table AnchorBlobLoc)

-- A reuse record, whose blob is known or not.
abbrev pub scan_reuse : ℕ → ℕ → ℕ → List ℕ → Table AnchorBlobLoc → Option AnchorBlobLoc → Scanned
scan_reuse pos ts_ms h rest blobs none = none
scan_reuse pos ts_ms h rest blobs (some loc) = some (
  record { ts_ms = ts_ms; off = loc.off; len = loc.len; hash = h },
  pos + anchor_rec_header,
  rest,
  blobs,
)

-- A full record, and what is behind its blob.
abbrev pub scan_blob : ℕ → ℕ → ℕ → ℕ → Table AnchorBlobLoc → Option (List ℕ) → Scanned
scan_blob pos ts_ms h len blobs none = none
scan_blob pos ts_ms h len blobs (some rest) =
    let off = pos + anchor_rec_header in
    some (
      record { ts_ms = ts_ms; off = off; len = len; hash = h },
      off + len,
      rest,
      insert h (record { off = off; len = len }) blobs,
    )

abbrev pub scan_fields : ℕ → Table AnchorBlobLoc → Option ((ℕ × ℕ × ℕ) × List ℕ) → Scanned
scan_fields pos blobs none = none
scan_fields pos blobs (some ((ts_ms, h, zero), rest)) =
    scan_reuse pos ts_ms h rest blobs (lookup h blobs)
scan_fields pos blobs (some ((ts_ms, h, suc n), rest)) =
    scan_blob pos ts_ms h (suc n) blobs (skip_blob (suc n) rest)

-- The body of the loop at `pos`: the reference, the new position, rest and table, or the break.
unfoldable pub scan_record : ℕ → List ℕ → Table AnchorBlobLoc → Scanned
unfolding record_header skip_blob
scan_record pos s blobs = scan_fields pos blobs (record_header s)

-- The loop: `entries` are the references so far.
unfoldable pub scan_from :
    ℕ → ℕ → List ℕ → Table AnchorBlobLoc → List AnchorRef → List AnchorRef × Table AnchorBlobLoc
unfolding scan_record
scan_from zero pos s blobs entries = (entries, blobs)
scan_from (suc fuel) pos s blobs entries = elim (scan_record pos s blobs) [
  | none ↦ (entries, blobs)
  | some (ref, pos', rest, blobs') ↦ scan_from fuel pos' rest blobs' (entries ++ ref ∷ [])
]

abbrev pub scan_data : List ℕ → List AnchorRef × Table AnchorBlobLoc
scan_data data_bytes = scan_from (suc (length data_bytes)) 0 data_bytes [] []

abbrev pub scanned_sidecar :
    List AnchorRef × Table AnchorBlobLoc → Sidecar → Option (List AnchorRef) × Sidecar
scanned_sidecar (entries, blobs) f = (some entries, record f { blobs = blobs })

-- `scanAnchorSidecar` of a file that can be read: the entries for the grid, and the new table.
unfoldable pub scan_anchor_sidecar : Sidecar → Option (List AnchorRef) × Sidecar
unfolding scan_from
scan_anchor_sidecar f = if f.configured then scanned_sidecar (scan_data f.file) f else (none, f)

-- `resetAnchorSidecar`, where `lock_fails` is the one attempt at the lock.
unfoldable pub reset_anchor_sidecar : Bool → Bool → Sidecar → Sidecar × Bool
reset_anchor_sidecar open_fails lock_fails f =
    if not f.configured
    then (f, true)
    else if open_fails
    then (record f { is_open = false }, false)
    else if lock_fails
    then (record f { is_open = false; file = [] }, false)
    else (record f { is_open = true; file = []; blobs = []; last_hash = 0 }, true)
