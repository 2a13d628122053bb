-- ===== src/Game/Anchors.antt =====
-- internal/game/anchors.go: the checkpoint bitmaps of the history view, one for each minute, pooled by
-- content hash and evicted to a sidecar file. Times are not negative. The hook `onEvict` is a
-- parameter over the state `F` of what it writes to; a nil hook is one that always fails.
pub mod Boundary
pub mod Covered
pub mod Pool
pub mod Retention
pub mod Search
mod Tests
use Prim.Native.Nat.{bit_xor}
use pixel_beetle.Prelude.{
  ℕ, zero, suc, ◌+◌, ◌-◌, ◌*◌, ◌/◌, ◌%◌, ◌^◌, Bool, true, false, not, ◌&&◌, Option, none, some,
  List, [], ◌∷◌, ◌++◌, map, Table, lookup, insert, ltb, leb, ◌==◌, if◌then◌else◌, length, take,
  drop, contains,
}

abbrev pub anchor_interval_ms : ℕ
anchor_interval_ms = 60_000

abbrev pub anchor_max : ℕ
anchor_max = 1440

abbrev pub max_anchor_pool_size : ℕ
max_anchor_pool_size = 192 * 2 ^ 20

pub record Anchor : Type 0 where
  pub ts_ms : ℕ
  pub hash : ℕ

pub record AnchorRef : Type 0 where
  pub ts_ms : ℕ
  pub off : ℕ
  pub len : ℕ
  pub hash : ℕ

pub record AnchorGrid : Type 0 where
  pub list : List Anchor
  pub pool : Table (List ℕ)
  pub pool_bytes : ℕ
  pub next_boundary : ℕ
  pub evicted : List AnchorRef

-- The hook takes the time, the hash and the bitmap, and returns the offset and length of the blob.
abbrev pub OnEvict : Type 0 → Type 0
OnEvict F = ℕ → ℕ → List ℕ → F → Option (ℕ × ℕ) × F

-- One round of FNV-1a on 64-bit words.
abbrev pub fnv_round : ℕ → ℕ → ℕ
fnv_round h c = bit_xor h c * 1099511628211 % 2 ^ 64

pub fnv_from : ℕ → List ℕ → ℕ
fnv_from h [] = h
fnv_from h (c ∷ b) = fnv_from (fnv_round h c) b

unfoldable pub bmp_hash : List ℕ → ℕ
unfolding fnv_from
bmp_hash = fnv_from 14695981039346656037

-- A bitmap that the pool lacks is nil.
abbrev pub bytes_of : Option (List ℕ) → List ℕ
bytes_of none = []
bytes_of (some b) = b

abbrev pub hashes : List Anchor → List ℕ
hashes = map (λ a. a.hash)

-- The loop of the byte cap in `evict`, from `n` anchors with `k` of them dropped.
unfoldable pub byte_cap : ℕ → ℕ → ℕ → ℕ → ℕ
byte_cap zero pool_bytes n k = k
byte_cap (suc fuel) pool_bytes n k = elim (ltb max_anchor_pool_size pool_bytes && ltb 1 (n - k)) [
  | true ↦ byte_cap fuel pool_bytes n (k + 1)
  | false ↦ k
]

-- How many anchors `evict` drops.
unfoldable pub overflow : AnchorGrid → ℕ
unfolding byte_cap
overflow g =
    let n = length g.list in
    byte_cap n g.pool_bytes n (if ltb anchor_max n then n - anchor_max else 0)

-- The last loop of `evict`: the bitmaps that stay, and the bytes of those that go.
unfoldable pub sweep : List ℕ → Table (List ℕ) → Table (List ℕ)
sweep referenced [] = []
sweep referenced ((h, b) ∷ pool) =
    let rest = sweep referenced pool in if contains referenced h then (h, b) ∷ rest else rest

unfoldable pub swept_bytes : List ℕ → Table (List ℕ) → ℕ
swept_bytes referenced [] = 0
swept_bytes referenced ((h, b) ∷ pool) =
    (if contains referenced h then 0 else length b) + swept_bytes referenced pool

abbrev pub add_ref : Anchor → Option (ℕ × ℕ) → List AnchorRef → List AnchorRef
add_ref a none refs = refs
add_ref a (some (off, len)) refs =
    refs ++ record { ts_ms = a.ts_ms; off = off; len = len; hash = a.hash } ∷ []

abbrev pub pooled : ℕ → List ℕ → Option (List ℕ) → AnchorGrid → AnchorGrid
pooled h bmp none g = record g {
  pool = insert h bmp g.pool;
  pool_bytes = g.pool_bytes + length bmp;
}
pooled h bmp (some _) g = g

abbrev pub recorded : ℕ → List ℕ → AnchorGrid → AnchorGrid
recorded ts_ms bmp g =
    let h = bmp_hash bmp in
    let g' = pooled h bmp (lookup h g.pool) g in
    record g' { list = g'.list ++ record { ts_ms = ts_ms; hash = h } ∷ [] }

abbrev pub fill_fuel : ℕ → ℕ
fill_fuel ms = ms / anchor_interval_ms + 1

module _ {F : Type 0} (on_evict : OnEvict F) where
  -- The loop over the dropped anchors.
  unfoldable pub persist : List Anchor → Table (List ℕ) → List AnchorRef → F → List AnchorRef × F
  persist [] pool refs f = (refs, f)
  persist (a ∷ dropped) pool refs f =
      let (loc, f') = on_evict a.ts_ms a.hash (bytes_of (lookup a.hash pool)) f in
      persist dropped pool (add_ref a loc refs) f'

  unfoldable pub evict_first : ℕ → AnchorGrid → F → AnchorGrid × F
  evict_first k g f =
      let kept = drop k g.list in
      let (refs, f') = persist (take k g.list) g.pool g.evicted f in
      (
        record g {
          list = kept;
          pool = sweep (hashes kept) g.pool;
          pool_bytes = g.pool_bytes - swept_bytes (hashes kept) g.pool;
          evicted = refs;
        },
        f',
      )

  unfoldable pub evict : AnchorGrid → F → AnchorGrid × F
  evict g f = if overflow g == 0 then (g, f) else evict_first (overflow g) g f

  -- `insert` of the source.
  unfoldable pub insert_anchor : ℕ → List ℕ → AnchorGrid → F → AnchorGrid × F
  insert_anchor ts_ms bmp g f = evict (recorded ts_ms bmp g) f

  -- The loop of `syncTo` and of `fillTo`: a checkpoint at every boundary up to `ms`.
  unfoldable pub fill : ℕ → ℕ → List ℕ → AnchorGrid → F → AnchorGrid × F
  fill zero ms bmp g f = (g, f)
  fill (suc fuel) ms bmp g f = elim (leb g.next_boundary ms) [
    | false ↦ (g, f)
    | true ↦
        let (g', f') = insert_anchor g.next_boundary bmp g f in
        fill fuel ms bmp (record g' { next_boundary = g'.next_boundary + anchor_interval_ms }) f'
  ]

  unfoldable pub sync_to : ℕ → List ℕ → AnchorGrid → F → AnchorGrid × F
  sync_to event_ts_ns bmp g f =
      let ms = event_ts_ns / 1_000_000 in
      let first = ms / anchor_interval_ms * anchor_interval_ms in
      let g' = (if g.next_boundary == 0 then record g { next_boundary = first } else g) in
      fill (fill_fuel ms) ms bmp g' f

  unfoldable pub fill_to : ℕ → List ℕ → AnchorGrid → F → AnchorGrid × F
  fill_to ms bmp g f = if g.next_boundary == 0 then (g, f) else fill (fill_fuel ms) ms bmp g f

-- The binary search of `checkpoint`: how many anchors stand at or before `ts_ms`.
abbrev pub ts_at : List Anchor → ℕ → ℕ
ts_at [] i = 0
ts_at (a ∷ l) zero = a.ts_ms
ts_at (a ∷ l) (suc i) = ts_at l i

unfoldable pub search_loop : ℕ → List Anchor → ℕ → ℕ → ℕ → ℕ
search_loop zero l ts_ms lo hi = lo
search_loop (suc fuel) l ts_ms lo hi = elim (ltb lo hi) [
  | false ↦ lo
  | true ↦ elim (leb (ts_at l ((lo + hi) / 2)) ts_ms) [
    | true ↦ search_loop fuel l ts_ms ((lo + hi) / 2 + 1) hi
    | false ↦ search_loop fuel l ts_ms lo ((lo + hi) / 2)
  ]
]

abbrev pub anchor_at : List Anchor → ℕ → Option Anchor
anchor_at [] i = none
anchor_at (a ∷ l) zero = some a
anchor_at (a ∷ l) (suc i) = anchor_at l i

abbrev pub checkpoint_of : Option Anchor → Table (List ℕ) → Option (List ℕ × ℕ)
checkpoint_of none pool = none
checkpoint_of (some a) pool = elim (lookup a.hash pool) [
  | none ↦ none
  | some b ↦ some (b, a.ts_ms * 1_000_000)
]

abbrev pub before : ℕ → List Anchor → Option Anchor
before zero l = none
before (suc i) l = anchor_at l i

-- The bitmap and the first nanosecond that it does not cover; `none` is `ok == false`.
unfoldable pub checkpoint : ℕ → AnchorGrid → Option (List ℕ × ℕ)
unfolding search_loop
checkpoint ts_ms g =
    let n = length g.list in checkpoint_of (before (search_loop n g.list ts_ms 0 n) g.list) g.pool

abbrev pub newer : ℕ → AnchorRef → Option AnchorRef → Option AnchorRef
newer ts_ms ref none = if leb ref.ts_ms ts_ms then some ref else none
newer ts_ms ref (some best) =
    if leb ref.ts_ms ts_ms && ltb best.ts_ms ref.ts_ms then some ref else some best

unfoldable pub newest : ℕ → List AnchorRef → Option AnchorRef → Option AnchorRef
newest ts_ms [] best = best
newest ts_ms (ref ∷ refs) best = newest ts_ms refs (newer ts_ms ref best)

-- `none` is that nothing was found.
unfoldable pub sidecar_at : ℕ → AnchorGrid → Option AnchorRef
unfolding newest
sidecar_at ts_ms g = newest ts_ms g.evicted none

abbrev pub empty_grid : AnchorGrid
empty_grid = record { list = []; pool = []; pool_bytes = 0; next_boundary = 0; evicted = [] }
