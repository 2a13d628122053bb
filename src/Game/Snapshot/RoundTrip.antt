-- ===== src/Game/Snapshot/RoundTrip.antt =====
-- What `loadSnapshotFile` reads back of what `SaveSnapshot` wrote (internal/game/persist.go).
use mathlib.Core.List.{append_assoc, append-nil}
use pixel_beetle.Prelude.{
  ℕ, ◌+◌, ◌*◌, ◌/◌, ◌^◌, ◌<◌, ◌≡◌, refl, subst, ◌∙◌, inl, inr, true, Option, none, some, List, [],
  ◌∷◌, ◌++◌, Table, lookup, insert, lookup-insert, arith, Option-cases, length, length-append,
  IsU64, word8, word4, IsWord, le, length-le, read_full, read_le, read_full-append, read_le-le,
}
use pixel_beetle.Game.Anchors.{Anchor, empty_grid}
use pixel_beetle.Game.Anchors.Pool.{total}
use pixel_beetle.Game.Service.{Service}
use pixel_beetle.Game.Warm.{Build}
use pixel_beetle.Game.Snapshot.{
  snapshot_magic, write_anchors, write_pool, write_header, write_snapshot, Header, header_fields,
  read_anchors, read_pool, is_pooled, all_pooled, resume_boundary, read_body, load_snapshot,
  load_header, load_body,
}

abbrev pub AreWords : List Anchor → Type 0
AreWords [] = Unit
AreWords (a ∷ l) = IsU64 a.ts_ms × IsU64 a.hash × AreWords l

read_anchors-write_anchors :
    (l : List Anchor) (rest : List ℕ)
    → AreWords l
    → read_anchors (length l) (write_anchors l ++ rest) ≡ some (l, rest)
unfolding read_anchors write_anchors
read_anchors-write_anchors [] rest h = refl
read_anchors-write_anchors (a ∷ l) rest h = ground (
  arith,
  append_assoc (le 8 a.ts_ms) (le 8 a.hash ++ write_anchors l) rest,
  read_le-le 8 a.ts_ms ((le 8 a.hash ++ write_anchors l) ++ rest) (word8 a.ts_ms h.0),
  append_assoc (le 8 a.hash) (write_anchors l) rest,
  read_le-le 8 a.hash (write_anchors l ++ rest) (word8 a.hash h.1),
  read_anchors-write_anchors l rest,
)

-- The keys and the sizes of the pool fit, and no key stands there twice.
abbrev pub IsPoolSaveable : Table (List ℕ) → Type 0
IsPoolSaveable [] = Unit
IsPoolSaveable ((h, b) ∷ p) = IsU64 h × (length b < 2 ^ 32) × (lookup h p ≡ none) × IsPoolSaveable p

-- The table that the loop of the loader makes.
abbrev restored : Table (List ℕ) → Table (List ℕ) → Table (List ℕ)
restored [] acc = acc
restored ((h, b) ∷ p) acc = restored p (insert h b acc)

read_pool-write_pool :
    (p : Table (List ℕ)) (rest : List ℕ) (acc : Table (List ℕ)) (bytes : ℕ)
    → IsPoolSaveable p
    → read_pool (length p) (acc, bytes) (write_pool p ++ rest)
      ≡ some ((restored p acc, bytes + total p), rest)
unfolding read_pool write_pool total
read_pool-write_pool [] rest acc bytes h = ground arith
read_pool-write_pool ((k, b) ∷ p) rest acc bytes h = ground (
  arith,
  append_assoc (le 8 k) (le 4 (length b) ++ (b ++ write_pool p)) rest,
  read_le-le 8 k ((le 4 (length b) ++ (b ++ write_pool p)) ++ rest) (word8 k h.0),
  append_assoc (le 4 (length b)) (b ++ write_pool p) rest,
  read_le-le 4 (length b) ((b ++ write_pool p) ++ rest) (word4 (length b) h.1),
  append_assoc b (write_pool p) rest,
  read_full-append b (write_pool p ++ rest) (length b) refl,
  read_pool-write_pool p rest (insert k b acc) (bytes + length b) h.3,
)

abbrev or_else : Option (List ℕ) → Option (List ℕ) → Option (List ℕ)
or_else none b = b
or_else (some a) b = some a

lookup-restored :
    (p acc : Table (List ℕ)) (k : ℕ)
    → IsPoolSaveable p
    → lookup k (restored p acc) ≡ or_else (lookup k p) (lookup k acc)
unfolding lookup
lookup-restored [] acc k h = refl
lookup-restored ((j, b) ∷ p) acc k h =
    ground (arith, lookup-restored p (insert j b acc) k h.3, lookup-insert j k b acc, h.2)

-- What fits into the fields of the format.
pub record IsSaveable (v : Service) : Type 0 where
  pub times : IsU64 v.warm_ts × IsU64 v.first_paint_ms × IsU64 v.last_paint_ms
  pub sides : (v.grid_w < 2 ^ 32) × (v.grid_h < 2 ^ 32)
  pub cells : length v.bmp ≡ v.grid_w * v.grid_h
  pub few : IsU64 (length v.bmp) × IsU64 (length v.ag.list) × IsU64 (length v.ag.pool)
  pub anchors : AreWords v.ag.list
  pub pool : IsPoolSaveable v.ag.pool
  pub present : all_pooled v.ag.pool v.ag.list ≡ true

abbrev header_of : Service → Header
header_of v = record {
  warm_ts = v.warm_ts;
  grid_w = v.grid_w;
  grid_h = v.grid_h;
  first_paint = v.first_paint_ms;
  last_paint = v.last_paint_ms;
  bmp_len = length v.bmp;
}

length-write_header : (v : Service) → length (write_header v) ≡ 48
unfolding write_header
length-write_header v =
    let t6 = le 8 v.last_paint_ms ++ le 8 (length v.bmp) in
    let t5 = le 8 v.first_paint_ms ++ t6 in
    let t4 = le 4 v.grid_h ++ t5 in
    let t3 = le 4 v.grid_w ++ t4 in
    omega (
      arith,
      length-append (le 8 v.warm_ts) t3,
      length-append (le 4 v.grid_w) t4,
      length-append (le 4 v.grid_h) t5,
      length-append (le 8 v.first_paint_ms) t6,
      length-append (le 8 v.last_paint_ms) (le 8 (length v.bmp)),
      length-le 8 v.warm_ts,
      length-le 4 v.grid_w,
      length-le 4 v.grid_h,
      length-le 8 v.first_paint_ms,
      length-le 8 v.last_paint_ms,
      length-le 8 (length v.bmp),
    )

read_le_all : (n v : ℕ) → IsWord n v → read_le n (le n v) ≡ some (v, [])
read_le_all n v h =
    subst (λ s. read_le n s ≡ some (v, [])) (append-nil (le n v)) (read_le-le n v [] h)

read_magic : (rest : List ℕ) → read_full 8 (snapshot_magic ++ rest) ≡ some (snapshot_magic, rest)
read_magic rest = read_full-append snapshot_magic rest 8 refl

header_fields-write_header :
    (v : Service) → IsSaveable v → header_fields (write_header v) ≡ some (header_of v, [])
unfolding header_fields write_header
header_fields-write_header v s =
    let t6 = le 8 v.last_paint_ms ++ le 8 (length v.bmp) in
    let t5 = le 8 v.first_paint_ms ++ t6 in
    let t4 = le 4 v.grid_h ++ t5 in
    let t3 = le 4 v.grid_w ++ t4 in
    ground (
      arith,
      read_magic (le 8 v.warm_ts ++ t3),
      read_le-le 8 v.warm_ts t3 (word8 v.warm_ts s.times.0),
      read_le-le 4 v.grid_w t4 (word4 v.grid_w s.sides.0),
      read_le-le 4 v.grid_h t5 (word4 v.grid_h s.sides.1),
      read_le-le 8 v.first_paint_ms t6 (word8 v.first_paint_ms s.times.1),
      read_le-le 8 v.last_paint_ms (le 8 (length v.bmp)) (word8 v.last_paint_ms s.times.2),
      read_le_all 8 (length v.bmp) (word8 (length v.bmp) s.few.0),
    )

write_body : Service → List ℕ
write_body v =
    v.bmp
    ++ (le 8 (length v.ag.list)
        ++ (write_anchors v.ag.list ++ (le 8 (length v.ag.pool) ++ write_pool v.ag.pool)))

-- What the loader makes of the snapshot of `v`.
abbrev pub build_of : Service → Build
build_of v = record {
  bmp = v.bmp;
  ag = record empty_grid {
    list = v.ag.list;
    pool = restored v.ag.pool [];
    pool_bytes = total v.ag.pool;
    next_boundary = resume_boundary (v.warm_ts / 1_000_000) v.ag.list;
  };
  first_paint = v.first_paint_ms;
  last_paint = v.last_paint_ms;
  last_ts = v.warm_ts;
}

read_pool_all :
    (p : Table (List ℕ))
    → IsPoolSaveable p
    → read_pool (length p) ([], 0) (write_pool p) ≡ some ((restored p [], total p), [])
read_pool_all p h =
    subst (λ s. read_pool (length p) ([], 0) s ≡ some ((restored p [], total p), []))
      (append-nil (write_pool p)) (read_pool-write_pool p [] [] 0 h ∙ ground arith)

read_body-write_body :
    (v : Service) → IsSaveable v → read_body (header_of v) (write_body v) ≡ some (build_of v, [])
unfolding read_body write_body
read_body-write_body v s =
    let t4 = le 8 (length v.ag.pool) ++ write_pool v.ag.pool in
    let t3 = write_anchors v.ag.list ++ t4 in
    let t2 = le 8 (length v.ag.list) ++ t3 in
    ground (
      arith,
      read_full-append v.bmp t2 (length v.bmp) refl,
      read_le-le 8 (length v.ag.list) t3 (word8 (length v.ag.list) s.few.1),
      read_anchors-write_anchors v.ag.list t4 s.anchors,
      read_le-le 8 (length v.ag.pool) (write_pool v.ag.pool) (word8 (length v.ag.pool) s.few.2),
      read_pool_all v.ag.pool s.pool,
    )

pooled-restored :
    (p : Table (List ℕ)) (k : ℕ) → IsPoolSaveable p → is_pooled (restored p []) k ≡ is_pooled p k
unfolding lookup
pooled-restored p k h = elim (Option-cases (lookup k p)) [
  | inl e ↦ ground (arith, lookup-restored p [] k h, e)
  | inr (b, e) ↦ ground (arith, lookup-restored p [] k h, e)
]

all_pooled-restored :
    (p : Table (List ℕ)) (l : List Anchor)
    → IsPoolSaveable p
    → all_pooled (restored p []) l ≡ all_pooled p l
unfolding all_pooled
all_pooled-restored p [] h = refl
all_pooled-restored p (a ∷ l) h = rw (pooled-restored p a.hash h, all_pooled-restored p l h) refl

split_header : (v : Service) → read_full 48 (write_snapshot v) ≡ some (write_header v, write_body v)
unfolding write_snapshot write_body
split_header v = read_full-append (write_header v) (write_body v) 48 (length-write_header v)

-- The snapshot of a service whose sizes fit into the fields, and whose anchors all have a bitmap,
-- loads on a server with the same grid: bitmap, times and anchors as saved, and a pool that holds the same bitmap under every hash.
pub load_snapshot-write_snapshot :
    (v : Service)
    → IsSaveable v
    → (load_snapshot v.grid_w v.grid_h (write_snapshot v) ≡ some (build_of v))
      × ((k : ℕ) → lookup k (build_of v).ag.pool ≡ lookup k v.ag.pool)
unfolding load_snapshot lookup
load_snapshot-write_snapshot v s = (
  rw (split_header v, load_header) rw (header_fields-write_header v s, load_body) ground
      (
        arith,
        s.cells,
        read_body-write_body v s,
        all_pooled-restored v.ag.pool v.ag.list s.pool,
        s.present,
      ),
  λ k. ground (arith, lookup-restored v.ag.pool [] k s.pool),
)
