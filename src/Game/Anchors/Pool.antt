-- ===== src/Game/Anchors/Pool.antt =====
-- The retention caps and the bitmap pool of internal/game/anchors.go: `insert` and `evict`.
use pixel_beetle.Prelude.{
  ℕ, zero, suc, ◌+◌, ◌-◌, ◌≤◌, ◌<◌, ◌≡◌, refl, inl, inr, true, ◌&&◌, none, List, [], ◌∷◌, Table,
  lookup, insert, erase, arith, ltb, Bool-cases, if◌then◌else◌, length, drop, contains,
}
use pixel_beetle.Game.Anchors.{
  Anchor, AnchorGrid, anchor_max, max_anchor_pool_size, hashes, byte_cap, overflow, sweep,
  swept_bytes,
}

-- The bytes of the pool.
unfoldable pub total : Table (List ℕ) → ℕ
total [] = 0
total ((h, b) ∷ pool) = length b + total pool

pub lookup-sweep :
    (refs : List ℕ) (h : ℕ) (pool : Table (List ℕ))
    → lookup h (sweep refs pool) ≡ (if contains refs h then lookup h pool else none)
unfolding lookup sweep
lookup-sweep refs h [] = ground arith
lookup-sweep refs h ((j, b) ∷ pool) = ground (arith, lookup-sweep refs h pool)

pub total-sweep :
    (refs : List ℕ) (pool : Table (List ℕ))
    → total (sweep refs pool) + swept_bytes refs pool ≡ total pool
unfolding total sweep swept_bytes
total-sweep refs [] = refl
total-sweep refs ((j, b) ∷ pool) = ground (arith, total-sweep refs pool)

erase-absent : (h : ℕ) (pool : Table (List ℕ)) → lookup h pool ≡ none → erase h pool ≡ pool
unfolding lookup erase
erase-absent h [] e = refl
erase-absent h ((j, b) ∷ pool) e = ground (arith, erase-absent h pool)

pub total-insert :
    (h : ℕ) (b : List ℕ) (pool : Table (List ℕ))
    → lookup h pool ≡ none
    → total (insert h b pool) ≡ total pool + length b
unfolding total insert
total-insert h b pool e = rw (erase-absent h pool e) (omega arith)

pub contains-drop :
    (k h : ℕ) (l : List Anchor)
    → contains (hashes (drop k l)) h ≡ true
    → contains (hashes l) h ≡ true
contains-drop zero h l c = c
contains-drop (suc k) h [] c = c
contains-drop (suc k) h (a ∷ l) c = ground (arith, contains-drop k h l)

-- The byte cap drops at least what the entry cap does, and never the last anchor.
byte_cap-le :
    (fuel pool_bytes n k : ℕ)
    → k ≤ n - 1
    → (k ≤ byte_cap fuel pool_bytes n k) × (byte_cap fuel pool_bytes n k ≤ n - 1)
unfolding byte_cap
byte_cap-le zero pool_bytes n k h = omega arith
byte_cap-le (suc fuel) pool_bytes n k h =
    elim (Bool-cases (ltb max_anchor_pool_size pool_bytes && ltb 1 (n - k))) [
      | inl more ↦ rw (more, byte_cap) (ground (arith, byte_cap-le fuel pool_bytes n (k + 1)))
      | inr done ↦ rw (done, byte_cap) (omega arith)
    ]

-- While the pool is over its cap the loop goes on to the last anchor.
byte_cap-over :
    (fuel pool_bytes n k : ℕ)
    → max_anchor_pool_size < pool_bytes
    → k ≤ n - 1
    → n ≤ fuel + k
    → byte_cap fuel pool_bytes n k ≡ n - 1
unfolding byte_cap
byte_cap-over zero pool_bytes n k over h enough = omega arith
byte_cap-over (suc fuel) pool_bytes n k over h enough =
    elim (Bool-cases (ltb max_anchor_pool_size pool_bytes && ltb 1 (n - k))) [
      | inl more ↦
          rw (more, byte_cap)
            (byte_cap-over fuel pool_bytes n (k + 1) over (ground arith) (omega arith))
      | inr done ↦ rw (done, byte_cap) (ground arith)
    ]

pub overflow_bounds :
    (g : AnchorGrid) → (length g.list - anchor_max ≤ overflow g) × (overflow g ≤ length g.list - 1)
unfolding overflow
overflow_bounds g = ground (
  arith,
  byte_cap-le (length g.list) g.pool_bytes (length g.list) (length g.list - anchor_max),
  byte_cap-le (length g.list) g.pool_bytes (length g.list) 0,
)

pub overflow_over :
    (g : AnchorGrid) → max_anchor_pool_size < g.pool_bytes → overflow g ≡ length g.list - 1
unfolding overflow
overflow_over g over = ground (
  arith,
  byte_cap-over (length g.list) g.pool_bytes (length g.list) (length g.list - anchor_max),
  byte_cap-over (length g.list) g.pool_bytes (length g.list) 0,
)
