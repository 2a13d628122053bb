-- ===== src/Game/Anchors/Retention.antt =====
-- What `insert` of internal/game/anchors.go keeps: the pool stays in step with the list, the caps hold, and
-- what the byte cap does to the list.
use pixel_beetle.Prelude.{
  drop-append_le, ℕ, ◌≤◌, ◌<◌, ◌≡◌, ◌≢◌, refl, ap, ◌∙◌, inl, inr, true, ◌||◌, none, some, List, [],
  ◌∷◌, ◌++◌, lookup, arith, ◌==◌, Bool-cases, Option-cases, length, drop, contains, length-append,
  length-drop, lookup-insert,
}
use pixel_beetle.Game.Anchors.{
  Anchor, AnchorGrid, OnEvict, anchor_max, max_anchor_pool_size, bmp_hash, hashes, overflow,
  evict_first, evict, recorded, insert_anchor,
}
use pixel_beetle.Game.Anchors.Pool.{
  total, lookup-sweep, total-sweep, total-insert, contains-drop, overflow_bounds, overflow_over,
}

-- Every listed checkpoint has its bitmap in the pool, the pool's bitmaps hash to their keys, and the
-- byte count is that of the pool.
pub record IsPooled (g : AnchorGrid) : Type 0 where
  pub present : (h : ℕ) → contains (hashes g.list) h ≡ true → lookup h g.pool ≢ none
  pub keyed : (h : ℕ) (b : List ℕ) → lookup h g.pool ≡ some b → bmp_hash b ≡ h
  pub sized : g.pool_bytes ≡ total g.pool

hashes-append :
    (l : List Anchor) (a : Anchor) (h : ℕ)
    → contains (hashes (l ++ a ∷ [])) h ≡ (contains (hashes l) h || a.hash == h)
hashes-append [] a h = ground arith
hashes-append (x ∷ l) a h = ground (arith, hashes-append l a h)

drop_all : (l : List Anchor) → drop (length l) l ≡ []
drop_all [] = refl
drop_all (x ∷ l) = drop_all l

recorded-IsPooled :
    (ts : ℕ) (bmp : List ℕ) (g : AnchorGrid) → IsPooled g → IsPooled (recorded ts bmp g)
recorded-IsPooled ts bmp g v = elim (Option-cases (lookup (bmp_hash bmp) g.pool)) [
  | inl new ↦
      rw (new, recorded)
        (record {
          present = λ h c. ground (
            arith,
            v.present h,
            hashes-append g.list (record { ts_ms = ts; hash = bmp_hash bmp }) h,
            lookup-insert (bmp_hash bmp) h bmp g.pool,
          );
          keyed = λ h b e. ground (arith, v.keyed h b, lookup-insert (bmp_hash bmp) h bmp g.pool);
          sized = ground (arith, total-insert (bmp_hash bmp) bmp g.pool new, v.sized);
        })
  | inr (b, old) ↦
      rw (old, recorded)
        (record {
          present = λ h c. ground (
            arith,
            v.present h,
            hashes-append g.list (record { ts_ms = ts; hash = bmp_hash bmp }) h,
          );
          keyed = v.keyed;
          sized = v.sized;
        })
]

module _ {F : Type 0} (on_evict : OnEvict F) where
  evict_first-IsPooled :
      (k : ℕ) (g : AnchorGrid) (f : F) → IsPooled g → IsPooled (evict_first on_evict k g f).0
  unfolding evict_first
  evict_first-IsPooled k g f v =
      let refs = hashes (drop k g.list) in
      record {
        present = λ h c.
            ground (arith, v.present h, contains-drop k h g.list, lookup-sweep refs h g.pool);
        keyed = λ h b e. ground (arith, v.keyed h b, lookup-sweep refs h g.pool);
        sized = ground (arith, v.sized, total-sweep refs g.pool);
      }

  evict-IsPooled : (g : AnchorGrid) (f : F) → IsPooled g → IsPooled (evict on_evict g f).0
  unfolding evict
  evict-IsPooled g f v = elim (Bool-cases (overflow g == 0)) [
    | inl nothing ↦ rw nothing v
    | inr some_go ↦ rw some_go (evict_first-IsPooled (overflow g) g f v)
  ]

  list-evict : (g : AnchorGrid) (f : F) → (evict on_evict g f).0.list ≡ drop (overflow g) g.list
  unfolding evict evict_first
  list-evict g f = elim (Bool-cases (overflow g == 0)) [
    | inl nothing ↦ let e : overflow g ≡ 0 = ground arith in rw (nothing, evict) (rw e refl)
    | inr some_go ↦ rw (some_go, evict) refl
  ]

  list-recorded :
      (ts : ℕ) (bmp : List ℕ) (g : AnchorGrid)
      → (recorded ts bmp g).list ≡ g.list ++ record { ts_ms = ts; hash = bmp_hash bmp } ∷ []
  list-recorded ts bmp g = ground arith

  list-insert_anchor :
      (ts : ℕ) (bmp : List ℕ) (g : AnchorGrid) (f : F)
      → (overflow (recorded ts bmp g) ≤ length g.list)
        × ((insert_anchor on_evict ts bmp g f).0.list
            ≡ drop (overflow (recorded ts bmp g)) g.list
              ++ record { ts_ms = ts; hash = bmp_hash bmp } ∷ [])
  unfolding insert_anchor
  list-insert_anchor ts bmp g f =
      let a : Anchor = record { ts_ms = ts; hash = bmp_hash bmp } in
      let k = overflow (recorded ts bmp g) in
      let e = list-recorded ts bmp g in
      let fits : k ≤ length g.list =
        omega (
          arith,
          overflow_bounds (recorded ts bmp g),
          ap length e,
          length-append g.list (a ∷ []),
        ) in
      (
        fits,
        list-evict (recorded ts bmp g) f ∙ ap (drop k) e ∙ drop-append_le k g.list (a ∷ []) fits,
      )

  -- After `insert` on a grid in order that lists at most `anchor_max` checkpoints: every listed
  -- checkpoint still has a bitmap in the pool, which hashes to its key, and the byte count is the
  -- pool's; at most `anchor_max` checkpoints are listed; and they are the old ones without some of
  -- the oldest, in their order, with the new one behind them, which is never evicted.
  pub insert_anchor-IsPooled :
      (ts : ℕ) (bmp : List ℕ) (g : AnchorGrid) (f : F)
      → IsPooled g
      → length g.list ≤ anchor_max
      → IsPooled (insert_anchor on_evict ts bmp g f).0
        × (length (insert_anchor on_evict ts bmp g f).0.list ≤ anchor_max)
        × (k : ℕ) × (k ≤ length g.list)
        × ((insert_anchor on_evict ts bmp g f).0.list
            ≡ drop k g.list ++ record { ts_ms = ts; hash = bmp_hash bmp } ∷ [])
  unfolding insert_anchor
  insert_anchor-IsPooled ts bmp g f v h =
      let a : Anchor = record { ts_ms = ts; hash = bmp_hash bmp } in
      let k = overflow (recorded ts bmp g) in
      let l = list-insert_anchor ts bmp g f in
      (
        evict-IsPooled (recorded ts bmp g) f (recorded-IsPooled ts bmp g v),
        omega (
          arith,
          overflow_bounds (recorded ts bmp g),
          ap length (list-recorded ts bmp g),
          ap length l.1,
          length-append g.list (a ∷ []),
          length-append (drop k g.list) (a ∷ []),
          length-drop k g.list,
        ),
        k,
        l.0,
        l.1,
      )

  -- When an insert takes the pool's bytes over their cap, the list is left with the new checkpoint
  -- alone: the loop of the byte cap tests a count that its body does not change.
  pub insert_anchor-over :
      (ts : ℕ) (bmp : List ℕ) (g : AnchorGrid) (f : F)
      → max_anchor_pool_size < (recorded ts bmp g).pool_bytes
      → (insert_anchor on_evict ts bmp g f).0.list ≡ record { ts_ms = ts; hash = bmp_hash bmp } ∷ []
  insert_anchor-over ts bmp g f over =
      let a : Anchor = record { ts_ms = ts; hash = bmp_hash bmp } in
      let l = list-insert_anchor ts bmp g f in
      let all : overflow (recorded ts bmp g) ≡ length g.list = omega (
        arith,
        overflow_over (recorded ts bmp g) over,
        ap length (list-recorded ts bmp g),
        length-append g.list (a ∷ []),
      ) in
      l.1 ∙ ap (λ k. drop k g.list ++ a ∷ []) all ∙ ap (λ rest. rest ++ a ∷ []) (drop_all g.list)
