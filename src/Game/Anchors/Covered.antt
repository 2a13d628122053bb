-- ===== src/Game/Anchors/Covered.antt =====
-- What the checkpoints of internal/game/anchors.go hold: where the bitmap that is synced is a canvas over
-- time, each is that canvas at its boundary.
use pixel_beetle.Prelude.{
  ℕ, zero, suc, ◌+◌, ◌-◌, ◌*◌, ◌/◌, ◌≤◌, ◌≡◌, refl, sym, ap, subst, ◌∙◌, ◌⊎◌, inl, inr, Option,
  none, some, List, [], ◌∷◌, ◌++◌, lookup, arith, ltb, leb, ◌==◌, Bool-cases, Option-cases, length,
  drop, lookup-insert,
}
use pixel_beetle.Game.Anchors.{
  Anchor, AnchorGrid, OnEvict, bytes_of, bmp_hash, anchor_interval_ms, hashes, overflow, pooled,
  recorded, evict_first, evict, insert_anchor, fill, fill_fuel, sync_to, fill_to, ts_at,
  search_loop, anchor_at, checkpoint_of, before, checkpoint,
}
use pixel_beetle.Game.Anchors.Boundary.{next_boundary-insert_anchor}
use pixel_beetle.Game.Anchors.Pool.{lookup-sweep}

-- The nanosecond at which a minute boundary in milliseconds begins.
abbrev pub start_of : ℕ → ℕ
start_of ms = ms * 1_000_000

module _ (canvas : ℕ → List ℕ) where
  abbrev pub AreListed : List Anchor → Type 0
  AreListed [] = Unit
  AreListed (a ∷ l) = (a.hash ≡ bmp_hash (canvas (start_of a.ts_ms))) × AreListed l

  -- The list names the canvas at each boundary, and the pool holds canvases under their hashes.
  pub record IsCovered (g : AnchorGrid) : Type 0 where
    pub listed : AreListed g.list
    pub kept :
        (h : ℕ) (b : List ℕ)
        → lookup h g.pool ≡ some b
        → (i : ℕ) × (b ≡ canvas i) × (h ≡ bmp_hash b)

  listed-append :
      (l : List Anchor) (a : Anchor)
      → AreListed l
      → a.hash ≡ bmp_hash (canvas (start_of a.ts_ms))
      → AreListed (l ++ a ∷ [])
  listed-append [] a h k = (k, tt)
  listed-append (x ∷ l) a (h, hs) k = (h, listed-append l a hs k)

  listed-drop : (k : ℕ) (l : List Anchor) → AreListed l → AreListed (drop k l)
  listed-drop zero l h = h
  listed-drop (suc k) [] h = tt
  listed-drop (suc k) (x ∷ l) (h, hs) = listed-drop k l hs

  pooled-kept :
      (ts : ℕ) (bmp : List ℕ) (g : AnchorGrid) (o : Option (List ℕ))
      → canvas (start_of ts) ≡ bmp
      → IsCovered g
      → IsCovered (pooled (bmp_hash bmp) bmp o g)
  pooled-kept ts bmp g (some b) e c = c
  pooled-kept ts bmp g none e c = record {
    listed = c.listed;
    kept = λ h b found.
        let inserted = lookup-insert (bmp_hash bmp) h bmp g.pool in
        elim (Bool-cases (bmp_hash bmp == h)) [
          | inl t ↦
              let same : bmp ≡ b =
                ap bytes_of {x = some bmp} {y = some b} (ground (arith, inserted, t, found)) in
              subst (λ x. (i : ℕ) × (x ≡ canvas i) × (h ≡ bmp_hash x)) same
                (start_of ts, sym e, ground (arith, t))
          | inr t ↦ c.kept h b (ground (arith, inserted, t, found))
        ];
  }

  list-pooled :
      (h : ℕ) (bmp : List ℕ) (o : Option (List ℕ)) (g : AnchorGrid)
      → (pooled h bmp o g).list ≡ g.list
  list-pooled h bmp none g = refl
  list-pooled h bmp (some b) g = refl

  recorded-IsCovered :
      (ts : ℕ) (bmp : List ℕ) (g : AnchorGrid)
      → canvas (start_of ts) ≡ bmp
      → IsCovered g
      → IsCovered (recorded ts bmp g)
  recorded-IsCovered ts bmp g e c =
      let p = pooled-kept ts bmp g (lookup (bmp_hash bmp) g.pool) e c in
      record {
        listed =
            listed-append _ (record { ts_ms = ts; hash = bmp_hash bmp }) p.listed
              (ap bmp_hash (sym e));
        kept = p.kept;
      }

  module _ {F : Type 0} (on_evict : OnEvict F) where
    evict_first-IsCovered :
        (k : ℕ) (g : AnchorGrid) (f : F) → IsCovered g → IsCovered (evict_first on_evict k g f).0
    unfolding evict_first
    evict_first-IsCovered k g f c = record {
      listed = listed-drop k g.list c.listed;
      kept = λ h b found.
          c.kept h b (ground (arith, lookup-sweep (hashes (drop k g.list)) h g.pool, found));
    }

    insert_anchor-IsCovered :
        (ts : ℕ) (bmp : List ℕ) (g : AnchorGrid) (f : F)
        → canvas (start_of ts) ≡ bmp
        → IsCovered g
        → IsCovered (insert_anchor on_evict ts bmp g f).0
    unfolding insert_anchor evict
    insert_anchor-IsCovered ts bmp g f e c =
        let r = recorded-IsCovered ts bmp g e c in
        elim (Bool-cases (overflow (recorded ts bmp g) == 0)) [
          | inl t ↦ rw t r
          | inr t ↦
              rw t (evict_first-IsCovered (overflow (recorded ts bmp g)) (recorded ts bmp g) f r)
        ]

    -- The canvas does not change from the next boundary up to `ms`.
    pub fill-IsCovered :
        (fuel ms : ℕ) (bmp : List ℕ) (g : AnchorGrid) (f : F)
        → ((i : ℕ) → g.next_boundary ≤ i → i ≤ ms → canvas (start_of i) ≡ bmp)
        → IsCovered g
        → IsCovered (fill on_evict fuel ms bmp g f).0
          × (g.next_boundary ≤ (fill on_evict fuel ms bmp g f).0.next_boundary)
    unfolding fill
    fill-IsCovered zero ms bmp g f e c = (c, omega arith)
    fill-IsCovered (suc fuel) ms bmp g f e c = elim (Bool-cases (leb g.next_boundary ms)) [
      | inr t ↦ rw (fill, t) (c, omega arith)
      | inl t ↦
          let (g', f') = insert_anchor on_evict g.next_boundary bmp g f in
          let same = next_boundary-insert_anchor on_evict g.next_boundary bmp g f in
          let d' =
            insert_anchor-IsCovered g.next_boundary bmp g f
              (e g.next_boundary (omega arith) (ground (arith, t))) c in
          let (d, later) =
            fill-IsCovered fuel ms bmp
              (record g' { next_boundary = g'.next_boundary + anchor_interval_ms }) f'
              (λ i low high. e i (omega (arith, low, same)) high)
              (record { listed = d'.listed; kept = d'.kept }) in
          rw (fill, t) (d, omega (arith, later, same))
    ]

    pub sync_to-IsCovered :
        (ts : ℕ) (bmp : List ℕ) (g : AnchorGrid) (f : F)
        → ((i : ℕ) → g.next_boundary ≤ i → i ≤ ts / 1_000_000 → canvas (start_of i) ≡ bmp)
        → IsCovered g
        → IsCovered (sync_to on_evict ts bmp g f).0
          × (g.next_boundary ≤ (sync_to on_evict ts bmp g f).0.next_boundary)
    unfolding sync_to
    sync_to-IsCovered ts bmp g f e c =
        let ms = ts / 1_000_000 in
        let first = ms / anchor_interval_ms * anchor_interval_ms in
        elim (Bool-cases (g.next_boundary == 0)) [
          | inl t ↦
              let (d, later) =
                fill-IsCovered (fill_fuel ms) ms bmp (record g { next_boundary = first }) f
                  (λ i low high. e i (ground (arith, t)) high)
                  (record { listed = c.listed; kept = c.kept }) in
              rw t (d, ground (arith, t))
          | inr t ↦ rw t (fill-IsCovered (fill_fuel ms) ms bmp g f e c)
        ]

    pub fill_to-IsCovered :
        (ms : ℕ) (bmp : List ℕ) (g : AnchorGrid) (f : F)
        → ((i : ℕ) → g.next_boundary ≤ i → canvas (start_of i) ≡ bmp)
        → IsCovered g
        → IsCovered (fill_to on_evict ms bmp g f).0
    unfolding fill_to
    fill_to-IsCovered ms bmp g f e c = elim (Bool-cases (g.next_boundary == 0)) [
      | inl t ↦ rw t c
      | inr t ↦ rw t (fill-IsCovered (fill_fuel ms) ms bmp g f (λ i low high. e i low) c).0
    ]

  -- An anchor that the list may name, and its time.
  IsNamed : Option Anchor → ℕ → Type 0
  IsNamed none ts = Unit
  IsNamed (some a) ts = (a.hash ≡ bmp_hash (canvas (start_of a.ts_ms))) × (a.ts_ms ≡ ts)

  anchor_at-IsNamed : (l : List Anchor) (i : ℕ) → AreListed l → IsNamed (anchor_at l i) (ts_at l i)
  unfolding IsNamed
  anchor_at-IsNamed [] i h = tt
  anchor_at-IsNamed (x ∷ l) zero (h, hs) = (h, refl)
  anchor_at-IsNamed (x ∷ l) (suc i) (h, hs) = anchor_at-IsNamed l i hs

  -- No two canvases over time have the same hash.
  abbrev pub NoCollision : Type 0
  NoCollision = (i j : ℕ) → bmp_hash (canvas i) ≡ bmp_hash (canvas j) → canvas i ≡ canvas j

  search_loop-le :
      (fuel : ℕ) (l : List Anchor) (ts lo hi : ℕ)
      → (lo ≡ 0) ⊎ (ts_at l (lo - 1) ≤ ts)
      → (search_loop fuel l ts lo hi ≡ 0) ⊎ (ts_at l (search_loop fuel l ts lo hi - 1) ≤ ts)
  unfolding search_loop
  search_loop-le zero l ts lo hi h = h
  search_loop-le (suc fuel) l ts lo hi h = elim (Bool-cases (ltb lo hi)) [
    | inr t ↦ rw (search_loop, t) h
    | inl t ↦ elim (Bool-cases (leb (ts_at l ((lo + hi) / 2)) ts)) [
      | inl u ↦
          rw (search_loop, t) rw u
            (search_loop-le fuel l ts ((lo + hi) / 2 + 1) hi (
              inr (
                subst (λ i. ts_at l i ≤ ts) {x = (lo + hi) / 2} {y = (lo + hi) / 2 + 1 - 1}
                  (omega arith) (ground (arith, u)))))
      | inr u ↦ rw (search_loop, t) rw u (search_loop-le fuel l ts lo ((lo + hi) / 2) h)
    ]
  ]

  -- What `checkpoint` finds for a time is the canvas before the nanosecond that comes with it, which is
  -- not past the time.
  abbrev pub IsCanvas : ℕ → Option (List ℕ × ℕ) → Type 0
  IsCanvas ts none = Unit
  IsCanvas ts (some (bmp, from)) = (bmp ≡ canvas from) × (from ≤ start_of ts)

  checkpoint_of-IsCanvas :
      (o : Option Anchor) (g : AnchorGrid) (ts ts' : ℕ)
      → NoCollision
      → IsCovered g
      → IsNamed o ts'
      → ts' ≤ ts
      → IsCanvas ts (checkpoint_of o g.pool)
  unfolding IsNamed
  checkpoint_of-IsCanvas none g ts ts' distinct c h le = tt
  checkpoint_of-IsCanvas (some a) g ts ts' distinct c (h, same) le =
      elim (Option-cases (lookup a.hash g.pool)) [
        | inl f ↦ rw (IsCanvas, f) tt
        | inr (b, f) ↦
            let (i, e, hashed) = c.kept a.hash b f in
            rw (IsCanvas, f)
              (
                e ∙ distinct i (start_of a.ts_ms) (ap bmp_hash (sym e) ∙ sym hashed ∙ h),
                omega (arith, same, le),
              )
      ]

  before-IsCanvas :
      (n ts : ℕ) (g : AnchorGrid)
      → NoCollision
      → IsCovered g
      → (n ≡ 0) ⊎ (ts_at g.list (n - 1) ≤ ts)
      → IsCanvas ts (checkpoint_of (before n g.list) g.pool)
  before-IsCanvas zero ts g distinct c h = tt
  before-IsCanvas (suc i) ts g distinct c (inl z) = absurd (omega (arith, z))
  before-IsCanvas (suc i) ts g distinct c (inr le) =
      checkpoint_of-IsCanvas (anchor_at g.list i) g ts (ts_at g.list i) distinct c
        (anchor_at-IsNamed g.list i c.listed)
        (subst (λ j. ts_at g.list j ≤ ts) {x = suc i - 1} {y = i} (omega arith) le)

  pub checkpoint-IsCanvas :
      (ts : ℕ) (g : AnchorGrid) → NoCollision → IsCovered g → IsCanvas ts (checkpoint ts g)
  unfolding checkpoint
  checkpoint-IsCanvas ts g distinct c =
      let n = length g.list in
      before-IsCanvas (search_loop n g.list ts 0 n) ts g distinct c
        (search_loop-le n g.list ts 0 n (inl refl))
