-- ===== src/Game/Sidecar/Sync.antt =====
-- `writeAnchorBlob`, the scan at boot and the reads (internal/game/persist.go) keep one index: the
-- references that the grid has collected.
use pixel_beetle.Prelude.{
  ℕ, zero, suc, ◌+◌, ◌≤◌, ◌<◌, ◌≡◌, refl, sym, ap, subst, ◌∙◌, ◌⊎◌, inl, inr, true, false, Option,
  none, some, List, [], ◌∷◌, ◌++◌, Table, lookup, insert, lookup-insert, arith, ◌==◌, ◌||◌, length,
  get_elem?, take, IsU64, Option-cases, Bool-cases,
}
use pixel_beetle.Game.Anchors.{
  Anchor, AnchorRef, bmp_hash, max_anchor_pool_size, persist, add_ref, bytes_of,
}
use pixel_beetle.Game.Sidecar.{
  AnchorBlobLoc, Sidecar, SidecarIo, open_sidecar, write_record_header, full_record, is_known,
  append_record, put_blob, end_loc, write_anchor_blob, read_anchor_blob, scan_data,
}
use pixel_beetle.Game.Sidecar.Format.{
  ref_to, loc_behind, Written, reuse_record, blob_record, scan_data-Written, scan_record-torn,
}
use pixel_beetle.Game.Sidecar.Index.{IsStored, AllStored, Written-stored}

-- The file is whole and `refs` is its index. A hash of 0 stands for no last hash.
pub record IsSynced (f : Sidecar) (refs : List AnchorRef) : Type 0 where
  pub count : ℕ
  pub records : Written f.file f.blobs refs count
  pub last : (f.last_hash ≡ 0) ⊎ (is_known (lookup f.last_hash f.blobs) ≡ true)

-- No call fails.
abbrev pub Works : SidecarIo → Sidecar → Type 0
Works io f =
    (f.configured ≡ true)
    × (open_sidecar io f ≡ some (record f { is_open = true }))
    × (io.seek_fails ≡ false)
    × (io.write_fails ≡ false)

-- What the grid hands to the hook: a bitmap and its content hash.
abbrev pub IsCheckpoint : ℕ → ℕ → List ℕ → Type 0
IsCheckpoint ts_ms h bmp =
    IsU64 ts_ms
    × IsU64 h
    × (0 < h)
    × (0 < length bmp)
    × (length bmp ≤ max_anchor_pool_size)
    × (bmp_hash bmp ≡ h)

-- The result of a write, and the state it leaves.
abbrev pub IsStamped : ℕ → ℕ → List AnchorRef → Option (ℕ × ℕ) × Sidecar → Type 0
IsStamped ts_ms h refs (r, f) =
    (loc : AnchorBlobLoc) × (r ≡ some (loc.off, loc.len))
    × IsSynced f (refs ++ ref_to ts_ms h loc ∷ [])

-- A hash that the table lacks is not the last one.
is_fresh :
    (h : ℕ) (f : Sidecar)
    → (f.last_hash ≡ 0) ⊎ (is_known (lookup f.last_hash f.blobs) ≡ true)
    → 0 < h
    → lookup h f.blobs ≡ none
    → (h == f.last_hash) ≡ false
is_fresh h f (inl e) z n = ground (arith, e, z)
is_fresh h f (inr k) z n = elim (Bool-cases (h == f.last_hash)) [
  | inl t ↦
      let same : f.last_hash ≡ h = ground (arith, t) in
      let known = subst (λ j. is_known (lookup j f.blobs) ≡ true) same k in
      absurd (ground (arith, n, known))
  | inr t ↦ t
]

abbrev stamped : ℕ → ℕ → Sidecar → Sidecar
stamped ts_ms h f = record f { file = f.file ++ write_record_header ts_ms h 0; last_hash = h }

abbrev stored : ℕ → ℕ → List ℕ → AnchorBlobLoc → Sidecar → Sidecar
stored ts_ms h bmp loc f = record f {
  file = f.file ++ full_record ts_ms h bmp;
  blobs = insert h loc f.blobs;
  last_hash = h;
}

put_blob-known :
    (io : SidecarIo) (ts_ms h : ℕ) (bmp : List ℕ) (f : Sidecar) (loc : AnchorBlobLoc)
    → io.write_fails ≡ false
    → lookup h f.blobs ≡ some loc
    → put_blob io ts_ms h bmp f ≡ (some (loc.off, loc.len), stamped ts_ms h f)
put_blob-known io ts_ms h bmp f loc nf k = ground (arith, nf, k)

put_blob-fresh :
    (io : SidecarIo) (ts_ms h : ℕ) (bmp : List ℕ) (f : Sidecar)
    → io.write_fails ≡ false
    → lookup h f.blobs ≡ none
    → (h == f.last_hash) ≡ false
    → put_blob io ts_ms h bmp f
      ≡ (some ((end_loc f bmp).off, (end_loc f bmp).len), stored ts_ms h bmp (end_loc f bmp) f)
put_blob-fresh io ts_ms h bmp f nf n e = rw (e, n) rw (append_record, nf) refl

put_blob-IsStamped :
    (io : SidecarIo) (ts_ms h : ℕ) (bmp : List ℕ) (f : Sidecar) (refs : List AnchorRef)
    → IsSynced f refs
    → io.write_fails ≡ false
    → IsCheckpoint ts_ms h bmp
    → IsStamped ts_ms h refs (put_blob io ts_ms h bmp f)
put_blob-IsStamped io ts_ms h bmp f refs s nf (p, q, z, o, m, e) =
    elim (Option-cases (lookup h f.blobs)) [
      | inl n ↦
          let loc = loc_behind f.file bmp in
          let fits : loc ≡ end_loc f bmp =
            ap (λ l. record { off = length f.file + 20; len = l }) (omega (arith, m)) in
          let is = put_blob-fresh io ts_ms h bmp f nf n (is_fresh h f s.last z n) in
          subst (λ r. IsStamped ts_ms h refs r)
            (ap (λ l. (some (l.off, l.len), stored ts_ms h bmp l f)) fits ∙ sym is)
            (
              loc,
              refl,
              record {
                count = suc s.count;
                records = blob_record ts_ms h bmp s.records p q o m e;
                last = inr (ground (arith, lookup-insert h h loc f.blobs));
              },
            )
      | inr (loc, k) ↦
          subst (λ r. IsStamped ts_ms h refs r) (sym (put_blob-known io ts_ms h bmp f loc nf k))
            (
              loc,
              refl,
              record {
                count = suc s.count;
                records = reuse_record ts_ms h loc s.records p q k;
                last = inr (ground (arith, k));
              },
            )
    ]

-- A write of a checkpoint with no failing call returns the location of its blob, and the file stays
-- whole: its index is the old one and the new reference.
pub write_anchor_blob-IsSynced :
    (io : SidecarIo) (ts_ms h : ℕ) (bmp : List ℕ) (f : Sidecar) (refs : List AnchorRef)
    → Works io f
    → IsSynced f refs
    → IsCheckpoint ts_ms h bmp
    → IsStamped ts_ms h refs (write_anchor_blob io ts_ms h bmp f)
unfolding write_anchor_blob
write_anchor_blob-IsSynced io ts_ms h bmp f refs (c, o, k, nf) s p =
    let f' : Sidecar = record f { is_open = true } in
    let opened : IsSynced f' refs = record {
      count = s.count;
      records = s.records;
      last = s.last;
    } in
    let is : write_anchor_blob io ts_ms h bmp f ≡ put_blob io ts_ms h bmp f' =
      ground (arith, c, o, k) in
    subst (λ r. IsStamped ts_ms h refs r) (sym is)
      (put_blob-IsStamped io ts_ms h bmp f' refs opened nf p)

-- The scan of a file of whole records and a torn one, as a crash in a write leaves it, finds the
-- index of the whole records.
pub scan_data-torn :
    (f : Sidecar) (refs : List AnchorRef) (ts_ms h m : ℕ) (bmp : List ℕ)
    → IsSynced f refs
    → IsU64 ts_ms
    → IsU64 h
    → length bmp ≤ max_anchor_pool_size
    → m < length (full_record ts_ms h bmp)
    → scan_data (f.file ++ take m (full_record ts_ms h bmp)) ≡ (refs, f.blobs)
scan_data-torn f refs ts_ms h m bmp s p q o b =
    scan_data-Written s.records (take m (full_record ts_ms h bmp))
      (scan_record-torn (length f.file) ts_ms h m bmp f.blobs p q o b)

-- A process that starts on the file of another.
abbrev pub rebooted : Sidecar → Sidecar
rebooted f = record { configured = true; is_open = false; file = f.file; blobs = []; last_hash = 0 }

IsStored-get_elem? :
    (file : List ℕ) (refs : List AnchorRef) (i : ℕ) {ref : AnchorRef}
    → AllStored file refs
    → get_elem? refs i ≡ some ref
    → IsStored file ref.off ref.len ref.hash
IsStored-get_elem? file [] i h e = absurd (ground (arith, e))
IsStored-get_elem? file (r ∷ refs) zero {ref} h e =
    let same : r ≡ ref = ground (arith, e) in subst (λ x. IsStored file x.off x.len x.hash) same h.0
IsStored-get_elem? file (r ∷ refs) (suc i) h e = IsStored-get_elem? file refs i h.1 e

-- Behind a scan, every reference of the index reads back a bitmap with its hash.
pub read_anchor_blob-IsSynced :
    (io : SidecarIo) (f : Sidecar) (refs : List AnchorRef) (i : ℕ) (ref : AnchorRef)
    → IsSynced f refs
    → (f.configured ≡ true)
    → (open_sidecar io f ≡ some (record f { is_open = true }))
    → get_elem? refs i ≡ some ref
    → (bmp : List ℕ) × ((read_anchor_blob io ref f).0 ≡ some bmp) × (bmp_hash bmp ≡ ref.hash)
unfolding read_anchor_blob
read_anchor_blob-IsSynced io f refs i ref s c o e =
    let (bmp, at, q, z, m, b) = IsStored-get_elem? f.file refs i (Written-stored s.records).1 e in
    (bmp, ground (arith, c, o, at, q, z, m), q)

-- The checkpoints that the eviction hands over, each with its bitmap in the pool.
abbrev pub AreCheckpoints : List Anchor → Table (List ℕ) → Type 0
AreCheckpoints [] pool = Unit
AreCheckpoints (a ∷ l) pool =
    IsCheckpoint a.ts_ms a.hash (bytes_of (lookup a.hash pool)) × AreCheckpoints l pool

stays_open :
    (io : SidecarIo) (ts_ms h : ℕ) (bmp : List ℕ) (f : Sidecar)
    → Works io f
    → ((write_anchor_blob io ts_ms h bmp f).1.configured ≡ true)
      × ((write_anchor_blob io ts_ms h bmp f).1.is_open ≡ true)
unfolding write_anchor_blob
stays_open io ts_ms h bmp f (c, o, k, nf) =
    let f' : Sidecar = record f { is_open = true } in
    let is : write_anchor_blob io ts_ms h bmp f ≡ put_blob io ts_ms h bmp f' =
      ground (arith, c, o, k) in
    elim (Bool-cases (h == f.last_hash || is_known (lookup h f.blobs))) [
      | inl t ↦ (ground (arith, is, t, c, nf), ground (arith, is, t, c, nf))
      | inr t ↦ (ground (arith, is, t, c, nf), ground (arith, is, t, c, nf))
    ]

open_Works :
    (io : SidecarIo) (f g : Sidecar)
    → Works io f
    → g.configured ≡ true
    → g.is_open ≡ true
    → Works io g
open_Works io f g (_, _, k, nf) c o =
    (c, ground (arith, o) ∙ ap (λ b. some (record g { is_open = b })) o, k, nf)

-- An eviction of checkpoints, in which no system call fails, to a sidecar whose index is that of the
-- grid: the index that the grid has afterwards is the index of the file.
pub persist-IsSynced :
    (io : SidecarIo) (dropped : List Anchor) (pool : Table (List ℕ)) (refs : List AnchorRef)
    (f : Sidecar)
    → Works io f
    → IsSynced f refs
    → AreCheckpoints dropped pool
    → IsSynced
        (persist (write_anchor_blob io) dropped pool refs f).1
        (persist (write_anchor_blob io) dropped pool refs f).0
unfolding persist
persist-IsSynced io [] pool refs f w s h = s
persist-IsSynced io (a ∷ l) pool refs f w s h =
    let bmp = bytes_of (lookup a.hash pool) in
    let f' = (write_anchor_blob io a.ts_ms a.hash bmp f).1 in
    let (c, o) = stays_open io a.ts_ms a.hash bmp f w in
    let (loc, e, s') = write_anchor_blob-IsSynced io a.ts_ms a.hash bmp f refs w s h.0 in
    subst
      (λ r.
        IsSynced (persist (write_anchor_blob io) l pool (add_ref a r refs) f').1
          (persist (write_anchor_blob io) l pool (add_ref a r refs) f').0)
      (sym e)
      (persist-IsSynced io l pool (refs ++ ref_to a.ts_ms a.hash loc ∷ []) f'
        (open_Works io f f' w c o) s' h.1)
