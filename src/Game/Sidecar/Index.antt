-- ===== src/Game/Sidecar/Index.antt =====
-- The index of evicted checkpoints in memory and the sidecar file (internal/game/persist.go): the
-- writes of `writeAnchorBlob`, the scan at boot, and the reads of `readAnchorBlobLocked`.
use mathlib.Core.List.{append-nil}
use pixel_beetle.Prelude.{
  ℕ, ◌+◌, ◌≤◌, ◌<◌, ◌≡◌, refl, sym, ap, subst, ◌∙◌, inl, inr, some, List, [], ◌∷◌, ◌++◌, Table,
  lookup, insert, lookup-insert, arith, ◌==◌, length, length-append, drop, drop-append,
  drop-append_le, read_full, read_full-append, read_full-more, Option-cases, Bool-cases,
}
use pixel_beetle.Game.Anchors.{AnchorRef, bmp_hash, max_anchor_pool_size}
use pixel_beetle.Game.Sidecar.{AnchorBlobLoc, write_record_header, full_record, taken, read_at}
use pixel_beetle.Game.Sidecar.Format.{
  ref_to, loc_behind, Written, no_records, reuse_record, blob_record, length-write_record_header,
  length-full_record,
}

-- A bitmap of the given hash stands at a location of the file.
abbrev pub IsStored : List ℕ → ℕ → ℕ → ℕ → Type 0
IsStored file off len h =
    (bmp : List ℕ) × (read_at off len file ≡ some bmp)
    × (bmp_hash bmp ≡ h)
    × (0 < len)
    × (len ≤ max_anchor_pool_size)
    × (off + len ≤ length file)

abbrev pub AllStored : List ℕ → List AnchorRef → Type 0
AllStored file [] = Unit
AllStored file (ref ∷ refs) = IsStored file ref.off ref.len ref.hash × AllStored file refs

read_at-append :
    (off len : ℕ) (s t : List ℕ) {bmp : List ℕ}
    → off + len ≤ length s
    → read_at off len s ≡ some bmp
    → read_at off len (s ++ t) ≡ some bmp
unfolding read_at
read_at-append off len s t {bmp} h e = elim (Option-cases (read_full len (drop off s))) [
  | inl n ↦ absurd (ground (arith, n, e))
  | inr ((b, r), n) ↦
      ap (λ f. taken (read_full len f)) (drop-append_le off s t (omega (arith, h)))
      ∙ ap taken (read_full-more len (drop off s) t n)
      ∙ (sym (ap taken n) ∙ e)
]

IsStored-append :
    (off len h : ℕ) (s t : List ℕ) → IsStored s off len h → IsStored (s ++ t) off len h
IsStored-append off len h s t (bmp, e, q, z, m, b) =
    (bmp, read_at-append off len s t b e, q, z, m, omega (arith, length-append s t, b))

AllStored-append :
    (refs : List AnchorRef) (s t : List ℕ) → AllStored s refs → AllStored (s ++ t) refs
AllStored-append [] s t h = tt
AllStored-append (ref ∷ refs) s t h =
    (IsStored-append ref.off ref.len ref.hash s t h.0, AllStored-append refs s t h.1)

AllStored-snoc :
    (refs : List AnchorRef) (s : List ℕ) (ref : AnchorRef)
    → AllStored s refs
    → IsStored s ref.off ref.len ref.hash
    → AllStored s (refs ++ ref ∷ [])
AllStored-snoc [] s ref h p = (p, tt)
AllStored-snoc (r ∷ refs) s ref h p = (h.0, AllStored-snoc refs s ref h.1 p)

-- The blob of a record at the end of a file.
read_at-full_record :
    (s bmp : List ℕ) (ts_ms h : ℕ)
    → read_at (length s + 20) (length bmp) (s ++ full_record ts_ms h bmp) ≡ some bmp
unfolding read_at
read_at-full_record s bmp ts_ms h =
    let hdr = write_record_header ts_ms h (length bmp) in
    let len : length hdr + 0 ≡ 20 =
      omega (arith, length-write_record_header ts_ms h (length bmp)) in
    ap (λ f. taken (read_full (length bmp) f))
      (drop-append 20 s (hdr ++ bmp)
        ∙ (subst (λ m. drop m (hdr ++ bmp) ≡ bmp) len (drop-append 0 hdr bmp)
            ∙ sym (append-nil bmp)))
    ∙ ap taken (read_full-append bmp [] (length bmp) refl)

IsStored-full_record :
    (s bmp : List ℕ) (ts_ms h : ℕ)
    → 0 < length bmp
    → length bmp ≤ max_anchor_pool_size
    → bmp_hash bmp ≡ h
    → IsStored (s ++ full_record ts_ms h bmp) (length s + 20) (length bmp) h
IsStored-full_record s bmp ts_ms h z m e = (
  bmp,
  read_at-full_record s bmp ts_ms h,
  e,
  z,
  m,
  omega (arith, length-append s (full_record ts_ms h bmp), length-full_record ts_ms h bmp),
)

pub AreKnown : List ℕ → Table AnchorBlobLoc → Type 0
AreKnown file blobs =
    (h : ℕ) (loc : AnchorBlobLoc) → lookup h blobs ≡ some loc → IsStored file loc.off loc.len h

AreKnown-insert :
    (file : List ℕ) (blobs : Table AnchorBlobLoc) (h : ℕ) (loc : AnchorBlobLoc)
    → AreKnown file blobs
    → IsStored file loc.off loc.len h
    → AreKnown file (insert h loc blobs)
unfolding AreKnown lookup
AreKnown-insert file blobs h loc k p j l e = elim (Bool-cases (h == j)) [
  | inl t ↦
      let same_hash : h ≡ j = ground (arith, t) in
      let same_loc : loc ≡ l = ground (arith, lookup-insert h j loc blobs, t, e) in
      subst (λ m. IsStored file m.off m.len j) same_loc
        (subst (λ m. IsStored file loc.off loc.len m) same_hash p)
  | inr t ↦ k j l (ground (arith, lookup-insert h j loc blobs, t, e))
]

-- Every blob of the table and of the references is there.
pub Written-stored :
    {s : List ℕ} {blobs : Table AnchorBlobLoc} {refs : List AnchorRef} {n : ℕ}
    → Written s blobs refs n
    → AreKnown s blobs × AllStored s refs
unfolding AreKnown lookup
Written-stored no_records = (λ h loc e. absurd (ground (arith, e)), tt)
Written-stored (reuse_record {s} {blobs} {refs} ts_ms h loc w p q e) =
    let (k, a) = Written-stored w in
    let r = write_record_header ts_ms h 0 in
    (
      λ j l x. IsStored-append l.off l.len j s r (k j l x),
      AllStored-snoc refs (s ++ r) (ref_to ts_ms h loc) (AllStored-append refs s r a)
          (IsStored-append loc.off loc.len h s r (k h loc e)),
    )
Written-stored (blob_record {s} {blobs} {refs} ts_ms h bmp w p q o m e) =
    let (k, a) = Written-stored w in
    let r = full_record ts_ms h bmp in
    let here = IsStored-full_record s bmp ts_ms h o m e in
    (
      AreKnown-insert (s ++ r) blobs h (loc_behind s bmp)
          (λ j l x. IsStored-append l.off l.len j s r (k j l x)) here,
      AllStored-snoc refs (s ++ r) (ref_to ts_ms h (loc_behind s bmp)) (AllStored-append refs s r a)
          here,
    )
