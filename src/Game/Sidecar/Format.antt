-- ===== src/Game/Sidecar/Format.antt =====
-- The records of the sidecar file (internal/game/persist.go), and the scan of a file made of them.
use mathlib.Core.List.{append_assoc}
use pixel_beetle.Prelude.{
  ℕ, suc, ◌+◌, ◌≤◌, ◌<◌, ◌^◌, ◌≡◌, refl, ap, ◌∙◌, none, some, List, [], ◌∷◌, ◌++◌, Table, lookup,
  insert, arith, ltb, length, length-append, IsU64, word8, word4, le, length-le, read_le,
  read_full-append, read_le-le, read_le-length, read_full-short, take, take-append, length-take,
  Option-cases, Bool-cases, ltb→lt, inl, inr, ◌-◌,
}
use pixel_beetle.Game.Anchors.{AnchorRef, bmp_hash, max_anchor_pool_size}
use pixel_beetle.Game.Sidecar.{
  AnchorBlobLoc, anchor_rec_header, write_record_header, full_record, record_header, skip_blob,
  scan_reuse, scan_blob, scan_fields, scan_record, scan_from, scan_data,
}

abbrev pub ref_to : ℕ → ℕ → AnchorBlobLoc → AnchorRef
ref_to ts_ms h loc = record { ts_ms = ts_ms; off = loc.off; len = loc.len; hash = h }

abbrev pub loc_behind : List ℕ → List ℕ → AnchorBlobLoc
loc_behind s bmp = record { off = length s + anchor_rec_header; len = length bmp }

-- A file of `n` records, the table of its blobs and the reference of each record.
pub data Written : List ℕ → Table AnchorBlobLoc → List AnchorRef → ℕ → Type 0 where
  no_records : Written [] [] [] 0
  reuse_record :
      {s : List ℕ} {blobs : Table AnchorBlobLoc} {refs : List AnchorRef} {n : ℕ} (ts_ms h : ℕ)
      (loc : AnchorBlobLoc)
      → Written s blobs refs n
      → IsU64 ts_ms
      → IsU64 h
      → lookup h blobs ≡ some loc
      → Written (s ++ write_record_header ts_ms h 0) blobs (refs ++ ref_to ts_ms h loc ∷ []) (suc n)
  blob_record :
      {s : List ℕ} {blobs : Table AnchorBlobLoc} {refs : List AnchorRef} {n : ℕ} (ts_ms h : ℕ)
      (bmp : List ℕ)
      → Written s blobs refs n
      → IsU64 ts_ms
      → IsU64 h
      → 0 < length bmp
      → length bmp ≤ max_anchor_pool_size
      → bmp_hash bmp ≡ h
      → Written
          (s ++ full_record ts_ms h bmp)
          (insert h (loc_behind s bmp) blobs)
          (refs ++ ref_to ts_ms h (loc_behind s bmp) ∷ [])
          (suc n)

pub length-write_record_header : (ts_ms h len : ℕ) → length (write_record_header ts_ms h len) ≡ 20
length-write_record_header ts_ms h len = omega (
  arith,
  length-append (le 8 ts_ms) (le 8 h ++ le 4 len),
  length-append (le 8 h) (le 4 len),
  length-le 8 ts_ms,
  length-le 8 h,
  length-le 4 len,
)

pub length-full_record :
    (ts_ms h : ℕ) (bmp : List ℕ) → length (full_record ts_ms h bmp) ≡ 20 + length bmp
length-full_record ts_ms h bmp = omega (
  arith,
  length-append (write_record_header ts_ms h (length bmp)) bmp,
  length-write_record_header ts_ms h (length bmp),
)

record_header-write_record_header :
    (ts_ms h len : ℕ) (rest : List ℕ)
    → IsU64 ts_ms
    → IsU64 h
    → len < 2 ^ 32
    → record_header (write_record_header ts_ms h len ++ rest) ≡ some ((ts_ms, h, len), rest)
unfolding record_header
record_header-write_record_header ts_ms h len rest p q r = ground (
  arith,
  append_assoc (le 8 ts_ms) (le 8 h ++ le 4 len) rest,
  append_assoc (le 8 h) (le 4 len) rest,
  read_le-le 8 ts_ms ((le 8 h ++ le 4 len) ++ rest) (word8 ts_ms p),
  read_le-le 8 h (le 4 len ++ rest) (word8 h q),
  read_le-le 4 len rest (word4 len r),
)

-- One round of the loop over a record that is not torn.
scan_record-reuse :
    (pos ts_ms h : ℕ) (loc : AnchorBlobLoc) (blobs : Table AnchorBlobLoc) (rest : List ℕ)
    → IsU64 ts_ms
    → IsU64 h
    → lookup h blobs ≡ some loc
    → scan_record pos (write_record_header ts_ms h 0 ++ rest) blobs
      ≡ some (ref_to ts_ms h loc, pos + anchor_rec_header, rest, blobs)
unfolding scan_record
scan_record-reuse pos ts_ms h loc blobs rest p q e =
    ap (scan_fields pos blobs) (record_header-write_record_header ts_ms h 0 rest p q (omega arith))
    ∙ ap (scan_reuse pos ts_ms h rest blobs) e

skip_blob-append :
    (bmp rest : List ℕ)
    → length bmp ≤ max_anchor_pool_size
    → skip_blob (length bmp) (bmp ++ rest) ≡ some rest
unfolding skip_blob
skip_blob-append bmp rest h = ground (arith, read_full-append bmp rest (length bmp) refl, h)

scan_record-blob :
    (s bmp : List ℕ) (ts_ms h : ℕ) (blobs : Table AnchorBlobLoc) (rest : List ℕ)
    → IsU64 ts_ms
    → IsU64 h
    → 0 < length bmp
    → length bmp ≤ max_anchor_pool_size
    → scan_record (length s) (full_record ts_ms h bmp ++ rest) blobs
      ≡ some (
        ref_to ts_ms h (loc_behind s bmp),
        length s + anchor_rec_header + length bmp,
        rest,
        insert h (loc_behind s bmp) blobs,
      )
unfolding scan_record
scan_record-blob s [] ts_ms h blobs rest p q e m = absurd (omega (arith, e))
scan_record-blob s (b ∷ bmp) ts_ms h blobs rest p q e m =
    let len = suc (length bmp) in
    ap (λ r. scan_fields (length s) blobs (record_header r))
      (append_assoc (write_record_header ts_ms h len) (b ∷ bmp) rest)
    ∙ ap (scan_fields (length s) blobs)
        (record_header-write_record_header ts_ms h len ((b ∷ bmp) ++ rest) p q (omega (arith, m)))
    ∙ ap (scan_blob (length s) ts_ms h len blobs) (skip_blob-append (b ∷ bmp) rest m)

scan_from-step :
    (k pos : ℕ) (s : List ℕ) (blobs : Table AnchorBlobLoc) (refs : List AnchorRef) {ref : AnchorRef}
    {pos' : ℕ} {rest : List ℕ} {blobs' : Table AnchorBlobLoc}
    → scan_record pos s blobs ≡ some (ref, pos', rest, blobs')
    → scan_from (suc k) pos s blobs refs ≡ scan_from k pos' rest blobs' (refs ++ ref ∷ [])
unfolding scan_from
scan_from-step k pos s blobs refs e = rw (scan_from, e) refl

-- One record more, as one round more.
longer :
    (s r t : List ℕ) (n k : ℕ)
    → scan_from (suc n + k) 0 ((s ++ r) ++ t) [] [] ≡ scan_from (n + suc k) 0 (s ++ (r ++ t)) [] []
longer s r t n k =
    ap (λ m. scan_from m 0 ((s ++ r) ++ t) [] []) (omega arith)
    ∙ ap (λ u. scan_from (n + suc k) 0 u [] []) (append_assoc s r t)

-- The scan of a file of records, up to what is behind them.
pub scan_from-Written :
    {s : List ℕ} {blobs : Table AnchorBlobLoc} {refs : List AnchorRef} {n : ℕ}
    → Written s blobs refs n
    → (k : ℕ) (t : List ℕ)
    → scan_from (n + k) 0 (s ++ t) [] [] ≡ scan_from k (length s) t blobs refs
unfolding scan_from
scan_from-Written no_records k t = ap (λ m. scan_from m 0 t [] []) (omega arith)
scan_from-Written (reuse_record {s} {blobs} {refs} {n} ts_ms h loc w p q e) k t =
    let r = write_record_header ts_ms h 0 in
    longer s r t n k
    ∙ scan_from-Written w (suc k) (r ++ t)
    ∙ scan_from-step k (length s) (r ++ t) blobs refs
        (scan_record-reuse (length s) ts_ms h loc blobs t p q e)
    ∙ ap (λ m. scan_from k m t blobs (refs ++ ref_to ts_ms h loc ∷ []))
        (omega (arith, length-append s r, length-write_record_header ts_ms h 0))
scan_from-Written (blob_record {s} {blobs} {refs} {n} ts_ms h bmp w p q o m e) k t =
    let r = full_record ts_ms h bmp in
    let loc = loc_behind s bmp in
    longer s r t n k
    ∙ scan_from-Written w (suc k) (r ++ t)
    ∙ scan_from-step k (length s) (r ++ t) blobs refs
        (scan_record-blob s bmp ts_ms h blobs t p q o m)
    ∙ ap (λ m. scan_from k m t (insert h loc blobs) (refs ++ ref_to ts_ms h loc ∷ []))
        (omega (arith, length-append s r, length-full_record ts_ms h bmp))

record_header-short : (t : List ℕ) → length t < 20 → record_header t ≡ none
unfolding record_header
record_header-short t h = elim (Option-cases (read_le 8 t)) [
  | inl e ↦ ground (arith, e)
  | inr ((a, r), e) ↦ elim (Option-cases (read_le 8 r)) [
    | inl e' ↦ ground (arith, e, e')
    | inr ((b, r'), e') ↦ elim (Option-cases (read_le 4 r')) [
      | inl e'' ↦ ground (arith, e, e', e'')
      | inr ((c, r''), e'') ↦
          absurd
            (omega (arith, read_le-length 8 t e, read_le-length 8 r e', read_le-length 4 r' e'', h))
    ]
  ]
]

records_le :
    {s : List ℕ} {blobs : Table AnchorBlobLoc} {refs : List AnchorRef} {n : ℕ}
    → Written s blobs refs n
    → n ≤ length s
records_le no_records = omega arith
records_le (reuse_record {s} ts_ms h loc w p q e) = omega (
  arith,
  records_le w,
  length-append s (write_record_header ts_ms h 0),
  length-write_record_header ts_ms h 0,
)
records_le (blob_record {s} ts_ms h bmp w p q o m e) =
    omega (
      arith,
      records_le w,
      length-append s (full_record ts_ms h bmp),
      length-full_record ts_ms h bmp,
    )

-- The fuel of the scan is enough, and it stops where a record is torn.
pub scan_data-Written :
    {s : List ℕ} {blobs : Table AnchorBlobLoc} {refs : List AnchorRef} {n : ℕ}
    → Written s blobs refs n
    → (t : List ℕ) → scan_record (length s) t blobs ≡ none
    → scan_data (s ++ t) ≡ (refs, blobs)
unfolding scan_from
scan_data-Written {s} {blobs} {refs} {n} w t e =
    let k = length (s ++ t) - n in
    ap (λ m. scan_from m 0 (s ++ t) [] []) {x = suc (length (s ++ t))}
      (omega (arith, length-append s t, records_le w))
    ∙ scan_from-Written w (suc k) t
    ∙ rw (scan_from, e) refl

-- A record whose header is whole.
scan_fields-torn :
    (pos ts_ms h m : ℕ) (bmp : List ℕ) (blobs : Table AnchorBlobLoc)
    → IsU64 ts_ms
    → IsU64 h
    → length bmp ≤ max_anchor_pool_size
    → m < length (full_record ts_ms h bmp)
    → 20 ≤ m
    → scan_fields pos blobs (record_header (take m (full_record ts_ms h bmp))) ≡ none
unfolding skip_blob
scan_fields-torn pos ts_ms h m [] blobs p q o b l =
    absurd (omega (arith, length-full_record ts_ms h [], b, l))
scan_fields-torn pos ts_ms h m (c ∷ bmp) blobs p q o b l =
    let hdr = write_record_header ts_ms h (suc (length bmp)) in
    let len = length-write_record_header ts_ms h (suc (length bmp)) in
    let short = read_full-short (suc (length bmp)) (take (m - length hdr) (c ∷ bmp)) (
      omega (
        arith,
        length-take (m - length hdr) (c ∷ bmp),
        length-full_record ts_ms h (c ∷ bmp),
        b,
        l,
        len,
      )) in
    rw (take-append m hdr (c ∷ bmp) (omega (arith, len, l))) rw
      (
        record_header-write_record_header ts_ms h (suc (length bmp))
            (take (m - length hdr) (c ∷ bmp)) p q (omega (arith, o)),
        scan_fields,
      )
      ground (arith, short)

pub scan_record-torn :
    (pos ts_ms h m : ℕ) (bmp : List ℕ) (blobs : Table AnchorBlobLoc)
    → IsU64 ts_ms
    → IsU64 h
    → length bmp ≤ max_anchor_pool_size
    → m < length (full_record ts_ms h bmp)
    → scan_record pos (take m (full_record ts_ms h bmp)) blobs ≡ none
unfolding scan_record
scan_record-torn pos ts_ms h m bmp blobs p q o b = elim (Bool-cases (ltb m 20)) [
  | inl e ↦
      let rec = full_record ts_ms h bmp in
      ap (scan_fields pos blobs)
        (record_header-short (take m rec) (omega (arith, length-take m rec, ltb→lt m 20 e)))
  | inr e ↦ scan_fields-torn pos ts_ms h m bmp blobs p q o b (ground (arith, e))
]
