-- ===== src/Game/Views/Colors.antt =====
-- The colors that `Snapshot` shows (internal/game/game.go).
use native.Mathlib.Nat.{mod-add-div'}
use pixel_beetle.Prelude.{
  ℕ, suc, ◌+◌, ◌-◌, ◌*◌, ◌/◌, ◌%◌, ◌^◌, ◌<◌, ◌≤◌, ◌≡◌, sym, ap, ◌∙◌, inl, inr, true, false, ◌&&◌,
  Option, none, some, List, [], ◌∷◌, Table, lookup, insert, lookup-insert, ltb, leb, ◌==◌,
  if◌then◌else◌, arith, Bool-cases, length, get_or,
}
use pixel_beetle.Game.Registry.{pack}
use pixel_beetle.Game.Service.{Service}
use pixel_beetle.Game.Views.{snapshot_from, snapshot_colors}

abbrev cell_key : ℕ → ℕ → ℕ
cell_key w i = pack (i % w) (i / w)

-- Two cells of one canvas have two keys.
cell_key_inj : (w i k : ℕ) → i / w < 2 ^ 32 → k / w < 2 ^ 32 → cell_key w i ≡ cell_key w k → i ≡ k
cell_key_inj w i k h h' e =
    let rows : i / w ≡ k / w = omega (arith, h, h', e) in
    let columns : i % w ≡ k % w = omega (arith, h, h', e) in
    sym (mod-add-div' i w)
    ∙ (ap (λ r. r + i / w * w) columns ∙ (ap (λ q. k % w + q * w) rows ∙ mod-add-div' k w))

abbrev seen : ℕ → Option ℕ → Option ℕ
seen v o = if ltb 0 v then some (v - 1) else o

lookup-cell :
    (w i k v : ℕ) (out : Table ℕ)
    → i / w < 2 ^ 32
    → k / w < 2 ^ 32
    → lookup (cell_key w k) (if ltb 0 v then insert (cell_key w i) (v - 1) out else out)
      ≡ (if k == i then seen v (lookup (cell_key w k) out) else lookup (cell_key w k) out)
lookup-cell w i k v out h h' = elim (Bool-cases (ltb 0 v)) [
  | inr t ↦ ground (arith, t)
  | inl t ↦ elim (Bool-cases (k == i)) [
    | inl u ↦
        let same : cell_key w i ≡ cell_key w k = ap (cell_key w) (ground (arith, u)) in
        ground (arith, t, u, lookup-insert (cell_key w i) (cell_key w k) (v - 1) out, same)
    | inr u ↦
        let other : (cell_key w i == cell_key w k) ≡ false =
          elim (Bool-cases (cell_key w i == cell_key w k)) [
            | inl x ↦
                let same : cell_key w i ≡ cell_key w k = ground (arith, x) in
                absurd (ground (arith, u, cell_key_inj w i k h h' same))
            | inr x ↦ x
          ] in
        ground (arith, t, u, lookup-insert (cell_key w i) (cell_key w k) (v - 1) out, other)
  ]
]

lookup-snapshot_from :
    (w n i k : ℕ) (bmp : List ℕ) (out : Table ℕ)
    → ((j : ℕ) → j < n → j / w < 2 ^ 32)
    → i + length bmp ≤ n
    → k < n
    → lookup (cell_key w k) (snapshot_from w i bmp out) ≡ (
        if leb i k && ltb k (i + length bmp)
        then seen (get_or bmp (k - i) 0) (lookup (cell_key w k) out)
        else lookup (cell_key w k) out)
unfolding snapshot_from
lookup-snapshot_from w n i k [] out b l h = ground arith
lookup-snapshot_from w n i k (v ∷ bmp) out b l h =
    let out' = if ltb 0 v then insert (cell_key w i) (v - 1) out else out in
    let rest = lookup-snapshot_from w n (suc i) k bmp out' b (omega (arith, l)) h in
    let here = lookup-cell w i k v out (b i (omega (arith, l))) (b k h) in
    elim (Bool-cases (k == i)) [
      | inl t ↦
          let first : get_or (v ∷ bmp) (k - i) 0 ≡ v =
            ap (λ m. get_or (v ∷ bmp) m 0) {x = k - i} {y = 0} (ground (arith, t)) in
          rest ∙ ground (arith, here, t, first)
      | inr t ↦ elim (Bool-cases (leb i k)) [
        | inl u ↦
            let next : get_or (v ∷ bmp) (k - i) 0 ≡ get_or bmp (k - suc i) 0 =
              ap (λ m. get_or (v ∷ bmp) m 0) {x = k - i} {y = suc (k - suc i)}
                (ground (arith, t, u)) in
            rest ∙ ground (arith, here, t, u, next)
        | inr u ↦ rest ∙ ground (arith, here, t, u)
      ]
    ]

-- The snapshot has the color of each painted cell of the canvas and no entry for an empty one, if
-- the rows of the canvas fit in 32 bits.
lookup-snapshot_colors :
    (v : Service) (k : ℕ)
    → ((j : ℕ) → j < length v.bmp → j / v.grid_w < 2 ^ 32)
    → k < length v.bmp
    → lookup (cell_key v.grid_w k) (snapshot_colors v) ≡ seen (get_or v.bmp k 0) none
unfolding snapshot_colors lookup
lookup-snapshot_colors v k b h =
    let all = lookup-snapshot_from v.grid_w (length v.bmp) 0 k v.bmp [] b (omega arith) h in
    let inside : (leb 0 k && ltb k (0 + length v.bmp)) ≡ true = ground (arith, h) in
    let here =
      all
      ∙ ap
          (λ t.
            if t
            then seen (get_or v.bmp (k - 0) 0) (lookup (cell_key v.grid_w k) [])
            else lookup (cell_key v.grid_w k) [])
          inside in
    here ∙ ap (λ i. seen (get_or v.bmp i 0) none) {x = k - 0} {y = k} (omega arith)
