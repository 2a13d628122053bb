-- ===== src/Game/Anchors/Search.antt =====
-- The binary search of `checkpoint` (internal/game/anchors.go) against a scan of the whole list.
use pixel_beetle.Prelude.{
  ℕ, zero, suc, ◌+◌, ◌-◌, ◌/◌, ◌≤◌, ◌<◌, ◌≡◌, refl, sym, ap, inl, inr, Option, none, some, List, [],
  ◌∷◌, arith, ltb, leb, Bool-cases, if◌then◌else◌, length,
}
use pixel_beetle.Game.Anchors.{
  Anchor, AnchorGrid, ts_at, search_loop, anchor_at, before, checkpoint_of, checkpoint,
}

-- The times do not fall along the list.
abbrev pub IsSorted : List Anchor → Type 0
IsSorted l = (i j : ℕ) → i ≤ j → j < length l → ts_at l i ≤ ts_at l j

-- The reference: the last anchor of the list at or before `ts_ms`.
abbrev pub or_else : Option Anchor → Option Anchor → Option Anchor
or_else none a = a
or_else (some b) a = some b

unfoldable pub latest : ℕ → List Anchor → Option Anchor
latest ts_ms [] = none
latest ts_ms (a ∷ l) = or_else (latest ts_ms l) (if leb a.ts_ms ts_ms then some a else none)

-- The loop ends between the anchors at or before `ts_ms` and those after it.
search_splits :
    (fuel : ℕ) (l : List Anchor) (ts_ms lo hi i : ℕ)
    → IsSorted l
    → lo ≤ hi
    → hi ≤ length l
    → hi - lo ≤ fuel
    → (i < lo → ts_at l i ≤ ts_ms)
    → (hi ≤ i → i < length l → ts_ms < ts_at l i)
    → (search_loop fuel l ts_ms lo hi ≤ length l)
      × (i < search_loop fuel l ts_ms lo hi → ts_at l i ≤ ts_ms)
      × (search_loop fuel l ts_ms lo hi ≤ i → i < length l → ts_ms < ts_at l i)
unfolding search_loop
search_splits zero l ts_ms lo hi i sorted order bound enough below above =
    (omega arith, below, λ p q. above (omega arith) q)
search_splits (suc fuel) l ts_ms lo hi i sorted order bound enough below above =
    elim (Bool-cases (ltb lo hi)) [
      | inr done ↦ rw (done, search_loop) (ground arith, below, λ p q. above (ground arith) q)
      | inl more ↦
          rw (more, search_loop)
            (let mid = (lo + hi) / 2 in
              elim (Bool-cases (leb (ts_at l mid) ts_ms)) [
                | inl early ↦ rw early (
                    search_splits fuel l ts_ms (mid + 1) hi i sorted (ground arith) bound
                      (ground arith) (λ p. ground (arith, sorted i mid)) above)
                | inr late ↦ rw late (
                    search_splits fuel l ts_ms lo mid i sorted (ground arith) (ground arith)
                      (ground arith) below (λ p q. ground (arith, sorted mid i)))
              ])
    ]

some-anchor_at : (l : List Anchor) (k : ℕ) → k < length l → (a : Anchor) × (anchor_at l k ≡ some a)
some-anchor_at [] k h = absurd (omega arith)
some-anchor_at (a ∷ l) zero h = (a, refl)
some-anchor_at (a ∷ l) (suc k) h = some-anchor_at l k (omega arith)

latest_of_split :
    (l : List Anchor) (ts_ms k : ℕ)
    → k ≤ length l
    → ((i : ℕ) → i < k → ts_at l i ≤ ts_ms)
    → ((i : ℕ) → k ≤ i → i < length l → ts_ms < ts_at l i)
    → latest ts_ms l ≡ before k l
unfolding latest
latest_of_split [] ts_ms zero bound below above = refl
latest_of_split [] ts_ms (suc k) bound below above = absurd (omega arith)
latest_of_split (a ∷ l) ts_ms zero bound below above = ground (
  arith,
  above 0,
  latest_of_split l ts_ms 0 (omega arith) (λ i p. absurd (omega arith))
      (λ i p q. above (suc i) (omega arith) (omega arith)),
)
latest_of_split (a ∷ l) ts_ms (suc zero) bound below above = ground (
  arith,
  below 0,
  latest_of_split l ts_ms 0 (omega arith) (λ i p. absurd (omega arith))
      (λ i p q. above (suc i) (omega arith) (omega arith)),
)
latest_of_split (a ∷ l) ts_ms (suc (suc k)) bound below above = ground (
  arith,
  some-anchor_at l k (omega arith),
  latest_of_split l ts_ms (suc k) (omega arith) (λ i p. below (suc i) (omega arith))
      (λ i p q. above (suc i) (omega arith) (omega arith)),
)

-- On a list whose times do not fall, the binary search of `checkpoint` ends within as many rounds
-- as the list is long and finds what a scan of the whole list finds: the last anchor at or before
-- the time, with its pooled bitmap, and nothing if every anchor is later.
pub checkpoint-latest :
    (ts_ms : ℕ) (g : AnchorGrid)
    → IsSorted g.list
    → checkpoint ts_ms g ≡ checkpoint_of (latest ts_ms g.list) g.pool
unfolding checkpoint
checkpoint-latest ts_ms g sorted =
    let n = length g.list in
    let split = λ (i : ℕ).
      search_splits n g.list ts_ms 0 n i sorted (omega arith) (omega arith) (omega arith)
        (λ p. absurd (omega arith)) (λ p q. absurd (omega arith)) in
    ap (λ a. checkpoint_of a g.pool)
      (sym (latest_of_split g.list ts_ms _ (split 0).0 (λ i. (split i).1) (λ i. (split i).2)))
