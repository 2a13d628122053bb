-- ===== src/Game/Fold/Paging.antt =====
-- `foldFrom` (internal/game/warm.go) over a ledger that answers every query: page by page it does what
-- one pass over the transfers from the start time does.
use pixel_beetle.Prelude.{
  ℕ, zero, suc, ◌+◌, ◌-◌, ◌*◌, ◌≤◌, ◌<◌, ◌≡◌, ◌⊎◌, refl, sym, ◌∙◌, ap, Bool, true, false, ◌&&◌, inl,
  inr, none, some, List, [], ◌∷◌, ◌++◌, arith, ltb, leb, Bool-cases, length, length-drop, take,
  drop,
}
use pixel_beetle.TbClient.External.{Transfer, TbServer}
use pixel_beetle.Game.Fold.{
  last_timestamp, query_page_size, fold_page, fold_from, Folded, too_broad,
}
use pixel_beetle.Game.Fold.Ledger.{IsAscending, since, QueryLaws, next_page}

page_all : (n : ℕ) (l : List Transfer) → length (take n l) < n → take n l ≡ l
page_all zero l h = absurd (omega arith)
page_all (suc n) [] h = refl
page_all (suc n) (t ∷ l) h = ap (λ rest. t ∷ rest) (page_all n l (omega arith))

page_full : (n : ℕ) (l : List Transfer) → n ≤ length (take n l) → n ≤ length l
page_full zero l h = omega arith
page_full (suc n) [] h = absurd (omega arith)
page_full (suc n) (t ∷ l) h = omega (arith, page_full n l (omega arith))

take-drop : (n : ℕ) (l : List Transfer) → take n l ++ drop n l ≡ l
take-drop zero l = refl
take-drop (suc n) [] = refl
take-drop (suc n) (t ∷ l) = ap (λ rest. t ∷ rest) (take-drop n l)

since_page :
    (from n : ℕ) (l : List Transfer)
    → IsAscending l
    → 0 < n
    → n ≤ length (since from l)
    → since (last_timestamp (take n (since from l)) + 1) l ≡ drop n (since from l)
since_page from zero l asc positive h = absurd (omega arith)
since_page from (suc n) l asc positive h = next_page from n l asc (omega arith)

query_page_size_positive : 0 < query_page_size
unfolding query_page_size
query_page_size_positive = omega arith

module _ {A : Type 0} (apply : Transfer → A → A × Bool) where
  pub fold_page_stop :
      (t : Transfer) (l : List Transfer) (a a' : A)
      → apply t a ≡ (a', true)
      → fold_page apply (t ∷ l) a ≡ (a', true)
  unfolding fold_page
  fold_page_stop t l a a' e = rw (e, fold_page) (ap (λ p. (p.0, true)) e)

  pub fold_page_more :
      (t : Transfer) (l : List Transfer) (a a' : A)
      → apply t a ≡ (a', false)
      → fold_page apply (t ∷ l) a ≡ fold_page apply l a'
  unfolding fold_page
  fold_page_more t l a a' e = rw (e, fold_page) (ap (λ p. fold_page apply l p.0) e)

  abbrev go_on : A × Bool → List Transfer → A × Bool
  go_on p rest = elim p.1 [ true ↦ (p.0, true) | false ↦ fold_page apply rest p.0 ]

  go_on_stop : (p : A × Bool) (rest : List Transfer) → p.1 ≡ true → (go_on p rest).0 ≡ p.0
  go_on_stop p rest stop = rw (stop, go_on) refl

  go_on_more :
      (p : A × Bool) (rest : List Transfer) → p.1 ≡ false → go_on p rest ≡ fold_page apply rest p.0
  go_on_more p rest more = rw (more, go_on) refl

  fold_page-append :
      (l rest : List Transfer) (a : A)
      → fold_page apply (l ++ rest) a ≡ go_on (fold_page apply l a) rest
  unfolding fold_page
  fold_page-append [] rest a = refl
  fold_page-append (t ∷ l) rest a = elim (Bool-cases (apply t a).1) [
    | inl stop ↦ ground (arith, stop)
    | inr more ↦ ground (arith, more, fold_page-append l rest (apply t a).0)
  ]

module _ {A : Type 0} where
  -- What `foldFrom` returns where every query is answered: the pass over the whole rest of the
  -- ledger, or that it would take too many pages.
  abbrev pub IsFolded : ℕ → A → Folded A → Type 0
  IsFolded max_pages a r =
      ((r.err ≡ none) × (r.acc ≡ a)) ⊎ ((0 < max_pages) × (r.err ≡ some too_broad))

-- The rounds last for the transfers, or for the pages that the bound allows.
abbrev pub IsEnough : ℕ → ℕ → ℕ → ℕ → Type 0
IsEnough max_pages pages fuel count =
    (count < fuel * query_page_size) ⊎ ((0 < max_pages) × (0 < fuel) × (max_pages ≤ pages + fuel))

IsEnough-next :
    (max_pages pages fuel count : ℕ)
    → IsEnough max_pages pages (suc fuel) count
    → query_page_size ≤ count
    → (ltb 0 max_pages && leb max_pages (pages + 1)) ≡ false
    → IsEnough max_pages (pages + 1) fuel (count - query_page_size)
unfolding query_page_size
IsEnough-next max_pages pages fuel count (inl h) full narrow = inl (omega (arith, h, full))
IsEnough-next max_pages pages fuel count (inr h) full narrow =
    inr (h.0, ground (arith, h, narrow), ground (arith, h, narrow))

module _ {S A : Type 0} {server : TbServer S} {ledger : S → List Transfer}
    (laws : QueryLaws server ledger) (apply : Transfer → A → A × Bool) (max_pages : ℕ) (s : S) where
  -- Over a ledger in ascending order that answers every query, with enough rounds: `foldFrom`
  -- returns the state of one pass of the callback, with its stop, over all transfers from the start
  -- time on, none twice and none left out at the seam of two pages; only with a bound on the pages
  -- can it return `ErrFrameTooBroad` instead.
  pub fold_from-fold_page :
      (fuel from pages : ℕ) (a : A)
      → IsEnough max_pages pages fuel (length (since from (ledger s)))
      → IsFolded max_pages
          (fold_page apply (since from (ledger s)) a).0
          (fold_from server apply max_pages s fuel from pages a)
  unfolding fold_from
  fold_from-fold_page zero from pages a enough = absurd (ground (arith, enough))
  fold_from-fold_page (suc fuel) from pages a enough =
      let l = since from (ledger s) in
      let n = query_page_size in
      let whole : fold_page apply l a ≡ go_on apply (fold_page apply (take n l) a) (drop n l) =
        ap (λ x. fold_page apply x a) (sym (take-drop n l))
        ∙ fold_page-append apply (take n l) (drop n l) a in
      rw (laws.answered from query_page_size s, fold_from)
        (elim (Bool-cases (fold_page apply (take n l) a).1) [
          | inl stop ↦ rw stop (
              inl (
                refl,
                sym (
                    ap (λ p. p.0) whole
                    ∙ go_on_stop apply (fold_page apply (take n l) a) (drop n l) stop),
              ))
          | inr more ↦ rw more (elim (Bool-cases (ltb (length (take n l)) n)) [
            | inl short ↦ rw short (
                inl
                  (refl, ap (λ x. (fold_page apply x a).0) (page_all n l (ground (arith, short)))))
            | inr full ↦ rw full (elim (Bool-cases (ltb 0 max_pages && leb max_pages (pages + 1))) [
              | inl broad ↦ rw broad (inr (ground arith, refl))
              | inr narrow ↦ rw narrow (
                  let fits : n ≤ length (take n l) = ground (arith, full) in
                  let count = page_full n l fits in
                  let next =
                    since_page from n (ledger s) (laws.ascending s) query_page_size_positive
                      count in
                  let rest : (fold_page apply l a).0
                      ≡ (fold_page apply (drop n l) (fold_page apply (take n l) a).0).0 =
                    ap (λ p. p.0)
                      (whole ∙ go_on_more apply (fold_page apply (take n l) a) (drop n l) more) in
                  let enough' : IsEnough max_pages (pages + 1) fuel
                      (length (since (last_timestamp (take n l) + 1) (ledger s))) =
                    rw next (
                      rw (length-drop n l)
                        (IsEnough-next max_pages pages fuel (length l) enough count narrow)) in
                  rw rest (rw (sym next) (fold_from-fold_page fuel _ (pages + 1) _ enough')))
            ])
          ])
        ])
