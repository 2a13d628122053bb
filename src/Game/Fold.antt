-- ===== src/Game/Fold.antt =====
-- `foldFrom` of internal/game/warm.go: the paging through the ledger that the warm-up and the history
-- view share. The callback is a function on a state `A` that also tells whether to stop.
pub mod Ledger
pub mod Paging
use pixel_beetle.Prelude.{
  ℕ, zero, suc, ◌+◌, Bool, true, false, ◌&&◌, Option, none, some, List, [], ◌∷◌, ltb, leb, length,
}
use pixel_beetle.TbClient.External.{Transfer, TbServer}
use pixel_beetle.TbClient.Client.{query_canvas_transfers}

unfoldable pub query_page_size : ℕ
query_page_size = 4000

abbrev pub max_frame_pages : ℕ
max_frame_pages = 50

-- `too_broad` is `ErrFrameTooBroad`; `out_of_fuel` is no error of the source.
pub data FoldError : Type 0 where
  query_failed too_broad out_of_fuel : FoldError

pub record Folded (A : Type 0) : Type 0 where
  pub acc : A
  pub pages : ℕ
  pub err : Option FoldError

-- `page[len(page)-1].Timestamp`
abbrev pub last_timestamp : List Transfer → ℕ
last_timestamp [] = 0
last_timestamp (t ∷ []) = t.timestamp
last_timestamp (t ∷ u ∷ page) = last_timestamp (u ∷ page)

module _ {A : Type 0} (apply : Transfer → A → A × Bool) where
  -- The loop over a page: the state after it, and whether the callback stopped it.
  unfoldable pub fold_page : List Transfer → A → A × Bool
  fold_page [] a = (a, false)
  fold_page (t ∷ page) a =
      let (a', stop) = apply t a in elim stop [ true ↦ (a', true) | false ↦ fold_page page a' ]

module _ {S A : Type 0} (server : TbServer S) (apply : Transfer → A → A × Bool) (max_pages : ℕ)
    (s : S) where
  -- The outer loop, with `pages` fetched so far.
  unfoldable pub fold_from : ℕ → ℕ → ℕ → A → Folded A
  unfolding fold_page
  fold_from zero from pages a = record { acc = a; pages = pages; err = some out_of_fuel }
  fold_from (suc fuel) from pages a = elim (query_canvas_transfers server from query_page_size s) [
    | none ↦ record { acc = a; pages = pages; err = some query_failed }
    | some page ↦
        let (a', stop) = fold_page apply page a in
        elim stop [
          | true ↦ record { acc = a'; pages = pages + 1; err = none }
          | false ↦ elim (ltb (length page) query_page_size) [
            | true ↦ record { acc = a'; pages = pages + 1; err = none }
            | false ↦ elim (ltb 0 max_pages && leb max_pages (pages + 1)) [
              | true ↦ record { acc = a'; pages = pages + 1; err = some too_broad }
              | false ↦ fold_from fuel (last_timestamp page + 1) (pages + 1) a'
            ]
          ]
        ]
  ]
