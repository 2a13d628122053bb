-- ===== src/TbClient/Batches.antt =====
-- `EnsureAllPixels` of internal/tbclient/tbclient.go: accounts and funds for the whole grid in batches.
pub mod Coverage
pub mod Grid
use pixel_beetle.Prelude.{
  ℕ, zero, suc, ◌+◌, ◌*◌, ◌/◌, ◌%◌, ◌^◌, Bool, true, false, Option, none, some, List, [], ◌∷◌, ◌++◌,
  ◌==◌, length,
}
use pixel_beetle.TbClient.External.{TbLib, TbServer, Transfer}
use pixel_beetle.TbClient.Ids.{pixel_id}
use pixel_beetle.TbClient.Transfers.{fund_transfer}
use pixel_beetle.TbClient.Client.{TbError, create_accounts, submit_fund_batch, ensure_accounts}

unfoldable pub batch_size : ℕ
batch_size = 8189

module _ {S X : Type 0} (send : List X → S → Option TbError × S) where
  -- The batch that is left after the loop.
  abbrev pub flush : List X → S → Option TbError × S
  flush [] s = (none, s)
  flush (x ∷ batch) s = send (x ∷ batch) s

  -- The loop over `xs` with the items of `batch` gathered: a full batch is sent, and an error ends
  -- the loop.
  unfoldable pub batch_loop : List X → List X → S → Option TbError × S
  batch_loop batch [] s = flush batch s
  batch_loop batch (x ∷ xs) s = elim (length (batch ++ x ∷ []) == batch_size) [
    | false ↦ batch_loop (batch ++ x ∷ []) xs s
    | true ↦
        let (err, s') = send (batch ++ x ∷ []) s in
        elim err [ some e ↦ (some e, s') | none ↦ batch_loop [] xs s' ]
  ]

-- The values of the loop counter, `n` of them from `i` on.
unfoldable pub indices : ℕ → ℕ → List ℕ
indices i zero = []
indices i (suc n) = i ∷ indices (i + 1) n

-- `uint32(i) % w` and `uint32(i) / w` are the cell.
module _ (tb : TbLib) (w : ℕ) where
  unfoldable pub grid_ids : List ℕ → List ℕ
  grid_ids [] = []
  grid_ids (i ∷ is) = pixel_id tb (i % 2 ^ 32 % w) (i % 2 ^ 32 / w) ∷ grid_ids is

  unfoldable pub grid_funds : List ℕ → List Transfer
  grid_funds [] = []
  grid_funds (i ∷ is) = fund_transfer tb (i % 2 ^ 32 % w) (i % 2 ^ 32 / w) ∷ grid_funds is

module _ {S : Type 0} (tb : TbLib) (server : TbServer S) where
  abbrev pub fund_all : ℕ → ℕ → Option TbError × S → Option TbError × S
  fund_all w n (some e, s) = (some e, s)
  fund_all w n (none, s) =
      batch_loop (submit_fund_batch tb server) [] (grid_funds tb w (indices 0 n)) s

  abbrev pub create_all : ℕ → ℕ → Option TbError × S → Option TbError × S
  create_all w n (some e, s) = (some e, s)
  create_all w n (none, s) =
      batch_loop (create_accounts tb server false) [] (grid_ids tb w (indices 0 n)) s

  unfoldable pub ensure_all_pixels : ℕ → ℕ → S → Option TbError × S
  unfolding batch_loop indices grid_ids grid_funds batch_size
  ensure_all_pixels w h s =
      fund_all w (w * h) (create_all w (w * h) (ensure_accounts tb server [] s))
