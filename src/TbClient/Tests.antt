-- ===== src/TbClient/Tests.antt =====
-- The code of internal/tbclient/tbclient.go at concrete inputs.
use pixel_beetle.TbClient.Batches.{ensure_all_pixels}
use pixel_beetle.TbClient.Batches.Coverage.{IsProvisioned, ensure_all_pixels-IsProvisioned}
use pixel_beetle.TbClient.Client.{create_accounts, submit_fund_batch, account_errors, fund_errors}
use pixel_beetle.Prelude.{arith, [], ◌∷◌, ◌≡◌, refl, true, none, some}
use pixel_beetle.TbClient.External.{TransferFlags, Transfer}
use pixel_beetle.TbClient.Ids.{pixel_id, unpack_pixel_id}
use pixel_beetle.TbClient.Transfers.{fund_transfer, new_claim, is_posted_claim, post_flags}
use pixel_beetle.TbClient.Sample.{sample_tb, accepting}

abbrev linked_post : TransferFlags
linked_post = record post_flags { linked = true }

-- The claim of the player 9 at (3, 4), in a color past the palette, after its confirm.
abbrev posted_claim : Transfer
posted_claim = record (new_claim sample_tb 77 3 4 200 9) {
  id = 78;
  pending_id = 77;
  flags = sample_tb.transfer_flags linked_post;
}

pending_is_not_posted : is_posted_claim sample_tb (new_claim sample_tb 77 3 4 200 9) 10 10 ≡ none
unfolding is_posted_claim new_claim
pending_is_not_posted = refl

posted_is_read : is_posted_claim sample_tb posted_claim 10 10 ≡ some (3, 4, 15)
unfolding is_posted_claim new_claim pixel_id unpack_pixel_id
posted_is_read = refl

outside_is_dropped : is_posted_claim sample_tb posted_claim 3 10 ≡ none
unfolding is_posted_claim new_claim pixel_id unpack_pixel_id
outside_is_dropped = refl

ensure_all_pixels-IsProvisioned_example :
    IsProvisioned sample_tb accepting 2 2 [] (ensure_all_pixels sample_tb accepting 2 2 [])
ensure_all_pixels-IsProvisioned_example =
    ensure_all_pixels-IsProvisioned sample_tb accepting 2 2 (omega arith) []

-- Four accounts fit into one batch, behind the pool's.
all_pixels_funded :
    ensure_all_pixels sample_tb accepting 2 1 []
    ≡ (none, fund_transfer sample_tb 0 0 ∷ fund_transfer sample_tb 1 0 ∷ [])
unfolding ensure_all_pixels create_accounts submit_fund_batch account_errors fund_errors
all_pixels_funded = refl
