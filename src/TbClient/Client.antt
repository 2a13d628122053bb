-- ===== src/TbClient/Client.antt =====
-- The calls of internal/tbclient/tbclient.go: batches of accounts and transfers, and the mapping of
-- the server's answers to errors.
use pixel_beetle.Prelude.{
  ℕ, Bool, true, Option, none, some, List, [], ◌∷◌, ◌++◌, map, if◌then◌else◌,
}
use pixel_beetle.TbClient.External.{
  TbLib, TbServer, Transfer, Account, AccountStatus, account_created, account_exists,
  account_failed, TransferStatus, transfer_created, transfer_exists, already_posted, already_voided,
  exceeds_credits, pending_expired, transfer_failed,
}
use pixel_beetle.TbClient.Ids.{system_pool_id}
use pixel_beetle.TbClient.Transfers.{
  ledger_canvas, account_code_system, account_code_pixel, fund_transfer,
}

-- `transport` is an error of the call itself, `rejected` a status that no branch expects.
pub data TbError : Type 0 where
  pixel_locked claim_expired transport rejected : TbError

-- The `switch` of `SubmitBatch`, and its loop: the first status that is no success decides.
-- `none` is the nil error.
unfoldable pub status_error : TransferStatus → Option TbError
status_error transfer_created = none
status_error transfer_exists = none
status_error already_posted = none
status_error already_voided = none
status_error exceeds_credits = some pixel_locked
status_error pending_expired = some claim_expired
status_error (transfer_failed _) = some rejected

abbrev pub or_next : Option TbError → Option TbError → Option TbError
or_next none e = e
or_next (some e) _ = some e

unfoldable pub submit_errors : List TransferStatus → Option TbError
submit_errors [] = none
submit_errors (r ∷ results) = or_next (status_error r) (submit_errors results)

abbrev pub reply_error {ℓ} : {A : Type ℓ} → (A → Option TbError) → Option A → Option TbError
reply_error f none = some transport
reply_error f (some results) = f results

-- The loop over the answers of `createAccounts`.
unfoldable pub account_errors : List AccountStatus → Option TbError
account_errors [] = none
account_errors (account_created ∷ results) = account_errors results
account_errors (account_exists ∷ results) = account_errors results
account_errors (account_failed _ ∷ results) = some rejected

-- The loop over the answers of `submitFundBatch`: only created and exists are successes.
unfoldable pub fund_errors : List TransferStatus → Option TbError
fund_errors [] = none
fund_errors (transfer_created ∷ results) = fund_errors results
fund_errors (transfer_exists ∷ results) = fund_errors results
fund_errors (already_posted ∷ results) = some rejected
fund_errors (already_voided ∷ results) = some rejected
fund_errors (exceeds_credits ∷ results) = some rejected
fund_errors (pending_expired ∷ results) = some rejected
fund_errors (transfer_failed _ ∷ results) = some rejected

module _ (tb : TbLib) where
  abbrev pub pixel_account : ℕ → Account
  pixel_account id = record {
    id = id;
    ledger = ledger_canvas;
    code = account_code_pixel;
    flags = tb.debits_must_not_exceed_credits;
  }

  abbrev pub pool_account : Account
  pool_account = record {
    id = system_pool_id tb;
    ledger = ledger_canvas;
    code = account_code_system;
    flags = 0;
  }

module _ {S : Type 0} (tb : TbLib) (server : TbServer S) where
  unfoldable pub submit_batch : List Transfer → S → Option TbError × S
  submit_batch transfers s =
      let (results, s') = server.create_transfers transfers s in
      (reply_error submit_errors results, s')

  abbrev pub submit : Transfer → S → Option TbError × S
  submit t = submit_batch (t ∷ [])

  unfoldable pub submit_fund_batch : List Transfer → S → Option TbError × S
  submit_fund_batch transfers s =
      let (results, s') = server.create_transfers transfers s in
      (reply_error fund_errors results, s')

  unfoldable pub create_accounts : Bool → List ℕ → S → Option TbError × S
  create_accounts include_system_pool pixel_ids s =
      let pool = if include_system_pool then pool_account tb ∷ [] else [] in
      let (results, s') = server.create_accounts (pool ++ map (pixel_account tb) pixel_ids) s in
      (reply_error account_errors results, s')

  abbrev pub ensure_accounts : List ℕ → S → Option TbError × S
  ensure_accounts = create_accounts true

  abbrev pub fund : ℕ → ℕ → S → Option TbError × S
  fund x y = submit_batch (fund_transfer tb x y ∷ [])

module _ {S : Type 0} (server : TbServer S) where
  abbrev pub query_canvas_transfers : ℕ → ℕ → S → Option (List Transfer)
  query_canvas_transfers from limit =
      server.query_transfers
        (record { ledger = ledger_canvas; timestamp_min = from; limit = limit })
