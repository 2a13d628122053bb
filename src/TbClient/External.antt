-- ===== src/TbClient/External.antt =====
-- What internal/tbclient/tbclient.go takes from github.com/tigerbeetle/tigerbeetle-go: the fields that
-- it sets and reads, and the functions that it calls, as parameters. A Go `[16]byte` is the number
-- that its bytes spell in little-endian order, as is a `tb.Uint128`.
use Prim.Native.Nat.{bit_and}
use pixel_beetle.Prelude.{ℕ, ◌+◌, ◌*◌, ◌^◌, ◌<◌, ◌≡◌, Bool, true, false, not, Option, List, ◌==◌}

pub record TransferFlags : Type 0 where
  pub linked : Bool
  pub pending : Bool
  pub post_pending_transfer : Bool
  pub void_pending_transfer : Bool

abbrev pub no_flags : TransferFlags
no_flags = record {
  linked = false;
  pending = false;
  post_pending_transfer = false;
  void_pending_transfer = false;
}

pub record Transfer : Type 0 where
  pub id : ℕ
  pub debit_account_id : ℕ
  pub credit_account_id : ℕ
  pub amount : ℕ
  pub pending_id : ℕ
  pub user_data_128 : ℕ
  pub timeout : ℕ
  pub ledger : ℕ
  pub code : ℕ
  pub flags : ℕ
  pub timestamp : ℕ

pub record Account : Type 0 where
  pub id : ℕ
  pub ledger : ℕ
  pub code : ℕ
  pub flags : ℕ

pub data AccountStatus : Type 0 where
  account_created account_exists : AccountStatus
  account_failed : ℕ → AccountStatus

pub data TransferStatus : Type 0 where
  transfer_created transfer_exists already_posted already_voided : TransferStatus
  exceeds_credits pending_expired : TransferStatus
  transfer_failed : ℕ → TransferStatus

pub record QueryFilter : Type 0 where
  pub ledger : ℕ
  pub timestamp_min : ℕ
  pub limit : ℕ

-- The conversions.
pub record TbLib : Type 0 where
  pub to_uint128 : ℕ → ℕ
  pub bytes_to_uint128 : ℕ → ℕ
  pub bytes : ℕ → ℕ
  pub uint64 : ℕ → ℕ × ℕ
  pub transfer_flags : TransferFlags → ℕ
  pub debits_must_not_exceed_credits : ℕ

-- What they are documented to do: the bytes are kept in order, `Uint64` returns the low and the
-- high half, and each flag has a bit of its own.
pub record TbLaws (tb : TbLib) : Type 0 where
  pub uint64-bytes_to_uint128 :
      (lo hi : ℕ)
      → lo < 2 ^ 64
      → hi < 2 ^ 64
      → tb.uint64 (tb.bytes_to_uint128 (lo + hi * 2 ^ 64)) ≡ (lo, hi)
  pub uint64-to_uint128 : (v : ℕ) → v < 2 ^ 64 → tb.uint64 (tb.to_uint128 v) ≡ (v, 0)
  pub bytes-bytes_to_uint128 : (b : ℕ) → b < 2 ^ 128 → tb.bytes (tb.bytes_to_uint128 b) ≡ b
  pub post_bit :
      (f : TransferFlags)
      → (bit_and
            (tb.transfer_flags f)
            (tb.transfer_flags (record no_flags { post_pending_transfer = true }))
          == 0)
        ≡ not f.post_pending_transfer

-- The client over a server whose state is `S`; `none` is a Go error.
pub record TbServer (S : Type 0) : Type 0 where
  pub create_accounts : List Account → S → Option (List AccountStatus) × S
  pub create_transfers : List Transfer → S → Option (List TransferStatus) × S
  pub query_transfers : QueryFilter → S → Option (List Transfer)
