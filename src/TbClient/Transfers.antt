-- ===== src/TbClient/Transfers.antt =====
-- The transfers of internal/tbclient/tbclient.go, and the reading of a posted claim.
use Prim.Native.Nat.{bit_and}
use pixel_beetle.Prelude.{
  ℕ, ◌+◌, ◌-◌, ◌%◌, ◌^◌, ◌<◌, ◌≡◌, true, ◌||◌, Option, none, some, List, [], ◌∷◌, arith, ltb, leb,
  ◌==◌, if◌then◌else◌,
}
use pixel_beetle.TbClient.External.{TbLib, TbLaws, TransferFlags, no_flags, Transfer}
use pixel_beetle.TbClient.Ids.{
  system_pool_id, pixel_id, fund_id, unpack_pixel_id, unpack_pixel_id-pixel_id,
}

abbrev pub ledger_canvas : ℕ
ledger_canvas = 1

abbrev pub account_code_system : ℕ
account_code_system = 999

abbrev pub account_code_pixel : ℕ
account_code_pixel = 1000

abbrev pub transfer_code_claim : ℕ
transfer_code_claim = 1000

abbrev pub transfer_code_refund : ℕ
transfer_code_refund = 1001

abbrev pub max_color : ℕ
max_color = 15

abbrev pub claim_timeout_seconds : ℕ
claim_timeout_seconds = 3

abbrev pub post_flags : TransferFlags
post_flags = record no_flags { post_pending_transfer = true }

-- A field that the source leaves out is zero.
abbrev pub zero_transfer : Transfer
zero_transfer = record {
  id = 0;
  debit_account_id = 0;
  credit_account_id = 0;
  amount = 0;
  pending_id = 0;
  user_data_128 = 0;
  timeout = 0;
  ledger = 0;
  code = 0;
  flags = 0;
  timestamp = 0;
}

abbrev pub clamp_color : ℕ → ℕ
clamp_color color = if ltb max_color color then max_color else color

-- The argument `uuid` is the 16 bytes that `uuid.NewV7` returned.
module _ (tb : TbLib) where
  unfoldable pub fund_transfer : ℕ → ℕ → Transfer
  fund_transfer x y = record zero_transfer {
    id = fund_id tb x y;
    debit_account_id = system_pool_id tb;
    credit_account_id = pixel_id tb x y;
    amount = tb.to_uint128 1;
    code = transfer_code_refund;
    ledger = ledger_canvas;
  }

  unfoldable pub new_claim : ℕ → ℕ → ℕ → ℕ → ℕ → Transfer
  new_claim uuid x y color player = record zero_transfer {
    id = tb.bytes_to_uint128 uuid;
    debit_account_id = pixel_id tb x y;
    credit_account_id = system_pool_id tb;
    amount = tb.to_uint128 1;
    user_data_128 = tb.bytes_to_uint128 player;
    code = transfer_code_claim + clamp_color color;
    timeout = claim_timeout_seconds;
    ledger = ledger_canvas;
    flags = tb.transfer_flags (record no_flags { pending = true });
  }

  abbrev pub claim_of : ℕ → ℕ → ℕ → Option (ℕ × ℕ) → Option (ℕ × ℕ × ℕ)
  claim_of grid_w grid_h code none = none
  claim_of grid_w grid_h code (some (x, y)) =
      if leb grid_w x || leb grid_h y
      then none
      else if ltb code transfer_code_claim
      then none
      else some (x, y, (code - transfer_code_claim) % 2 ^ 8)

  -- `none` is `ok == false`; the color is cut to a byte.
  unfoldable pub is_posted_claim : Transfer → ℕ → ℕ → Option (ℕ × ℕ × ℕ)
  is_posted_claim t grid_w grid_h =
      if bit_and t.flags (tb.transfer_flags post_flags) == 0
      then none
      else claim_of grid_w grid_h t.code (unpack_pixel_id tb t.debit_account_id)

  unfoldable pub build_post : ℕ → ℕ → Transfer
  build_post uuid claim_id = record zero_transfer {
    id = tb.bytes_to_uint128 uuid;
    pending_id = claim_id;
    flags = tb.transfer_flags post_flags;
  }

  unfoldable pub build_void : ℕ → ℕ → Transfer
  build_void uuid claim_id = record zero_transfer {
    id = tb.bytes_to_uint128 uuid;
    pending_id = claim_id;
    flags = tb.transfer_flags (record no_flags { void_pending_transfer = true });
  }

  unfoldable pub build_confirm : ℕ → ℕ → ℕ → ℕ → ℕ → List Transfer
  build_confirm uuid uuid' claim_id x y =
      record (build_post uuid claim_id) {
        flags = tb.transfer_flags (record post_flags { linked = true });
      }
      ∷ record zero_transfer {
        id = tb.bytes_to_uint128 uuid';
        debit_account_id = system_pool_id tb;
        credit_account_id = pixel_id tb x y;
        amount = tb.to_uint128 1;
        code = transfer_code_refund;
        ledger = ledger_canvas;
      }
      ∷ []

module _ {tb : TbLib} (laws : TbLaws tb) where
  -- Under the documented behaviour of the conversions, on a grid with sides of 32 bits, a transfer
  -- that carries the debit account and the code of a claim of an in-bounds pixel reads back as that
  -- pixel and the color, cut at 15, if its flags have the post bit, and as no posted claim if not.
  pub is_posted_claim-new_claim :
      (f : TransferFlags) (t : Transfer) (uuid x y color player w h : ℕ)
      → w < 2 ^ 32
      → h < 2 ^ 32
      → x < w
      → y < h
      → t.debit_account_id ≡ (new_claim tb uuid x y color player).debit_account_id
      → t.code ≡ (new_claim tb uuid x y color player).code
      → t.flags ≡ tb.transfer_flags f
      → is_posted_claim tb t w h
        ≡ (if f.post_pending_transfer then some (x, y, clamp_color color) else none)
  unfolding is_posted_claim new_claim
  is_posted_claim-new_claim f t uuid x y color player w h hw hh hx hy debit code flags =
      ground (arith, laws.post_bit f, unpack_pixel_id-pixel_id laws x y (omega arith) (omega arith))
