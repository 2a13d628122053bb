-- ===== src/Bot/Transport/Direct.antt =====
-- The direct mode of internal/bot/bot.go: the text of a claim leads back to its transfer.
use pixel_beetle.Prelude.{ℕ, Bool, true, false, List, [], ◌∷◌}
use pixel_beetle.TbClient.External.{TbLib, TbServer, Transfer}
use pixel_beetle.TbClient.Ids.{system_pool_id, pixel_id}

module _ {S : Type 0} (tb : TbLib) (server : TbServer S) where
  -- The transfers that settle a pending transfer `id`: a post of it, linked to the transfer of one unit
  -- from the pool back to the pixel, or a void of it.
  abbrev pub settlement : ℕ → ℕ → ℕ → ℕ → Bool → ℕ → List Transfer
  settlement uuid uuid' x y true id =
      record {
        id = tb.bytes_to_uint128 uuid;
        debit_account_id = 0;
        credit_account_id = 0;
        amount = 0;
        pending_id = id;
        user_data_128 = 0;
        timeout = 0;
        ledger = 0;
        code = 0;
        flags = tb.transfer_flags (record {
          linked = true;
          pending = false;
          post_pending_transfer = true;
          void_pending_transfer = false;
        });
        timestamp = 0;
      }
      ∷ record {
        id = tb.bytes_to_uint128 uuid';
        debit_account_id = system_pool_id tb;
        credit_account_id = pixel_id tb x y;
        amount = tb.to_uint128 1;
        pending_id = 0;
        user_data_128 = 0;
        timeout = 0;
        ledger = 1;
        code = 1001;
        flags = 0;
        timestamp = 0;
      }
      ∷ []
  settlement uuid uuid' x y false id =
      record {
        id = tb.bytes_to_uint128 uuid;
        debit_account_id = 0;
        credit_account_id = 0;
        amount = 0;
        pending_id = id;
        user_data_128 = 0;
        timeout = 0;
        ledger = 0;
        code = 0;
        flags = tb.transfer_flags (record {
          linked = false;
          pending = false;
          post_pending_transfer = false;
          void_pending_transfer = true;
        });
        timestamp = 0;
      }
      ∷ []
