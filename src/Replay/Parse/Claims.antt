-- ===== src/Replay/Parse/Claims.antt =====
-- What ParseMessage (internal/replay/parse.go) makes of the event of a claim.
use pixel_beetle.Prelude.{
  ℕ, ◌+◌, ◌^◌, ◌<◌, ◌≡◌, refl, ap, ◌∙◌, ◌⊎◌, inl, inr, Option, some, List, arith, ltb,
  if◌then◌else◌, same_bytes,
}
use pixel_beetle.TbClient.External.{TbLib, TbLaws, Transfer}
use pixel_beetle.TbClient.Ids.{unpack_pixel_id, unpack_pixel_id-pixel_id}
use pixel_beetle.TbClient.Transfers.{new_claim, clamp_color}
use pixel_beetle.Replay.Parse.{
  JsonLib, CdcTokens, CdcBody, ◌>>=◌, type_posted, type_pending, u64_field, u128_field, cdc_body,
  event_of, parse_message,
}
use pixel_beetle.Replay.Parse.Numbers.{UnquotesNumbers, Spells, cdc_u64-Spells, cdc_u128-Spells}

-- A field with the decimal of a number, bare or in quotes.
abbrev pub Holds : ℕ → Option (List ℕ) → Type 0
Holds v o = (b : List ℕ) × (o ≡ some b) × Spells v b

-- A field with the decimal of a 128-bit number that is converted to `u`.
abbrev pub Holds128 : (ℕ → ℕ) → ℕ → Option (List ℕ) → Type 0
Holds128 big_int_to_uint128 u o = (v : ℕ) × (v < 2 ^ 128) × (big_int_to_uint128 v ≡ u) × Holds v o

-- The fields of the event that the CDC producer writes for the transfer `t` at the time `ts`.
pub record Describes (big_int_to_uint128 : ℕ → ℕ) (t : Transfer) (ts : ℕ) (f : CdcTokens)
    : Type 0 where
  pub stamped : Holds ts f.timestamp
  pub id : Holds128 big_int_to_uint128 t.id f.transfer_id
  pub amount : Holds128 big_int_to_uint128 t.amount f.amount
  pub pending_id : Holds128 big_int_to_uint128 t.pending_id f.pending_id
  pub user_data_128 : Holds128 big_int_to_uint128 t.user_data_128 f.user_data_128
  pub timestamp : Holds t.timestamp f.transfer_timestamp
  pub debit : Holds128 big_int_to_uint128 t.debit_account_id f.debit_id
  pub credit : Holds128 big_int_to_uint128 t.credit_account_id f.credit_id
  pub code : f.code ≡ t.code

module _ (json : JsonLib) (unquotes : UnquotesNumbers json) (tb : TbLib)
    (big_int_to_uint128 : ℕ → ℕ) where
  u128_field-Holds128 :
      (u : ℕ) (o : Option (List ℕ))
      → Holds128 big_int_to_uint128 u o
      → u128_field json tb big_int_to_uint128 o ≡ some u
  u128_field-Holds128 u o (v, l, back, (b, e, h)) =
      ap (u128_field json tb big_int_to_uint128) e
      ∙ (cdc_u128-Spells json unquotes tb big_int_to_uint128 v b h ∙ ground (arith, l, back))

  u64_field-Holds :
      (v : ℕ) (o : Option (List ℕ)) → v < 2 ^ 64 → Holds v o → u64_field json o ≡ some v
  u64_field-Holds v o l (b, e, h) =
      ap (u64_field json) e ∙ (cdc_u64-Spells json unquotes v b h ∙ ground (arith, l))

  abbrev body_of : Transfer → ℕ → CdcTokens → CdcBody
  body_of t ts f = record {
    timestamp = ts;
    type_name = f.type_name;
    transfer_id = t.id;
    user_data_128 = t.user_data_128;
    code = f.code;
    transfer_timestamp = t.timestamp;
    debit_id = t.debit_account_id;
  }

  cdc_body-Describes :
      (t : Transfer) (ts : ℕ) (f : CdcTokens)
      → ts < 2 ^ 64
      → t.timestamp < 2 ^ 64
      → Describes big_int_to_uint128 t ts f
      → cdc_body json tb big_int_to_uint128 f ≡ some (body_of t ts f)
  cdc_body-Describes t ts f l l' d =
      let stamped = u64_field-Holds ts f.timestamp l d.stamped in
      let id = u128_field-Holds128 t.id f.transfer_id d.id in
      let amount = u128_field-Holds128 t.amount f.amount d.amount in
      let pending_id = u128_field-Holds128 t.pending_id f.pending_id d.pending_id in
      let user_data = u128_field-Holds128 t.user_data_128 f.user_data_128 d.user_data_128 in
      let time = u64_field-Holds t.timestamp f.transfer_timestamp l' d.timestamp in
      let debit = u128_field-Holds128 t.debit_account_id f.debit_id d.debit in
      let credit = u128_field-Holds128 t.credit_account_id f.credit_id d.credit in
      rw (stamped, id, amount, pending_id, user_data, time, debit, credit) refl

  module _ (laws : TbLaws tb) (uuid x y color player ts : ℕ) (t : Transfer) (body : List ℕ)
      (f : CdcTokens) (fields : json.tokens body ≡ some f)
      (described : Describes big_int_to_uint128 t ts f) where
    abbrev claim : Transfer
    claim = new_claim tb uuid x y color player

    event_of-claim :
        (id time user debit : ℕ) (f : CdcTokens)
        → (f.type_name ≡ type_posted) ⊎ (f.type_name ≡ type_pending)
        → unpack_pixel_id tb debit ≡ some (x, y)
        → tb.bytes user ≡ player
        → f.code ≡ 1000 + clamp_color color
        → event_of json tb big_int_to_uint128 (record {
          timestamp = ts;
          type_name = f.type_name;
          transfer_id = id;
          user_data_128 = user;
          code = f.code;
          transfer_timestamp = time;
          debit_id = debit;
        })
          ≡ some (record {
            posted = same_bytes f.type_name type_posted;
            timestamp = if ltb 0 time then time else ts;
            x = x;
            y = y;
            color = clamp_color color;
            player = player;
            transfer_id = id;
          })
    event_of-claim id time user debit f (inl named) pixel user' code =
        rw (named, pixel, user', code) (ground arith)
    event_of-claim id time user debit f (inr named) pixel user' code =
        rw (named, pixel, user', code) (ground arith)

    -- The event of a transfer with the debit account, the code and the player of a claim, where the
    -- body names it posted or pending: ParseMessage returns the claim's pixel, its color cut at 15,
    -- its player, and the id and the timestamp of the transfer, or that of the message where the
    -- transfer has none. The decoder reads quoted decimals, times are below 2 ^ 64, and the
    -- conversions are as documented.
    pub parse_message-new_claim :
        (x < 2 ^ 32) × (y < 2 ^ 32) × (player < 2 ^ 128) × (ts < 2 ^ 64) × (t.timestamp < 2 ^ 64)
        → (f.type_name ≡ type_posted) ⊎ (f.type_name ≡ type_pending)
        → t.debit_account_id ≡ claim.debit_account_id
        → t.user_data_128 ≡ claim.user_data_128
        → t.code ≡ claim.code
        → parse_message json tb big_int_to_uint128 body
          ≡ some (record {
            posted = same_bytes f.type_name type_posted;
            timestamp = if ltb 0 t.timestamp then t.timestamp else ts;
            x = x;
            y = y;
            color = clamp_color color;
            player = player;
            transfer_id = t.id;
          })
    unfolding parse_message new_claim
    parse_message-new_claim (hx, hy, hp, hts, ht) named debit user code =
        let pixel : unpack_pixel_id tb t.debit_account_id ≡ some (x, y) =
          ap (unpack_pixel_id tb) debit ∙ unpack_pixel_id-pixel_id laws x y hx hy in
        let user' : tb.bytes t.user_data_128 ≡ player =
          ap tb.bytes user ∙ laws.bytes-bytes_to_uint128 player hp in
        let code' = described.code ∙ code in
        ap (λ o. o >>= cdc_body json tb big_int_to_uint128 >>= event_of json tb big_int_to_uint128)
          fields
        ∙ (ap (λ o. o >>= event_of json tb big_int_to_uint128)
              (cdc_body-Describes t ts f hts ht described)
            ∙ event_of-claim t.id t.timestamp t.user_data_128 t.debit_account_id f named pixel user'
                code')
