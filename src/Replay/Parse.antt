-- ===== src/Replay/Parse.antt =====
-- internal/replay/parse.go: numbers as the CDC producer writes them, and ParseMessage. encoding/json is
-- a parameter: it splits a body into the fields that the structs name, a number that has a method of
-- its own as the bytes of its token, and it reads a quoted token. `none` is an error. The conversion
-- of a big integer to a Uint128 is a parameter too.
pub mod Numbers
pub mod Claims
use pixel_beetle.Prelude.{
  ℕ, ◌+◌, ◌-◌, ◌*◌, ◌%◌, ◌^◌, Bool, true, false, ◌&&◌, ◌||◌, Option, none, some, List, [], ◌∷◌, ltb,
  leb, ◌==◌, if◌then◌else◌, same_bytes, codes, decimal_from, digits, set_string,
}
use pixel_beetle.TbClient.External.{TbLib}
use pixel_beetle.TbClient.Ids.{unpack_pixel_id}
use pixel_beetle.TbClient.Transfers.{transfer_code_claim}
use pixel_beetle.Game.Resolution.{Event}

infixl 5 ◌>>=◌
abbrev pub ◌>>=◌ : {A B : Type 0} → Option A → (A → Option B) → Option B
none >>= f = none
some a >>= f = f a

abbrev pub u128_range : Bool × ℕ → Option ℕ
u128_range (negative, v) = if negative || leb (2 ^ 128) v then none else some v

abbrev pub u64_range : ℕ → Option ℕ
u64_range v = if leb (2 ^ 64) v then none else some v

abbrev pub is_null : List ℕ → Bool
is_null b = same_bytes b [] || same_bytes b (codes "null")

-- What the decoder hands over: a field that the body leaves out is `none`.
pub record CdcTokens : Type 0 where
  pub timestamp : Option (List ℕ)
  pub type_name : List ℕ
  pub transfer_id : Option (List ℕ)
  pub amount : Option (List ℕ)
  pub pending_id : Option (List ℕ)
  pub user_data_128 : Option (List ℕ)
  pub code : ℕ
  pub transfer_timestamp : Option (List ℕ)
  pub debit_id : Option (List ℕ)
  pub credit_id : Option (List ℕ)

pub record CdcBody : Type 0 where
  pub timestamp : ℕ
  pub type_name : List ℕ
  pub transfer_id : ℕ
  pub user_data_128 : ℕ
  pub code : ℕ
  pub transfer_timestamp : ℕ
  pub debit_id : ℕ

abbrev pub type_pending : List ℕ
type_pending = codes "two_phase_pending"

abbrev pub type_posted : List ℕ
type_posted = codes "two_phase_posted"

pub record JsonLib : Type 0 where
  pub tokens : List ℕ → Option CdcTokens
  pub unquote : List ℕ → Option (List ℕ)

module _ (json : JsonLib) where
  abbrev pub token_text : List ℕ → Option (List ℕ)
  token_text [] = some []
  token_text (c ∷ s) = if c == 34 then json.unquote (c ∷ s) else some (c ∷ s)

  -- `cdcU64.UnmarshalJSON`
  unfoldable pub cdc_u64 : List ℕ → Option ℕ
  unfolding decimal_from
  cdc_u64 b = if is_null b then some 0 else token_text b >>= λ s. digits s >>= u64_range

  abbrev pub u64_field : Option (List ℕ) → Option ℕ
  u64_field none = some 0
  u64_field (some b) = cdc_u64 b

  module _ (tb : TbLib) (big_int_to_uint128 : ℕ → ℕ) where
    -- `cdcU128.UnmarshalJSON`
    unfoldable pub cdc_u128 : List ℕ → Option ℕ
    unfolding decimal_from
    cdc_u128 b =
        if is_null b
        then some (tb.to_uint128 0)
        else token_text b >>= λ s.
            set_string s >>= λ n. u128_range n >>= λ v. some (big_int_to_uint128 v)

    abbrev pub u128_field : Option (List ℕ) → Option ℕ
    u128_field none = some 0
    u128_field (some b) = cdc_u128 b

    -- `json.Unmarshal` into a `cdcBody`.
    abbrev pub cdc_body : CdcTokens → Option CdcBody
    cdc_body t = u64_field t.timestamp >>= λ timestamp. u128_field t.transfer_id >>= λ id.
        u128_field t.amount >>= λ amount. u128_field t.pending_id >>= λ pending_id.
        u128_field t.user_data_128 >>= λ user_data.
        u64_field t.transfer_timestamp >>= λ transfer_timestamp.
        u128_field t.debit_id >>= λ debit_id. u128_field t.credit_id >>= λ credit_id. some (record {
          timestamp = timestamp;
          type_name = t.type_name;
          transfer_id = id;
          user_data_128 = user_data;
          code = t.code;
          transfer_timestamp = transfer_timestamp;
          debit_id = debit_id;
        })

    abbrev pub claim_color : ℕ → ℕ
    claim_color code =
        if leb transfer_code_claim code then (code - transfer_code_claim) % 2 ^ 8 else 0

    -- The pixel and the color, of a claim event only.
    abbrev pub at_pixel : ℕ → Option (ℕ × ℕ) → Event → Event
    at_pixel code none ev = ev
    at_pixel code (some (x, y)) ev = record ev { x = x; y = y; color = claim_color code }

    abbrev pub plain_event : CdcBody → Event
    plain_event m = record {
      posted = same_bytes m.type_name type_posted;
      timestamp = if ltb 0 m.transfer_timestamp then m.transfer_timestamp else m.timestamp;
      x = 0;
      y = 0;
      color = 0;
      player = tb.bytes m.user_data_128;
      transfer_id = m.transfer_id;
    }

    abbrev pub event_of : CdcBody → Option Event
    event_of m =
        if same_bytes m.type_name []
        then none
        else if same_bytes m.type_name type_posted || same_bytes m.type_name type_pending
        then some (at_pixel m.code (unpack_pixel_id tb m.debit_id) (plain_event m))
        else some (plain_event m)

    unfoldable pub parse_message : List ℕ → Option Event
    unfolding cdc_u64 cdc_u128 unpack_pixel_id
    parse_message body = json.tokens body >>= cdc_body >>= event_of
