-- ===== src/Replay/Parse/Numbers.antt =====
-- The numbers of internal/replay/parse.go against the decimals that a producer writes.
use pixel_beetle.Prelude.{
  ℕ, ◌^◌, ◌≡◌, ap, ◌∙◌, ◌⊎◌, inl, inr, false, Option, none, some, List, [], ◌∷◌, ◌++◌, ltb,
  if◌then◌else◌, arith, digits, set_string, signed_by, decimal, decimal_from-decimal,
  StartsWithDigit, decimal-StartsWithDigit, digits-decimal, set_string-digit,
}
use pixel_beetle.TbClient.External.{TbLib}
use pixel_beetle.Replay.Parse.{
  JsonLib, ◌>>=◌, is_null, token_text, cdc_u64, cdc_u128, u64_range, u128_range,
}

-- A token that starts with a digit is no null, is not quoted and has no sign.
module _ (json : JsonLib) where
  token_text-digit : (s : List ℕ) → StartsWithDigit s → token_text json s ≡ some s
  token_text-digit [] h = absurd h
  token_text-digit (c ∷ s) h = ground (arith, h)

is_null-digit : (s : List ℕ) → StartsWithDigit s → is_null s ≡ false
is_null-digit [] h = absurd h
is_null-digit (c ∷ s) h = ground (arith, h)

is_null-quote : (s : List ℕ) → is_null (34 ∷ s) ≡ false
is_null-quote s = ground arith

-- The decimal of `v`, and the same in quotes.
abbrev pub plain : ℕ → List ℕ
plain v = decimal v v

abbrev pub quoted : ℕ → List ℕ
quoted v = 34 ∷ (plain v ++ 34 ∷ [])

-- The decoder reads a quoted decimal.
abbrev pub UnquotesNumbers : JsonLib → Type 0
UnquotesNumbers json = (v : ℕ) → json.unquote (quoted v) ≡ some (plain v)

-- A token that is a decimal as it stands or in quotes.
abbrev pub Spells : ℕ → List ℕ → Type 0
Spells v b = (b ≡ plain v) ⊎ (b ≡ quoted v)

module _ (json : JsonLib) (unquotes : UnquotesNumbers json) where
  Spells-token_text :
      (v : ℕ) (b : List ℕ) → Spells v b → (is_null b ≡ false) × (token_text json b ≡ some (plain v))
  Spells-token_text v b (inl e) = (
    ap is_null e ∙ is_null-digit (plain v) (decimal-StartsWithDigit v v),
    ap (token_text json) e ∙ token_text-digit json (plain v) (decimal-StartsWithDigit v v),
  )
  Spells-token_text v b (inr e) =
      (ap is_null e ∙ is_null-quote (plain v ++ 34 ∷ []), ap (token_text json) e ∙ unquotes v)

  -- A 64-bit number is read from its decimal, bare or in quotes, and a larger one is refused.
  pub cdc_u64-Spells :
      (v : ℕ) (b : List ℕ) → Spells v b → cdc_u64 json b ≡ (if ltb v (2 ^ 64) then some v else none)
  unfolding cdc_u64
  cdc_u64-Spells v b h =
      let (plain_token, text) = Spells-token_text v b h in
      let spelled =
        digits-decimal (plain v) (decimal-StartsWithDigit v v)
        ∙ decimal_from-decimal v v (omega arith) in
      ap (λ t. if t then some 0 else token_text json b >>= λ s. digits s >>= u64_range) plain_token
      ∙ (ap (λ o. o >>= λ s. digits s >>= u64_range) text
          ∙ (ap (λ o. o >>= u64_range) spelled ∙ ground arith))

  -- A 128-bit number is read from its decimal, bare or in quotes, and a larger one is refused.
  pub cdc_u128-Spells :
      (tb : TbLib) (big_int_to_uint128 : ℕ → ℕ) (v : ℕ) (b : List ℕ)
      → Spells v b
      → cdc_u128 json tb big_int_to_uint128 b
        ≡ (if ltb v (2 ^ 128) then some (big_int_to_uint128 v) else none)
  unfolding cdc_u128
  cdc_u128-Spells tb big v b h =
      let (plain_token, text) = Spells-token_text v b h in
      let spelled =
        set_string-digit (plain v) (decimal-StartsWithDigit v v)
        ∙ ap (signed_by false) (decimal_from-decimal v v (omega arith)) in
      let read : List ℕ → Option ℕ =
        λ s. set_string s >>= λ n. u128_range n >>= λ u. some (big u) in
      ap (λ t. if t then some (tb.to_uint128 0) else token_text json b >>= read) plain_token
      ∙ (ap (λ o. o >>= read) text
          ∙ (ap (λ o. o >>= λ n. u128_range n >>= λ u. some (big u)) spelled ∙ ground arith))
