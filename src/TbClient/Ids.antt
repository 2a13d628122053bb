-- ===== src/TbClient/Ids.antt =====
-- Account and transfer ids of internal/tbclient/tbclient.go.
use pixel_beetle.Prelude.{
  ℕ, ◌+◌, ◌*◌, ◌/◌, ◌%◌, ◌^◌, ◌<◌, ◌≡◌, Option, none, some, arith, ◌==◌, if◌then◌else◌,
}
use pixel_beetle.TbClient.External.{TbLib, TbLaws}

abbrev pub pixel_id_marker : ℕ
pixel_id_marker = 1

abbrev pub fund_marker : ℕ
fund_marker = 0xf00d

-- The 16 bytes that two `PutUint64` calls fill, at offsets 0 and 8.
abbrev pub halves : ℕ → ℕ → ℕ
halves lo hi = lo + hi * 2 ^ 64

module _ (tb : TbLib) where
  abbrev pub system_pool_id : ℕ
  system_pool_id = tb.to_uint128 1

  unfoldable pub pixel_id : ℕ → ℕ → ℕ
  pixel_id x y = tb.bytes_to_uint128 (halves (x * 2 ^ 32 + y) pixel_id_marker)

  unfoldable pub fund_id : ℕ → ℕ → ℕ
  fund_id x y = tb.bytes_to_uint128 (halves (x * 2 ^ 32 + y) fund_marker)

  abbrev pub unpack_halves : ℕ × ℕ → Option (ℕ × ℕ)
  unpack_halves (lo, hi) =
      if hi == pixel_id_marker then some (lo / 2 ^ 32 % 2 ^ 32, lo % 2 ^ 32) else none

  -- `none` is `ok == false`.
  unfoldable pub unpack_pixel_id : ℕ → Option (ℕ × ℕ)
  unpack_pixel_id id = unpack_halves (tb.uint64 id)

module _ {tb : TbLib} (laws : TbLaws tb) (x y : ℕ) (hx : x < 2 ^ 32) (hy : y < 2 ^ 32) where
  uint64-pixel_id : tb.uint64 (pixel_id tb x y) ≡ (x * 2 ^ 32 + y, 1)
  unfolding pixel_id
  uint64-pixel_id = laws.uint64-bytes_to_uint128 (x * 2 ^ 32 + y) 1 (omega arith) (omega arith)

  pub unpack_pixel_id-pixel_id : unpack_pixel_id tb (pixel_id tb x y) ≡ some (x, y)
  unfolding unpack_pixel_id
  unpack_pixel_id-pixel_id = rw (uint64-pixel_id, unpack_halves) (ground arith)

  unpack_pixel_id-fund_id : unpack_pixel_id tb (fund_id tb x y) ≡ none
  unfolding unpack_pixel_id fund_id
  unpack_pixel_id-fund_id =
      rw (laws.uint64-bytes_to_uint128 (x * 2 ^ 32 + y) 0xf00d (omega arith) (omega arith))
        (ground arith)

  unpack_pixel_id-system_pool_id : unpack_pixel_id tb (system_pool_id tb) ≡ none
  unfolding unpack_pixel_id
  unpack_pixel_id-system_pool_id = rw (laws.uint64-to_uint128 1 (omega arith)) (ground arith)

  -- Under the documented behaviour of the conversions, the id of a pixel with 32-bit coordinates
  -- unpacks to those coordinates, and neither a fund transfer's id nor the system pool's id unpacks
  -- as a pixel.
  pub pixel_id_namespace :
      (unpack_pixel_id tb (pixel_id tb x y) ≡ some (x, y))
      × (unpack_pixel_id tb (fund_id tb x y) ≡ none)
      × (unpack_pixel_id tb (system_pool_id tb) ≡ none)
  pixel_id_namespace =
      (unpack_pixel_id-pixel_id, unpack_pixel_id-fund_id, unpack_pixel_id-system_pool_id)
