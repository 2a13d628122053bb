-- ===== src/Canvas.antt =====
-- internal/canvas/bitmap.go: the packed bitmap. The index `y*b.W+x` and the size `w*h` are computed in
-- 32 bits; an index out of range panics, which is `none`. base64 is a parameter: `encode`, and
-- `decode`, where `none` is its error.
pub mod Cells
mod Tests
use pixel_beetle.Prelude.{
  ℕ, ◌+◌, ◌*◌, ◌%◌, ◌^◌, Option, none, some, List, ltb, ◌==◌, if◌then◌else◌, length, get_elem?, set,
  replicate,
}

pub record Bitmap : Type 0 where
  pub data_bytes : List ℕ
  pub w : ℕ
  pub h : ℕ

unfoldable pub new_bitmap : ℕ → ℕ → Bitmap
new_bitmap w h = record { data_bytes = replicate (w * h % 2 ^ 32) 0; w = w; h = h }

abbrev pub index : ℕ → ℕ → Bitmap → ℕ
index x y b = (y * b.w % 2 ^ 32 + x) % 2 ^ 32

-- `Set`
unfoldable pub set_cell : ℕ → ℕ → ℕ → Bitmap → Option Bitmap
set_cell x y color b =
    if ltb (index x y b) (length b.data_bytes)
    then some (record b { data_bytes = set b.data_bytes (index x y b) color })
    else none

-- `Get`
unfoldable pub get_cell : ℕ → ℕ → Bitmap → Option ℕ
get_cell x y b = get_elem? b.data_bytes (index x y b)

module _ {B : Type 0} (encode : List ℕ → B) (decode : B → Option (List ℕ)) where
  abbrev pub base64 : Bitmap → B
  base64 b = encode b.data_bytes

  abbrev pub decoded : ℕ → ℕ → Option (List ℕ) → Option Bitmap
  decoded w h none = none
  decoded w h (some bytes) =
      if length bytes == w * h then some (record { data_bytes = bytes; w = w; h = h }) else none

  -- `DecodeBase64`
  unfoldable pub decode_base64 : B → ℕ → ℕ → Option Bitmap
  decode_base64 s w h = decoded w h (decode s)
