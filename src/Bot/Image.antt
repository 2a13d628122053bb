-- ===== src/Bot/Image.antt =====
-- internal/bot/image.go: the scaling of an image to a blueprint, and LoadPaint. An image is its width,
-- its height and the premultiplied channels, of 16 bits, of each pixel, counted from its own corner.
pub mod Fit
pub mod Means
pub mod Boxes
mod Tests
use pixel_beetle.Prelude.{
  ℕ, zero, suc, ◌+◌, ◌-◌, ◌*◌, ◌/◌, ◌%◌, ◌^◌, Bool, true, false, ◌&&◌, ◌||◌, Option, none, some,
  List, [], ◌∷◌, ltb, ◌==◌, if◌then◌else◌,
}
use pixel_beetle.Bot.Palette.{Rgb, nearest_color}
use pixel_beetle.Bot.Blueprint.{Blueprint, scan_rows}

abbrev pub Rgba : Type 0
Rgba = ℕ × ℕ × ℕ × ℕ

pub record Image : Type 0 where
  pub width : ℕ
  pub height : ℕ
  pub pixel : ℕ → ℕ → Rgba

abbrev pub at_least_one : ℕ → ℕ
at_least_one n = if n == 0 then 1 else n

unfoldable pub fit_scale : ℕ → ℕ → ℕ → ℕ → ℕ × ℕ
fit_scale w h max_w max_h =
    if ltb max_w w || ltb max_h h
    then (if ltb (h * max_w) (w * max_h)
        then (at_least_one max_w, at_least_one (h * max_w / w))
        else (at_least_one (w * max_h / h), at_least_one max_h))
    else (w, h)

-- The sums of the channels, and the number of pixels.
pub record Sums : Type 0 where
  pub r : ℕ
  pub g : ℕ
  pub b : ℕ
  pub a : ℕ
  pub n : ℕ

abbrev pub no_sums : Sums
no_sums = record { r = 0; g = 0; b = 0; a = 0; n = 0 }

-- `>> 8`
abbrev pub add_pixel : Rgba → Sums → Sums
add_pixel (r, g, b, a) s = record {
  r = s.r + r / 256;
  g = s.g + g / 256;
  b = s.b + b / 256;
  a = s.a + a / 256;
  n = s.n + 1;
}

-- The next `n` columns of the row `y` from `x` on.
unfoldable pub sum_row : Image → ℕ → ℕ → ℕ → Sums → Sums
sum_row img y x zero s = s
sum_row img y x (suc n) s = sum_row img y (suc x) n (add_pixel (img.pixel x y) s)

-- The next `n` rows from `y` on, each from `x` on over `w` columns.
unfoldable pub sum_rows : Image → ℕ → ℕ → ℕ → ℕ → Sums → Sums
unfolding sum_row
sum_rows img x w y zero s = s
sum_rows img x w y (suc n) s = sum_rows img x w (suc y) n (sum_row img y x w s)

abbrev pub empty_canvas_rgb : ℕ
empty_canvas_rgb = 0x1c

abbrev pub blend_channel : ℕ → ℕ → ℕ
blend_channel inv v = (v + (empty_canvas_rgb * inv + 127) / 255) % 2 ^ 8

unfoldable pub blend_over_canvas : Rgb → ℕ → Rgb
blend_over_canvas (r, g, b) a =
    if a == 255
    then (r, g, b)
    else (blend_channel (255 - a) r, blend_channel (255 - a) g, blend_channel (255 - a) b)

abbrev pub average : ℕ → ℕ → ℕ
average sum n = sum / n % 2 ^ 8

-- The color for the pixels of a box, or none where they are few or nearly transparent.
unfoldable pub sums_color : Sums → Option ℕ
sums_color s =
    if s.n == 0
    then none
    else if ltb (average s.a s.n) 26
    then none
    else some (
        nearest_color
          (blend_over_canvas (average s.r s.n, average s.g s.n, average s.b s.n) (average s.a s.n)))

-- Where the box of the pixel `i` of `n` begins on a side of `size` pixels.
abbrev pub box_start : ℕ → ℕ → ℕ → ℕ
box_start size n i = i * size / n

unfoldable pub box_color : Image → ℕ → ℕ → ℕ → ℕ → Option ℕ
unfolding sum_rows
box_color img dw dh x y =
    let x0 = box_start img.width dw x in
    let y0 = box_start img.height dh y in
    sums_color (
      sum_rows img x0 (box_start img.width dw (x + 1) - x0) y0
        (box_start img.height dh (y + 1) - y0) no_sums)

abbrev pub scaled : Image → ℕ × ℕ → Blueprint
scaled img (dw, dh) = record {
  w = dw;
  h = dh;
  placements = scan_rows (box_color img dw dh) dw 0 dh;
}

-- `none` is the error for an empty image.
unfoldable pub image_to_blueprint : Image → ℕ → ℕ → Option Blueprint
unfolding fit_scale
image_to_blueprint img max_w max_h =
    if img.width == 0 || img.height == 0
    then none
    else some (scaled img (fit_scale img.width img.height max_w max_h))
