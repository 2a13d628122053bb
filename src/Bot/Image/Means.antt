-- ===== src/Bot/Image/Means.antt =====
-- The sums over the pixels of a box of an image (internal/bot/image.go), and their mean over the canvas.
use native.Mathlib.Nat.{
  div-mul-le_self, le-div_iff_mul-le, mul-div_cancel_left, zero-div, div-lt_iff_lt-mul,
}
use pixel_beetle.Prelude.{
  ℕ, zero, suc, ◌+◌, ◌-◌, ◌*◌, ◌/◌, ◌<◌, ◌≤◌, ◌≡◌, refl, sym, ap, subst, ◌∙◌, inl, inr, false,
  Option, none, some, ltb, ◌==◌, if◌then◌else◌, arith, Bool-cases,
}
use pixel_beetle.Bot.Palette.{nearest_color}
use pixel_beetle.Bot.Image.{
  Rgba, Image, Sums, no_sums, add_pixel, sum_row, sum_rows, blend_channel, blend_over_canvas,
  average, sums_color, box_start, box_color,
}

-- The boxes of a side follow one another without a gap, from its begin to its end, and none is empty.
box_start-first : (size n : ℕ) → box_start size n 0 ≡ 0
box_start-first size n = ap (λ v. v / n) {x = 0 * size} {y = 0} (omega arith) ∙ zero-div n

box_start-last : (size n : ℕ) → 0 < n → box_start size n n ≡ size
box_start-last size n h = mul-div_cancel_left size h

next_box : (q i size n : ℕ) → q * n ≤ i * size → n ≤ size → (q + 1) * n ≤ (i + 1) * size
next_box q i size n h k = grind arith

box_start-lt : (size n i : ℕ) → 0 < n → n ≤ size → box_start size n i < box_start size n (i + 1)
box_start-lt size n i h k =
    let fits = next_box (i * size / n) i size n (div-mul-le_self (i * size) n) k in
    let further =
      (le-div_iff_mul-le {k = n} {x = i * size / n + 1} {y = (i + 1) * size} h).1 fits in
    omega (arith, further)

-- A premultiplied pixel.
abbrev pub IsPixel : Rgba → Type 0
IsPixel (r, g, b, a) = (r ≤ a) × (g ≤ a) × (b ≤ a) × (a < 65536)

abbrev pub IsImage : Image → Type 0
IsImage img = (x y : ℕ) → IsPixel (img.pixel x y)

record IsSums (s : Sums) : Type 0 where
  red : s.r ≤ s.a
  green : s.g ≤ s.a
  blue : s.b ≤ s.a
  alpha : s.a ≤ 255 * s.n

add_pixel-IsSums : (p : Rgba) (s : Sums) → IsPixel p → IsSums s → IsSums (add_pixel p s)
add_pixel-IsSums (r, g, b, a) s (h, k, l, m) i = record {
  red = omega (arith, i.red, h);
  green = omega (arith, i.green, k);
  blue = omega (arith, i.blue, l);
  alpha = omega (arith, i.alpha, m);
}

module _ (img : Image) (valid : IsImage img) where
  sum_row-IsSums : (y x n : ℕ) (s : Sums) → IsSums s → IsSums (sum_row img y x n s)
  unfolding sum_row
  sum_row-IsSums y x zero s i = i
  sum_row-IsSums y x (suc n) s i =
      sum_row-IsSums y (suc x) n (add_pixel (img.pixel x y) s)
        (add_pixel-IsSums (img.pixel x y) s (valid x y) i)

  sum_rows-IsSums : (x w y n : ℕ) (s : Sums) → IsSums s → IsSums (sum_rows img x w y n s)
  unfolding sum_rows
  sum_rows-IsSums x w y zero s i = i
  sum_rows-IsSums x w y (suc n) s i =
      sum_rows-IsSums x w (suc y) n (sum_row img y x w s) (sum_row-IsSums y x w s i)

module _ (img : Image) where
  sum_row-n : (y x n : ℕ) (s : Sums) → (sum_row img y x n s).n ≡ s.n + n
  unfolding sum_row
  sum_row-n y x zero s = omega arith
  sum_row-n y x (suc n) s = omega (arith, sum_row-n y (suc x) n (add_pixel (img.pixel x y) s))

  pub sum_rows-n : (x w y n : ℕ) (s : Sums) → (sum_rows img x w y n s).n ≡ s.n + n * w
  unfolding sum_rows
  sum_rows-n x w y zero s = omega arith
  sum_rows-n x w y (suc n) s =
      let rest = sum_rows-n x w (suc y) n (sum_row img y x w s) in
      let first = sum_row-n y x w s in
      let more : suc n * w ≡ w + n * w = grind arith in omega (arith, rest, first, more)

-- The mean of the pixels of a box over the color of the empty canvas, where nothing wraps around.
abbrev pub mixed : ℕ → ℕ → ℕ
mixed v a = if a == 255 then v else v + (28 * (255 - a) + 127) / 255

abbrev pub mean_color : Sums → Option ℕ
mean_color s =
    if ltb (s.a / s.n) 26
    then none
    else some (
        nearest_color (
          mixed (s.r / s.n) (s.a / s.n),
          mixed (s.g / s.n) (s.a / s.n),
          mixed (s.b / s.n) (s.a / s.n),
        ))

mean_le : (s a n : ℕ) → 0 < n → s ≤ a → s / n ≤ a / n
mean_le s a n h k =
    let below = div-mul-le_self s n in
    (le-div_iff_mul-le {k = n} {x = s / n} {y = a} h).1 (omega (arith, below, k))

mean_byte : (a n : ℕ) → 0 < n → a ≤ 255 * n → a / n ≤ 255
mean_byte a n h k =
    let below : a / n < 256 =
      (div-lt_iff_lt-mul {k = n} {x = a} {y = 256} h).1 (omega (arith, h, k)) in
    omega (arith, below)

average-exact : (s n : ℕ) → s / n ≤ 255 → average s n ≡ s / n
average-exact s n h = ground (arith, h)

blend_channel-mixed :
    (v a : ℕ) → v ≤ a → a ≤ 255 → (a == 255) ≡ false → blend_channel (255 - a) v ≡ mixed v a
blend_channel-mixed v a h k t = rw t (omega (arith, h, k))

blend_over_canvas-mixed :
    (r g b a : ℕ)
    → (r ≤ a) × (g ≤ a) × (b ≤ a)
    → a ≤ 255
    → blend_over_canvas (r, g, b) a ≡ (mixed r a, mixed g a, mixed b a)
unfolding blend_over_canvas
blend_over_canvas-mixed r g b a (h, k, l) m = elim (Bool-cases (a == 255)) [
  | inl t ↦ rw t refl
  | inr t ↦
      let red = blend_channel-mixed r a h m t in
      let green = blend_channel-mixed g a k m t in
      let blue = blend_channel-mixed b a l m t in
      let blended : blend_over_canvas (r, g, b) a
          ≡ (blend_channel (255 - a) r, blend_channel (255 - a) g, blend_channel (255 - a) b) =
        rw t refl in
      blended
      ∙ ap (λ v. (v, blend_channel (255 - a) g, blend_channel (255 - a) b)) red
      ∙ ap (λ v. (mixed r a, v, blend_channel (255 - a) b)) green
      ∙ ap (λ v. (mixed r a, mixed g a, v)) blue
]

sums_color-mean_color : (s : Sums) → IsSums s → 0 < s.n → sums_color s ≡ mean_color s
unfolding sums_color
sums_color-mean_color s i h =
    let red = mean_le s.r s.a s.n h i.red in
    let green = mean_le s.g s.a s.n h i.green in
    let blue = mean_le s.b s.a s.n h i.blue in
    let byte = mean_byte s.a s.n h i.alpha in
    let mixed_all =
      blend_over_canvas-mixed (s.r / s.n) (s.g / s.n) (s.b / s.n) (s.a / s.n) (red, green, blue)
        byte in
    let some_pixel : (s.n == 0) ≡ false = ground (arith, h) in
    rw
      (
        some_pixel,
        average-exact s.r s.n (omega (arith, red, byte)),
        average-exact s.g s.n (omega (arith, green, byte)),
        average-exact s.b s.n (omega (arith, blue, byte)),
        average-exact s.a s.n byte,
        mixed_all,
      )
      refl

no_sums-IsSums : IsSums no_sums
no_sums-IsSums = record {
  red = omega arith;
  green = omega arith;
  blue = omega arith;
  alpha = omega arith;
}

times_pos : (a b : ℕ) → 0 < a → 0 < b → 0 < 0 + b * a
times_pos a b h k = grind arith

-- The sums of the box of one pixel.
abbrev pub box_sums : Image → ℕ → ℕ → ℕ → ℕ → Sums
box_sums img dw dh x y =
    sum_rows img (box_start img.width dw x)
      (box_start img.width dw (x + 1) - box_start img.width dw x) (box_start img.height dh y)
      (box_start img.height dh (y + 1) - box_start img.height dh y) no_sums

pub box_color-mean_color :
    (img : Image) (valid : IsImage img) (dw dh x y : ℕ)
    → (0 < dw) × (0 < dh)
    → (dw ≤ img.width) × (dh ≤ img.height)
    → box_color img dw dh x y ≡ mean_color (box_sums img dw dh x y)
unfolding box_color
box_color-mean_color img valid dw dh x y (hw, hh) (kw, kh) =
    let x0 = box_start img.width dw x in
    let y0 = box_start img.height dh y in
    let columns = box_start img.width dw (x + 1) - x0 in
    let rows = box_start img.height dh (y + 1) - y0 in
    let some_columns = box_start-lt img.width dw x hw kw in
    let some_rows = box_start-lt img.height dh y hh kh in
    let count = sum_rows-n img x0 columns y0 rows no_sums in
    sums_color-mean_color (box_sums img dw dh x y)
      (sum_rows-IsSums img valid x0 columns y0 rows no_sums no_sums-IsSums)
      (subst (λ n. 0 < n) (sym count)
        (times_pos columns rows (omega (arith, some_columns)) (omega (arith, some_rows))))
