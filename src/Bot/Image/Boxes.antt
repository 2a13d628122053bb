-- ===== src/Bot/Image/Boxes.antt =====
-- The pixels of a scaled image (internal/bot/image.go).
use pixel_beetle.Prelude.{
  ℕ, zero, suc, ◌+◌, ◌-◌, ◌*◌, ◌/◌, ◌≡◌, ◌&&◌, Option, none, some, ltb, if◌then◌else◌,
}
use pixel_beetle.Bot.Palette.{nearest_color}
use pixel_beetle.Bot.Blueprint.{Blueprint}
use pixel_beetle.Bot.Blueprint.Compose.{painted, IsScanline}
use pixel_beetle.Bot.Image.{Rgba, Image, Sums}
use pixel_beetle.Bot.Image.Means.{mixed}

-- The sum of `f i` over the next `n` numbers from `i` on.
unfoldable pub total : (ℕ → ℕ) → ℕ → ℕ → ℕ
total f i zero = 0
total f i (suc n) = f i + total f (suc i) n

-- A channel, cut to 8 bits, summed over the pixels of `w` columns from `x` and `h` rows from `y`.
abbrev pub box_total : (Rgba → ℕ) → Image → ℕ → ℕ → ℕ → ℕ → ℕ
box_total channel img x w y h = total (λ j. total (λ i. channel (img.pixel i j) / 256) x w) y h

record IsTotal (f : (Rgba → ℕ) → ℕ) (s t : Sums) : Type 0 where
  red : t.r ≡ s.r + f (λ (p : Rgba). p.0)
  green : t.g ≡ s.g + f (λ (p : Rgba). p.1)
  blue : t.b ≡ s.b + f (λ (p : Rgba). p.2)
  alpha : t.a ≡ s.a + f (λ (p : Rgba). p.3)

-- The palette color that is nearest to the mean of the pixels of a box of `w` columns from `x` and `h` rows
-- from `y`, over the canvas; none where the mean alpha is below 26.
abbrev pub mean_of_box : Image → ℕ → ℕ → ℕ → ℕ → Option ℕ
mean_of_box img x w y h =
    let a = box_total (λ p. p.3) img x w y h / (h * w) in
    if ltb a 26
    then none
    else some (
        nearest_color (
          mixed (box_total (λ p. p.0) img x w y h / (h * w)) a,
          mixed (box_total (λ p. p.1) img x w y h / (h * w)) a,
          mixed (box_total (λ p. p.2) img x w y h / (h * w)) a,
        ))

-- The blueprint of an image: on the size that fits, in scanline order, a cell has the mean color of
-- its box, or no placement where that is nearly transparent.
abbrev pub IsScaled : Image → ℕ × ℕ → Blueprint → Type 0
IsScaled img (dw, dh) bp =
    (bp.w ≡ dw)
    × (bp.h ≡ dh)
    × IsScanline dw dh 0 0 bp.placements
    × ((x y : ℕ)
        → painted bp.placements x y ≡ (
            if ltb x dw && ltb y dh
            then mean_of_box img (x * img.width / dw)
                ((x + 1) * img.width / dw - x * img.width / dw) (y * img.height / dh)
                ((y + 1) * img.height / dh - y * img.height / dh)
            else none))
