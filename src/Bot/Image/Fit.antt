-- ===== src/Bot/Image/Fit.antt =====
-- The size that an image is scaled to (internal/bot/image.go).
use native.Mathlib.Nat.{div-lt_iff_lt-mul}
use pixel_beetle.Prelude.{
  ℕ, ◌*◌, ◌/◌, ◌<◌, ◌≤◌, ◌≡◌, refl, ◌⊎◌, inl, inr, true, ◌||◌, ltb, ltb→lt, arith, Bool-cases,
}
use pixel_beetle.Bot.Image.{at_least_one, fit_scale}

div_bound : (a b c : ℕ) → 0 < b → a ≤ c * b → a / b ≤ c
div_bound a b c h k = grind (arith, div-lt_iff_lt-mul)

times_comm : (a b : ℕ) → a * b ≡ b * a
times_comm a b = grind arith

either_over : (w h m n : ℕ) → (ltb m w || ltb n h) ≡ true → (m < w) ⊎ (n < h)
either_over w h m n t = elim (Bool-cases (ltb m w)) [
  | inl u ↦ inl (ltb→lt m w u)
  | inr u ↦ inr (ground (arith, t, u))
]

-- The shorter side of an image that is scaled down by the ratio `m` to `w`.
scaled_side :
    (w h m n : ℕ)
    → 0 < w
    → 0 < h
    → 0 < n
    → m ≤ w
    → h * m ≤ w * n
    → (at_least_one (h * m / w) ≤ n)
      × (at_least_one (h * m / w) ≤ h)
      × (0 < at_least_one (h * m / w))
scaled_side w h m n hw hh hn le k =
    let below = div_bound (h * m) w n hw (omega (arith, k, times_comm w n)) in
    let within = div_bound (h * m) w h hw (grind arith) in
    (ground (arith, below, hn), ground (arith, within, hh), ground arith)

-- The larger ratio is that of a side that does not fit.
side_over : (w h m n : ℕ) → 0 < m → 0 < h → (m < w) ⊎ (n < h) → h * m < w * n → m < w
side_over w h m n hm hh (inl o) k = o
side_over w h m n hm hh (inr o) k = grind arith

side_over_le : (w h m n : ℕ) → 0 < w → 0 < n → (m < w) ⊎ (n < h) → w * n ≤ h * m → n < h
side_over_le w h m n hw hn (inl o) k = grind arith
side_over_le w h m n hw hn (inr o) k = o

-- A size of no empty side, in the box of `m` by `n` and no larger than the image of `w` by `h`; where the
-- image fits it is the image's, and where not, it fills the box along a side that is too long.
abbrev pub IsFit : ℕ → ℕ → ℕ → ℕ → ℕ × ℕ → Type 0
IsFit w h m n (dw, dh) =
    ((0 < dw) × (0 < dh))
    × ((dw ≤ m) × (dh ≤ n))
    × ((dw ≤ w) × (dh ≤ h))
    × (((w ≤ m) × (h ≤ n) × (dw ≡ w) × (dh ≡ h)) ⊎ (((m < w) × (dw ≡ m)) ⊎ ((n < h) × (dh ≡ n))))

at_least_one_pos : (m : ℕ) → 0 < m → at_least_one m ≡ m
at_least_one_pos m h = ground (arith, h)

IsFit-wide :
    (w h m n : ℕ)
    → (0 < w) × (0 < h)
    → (0 < m) × (0 < n)
    → (m < w) ⊎ (n < h)
    → h * m < w * n
    → IsFit w h m n (at_least_one m, at_least_one (h * m / w))
IsFit-wide w h m n (hw, hh) (hm, hn) over k =
    let narrower = side_over w h m n hm hh over k in
    let (below, within, some_rows) =
      scaled_side w h m n hw hh hn (omega (arith, narrower)) (omega (arith, k)) in
    let whole = at_least_one_pos m hm in
    (
      (omega (arith, whole, hm), some_rows),
      (omega (arith, whole), below),
      (omega (arith, whole, narrower), within),
      inr (inl (narrower, whole)),
    )

IsFit-high :
    (w h m n : ℕ)
    → (0 < w) × (0 < h)
    → (0 < m) × (0 < n)
    → (m < w) ⊎ (n < h)
    → w * n ≤ h * m
    → IsFit w h m n (at_least_one (w * n / h), at_least_one n)
IsFit-high w h m n (hw, hh) (hm, hn) over k =
    let lower = side_over_le w h m n hw hn over k in
    let (below, within, some_columns) = scaled_side h w n m hh hw hm (omega (arith, lower)) k in
    let whole = at_least_one_pos n hn in
    (
      (some_columns, omega (arith, whole, hn)),
      (below, omega (arith, whole)),
      (within, omega (arith, whole, lower)),
      inr (inr (lower, whole)),
    )

-- fitScale fits a non-empty image into a non-empty box.
pub fit_scale-IsFit :
    (w h max_w max_h : ℕ)
    → (0 < w) × (0 < h)
    → (0 < max_w) × (0 < max_h)
    → IsFit w h max_w max_h (fit_scale w h max_w max_h)
unfolding fit_scale
fit_scale-IsFit w h max_w max_h size box = elim (Bool-cases (ltb max_w w || ltb max_h h)) [
  | inr t ↦ rw t (
    size,
    (ground (arith, t), ground (arith, t)),
    (omega arith, omega arith),
    inl (ground (arith, t), ground (arith, t), refl, refl),
  )
  | inl t ↦
      let over = either_over w h max_w max_h t in
      elim (Bool-cases (ltb (h * max_w) (w * max_h))) [
        | inl u ↦ rw (t, u) (IsFit-wide w h max_w max_h size box over (ltb→lt _ _ u))
        | inr u ↦ rw (t, u) (IsFit-high w h max_w max_h size box over (ground (arith, u)))
      ]
]
