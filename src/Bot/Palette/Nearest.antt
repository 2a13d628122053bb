-- ===== src/Bot/Palette/Nearest.antt =====
-- The nearest palette color of internal/bot/palette.go.
use native.Mathlib.Nat.{mul-le-mul}
use pixel_beetle.Prelude.{
  ℕ, zero, suc, ◌+◌, ◌-◌, ◌*◌, ◌^◌, ◌≤◌, ◌<◌, ◌≡◌, refl, sym, ap, subst, ◌⊎◌, inl, inr, some, List,
  [], ◌∷◌, ltb, leb, if◌then◌else◌, arith, ltb→lt, get_elem?, Bool-cases,
}
use pixel_beetle.Bot.Palette.{Rgb, palette, gap_sq, distance, nearest_from, nearest_color}

-- `b` is the index of the first color of `l`, counted from `i`, at the least distance `d`.
pub record IsFirstNearest (c : Rgb) (l : List Rgb) (i b d : ℕ) : Type 0 where
  pub index : ℕ
  pub color : Rgb
  pub here : b ≡ i + index
  pub found : get_elem? l index ≡ some color
  pub same : d ≡ distance c color
  pub least : (j : ℕ) (q : Rgb) → get_elem? l j ≡ some q → d ≤ distance c q
  pub first : (j : ℕ) (q : Rgb) → j < index → get_elem? l j ≡ some q → d < distance c q

-- What the loop leaves of what it had: it, where nothing is nearer.
abbrev IsBest : Rgb → List Rgb → ℕ → ℕ × ℕ → ℕ × ℕ → Type 0
IsBest c l i (b, d) (b', d') =
    ((b' ≡ b) × (d' ≡ d) × ((j : ℕ) (q : Rgb) → get_elem? l j ≡ some q → d ≤ distance c q))
    ⊎ ((d' < d) × IsFirstNearest c l i b' d')

IsLeast : Rgb → List Rgb → ℕ → Type 0
IsLeast c l d = (j : ℕ) (q : Rgb) → get_elem? l j ≡ some q → d ≤ distance c q

IsLeast-cons :
    (c p : Rgb) (l : List Rgb) (d : ℕ) → d ≤ distance c p → IsLeast c l d → IsLeast c (p ∷ l) d
unfolding IsLeast
IsLeast-cons c p l d h k zero q e =
    let same : p ≡ q = ground (arith, e) in subst (λ x. d ≤ distance c x) same h
IsLeast-cons c p l d h k (suc j) q e = k j q e

IsLess-cons :
    (c p : Rgb) (l : List Rgb) (d n : ℕ)
    → d < distance c p
    → ((j : ℕ) (q : Rgb) → j < n → get_elem? l j ≡ some q → d < distance c q)
    → (j : ℕ) (q : Rgb) → j < suc n
    → get_elem? (p ∷ l) j ≡ some q
    → d < distance c q
IsLess-cons c p l d n h k zero q m e =
    let same : p ≡ q = ground (arith, e) in subst (λ x. d < distance c x) same h
IsLess-cons c p l d n h k (suc j) q m e = k j q (omega (arith, m)) e

-- A color behind a farther one.
later :
    (c p : Rgb) (l : List Rgb) (i b d : ℕ)
    → d < distance c p
    → IsFirstNearest c l (suc i) b d
    → IsFirstNearest c (p ∷ l) i b d
unfolding IsLeast
later c p l i b d h n = record {
  index = suc n.index;
  color = n.color;
  here = omega (arith, n.here);
  found = n.found;
  same = n.same;
  least = IsLeast-cons c p l d (omega (arith, h)) n.least;
  first = IsLess-cons c p l d n.index h n.first;
}

nearest_from-IsBest :
    (c : Rgb) (l : List Rgb) (i : ℕ) (acc : ℕ × ℕ) → IsBest c l i acc (nearest_from c l i acc)
unfolding nearest_from IsLeast
nearest_from-IsBest c [] i (b, d) = inl (refl, refl, λ j q e. absurd (ground (arith, e)))
nearest_from-IsBest c (p ∷ l) i (b, d) = elim (Bool-cases (ltb (distance c p) d)) [
  | inl t ↦
      let lt = ltb→lt (distance c p) d t in
      subst (λ a. IsBest c (p ∷ l) i (b, d) (nearest_from c l (suc i) a))
        (sym (ap (λ k. if k then (i, distance c p) else (b, d)) t))
        (elim (nearest_from-IsBest c l (suc i) (i, distance c p)) [
          | inl (e, same, least) ↦ inr (
            omega (arith, lt, same),
            record {
              index = 0;
              color = p;
              here = omega (arith, e);
              found = refl;
              same = same;
              least =
                  IsLeast-cons c p l (nearest_from c l (suc i) (i, distance c p)).1
                    (omega (arith, same)) (subst (IsLeast c l) (sym same) least);
              first = λ j q m e. absurd (omega (arith, m));
            },
          )
          | inr (m, n) ↦ inr (
            omega (arith, lt, m),
            later c p l i (nearest_from c l (suc i) (i, distance c p)).0
                (nearest_from c l (suc i) (i, distance c p)).1 m n,
          )
        ])
  | inr t ↦
      let ge : d ≤ distance c p = ground (arith, t) in
      subst (λ a. IsBest c (p ∷ l) i (b, d) (nearest_from c l (suc i) a))
        (sym (ap (λ k. if k then (i, distance c p) else (b, d)) t))
        (elim (nearest_from-IsBest c l (suc i) (b, d)) [
          | inl (e, same, least) ↦ inl (e, same, IsLeast-cons c p l d ge least)
          | inr (m, n) ↦ inr (
            m,
            later c p l i (nearest_from c l (suc i) (b, d)).0 (nearest_from c l (suc i) (b, d)).1
                (omega (arith, m, ge)) n,
          )
        ])
]

abbrev pub IsColor : Rgb → Type 0
IsColor (r, g, b) = (r < 256) × (g < 256) × (b < 256)

sq_le : (n : ℕ) → n ≤ 255 → n * n ≤ 65025
sq_le n h = mul-le-mul h h

gap_sq_le : (a b : ℕ) → a < 256 → b < 256 → gap_sq a b ≤ 65025
gap_sq_le a b h k = elim (Bool-cases (leb b a)) [
  | inl t ↦ ground (arith, t, sq_le (a - b) (omega (arith, h)))
  | inr t ↦ ground (arith, t, sq_le (b - a) (omega (arith, k)))
]

distance_lt : (c p : Rgb) → IsColor c → IsColor p → distance c p < 2 ^ 32 - 1
unfolding distance
distance_lt (r, g, b) (pr, pg, pb) (h, k, l) (h', k', l') =
    omega (arith, gap_sq_le r pr h h', gap_sq_le g pg k k', gap_sq_le b pb l l')

-- Every color has its nearest color in the palette: the one of least distance, and of those with
-- the same distance the first.
pub nearest_color-IsFirstNearest :
    (c : Rgb) → IsColor c → (d : ℕ) × IsFirstNearest c palette 0 (nearest_color c) d
unfolding nearest_color IsLeast
nearest_color-IsFirstNearest c h = elim (nearest_from-IsBest c palette 0 (0, 2 ^ 32 - 1)) [
  | inl (e, same, least) ↦ absurd (
      omega (
        arith,
        least 0 (0xff, 0xff, 0xff) refl,
        distance_lt c (0xff, 0xff, 0xff) h (omega arith, omega arith, omega arith),
      ))
  | inr (m, n) ↦ ((nearest_from c palette 0 (0, 2 ^ 32 - 1)).1, n)
]
