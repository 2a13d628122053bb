-- ===== src/Bot/Shapes/Circle/Scan.antt =====
-- `setToScanline` of internal/bot/shapes.go: the marks are the points of the set that are not above
-- the drawing.
use pixel_beetle.Prelude.{
  ℕ, zero, suc, ◌+◌, ◌≡◌, refl, ap, ◌∙◌, inl, inr, Bool, true, false, ◌&&◌, ◌||◌, List, [], ◌∷◌,
  ◌++◌, ltb, leb, ◌==◌, arith, Bool-cases, ℤ, pos, ◌+ℤ◌, ◌-ℤ◌, leb_ℤ, eqb_ℤ, pos_part, +ℤ_parts,
  -ℤ_parts, eq_of_parts,
}
use pixel_beetle.Bot.Shapes.Circle.{
  Point, Mark, has_point, min_int, max_int, Bounds, no_bounds, bounds_from, span, mark_row,
  mark_rows, set_to_scanline,
}

unfoldable pub has_mark : ℤ → ℕ → List Mark → Bool
has_mark x y [] = false
has_mark x y (m ∷ ms) = (eqb_ℤ m.x x && m.y == y) || has_mark x y ms

has_mark-append :
    (x : ℤ) (y : ℕ) (ms ns : List Mark)
    → has_mark x y (ms ++ ns) ≡ (has_mark x y ms || has_mark x y ns)
unfolding has_mark
has_mark-append x y [] ns = refl
has_mark-append x y (m ∷ ms) ns = ground (arith, has_mark-append x y ms ns)

-- Whether `x` is one of the `n` integers from `x0` on.
unfoldable in_span : ℤ → ℕ → ℤ → Bool
in_span x0 n x = leb_ℤ x0 x && leb_ℤ (x +ℤ pos 1) (x0 +ℤ pos n)

in_span-zero : (x0 x : ℤ) → in_span x0 0 x ≡ false
unfolding in_span
in_span-zero x0 x = ground (arith, +ℤ_parts x (pos 1), +ℤ_parts x0 (pos 0))

in_span-suc : (x0 x : ℤ) (n : ℕ) → in_span x0 (suc n) x ≡ (eqb_ℤ x0 x || in_span (x0 +ℤ pos 1) n x)
unfolding in_span
in_span-suc x0 x n = ground (
  arith,
  +ℤ_parts x (pos 1),
  +ℤ_parts x0 (pos (suc n)),
  +ℤ_parts x0 (pos 1),
  +ℤ_parts (x0 +ℤ pos 1) (pos n),
)

eqb_ℤ_eq : (a b : ℤ) → eqb_ℤ a b ≡ true → a ≡ b
eqb_ℤ_eq a b h = eq_of_parts a b (ground (arith, h))

in_span_self : (x0 : ℤ) (n : ℕ) → in_span (x0 +ℤ pos 1) n x0 ≡ false
unfolding in_span
in_span_self x0 n = ground (arith, +ℤ_parts x0 (pos 1))

has_mark-mark_row :
    (set : List Point) (c y : ℕ) (x0 x : ℤ) (y' n : ℕ)
    → has_mark x y' (mark_row set c y x0 n) ≡ (y == y' && in_span x0 n x && has_point x (pos y) set)
unfolding has_mark mark_row
has_mark-mark_row set c y x0 x y' zero = ground (arith, in_span-zero x0 x)
has_mark-mark_row set c y x0 x y' (suc n) =
    let rest = has_mark-mark_row set c y (x0 +ℤ pos 1) x y' n in
    let split = in_span-suc x0 x n in
    elim (Bool-cases (eqb_ℤ x0 x)) [
      | inl t ↦
          let same = ap (λ v. has_point v (pos y) set) (eqb_ℤ_eq x0 x t) in
          rw split (ground (arith, rest, t, same))
      | inr t ↦ rw split (ground (arith, rest, t))
    ]

has_mark-mark_rows :
    (set : List Point) (c : ℕ) (x0 x : ℤ) (w y y' n : ℕ)
    → has_mark x y' (mark_rows set c x0 w y n)
      ≡ (leb y y' && ltb y' (y + n) && in_span x0 w x && has_point x (pos y') set)
unfolding has_mark mark_rows
has_mark-mark_rows set c x0 x w y y' zero = ground arith
has_mark-mark_rows set c x0 x w y y' (suc n) =
    let rest = has_mark-mark_rows set c x0 x w (suc y) y' n in
    let first = has_mark-mark_row set c y x0 x y' w in
    has_mark-append x y' (mark_row set c y x0 w) (mark_rows set c x0 w (suc y) n)
    ∙ elim (Bool-cases (y == y')) [
      | inl t ↦
          let same : has_point x (pos y) set ≡ has_point x (pos y') set =
            ap (λ v. has_point x (pos v) set) (ground (arith, t)) in
          ground (arith, rest, first, t, same)
      | inr t ↦ ground (arith, rest, first, t)
    ]

abbrev Within : ℤ → ℤ → Bounds → Type 0
Within x y b = (leb_ℤ b.min_x x ≡ true) × (leb_ℤ x b.max_x ≡ true) × (leb_ℤ y b.max_y ≡ true)

Within-bounds_from :
    (ps : List Point) (b : Bounds) (x y : ℤ) → Within x y b → Within x y (bounds_from ps b)
unfolding bounds_from
Within-bounds_from [] b x y h = h
Within-bounds_from ((px, py) ∷ ps) b x y h =
    Within-bounds_from ps
      (record {
        min_x = min_int px b.min_x;
        max_x = max_int b.max_x px;
        max_y = max_int b.max_y py;
      })
      x y (ground (arith, h), ground (arith, h), ground (arith, h))

has_point-Within :
    (ps : List Point) (b : Bounds) (x y : ℤ)
    → has_point x y ps ≡ true
    → Within x y (bounds_from ps b)
unfolding has_point bounds_from
has_point-Within [] b x y h = ground (arith, h)
has_point-Within ((px, py) ∷ ps) b x y h =
    let b' : Bounds = record {
      min_x = min_int px b.min_x;
      max_x = max_int b.max_x px;
      max_y = max_int b.max_y py;
    } in
    elim (Bool-cases (eqb_ℤ px x && eqb_ℤ py y)) [
      | inl t ↦
          Within-bounds_from ps b' x y (ground (arith, t), ground (arith, t), ground (arith, t))
      | inr t ↦ has_point-Within ps b' x y (ground (arith, t, h))
    ]

in_span-span : (a b x : ℤ) → leb_ℤ a x ≡ true → leb_ℤ x b ≡ true → in_span a (span a b) x ≡ true
unfolding in_span
in_span-span a b x h h' =
    let size = pos_part (b -ℤ a) + 1 in
    let sized : span a b ≡ size = ground (arith, h, h') in
    ap (λ n. in_span a n x) sized
    ∙ ground (arith, h, h', -ℤ_parts b a, +ℤ_parts x (pos 1), +ℤ_parts a (pos size))

below_span : (y : ℕ) (b : ℤ) → leb_ℤ (pos y) b ≡ true → ltb y (0 + span (pos 0) b) ≡ true
below_span y b h = ground (arith, h, -ℤ_parts b (pos 0))

and_absorbs : (a b : Bool) → (b ≡ true → a ≡ true) → (a && b) ≡ b
and_absorbs true b h = refl
and_absorbs false true h = h refl
and_absorbs false false h = refl

-- The marks are the points of the set that are not above the drawing.
pub has_mark-set_to_scanline :
    (set : List Point) (c : ℕ) (x : ℤ) (y : ℕ)
    → has_mark x y (set_to_scanline set c) ≡ has_point x (pos y) set
unfolding set_to_scanline
has_mark-set_to_scanline [] c x y = unfold has_mark has_point in refl
has_mark-set_to_scanline (p ∷ ps) c x y =
    let b = bounds_from (p ∷ ps) no_bounds in
    has_mark-mark_rows (p ∷ ps) c b.min_x x (span b.min_x b.max_x) 0 y (span (pos 0) b.max_y)
    ∙ and_absorbs
        (leb 0 y && ltb y (0 + span (pos 0) b.max_y) && in_span b.min_x (span b.min_x b.max_x) x)
        (has_point x (pos y) (p ∷ ps))
        λ h.
          let (low, high, last) = has_point-Within (p ∷ ps) no_bounds x (pos y) h in
          ground (arith, in_span-span b.min_x b.max_x x low high, below_span y b.max_y last)
