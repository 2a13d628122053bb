-- ===== src/Bot/Shapes/Circle/Round.antt =====
-- Where the points of a circle lie (internal/bot/shapes.go).
use pixel_beetle.Prelude.{
  ℕ, zero, suc, ◌+◌, ◌-◌, ◌*◌, ◌<◌, ◌≤◌, ◌≡◌, refl, ◌⊎◌, inl, inr, true, false, some, List, [], ◌∷◌,
  ◌++◌, leb, leb→le, if◌then◌else◌, arith, Bool-cases, ℤ, pos, negsuc, ◌+ℤ◌, ◌-ℤ◌, pos_part,
  neg_part, +ℤ_parts, -ℤ_parts,
}
use pixel_beetle.Bot.Shapes.Circle.{Point, Octant, mirrored, is_negative, octant_step, circle_from}

abbrev pub larger : ℕ → ℕ → ℕ
larger a b = if leb a b then b else a

-- (a, b) is at most half a cell off the circle of radius `r` about the origin, along the axis to which
-- the circle runs more steeply.
abbrev pub IsNearCircle : ℕ → ℕ → ℕ → Type 0
IsNearCircle r a b = (a * a + b * b ≤ r * r + larger a b) × (r * r ≤ a * a + b * b + larger a b)

-- `v` is `a` away from `c`.
abbrev pub IsOff : ℤ → ℕ → ℤ → Type 0
IsOff c a v = (v ≡ c +ℤ pos a) ⊎ (v ≡ c -ℤ pos a)

abbrev pub IsRound : ℤ → ℤ → ℕ → Point → Type 0
IsRound cx cy r (x, y) = (a b : ℕ) × IsOff cx a x × IsOff cy b y × IsNearCircle r a b

abbrev pub AllPoints : (Point → Type 0) → List Point → Type 0
AllPoints P [] = Unit {0}
AllPoints P (p ∷ ps) = P p × AllPoints P ps

AllPoints-append :
    (P : Point → Type 0) (ps qs : List Point)
    → AllPoints P ps
    → AllPoints P qs
    → AllPoints P (ps ++ qs)
AllPoints-append P [] qs h h' = h'
AllPoints-append P (p ∷ ps) qs h h' = (h.0, AllPoints-append P ps qs h.1 h')

-- The state of the loop: `err` is the place of the midpoint of the next step.
pub record IsOctant (r : ℕ) (o : Octant) : Type 0 where
  pub balance : pos_part o.err + o.x + r * r ≡ neg_part o.err + o.y * o.y + 2 * o.y + 1 + o.x * o.x
  pub near :
      o.y ≤ o.x → (o.x * o.x + o.y * o.y ≤ r * r + o.x) × (r * r ≤ o.x * o.x + o.y * o.y + o.x)
  pub in_x : o.x ≤ r
  pub in_y : o.y ≤ r + 1

negative_parts : (e : ℤ) → is_negative e ≡ true → (pos_part e ≡ 0) × (0 < neg_part e)
negative_parts (pos n) h = ground (arith, h)
negative_parts (negsuc n) h = (refl, omega arith)

other_parts : (e : ℤ) → is_negative e ≡ false → neg_part e ≡ 0
other_parts (pos n) h = refl
other_parts (negsuc n) h = ground (arith, h)

suc_squared : (n : ℕ) → suc n * suc n ≡ n * n + 2 * n + 1
suc_squared n = grind arith

IsOctant-outside :
    (r : ℕ) (o : Octant)
    → o.y ≤ o.x
    → is_negative o.err ≡ true
    → IsOctant r o
    → IsOctant r (octant_step o)
unfolding octant_step
IsOctant-outside r o h t k =
    let first = suc_squared o.y in
    rw t (record {
      balance = omega (arith, k.balance, first, +ℤ_parts o.err (pos (2 * suc o.y + 1)));
      near = λ h'.
          (omega (arith, k.balance, first, negative_parts o.err t), omega (arith, k.near h, first));
      in_x = k.in_x;
      in_y = omega (arith, h, k.in_x);
    })

IsOctant-inside :
    (r x y : ℕ) (e : ℤ)
    → y ≤ suc x
    → is_negative e ≡ false
    → IsOctant r (record { x = suc x; y = y; err = e })
    → IsOctant r (octant_step (record { x = suc x; y = y; err = e }))
unfolding octant_step
IsOctant-inside r x y e h t k =
    let first = suc_squared y in
    let second = suc_squared x in
    let before : suc x - 1 ≡ x = omega arith in
    let (upper, lower) = k.near h in
    let parts = other_parts e t in
    rw (t, before)
      (record {
        balance = omega (
          arith,
          k.balance,
          first,
          second,
          +ℤ_parts e (pos (2 * suc y + 1) -ℤ pos (2 * x)),
          -ℤ_parts (pos (2 * suc y + 1)) (pos (2 * x)),
        );
        near = λ h'. (
          omega (arith, upper, first, second, h'),
          omega (arith, k.balance, first, second, parts),
        );
        in_x = omega (arith, k.in_x);
        in_y = omega (arith, h, k.in_x);
      })

square_pos : (r : ℕ) → 0 < r → 0 < r * r
square_pos r h = grind arith

-- A round of the loop keeps the state.
IsOctant-octant_step :
    (r x y : ℕ) (e : ℤ)
    → 0 < r
    → y ≤ x
    → IsOctant r (record { x = x; y = y; err = e })
    → IsOctant r (octant_step (record { x = x; y = y; err = e }))
IsOctant-octant_step r zero zero e pos_r h k =
    let (upper, lower) = k.near h in absurd (omega (arith, lower, square_pos r pos_r))
IsOctant-octant_step r zero (suc y) e pos_r h k = absurd (omega (arith, h))
IsOctant-octant_step r (suc x) y e pos_r h k = elim (Bool-cases (is_negative e)) [
  | inl t ↦ IsOctant-outside r (record { x = suc x; y = y; err = e }) h t k
  | inr t ↦ IsOctant-inside r x y e h t k
]

IsNearCircle-octant :
    (r x y : ℕ)
    → y ≤ x
    → (x * x + y * y ≤ r * r + x) × (r * r ≤ x * x + y * y + x)
    → IsNearCircle r x y × IsNearCircle r y x
IsNearCircle-octant r x y h n =
    let one : larger x y ≡ x = ground (arith, h) in
    let other : larger y x ≡ x = ground (arith, h) in
    rw (one, other) (n, (omega (arith, n), omega (arith, n)))

mirrored-IsRound :
    (r x y : ℕ) (cx cy : ℤ)
    → IsNearCircle r x y × IsNearCircle r y x
    → AllPoints (IsRound cx cy r) (mirrored cx cy x y)
mirrored-IsRound r x y cx cy (n, n') = (
  (x, y, inl refl, inl refl, n),
  (
    (y, x, inl refl, inl refl, n'),
    (
      (y, x, inr refl, inl refl, n'),
      (
        (x, y, inr refl, inl refl, n),
        (
          (x, y, inr refl, inr refl, n),
          (
            (y, x, inr refl, inr refl, n'),
            ((y, x, inl refl, inr refl, n'), ((x, y, inl refl, inr refl, n), tt)),
          ),
        ),
      ),
    ),
  ),
)

octant_step-y : (o : Octant) → (octant_step o).y ≡ suc o.y
unfolding octant_step
octant_step-y o = ground arith

-- The loop ends, and draws points near the circle.
pub circle_from-IsRound :
    (f r : ℕ) (o : Octant) (cx cy : ℤ)
    → 0 < r
    → r + 2 ≤ f + o.y
    → IsOctant r o
    → (ps : List Point) × (circle_from f cx cy o ≡ some ps) × AllPoints (IsRound cx cy r) ps
unfolding circle_from
circle_from-IsRound zero r o cx cy pos_r h k = absurd (omega (arith, h, k.in_y))
circle_from-IsRound (suc f) r o cx cy pos_r h k = elim (Bool-cases (leb o.y o.x)) [
  | inl t ↦
      let inside = leb→le o.y o.x t in
      let (ps, e, round) =
        circle_from-IsRound f r (octant_step o) cx cy pos_r (omega (arith, h, octant_step-y o))
          (IsOctant-octant_step r o.x o.y o.err pos_r inside k) in
      (
        mirrored cx cy o.x o.y ++ ps,
        rw (t, e) refl,
        AllPoints-append (IsRound cx cy r) (mirrored cx cy o.x o.y) ps
            (mirrored-IsRound r o.x o.y cx cy
              (IsNearCircle-octant r o.x o.y inside (k.near inside)))
            round,
      )
  | inr t ↦ ([], rw t refl, tt)
]

abbrev pub first_octant : ℕ → Octant
first_octant r = record { x = r; y = 0; err = pos 1 -ℤ pos r }

pub first_octant-IsOctant : (r : ℕ) → IsOctant r (first_octant r)
first_octant-IsOctant r = record {
  balance = omega (arith, -ℤ_parts (pos 1) (pos r));
  near = λ h. (omega arith, omega arith);
  in_x = omega arith;
  in_y = omega arith;
}
