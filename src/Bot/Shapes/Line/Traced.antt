-- ===== src/Bot/Shapes/Line/Traced.antt =====
-- What the line of internal/bot/shapes.go draws.
use pixel_beetle.Prelude.{
  ℕ, zero, suc, ◌+◌, ◌*◌, ◌^◌, ◌<◌, ◌≤◌, ◌≡◌, refl, ap, ◌∙◌, inl, inr, Bool, true, false, ◌&&◌,
  some, List, [], ◌∷◌, ltb, leb, leb→le, ◌==◌, if◌then◌else◌, arith, Bool-cases, length, pos, ◌-ℤ◌,
  pos_part, neg_part, -ℤ_parts,
}
use pixel_beetle.Bot.Blueprint.{Placement}
use pixel_beetle.Bot.Shapes.{placement}
use pixel_beetle.Bot.Shapes.Line.{
  Line, Pen, abs_diff, is_short, line_of, line_step, line_from, line_points,
}
use pixel_beetle.Bot.Shapes.Line.Steps.{
  Ahead, IsClose, IsPen, wide_step, wide_end, high_step, high_end,
}

abbrev pub Near : ℕ → ℕ → Type 0
Near a b = (a ≤ b + 1) × (b ≤ a + 1)

-- The point lies in the box of the line, and at most half a cell off the line.
abbrev pub IsOnLine : Line → ℕ → ℕ → ℕ → Type 0
IsOnLine l m x y =
    (p q : ℕ) × Ahead l.left x p l.x1
    × Ahead l.up y q l.y1
    × (p ≤ l.width)
    × (q ≤ l.height)
    × IsClose l.width l.height m p q

-- The points behind (x, y) lead to the end of the line, each a neighbour of the one before.
abbrev pub LeadsToEnd : Line → ℕ → ℕ → ℕ → List Placement → Type 0
LeadsToEnd l m x y [] = (x ≡ l.x1) × (y ≡ l.y1)
LeadsToEnd l m x y (b ∷ ps) =
    Near x b.x × Near y b.y × (b.color ≡ l.color) × IsOnLine l m b.x b.y × LeadsToEnd l m b.x b.y ps

Ahead-Near :
    (b : Bool) (v v' n n' end : ℕ)
    → Ahead b v n end
    → Ahead b v' n' end
    → n' ≤ n
    → n ≤ n' + 1
    → Near v v'
Ahead-Near true v v' n n' end h h' k k' = omega (arith, h, h', k, k')
Ahead-Near false v v' n n' end h h' k k' = omega (arith, h, h', k, k')

IsPen-IsOnLine : (l : Line) (m p q : ℕ) (s : Pen) → IsPen l m p q s → IsOnLine l m s.x s.y
IsPen-IsOnLine l m p q s k = (p, q, k.on_x, k.on_y, k.in_x, k.in_y, k.close)

-- `ps` are the points behind the first one.
abbrev Draws : ℕ → Line → ℕ → ℕ → Pen → List Placement → Type 0
Draws f l m n s ps =
    (line_from f l s ≡ some (placement s.x s.y l.color ∷ ps))
    × (length ps ≡ n)
    × LeadsToEnd l m s.x s.y ps

module _ (l : Line) (f m n p q p' q' : ℕ) (s : Pen) where
  -- A round that does not end, and the points of the rounds behind it.
  Draws-suc :
      (ps : List Placement)
      → (s.x == l.x1 && s.y == l.y1) ≡ false
      → IsPen l m p q s
      → IsPen l m p' q' (line_step l s)
      → (p' ≤ p) × (p ≤ p' + 1) × (q' ≤ q) × (q ≤ q' + 1)
      → Draws f l m n (line_step l s) ps
      → Draws (suc f) l m (suc n) s (placement (line_step l s).x (line_step l s).y l.color ∷ ps)
  unfolding line_from
  Draws-suc ps t k k' (a, b, c, d) (e, counted, leads) =
      let s' = line_step l s in
      (
        rw (t, e) refl,
        ap suc counted,
        (
          Ahead-Near l.left s.x s'.x p p' l.x1 k.on_x k'.on_x a b,
          Ahead-Near l.up s.y s'.y q q' l.y1 k.on_y k'.on_y c d,
          refl,
          IsPen-IsOnLine l m p' q' s' k',
          leads,
        ),
      )

Draws-end :
    (f : ℕ) (l : Line) (m : ℕ) (s : Pen) → (s.x ≡ l.x1) × (s.y ≡ l.y1) → Draws (suc f) l m 0 s []
unfolding line_from
Draws-end f l m s (h, h') = (ground (arith, h, h'), refl, (h, h'))

Ahead-zero : (b : Bool) (v n end : ℕ) → n ≡ 0 → Ahead b v n end → v ≡ end
Ahead-zero true v n end z h = omega (arith, z, h)
Ahead-zero false v n end z h = omega (arith, z, h)

Ahead-suc : (b : Bool) (v n end : ℕ) → Ahead b v (suc n) end → (v == end) ≡ false
Ahead-suc true v n end h = ground (arith, h)
Ahead-suc false v n end h = ground (arith, h)

IsPen-end :
    (l : Line) (m p q : ℕ) (s : Pen) → p ≡ 0 → q ≡ 0 → IsPen l m p q s → (s.x ≡ l.x1) × (s.y ≡ l.y1)
IsPen-end l m p q s z z' k =
    (Ahead-zero l.left s.x p l.x1 z k.on_x, Ahead-zero l.up s.y q l.y1 z' k.on_y)

and_false : (b c : Bool) → c ≡ false → (b && c) ≡ false
and_false true c h = h
and_false false c h = refl

wide_from :
    (f p q : ℕ) (l : Line) (s : Pen)
    → l.height ≤ l.width
    → p < f
    → IsPen l l.width p q s
    → (ps : List Placement) × Draws f l l.width p s ps
wide_from zero p q l s wide h k = elim h [ ]
wide_from (suc f) zero q l s wide h k =
    ([], Draws-end f l l.width s (IsPen-end l l.width 0 q s refl (wide_end l s wide q k) k))
wide_from (suc f) (suc p) q l s wide h k =
    let (q', le, ge, k') = wide_step l s wide p q k in
    let (ps, drawn) = wide_from f p q' l (line_step l s) wide (omega (arith, h)) k' in
    (
      placement (line_step l s).x (line_step l s).y l.color ∷ ps,
      Draws-suc l f l.width p (suc p) q p q' s ps
          (ap (λ b. b && s.y == l.y1) (Ahead-suc l.left s.x p l.x1 k.on_x)) k k'
          (omega arith, omega arith, le, ge) drawn,
    )

high_from :
    (f p q : ℕ) (l : Line) (s : Pen)
    → l.width ≤ l.height
    → q < f
    → IsPen l l.height p q s
    → (ps : List Placement) × Draws f l l.height q s ps
high_from zero p q l s high h k = elim h [ ]
high_from (suc f) p zero l s high h k =
    ([], Draws-end f l l.height s (IsPen-end l l.height p 0 s (high_end l s high p k) refl k))
high_from (suc f) p (suc q) l s high h k =
    let (p', le, ge, k') = high_step l s high p q k in
    let (ps, drawn) = high_from f p' q l (line_step l s) high (omega (arith, h)) k' in
    (
      placement (line_step l s).x (line_step l s).y l.color ∷ ps,
      Draws-suc l f l.height q p (suc q) p' q s ps
          (and_false (s.x == l.x1) (s.y == l.y1) (Ahead-suc l.up s.y q l.y1 k.on_y)) k k'
          (le, ge, omega arith, omega arith) drawn,
    )

Ahead-abs_diff : (v end : ℕ) → Ahead (ltb end v) v (abs_diff v end) end
Ahead-abs_diff v end = elim (Bool-cases (ltb end v)) [
  | inl t ↦ rw t (ground (arith, t))
  | inr t ↦ rw t (ground (arith, t))
]

leb-false : (a b : ℕ) → leb a b ≡ false → b ≤ a
leb-false a b h = ground arith

times_comm : (w h : ℕ) → h * w ≡ w * h
times_comm w h = grind arith

first_balance :
    (w h : ℕ) → pos_part (pos w -ℤ pos h) + h + h * w ≡ neg_part (pos w -ℤ pos h) + w + w * h
first_balance w h = omega (arith, times_comm w h, -ℤ_parts (pos w) (pos h))

first-IsClose : (w h m : ℕ) → IsClose w h m w h
first-IsClose w h m = (omega (arith, times_comm w h), omega (arith, times_comm w h))

module _ (x0 y0 x1 y1 c : ℕ) where
  abbrev first_pen : Pen
  first_pen = record { x = x0; y = y0; e = pos (abs_diff x0 x1) -ℤ pos (abs_diff y0 y1) }

  first_pen-IsPen :
      (m : ℕ) → IsPen (line_of x0 y0 x1 y1 c) m (abs_diff x0 x1) (abs_diff y0 y1) first_pen
  first_pen-IsPen m = record {
    on_x = Ahead-abs_diff x0 x1;
    on_y = Ahead-abs_diff y0 y1;
    in_x = omega arith;
    in_y = omega arith;
    balance = first_balance (abs_diff x0 x1) (abs_diff y0 y1);
    close = first-IsClose (abs_diff x0 x1) (abs_diff y0 y1) m;
  }

  -- The larger of the two distances.
  abbrev pub longer : ℕ
  longer = if leb (abs_diff y0 y1) (abs_diff x0 x1) then abs_diff x0 x1 else abs_diff y0 y1

  line_points_lem :
      (abs_diff x0 x1 < 2 ^ 61) × (abs_diff y0 y1 < 2 ^ 61)
      → line_points x0 y0 x1 y1 c
        ≡ line_from (suc (abs_diff x0 x1 + abs_diff y0 y1)) (line_of x0 y0 x1 y1 c) first_pen
  unfolding line_points
  line_points_lem (h, k) =
      let short : is_short (line_of x0 y0 x1 y1 c) ≡ true = ground (arith, h, k) in rw short refl

  -- Where the ends are less than 2 ^ 61 apart along both axes, the loop of linePoints ends. It draws the first point and as many more as the larger of the two
  -- distances, each a neighbour of the one before, in the box of the two ends and at most half a cell
  -- off the line between them, and the last of them is the end.
  pub line_points-LeadsToEnd :
      (abs_diff x0 x1 < 2 ^ 61) × (abs_diff y0 y1 < 2 ^ 61)
      → (ps : List Placement) × (line_points x0 y0 x1 y1 c ≡ some (placement x0 y0 c ∷ ps))
        × (length ps ≡ longer)
        × LeadsToEnd (line_of x0 y0 x1 y1 c) longer x0 y0 ps
  line_points-LeadsToEnd h = elim (Bool-cases (leb (abs_diff y0 y1) (abs_diff x0 x1))) [
    | inl t ↦
        let (ps, (e, counted, leads)) =
          wide_from (suc (abs_diff x0 x1 + abs_diff y0 y1)) (abs_diff x0 x1) (abs_diff y0 y1)
            (line_of x0 y0 x1 y1 c) first_pen (leb→le (abs_diff y0 y1) (abs_diff x0 x1) t)
            (omega arith) (first_pen-IsPen (abs_diff x0 x1)) in
        (ps, line_points_lem h ∙ e, rw t counted, rw t leads)
    | inr t ↦
        let (ps, (e, counted, leads)) =
          high_from (suc (abs_diff x0 x1 + abs_diff y0 y1)) (abs_diff x0 x1) (abs_diff y0 y1)
            (line_of x0 y0 x1 y1 c) first_pen (leb-false (abs_diff y0 y1) (abs_diff x0 x1) t)
            (omega arith) (first_pen-IsPen (abs_diff y0 y1)) in
        (ps, line_points_lem h ∙ e, rw t counted, rw t leads)
  ]
