-- ===== src/Bot/Shapes/Line/Steps.antt =====
-- A round of the line of internal/bot/shapes.go.
use pixel_beetle.Prelude.{
  ℕ, zero, suc, ◌+◌, ◌*◌, ◌≤◌, ◌≡◌, refl, inl, inr, Bool, true, false, arith, Bool-cases, pos, ◌+ℤ◌,
  ◌-ℤ◌, leb_ℤ, pos_part, neg_part, +ℤ_parts, -ℤ_parts,
}
use pixel_beetle.Bot.Shapes.Line.{Line, Pen, moved, line_step}

-- `v` is `n` away from `end`, on the side from which the line comes.
abbrev pub Ahead : Bool → ℕ → ℕ → ℕ → Type 0
Ahead true v n end = v ≡ end + n
Ahead false v n end = v + n ≡ end

-- A point `p` columns and `q` rows before the end of a line is at most half a cell off the line,
-- along the shorter side; `m` is the longer one.
abbrev pub IsClose : ℕ → ℕ → ℕ → ℕ → ℕ → Type 0
IsClose w h m p q = (2 * (p * h) ≤ m + 2 * (q * w)) × (2 * (q * w) ≤ m + 2 * (p * h))

-- The state of the loop with `p` columns and `q` rows to go.
pub record IsPen (l : Line) (m p q : ℕ) (s : Pen) : Type 0 where
  pub on_x : Ahead l.left s.x p l.x1
  pub on_y : Ahead l.up s.y q l.y1
  pub in_x : p ≤ l.width
  pub in_y : q ≤ l.height
  pub balance : pos_part s.e + l.height + q * l.width ≡ neg_part s.e + l.width + p * l.height
  pub close : IsClose l.width l.height m p q

Ahead-moved : (b : Bool) (v n end : ℕ) → Ahead b v (suc n) end → Ahead b (moved b v) n end
Ahead-moved true v n end h = omega (arith, h)
Ahead-moved false v n end h = omega (arith, h)

suc_times : (n h : ℕ) → suc n * h ≡ h + n * h
suc_times n h = grind arith

abbrev takes_column : Line → Pen → Bool
takes_column l s = leb_ℤ (pos 0 -ℤ pos l.height) (s.e +ℤ s.e)

abbrev takes_row : Line → Pen → Bool
takes_row l s = leb_ℤ (s.e +ℤ s.e) (pos l.width)

-- What a round does by its two tests.
module _ (l : Line) (s : Pen) (m : ℕ) (wide : l.width ≤ m) (high : l.height ≤ m) where
  column_step :
      (p q : ℕ)
      → IsPen l m (suc p) q s
      → takes_column l s ≡ true
      → takes_row l s ≡ false
      → IsPen l m p q (line_step l s)
  unfolding line_step
  column_step p q k u t =
      let first = suc_times p l.height in
      rw (u, t)
        (record {
          on_x = Ahead-moved l.left s.x p l.x1 k.on_x;
          on_y = k.on_y;
          in_x = omega (arith, k.in_x);
          in_y = k.in_y;
          balance = omega (arith, k.balance, first, -ℤ_parts s.e (pos l.height));
          close = ground (arith, k.balance, k.close, t, first, wide, +ℤ_parts s.e s.e);
        })

  row_step :
      (p q : ℕ)
      → IsPen l m p (suc q) s
      → takes_column l s ≡ false
      → takes_row l s ≡ true
      → IsPen l m p q (line_step l s)
  unfolding line_step
  row_step p q k u t =
      let first = suc_times q l.width in
      rw (u, t)
        (record {
          on_x = k.on_x;
          on_y = Ahead-moved l.up s.y q l.y1 k.on_y;
          in_x = k.in_x;
          in_y = omega (arith, k.in_y);
          balance = omega (arith, k.balance, first, +ℤ_parts s.e (pos l.width));
          close = ground (
            arith,
            k.balance,
            k.close,
            u,
            first,
            high,
            +ℤ_parts s.e s.e,
            -ℤ_parts (pos 0) (pos l.height),
          );
        })

  both_step :
      (p q : ℕ)
      → IsPen l m (suc p) (suc q) s
      → takes_column l s ≡ true
      → takes_row l s ≡ true
      → IsPen l m p q (line_step l s)
  unfolding line_step
  both_step p q k u t =
      let first = suc_times p l.height in
      let second = suc_times q l.width in
      rw (u, t)
        (record {
          on_x = Ahead-moved l.left s.x p l.x1 k.on_x;
          on_y = Ahead-moved l.up s.y q l.y1 k.on_y;
          in_x = omega (arith, k.in_x);
          in_y = omega (arith, k.in_y);
          balance = omega (
            arith,
            k.balance,
            first,
            second,
            -ℤ_parts s.e (pos l.height),
            +ℤ_parts (s.e -ℤ pos l.height) (pos l.width),
          );
          close = ground (
            arith,
            k.balance,
            k.close,
            u,
            t,
            first,
            second,
            wide,
            high,
            +ℤ_parts s.e s.e,
            -ℤ_parts (pos 0) (pos l.height),
          );
        })

  -- No row is taken where none is left, and no column.
  no_row : (p : ℕ) → IsPen l m (suc p) zero s → takes_row l s ≡ false
  no_row p k = ground (arith, k.balance, k.in_x, suc_times p l.height, +ℤ_parts s.e s.e)

  no_column : (q : ℕ) → IsPen l m zero (suc q) s → takes_column l s ≡ false
  no_column q k = ground (
    arith,
    k.balance,
    k.in_y,
    suc_times q l.width,
    +ℤ_parts s.e s.e,
    -ℤ_parts (pos 0) (pos l.height),
  )

-- On a line at least as wide as high every round takes a column.
module _ (l : Line) (s : Pen) (wide : l.height ≤ l.width) where
  wide-takes_column : (p q : ℕ) → IsPen l l.width (suc p) q s → takes_column l s ≡ true
  wide-takes_column p q k =
      ground (arith, k.balance, k.close, wide, -ℤ_parts (pos 0) (pos l.height), +ℤ_parts s.e s.e)

  pub wide_step :
      (p q : ℕ)
      → IsPen l l.width (suc p) q s
      → (q' : ℕ) × (q' ≤ q) × (q ≤ q' + 1) × IsPen l l.width p q' (line_step l s)
  wide_step p zero k = (
    0,
    omega arith,
    omega arith,
    column_step l s l.width (omega arith) wide p 0 k (wide-takes_column p 0 k)
        (no_row l s l.width (omega arith) wide p k),
  )
  wide_step p (suc q) k = elim (Bool-cases (takes_row l s)) [
    | inl t ↦ (
      q,
      omega arith,
      omega arith,
      both_step l s l.width (omega arith) wide p q k (wide-takes_column p (suc q) k) t,
    )
    | inr t ↦ (
      suc q,
      omega arith,
      omega arith,
      column_step l s l.width (omega arith) wide p (suc q) k (wide-takes_column p (suc q) k) t,
    )
  ]

  pub wide_end : (q : ℕ) → IsPen l l.width zero q s → q ≡ 0
  wide_end zero k = refl
  wide_end (suc q) k = absurd (omega (arith, k.close, k.in_y, wide, suc_times q l.width))

-- On one at least as high as wide every round takes a row.
module _ (l : Line) (s : Pen) (high : l.width ≤ l.height) where
  high-takes_row : (p q : ℕ) → IsPen l l.height p (suc q) s → takes_row l s ≡ true
  high-takes_row p q k = ground (arith, k.balance, k.close, high, +ℤ_parts s.e s.e)

  pub high_step :
      (p q : ℕ)
      → IsPen l l.height p (suc q) s
      → (p' : ℕ) × (p' ≤ p) × (p ≤ p' + 1) × IsPen l l.height p' q (line_step l s)
  high_step zero q k = (
    0,
    omega arith,
    omega arith,
    row_step l s l.height high (omega arith) 0 q k (no_column l s l.height high (omega arith) q k)
        (high-takes_row 0 q k),
  )
  high_step (suc p) q k = elim (Bool-cases (takes_column l s)) [
    | inl t ↦ (
      p,
      omega arith,
      omega arith,
      both_step l s l.height high (omega arith) p q k t (high-takes_row (suc p) q k),
    )
    | inr t ↦ (
      suc p,
      omega arith,
      omega arith,
      row_step l s l.height high (omega arith) (suc p) q k t (high-takes_row (suc p) q k),
    )
  ]

  pub high_end : (p : ℕ) → IsPen l l.height p zero s → p ≡ 0
  high_end zero k = refl
  high_end (suc p) k = absurd (omega (arith, k.close, k.in_x, high, suc_times p l.height))
