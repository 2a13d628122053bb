-- ===== src/Canvas/Cells.antt =====
-- The cells of a bitmap (internal/canvas/bitmap.go) do not overlap as long as the grid has fewer than
-- 2 ^ 32 cells.
use native.Mathlib.Nat.{
  mul-add-div_right, div-eq_of_lt, mul-add-mod_self_right, mod-eq_of_lt, mul-le-mul_right, mul_comm,
  suc-mul,
}
use pixel_beetle.Prelude.{
  ℕ, zero, suc, ◌+◌, ◌*◌, ◌/◌, ◌%◌, ◌^◌, ◌<◌, ◌≡◌, refl, sym, ◌∙◌, ap, inl, inr, true, ◌&&◌, Option,
  none, some, List, [], ◌∷◌, arith, ltb, ◌==◌, if◌then◌else◌, Bool-cases, length, get_elem?, set,
  length-set,
}
use pixel_beetle.Canvas.{Bitmap, index, set_cell, get_cell, base64, decoded, decode_base64}

get_elem?-set :
    (xs : List ℕ) (i j v : ℕ)
    → i < length xs
    → get_elem? (set xs i v) j ≡ (if i == j then some v else get_elem? xs j)
get_elem?-set [] i j v h = absurd (omega arith)
get_elem?-set (x ∷ xs) zero zero v h = refl
get_elem?-set (x ∷ xs) zero (suc j) v h = ground arith
get_elem?-set (x ∷ xs) (suc i) zero v h = ground arith
get_elem?-set (x ∷ xs) (suc i) (suc j) v h = ground (arith, get_elem?-set xs i j v (omega arith))

-- A bitmap as `NewBitmap` makes it for a grid of fewer than 2 ^ 32 cells.
pub record IsSized (b : Bitmap) : Type 0 where
  pub filled : length b.data_bytes ≡ b.w * b.h
  pub bounded : b.w * b.h < 2 ^ 32

pub cell_bound : (x y w h : ℕ) → x < w → y < h → y * w + x < w * h
cell_bound x y w h hx hy = omega (arith, hx, mul-le-mul_right w hy, suc-mul y w, mul_comm h w)

pub index_exact : (x y : ℕ) (b : Bitmap) → IsSized b → x < b.w → y < b.h → index x y b ≡ y * b.w + x
index_exact x y b s hx hy = omega (arith, cell_bound x y b.w b.h hx hy, s.bounded)

index_injective : (x y x' y' w : ℕ) → x < w → x' < w → y * w + x ≡ y' * w + x' → (x ≡ x') × (y ≡ y')
index_injective x y x' y' w hx hx' e =
    let column = λ (a b : ℕ) (h : a < w). mul-add-mod_self_right b w a ∙ mod-eq_of_lt h in
    let row = λ (a b : ℕ) (h : a < w).
      mul-add-div_right (omega (arith, h)) b a ∙ ap (λ q. b + q) (div-eq_of_lt h) in
    (
      sym (column x y hx) ∙ ap (λ i. i % w) e ∙ column x' y' hx',
      omega (arith, row x y hx, row x' y' hx', ap (λ i. i / w) e),
    )

same_cell :
    (x y x' y' : ℕ) (b : Bitmap)
    → IsSized b
    → x < b.w
    → y < b.h
    → x' < b.w
    → y' < b.h
    → (index x y b == index x' y' b) ≡ (x == x' && y == y')
same_cell x y x' y' b s hx hy hx' hy' =
    rw (index_exact x y b s hx hy, index_exact x' y' b s hx' hy')
      (elim (Bool-cases (y * b.w + x == y' * b.w + x')) [
        | inl same ↦
            let e = index_injective x y x' y' b.w hx hx' (ground (arith, same)) in
            rw same (ground (arith, e.0, e.1))
        | inr other ↦ rw other (elim (Bool-cases (x == x' && y == y')) [
          | inr apart ↦ sym apart
          | inl equal ↦
              let ex : x ≡ x' = ground (arith, equal) in
              let ey : y ≡ y' = ground (arith, equal) in
              absurd (ground (arith, other, ap (λ c. y * b.w + c) ex, ap (λ r. r * b.w + x') ey))
        ])
      ])

-- What a write of one cell leaves.
pub record IsWritten (x y color : ℕ) (b b' : Bitmap) : Type 0 where
  pub cells :
      (x' y' : ℕ)
      → x' < b.w
      → y' < b.h
      → get_cell x' y' b' ≡ (if x == x' && y == y' then some color else get_cell x' y' b)
  pub sized : IsSized b'

-- On a bitmap of fewer than 2 ^ 32 cells whose bytes are as many as its cells: a write inside the
-- grid does not panic, a read of the cell returns what was written, a read of any other cell inside
-- the grid returns what it did before, and the size is kept.
pub set_cell-IsWritten :
    (x y color : ℕ) (b : Bitmap)
    → IsSized b
    → x < b.w
    → y < b.h
    → (b' : Bitmap) × (set_cell x y color b ≡ some b') × IsWritten x y color b b'
unfolding set_cell get_cell
set_cell-IsWritten x y color b s hx hy =
    let i = index x y b in
    let at = index_exact x y b s hx hy in
    let within : i < length b.data_bytes =
      omega (arith, at, s.filled, cell_bound x y b.w b.h hx hy) in
    let inside : ltb i (length b.data_bytes) ≡ true = ground (arith, within) in
    (
      record b { data_bytes = set b.data_bytes i color },
      rw inside refl,
      record {
        cells = λ x' y' hx' hy'.
            get_elem?-set b.data_bytes i (index x' y' b) color within
            ∙ ap (λ c. if c then some color else get_elem? b.data_bytes (index x' y' b))
                (same_cell x y x' y' b s hx hy hx' hy');
        sized = record { filled = length-set b.data_bytes i color ∙ s.filled; bounded = s.bounded };
      },
    )

-- Where the decoder undoes the encoder: the base64 of a bitmap, decoded with any dimensions whose
-- cells are as many as its bytes, is the bitmap of these bytes with these dimensions; with other
-- dimensions it is an error.
pub decode_base64-base64 :
    {B : Type 0} (encode : List ℕ → B) (decode : B → Option (List ℕ))
    → ((bytes : List ℕ) → decode (encode bytes) ≡ some bytes)
    → (b : Bitmap) (w h : ℕ)
    → decode_base64 encode decode (base64 encode decode b) w h
      ≡ (if length b.data_bytes == w * h then some (record b { w = w; h = h }) else none)
unfolding decode_base64
decode_base64-base64 encode decode undone b w h = rw (undone b.data_bytes, decoded) refl
