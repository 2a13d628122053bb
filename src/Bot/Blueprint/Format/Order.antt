-- ===== src/Bot/Blueprint/Format/Order.antt =====
-- The colors that FormatTextArt (internal/bot/blueprint.go) puts into the legend.
use pixel_beetle.Prelude.{
  ℕ, zero, suc, ◌+◌, ◌<◌, ◌≤◌, ◌≡◌, refl, ap, ◌⊎◌, inl, inr, true, false, some, List, [], ◌∷◌, ltb,
  ◌==◌, if◌then◌else◌, get_elem?, length, arith, Bool-cases,
}
use pixel_beetle.Bot.Blueprint.{Placement, is_at, cell_color}
use pixel_beetle.Bot.Blueprint.Compose.{painted, or_else}
use pixel_beetle.Bot.Blueprint.Format.{
  store, store_all, count_color, are_colors, used_from, goes_first, insert_color, sort_colors,
  color_order, char_from,
}

-- The map holds the last placement of each cell.
cell_color-store :
    (p : Placement) (cells : List Placement) (x y : ℕ)
    → cell_color (store p cells) x y ≡ (if is_at p x y then some p.color else cell_color cells x y)
unfolding store cell_color
cell_color-store p [] x y = refl
cell_color-store p (q ∷ cells) x y = ground (arith, cell_color-store p cells x y)

pub cell_color-store_all :
    (ps cells : List Placement) (x y : ℕ)
    → cell_color (store_all ps cells) x y ≡ or_else (painted ps x y) (cell_color cells x y)
unfolding store_all painted
cell_color-store_all [] cells x y = refl
cell_color-store_all (p ∷ ps) cells x y =
    ground (arith, cell_color-store_all ps (store p cells) x y, cell_color-store p cells x y)

-- A color of a cell is counted.
cell_color-count_color :
    (cells : List Placement) (x y c : ℕ) → cell_color cells x y ≡ some c → 0 < count_color c cells
unfolding cell_color count_color
cell_color-count_color [] x y c e = absurd (ground (arith, e))
cell_color-count_color (p ∷ cells) x y c e = ground (arith, e, cell_color-count_color cells x y c)

cell_color-lt :
    (cells : List Placement) (x y c : ℕ)
    → are_colors cells ≡ true
    → cell_color cells x y ≡ some c
    → c < 16
unfolding cell_color
cell_color-lt [] x y c h e = absurd (ground (arith, e))
cell_color-lt (p ∷ cells) x y c h e = ground (arith, e, h, cell_color-lt cells x y c)

abbrev pub Has : ℕ → List ℕ → Type 0
Has c [] = ⊥
Has c (o ∷ order) = (o ≡ c) ⊎ Has c order

next_color : (i c : ℕ) (order : List ℕ) → i ≤ c → (suc i ≤ c → Has c order) → (i ≡ c) ⊎ Has c order
next_color i c order k h = elim (Bool-cases (i == c)) [
  | inl t ↦ inl (ground (arith, t))
  | inr t ↦ inr (h (ground (arith, t, k)))
]

later_color :
    (cells : List Placement) (i c : ℕ)
    → i ≤ c
    → 0 < count_color c cells
    → ltb 0 (count_color i cells) ≡ false
    → suc i ≤ c
later_color cells i c k h t = elim (Bool-cases (i == c)) [
  | inl u ↦
      let same : count_color i cells ≡ count_color c cells =
        ap (λ v. count_color v cells) {x = i} {y = c} (ground (arith, u)) in
      absurd (ground (arith, t, same, h))
  | inr u ↦ ground (arith, u, k)
]

Has-used_from :
    (cells : List Placement) (c i n : ℕ)
    → 0 < count_color c cells
    → i ≤ c
    → c < i + n
    → Has c (used_from cells i n)
unfolding used_from
Has-used_from cells c i zero h k l = absurd (omega (arith, k, l))
Has-used_from cells c i (suc n) h k l = elim (Bool-cases (ltb 0 (count_color i cells))) [
  | inl t ↦ rw t (
      next_color i c (used_from cells (suc i) n) k
        (λ m. Has-used_from cells c (suc i) n h m (omega (arith, l))))
  | inr t ↦
      let further : suc i ≤ c = later_color cells i c k h t in
      rw t (Has-used_from cells c (suc i) n h further (omega (arith, l)))
]

behind : {A B C D : Type 0} → (A ⊎ C → D) → A ⊎ (B ⊎ C) → B ⊎ D
behind f (inl a) = inr (f (inl a))
behind f (inr (inl b)) = inl b
behind f (inr (inr c)) = inr (f (inr c))

Has-insert_color :
    (cells : List Placement) (a c : ℕ) (order : List ℕ)
    → (a ≡ c) ⊎ Has c order
    → Has c (insert_color cells a order)
unfolding insert_color
Has-insert_color cells a c [] h = h
Has-insert_color cells a c (o ∷ order) h = elim (Bool-cases (goes_first cells o a)) [
  | inl t ↦ rw t (behind (λ k. Has-insert_color cells a c order k) h)
  | inr t ↦ rw t h
]

Has-sort_colors :
    (cells : List Placement) (c : ℕ) (order : List ℕ)
    → Has c order
    → Has c (sort_colors cells order)
unfolding sort_colors
Has-sort_colors cells c [] h = h
Has-sort_colors cells c (o ∷ order) (inl e) =
    Has-insert_color cells o c (sort_colors cells order) (inl e)
Has-sort_colors cells c (o ∷ order) (inr h) =
    Has-insert_color cells o c (sort_colors cells order) (inr (Has-sort_colors cells c order h))

-- A color that is used is in the legend.
pub Has-color_order :
    (cells : List Placement) (x y c : ℕ)
    → are_colors cells ≡ true
    → cell_color cells x y ≡ some c
    → Has c (color_order cells)
unfolding color_order
Has-color_order cells x y c h e = Has-sort_colors cells c (used_from cells 0 16) (
    Has-used_from cells c 0 16 (cell_color-count_color cells x y c e) (omega arith)
      (cell_color-lt cells x y c h e))

abbrev pub AreColors : List ℕ → Type 0
AreColors [] = Unit
AreColors (o ∷ order) = (o < 16) × AreColors order

-- At most `n` colors, each below 16.
abbrev pub IsOrder : ℕ → List ℕ → Type 0
IsOrder n order = (length order ≤ n) × AreColors order

used_from-IsOrder :
    (cells : List Placement) (c n : ℕ) → c + n ≤ 16 → IsOrder n (used_from cells c n)
unfolding used_from
used_from-IsOrder cells c zero h = (omega arith, tt)
used_from-IsOrder cells c (suc n) h =
    let (size, colors) = used_from-IsOrder cells (suc c) n (omega (arith, h)) in
    elim (Bool-cases (ltb 0 (count_color c cells))) [
      | inl t ↦ rw t (omega (arith, size), (omega (arith, h), colors))
      | inr t ↦ rw t (omega (arith, size), colors)
    ]

insert_color-IsOrder :
    (cells : List Placement) (c n : ℕ) (order : List ℕ)
    → c < 16
    → IsOrder n order
    → IsOrder (suc n) (insert_color cells c order)
unfolding insert_color
insert_color-IsOrder cells c n [] h (size, colors) = (omega arith, (h, tt))
insert_color-IsOrder cells c zero (o ∷ order) h (size, colors) = absurd (omega (arith, size))
insert_color-IsOrder cells c (suc n) (o ∷ order) h (size, (below, colors)) =
    let (size', colors') = insert_color-IsOrder cells c n order h (omega (arith, size), colors) in
    elim (Bool-cases (goes_first cells o c)) [
      | inl t ↦ rw t (omega (arith, size'), (below, colors'))
      | inr t ↦ rw t (omega (arith, size), (h, (below, colors)))
    ]

sort_colors-IsOrder :
    (cells : List Placement) (order : List ℕ)
    → AreColors order
    → IsOrder (length order) (sort_colors cells order)
unfolding sort_colors
sort_colors-IsOrder cells [] h = (omega arith, tt)
sort_colors-IsOrder cells (o ∷ order) (h, k) =
    insert_color-IsOrder cells o (length order) (sort_colors cells order) h
      (sort_colors-IsOrder cells order k)

pub color_order-IsOrder : (cells : List Placement) → IsOrder 16 (color_order cells)
unfolding color_order
color_order-IsOrder cells =
    let (size, colors) = used_from-IsOrder cells 0 16 (omega arith) in
    let (size', colors') = sort_colors-IsOrder cells (used_from cells 0 16) colors in
    (omega (arith, size, size'), colors')

other_color : (o c : ℕ) (order : List ℕ) → (o == c) ≡ false → (o ≡ c) ⊎ Has c order → Has c order
other_color o c order t (inl e) = absurd (ground (arith, t, e))
other_color o c order t (inr h) = h

-- The character of a color of the legend, by its place.
pub char_from-Has :
    (r c : ℕ) (order : List ℕ)
    → Has c order
    → (k : ℕ) × (k < length order) × (char_from r order c ≡ r + k) × (get_elem? order k ≡ some c)
unfolding char_from
char_from-Has r c [] h = elim h [ ]
char_from-Has r c (o ∷ order) h = elim (Bool-cases (o == c)) [
  | inl t ↦ (0, omega arith, rw t (omega arith), ground (arith, t))
  | inr t ↦
      let (k, below, at, found) = char_from-Has (suc r) c order (other_color o c order t h) in
      (suc k, omega (arith, below), rw t (omega (arith, at)), found)
]
