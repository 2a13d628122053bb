-- ===== src/Bot/Load/Queue/Counts.antt =====
-- How many placements of a list put a color on a cell, for the queue of internal/bot/paint.go.
use pixel_beetle.Prelude.{
  ℕ, zero, suc, ◌+◌, ◌-◌, ◌<◌, ◌≡◌, refl, sym, ap, subst, ◌∙◌, ◌⊎◌, inl, inr, ◌&&◌, Option, none,
  some, List, [], ◌∷◌, map, length, leb, ◌==◌, if◌then◌else◌, arith, Bool-cases, Option-cases,
  get_elem?, set, length-set,
}
use pixel_beetle.Bot.Blueprint.{Placement, is_at}
use pixel_beetle.Bot.Blueprint.Compose.{IsScanline, painted}
use pixel_beetle.Bot.Paint.{shifted}
use pixel_beetle.Bot.Load.Queue.{swap, shuffle_placements}

abbrev pub puts : ℕ → ℕ → ℕ → Placement → ℕ
puts x y c p = if is_at p x y && p.color == c then 1 else 0

unfoldable pub count_puts : ℕ → ℕ → ℕ → List Placement → ℕ
count_puts x y c [] = 0
count_puts x y c (p ∷ ps) = puts x y c p + count_puts x y c ps

abbrev pub holds : ℕ → Option ℕ → ℕ
holds c none = 0
holds c (some d) = if d == c then 1 else 0

puts_in : ℕ → ℕ → ℕ → Option Placement → ℕ
puts_in x y c none = 0
puts_in x y c (some p) = puts x y c p

count_puts-set :
    (x y c : ℕ) (ps : List Placement) (i : ℕ) (a b : Placement)
    → get_elem? ps i ≡ some a
    → count_puts x y c (set ps i b) + puts x y c a ≡ count_puts x y c ps + puts x y c b
unfolding count_puts puts_in
count_puts-set x y c [] i a b h = absurd (cc h)
count_puts-set x y c (p ∷ ps) zero a b h =
    ap (λ o. puts x y c b + count_puts x y c ps + puts_in x y c o) (sym h) ∙ omega arith
count_puts-set x y c (p ∷ ps) (suc i) a b h = omega (arith, count_puts-set x y c ps i a b h)

get_elem?-set :
    (ps : List Placement) (i j : ℕ) (b : Placement)
    → get_elem? ps j ≡ some b
    → get_elem? (set ps i b) j ≡ some b
get_elem?-set [] i j b h = h
get_elem?-set (p ∷ ps) zero zero b h = refl
get_elem?-set (p ∷ ps) zero (suc j) b h = h
get_elem?-set (p ∷ ps) (suc i) zero b h = h
get_elem?-set (p ∷ ps) (suc i) (suc j) b h = get_elem?-set ps i j b h

get_elem?-length :
    (ps : List Placement) (i : ℕ) → i < length ps → (p : Placement) × (get_elem? ps i ≡ some p)
get_elem?-length [] i h = absurd (omega (arith, h))
get_elem?-length (p ∷ ps) zero h = (p, refl)
get_elem?-length (p ∷ ps) (suc i) h = get_elem?-length ps i (omega (arith, h))

-- Exchanges inside a list leave it as it is but for the order.
abbrev pub AreBelow : ℕ → List (ℕ × ℕ) → Type 0
AreBelow n [] = Unit
AreBelow n ((i, j) ∷ ks) = (i < n) × (j < n) × AreBelow n ks

-- The same placements in some order.
abbrev pub IsReordered : List Placement → List Placement → Type 0
IsReordered ps qs =
    (length qs ≡ length ps) × ((x y c : ℕ) → count_puts x y c qs ≡ count_puts x y c ps)

swap-IsReordered :
    (i j : ℕ) (ps : List Placement)
    → i < length ps
    → j < length ps
    → (qs : List Placement) × (swap (i, j) ps ≡ some qs) × IsReordered ps qs
unfolding swap
swap-IsReordered i j ps hi hj =
    let (a, ea) = get_elem?-length ps i hi in
    let (b, eb) = get_elem?-length ps j hj in
    (
      set (set ps i b) j a,
      rw (swap, ea, eb) refl,
      (
        length-set (set ps i b) j a ∙ length-set ps i b,
        λ x y c. omega (
          arith,
          count_puts-set x y c ps i a b ea,
          count_puts-set x y c (set ps i b) j b a (get_elem?-set ps i j b eb),
        ),
      ),
    )

pub shuffle_placements-IsReordered :
    (ks : List (ℕ × ℕ)) (ps : List Placement)
    → AreBelow (length ps) ks
    → (qs : List Placement) × (shuffle_placements ks (some ps) ≡ some qs) × IsReordered ps qs
unfolding shuffle_placements
shuffle_placements-IsReordered [] ps h = (ps, refl, (refl, λ x y c. refl))
shuffle_placements-IsReordered ((i, j) ∷ ks) ps (hi, hj, below) =
    let (qs, e, (size, counts)) = swap-IsReordered i j ps hi hj in
    let (rs, f, (size', counts')) =
      shuffle_placements-IsReordered ks qs (subst (λ n. AreBelow n ks) (sym size) below) in
    (rs, rw (shuffle_placements, e) f, (size' ∙ size, λ x y c. counts' x y c ∙ counts x y c))

-- Nothing of a drawing in scanline order stands before its start.
scanline-before :
    (w h j i : ℕ) (ps : List Placement) (x y c : ℕ)
    → IsScanline w h j i ps
    → (y < j) ⊎ ((y ≡ j) × (x < i))
    → (count_puts x y c ps ≡ 0) × (painted ps x y ≡ none)
unfolding count_puts painted
scanline-before w h j i [] x y c s b = (refl, refl)
scanline-before w h j i (p ∷ ps) x y c (at, hx, hy, s) b =
    let (e, f) = scanline-before w h p.y (suc p.x) ps x y c s (ground (arith, at, b)) in
    (ground (arith, e, at, b), ground (arith, f, at, b))

-- A drawing in scanline order has each painted cell once.
pub count_puts-IsScanline :
    (w h j i : ℕ) (ps : List Placement) (x y c : ℕ)
    → IsScanline w h j i ps
    → count_puts x y c ps ≡ holds c (painted ps x y)
unfolding count_puts painted
count_puts-IsScanline w h j i [] x y c s = refl
count_puts-IsScanline w h j i (p ∷ ps) x y c (at, hx, hy, s) = elim (Bool-cases (is_at p x y)) [
  | inl t ↦
      let (e, f) = scanline-before w h p.y (suc p.x) ps x y c s (ground (arith, t)) in
      ground (arith, t, e, f)
  | inr t ↦ let rest = count_puts-IsScanline w h p.y (suc p.x) ps x y c s in ground (arith, t, rest)
]

pub painted-inside :
    (w h j i : ℕ) (ps : List Placement) (x y c : ℕ)
    → IsScanline w h j i ps
    → painted ps x y ≡ some c
    → (x < w) × (y < h)
unfolding painted
painted-inside w h j i [] x y c s e = absurd (cc e)
painted-inside w h j i (p ∷ ps) x y c (at, hx, hy, s) e = elim (Option-cases (painted ps x y)) [
  | inl f ↦ ground (arith, e, f)
  | inr (d, f) ↦ painted-inside w h p.y (suc p.x) ps x y d s f
]

-- A drawing at an offset.
pub count_puts-shifted :
    (ox oy : ℕ) (ps : List Placement) (x y c : ℕ)
    → count_puts x y c (map (shifted (ox, oy)) ps)
      ≡ (if leb ox x && leb oy y then count_puts (x - ox) (y - oy) c ps else 0)
unfolding count_puts
count_puts-shifted ox oy [] x y c = ground arith
count_puts-shifted ox oy (p ∷ ps) x y c =
    let rest = count_puts-shifted ox oy ps x y c in ground (arith, rest)
