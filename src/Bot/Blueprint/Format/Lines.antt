-- ===== src/Bot/Blueprint/Format/Lines.antt =====
-- How the lines that FormatTextArt (internal/bot/blueprint.go) writes are split again.
use pixel_beetle.Prelude.{
  ℕ, zero, suc, ◌+◌, ◌<◌, ◌≡◌, refl, ap, ◌∙◌, inl, inr, Bool, true, false, not, ◌&&◌, none, some,
  List, [], ◌∷◌, ◌++◌, ltb, ◌==◌, if◌then◌else◌, get_elem?, length, arith, Bool-cases,
}
use pixel_beetle.Bot.Blueprint.TextArt.{split_on, drop_final, trim_cr, is_space}
use pixel_beetle.Bot.Blueprint.Format.{print_legend, format_row, format_rows}
use pixel_beetle.Bot.Blueprint.Format.Order.{AreColors}
use pixel_beetle.Bot.Blueprint.Format.Legend.{are_solid, both, and_parts, token, token-solid}

-- No character is `c`.
abbrev pub is_free : ℕ → List ℕ → Bool
is_free c [] = true
is_free c (d ∷ s) = not (d == c) && is_free c s

is_free-append :
    (c : ℕ) (s t : List ℕ) → is_free c s ≡ true → is_free c t ≡ true → is_free c (s ++ t) ≡ true
is_free-append c [] t h k = k
is_free-append c (d ∷ s) t h k =
    let (a, b) = and_parts (d == c) (is_free c s) h in rw (a, is_free-append c s t b k) refl

split_on-append :
    (c : ℕ) (l s : List ℕ) → is_free c l ≡ true → split_on c (l ++ (c ∷ s)) ≡ l ∷ split_on c s
unfolding split_on
split_on-append c [] s h = ground arith
split_on-append c (d ∷ l) s h =
    let (a, b) = and_parts (d == c) (is_free c l) h in rw (split_on-append c l s b, a) refl

split_on-cons : (c : ℕ) (s : List ℕ) → (l : List ℕ) × (ls : List (List ℕ)) × (split_on c s ≡ l ∷ ls)
unfolding split_on
split_on-cons c [] = ([], [], refl)
split_on-cons c (d ∷ s) =
    let (l, ls, e) = split_on-cons c s in
    elim (Bool-cases (d == c)) [
      | inl t ↦ ([], split_on c s, rw t refl)
      | inr t ↦ (d ∷ l, ls, rw (t, e) refl)
    ]

drop_final-split_on :
    (c : ℕ) (l s : List ℕ) → drop_final (l ∷ split_on c s) ≡ l ∷ drop_final (split_on c s)
unfolding drop_final
drop_final-split_on c l s = let (m, ms, e) = split_on-cons c s in rw e refl

-- A line that ends in a newline, and what follows it.
pub drop_final-line :
    (l s : List ℕ)
    → is_free 10 l ≡ true
    → drop_final (split_on 10 (l ++ (10 ∷ s))) ≡ l ∷ drop_final (split_on 10 s)
drop_final-line l s h = ap drop_final (split_on-append 10 l s h) ∙ drop_final-split_on 10 l s

abbrev pub format_lines : (ℕ → ℕ → ℕ) → ℕ → ℕ → ℕ → List (List ℕ)
format_lines char w y zero = []
format_lines char w y (suc n) = format_row (λ x. char x y) 0 w ∷ format_lines char w (suc y) n

module _ (c : ℕ) where
  pub is_free-format_row :
      (char : ℕ → ℕ) (x n : ℕ)
      → ((i : ℕ) → (char i == c) ≡ false)
      → is_free c (format_row char x n) ≡ true
  unfolding format_row
  is_free-format_row char x zero h = refl
  is_free-format_row char x (suc n) h = rw (h x, is_free-format_row char (suc x) n h) refl

pub drop_final-format_rows :
    (char : ℕ → ℕ → ℕ) (w y n : ℕ)
    → ((i j : ℕ) → (char i j == 10) ≡ false)
    → drop_final (split_on 10 (format_rows char w y n)) ≡ format_lines char w y n
unfolding format_rows split_on drop_final
drop_final-format_rows char w y zero h = refl
drop_final-format_rows char w y (suc n) h =
    drop_final-line (format_row (λ x. char x y) 0 w) (format_rows char w (suc y) n)
      (is_free-format_row 10 (λ x. char x y) 0 w (λ i. h i y))
    ∙ ap (λ ls. format_row (λ x. char x y) 0 w ∷ ls) (drop_final-format_rows char w (suc y) n h)

pub trim_cr-is_free : (s : List ℕ) → is_free 13 s ≡ true → trim_cr s ≡ s
unfolding trim_cr
trim_cr-is_free [] h = refl
trim_cr-is_free (c ∷ []) h = ground (arith, h)
trim_cr-is_free (c ∷ d ∷ s) h = ap (λ t. c ∷ t) (trim_cr-is_free (d ∷ s) ((both _ _ h).1))

pub length-format_row : (char : ℕ → ℕ) (x n : ℕ) → length (format_row char x n) ≡ n
unfolding format_row
length-format_row char x zero = refl
length-format_row char x (suc n) = ap suc (length-format_row char (suc x) n)

pub get_elem?-format_row :
    (char : ℕ → ℕ) (x n i : ℕ)
    → get_elem? (format_row char x n) i ≡ (if ltb i n then some (char (x + i)) else none)
unfolding format_row
get_elem?-format_row char x zero i = ground arith
get_elem?-format_row char x (suc n) zero =
    ap (λ v. some (char v)) {x = x} {y = x + 0} (omega arith) ∙ ground arith
get_elem?-format_row char x (suc n) (suc i) =
    let next : char (suc x + i) ≡ char (x + suc i) = ap char (omega arith) in
    ground (arith, get_elem?-format_row char (suc x) n i, next)

pub length-format_lines : (char : ℕ → ℕ → ℕ) (w y n : ℕ) → length (format_lines char w y n) ≡ n
length-format_lines char w y zero = refl
length-format_lines char w y (suc n) = ap suc (length-format_lines char w (suc y) n)

pub get_elem?-format_lines :
    (char : ℕ → ℕ → ℕ) (w y n j : ℕ)
    → get_elem? (format_lines char w y n) j
      ≡ (if ltb j n then some (format_row (λ x. char x (y + j)) 0 w) else none)
get_elem?-format_lines char w y zero j = ground arith
get_elem?-format_lines char w y (suc n) zero =
    ap (λ v. some (format_row (λ x. char x v) 0 w)) {x = y} {y = y + 0} (omega arith) ∙ ground arith
get_elem?-format_lines char w y (suc n) (suc j) =
    let next : format_row (λ x. char x (suc y + j)) 0 w ≡ format_row (λ x. char x (y + suc j)) 0 w =
      ap (λ v. format_row (λ x. char x v) 0 w) {x = suc y + j} {y = y + suc j} (omega arith) in
    ground (arith, get_elem?-format_lines char w (suc y) n j, next)

is_free-are_solid : (s : List ℕ) → are_solid s ≡ true → is_free 10 s ≡ true
is_free-are_solid [] h = refl
is_free-are_solid (c ∷ s) h =
    let (a, b) = and_parts (is_space c) (are_solid s) h in
    let other : (c == 10) ≡ false = ground (arith, a) in rw (other, is_free-are_solid s b) refl

pub is_free-print_legend :
    (r : ℕ) (order : List ℕ) → 96 < r → AreColors order → is_free 10 (print_legend r order) ≡ true
unfolding print_legend
is_free-print_legend r [] h k = refl
is_free-print_legend r (c ∷ order) h (k, l) =
    is_free-append 10 (token r c) (print_legend (suc r) order)
      (is_free-are_solid (token r c) (token-solid r c h k))
      (is_free-print_legend (suc r) order (omega (arith, h)) l)
