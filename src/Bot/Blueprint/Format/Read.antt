-- ===== src/Bot/Blueprint/Format/Read.antt =====
-- How ParseTextArt reads the rows that FormatTextArt (internal/bot/blueprint.go) writes.
use pixel_beetle.Prelude.{
  ℕ, zero, suc, ◌+◌, ◌-◌, ◌<◌, ◌≡◌, refl, sym, ap, ◌∙◌, ◌⊎◌, inl, inr, Bool, true, false, ◌&&◌,
  Option, none, some, List, [], ◌∷◌, ltb, ◌==◌, if◌then◌else◌, get_elem?, length, arith, Bool-cases,
  Table, lookup,
}
use pixel_beetle.Bot.Blueprint.{Placement, cell_color}
use pixel_beetle.Bot.Blueprint.TextArt.{trim_cr, is_skip}
use pixel_beetle.Bot.Blueprint.TextArt.Rows.{rune_color, line_at, art_color, IsMissing}
use pixel_beetle.Bot.Blueprint.Format.{are_colors, color_order, char_from, cell_char, format_row}
use pixel_beetle.Bot.Blueprint.Format.Order.{Has-color_order, color_order-IsOrder, char_from-Has}
use pixel_beetle.Bot.Blueprint.Format.Legend.{entered, lookup-entered}
use pixel_beetle.Bot.Blueprint.Format.Lines.{
  format_lines, is_free-format_row, trim_cr-is_free, length-format_row, get_elem?-format_row,
  get_elem?-format_lines,
}

-- What the reader makes of a character: it is ASCII, ends no line, and stands for the color `o`.
pub record IsRead (legend : Table ℕ) (r : ℕ) (o : Option ℕ) : Type 0 where
  pub ascii : r < 128
  pub newline : (r == 10) ≡ false
  pub return : (r == 13) ≡ false
  pub color : rune_color legend (some r) ≡ o
  pub known : (is_skip r ≡ true) ⊎ ((c : ℕ) × (lookup r legend ≡ some c))

module _ (cells : List Placement) (colors : are_colors cells ≡ true) where
  letter-IsRead :
      (c r k : ℕ)
      → r ≡ 97 + k
      → k < length (color_order cells)
      → get_elem? (color_order cells) k ≡ some c
      → IsRead (entered 97 (color_order cells) []) r (some c)
  unfolding lookup
  letter-IsRead c r k e below found =
      let size = (color_order-IsOrder cells).0 in
      let index : get_elem? (color_order cells) (r - 97) ≡ some c =
        ap (get_elem? (color_order cells)) {x = r - 97} {y = k} (omega (arith, e)) ∙ found in
      let entry = lookup-entered 97 (color_order cells) [] r in
      let here : lookup r (entered 97 (color_order cells) []) ≡ some c =
        ground (arith, entry, index, e, below) in
      record {
        ascii = omega (arith, e, below, size);
        newline = ground (arith, e);
        return = ground (arith, e);
        color = ground (arith, here, e);
        known = inr (c, here);
      }

  cell_char-IsRead :
      (x y : ℕ) (o : Option ℕ)
      → cell_color cells x y ≡ o
      → IsRead (entered 97 (color_order cells) []) (cell_char (color_order cells) o) o
  cell_char-IsRead x y none e = record {
    ascii = omega arith;
    newline = refl;
    return = refl;
    color = refl;
    known = inl refl;
  }
  cell_char-IsRead x y (some c) e =
      let (k, below, at, found) =
        char_from-Has 97 c (color_order cells) (Has-color_order cells x y c colors e) in
      letter-IsRead c (char_from 97 (color_order cells) c) k at below found

  pub char-IsRead :
      (x y : ℕ)
      → IsRead
          (entered 97 (color_order cells) [])
          (cell_char (color_order cells) (cell_color cells x y))
          (cell_color cells x y)
  char-IsRead x y = cell_char-IsRead x y (cell_color cells x y) refl

abbrev pub are_ascii : List ℕ → Bool
are_ascii [] = true
are_ascii (c ∷ s) = ltb c 128 && are_ascii s

are_ascii-format_row :
    (char : ℕ → ℕ) (x n : ℕ) → ((i : ℕ) → char i < 128) → are_ascii (format_row char x n) ≡ true
unfolding format_row
are_ascii-format_row char x zero h = refl
are_ascii-format_row char x (suc n) h =
    let first = h x in
    let here : ltb (char x) 128 ≡ true = ground (arith, first) in
    rw (here, are_ascii-format_row char (suc x) n h) refl

and-true : (b : Bool) → (b && true) ≡ b
and-true true = refl
and-true false = refl

-- Lines of characters that are read as the colors of their cells, where ASCII is read as it stands.
module _ (runes : List ℕ → List ℕ) (plain : (s : List ℕ) → are_ascii s ≡ true → runes s ≡ s)
    (legend : Table ℕ) (char : ℕ → ℕ → ℕ) (color : ℕ → ℕ → Option ℕ)
    (reads : (x y : ℕ) → IsRead legend (char x y) (color x y)) where
  row_read :
      (w y : ℕ) → runes (trim_cr (format_row (λ x. char x y) 0 w)) ≡ format_row (λ x. char x y) 0 w
  row_read w y =
      ap runes (
        trim_cr-is_free (format_row (λ x. char x y) 0 w)
          (is_free-format_row 13 (λ x. char x y) 0 w (λ i. (reads i y).return)))
      ∙ plain (format_row (λ x. char x y) 0 w)
          (are_ascii-format_row (λ x. char x y) 0 w (λ i. (reads i y).ascii))

  line_is_row :
      (w h m : ℕ) (t : List ℕ)
      → get_elem? (format_lines char w 0 h) m ≡ some t
      → t ≡ format_row (λ x. char x m) 0 w
  line_is_row w h m t e =
      let at : (if ltb m h then some (format_row (λ x. char x (0 + m)) 0 w) else none) ≡ some t =
        sym (get_elem?-format_lines char w 0 h m) ∙ e in
      elim (Bool-cases (ltb m h)) [
        | inl u ↦
            let same : format_row (λ x. char x (0 + m)) 0 w ≡ t = ground (arith, at, u) in
            sym same ∙ ap (λ v. format_row (λ x. char x v) 0 w) {x = 0 + m} {y = m} (omega arith)
        | inr u ↦ absurd (ground (arith, at, u))
      ]

  pub length-line :
      (w h m : ℕ) (t : List ℕ)
      → get_elem? (format_lines char w 0 h) m ≡ some t
      → length (runes (trim_cr t)) ≡ w
  length-line w h m t e =
      ap (λ l. length (runes (trim_cr l))) (line_is_row w h m t e)
      ∙ ap (length {A = ℕ}) (row_read w m)
      ∙ length-format_row (λ x. char x m) 0 w

  char_at :
      (w m i r : ℕ) → get_elem? (format_row (λ x. char x m) 0 w) i ≡ some r → r ≡ char (0 + i) m
  char_at w m i r e =
      let at : (if ltb i w then some (char (0 + i) m) else none) ≡ some r =
        sym (get_elem?-format_row (λ x. char x m) 0 w i) ∙ e in
      elim (Bool-cases (ltb i w)) [
        | inl u ↦ ground (arith, at, u)
        | inr u ↦ absurd (ground (arith, at, u))
      ]

  pub none_missing :
      (off w h l k r : ℕ) → IsMissing runes legend off 0 (format_lines char w 0 h) l k r → ⊥
  none_missing off w h l k r (m, i, t, a, b, line, at, solid, missing) =
      let row =
        sym (
          ap (λ v. get_elem? (runes (trim_cr v)) i) (line_is_row w h m t line)
          ∙ ap (λ v. get_elem? v i) (row_read w m))
        ∙ at in
      let same = char_at w m i r row in
      elim ((reads (0 + i) m).known) [
        | inl skip ↦ absurd (ground (arith, skip, same, solid))
        | inr (c, entry) ↦ absurd (ground (arith, ap (λ v. lookup v legend) same, entry, missing))
      ]

  rune_color-cell :
      (w x y : ℕ)
      → rune_color legend (if ltb x w then some (char (0 + x) (0 + y)) else none)
        ≡ (if ltb x w then color x y else none)
  rune_color-cell w x y = elim (Bool-cases (ltb x w)) [
    | inl t ↦
        let moved : color (0 + x) (0 + y) ≡ color x y =
          ap (λ i. color i (0 + y)) {x = 0 + x} {y = x} (omega arith)
          ∙ ap (color x) {x = 0 + y} {y = y} (omega arith) in
        rw t ((reads (0 + x) (0 + y)).color ∙ moved)
    | inr t ↦ rw t refl
  ]

  rune_color-row :
      (w x y : ℕ)
      → rune_color legend (get_elem? (runes (trim_cr (format_row (λ i. char i (0 + y)) 0 w))) x)
        ≡ (if ltb x w then color x y else none)
  rune_color-row w x y =
      ap (λ l. rune_color legend (get_elem? l x)) (row_read w (0 + y))
      ∙ ap (rune_color legend) (get_elem?-format_row (λ i. char i (0 + y)) 0 w x)
      ∙ rune_color-cell w x y

  -- The color of each cell.
  pub art_color-format_lines :
      (w h x y : ℕ)
      → art_color runes legend (format_lines char w 0 h) x y
        ≡ (if ltb x w && ltb y h then color x y else none)
  art_color-format_lines w h x y =
      ap (line_at runes legend x) (get_elem?-format_lines char w 0 h y)
      ∙ elim (Bool-cases (ltb y h)) [
        | inl u ↦ rw u (rune_color-row w x y ∙ rw (and-true (ltb x w)) refl)
        | inr u ↦ rw u (ground arith)
      ]
