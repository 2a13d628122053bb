-- ===== src/Bot/Blueprint/Format/Width.antt =====
-- How wide the rows of a text art file (internal/bot/blueprint.go) make a blueprint at most.
use pixel_beetle.Prelude.{
  ℕ, suc, ◌+◌, ◌≤◌, ◌≡◌, refl, ◌⊎◌, inl, inr, some, List, [], ◌∷◌, get_elem?, length, arith, Table,
}
use pixel_beetle.Bot.Blueprint.{Placement, Blueprint}
use pixel_beetle.Bot.Blueprint.TextArt.{
  ArtError, trim_cr, parse_line, widest, art_of, parse_rows, parse_art,
}
use pixel_beetle.Bot.Blueprint.TextArt.Rows.{IsLine, parse_line-IsLine, joined}

abbrev pub IsNarrow : ℕ → ArtError ⊎ (List Placement × ℕ) → Type 0
IsNarrow w (inl e) = Unit
IsNarrow w (inr (ps, x)) = x ≤ w

widest-IsNarrow :
    (w x : ℕ) (ps : List Placement) (q : ArtError ⊎ (List Placement × ℕ))
    → x ≤ w
    → IsNarrow w q
    → IsNarrow w (widest ps x q)
widest-IsNarrow w x ps (inl e) h k = tt
widest-IsNarrow w x ps (inr (qs, v)) h k = ground (arith, h, k)

module _ (runes : List ℕ → List ℕ) (w : ℕ) where
  joined-IsNarrow :
      (legend : Table ℕ) (off y line : ℕ) (s : List ℕ) (ls : List (List ℕ))
      → (q : ArtError ⊎ (List Placement × ℕ)) → length s ≤ w
      → IsLine legend line y 0 s q
      → IsNarrow w (parse_rows runes legend off (suc y) ls)
      → IsNarrow w (joined runes legend off y ls q)
  joined-IsNarrow legend off y line s ls (inl e) h k l = tt
  joined-IsNarrow legend off y line s ls (inr (ps, x)) h (k, _) l =
      widest-IsNarrow w x ps (parse_rows runes legend off (suc y) ls) (omega (arith, h, k)) l

  pub parse_rows-IsNarrow :
      (legend : Table ℕ) (off y : ℕ) (ls : List (List ℕ))
      → ((m : ℕ) (t : List ℕ) → get_elem? ls m ≡ some t → length (runes (trim_cr t)) ≤ w)
      → IsNarrow w (parse_rows runes legend off y ls)
  unfolding parse_rows
  parse_rows-IsNarrow legend off y [] h = omega arith
  parse_rows-IsNarrow legend off y (l ∷ ls) h =
      joined-IsNarrow legend off y (y + 1 + off) (runes (trim_cr l)) ls
        (parse_line legend (y + 1 + off) y 0 (runes (trim_cr l))) (h 0 l refl)
        (parse_line-IsLine legend (y + 1 + off) y 0 (runes (trim_cr l)))
        (parse_rows-IsNarrow legend off (suc y) ls (λ m. h (suc m)))

  abbrev pub IsNarrowArt : ArtError ⊎ Blueprint → Type 0
  IsNarrowArt (inl e) = Unit
  IsNarrowArt (inr bp) = bp.w ≤ w

  art_of-IsNarrowArt :
      (n : ℕ) (q : ArtError ⊎ (List Placement × ℕ)) → IsNarrow w q → IsNarrowArt (art_of n q)
  art_of-IsNarrowArt n (inl e) h = tt
  art_of-IsNarrowArt n (inr (ps, x)) h = h

  pub parse_art-IsNarrowArt :
      (legend : Table ℕ) (off : ℕ) (ls : List (List ℕ))
      → ((m : ℕ) (t : List ℕ) → get_elem? ls m ≡ some t → length (runes (trim_cr t)) ≤ w)
      → IsNarrowArt (parse_art runes legend off ls)
  parse_art-IsNarrowArt legend off ls h =
      art_of-IsNarrowArt (length ls) (parse_rows runes legend off 0 ls)
        (parse_rows-IsNarrow legend off 0 ls h)
