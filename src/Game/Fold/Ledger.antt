-- ===== src/Game/Fold/Ledger.antt =====
-- A ledger as TigerBeetle documents it, the transfers in the strict order of their timestamps, and the
-- parts of it from and before a time.
use pixel_beetle.Prelude.{
  ℕ, zero, suc, ◌+◌, ◌≤◌, ◌<◌, ◌≡◌, refl, sym, subst, ◌∙◌, ap, true, false, inl, inr, some, List,
  [], ◌∷◌, arith, ltb, leb, if◌then◌else◌, Bool-cases, length, take, drop,
}
use pixel_beetle.TbClient.External.{Transfer, TbServer}
use pixel_beetle.TbClient.Client.{query_canvas_transfers}
use pixel_beetle.Game.Fold.{last_timestamp}

unfoldable pub IsAbove : ℕ → List Transfer → Type 0
IsAbove b [] = Unit
IsAbove b (t ∷ l) = (b < t.timestamp) × IsAbove b l

unfoldable pub IsAscending : List Transfer → Type 0
unfolding IsAbove
IsAscending [] = Unit
IsAscending (t ∷ l) = IsAbove t.timestamp l × IsAscending l

-- The transfers at or after a time, and those before it.
unfoldable pub since : ℕ → List Transfer → List Transfer
since from [] = []
since from (t ∷ l) = let rest = since from l in if leb from t.timestamp then t ∷ rest else rest

unfoldable pub until : ℕ → List Transfer → List Transfer
until end [] = []
until end (t ∷ l) = let rest = until end l in if ltb t.timestamp end then t ∷ rest else rest

-- The documented answer of a query for canvas transfers: the first ones at or after the time, at
-- most as many as the limit.
pub record QueryLaws {S : Type 0} (server : TbServer S) (ledger : S → List Transfer) : Type 0 where
  pub ascending : (s : S) → IsAscending (ledger s)
  pub answered :
      (from limit : ℕ) (s : S)
      → query_canvas_transfers server from limit s ≡ some (take limit (since from (ledger s)))

IsAbove-weaken : (b c : ℕ) (l : List Transfer) → b ≤ c → IsAbove c l → IsAbove b l
unfolding IsAbove
IsAbove-weaken b c [] h above = tt
IsAbove-weaken b c (t ∷ l) h above = (omega (arith, above.0), IsAbove-weaken b c l h above.1)

pub since_above : (from b : ℕ) (l : List Transfer) → from ≤ b + 1 → IsAbove b l → since from l ≡ l
unfolding since IsAbove
since_above from b [] h above = refl
since_above from b (t ∷ l) h above =
    let kept : leb from t.timestamp ≡ true = ground (arith, above.0) in
    rw kept (ap (λ rest. t ∷ rest) (since_above from b l h above.1))

IsAbove-since : (b from : ℕ) (l : List Transfer) → IsAbove b l → IsAbove b (since from l)
unfolding since IsAbove
IsAbove-since b from [] above = tt
IsAbove-since b from (t ∷ l) above = elim (Bool-cases (leb from t.timestamp)) [
  | inl late ↦ rw late (above.0, IsAbove-since b from l above.1)
  | inr early ↦ rw early (IsAbove-since b from l above.1)
]

pub IsAscending-since : (from : ℕ) (l : List Transfer) → IsAscending l → IsAscending (since from l)
unfolding since IsAscending
IsAscending-since from [] asc = tt
IsAscending-since from (t ∷ l) asc = elim (Bool-cases (leb from t.timestamp)) [
  | inl late ↦ rw late (IsAbove-since t.timestamp from l asc.0, IsAscending-since from l asc.1)
  | inr early ↦ rw early (IsAscending-since from l asc.1)
]

pub since-since :
    (from later : ℕ) (l : List Transfer) → from ≤ later → since later (since from l) ≡ since later l
unfolding since
since-since from later [] h = refl
since-since from later (t ∷ l) h = ground (arith, since-since from later l h)

-- The last timestamp of a full page is above what its ledger is above.
last_timestamp_above :
    (b n : ℕ) (l : List Transfer) → n < length l → IsAbove b l → b < last_timestamp (take (suc n) l)
unfolding IsAbove
last_timestamp_above b n [] h above = absurd (omega arith)
last_timestamp_above b zero (t ∷ l) h above = above.0
last_timestamp_above b (suc n) (t ∷ []) h above = absurd (omega arith)
last_timestamp_above b (suc n) (t ∷ u ∷ l) h above =
    last_timestamp_above b n (u ∷ l) (omega arith) above.1

-- The query after a full page goes on where the page ends.
since-last_timestamp :
    (n : ℕ) (l : List Transfer)
    → n < length l
    → IsAscending l
    → since (last_timestamp (take (suc n) l) + 1) l ≡ drop (suc n) l
unfolding since IsAscending
since-last_timestamp n [] h asc = absurd (omega arith)
since-last_timestamp zero (t ∷ l) h asc =
    let gone : leb (t.timestamp + 1) t.timestamp ≡ false = ground arith in
    rw gone (since_above (t.timestamp + 1) t.timestamp l (omega arith) asc.0)
since-last_timestamp (suc n) (t ∷ []) h asc = absurd (omega arith)
since-last_timestamp (suc n) (t ∷ u ∷ l) h asc =
    let above = last_timestamp_above t.timestamp n (u ∷ l) (omega arith) asc.0 in
    let gone : leb (last_timestamp (take (suc n) (u ∷ l)) + 1) t.timestamp ≡ false =
      ground (arith, above) in
    rw gone (since-last_timestamp n (u ∷ l) (omega arith) asc.1)

IsAbove-since-suc : (b : ℕ) (l : List Transfer) → IsAbove b (since (suc b) l)
unfolding since IsAbove
IsAbove-since-suc b [] = tt
IsAbove-since-suc b (t ∷ l) = elim (Bool-cases (leb (suc b) t.timestamp)) [
  | inl late ↦ rw late (ground arith, IsAbove-since-suc b l)
  | inr early ↦ rw early (IsAbove-since-suc b l)
]

from_last_timestamp :
    (from n : ℕ) (l : List Transfer)
    → n < length (since from l)
    → from ≤ last_timestamp (take (suc n) (since from l))
from_last_timestamp zero n l h = omega arith
from_last_timestamp (suc b) n l h =
    omega (arith, last_timestamp_above b n (since (suc b) l) h (IsAbove-since-suc b l))

-- The next query of `foldFrom` after a full page.
pub next_page :
    (from n : ℕ) (l : List Transfer)
    → IsAscending l
    → n < length (since from l)
    → since (last_timestamp (take (suc n) (since from l)) + 1) l ≡ drop (suc n) (since from l)
next_page from n l asc h =
    sym (
      since-since from (last_timestamp (take (suc n) (since from l)) + 1) l
        (omega (arith, from_last_timestamp from n l h)))
    ∙ since-last_timestamp n (since from l) h (IsAscending-since from l asc)

pub until_none : (from b : ℕ) (l : List Transfer) → from ≤ b + 1 → IsAbove b l → until from l ≡ []
unfolding until IsAbove
until_none from b [] h above = refl
until_none from b (t ∷ l) h above =
    let late : ltb t.timestamp from ≡ false = ground (arith, above.0) in
    rw late (until_none from b l h above.1)

pub IsAbove-since_next : (b : ℕ) (l : List Transfer) → IsAbove b (since (b + 1) l)
IsAbove-since_next b l =
    let e : b + 1 ≡ suc b = omega arith in
    subst (λ n. IsAbove b (since n l)) (sym e) (IsAbove-since-suc b l)
