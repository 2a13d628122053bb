-- ===== src/Game/Registry/Wf.antt =====
-- The invariant of the claim tables (locks, claims, byPlayer of internal/game/game.go) and that
-- each critical section keeps it.
use pixel_beetle.Prelude.{
  ℕ, ◌≡◌, ◌⊎◌, inl, inr, Option, none, some, arith, lookup, Option-cases, table_laws, lookup-erase,
}
use pixel_beetle.Game.Registry.{Lock, ClaimMeta, Registry, key_of, vacate, vacate_found}

abbrev pub owner : Option ClaimMeta → Option ℕ
owner none = none
owner (some m) = some m.player

abbrev pub cell : Option ClaimMeta → Option ℕ
cell none = none
cell (some m) = some (key_of m)

-- The cell of the claim that the index gives a player.
abbrev pub active_cell : Registry → Option ℕ → Option ℕ
active_cell r none = none
active_cell r (some id) = cell (lookup id r.claims)

-- Every claim is the one that its player's index entry names, every index entry names a claim of
-- that player, and every lock stands at the cell of its holder's claim.
pub record IsIndexed (r : Registry) : Type 0 where
  pub indexed :
      (id : ℕ) (m : ClaimMeta) → lookup id r.claims ≡ some m → lookup m.player r.by_player ≡ some id
  pub backed : (p id : ℕ) → lookup p r.by_player ≡ some id → owner (lookup id r.claims) ≡ some p

abbrev pub IsLocked : Registry → Type 0
IsLocked r =
    (k : ℕ) (l : Lock)
    → lookup k r.locks ≡ some l
    → active_cell r (lookup l.player r.by_player) ≡ some k

vacate_found-IsIndexed :
    (id key : ℕ) (m : ClaimMeta) (r : Registry)
    → IsIndexed r
    → lookup id r.claims ≡ some m
    → IsIndexed (vacate_found id key m r)
vacate_found-IsIndexed id key m r h e = record {
  indexed = λ i n f. grind (table_laws, h.indexed, h.backed);
  backed = λ p i f. ground (
    arith,
    h.backed p i,
    h.indexed id m e,
    lookup-erase id i r.claims,
    lookup-erase m.player p r.by_player,
  );
}

pub vacate_found-IsLocked :
    (id k : ℕ) (m : ClaimMeta) (r : Registry)
    → IsIndexed r
    → IsLocked r
    → lookup id r.claims ≡ some m
    → key_of m ≡ k
    → IsLocked (vacate_found id k m r)
vacate_found-IsLocked id k m r h hl e here j l f =
    elim (Option-cases (lookup l.player r.by_player)) [
      | inl missing ↦ ground (arith, hl j l, lookup-erase k j r.locks)
      | inr (i, found) ↦ ground (
        arith,
        hl j l,
        h.indexed id m e,
        h.backed l.player i found,
        lookup-erase id i r.claims,
        lookup-erase k j r.locks,
        lookup-erase m.player l.player r.by_player,
      )
    ]

-- Any `vacate` keeps the index; at the key of its claim it keeps the locks too.
pub vacate-IsIndexed : (id key : ℕ) (r : Registry) → IsIndexed r → IsIndexed (vacate id key r)
unfolding vacate
vacate-IsIndexed id key r h = elim (Option-cases (lookup id r.claims)) [
  | inl missing ↦ rw (missing, vacate) h
  | inr (m, found) ↦ rw (found, vacate) (vacate_found-IsIndexed id key m r h found)
]

pub vacate-IsLocked :
    (id key : ℕ) (r : Registry)
    → IsIndexed r
    → IsLocked r
    → (cell (lookup id r.claims) ≡ none) ⊎ (cell (lookup id r.claims) ≡ some key)
    → IsLocked (vacate id key r)
unfolding vacate
vacate-IsLocked id key r h hl at_key = elim (Option-cases (lookup id r.claims)) [
  | inl missing ↦ rw (missing, vacate) hl
  | inr (m, found) ↦ rw (found, vacate) (vacate_found-IsLocked id key m r h hl found (ground arith))
]
