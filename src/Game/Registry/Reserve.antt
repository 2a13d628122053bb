-- ===== src/Game/Registry/Reserve.antt =====
-- The first critical section of `Claim` (internal/game/game.go) keeps the invariant of the tables.
use pixel_beetle.Prelude.{
  ℕ, ◌≡◌, ◌⊎◌, ap, inl, inr, none, some, arith, lookup, Option-cases, lookup-insert, lookup-erase,
}
use pixel_beetle.Game.Registry.{
  ClaimMeta, Registry, key_of, vacate, superseded, vacate_old, enter, reserve,
}
use pixel_beetle.Game.Registry.Wf.{IsIndexed, IsLocked, cell, vacate-IsIndexed, vacate-IsLocked}

-- A new claim of a player who has none.
enter-IsIndexed :
    (id : ℕ) (m : ClaimMeta) (expires : ℕ) (r : Registry)
    → IsIndexed r
    → lookup id r.claims ≡ none
    → lookup m.player r.by_player ≡ none
    → IsIndexed (enter id m expires r)
enter-IsIndexed id m expires r h fresh idle = record {
  indexed = λ i n f. ground (
    arith,
    h.indexed i n,
    lookup-insert id i m r.claims,
    lookup-insert m.player n.player id r.by_player,
  );
  backed = λ p i f.
      ground (
        arith,
        h.backed p i,
        lookup-insert id i m r.claims,
        lookup-insert m.player p id r.by_player,
      );
}

enter-IsLocked :
    (id : ℕ) (m : ClaimMeta) (expires : ℕ) (r : Registry)
    → IsIndexed r
    → IsLocked r
    → lookup id r.claims ≡ none
    → lookup m.player r.by_player ≡ none
    → IsLocked (enter id m expires r)
enter-IsLocked id m expires r h hl fresh idle k l f =
    elim (Option-cases (lookup l.player r.by_player)) [
      | inl missing ↦ ground (
        arith,
        hl k l,
        lookup-insert id id m r.claims,
        lookup-insert (key_of m) k (record { player = m.player; expires = expires }) r.locks,
        lookup-insert m.player l.player id r.by_player,
      )
      | inr (i, found) ↦ ground (
        arith,
        hl k l,
        h.backed l.player i found,
        lookup-insert id id m r.claims,
        lookup-insert id i m r.claims,
        lookup-insert (key_of m) k (record { player = m.player; expires = expires }) r.locks,
        lookup-insert m.player l.player id r.by_player,
      )
    ]

-- What `Claim` keeps aside, if anything, is the claim that the index gives the player.
pub superseded-cases :
    (p : ℕ) (r : Registry)
    → IsIndexed r
    → ((superseded p r ≡ none) × (lookup p r.by_player ≡ none))
      ⊎ ((id : ℕ) × (m : ClaimMeta) × (superseded p r
            ≡ some (record { id = id; meta = m; lock = lookup (key_of m) r.locks }))
          × (lookup p r.by_player ≡ some id)
          × (lookup id r.claims ≡ some m)
          × (m.player ≡ p))
unfolding superseded
superseded-cases p r h = elim (Option-cases (lookup p r.by_player)) [
  | inl idle ↦ inl (rw (idle, superseded), idle)
  | inr (id, found) ↦ elim (Option-cases (lookup id r.claims)) [
    | inl missing ↦ absurd (ground (arith, h.backed p id found))
    | inr (m, e) ↦
        inr (id, m, rw (found, superseded) (rw e), found, e, ground (arith, h.backed p id found))
  ]
]

-- After the superseded claim is vacated the player has no claim.
pub vacated-idle :
    (p : ℕ) (r : Registry) → IsIndexed r → lookup p (vacate_old (superseded p r) r).by_player ≡ none
unfolding vacate
vacated-idle p r h = elim (superseded-cases p r h) [
  | inl (no_old, idle) ↦ rw no_old idle
  | inr (id, m, old, found, e, mine) ↦
      rw (old, e, vacate) (ground (arith, lookup-erase m.player p r.by_player))
]

vacated-fresh :
    (p id : ℕ) (r : Registry)
    → IsIndexed r
    → lookup id r.claims ≡ none
    → lookup id (vacate_old (superseded p r) r).claims ≡ none
unfolding vacate
vacated-fresh p id r h fresh = elim (superseded-cases p r h) [
  | inl (no_old, idle) ↦ rw no_old fresh
  | inr (i, m, old, found, e, mine) ↦
      rw (old, e, vacate) (ground (arith, lookup-erase i id r.claims))
]

pub vacate_old-IsIndexed :
    (p : ℕ) (r : Registry) → IsIndexed r → IsIndexed (vacate_old (superseded p r) r)
vacate_old-IsIndexed p r h = elim (superseded-cases p r h) [
  | inl (no_old, idle) ↦ rw no_old h
  | inr (id, m, old, found, e, mine) ↦ rw old (vacate-IsIndexed id (key_of m) r h)
]

vacate_old-IsLocked :
    (p : ℕ) (r : Registry) → IsIndexed r → IsLocked r → IsLocked (vacate_old (superseded p r) r)
vacate_old-IsLocked p r h hl = elim (superseded-cases p r h) [
  | inl (no_old, idle) ↦ rw no_old hl
  | inr (id, m, old, found, e, mine) ↦
      rw old (vacate-IsLocked id (key_of m) r h hl (inr (ap cell e)))
]

pub reserve-IsIndexed :
    (id : ℕ) (m : ClaimMeta) (expires : ℕ) (r : Registry)
    → IsIndexed r
    → lookup id r.claims ≡ none
    → IsIndexed (reserve id m expires r)
unfolding reserve
reserve-IsIndexed id m expires r h fresh =
    enter-IsIndexed id m expires _ (vacate_old-IsIndexed m.player r h)
      (vacated-fresh m.player id r h fresh) (vacated-idle m.player r h)

pub reserve-IsLocked :
    (id : ℕ) (m : ClaimMeta) (expires : ℕ) (r : Registry)
    → IsIndexed r
    → IsLocked r
    → lookup id r.claims ≡ none
    → IsLocked (reserve id m expires r)
unfolding reserve
reserve-IsLocked id m expires r h hl fresh =
    enter-IsLocked id m expires _ (vacate_old-IsIndexed m.player r h)
      (vacate_old-IsLocked m.player r h hl) (vacated-fresh m.player id r h fresh)
      (vacated-idle m.player r h)
