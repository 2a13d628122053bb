-- ===== src/Game/Registry/Rollback.antt =====
-- The critical section of `Claim` (internal/game/game.go) after a failed submit.
use pixel_beetle.Prelude.{
  ℕ, ◌≡◌, sym, ap, ◌∙◌, inl, inr, Option, none, some, arith, lookup, erase, insert, ◌==◌,
  if◌then◌else◌, Option-cases, lookup-insert, lookup-erase,
}
use pixel_beetle.Game.Registry.{
  Lock, ClaimMeta, Registry, key_of, vacate, superseded, Superseded, reserve, rollback,
  vacate_found, is_owner,
}
use pixel_beetle.Game.Registry.Wf.{IsIndexed, IsLocked, owner, active_cell}
use pixel_beetle.Game.Registry.Reserve.{superseded-cases}

-- What the tables must hold when a failed claim is rolled back: `id` can only be the failed
-- claim, the player has no other, and the superseded claim was that player's and is gone.
abbrev pub CanRestore : ℕ → ClaimMeta → Option Superseded → Registry → Type 0
CanRestore id m none r = Unit
CanRestore id m (some o) r = (o.meta.player ≡ m.player) × (lookup o.id r.claims ≡ none)

module _ (id : ℕ) (m : ClaimMeta) (r : Registry) (h : IsIndexed r)
    (only : (i : ℕ) (n : ClaimMeta) → lookup i r.claims ≡ some n → n.player ≡ m.player → i ≡ id)
    (own : (n : ClaimMeta) → lookup id r.claims ≡ some n → n.player ≡ m.player) where
  pub rollback-IsIndexed :
      (old : Option Superseded) → CanRestore id m old r → IsIndexed (rollback id m old r)
  unfolding rollback
  rollback-IsIndexed none c = record {
    indexed = λ i n f. ground (
      arith,
      h.indexed i n,
      only i n,
      lookup-erase id i r.claims,
      lookup-erase m.player n.player r.by_player,
    );
    backed = λ p i f. elim (Option-cases (lookup i r.claims)) [
      | inl missing ↦ ground (arith, h.backed p i, lookup-erase m.player p r.by_player)
      | inr (n, e) ↦ ground (
        arith,
        h.backed p i,
        own n,
        lookup-erase id i r.claims,
        lookup-erase m.player p r.by_player,
      )
    ];
  }
  rollback-IsIndexed (some o) c = record {
    indexed = λ i n f. ground (
      arith,
      h.indexed i n,
      only i n,
      lookup-insert o.id i o.meta (erase id r.claims),
      lookup-erase id i r.claims,
      lookup-insert m.player n.player o.id r.by_player,
    );
    backed = λ p i f. elim (Option-cases (lookup i r.claims)) [
      | inl missing ↦ ground (
        arith,
        h.backed p i,
        lookup-insert o.id i o.meta (erase id r.claims),
        lookup-insert m.player p o.id r.by_player,
      )
      | inr (n, e) ↦ ground (
        arith,
        h.backed p i,
        own n,
        lookup-insert o.id i o.meta (erase id r.claims),
        lookup-erase id i r.claims,
        lookup-insert m.player p o.id r.by_player,
      )
    ];
  }

-- The same entries in every table.
pub record Agrees (r s : Registry) : Type 0 where
  pub same_locks : (k : ℕ) → lookup k r.locks ≡ lookup k s.locks
  pub same_claims : (i : ℕ) → lookup i r.claims ≡ lookup i s.claims
  pub same_players : (p : ℕ) → lookup p r.by_player ≡ lookup p s.by_player

-- The tables after a claim that failed, where the lock of the cell was not another player's.
module _ (id : ℕ) (m : ClaimMeta) (expires : ℕ) (r : Registry) (h : IsIndexed r)
    (fresh : lookup id r.claims ≡ none) where
  abbrev after : Registry
  after = rollback id m (superseded m.player r) (reserve id m expires r)

  claims-rollback-reserve : (i : ℕ) → lookup i after.claims ≡ lookup i r.claims
  unfolding rollback reserve vacate
  claims-rollback-reserve i = elim (superseded-cases m.player r h) [
    | inl (no_old, idle) ↦
        rw (no_old, rollback, reserve) (simp (lookup-insert, lookup-erase) (ground arith))
    | inr (oid, om, old, found, e, mine) ↦
        rw (old, rollback, reserve)
          (rw (e, vacate) (simp (lookup-insert, lookup-erase) (ground arith)))
  ]

  by_player-rollback-reserve : (p : ℕ) → lookup p after.by_player ≡ lookup p r.by_player
  unfolding rollback reserve vacate
  by_player-rollback-reserve p = elim (superseded-cases m.player r h) [
    | inl (no_old, idle) ↦
        rw (no_old, rollback, reserve) (simp (lookup-insert, lookup-erase) (ground arith))
    | inr (oid, om, old, found, e, mine) ↦
        rw (old, rollback, reserve)
          (rw (e, vacate)
            (ground (
              arith,
              lookup-insert m.player p oid
                  (insert m.player id (vacate_found oid (key_of om) om r).by_player),
              lookup-insert m.player p id (vacate_found oid (key_of om) om r).by_player,
              lookup-erase om.player p r.by_player,
            )))
  ]

  locks-rollback-reserve :
      IsLocked r
      → ((l : Lock) → lookup (key_of m) r.locks ≡ some l → l.player ≡ m.player)
      → (k : ℕ) → lookup k after.locks ≡ lookup k r.locks
  unfolding rollback reserve vacate
  locks-rollback-reserve hl mine_or_free k = elim (superseded-cases m.player r h) [
    | inl (no_old, idle) ↦
        rw (no_old, rollback, reserve)
          (elim (Option-cases (lookup k r.locks)) [
            | inl free ↦ simp (lookup-insert, lookup-erase) (ground arith)
            | inr (l, e) ↦
                simp (lookup-insert, lookup-erase) (ground (arith, hl k l e, mine_or_free l))
          ])
    | inr (oid, om, old, found, e, mine) ↦ elim (Option-cases (lookup (key_of om) r.locks)) [
      | inl free ↦
          let old' = rw free at old in
          rw (old', rollback, reserve)
            (rw (e, vacate)
              (rw (free, is_owner)
                (elim (Option-cases (lookup k r.locks)) [
                  | inl free_k ↦ simp (lookup-insert, lookup-erase) (ground arith)
                  | inr (l, el) ↦
                      simp (lookup-insert, lookup-erase) (ground (arith, hl k l el, mine_or_free l))
                ])))
      | inr (o, eo) ↦
          let old' = rw eo at old in
          rw (old', rollback, reserve)
            (rw (e, vacate)
              (rw (eo, is_owner)
                (elim (Option-cases (lookup k r.locks)) [
                  | inl free_k ↦
                      simp (lookup-insert, lookup-erase)
                        (ground (arith, lookup-erase (key_of om) k r.locks))
                  | inr (l, el) ↦
                      simp (lookup-insert, lookup-erase)
                        (ground
                          (arith, hl k l el, mine_or_free l, lookup-erase (key_of om) k r.locks))
                ])))
    ]
  ]

  abbrev own_lock : Lock
  own_lock = record { player = m.player; expires = expires }

  -- Whatever lock stood at the cell, no lock appears.
  locks-rollback-reserve_sub :
      (k : ℕ) (l : Lock) → lookup k after.locks ≡ some l → lookup k r.locks ≡ some l
  unfolding rollback reserve vacate
  locks-rollback-reserve_sub k l = elim (superseded-cases m.player r h) [
    | inl (no_old, idle) ↦
        rw (no_old, rollback, reserve)
          (λ f. ground (
            arith,
            lookup-erase (key_of m) k (insert (key_of m) own_lock r.locks),
            lookup-insert (key_of m) k own_lock r.locks,
          ))
    | inr (oid, om, old, found, e, mine) ↦ elim (Option-cases (lookup (key_of om) r.locks)) [
      | inl free ↦
          let old' = rw free at old in
          rw (old', rollback, reserve)
            (rw (e, vacate)
              (rw (free, is_owner)
                (λ f. ground (
                  arith,
                  lookup-erase (key_of m) k (insert (key_of m) own_lock r.locks),
                  lookup-insert (key_of m) k own_lock r.locks,
                ))))
      | inr (o, eo) ↦
          let old' = rw eo at old in
          let rest = (if o.player == om.player then erase (key_of om) r.locks else r.locks) in
          rw (old', rollback, reserve)
            (rw (e, vacate)
              (rw (eo, is_owner)
                (λ f. ground (
                  arith,
                  lookup-insert (key_of om) k o
                      (erase (key_of m) (insert (key_of m) own_lock rest)),
                  lookup-erase (key_of m) k (insert (key_of m) own_lock rest),
                  lookup-insert (key_of m) k own_lock rest,
                  lookup-erase (key_of om) k r.locks,
                ))))
    ]
  ]

  pub rollback-reserve-IsLocked :
      IsLocked r → IsLocked (rollback id m (superseded m.player r) (reserve id m expires r))
  rollback-reserve-IsLocked hl k l f =
      let a = hl k l (locks-rollback-reserve_sub k l f) in
      rw (by_player-rollback-reserve l.player) (elim (Option-cases (lookup l.player r.by_player)) [
        | inl idle ↦ absurd (ground arith)
        | inr (i, found) ↦
            rw (found, active_cell) (rw (claims-rollback-reserve i) (rw (found, active_cell) at a))
      ])

  pub rollback-reserve-IsIndexed :
      IsIndexed (rollback id m (superseded m.player r) (reserve id m expires r))
  rollback-reserve-IsIndexed = record {
    indexed = λ i n f.
        by_player-rollback-reserve n.player ∙ h.indexed i n (sym (claims-rollback-reserve i) ∙ f);
    backed = λ p i f.
        ap owner (claims-rollback-reserve i)
        ∙ h.backed p i (sym (by_player-rollback-reserve p) ∙ f);
  }

  -- On tables that satisfy the invariant, where no other player's lock stands at the cell, a claim
  -- that reserves the cell under a fresh id and is then rolled back leaves every entry of the
  -- three tables as it was, the superseded claim and its lock included.
  pub rollback-reserve :
      IsLocked r
      → ((l : Lock) → lookup (key_of m) r.locks ≡ some l → l.player ≡ m.player)
      → Agrees (rollback id m (superseded m.player r) (reserve id m expires r)) r
  rollback-reserve hl mine_or_free = record {
    same_locks = locks-rollback-reserve hl mine_or_free;
    same_claims = claims-rollback-reserve;
    same_players = by_player-rollback-reserve;
  }
