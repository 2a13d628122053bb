-- ===== src/Game/Service/Claims.antt =====
-- `Claim` of internal/game/game.go with no other request between its critical sections: what each branch
-- leaves in the tables.
use pixel_beetle.Prelude.{
  ℕ, ◌+◌, ◌*◌, ◌<◌, ◌≡◌, ◌⊎◌, ◌∙◌, refl, sym, subst, ap, inl, inr, ◌||◌, Option, none, some, lookup,
  arith, leb, Bool-cases, lookup-insert,
}
use pixel_beetle.TbClient.External.{TbLib, TbServer}
use pixel_beetle.TbClient.Transfers.{new_claim, claim_timeout_seconds}
use pixel_beetle.TbClient.Client.{TbError}
use pixel_beetle.Game.Registry.{
  Lock, ClaimMeta, Registry, pack, key_of, held_by_other, Superseded, superseded, reserve,
  vacate_old,
}
use pixel_beetle.Game.Registry.Wf.{IsIndexed, IsLocked}
use pixel_beetle.Game.Registry.Reserve.{reserve-IsIndexed, reserve-IsLocked}
use pixel_beetle.Game.Registry.Rollback.{
  Agrees, rollback-reserve, rollback-reserve-IsIndexed, rollback-reserve-IsLocked,
}
use pixel_beetle.Game.Service.{
  Service, World, ClaimResult, claimed, refused, is_created, funded, fund_created,
  ensure_system_pool, ensure_pixel, void_old, claim_answered, claim_free, claim,
}

abbrev pub claim_id : TbLib → ℕ → ClaimMeta → ℕ
claim_id tb uuid m = tb.bytes (new_claim tb uuid m.x m.y m.color m.player).id

abbrev pub expiry : ℕ → ℕ
expiry now = now + claim_timeout_seconds * 1_000_000_000

-- The tables that a `Claim` of `m` leaves, by its result: the claim is entered, indexed and locked
-- for the claim window under the id that is returned, or every entry is as it was.
pub record IsClaimed (id : ℕ) (m : ClaimMeta) (now : ℕ) (r : Registry) : Type 0 where
  pub entered : lookup id r.claims ≡ some m
  pub active : lookup m.player r.by_player ≡ some id
  pub locked : lookup (key_of m) r.locks ≡ some (record { player = m.player; expires = expiry now })

-- Both parts of the invariant of the tables.
abbrev pub IsWf : Registry → Type 0
IsWf r = IsIndexed r × IsLocked r

reserve-IsClaimed :
    (id : ℕ) (m : ClaimMeta) (now : ℕ) (r : Registry)
    → IsClaimed id m now (reserve id m (expiry now) r)
unfolding reserve
reserve-IsClaimed id m now r =
    let r' = vacate_old (superseded m.player r) r in
    let l : Lock = record { player = m.player; expires = expiry now } in
    record {
      entered = ground (arith, lookup-insert id id m r'.claims);
      active = ground (arith, lookup-insert m.player m.player id r'.by_player);
      locked = ground (arith, lookup-insert (key_of m) (key_of m) l r'.locks);
    }

pub Agrees-refl : (r : Registry) → Agrees r r
Agrees-refl r = record { same_locks = λ k. refl; same_claims = λ i. refl; same_players = λ p. refl }

module _ {S F : Type 0} where
  abbrev pub Claimed : ℕ → ClaimMeta → ℕ → Registry → World S F × ClaimResult → Type 0
  Claimed id m now r (w, claimed i) = (i ≡ id) × IsClaimed id m now w.svc.registry
  Claimed id m now r (w, refused e) = Agrees w.svc.registry r

  module _ (tb : TbLib) (server : TbServer S) where
    registry-funded :
        (key : ℕ) (a : Option TbError × S) (w : World S F)
        → (funded tb server key a w).svc.registry ≡ w.svc.registry
    registry-funded key (none, s) w = refl
    registry-funded key (some e, s) w = refl

    registry-fund_created :
        (x y : ℕ) (a : Option TbError × S) (w : World S F)
        → (fund_created tb server x y a w).svc.registry ≡ w.svc.registry
    registry-fund_created x y (none, s) w = registry-funded (pack x y) _ w
    registry-fund_created x y (some e, s) w = refl

    registry-ensure_pixel :
        (x y : ℕ) (w : World S F) → (ensure_pixel tb server x y w).svc.registry ≡ w.svc.registry
    unfolding ensure_pixel
    registry-ensure_pixel x y w = elim (Bool-cases (is_created (pack x y) w.svc)) [
      | inl done ↦ rw done refl
      | inr missing ↦ rw missing (registry-fund_created x y _ w)
    ]

    registry-ensure_system_pool :
        (w : World S F) → (ensure_system_pool tb server w).svc.registry ≡ w.svc.registry
    unfolding ensure_system_pool
    registry-ensure_system_pool w = ground arith

    pub registry-ensure :
        (x y : ℕ) (w : World S F)
        → (ensure_pixel tb server x y (ensure_system_pool tb server w)).svc.registry
          ≡ w.svc.registry
    registry-ensure x y w = registry-ensure_pixel x y _ ∙ registry-ensure_system_pool w

    svc-void_old :
        (uuid : ℕ) (old : Option Superseded) (w : World S F)
        → (void_old tb server uuid old w).svc ≡ w.svc
    unfolding void_old
    svc-void_old uuid none w = refl
    svc-void_old uuid (some o) w = ground arith

    answered-Claimed :
        (id : ℕ) (m : ClaimMeta) (now void_uuid : ℕ) (r : Registry)
        → IsWf r
        → lookup id r.claims ≡ none
        → ((l : Lock) → lookup (key_of m) r.locks ≡ some l → l.player ≡ m.player)
        → (a : Option TbError × S) (w : World S F) → w.svc.registry ≡ reserve id m (expiry now) r
        → Claimed id m now r (claim_answered tb server id m (superseded m.player r) void_uuid a w)
    unfolding claim_answered
    answered-Claimed id m now void_uuid r wf fresh free (some e, s) w eq =
        rw eq (rollback-reserve id m (expiry now) r wf.0 fresh wf.1 free)
    answered-Claimed id m now void_uuid r wf fresh free (none, s) w eq =
        let counted = record w.svc.metrics { claims = w.svc.metrics.claims + 1 } in
        let w' : World S F = record w { svc = record w.svc { metrics = counted }; store = s } in
        let same : (void_old tb server void_uuid (superseded m.player r) w').svc.registry
            ≡ reserve id m (expiry now) r =
          ap (λ (v : Service). v.registry) (svc-void_old void_uuid (superseded m.player r) w')
          ∙ eq in
        (refl, rw same (reserve-IsClaimed id m now r))

    answered-IsWf :
        (id : ℕ) (m : ClaimMeta) (now void_uuid : ℕ) (r : Registry)
        → IsWf r
        → lookup id r.claims ≡ none
        → (a : Option TbError × S) (w : World S F) → w.svc.registry ≡ reserve id m (expiry now) r
        → IsWf (claim_answered tb server id m (superseded m.player r) void_uuid a w).0.svc.registry
    unfolding claim_answered
    answered-IsWf id m now void_uuid r wf fresh (some e, s) w eq = rw eq (
      rollback-reserve-IsIndexed id m (expiry now) r wf.0 fresh,
      rollback-reserve-IsLocked id m (expiry now) r wf.0 fresh wf.1,
    )
    answered-IsWf id m now void_uuid r wf fresh (none, s) w eq =
        let counted = record w.svc.metrics { claims = w.svc.metrics.claims + 1 } in
        let w' : World S F = record w { svc = record w.svc { metrics = counted }; store = s } in
        let same : (void_old tb server void_uuid (superseded m.player r) w').svc.registry
            ≡ reserve id m (expiry now) r =
          ap (λ (v : Service). v.registry) (svc-void_old void_uuid (superseded m.player r) w')
          ∙ eq in
        rw same (
          reserve-IsIndexed id m (expiry now) r wf.0 fresh,
          reserve-IsLocked id m (expiry now) r wf.0 wf.1 fresh,
        )

    free-Claimed :
        (m : ClaimMeta) (now uuid void_uuid : ℕ) (w : World S F)
        → IsWf w.svc.registry
        → lookup (claim_id tb uuid m) w.svc.registry.claims ≡ none
        → ((l : Lock) → lookup (key_of m) w.svc.registry.locks ≡ some l → l.player ≡ m.player)
        → Claimed
            (claim_id tb uuid m)
            m
            now
            w.svc.registry
            (claim_free tb server m now uuid void_uuid w)
    unfolding claim_free
    free-Claimed m now uuid void_uuid w wf fresh free =
        answered-Claimed _ m now void_uuid w.svc.registry wf fresh free _ _ refl

    free-IsWf :
        (m : ClaimMeta) (now uuid void_uuid : ℕ) (w : World S F)
        → IsWf w.svc.registry
        → lookup (claim_id tb uuid m) w.svc.registry.claims ≡ none
        → IsWf (claim_free tb server m now uuid void_uuid w).0.svc.registry
    unfolding claim_free
    free-IsWf m now uuid void_uuid w wf fresh =
        answered-IsWf _ m now void_uuid w.svc.registry wf fresh _ _ refl

    module _ (player x y color now now' uuid void_uuid : ℕ) (w : World S F)
        (wf : IsWf w.svc.registry)
        (fresh : lookup
            (claim_id tb uuid (record { x = x; y = y; color = color; player = player }))
            w.svc.registry.claims
          ≡ none) where
      -- `Claim` with no other request between its critical sections keeps the invariant of the
      -- tables, whatever TigerBeetle answers: every claim is the one that its player's index entry
      -- names, every index entry names a claim of its player, and every lock stands at the cell of
      -- its holder's claim.
      pub claim-IsWf :
          IsWf (claim tb server player x y color now now' uuid void_uuid w).0.svc.registry
      unfolding claim
      claim-IsWf = elim (Bool-cases (leb w.svc.grid_w x || leb w.svc.grid_h y)) [
        | inl outside ↦ rw outside wf
        | inr inside ↦
            let w' = ensure_pixel tb server x y (ensure_system_pool tb server w) in
            let m : ClaimMeta = record { x = x; y = y; color = color; player = player } in
            let e : w.svc.registry ≡ w'.svc.registry = sym (registry-ensure x y w) in
            rw inside
              (elim (Bool-cases
                (held_by_other now player (lookup (pack x y) w'.svc.registry.locks))) [
                  | inl held ↦ rw held (subst IsWf e wf)
                  | inr open_cell ↦ rw open_cell (
                      free-IsWf m now' uuid void_uuid w' (subst IsWf e wf)
                        (subst (λ r. lookup (claim_id tb uuid m) r.claims ≡ none) e fresh))
                ])
      ]

      -- `Claim` with no other request between its critical sections, on tables that satisfy their
      -- invariant and at a cell where no other player's expired lock is left: if it returns an id,
      -- that is the id of the transfer that it built, and under it the claim is entered, indexed
      -- and locked for three seconds; if it returns an error, whichever it is, every entry of the
      -- locks, the claims and the index is as it was, the player's superseded claim included.
      pub claim-Claimed :
          ((l : Lock)
            → lookup (pack x y) w.svc.registry.locks ≡ some l
            → (l.player ≡ player) ⊎ (now < l.expires))
          → Claimed
              (claim_id tb uuid (record { x = x; y = y; color = color; player = player }))
              (record { x = x; y = y; color = color; player = player })
              now'
              w.svc.registry
              (claim tb server player x y color now now' uuid void_uuid w)
      unfolding claim
      claim-Claimed free = elim (Bool-cases (leb w.svc.grid_w x || leb w.svc.grid_h y)) [
        | inl outside ↦ rw outside (Agrees-refl w.svc.registry)
        | inr inside ↦
            let w' = ensure_pixel tb server x y (ensure_system_pool tb server w) in
            let m : ClaimMeta = record { x = x; y = y; color = color; player = player } in
            let e : w.svc.registry ≡ w'.svc.registry = sym (registry-ensure x y w) in
            rw inside
              (elim (Bool-cases
                (held_by_other now player (lookup (pack x y) w'.svc.registry.locks))) [
                  | inl held ↦
                      rw held (subst (Agrees w'.svc.registry) (sym e) (Agrees-refl w'.svc.registry))
                  | inr open_cell ↦ rw open_cell (
                      subst
                        (λ r.
                          Claimed (claim_id tb uuid m) m now' r
                            (claim_free tb server m now' uuid void_uuid w'))
                        (sym e)
                        (free-Claimed m now' uuid void_uuid w' (subst IsWf e wf)
                          (subst (λ r. lookup (claim_id tb uuid m) r.claims ≡ none) e fresh)
                          (λ l at.
                            let at' = subst (λ r. lookup (pack x y) r.locks ≡ some l) (sym e) at in
                            ground (arith, free l at'))))
                ])
      ]
