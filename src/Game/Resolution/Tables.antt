-- ===== src/Game/Resolution/Tables.antt =====
-- `Confirm`, `Cancel` and `ReapExpired` (internal/game/game.go) and the invariant of the claim tables.
use pixel_beetle.Prelude.{
  ℕ, ◌≡◌, inl, inr, ap, Option, none, some, List, lookup, arith, Option-cases,
}
use pixel_beetle.TbClient.External.{TbLib, TbServer}
use pixel_beetle.TbClient.Client.{TbError}
use pixel_beetle.Game.Anchors.{OnEvict}
use pixel_beetle.Game.Registry.{ClaimMeta, Registry, key_of, vacate, resolve}
use pixel_beetle.Game.Registry.Wf.{cell, vacate-IsIndexed, vacate-IsLocked}
use pixel_beetle.Game.Registry.ReapLoop.{reap-IsIndexed, reap-IsLocked}
use pixel_beetle.Game.Service.{World, note_paint}
use pixel_beetle.Game.Service.Claims.{IsWf}
use pixel_beetle.Game.Resolution.{
  confirm_answered, confirm_resolved, confirm, cancel_answered, cancel_resolved, cancel,
  reap_expired,
}

-- A claim that `resolve` finds is in the table.
cell-resolve :
    (player id : ℕ) (m : ClaimMeta) (r : Registry)
    → resolve player id r ≡ some m
    → lookup id r.claims ≡ some m
unfolding resolve
cell-resolve player id m r e = ground (arith, Option-cases (lookup id r.claims))

vacate-IsWf :
    (id : ℕ) (m : ClaimMeta) (r : Registry)
    → IsWf r
    → lookup id r.claims ≡ some m
    → IsWf (vacate id (key_of m) r)
vacate-IsWf id m r wf e = (
  vacate-IsIndexed id (key_of m) r wf.0,
  vacate-IsLocked id (key_of m) r wf.0 wf.1 (inr (ap cell e)),
)

module _ {S F : Type 0} (tb : TbLib) (server : TbServer S) (on_evict : OnEvict F) where
  confirm_answered-IsWf :
      (id : ℕ) (m : ClaimMeta) (now : ℕ) (a : Option TbError × S) (w : World S F)
      → IsWf w.svc.registry
      → lookup id w.svc.registry.claims ≡ some m
      → IsWf (confirm_answered tb server on_evict id m now a w).0.svc.registry
  unfolding confirm_answered note_paint
  confirm_answered-IsWf id m now (some e, s) w wf found = wf
  confirm_answered-IsWf id m now (none, s) w wf found = vacate-IsWf id m w.svc.registry wf found

  cancel_answered-IsWf :
      (id : ℕ) (m : ClaimMeta) (a : Option TbError × S) (w : World S F)
      → IsWf w.svc.registry
      → lookup id w.svc.registry.claims ≡ some m
      → IsWf (cancel_answered tb server on_evict id m a w).0.svc.registry
  unfolding cancel_answered
  cancel_answered-IsWf id m (some e, s) w wf found = wf
  cancel_answered-IsWf id m (none, s) w wf found = vacate-IsWf id m w.svc.registry wf found

  module _ (player id : ℕ) (w : World S F) (wf : IsWf w.svc.registry) where
    confirm-IsWf :
        (now uuid uuid' : ℕ)
        → IsWf (confirm tb server on_evict player id now uuid uuid' w).0.svc.registry
    unfolding confirm
    confirm-IsWf now uuid uuid' = elim (Option-cases (resolve player id w.svc.registry)) [
      | inl unknown ↦ rw (unknown, confirm_resolved) wf
      | inr (m, e) ↦
          rw (e, confirm_resolved)
            (confirm_answered-IsWf id m now _ w wf (cell-resolve player id m w.svc.registry e))
    ]

    cancel-IsWf : (uuid : ℕ) → IsWf (cancel tb server on_evict player id uuid w).0.svc.registry
    unfolding cancel
    cancel-IsWf uuid = elim (Option-cases (resolve player id w.svc.registry)) [
      | inl unknown ↦ rw (unknown, cancel_resolved) wf
      | inr (m, e) ↦
          rw (e, cancel_resolved)
            (cancel_answered-IsWf id m _ w wf (cell-resolve player id m w.svc.registry e))
    ]

    -- `Confirm`, `Cancel` and `ReapExpired`, each with no other request inside it, keep the
    -- invariant of the tables, whatever TigerBeetle answers and whichever keys are reaped.
    pub resolution-IsWf :
        (now uuid uuid' : ℕ) (ks : List ℕ)
        → IsWf (confirm tb server on_evict player id now uuid uuid' w).0.svc.registry
          × IsWf (cancel tb server on_evict player id uuid w).0.svc.registry
          × IsWf (reap_expired now ks w).svc.registry
    unfolding reap_expired
    resolution-IsWf now uuid uuid' ks = (
      confirm-IsWf now uuid uuid',
      cancel-IsWf uuid,
      (reap-IsIndexed now ks w.svc.registry wf.0, reap-IsLocked now ks w.svc.registry wf.0 wf.1),
    )
