-- ===== src/Game/Resolution/Painting.antt =====
-- What `Confirm`, `Cancel`, `ApplyEvent` and `ReapExpired` (internal/game/game.go) do to the bitmap, the
-- claims and the broadcasts, on every branch.
use pixel_beetle.Prelude.{
  ℕ, ◌<◌, ◌≡◌, ◌≢◌, ◌∙◌, refl, ap, inl, inr, Bool, true, false, not, ◌&&◌, ◌||◌, Option, none, some,
  List, [], ◌∷◌, ◌++◌, lookup, arith, leb, ◌==◌, if◌then◌else◌, length, get_or, set, Bool-cases,
  Option-cases, get_or-set_self, get_or-set_ne,
}
use pixel_beetle.TbClient.External.{TbLib, TbServer}
use pixel_beetle.TbClient.Client.{TbError}
use pixel_beetle.Game.Anchors.{AnchorGrid, OnEvict, sync_to}
use pixel_beetle.Game.Anchors.Boundary.{sync_to_again}
use pixel_beetle.Game.Registry.{ClaimMeta, Registry, owned_claim, key_of, resolve}
use pixel_beetle.Game.Interleaving.Safety.{claims-vacate}
use pixel_beetle.Game.Service.{World, HubEvent, unknown_claim, paint_byte, cell_index, note_paint}
use pixel_beetle.Game.Resolution.{
  Event, Outcome, sync_grid, new_event, apply_event, confirm_answered, confirm_resolved, confirm,
  cancel_resolved, cancel,
}

pub get_or-set :
    (xs : List ℕ) (i j v d : ℕ)
    → i < length xs
    → get_or (set xs i v) j d ≡ (if i == j then v else get_or xs j d)
get_or-set xs i j v d h = elim (Bool-cases (i == j)) [
  | inl same ↦ rw same (ground (arith, get_or-set_self xs i v d h))
  | inr other ↦ rw other (get_or-set_ne xs i j v d (ground arith))
]

unresolved :
    (player id : ℕ) (r : Registry)
    → ((m : ClaimMeta) → lookup id r.claims ≡ some m → m.player ≢ player)
    → resolve player id r ≡ none
unfolding resolve
unresolved player id r foreign = elim (Option-cases (lookup id r.claims)) [
  | inl missing ↦ rw missing refl
  | inr (m, e) ↦ rw (e, owned_claim) (ground (arith, foreign m e))
]

module _ {S F : Type 0} where
  -- The world after a `Confirm` of the claim `m` that returned nil, cell by cell.
  pub record IsPainted (id : ℕ) (m : ClaimMeta) (w w' : World S F) : Type 0 where
    pub cells :
        (j : ℕ)
        → get_or w'.svc.bmp j 0 ≡ (
            if cell_index w.svc.grid_w m.x m.y == j
            then paint_byte m.color
            else get_or w.svc.bmp j 0)
    pub resolved :
        (i : ℕ)
        → lookup i w'.svc.registry.claims
          ≡ (if id == i then none else lookup i w.svc.registry.claims)
    pub broadcast :
        w'.sent ≡ w.sent ++ HubEvent.unlock m.x m.y ∷ HubEvent.paint m.x m.y m.color ∷ []

  -- A call that failed: no cell, table entry, checkpoint or broadcast has changed.
  pub record IsUntouched (w w' : World S F) : Type 0 where
    pub same_bmp : w'.svc.bmp ≡ w.svc.bmp
    pub same_registry : w'.svc.registry ≡ w.svc.registry
    pub same_grid : w'.svc.ag ≡ w.svc.ag
    pub same_sent : w'.sent ≡ w.sent

  abbrev pub Confirmed : ℕ → ClaimMeta → World S F → Outcome S F → Type 0
  Confirmed id m w (w', none) = IsPainted id m w w'
  Confirmed id m w (w', some e) = IsUntouched w w'

  module _ (tb : TbLib) (server : TbServer S) (on_evict : OnEvict F) where
    confirm_answered-Confirmed :
        (id : ℕ) (m : ClaimMeta) (now : ℕ) (e : Option TbError) (s : S) (w : World S F)
        → cell_index w.svc.grid_w m.x m.y < length w.svc.bmp
        → Confirmed id m w (confirm_answered tb server on_evict id m now (e, s) w)
    unfolding confirm_answered note_paint
    confirm_answered-Confirmed id m now (some e) s w h = record {
      same_bmp = refl;
      same_registry = refl;
      same_grid = refl;
      same_sent = refl;
    }
    confirm_answered-Confirmed id m now none s w h = record {
      cells = λ j. get_or-set w.svc.bmp _ j _ 0 h;
      resolved = λ i. claims-vacate id (key_of m) i w.svc.registry;
      broadcast = refl;
    }

    -- When a player confirms a claim that is theirs and whose cell lies in the bitmap: on nil the
    -- bitmap has changed in exactly the cell of the claim, which holds the byte of its color, the
    -- claim and no other is gone, and its unlock and then its paint are broadcast; on an error
    -- the bitmap, the tables, the checkpoints and the broadcasts are as before.
    pub confirm-Confirmed :
        (player id now uuid uuid' : ℕ) (m : ClaimMeta) (w : World S F)
        → resolve player id w.svc.registry ≡ some m
        → cell_index w.svc.grid_w m.x m.y < length w.svc.bmp
        → Confirmed id m w (confirm tb server on_evict player id now uuid uuid' w)
    unfolding confirm
    confirm-Confirmed player id now uuid uuid' m w found h =
        rw (found, confirm_resolved) (confirm_answered-Confirmed id m now _ _ w h)

    -- Nobody confirms or cancels a claim that is not theirs: where the claim is unknown or its
    -- player is another, both calls return `ErrUnknownClaim` and leave the whole world as it was,
    -- TigerBeetle included.
    pub resolution_needs_owner :
        (player id now uuid uuid' : ℕ) (w : World S F)
        → ((m : ClaimMeta) → lookup id w.svc.registry.claims ≡ some m → m.player ≢ player)
        → (confirm tb server on_evict player id now uuid uuid' w ≡ (w, some unknown_claim))
          × (cancel tb server on_evict player id uuid w ≡ (w, some unknown_claim))
    unfolding confirm cancel
    resolution_needs_owner player id now uuid uuid' w foreign =
        let e : resolve player id w.svc.registry ≡ none =
          unresolved player id w.svc.registry foreign in
        (rw (e, confirm_resolved), rw (e, cancel_resolved))

  module _ (on_evict : OnEvict F) where
    -- The event is one that `ApplyEvent` lets through to the checkpoint grid.
    abbrev passes : Event → World S F → Bool
    passes ev w =
        ev.posted
        && not (leb w.svc.grid_w ev.x || leb w.svc.grid_h ev.y)
        && not (leb ev.timestamp w.svc.warm_ts)

    apply_event_blocked :
        (ev : Event) (w : World S F) → passes ev w ≡ false → apply_event on_evict ev w ≡ w
    unfolding apply_event
    apply_event_blocked ev w h = elim (Bool-cases ev.posted) [
      | inr other ↦ rw other refl
      | inl posted ↦ elim (Bool-cases (leb w.svc.grid_w ev.x || leb w.svc.grid_h ev.y)) [
        | inl outside ↦ rw (posted, outside) refl
        | inr inside ↦
            let seen : leb ev.timestamp w.svc.warm_ts ≡ true = ground arith in
            rw (posted, inside, seen) refl
      ]
    ]

    apply_event_passed :
        (ev : Event) (w : World S F)
        → passes ev w ≡ true
        → apply_event on_evict ev w ≡ new_event on_evict ev w
    unfolding apply_event
    apply_event_passed ev w h =
        let posted : ev.posted ≡ true = ground arith in
        let inside : (leb w.svc.grid_w ev.x || leb w.svc.grid_h ev.y) ≡ false = ground arith in
        let unseen : leb ev.timestamp w.svc.warm_ts ≡ false = ground arith in
        rw (posted, inside, unseen) refl

    sync_grid_again :
        (ts : ℕ) (w : World S F)
        → sync_grid on_evict ts (sync_grid on_evict ts w) ≡ sync_grid on_evict ts w
    sync_grid_again ts w =
        ap (λ (p : AnchorGrid × F). record w { svc = record w.svc { ag = p.0 }; sidecar = p.1 })
          (sync_to_again on_evict ts w.svc.bmp w.svc.bmp w.svc.ag w.sidecar
            (sync_to on_evict ts w.svc.bmp w.svc.ag w.sidecar).1)

    -- Applying a delivery of an event a second time changes nothing, whatever the world and the
    -- event: no paint, no checkpoint and no broadcast comes of a redelivery.
    pub apply_event-apply_event :
        (ev : Event) (w : World S F)
        → apply_event on_evict ev (apply_event on_evict ev w) ≡ apply_event on_evict ev w
    unfolding note_paint
    apply_event-apply_event ev w = elim (Bool-cases (passes ev w)) [
      | inr blocked ↦ ap (apply_event on_evict ev) (apply_event_blocked ev w blocked)
      | inl passed ↦
          rw (apply_event_passed ev w passed)
            (elim (Bool-cases
              (get_or w.svc.bmp (cell_index w.svc.grid_w ev.x ev.y) 0 == paint_byte ev.color)) [
                | inl same ↦
                    let again = apply_event_passed ev (sync_grid on_evict ev.timestamp w) passed in
                    rw same (again ∙ rw same (sync_grid_again ev.timestamp w))
                | inr changed ↦ rw changed (apply_event_blocked ev _ (ground arith))
              ])
    ]
