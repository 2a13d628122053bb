-- ===== src/Game/Resolution.antt =====
-- The methods of `Service` (internal/game/game.go) that end a claim or paint a cell: `Confirm`,
-- `Cancel`, `ReapExpired` and `ApplyEvent`.
pub mod Painting
pub mod Tables
use pixel_beetle.Prelude.{
  ℕ, ◌+◌, ◌*◌, ◌/◌, ◌%◌, ◌^◌, Bool, true, false, not, ◌&&◌, ◌||◌, Option, none, some, List, [], ◌∷◌,
  ◌++◌, map, ltb, leb, ◌==◌, if◌then◌else◌, length, get_or, set,
}
use pixel_beetle.TbClient.External.{TbLib, TbServer}
use pixel_beetle.TbClient.Transfers.{build_void, build_confirm}
use pixel_beetle.TbClient.Client.{
  TbError, pixel_locked, claim_expired, transport, rejected, submit_batch, submit,
}
use pixel_beetle.Game.Anchors.{OnEvict, sync_to}
use pixel_beetle.Game.Registry.{ClaimMeta, key_of, vacate, resolve, reap}
use pixel_beetle.Game.Service.{
  Service, World, HubEvent, GameError, unknown_claim, client, Counters, paint_byte, cell_index,
  note_paint, send, with_registry,
}

-- `replay.Event`, of internal/replay/replay.go; `posted` is that its type is `two_phase_posted`.
pub record Event : Type 0 where
  pub posted : Bool
  pub timestamp : ℕ
  pub x : ℕ
  pub y : ℕ
  pub color : ℕ
  pub player : ℕ
  pub transfer_id : ℕ

-- `none` is the nil error.
abbrev pub Outcome : Type 0 → Type 0 → Type 0
Outcome S F = World S F × Option GameError

abbrev pub count_confirm_error : TbError → Counters → Counters
count_confirm_error pixel_locked m = record m { errors = m.errors + 1 }
count_confirm_error claim_expired m = record m { expires = m.expires + 1 }
count_confirm_error transport m = record m { errors = m.errors + 1 }
count_confirm_error rejected m = record m { errors = m.errors + 1 }

-- A write of a paint byte into the standing bitmap.
abbrev pub paint_cell : ℕ → ℕ → ℕ → Service → Service
paint_cell x y color v = record v { bmp = set v.bmp (cell_index v.grid_w x y) (paint_byte color) }

-- The watermark never goes back.
abbrev pub advance : ℕ → Service → Service
advance ts v = record v { warm_ts = if ltb v.warm_ts ts then ts else v.warm_ts }

abbrev pub key_x : ℕ → ℕ
key_x k = k / 2 ^ 32 % 2 ^ 32

abbrev pub key_y : ℕ → ℕ
key_y k = k % 2 ^ 32

module _ {S F : Type 0} (on_evict : OnEvict F) where
  -- The checkpoint grid advances on the bitmap before the paint.
  abbrev pub sync_grid : ℕ → World S F → World S F
  sync_grid ts w =
      let (ag, f) = sync_to on_evict ts w.svc.bmp w.svc.ag w.sidecar in
      record w { svc = record w.svc { ag = ag }; sidecar = f }

  -- The critical section of `Confirm` at the time `now`.
  unfoldable pub paint_claim : ℕ → ClaimMeta → ℕ → World S F → World S F
  paint_claim id m now w =
      let w' = sync_grid now w in
      let v = advance now (note_paint (now / 1_000_000) (paint_cell m.x m.y m.color w'.svc)) in
      record w' { svc = with_registry (vacate id (key_of m) v.registry) v }

  abbrev pub changed_event : Event → World S F → World S F
  changed_event ev w = send (HubEvent.paint ev.x ev.y ev.color ∷ []) (record w {
    svc =
        note_paint (ev.timestamp / 1_000_000)
          (advance ev.timestamp (paint_cell ev.x ev.y ev.color w.svc));
  })

  abbrev pub new_event : Event → World S F → World S F
  new_event ev w =
      let w' = sync_grid ev.timestamp w in
      if get_or w'.svc.bmp (cell_index w'.svc.grid_w ev.x ev.y) 0 == paint_byte ev.color
      then w'
      else changed_event ev w'

  unfoldable pub apply_event : Event → World S F → World S F
  apply_event ev w =
      if not ev.posted
      then w
      else if leb w.svc.grid_w ev.x || leb w.svc.grid_h ev.y
      then w
      else if leb ev.timestamp w.svc.warm_ts
      then w
      else new_event ev w

module _ {S F : Type 0} (tb : TbLib) (server : TbServer S) (on_evict : OnEvict F) where
  unfoldable pub confirm_answered : ℕ → ClaimMeta → ℕ → Option TbError × S → World S F → Outcome S F
  unfolding paint_claim
  confirm_answered id m now (some e, s) w = (
    record w { svc = record w.svc { metrics = count_confirm_error e w.svc.metrics }; store = s },
    some (client e),
  )
  confirm_answered id m now (none, s) w =
      let counted = record w.svc.metrics { confirms = w.svc.metrics.confirms + 1 } in
      let w' = record w { svc = record w.svc { metrics = counted }; store = s } in
      (
        send (HubEvent.unlock m.x m.y ∷ HubEvent.paint m.x m.y m.color ∷ [])
            (paint_claim on_evict id m now w'),
        none,
      )

  abbrev pub confirm_resolved : ℕ → ℕ → ℕ → ℕ → Option ClaimMeta → World S F → Outcome S F
  confirm_resolved id now uuid uuid' none w = (w, some unknown_claim)
  confirm_resolved id now uuid uuid' (some m) w =
      confirm_answered id m now
        (submit_batch tb server (build_confirm tb uuid uuid' (tb.bytes_to_uint128 id) m.x m.y)
          w.store)
        w

  -- `Confirm`; `now` is the clock after the answer.
  unfoldable pub confirm : ℕ → ℕ → ℕ → ℕ → ℕ → World S F → Outcome S F
  unfolding confirm_answered
  confirm player id now uuid uuid' w =
      confirm_resolved id now uuid uuid' (resolve player id w.svc.registry) w

  unfoldable pub cancel_answered : ℕ → ClaimMeta → Option TbError × S → World S F → Outcome S F
  cancel_answered id m (some e, s) w = (record w { store = s }, some (client e))
  cancel_answered id m (none, s) w =
      let counted = record w.svc.metrics { cancels = w.svc.metrics.cancels + 1 } in
      let v = record w.svc { metrics = counted } in
      let w' = record w { svc = with_registry (vacate id (key_of m) v.registry) v; store = s } in
      (send (HubEvent.unlock m.x m.y ∷ []) w', none)

  abbrev pub cancel_resolved : ℕ → ℕ → Option ClaimMeta → World S F → Outcome S F
  cancel_resolved id uuid none w = (w, some unknown_claim)
  cancel_resolved id uuid (some m) w =
      cancel_answered id m (submit tb server (build_void tb uuid (tb.bytes_to_uint128 id)) w.store)
        w

  -- `Cancel`.
  unfoldable pub cancel : ℕ → ℕ → ℕ → World S F → Outcome S F
  unfolding cancel_answered
  cancel player id uuid w = cancel_resolved id uuid (resolve player id w.svc.registry) w

-- `ReapExpired`; `ks` is the order in which the lock table is visited.
unfoldable pub reap_expired : {S F : Type 0} → ℕ → List ℕ → World S F → World S F
reap_expired now ks w =
    let (r, unlocked) = reap now ks w.svc.registry in
    let counted = record w.svc.metrics { expires = w.svc.metrics.expires + length unlocked } in
    send (map (λ k. HubEvent.unlock (key_x k) (key_y k)) unlocked)
      (record w { svc = record w.svc { registry = r; metrics = counted } })
