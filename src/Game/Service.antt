-- ===== src/Game/Service.antt =====
-- `Service` of internal/game/game.go: the claim service over the claim tables, the standing bitmap,
-- the checkpoint grid, TigerBeetle and the hub. A method is a function on the `World`, which holds
-- the service, the state `S` of TigerBeetle, the state `F` of the sidecar file and the hub's events
-- in the order of their broadcast. Readings of the clock and fresh UUIDs are arguments.
pub mod Claims
use pixel_beetle.Prelude.{
  ℕ, ◌+◌, ◌*◌, ◌/◌, ◌%◌, ◌^◌, Bool, true, false, not, ◌&&◌, ◌||◌, Option, none, some, List, [], ◌∷◌,
  ◌++◌, map, Table, lookup, insert, ltb, leb, ◌==◌, if◌then◌else◌, length, get_or, set, replicate,
  contains,
}
use pixel_beetle.TbClient.External.{TbLib, TbServer}
use pixel_beetle.TbClient.Ids.{pixel_id}
use pixel_beetle.TbClient.Transfers.{claim_timeout_seconds, new_claim, build_void, build_confirm}
use pixel_beetle.TbClient.Client.{
  TbError, pixel_locked, claim_expired, transport, rejected, submit_batch, submit, create_accounts,
  ensure_accounts, fund,
}
use pixel_beetle.Game.Anchors.{AnchorGrid, OnEvict, sync_to, empty_grid}
use pixel_beetle.Game.Registry.{
  Lock, ClaimMeta, Registry, pack, key_of, held_by_other, vacate, Superseded, superseded, reserve,
  rollback, resolve, reap,
}

-- The counters of internal/game/metrics.go that the methods raise.
pub record Counters : Type 0 where
  pub claims : ℕ
  pub confirms : ℕ
  pub cancels : ℕ
  pub expires : ℕ
  pub conflicts : ℕ
  pub errors : ℕ

pub data HubEvent : Type 0 where
  paint : ℕ → ℕ → ℕ → HubEvent
  lock : ℕ → ℕ → HubEvent
  unlock : ℕ → ℕ → HubEvent

pub record Service : Type 0 where
  pub grid_w : ℕ
  pub grid_h : ℕ
  pub bmp : List ℕ
  pub registry : Registry
  pub created : Table (Unit {0})
  pub all_created : Bool
  pub first_paint_ms : ℕ
  pub last_paint_ms : ℕ
  pub ag : AnchorGrid
  pub warm_ts : ℕ
  pub warmed : Bool
  pub sys_once : Bool
  pub metrics : Counters

pub record World (S F : Type 0) : Type 0 where
  pub svc : Service
  pub store : S
  pub sidecar : F
  pub sent : List HubEvent

-- `ErrOutOfBounds`, `ErrLockedByOther`, `ErrUnknownClaim`, or an error of the client.
pub data GameError : Type 0 where
  out_of_bounds locked_by_other unknown_claim : GameError
  client : TbError → GameError

pub data ClaimResult : Type 0 where
  claimed : ℕ → ClaimResult
  refused : GameError → ClaimResult

abbrev pub no_counts : Counters
no_counts = record { claims = 0; confirms = 0; cancels = 0; expires = 0; conflicts = 0; errors = 0 }

-- `New`.
unfoldable pub new_service : ℕ → ℕ → Service
new_service w h = record {
  grid_w = w;
  grid_h = h;
  bmp = replicate (w * h) 0;
  registry = record { locks = []; claims = []; by_player = [] };
  created = [];
  all_created = false;
  first_paint_ms = 0;
  last_paint_ms = 0;
  ag = empty_grid;
  warm_ts = 0;
  warmed = false;
  sys_once = false;
  metrics = no_counts;
}

-- The byte of a painted cell.
abbrev pub paint_byte : ℕ → ℕ
paint_byte color = color % 16 + 1

abbrev pub cell_index : ℕ → ℕ → ℕ → ℕ
cell_index grid_w x y = y * grid_w + x

-- `notePaint`.
unfoldable pub note_paint : ℕ → Service → Service
note_paint ms v = record v {
  first_paint_ms =
      if v.first_paint_ms == 0 || ltb ms v.first_paint_ms then ms else v.first_paint_ms;
  last_paint_ms = if ltb v.last_paint_ms ms then ms else v.last_paint_ms;
}

-- `paintedCount`.
unfoldable pub painted_count : List ℕ → ℕ
painted_count [] = 0
painted_count (v ∷ bmp) = (if ltb 0 v then 1 else 0) + painted_count bmp

abbrev pub send : {S F : Type 0} → List HubEvent → World S F → World S F
send events w = record w { sent = w.sent ++ events }

abbrev pub with_registry : Registry → Service → Service
with_registry r v = record v { registry = r }

-- How an error of the submit of a claim is counted and reported.
abbrev pub count_refusal : TbError → Counters → Counters
count_refusal pixel_locked m = record m { conflicts = m.conflicts + 1 }
count_refusal claim_expired m = record m { errors = m.errors + 1 }
count_refusal transport m = record m { errors = m.errors + 1 }
count_refusal rejected m = record m { errors = m.errors + 1 }

abbrev pub refusal : TbError → GameError
refusal pixel_locked = locked_by_other
refusal claim_expired = client claim_expired
refusal transport = client transport
refusal rejected = client rejected

-- Whether the old cell is broadcast as unlocked after the superseded claim's void.
abbrev pub unlocks : Option TbError → Bool
unlocks none = true
unlocks (some pixel_locked) = false
unlocks (some claim_expired) = true
unlocks (some transport) = false
unlocks (some rejected) = false

abbrev pub is_created : ℕ → Service → Bool
is_created key v = v.all_created || contains (map (λ e. e.0) v.created) key

module _ {S F : Type 0} (tb : TbLib) (server : TbServer S) where
  -- `ensureSystemPool`: an error is only logged.
  unfoldable pub ensure_system_pool : World S F → World S F
  ensure_system_pool w = if w.svc.sys_once then w else record w {
    svc = record w.svc { sys_once = true };
    store = (ensure_accounts tb server [] w.store).1;
  }

  abbrev pub funded : ℕ → Option TbError × S → World S F → World S F
  funded key (none, s) w = record w {
    svc = record w.svc { created = insert key tt w.svc.created };
    store = s;
  }
  funded key (some e, s) w = record w { store = s }

  abbrev pub fund_created : ℕ → ℕ → Option TbError × S → World S F → World S F
  fund_created x y (none, s) w = funded (pack x y) (fund tb server x y s) w
  fund_created x y (some e, s) w = record w { store = s }

  -- `ensurePixel`: an error is only logged, and the pixel is tried again by its next claim.
  unfoldable pub ensure_pixel : ℕ → ℕ → World S F → World S F
  ensure_pixel x y w =
      if is_created (pack x y) w.svc
      then w
      else fund_created x y (ensure_accounts tb server (pixel_id tb x y ∷ []) w.store) w

  -- The void of the superseded claim, and its unlock.
  unfoldable pub void_old : ℕ → Option Superseded → World S F → World S F
  void_old uuid none w = w
  void_old uuid (some o) w =
      let (err, s) = submit tb server (build_void tb uuid (tb.bytes_to_uint128 o.id)) w.store in
      let w' = record w { store = s } in
      if unlocks err then send (HubEvent.unlock o.meta.x o.meta.y ∷ []) w' else w'

  -- `Claim` after the answer to its submit.
  unfoldable pub claim_answered :
      ℕ
      → ClaimMeta
      → Option Superseded
      → ℕ
      → Option TbError × S
      → World S F
      → World S F × ClaimResult
  unfolding void_old
  claim_answered id m old void_uuid (some e, s) w = (
    record w {
      svc = record w.svc {
        registry = rollback id m old w.svc.registry;
        metrics = count_refusal e w.svc.metrics;
      };
      store = s;
    },
    refused (refusal e),
  )
  claim_answered id m old void_uuid (none, s) w =
      let counted = record w.svc.metrics { claims = w.svc.metrics.claims + 1 } in
      let w' = record w { svc = record w.svc { metrics = counted }; store = s } in
      (send (HubEvent.lock m.x m.y ∷ []) (void_old void_uuid old w'), claimed id)

  -- `Claim` from its first critical section on, past the test of the lock.
  unfoldable pub claim_free : ClaimMeta → ℕ → ℕ → ℕ → World S F → World S F × ClaimResult
  unfolding claim_answered
  claim_free m now uuid void_uuid w =
      let r = w.svc.registry in
      let t = new_claim tb uuid m.x m.y m.color m.player in
      let id = tb.bytes t.id in
      let expires = now + claim_timeout_seconds * 1_000_000_000 in
      let w' = record w { svc = with_registry (reserve id m expires r) w.svc } in
      claim_answered id m (superseded m.player r) void_uuid (submit tb server t w'.store) w'

  -- `Claim`; `now` is the clock at the test of the lock, `now'` at the lock's expiry.
  unfoldable pub claim : ℕ → ℕ → ℕ → ℕ → ℕ → ℕ → ℕ → ℕ → World S F → World S F × ClaimResult
  unfolding claim_free ensure_pixel ensure_system_pool
  claim player x y color now now' uuid void_uuid w =
      if leb w.svc.grid_w x || leb w.svc.grid_h y
      then (w, refused out_of_bounds)
      else let w' = ensure_pixel x y (ensure_system_pool w) in
        if held_by_other now player (lookup (pack x y) w'.svc.registry.locks)
        then (w', refused locked_by_other)
        else claim_free (record { x = x; y = y; color = color; player = player }) now' uuid
            void_uuid w'
