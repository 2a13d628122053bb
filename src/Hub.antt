-- ===== src/Hub.antt =====
-- internal/hub/hub.go: the broadcast to bounded channels, and the goroutine of a subscriber that batches
-- the events of its channel. Whether a write to the client succeeds is a parameter of each step.
-- `B` is an encoded bitmap, `M` a snapshot of the metrics.
pub mod Batches
pub mod Delivery
mod Tests
use pixel_beetle.Prelude.{
  ℕ, zero, suc, ◌+◌, ◌%◌, Bool, true, false, ◌&&◌, List, [], ◌∷◌, ◌++◌, map, ltb, ◌==◌,
  if◌then◌else◌, length,
}

abbrev pub chan_size : ℕ
chan_size = 512

pub data FanoutEvent (M : Type 0) : Type 0 where
  paint_ev : ℕ → ℕ → ℕ → FanoutEvent M
  lock_ev : ℕ → ℕ → FanoutEvent M
  unlock_ev : ℕ → ℕ → FanoutEvent M
  metrics_ev : M → FanoutEvent M

-- The three arrays of a flush.
pub record Batch : Type 0 where
  pub deltas : List (ℕ × ℕ × ℕ)
  pub lock_adds : List (ℕ × ℕ)
  pub lock_removes : List (ℕ × ℕ)

abbrev pub empty_batch : Batch
empty_batch = record { deltas = []; lock_adds = []; lock_removes = [] }

pub data Patch (B M : Type 0) : Type 0 where
  snapshot_patch : B → List (ℕ × ℕ) → Patch B M
  delta_patch : Batch → Patch B M
  metrics_patch : M → Patch B M

-- The channel, the local variables of `run`, the patches that the client got, and whether `run`
-- has returned.
pub record Subscriber (B M : Type 0) : Type 0 where
  pub channel : List (FanoutEvent M)
  pub batch : Batch
  pub patches : List (Patch B M)
  pub gone : Bool

abbrev pub is_empty_batch : Batch → Bool
is_empty_batch b = length b.deltas + length b.lock_adds + length b.lock_removes == 0

module _ {B M : Type 0} where
  -- `ServeSSE` and the begin of `run`.
  unfoldable pub connect : Bool → B → List (ℕ × ℕ) → Subscriber B M
  connect ok bmp locks = record {
    channel = [];
    batch = empty_batch;
    patches = if ok then snapshot_patch bmp locks ∷ [] else [];
    gone = if ok then false else true;
  }

  -- The non-blocking send of `broadcast` to one subscriber: dropped where the channel is full.
  unfoldable pub offer : FanoutEvent M → Subscriber B M → Subscriber B M
  offer ev s =
      if ltb (length s.channel) chan_size then record s { channel = s.channel ++ ev ∷ [] } else s

  unfoldable pub broadcast : FanoutEvent M → List (Subscriber B M) → List (Subscriber B M)
  unfolding offer
  broadcast ev subs = map (offer ev) subs

  abbrev pub write_patch : Bool → Patch B M → Subscriber B M → Subscriber B M
  write_patch true p s = record s { patches = s.patches ++ p ∷ [] }
  write_patch false p s = record s { gone = true }

  abbrev pub flush_batch : Bool → Subscriber B M → Subscriber B M
  flush_batch true s = record s {
    batch = empty_batch;
    patches = s.patches ++ delta_patch s.batch ∷ [];
  }
  flush_batch false s = record s { gone = true }

  -- `flush`
  unfoldable pub flush_pending : Bool → Subscriber B M → Subscriber B M
  flush_pending ok s = if is_empty_batch s.batch then s else flush_batch ok s

  abbrev pub flushed_metrics : Bool → M → Subscriber B M → Subscriber B M
  flushed_metrics ok m s = if s.gone then s else write_patch ok (metrics_patch m) s

  -- The `switch` over an event that was received; `ok` and `ok'` are for the flush and the metrics.
  unfoldable pub handle_event : Bool → Bool → FanoutEvent M → Subscriber B M → Subscriber B M
  unfolding flush_pending
  handle_event ok ok' (paint_ev x y color) s = record s {
    batch = record s.batch { deltas = s.batch.deltas ++ (x, y, color % 16 + 1) ∷ [] };
  }
  handle_event ok ok' (lock_ev x y) s = record s {
    batch = record s.batch { lock_adds = s.batch.lock_adds ++ (x, y) ∷ [] };
  }
  handle_event ok ok' (unlock_ev x y) s = record s {
    batch = record s.batch { lock_removes = s.batch.lock_removes ++ (x, y) ∷ [] };
  }
  handle_event ok ok' (metrics_ev m) s = flushed_metrics ok' m (flush_pending ok s)

  abbrev pub receive_event : Bool → Bool → List (FanoutEvent M) → Subscriber B M → Subscriber B M
  receive_event ok ok' [] s = s
  receive_event ok ok' (ev ∷ rest) s = handle_event ok ok' ev (record s { channel = rest })

-- What happens to a subscriber: an event is broadcast, `run` receives one, or its ticker fires.
pub data HubStep (M : Type 0) : Type 0 where
  offered : FanoutEvent M → HubStep M
  received : Bool → Bool → HubStep M
  ticked : Bool → HubStep M

module _ {B M : Type 0} where
  unfoldable pub hub_step : HubStep M → Subscriber B M → Subscriber B M
  unfolding offer handle_event flush_pending
  hub_step (offered ev) s = offer ev s
  hub_step (received ok ok') s = if s.gone then s else receive_event ok ok' s.channel s
  hub_step (ticked ok) s = if s.gone then s else flush_pending ok s

  unfoldable pub hub_steps : List (HubStep M) → Subscriber B M → Subscriber B M
  unfolding hub_step
  hub_steps [] s = s
  hub_steps (a ∷ l) s = hub_steps l (hub_step a s)
