-- ===== src/Hub/Tests.antt =====
-- A subscriber of internal/hub/hub.go with a paint, a lock and its unlock in one flush.
use pixel_beetle.Prelude.{ℕ, ◌≡◌, refl, true, List, [], ◌∷◌, ◌++◌}
use pixel_beetle.Hub.{
  paint_ev, lock_ev, unlock_ev, Subscriber, snapshot_patch, delta_patch, connect, HubStep, offered,
  received, ticked, hub_steps,
}
use pixel_beetle.Hub.Batches.{paints_of, deltas_of, accepted, pipeline}
use pixel_beetle.Hub.Delivery.{drained, deltas_of-drained}

abbrev one_flush : List (HubStep ℕ)
one_flush =
    offered (unlock_ev 1 1)
    ∷ offered (lock_ev 1 1)
    ∷ offered (paint_ev 2 0 4)
    ∷ received true true
    ∷ received true true
    ∷ received true true
    ∷ ticked true
    ∷ []

abbrev viewer : Subscriber ℕ ℕ
viewer = connect true 0 []

-- A paint that waits in the channel.
abbrev one_paint : List (HubStep ℕ)
one_paint = offered (paint_ev 2 0 4) ∷ []

deltas_of-drained_example :
    deltas_of (drained (hub_steps one_paint viewer).channel (hub_steps one_paint viewer)).patches
    ≡ pipeline viewer ++ paints_of (accepted one_paint viewer)
unfolding hub_steps connect
deltas_of-drained_example = deltas_of-drained one_paint viewer refl

-- The flush has the cell in both arrays, in whatever order the two events came.
lock_order_is_lost :
    (hub_steps one_flush viewer).patches
    ≡ snapshot_patch 0 []
      ∷ delta_patch
          (record { deltas = (2, 0, 5) ∷ []; lock_adds = (1, 1) ∷ []; lock_removes = (1, 1) ∷ [] })
      ∷ []
unfolding hub_steps connect
lock_order_is_lost = refl
