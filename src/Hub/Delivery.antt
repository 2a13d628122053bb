-- ===== src/Hub/Delivery.antt =====
-- What reaches the client of a subscriber (internal/hub/hub.go).
use mathlib.Core.List.{append-nil}
use pixel_beetle.Prelude.{
  ◌≡◌, refl, sym, ap, ◌∙◌, inl, inr, true, false, List, [], ◌∷◌, ◌++◌, arith, Bool-cases, length,
}
use pixel_beetle.Hub.{
  FanoutEvent, paint_ev, lock_ev, unlock_ev, metrics_ev, Batch, Subscriber, handle_event,
  flush_pending, is_empty_batch, HubStep, received, ticked, hub_step, hub_steps,
}
use pixel_beetle.Hub.Batches.{
  paints_of, deltas_of, pipeline, accepted, pipeline-hub_step, pipeline-hub_steps,
}

length-nil {ℓ} : {X : Type ℓ} (l : List X) → length l ≡ 0 → l ≡ []
length-nil [] h = refl
length-nil (x ∷ l) h = absurd (omega (arith, h))

nothing_pending : (b : Batch) → is_empty_batch b ≡ true → b.deltas ≡ []
nothing_pending b e = length-nil b.deltas (ground (arith, e))

module _ {B M : Type 0} where
  flush_pending-live :
      (s : Subscriber B M)
      → s.gone ≡ false
      → ((flush_pending true s).gone ≡ false)
        × ((flush_pending true s).channel ≡ s.channel)
        × ((flush_pending true s).batch.deltas ≡ [])
  unfolding flush_pending
  flush_pending-live s live = elim (Bool-cases (is_empty_batch s.batch)) [
    | inl e ↦ rw e (live, refl, nothing_pending s.batch e)
    | inr e ↦ rw e (live, refl, refl)
  ]

  -- An event that is handled with no failing write: `run` goes on.
  handle_event-live :
      (ev : FanoutEvent M) (s : Subscriber B M)
      → s.gone ≡ false
      → ((handle_event true true ev s).gone ≡ false)
        × ((handle_event true true ev s).channel ≡ s.channel)
  unfolding handle_event
  handle_event-live (paint_ev x y color) s live = (live, refl)
  handle_event-live (lock_ev x y) s live = (live, refl)
  handle_event-live (unlock_ev x y) s live = (live, refl)
  handle_event-live (metrics_ev m) s live =
      let (gone, same, _) = flush_pending-live s live in rw gone (refl, same)

  -- The channel read to its end, every write succeeding, and then a tick.
  unfoldable pub drained : List (FanoutEvent M) → Subscriber B M → Subscriber B M
  drained [] s = hub_step (ticked true) s
  drained (ev ∷ l) s = drained l (hub_step (received true true) s)

  hub_step-received :
      (ev : FanoutEvent M) (l : List (FanoutEvent M)) (s : Subscriber B M)
      → s.gone ≡ false
      → s.channel ≡ ev ∷ l
      → hub_step (received true true) s ≡ handle_event true true ev (record s { channel = l })
  unfolding hub_step
  hub_step-received ev l s live e = rw (live, e) refl

  -- A tick leaves no delta to wait.
  ticked-delivers :
      (s : Subscriber B M)
      → s.gone ≡ false
      → ((hub_step (ticked true) s).channel ≡ s.channel)
        × ((hub_step (ticked true) s).batch.deltas ≡ [])
  unfolding hub_step
  ticked-delivers s live =
      let (_, same, none) = flush_pending-live s live in
      let step : hub_step (ticked true) s ≡ flush_pending true s = rw live refl in
      (ap (λ t. t.channel) step ∙ same, ap (λ t. t.batch.deltas) step ∙ none)

  drained-delivers :
      (l : List (FanoutEvent M)) (s : Subscriber B M)
      → s.gone ≡ false
      → s.channel ≡ l
      → deltas_of (drained l s).patches ≡ pipeline s
  unfolding drained paints_of
  drained-delivers [] s live e =
      let t = hub_step (ticked true) s in
      let (same, none) = ticked-delivers s live in
      let got = deltas_of t.patches in
      sym (append-nil got)
      ∙ ap (λ r. got ++ (r ++ [])) (sym none)
      ∙ ap (λ c. got ++ (t.batch.deltas ++ paints_of c)) (sym (same ∙ e))
      ∙ pipeline-hub_step (ticked true) s
      ∙ append-nil (pipeline s)
  drained-delivers (ev ∷ l) s live e =
      let step = hub_step-received ev l s live e in
      let (gone, same) = handle_event-live ev (record s { channel = l }) live in
      drained-delivers l (hub_step (received true true) s) (ap (λ t. t.gone) step ∙ gone)
        (ap (λ t. t.channel) step ∙ same)
      ∙ pipeline-hub_step (received true true) s
      ∙ append-nil (pipeline s)

  -- A subscriber's client gets every paint that found room in the channel, in the order of the broadcasts,
  -- each once and with its paint byte: for any order of broadcasts, receives and ticks with any
  -- failures before, where `run` has not returned, once it has read the channel to its end and its
  -- ticker has fired, with no further failure, the deltas of the client are those it had, those
  -- that waited, and then those of the paints that found room.
  pub deltas_of-drained :
      (steps : List (HubStep M)) (s : Subscriber B M)
      → (hub_steps steps s).gone ≡ false
      → deltas_of (drained (hub_steps steps s).channel (hub_steps steps s)).patches
        ≡ pipeline s ++ paints_of (accepted steps s)
  deltas_of-drained steps s live =
      drained-delivers (hub_steps steps s).channel (hub_steps steps s) live refl
      ∙ pipeline-hub_steps steps s
