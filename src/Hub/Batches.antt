-- ===== src/Hub/Batches.antt =====
-- What the batches of a subscriber carry (internal/hub/hub.go), for any order of broadcasts, receives and
-- ticks and for any failures of the writes.
use mathlib.Core.List.{append_assoc, append-nil}
use pixel_beetle.Prelude.{
  ℕ, ◌+◌, ◌%◌, ◌≡◌, refl, sym, ap, ◌∙◌, inl, inr, Bool, true, false, List, [], ◌∷◌, ◌++◌, ltb,
  if◌then◌else◌, Bool-cases, length,
}
use pixel_beetle.Hub.{
  chan_size, FanoutEvent, paint_ev, lock_ev, unlock_ev, metrics_ev, Patch, snapshot_patch,
  delta_patch, metrics_patch, Subscriber, offer, handle_event, flush_pending, flush_batch,
  is_empty_batch, receive_event, write_patch, flushed_metrics, HubStep, offered, received, ticked,
  hub_step, hub_steps,
}

module _ {M : Type 0} where
  -- The paints of events, with the paint byte.
  unfoldable pub paints_of : List (FanoutEvent M) → List (ℕ × ℕ × ℕ)
  paints_of [] = []
  paints_of (paint_ev x y color ∷ l) = (x, y, color % 16 + 1) ∷ paints_of l
  paints_of (lock_ev x y ∷ l) = paints_of l
  paints_of (unlock_ev x y ∷ l) = paints_of l
  paints_of (metrics_ev m ∷ l) = paints_of l

  paints_of-append : (l m : List (FanoutEvent M)) → paints_of (l ++ m) ≡ paints_of l ++ paints_of m
  unfolding paints_of
  paints_of-append [] m = refl
  paints_of-append (paint_ev x y color ∷ l) m =
      ap (◌∷◌ (x, y, color % 16 + 1)) (paints_of-append l m)
  paints_of-append (lock_ev x y ∷ l) m = paints_of-append l m
  paints_of-append (unlock_ev x y ∷ l) m = paints_of-append l m
  paints_of-append (metrics_ev n ∷ l) m = paints_of-append l m

module _ {B M : Type 0} where
  -- The events of the broadcasts that find room in the channel.
  abbrev accepted_of : HubStep M → Subscriber B M → List (FanoutEvent M)
  accepted_of (offered ev) s = if ltb (length s.channel) chan_size then ev ∷ [] else []
  accepted_of (received ok ok') s = []
  accepted_of (ticked ok) s = []

  unfoldable pub accepted : List (HubStep M) → Subscriber B M → List (FanoutEvent M)
  accepted [] s = []
  accepted (a ∷ l) s = accepted_of a s ++ accepted l (hub_step a s)

  -- The deltas of patches, in their order.
  unfoldable pub deltas_of : List (Patch B M) → List (ℕ × ℕ × ℕ)
  deltas_of [] = []
  deltas_of (snapshot_patch b locks ∷ l) = deltas_of l
  deltas_of (delta_patch b ∷ l) = b.deltas ++ deltas_of l
  deltas_of (metrics_patch m ∷ l) = deltas_of l

  -- The deltas that the client got, those that wait for the next flush and those in the channel.
  abbrev pub pipeline : Subscriber B M → List (ℕ × ℕ × ℕ)
  pipeline s = deltas_of s.patches ++ (s.batch.deltas ++ paints_of s.channel)

  deltas_of-snoc :
      (l : List (Patch B M)) (p : Patch B M) (t : List (ℕ × ℕ × ℕ))
      → deltas_of (l ++ p ∷ []) ++ t ≡ deltas_of l ++ (deltas_of (p ∷ []) ++ t)
  unfolding deltas_of
  deltas_of-snoc [] p t = refl
  deltas_of-snoc (snapshot_patch b locks ∷ l) p t = deltas_of-snoc l p t
  deltas_of-snoc (delta_patch b ∷ l) p t =
      append_assoc b.deltas (deltas_of (l ++ p ∷ [])) t
      ∙ (ap (λ r. b.deltas ++ r) (deltas_of-snoc l p t)
          ∙ sym (append_assoc b.deltas (deltas_of l) (deltas_of (p ∷ []) ++ t)))
  deltas_of-snoc (metrics_patch m ∷ l) p t = deltas_of-snoc l p t

  pipeline-flush_batch : (ok : Bool) (s : Subscriber B M) → pipeline (flush_batch ok s) ≡ pipeline s
  unfolding deltas_of
  pipeline-flush_batch false s = refl
  pipeline-flush_batch true s =
      deltas_of-snoc s.patches (delta_patch s.batch) (paints_of s.channel)
      ∙ ap (λ r. deltas_of s.patches ++ (r ++ paints_of s.channel)) (append-nil s.batch.deltas)

  pipeline-flush_pending :
      (ok : Bool) (s : Subscriber B M) → pipeline (flush_pending ok s) ≡ pipeline s
  unfolding flush_pending
  pipeline-flush_pending ok s = elim (Bool-cases (is_empty_batch s.batch)) [
    | inl e ↦ ap (λ b. pipeline (if b then s else flush_batch ok s)) e
    | inr e ↦ ap (λ b. pipeline (if b then s else flush_batch ok s)) e ∙ pipeline-flush_batch ok s
  ]

  pipeline-write_patch :
      (ok : Bool) (m : M) (s : Subscriber B M)
      → pipeline (write_patch ok (metrics_patch m) s) ≡ pipeline s
  unfolding deltas_of
  pipeline-write_patch false m s = refl
  pipeline-write_patch true m s =
      deltas_of-snoc s.patches (metrics_patch m) (s.batch.deltas ++ paints_of s.channel)

  pipeline-flushed_metrics :
      (ok : Bool) (m : M) (s : Subscriber B M) → pipeline (flushed_metrics ok m s) ≡ pipeline s
  pipeline-flushed_metrics ok m s = elim (Bool-cases s.gone) [
    | inl e ↦ ap (λ b. pipeline (if b then s else write_patch ok (metrics_patch m) s)) e
    | inr e ↦
        ap (λ b. pipeline (if b then s else write_patch ok (metrics_patch m) s)) e
        ∙ pipeline-write_patch ok m s
  ]

  pipeline-receive_event :
      (ok ok' : Bool) (l : List (FanoutEvent M)) (s : Subscriber B M)
      → s.channel ≡ l
      → pipeline (receive_event ok ok' l s) ≡ pipeline s
  unfolding handle_event paints_of
  pipeline-receive_event ok ok' [] s e = refl
  pipeline-receive_event ok ok' (paint_ev x y color ∷ rest) s e =
      ap (◌++◌ (deltas_of s.patches))
        (append_assoc s.batch.deltas ((x, y, color % 16 + 1) ∷ []) (paints_of rest))
      ∙ ap (λ c. deltas_of s.patches ++ (s.batch.deltas ++ paints_of c)) (sym e)
  pipeline-receive_event ok ok' (lock_ev x y ∷ rest) s e =
      ap (λ c. deltas_of s.patches ++ (s.batch.deltas ++ paints_of c)) (sym e)
  pipeline-receive_event ok ok' (unlock_ev x y ∷ rest) s e =
      ap (λ c. deltas_of s.patches ++ (s.batch.deltas ++ paints_of c)) (sym e)
  pipeline-receive_event ok ok' (metrics_ev m ∷ rest) s e =
      let s' : Subscriber B M = record s { channel = rest } in
      pipeline-flushed_metrics ok' m (flush_pending ok s')
      ∙ (pipeline-flush_pending ok s'
          ∙ ap (λ c. deltas_of s.patches ++ (s.batch.deltas ++ paints_of c)) (sym e))

  -- A step that a returned `run` does not make.
  pipeline_stays :
      (b : Bool) (s t : Subscriber B M)
      → pipeline t ≡ pipeline s
      → pipeline (if b then s else t) ≡ pipeline s ++ []
  pipeline_stays true s t h = sym (append-nil (pipeline s))
  pipeline_stays false s t h = h ∙ sym (append-nil (pipeline s))

  pipeline-push :
      (b : Bool) (ev : FanoutEvent M) (s : Subscriber B M)
      → pipeline (if b then record s { channel = s.channel ++ ev ∷ [] } else s)
        ≡ pipeline s ++ paints_of (if b then ev ∷ [] else [])
  unfolding paints_of
  pipeline-push false ev s = sym (append-nil (pipeline s))
  pipeline-push true ev s =
      ap (λ r. deltas_of s.patches ++ (s.batch.deltas ++ r)) (paints_of-append s.channel (ev ∷ []))
      ∙ (ap (◌++◌ (deltas_of s.patches))
            (sym (append_assoc s.batch.deltas (paints_of s.channel) (paints_of (ev ∷ []))))
          ∙ sym (
              append_assoc (deltas_of s.patches) (s.batch.deltas ++ paints_of s.channel)
                (paints_of (ev ∷ []))))

  pub pipeline-hub_step :
      (a : HubStep M) (s : Subscriber B M)
      → pipeline (hub_step a s) ≡ pipeline s ++ paints_of (accepted_of a s)
  unfolding hub_step offer paints_of
  pipeline-hub_step (offered ev) s = pipeline-push (ltb (length s.channel) chan_size) ev s
  pipeline-hub_step (received ok ok') s =
      pipeline_stays s.gone s (receive_event ok ok' s.channel s)
        (pipeline-receive_event ok ok' s.channel s refl)
  pipeline-hub_step (ticked ok) s =
      pipeline_stays s.gone s (flush_pending ok s) (pipeline-flush_pending ok s)

  -- A subscriber's paints come to the client in the order of their broadcast, each once and with its
  -- paint byte, for any order of broadcasts, receives and ticks: what the client got, what waits
  -- for a flush and what is in the channel are, in this order, what was there before and
  -- the paints of the broadcasts that found room in the channel.
  pub pipeline-hub_steps :
      (l : List (HubStep M)) (s : Subscriber B M)
      → pipeline (hub_steps l s) ≡ pipeline s ++ paints_of (accepted l s)
  unfolding hub_steps accepted paints_of
  pipeline-hub_steps [] s = sym (append-nil (pipeline s))
  pipeline-hub_steps (a ∷ l) s =
      pipeline-hub_steps l (hub_step a s)
      ∙ (ap (λ r. r ++ paints_of (accepted l (hub_step a s))) (pipeline-hub_step a s)
          ∙ (append_assoc (pipeline s) (paints_of (accepted_of a s))
                (paints_of (accepted l (hub_step a s)))
              ∙ ap (◌++◌ (pipeline s))
                  (sym (paints_of-append (accepted_of a s) (accepted l (hub_step a s))))))
