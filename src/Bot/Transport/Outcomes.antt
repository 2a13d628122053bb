-- ===== src/Bot/Transport/Outcomes.antt =====
-- The outcomes of an attempt of the bot at a placement, from the answers of the server.
use pixel_beetle.Prelude.{
  ℕ, ◌≡◌, ◌≢◌, ap, ◌∙◌, ◌⊎◌, inl, inr, false, Option, none, some, List, arith, ◌==◌, if◌then◌else◌,
  Bool-cases, lookup, get_or,
}
use pixel_beetle.TbClient.External.{TbLib, TbServer}
use pixel_beetle.TbClient.Client.{pixel_locked, claim_expired, transport, rejected}
use pixel_beetle.Game.Anchors.{OnEvict}
use pixel_beetle.Game.Registry.{ClaimMeta, Registry}
use pixel_beetle.Game.Registry.Rollback.{Agrees}
use pixel_beetle.Game.Service.{
  World, out_of_bounds, locked_by_other, unknown_claim, client, ClaimResult, claimed, refused,
  paint_byte, cell_index,
}
use pixel_beetle.Game.Service.Claims.{Claimed}
use pixel_beetle.Game.Resolution.{Outcome}
use pixel_beetle.Game.Resolution.Painting.{Confirmed}
use pixel_beetle.Web.{Response, hex_encode, resolved_response, claimed_answer}
use pixel_beetle.Web.Handlers.{refused_status}
use pixel_beetle.Bot.Paint.{ClaimOutcome, confirmed, locked, failed}
use pixel_beetle.Bot.Transport.{BotError, try_placement, outcome_of, submit_reply, resolve_reply}
use pixel_beetle.Bot.Transport.Canvas.{canvas}
use pixel_beetle.Bot.Transport.Served.{WebLib, Session, reply_of}

module _ {S F : Type 0} where
  -- What an attempt at the cell (x, y) leaves, by its outcome, on a canvas `c` and tables `r`: the
  -- cell is painted and no other, and the claim is gone; the cell is held by another player and
  -- nothing has changed; or the call failed and the canvas is as it was.
  abbrev pub IsAttempted :
      ℕ → ℕ → ℕ → ℕ → List ℕ × ℕ → Registry → ClaimOutcome × Session S F → Type 0
  IsAttempted id x y color c r (confirmed, s) =
      ((j : ℕ)
        → get_or s.world.svc.bmp j 0
          ≡ (if cell_index c.1 x y == j then paint_byte color else get_or c.0 j 0))
      × (lookup id s.world.svc.registry.claims ≡ none)
  IsAttempted id x y color c r (locked, s) = (s.world.svc.bmp ≡ c.0) × Agrees s.world.svc.registry r
  IsAttempted id x y color c r (failed, s) = s.world.svc.bmp ≡ c.0

  -- The answer to a claim of `m`.
  abbrev pub IsClaimAnswer : ℕ → ClaimMeta → List ℕ × ℕ → Registry → World S F × Response → Type 0
  IsClaimAnswer id m c r (w, a) =
      (canvas w.svc ≡ c)
      × (((a ≡ record { status = 200; claim_id = some (hex_encode id) })
            × (lookup id w.svc.registry.claims ≡ some m))
          ⊎ ((a.status ≢ 200) × Agrees w.svc.registry r))

  pub claimed_answer-IsClaimAnswer :
      (tb : TbLib) (server : TbServer S) (on_evict : OnEvict F) (id : ℕ) (m : ClaimMeta)
      → (now : ℕ) (c : List ℕ × ℕ) (r : Registry) (q : World S F × ClaimResult) → canvas q.0.svc ≡ c
      → Claimed id m now r q
      → IsClaimAnswer id m c r (claimed_answer tb server on_evict q)
  claimed_answer-IsClaimAnswer tb server on_evict id m now c r (w, claimed i) same (e, k) =
      (same, inl (ap (λ j. record { status = 200; claim_id = some (hex_encode j) }) e, k.entered))
  claimed_answer-IsClaimAnswer tb server on_evict id m now c r (w, refused e) same k =
      (same, inr (refused_status e, k))

  module _ (lib : WebLib) (secret : List ℕ) (read_claim_id : List ℕ → Option (List ℕ))
      (resolve_claim : List ℕ → Session S F → Option BotError × Session S F) where
    pub refused-IsAttempted :
        (id x y color : ℕ) (c : List ℕ × ℕ) (r : Registry) (a : Response) (s : Session S F)
        → canvas s.world.svc ≡ c
        → a.status ≢ 200
        → Agrees s.world.svc.registry r
        → IsAttempted id x y color c r (
            try_placement resolve_claim
              (submit_reply read_claim_id (some (reply_of lib secret a)), s))
    unfolding try_placement
    refused-IsAttempted id x y color c r a s same ne agrees = elim (Bool-cases (a.status == 409)) [
      | inl t ↦ rw t (ap (λ v. v.0) same, agrees)
      | inr t ↦
          let other : (a.status == 200) ≡ false = ground (arith, ne) in
          rw (t, other) (ap (λ v. v.0) same)
    ]

  pub outcome_of-IsAttempted :
      (lib : WebLib) (secret : List ℕ) (id : ℕ) (m : ClaimMeta) (w : World S F) (r : Registry)
      → (jar : Option (List ℕ)) (o : Outcome S F) → Confirmed id m w o
      → IsAttempted id m.x m.y m.color (canvas w.svc) r (
          outcome_of (
            resolve_reply (some (reply_of lib secret (resolved_response o.1))),
            record { jar = jar; world = o.0 },
          ))
  outcome_of-IsAttempted lib secret id m w r jar (w', none) k =
      (k.cells, k.resolved id ∙ ground arith)
  outcome_of-IsAttempted lib secret id m w r jar (w', some out_of_bounds) k = k.same_bmp
  outcome_of-IsAttempted lib secret id m w r jar (w', some locked_by_other) k = k.same_bmp
  outcome_of-IsAttempted lib secret id m w r jar (w', some unknown_claim) k = k.same_bmp
  outcome_of-IsAttempted lib secret id m w r jar (w', some (client pixel_locked)) k = k.same_bmp
  outcome_of-IsAttempted lib secret id m w r jar (w', some (client claim_expired)) k = k.same_bmp
  outcome_of-IsAttempted lib secret id m w r jar (w', some (client transport)) k = k.same_bmp
  outcome_of-IsAttempted lib secret id m w r jar (w', some (client rejected)) k = k.same_bmp
