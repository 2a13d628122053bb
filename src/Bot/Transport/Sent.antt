-- ===== src/Bot/Transport/Sent.antt =====
-- An attempt of the bot at a placement over a network that can lose a request or its reply.
use pixel_beetle.Prelude.{
  ℕ, ◌<◌, ◌^◌, ◌≡◌, refl, sym, ap, subst, ◌⊎◌, inl, inr, true, Option, none, some, List, lookup,
  length,
}
use pixel_beetle.TbClient.External.{TbLib, TbServer}
use pixel_beetle.Game.Anchors.{OnEvict}
use pixel_beetle.Game.Registry.{Lock, ClaimMeta, Registry, pack}
use pixel_beetle.Game.Service.{World, cell_index}
use pixel_beetle.Game.Service.Claims.{IsWf, claim_id}
use pixel_beetle.Web.{Response, hex_encode, handle_claim}
use pixel_beetle.Bot.Transport.{
  try_placement, outcome_of, submit_reply, submit_claim_api, resolve_claim_api,
}
use pixel_beetle.Bot.Transport.Canvas.{canvas}
use pixel_beetle.Bot.Transport.Served.{
  WebLib, Readings, Session, Delivery, delivered, reply_lost, request_lost, carried, player_of,
  kept, reply_of, serve, sent_attempt,
}
use pixel_beetle.Bot.Transport.Attempts.{
  handle_claim-IsClaimAnswer, player_of-kept, confirming-IsAttempted,
}
use pixel_beetle.Bot.Paint.{ClaimOutcome, confirmed, locked, failed}
use pixel_beetle.Bot.Transport.Outcomes.{IsAttempted, IsClaimAnswer, refused-IsAttempted}

module _ {S F : Type 0} where
  -- What an attempt leaves by the outcome that the bot counts: what the outcome says, or, where the
  -- reply to the confirmation was lost, a failure with the cell painted and no other.
  abbrev pub IsReported :
      Delivery → ℕ → ℕ → ℕ → ℕ → List ℕ × ℕ → Registry → ClaimOutcome × Session S F → Type 0
  IsReported d id x y color c r (o, s) =
      IsAttempted id x y color c r (o, s)
      ⊎ ((d ≡ reply_lost) × (o ≡ failed) × IsAttempted id x y color c r (confirmed, s))

  -- A call whose reply is lost counts as a failure, whatever the server has made of it.
  unreported :
      (id x y color : ℕ) (c : List ℕ × ℕ) (r : Registry) (jar : Option (List ℕ))
      → (q : ClaimOutcome × Session S F) → IsAttempted id x y color c r q
      → IsReported reply_lost id x y color c r (failed, record { jar = jar; world = q.1.world })
  unreported id x y color c r jar (confirmed, s) h = inr (refl, refl, h)
  unreported id x y color c r jar (locked, s) h = inl h.0
  unreported id x y color c r jar (failed, s) h = inl h

module _ {S F : Type 0} (tb : TbLib) (server : TbServer S) (on_evict : OnEvict F) (lib : WebLib)
    (secret : List ℕ) where
  -- The confirmation of a claim that the server has answered, whatever becomes of the request.
  confirming-IsReported :
      (d : Delivery) (at' : Readings) (id : ℕ) (m : ClaimMeta) (r : Registry) (s : Session S F)
      → (player_of lib secret at' s.jar).0 ≡ m.player
      → id < 256 ^ 16
      → lookup id s.world.svc.registry.claims ≡ some m
      → cell_index s.world.svc.grid_w m.x m.y < length s.world.svc.bmp
      → IsReported d id m.x m.y m.color (canvas s.world.svc) r (
          outcome_of (
            resolve_claim_api
              (carried d (serve lib secret tb server on_evict at'))
              true
              (hex_encode id)
              s))
  unfolding resolve_claim_api
  confirming-IsReported delivered at' id m r s own below entered inside =
      inl
        (confirming-IsAttempted tb server on_evict lib secret at' id m r s own below entered inside)
  confirming-IsReported reply_lost at' id m r s own below entered inside =
      unreported id m.x m.y m.color (canvas s.world.svc) r s.jar
        (outcome_of
          (resolve_claim_api (serve lib secret tb server on_evict at') true (hex_encode id) s))
        (confirming-IsAttempted tb server on_evict lib secret at' id m r s own below entered inside)
  confirming-IsReported request_lost at' id m r s own below entered inside = inl refl

  module _ (read_claim_id : List ℕ → Option (List ℕ)) (d' : Delivery) (at' : Readings) where
    -- The answer to a claim, and what follows it.
    answered-IsReported :
        (id : ℕ) (m : ClaimMeta) (c : List ℕ × ℕ) (r : Registry) (jar : Option (List ℕ))
        → (w : World S F) (a : Response) → IsClaimAnswer id m c r (w, a)
        → ((s : List ℕ) → read_claim_id (lib.write_claim_id s) ≡ some s)
        → (player_of lib secret at' jar).0 ≡ m.player
        → id < 256 ^ 16
        → cell_index c.1 m.x m.y < length c.0
        → IsReported d' id m.x m.y m.color c r (
            try_placement
              (resolve_claim_api (carried d' (serve lib secret tb server on_evict at')) true)
              (
                submit_reply read_claim_id (some (reply_of lib secret a)),
                record { jar = jar; world = w },
              ))
    unfolding try_placement
    answered-IsReported id m c r jar w a (same, inr (ne, agrees)) reads own below inside = inl (
        refused-IsAttempted lib secret read_claim_id
          (resolve_claim_api (carried d' (serve lib secret tb server on_evict at')) true) id m.x m.y
          m.color c r a (record { jar = jar; world = w }) same ne agrees)
    answered-IsReported id m c r jar w a (same, inl (e, entered)) reads own below inside =
        subst
          (λ b. IsReported d' id m.x m.y m.color c r (
            try_placement
              (resolve_claim_api (carried d' (serve lib secret tb server on_evict at')) true)
              (
                submit_reply read_claim_id (some (reply_of lib secret b)),
                record { jar = jar; world = w },
              )))
          (sym e)
          (rw (reads (hex_encode id)) (
            subst
              (λ v. IsReported d' id m.x m.y m.color v r (
                outcome_of (
                  resolve_claim_api (carried d' (serve lib secret tb server on_evict at')) true
                    (hex_encode id) (record { jar = jar; world = w }))))
              same
              (confirming-IsReported d' at' id m r (record { jar = jar; world = w }) own below
                entered
                (subst (λ (v : List ℕ × ℕ). cell_index v.1 m.x m.y < length v.0) (sym same)
                  inside))))

    -- A claim without a reply, whether the server has acted on it or not.
    unanswered-IsReported :
        (id : ℕ) (m : ClaimMeta) (c : List ℕ × ℕ) (r : Registry) (s : Session S F)
        → canvas s.world.svc ≡ c
        → IsReported d' id m.x m.y m.color c r (
            try_placement
              (resolve_claim_api (carried d' (serve lib secret tb server on_evict at')) true)
              (submit_reply read_claim_id none, s))
    unfolding try_placement
    unanswered-IsReported id m c r s same = inl (ap (λ v. v.0) same)

  module _ (read_claim_id : List ℕ → Option (List ℕ)) (at at' : Readings) where
    -- An attempt of a painter over HTTP, where either of its two requests, or the reply to it, can be
    -- lost. No other request runs between the two. The JSON of a claim id reads back, the printed fresh
    -- UUID parses, the tables satisfy their invariant, the id of the new claim is fresh and has 16
    -- bytes, the cell lies in the bitmap and no other player's expired lock is left on it. Where the
    -- bot counts it as confirmed, the canvas has changed in exactly that cell, to the byte of the
    -- color, and the claim is gone; as locked, canvas and tables are as before; as failed, the canvas
    -- is as before, unless the reply to the confirmation was lost: then the cell may be painted all the
    -- same, and nothing else has changed on the canvas.
    pub sent_attempt-IsReported :
        (d d' : Delivery)
        → (x y color : ℕ) (s : Session S F)
        → ((t : List ℕ) → read_claim_id (lib.write_claim_id t) ≡ some t)
        → lib.parse_uuid (lib.print_uuid at.fresh_player) ≡ some at.fresh_player
        → IsWf s.world.svc.registry
        → lookup
            (claim_id tb at.uuid
              (record { x = x; y = y; color = color; player = (player_of lib secret at s.jar).0 }))
            s.world.svc.registry.claims
          ≡ none
        → claim_id tb at.uuid
            (record { x = x; y = y; color = color; player = (player_of lib secret at s.jar).0 })
          < 256 ^ 16
        → cell_index s.world.svc.grid_w x y < length s.world.svc.bmp
        → ((l : Lock)
            → lookup (pack x y) s.world.svc.registry.locks ≡ some l
            → (l.player ≡ (player_of lib secret at s.jar).0) ⊎ (at.now < l.expires))
        → IsReported d'
            (claim_id tb at.uuid
              (record { x = x; y = y; color = color; player = (player_of lib secret at s.jar).0 }))
            x
            y
            color
            (canvas s.world.svc)
            s.world.svc.registry
            (sent_attempt lib secret tb server on_evict read_claim_id d d' at at' x y color s)
    unfolding submit_claim_api serve
    sent_attempt-IsReported delivered d' x y color s reads parses wf fresh below inside free =
        let player = (player_of lib secret at s.jar).0 in
        let m : ClaimMeta = record { x = x; y = y; color = color; player = player } in
        let q =
          handle_claim tb server on_evict player (some (record { x = x; y = y; color = color }))
            at.now at.now' at.uuid at.uuid' s.world in
        let a =
          handle_claim-IsClaimAnswer tb server on_evict player x y color at.now at.now' at.uuid
            at.uuid' s.world wf fresh free in
        answered-IsReported read_claim_id d' at' (claim_id tb at.uuid m) m (canvas s.world.svc)
          s.world.svc.registry (kept lib secret s.jar (player_of lib secret at s.jar).1) q.0 q.1 a
          reads (player_of-kept tb server on_evict lib secret at at' s.jar parses) below inside
    sent_attempt-IsReported reply_lost d' x y color s reads parses wf fresh below inside free =
        let player = (player_of lib secret at s.jar).0 in
        let m : ClaimMeta = record { x = x; y = y; color = color; player = player } in
        let q =
          handle_claim tb server on_evict player (some (record { x = x; y = y; color = color }))
            at.now at.now' at.uuid at.uuid' s.world in
        let a =
          handle_claim-IsClaimAnswer tb server on_evict player x y color at.now at.now' at.uuid
            at.uuid' s.world wf fresh free in
        unanswered-IsReported read_claim_id d' at' (claim_id tb at.uuid m) m (canvas s.world.svc)
          s.world.svc.registry (record s { world = q.0 }) a.0
    sent_attempt-IsReported request_lost d' x y color s reads parses wf fresh below inside free =
        let player = (player_of lib secret at s.jar).0 in
        let m : ClaimMeta = record { x = x; y = y; color = color; player = player } in
        unanswered-IsReported read_claim_id d' at' (claim_id tb at.uuid m) m (canvas s.world.svc)
          s.world.svc.registry s refl
