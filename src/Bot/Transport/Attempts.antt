-- ===== src/Bot/Transport/Attempts.antt =====
-- The two requests of an attempt of the bot at a placement, through the handlers, the service and
-- TigerBeetle.
use pixel_beetle.Prelude.{
  ℕ, ◌<◌, ◌^◌, ◌≡◌, refl, sym, ap, ◌⊎◌, inl, inr, true, Option, none, some, List, arith, ltb,
  Bool-cases, lookup, length,
}
use pixel_beetle.TbClient.External.{TbLib, TbServer}
use pixel_beetle.TbClient.Transfers.{max_color}
use pixel_beetle.Game.Anchors.{OnEvict}
use pixel_beetle.Game.Registry.{Lock, ClaimMeta, Registry, pack, resolve}
use pixel_beetle.Game.Service.{World, cell_index, claim}
use pixel_beetle.Game.Service.Claims.{IsWf, Agrees-refl, claim_id, claim-Claimed}
use pixel_beetle.Game.Resolution.{confirm}
use pixel_beetle.Game.Resolution.Painting.{confirm-Confirmed}
use pixel_beetle.Web.{hex_encode, resolved_answer, confirm_parsed, handle_claim, handle_confirm}
use pixel_beetle.Web.Handlers.{parse_claim_id-hex_encode}
use pixel_beetle.Web.Player.Signature.{player_from_cookie-kept_cookie}
use pixel_beetle.Bot.Transport.{outcome_of, resolve_claim_api}
use pixel_beetle.Bot.Transport.Canvas.{canvas, canvas-claim}
use pixel_beetle.Bot.Transport.Served.{WebLib, Readings, Session, player_of, kept, serve}
use pixel_beetle.Bot.Transport.Outcomes.{
  IsAttempted, IsClaimAnswer, claimed_answer-IsClaimAnswer, outcome_of-IsAttempted,
}

module _ {S F : Type 0} (tb : TbLib) (server : TbServer S) (on_evict : OnEvict F) where
  -- The claim handler, on a request whose color is in range or not.
  pub handle_claim-IsClaimAnswer :
      (player x y color now now' uuid void_uuid : ℕ) (w : World S F)
      → IsWf w.svc.registry
      → lookup
          (claim_id tb uuid (record { x = x; y = y; color = color; player = player }))
          w.svc.registry.claims
        ≡ none
      → ((l : Lock)
          → lookup (pack x y) w.svc.registry.locks ≡ some l
          → (l.player ≡ player) ⊎ (now < l.expires))
      → IsClaimAnswer
          (claim_id tb uuid (record { x = x; y = y; color = color; player = player }))
          (record { x = x; y = y; color = color; player = player })
          (canvas w.svc)
          w.svc.registry
          (handle_claim tb server on_evict player
            (some (record { x = x; y = y; color = color }))
            now
            now'
            uuid
            void_uuid
            w)
  unfolding handle_claim
  handle_claim-IsClaimAnswer player x y color now now' uuid void_uuid w wf fresh free =
      let m : ClaimMeta = record { x = x; y = y; color = color; player = player } in
      elim (Bool-cases (ltb max_color color)) [
        | inl t ↦ rw t (refl, inr (λ e. absurd (omega (arith, e)), Agrees-refl w.svc.registry))
        | inr t ↦ rw t (
            claimed_answer-IsClaimAnswer tb server on_evict (claim_id tb uuid m) m now'
              (canvas w.svc) w.svc.registry
              (claim tb server player x y color now now' uuid void_uuid w)
              (canvas-claim tb server player x y color now now' uuid void_uuid w)
              (claim-Claimed tb server player x y color now now' uuid void_uuid w wf fresh free))
      ]

  pub resolve-found :
      (player id : ℕ) (m : ClaimMeta) (r : Registry)
      → m.player ≡ player
      → lookup id r.claims ≡ some m
      → resolve player id r ≡ some m
  unfolding resolve
  resolve-found player id m r own e = ground (arith, own, e)

  pub handle_confirm-hex_encode :
      (player id now uuid uuid' : ℕ) (w : World S F)
      → id < 256 ^ 16
      → handle_confirm tb server on_evict player (some (hex_encode id)) now uuid uuid' w
        ≡ resolved_answer tb server on_evict (confirm tb server on_evict player id now uuid uuid' w)
  unfolding handle_confirm
  handle_confirm-hex_encode player id now uuid uuid' w h =
      ap (λ o. confirm_parsed tb server on_evict player o now uuid uuid' w)
        (parse_claim_id-hex_encode id h)

  module _ (lib : WebLib) (secret : List ℕ) where
    -- What the client keeps after a response makes it the same player at its next request.
    pub player_of-kept :
        (at at' : Readings) (jar : Option (List ℕ))
        → lib.parse_uuid (lib.print_uuid at.fresh_player) ≡ some at.fresh_player
        → (player_of lib secret at' (kept lib secret jar (player_of lib secret at jar).1)).0
          ≡ (player_of lib secret at jar).0
    player_of-kept at at' jar h =
        ap (λ p. p.0)
          (player_from_cookie-kept_cookie lib.print_uuid lib.parse_uuid lib.hmac_sha256 secret
            at.fresh_player at'.fresh_player jar h)

    -- The confirmation of a claim that the server has answered, on the client's session.
    pub confirming-IsAttempted :
        (at' : Readings) (id : ℕ) (m : ClaimMeta) (r : Registry) (s : Session S F)
        → (player_of lib secret at' s.jar).0 ≡ m.player
        → id < 256 ^ 16
        → lookup id s.world.svc.registry.claims ≡ some m
        → cell_index s.world.svc.grid_w m.x m.y < length s.world.svc.bmp
        → IsAttempted id m.x m.y m.color (canvas s.world.svc) r (
            outcome_of
              (resolve_claim_api (serve lib secret tb server on_evict at') true (hex_encode id) s))
    unfolding resolve_claim_api serve
    confirming-IsAttempted at' id m r s own below entered inside =
        let player = (player_of lib secret at' s.jar).0 in
        let o = confirm tb server on_evict player id at'.now at'.uuid at'.uuid' s.world in
        let done =
          confirm-Confirmed tb server on_evict player id at'.now at'.uuid at'.uuid' m s.world
            (resolve-found player id m s.world.svc.registry (sym own) entered) inside in
        rw (handle_confirm-hex_encode player id at'.now at'.uuid at'.uuid' s.world below) (
          outcome_of-IsAttempted lib secret id m s.world r
            (kept lib secret s.jar (player_of lib secret at' s.jar).1) o done)
