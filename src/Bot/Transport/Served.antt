-- ===== src/Bot/Transport/Served.antt =====
-- The bot of internal/bot/bot.go in front of the server of internal/web/server.go: a client with its
-- cookie, and the world behind the handlers. What json.Marshal makes of a claim id is a parameter.
use pixel_beetle.Prelude.{ℕ, true, false, Option, none, some, List, []}
use pixel_beetle.TbClient.External.{TbLib, TbServer}
use pixel_beetle.Game.Anchors.{OnEvict}
use pixel_beetle.Game.Service.{World}
use pixel_beetle.Web.{Response, handle_claim, handle_confirm, handle_cancel}
use pixel_beetle.Web.Player.{player_from_cookie}
use pixel_beetle.Web.Player.Signature.{kept_cookie}
use pixel_beetle.Bot.Paint.{ClaimOutcome}
use pixel_beetle.Bot.Transport.{
  Request, Http, claim_request, resolve_request, Reply, try_placement, resolve_claim_api,
  submit_claim_api,
}

-- The functions that the server calls and that are not the repository's.
pub record WebLib : Type 0 where
  pub print_uuid : ℕ → List ℕ
  pub parse_uuid : List ℕ → Option ℕ
  pub hmac_sha256 : List ℕ → List ℕ → List ℕ
  pub write_claim_id : List ℕ → List ℕ

-- What a call takes from outside: the readings of the clock, and the UUIDs.
pub record Readings : Type 0 where
  pub now : ℕ
  pub now' : ℕ
  pub uuid : ℕ
  pub uuid' : ℕ
  pub fresh_player : ℕ

-- The cookie of a client, and the world of the server.
pub record Session (S F : Type 0) : Type 0 where
  pub jar : Option (List ℕ)
  pub world : World S F

-- What becomes of a request: its reply arrives, the server acts on it and the call fails all the
-- same (a timeout, a closed connection), or the server never sees it.
pub data Delivery : Type 0 where
  delivered reply_lost request_lost : Delivery

-- A call without a reply leaves the cookie of the client as it was.
abbrev pub carried :
    {S F : Type 0}
    → Delivery
    → Http (Session S F)
    → Request
    → Session S F
    → Option Reply × Session S F
carried delivered http r s = http r s
carried reply_lost http r s = (none, record s { world = (http r s).1.world })
carried request_lost http r s = (none, s)

module _ (lib : WebLib) (secret : List ℕ) where
  abbrev pub player_of : Readings → Option (List ℕ) → ℕ × Option (List ℕ)
  player_of at jar =
      player_from_cookie lib.print_uuid lib.parse_uuid lib.hmac_sha256 secret at.fresh_player jar

  abbrev pub kept : Option (List ℕ) → Option (List ℕ) → Option (List ℕ)
  kept = kept_cookie lib.print_uuid lib.parse_uuid lib.hmac_sha256

  -- The body of an error is left out.
  abbrev pub body_of : Option (List ℕ) → List ℕ
  body_of none = []
  body_of (some s) = lib.write_claim_id s

  abbrev pub reply_of : Response → Reply
  reply_of a = record { status = a.status; body = body_of a.claim_id }

  module _ {S F : Type 0} where
    abbrev pub replied : Option (List ℕ) → World S F × Response → Option Reply × Session S F
    replied jar (w, a) = (some (reply_of a), record { jar = jar; world = w })

    -- `withPlayer`, with the cookie that the client keeps.
    abbrev pub with_player :
        (ℕ → World S F → World S F × Response) → Readings → Session S F → Option Reply × Session S F
    with_player handler at s =
        let (player, cookie) = player_of at s.jar in
        replied (kept s.jar cookie) (handler player s.world)

    module _ (tb : TbLib) (server : TbServer S) (on_evict : OnEvict F) where
      unfoldable pub serve : Readings → Request → Session S F → Option Reply × Session S F
      serve at (claim_request x y color) s =
          with_player
            (λ player.
              handle_claim tb server on_evict player (some (record { x = x; y = y; color = color }))
                at.now at.now' at.uuid at.uuid')
            at s
      serve at (resolve_request true id) s =
          with_player
            (λ player. handle_confirm tb server on_evict player (some id) at.now at.uuid at.uuid')
            at s
      serve at (resolve_request false id) s =
          with_player (λ player. handle_cancel tb server on_evict player (some id) at.uuid) at s

      -- What a worker does with a placement, against that server.
      abbrev pub served_attempt :
          (List ℕ → Option (List ℕ))
          → Readings
          → Readings
          → ℕ
          → ℕ
          → ℕ
          → Session S F
          → ClaimOutcome × Session S F
      served_attempt read_claim_id at at' x y color s =
          try_placement (resolve_claim_api (serve at') true)
            (submit_claim_api read_claim_id (serve at) x y color s)

      -- The same with a network that can lose either of the two requests, or its reply.
      abbrev pub sent_attempt :
          (List ℕ → Option (List ℕ))
          → Delivery
          → Delivery
          → Readings
          → Readings
          → ℕ
          → ℕ
          → ℕ
          → Session S F
          → ClaimOutcome × Session S F
      sent_attempt read_claim_id d d' at at' x y color s =
          try_placement (resolve_claim_api (carried d' (serve at')) true)
            (submit_claim_api read_claim_id (carried d (serve at)) x y color s)
