-- ===== src/Web.antt =====
-- internal/web: the claim handlers and the history frame of server.go. `decodeJSON` is a parameter by
-- its result, `none` where it has answered. A response has its status, and the claim id of a body.
pub mod Handlers
pub mod Player
pub mod Sample
mod Tests
use pixel_beetle.Prelude.{
  ℕ, ◌==◌, Bool, true, false, Option, none, some, List, [], ◌∷◌, ltb, if◌then◌else◌, length,
  hex_of_bytes, bytes_of_hex,
}
use pixel_beetle.TbClient.External.{TbLib, TbServer}
use pixel_beetle.TbClient.Transfers.{max_color}
use pixel_beetle.TbClient.Client.{TbError, pixel_locked, claim_expired, transport, rejected}
use pixel_beetle.Game.Anchors.{AnchorRef, OnEvict}
use pixel_beetle.Game.Fold.{FoldError, too_broad, query_failed, out_of_fuel}
use pixel_beetle.Game.History.{Frame, frame, sidecar_error, fold_error, frame_at}
use pixel_beetle.Game.Service.{
  Service, World, GameError, out_of_bounds, locked_by_other, unknown_claim, client, ClaimResult,
  claimed, refused, claim,
}
use pixel_beetle.Game.Resolution.{Outcome, confirm, cancel}

pub record ClaimRequest : Type 0 where
  pub x : ℕ
  pub y : ℕ
  pub color : ℕ

pub record Response : Type 0 where
  pub status : ℕ
  pub claim_id : Option (List ℕ)

abbrev pub answer : ℕ → Response
answer n = record { status = n; claim_id = none }

-- The 32 digits of the 16 bytes of an id, the lowest byte first.
unfoldable pub hex_encode : ℕ → List ℕ
hex_encode id = hex_of_bytes 16 id

unfoldable pub parse_claim_id : List ℕ → Option ℕ
parse_claim_id s = if length s == 32 then bytes_of_hex s else none

-- The `switch` of `handleClaim`.
abbrev pub claim_response : ClaimResult → Response
claim_response (claimed id) = record { status = 200; claim_id = some (hex_encode id) }
claim_response (refused out_of_bounds) = answer 400
claim_response (refused locked_by_other) = answer 409
claim_response (refused unknown_claim) = answer 500
claim_response (refused (client e)) = answer 500

abbrev pub client_status : TbError → ℕ
client_status pixel_locked = 500
client_status claim_expired = 410
client_status transport = 500
client_status rejected = 500

-- `failClaim`
abbrev pub fail_claim : GameError → Response
fail_claim out_of_bounds = answer 500
fail_claim locked_by_other = answer 500
fail_claim unknown_claim = answer 404
fail_claim (client e) = answer (client_status e)

abbrev pub resolved_response : Option GameError → Response
resolved_response none = answer 204
resolved_response (some e) = fail_claim e

module _ {S F : Type 0} (tb : TbLib) (server : TbServer S) (on_evict : OnEvict F) where
  abbrev pub claimed_answer : World S F × ClaimResult → World S F × Response
  claimed_answer (w, r) = (w, claim_response r)

  abbrev pub resolved_answer : Outcome S F → World S F × Response
  resolved_answer (w, e) = (w, resolved_response e)

  unfoldable pub handle_claim :
      ℕ → Option ClaimRequest → ℕ → ℕ → ℕ → ℕ → World S F → World S F × Response
  handle_claim player none now now' uuid void_uuid w = (w, answer 400)
  handle_claim player (some req) now now' uuid void_uuid w =
      if ltb max_color req.color
      then (w, answer 400)
      else claimed_answer (claim tb server player req.x req.y req.color now now' uuid void_uuid w)

  abbrev pub confirm_parsed : ℕ → Option ℕ → ℕ → ℕ → ℕ → World S F → World S F × Response
  confirm_parsed player none now uuid uuid' w = (w, answer 400)
  confirm_parsed player (some id) now uuid uuid' w =
      resolved_answer (confirm tb server on_evict player id now uuid uuid' w)

  -- The request is the claim id.
  unfoldable pub handle_confirm : ℕ → Option (List ℕ) → ℕ → ℕ → ℕ → World S F → World S F × Response
  unfolding parse_claim_id
  handle_confirm player none now uuid uuid' w = (w, answer 400)
  handle_confirm player (some s) now uuid uuid' w =
      confirm_parsed player (parse_claim_id s) now uuid uuid' w

  abbrev pub cancel_parsed : ℕ → Option ℕ → ℕ → World S F → World S F × Response
  cancel_parsed player none uuid w = (w, answer 400)
  cancel_parsed player (some id) uuid w =
      resolved_answer (cancel tb server on_evict player id uuid w)

  unfoldable pub handle_cancel : ℕ → Option (List ℕ) → ℕ → World S F → World S F × Response
  unfolding parse_claim_id
  handle_cancel player none uuid w = (w, answer 400)
  handle_cancel player (some s) uuid w = cancel_parsed player (parse_claim_id s) uuid w

-- The answer of `handleHistoryFrame`: a status, and the frame with its time.
abbrev pub frame_response : {B : Type 0} → Frame B → ℕ × Option (B × ℕ)
frame_response (frame bmp ts_ms) = (200, some (bmp, ts_ms))
frame_response sidecar_error = (500, none)
frame_response (fold_error too_broad) = (400, none)
frame_response (fold_error query_failed) = (500, none)
frame_response (fold_error out_of_fuel) = (500, none)

module _ {B S : Type 0} (encode : List ℕ → B) (tb : TbLib) (server : TbServer S)
    (read_blob : AnchorRef → Option (List ℕ)) where
  -- `ts_ms` is `none` where it is no number or negative.
  unfoldable pub handle_history_frame : Option ℕ → Service → S → ℕ × Option (B × ℕ)
  handle_history_frame none v s = (400, none)
  handle_history_frame (some ts_ms) v s =
      frame_response (frame_at encode tb server read_blob ts_ms v s)
