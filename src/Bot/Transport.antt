-- ===== src/Bot/Transport.antt =====
-- internal/bot/bot.go: submitClaim, resolveClaim, recordFailure, and what an agent does with a token; of
-- paint.go the attempt of a worker. net/http and encoding/json are parameters: `Http` performs a request
-- over a state that holds the cookies of the client, and `read_claim_id` reads the field of a body.
pub mod Canvas
pub mod Served
pub mod Outcomes
pub mod Attempts
pub mod Sent
pub mod Accepted
pub mod Direct
mod Tests
use pixel_beetle.Prelude.{
  ℕ, ◌+◌, ◌==◌, Bool, true, false, Option, none, some, List, if◌then◌else◌, leb, length,
  hex_of_bytes, bytes_of_hex,
}
use pixel_beetle.TbClient.External.{TbLib, TbServer, Transfer}
use pixel_beetle.TbClient.Transfers.{new_claim, build_void, build_confirm}
use pixel_beetle.TbClient.Client.{
  TbError, pixel_locked, claim_expired, transport, rejected, submit_batch, submit,
}
use pixel_beetle.Bot.Paint.{ClaimOutcome, confirmed, locked, failed, Metrics, record_failure}

-- A request with the fields of its body.
pub data Request : Type 0 where
  claim_request : ℕ → ℕ → ℕ → Request
  resolve_request : Bool → List ℕ → Request

pub record Reply : Type 0 where
  pub status : ℕ
  pub body : List ℕ

-- `none` is an error of the call.
abbrev pub Http : Type 0 → Type 0
Http H = Request → H → Option Reply × H

-- `errLocked`, or any other error.
pub data BotError : Type 0 where
  errlocked other_error : BotError

pub data Submitted : Type 0 where
  submitted : List ℕ → Submitted
  submit_error : BotError → Submitted

-- What a worker or an agent makes of the two results.
abbrev pub failure_of : BotError → ClaimOutcome
failure_of errlocked = locked
failure_of other_error = failed

abbrev pub resolved_outcome : Option BotError → ClaimOutcome
resolved_outcome none = confirmed
resolved_outcome (some e) = failure_of e

module _ (read_claim_id : List ℕ → Option (List ℕ)) where
  abbrev pub read_id : Option (List ℕ) → Submitted
  read_id none = submit_error other_error
  read_id (some s) = submitted s

  abbrev pub submit_reply : Option Reply → Submitted
  submit_reply none = submit_error other_error
  submit_reply (some r) =
      if r.status == 409
      then submit_error errlocked
      else if r.status == 200
      then read_id (read_claim_id r.body)
      else submit_error other_error

  unfoldable pub submit_claim_api : {H : Type 0} → Http H → ℕ → ℕ → ℕ → H → Submitted × H
  submit_claim_api http x y color h =
      let (r, h') = http (claim_request x y color) h in (submit_reply r, h')

abbrev pub resolve_reply : Option Reply → Option BotError
resolve_reply none = some other_error
resolve_reply (some r) = if leb 300 r.status then some other_error else none

unfoldable pub resolve_claim_api : {H : Type 0} → Http H → Bool → List ℕ → H → Option BotError × H
resolve_claim_api http confirm id h =
    let (r, h') = http (resolve_request confirm id) h in (resolve_reply r, h')

module _ {S : Type 0} (tb : TbLib) (server : TbServer S) where
  abbrev pub direct_submitted : Transfer → Option TbError → Submitted
  direct_submitted t none = submitted (hex_of_bytes 16 (tb.bytes t.id))
  direct_submitted t (some pixel_locked) = submit_error errlocked
  direct_submitted t (some claim_expired) = submit_error other_error
  direct_submitted t (some transport) = submit_error other_error
  direct_submitted t (some rejected) = submit_error other_error

  unfoldable pub submit_claim_direct : ℕ → ℕ → ℕ → ℕ → ℕ → S → Submitted × S
  submit_claim_direct uuid player x y color s =
      let t = new_claim tb uuid x y color player in
      let (e, s') = submit tb server t s in (direct_submitted t e, s')

  abbrev pub direct_error : Option TbError → Option BotError
  direct_error none = none
  direct_error (some e) = some other_error

  abbrev pub direct_answer : Option TbError × S → Option BotError × S
  direct_answer (e, s) = (direct_error e, s)

  abbrev pub resolve_parsed : ℕ → ℕ → ℕ → ℕ → Bool → Option ℕ → S → Option BotError × S
  resolve_parsed uuid uuid' x y confirm none s = (some other_error, s)
  resolve_parsed uuid uuid' x y true (some id) s =
      direct_answer
        (submit_batch tb server (build_confirm tb uuid uuid' (tb.bytes_to_uint128 id) x y) s)
  resolve_parsed uuid uuid' x y false (some id) s =
      direct_answer (submit tb server (build_void tb uuid (tb.bytes_to_uint128 id)) s)

  unfoldable pub resolve_claim_direct : ℕ → ℕ → ℕ → ℕ → Bool → List ℕ → S → Option BotError × S
  resolve_claim_direct uuid uuid' x y confirm s w =
      resolve_parsed uuid uuid' x y confirm (if length s == 32 then bytes_of_hex s else none) w

abbrev pub outcome_of : {H : Type 0} → Option BotError × H → ClaimOutcome × H
outcome_of (e, h) = (resolved_outcome e, h)

-- A worker's attempt at a placement: the submit, and then the confirmation.
module _ {H : Type 0} (resolve : List ℕ → H → Option BotError × H) where
  unfoldable pub try_placement : Submitted × H → ClaimOutcome × H
  try_placement (submit_error e, h) = (failure_of e, h)
  try_placement (submitted id, h) = outcome_of (resolve id h)

-- What an agent of the load generator does with a token; `abandon` is that it walks away from the claim.
abbrev pub is_locked : BotError → Bool
is_locked errlocked = true
is_locked other_error = false

abbrev pub count_resolved : Option BotError → Metrics → Metrics
count_resolved none m = record m { confirmed = m.confirmed + 1 }
count_resolved (some e) m = record_failure (is_locked e) m

module _ {H : Type 0} (resolve : List ℕ → H → Option BotError × H) (abandon : Bool) where
  abbrev pub round_resolved : Metrics → Option BotError × H → Metrics × H
  round_resolved m (e, h) = (count_resolved e m, h)

  abbrev pub round_submitted : Metrics → Submitted × H → Metrics × H
  round_submitted m (submit_error e, h) = (record_failure (is_locked e) m, h)
  round_submitted m (submitted id, h) = if abandon then (m, h) else round_resolved m (resolve id h)

  unfoldable pub agent_round : (H → Submitted × H) → Metrics → H → Metrics × H
  agent_round submit m h =
      round_submitted (record m { claims_started = m.claims_started + 1 }) (submit h)
