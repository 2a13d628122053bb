-- ===== src/Bot/Transport/Tests.antt =====
-- The bot in front of a server with an empty canvas of four by three cells, and in direct mode.
use pixel_beetle.Prelude.{
  ℕ, ◌+◌, ◌≡◌, refl, Option, none, some, List, [], ◌∷◌, arith, lookup, map, hex_of_bytes,
  bytes_of_hex,
}
use pixel_beetle.TbClient.External.{Transfer, transfer_created}
use pixel_beetle.TbClient.Transfers.{new_claim}
use pixel_beetle.TbClient.Client.{status_error, submit_errors, submit_batch}
use pixel_beetle.TbClient.Sample.{sample_tb, accepting}
use pixel_beetle.Game.Service.{new_service}
use pixel_beetle.Web.Sample.{no_hook, new_world, new_world-IsWf, print_id, parse_id, plain_tag}
use pixel_beetle.Bot.Paint.{confirmed}
use pixel_beetle.Bot.Transport.Canvas.{canvas}
use pixel_beetle.Bot.Transport.Served.{
  WebLib, Readings, Session, delivered, reply_lost, served_attempt, sent_attempt,
}
use pixel_beetle.Bot.Transport.Sent.{IsReported, sent_attempt-IsReported}
use pixel_beetle.Bot.Transport.Accepted.{served_attempt-confirmed}

abbrev quoted : List ℕ → List ℕ
quoted s = 34 ∷ s

abbrev unquoted : List ℕ → Option (List ℕ)
unquoted [] = none
unquoted (c ∷ s) = some s

abbrev web_lib : WebLib
web_lib = record {
  print_uuid = print_id;
  parse_uuid = parse_id;
  hmac_sha256 = plain_tag;
  write_claim_id = quoted;
}

abbrev readings : ℕ → Readings
readings n = record { now = n; now' = n + 1; uuid = n + 2; uuid' = n + 3; fresh_player = 700 }

-- A client without a cookie.
abbrev new_session : Session (List Transfer) (Unit {0})
new_session = record { jar = none; world = new_world }

sent_attempt-IsReported_example :
    IsReported reply_lost 1002 1 2 5 (canvas new_world.svc) new_world.svc.registry (
      sent_attempt web_lib
        (1 ∷ [])
        sample_tb
        accepting
        no_hook
        unquoted
        delivered
        reply_lost
        (readings 1000)
        (readings 2000)
        1
        2
        5
        new_session)
unfolding lookup new_service new_claim bytes_of_hex hex_of_bytes
sent_attempt-IsReported_example =
    sent_attempt-IsReported sample_tb accepting no_hook web_lib (1 ∷ []) unquoted (readings 1000)
      (readings 2000) delivered reply_lost 1 2 5 new_session (λ t. refl) refl new_world-IsWf refl
      (omega arith) (omega arith) (λ l e. absurd (ground (arith, e)))

submit_errors-map : (ts : List Transfer) → submit_errors (map (λ t. transfer_created) ts) ≡ none
unfolding submit_errors status_error
submit_errors-map [] = refl
submit_errors-map (t ∷ ts) = submit_errors-map ts

accepting_all :
    (ts : List Transfer) (s : List Transfer) → (submit_batch sample_tb accepting ts s).0 ≡ none
unfolding submit_batch
accepting_all ts s = submit_errors-map ts

served_attempt-confirmed_example :
    (served_attempt web_lib
      (1 ∷ [])
      sample_tb
      accepting
      no_hook
      unquoted
      (readings 1000)
      (readings 2000)
      1
      2
      5
      new_session).0
    ≡ confirmed
unfolding lookup new_service new_claim bytes_of_hex hex_of_bytes
served_attempt-confirmed_example =
    served_attempt-confirmed sample_tb accepting no_hook web_lib (1 ∷ []) unquoted (readings 1000)
      (readings 2000) accepting_all 1 2 5 new_session (λ t. refl) refl new_world-IsWf refl
      (omega arith) (omega arith, omega arith) (omega arith) (λ l e. absurd (ground (arith, e)))
