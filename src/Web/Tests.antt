-- ===== src/Web/Tests.antt =====
-- The claim endpoints of internal/web at an empty canvas of four by three cells, and the cookies of
-- players with ids of four digits under a tag that is the secret and the id.
use pixel_beetle.Prelude.{
  ℕ, ◌≡◌, ◌↔◌, refl, none, some, List, [], ◌∷◌, lookup, hex_of_bytes, bytes_of_hex, arith,
}
use pixel_beetle.TbClient.Transfers.{new_claim}
use pixel_beetle.TbClient.Sample.{sample_tb, accepting}
use pixel_beetle.Game.Service.{new_service}
use pixel_beetle.Web.{ClaimRequest, handle_claim}
use pixel_beetle.Web.Handlers.{IsAnswered, handle_claim-IsAnswered}
use pixel_beetle.Web.Sample.{no_hook, new_world, new_world-IsWf, print_id, parse_id, plain_tag}
use pixel_beetle.Web.Player.{hex_bytes, split_last, sign_player, verify_player, player_from_cookie}
use pixel_beetle.Web.Player.Signature.{IsSigned, verify_player-IsSigned}

abbrev request : ClaimRequest
request = record { x = 1; y = 2; color = 5 }

handle_claim-IsAnswered_example :
    IsAnswered sample_tb accepting no_hook 9 new_world.svc.registry
      (handle_claim sample_tb accepting no_hook 9 (some request) 1000 1001 70 71 new_world)
unfolding lookup new_service new_claim
handle_claim-IsAnswered_example =
    handle_claim-IsAnswered sample_tb accepting no_hook 9 request 1000 1001 70 71 new_world
      new_world-IsWf refl (omega arith) (λ l e. absurd (ground (arith, e)))

abbrev cookie : List ℕ
cookie = sign_player print_id parse_id plain_tag (1 ∷ 2 ∷ []) 700

verify_player-accepts : verify_player print_id parse_id plain_tag (1 ∷ 2 ∷ []) cookie ≡ some 700
unfolding hex_of_bytes bytes_of_hex hex_bytes split_last
verify_player-accepts = refl

verify_player-rejects : verify_player print_id parse_id plain_tag (1 ∷ 3 ∷ []) cookie ≡ none
unfolding hex_of_bytes bytes_of_hex hex_bytes split_last
verify_player-rejects = refl

player_from_cookie-fresh :
    player_from_cookie print_id parse_id plain_tag (1 ∷ 2 ∷ []) 700 none ≡ (700, some cookie)
player_from_cookie-fresh = refl

verify_player-IsSigned_example :
    (verify_player print_id parse_id plain_tag (1 ∷ 2 ∷ []) cookie ≡ some 700)
    ↔ IsSigned print_id parse_id plain_tag (1 ∷ 2 ∷ []) cookie 700
verify_player-IsSigned_example =
    verify_player-IsSigned print_id parse_id plain_tag (1 ∷ 2 ∷ []) cookie 700
