-- ===== src/Game/Tests.antt =====
-- The service of internal/game/game.go at concrete inputs.
use pixel_beetle.Prelude.{ℕ, ◌≡◌, refl, true, none, some, List, [], lookup, insert, erase, arith}
use pixel_beetle.TbClient.External.{Transfer}
use pixel_beetle.TbClient.Transfers.{new_claim}
use pixel_beetle.TbClient.Sample.{sample_tb, accepting, refusing}
use pixel_beetle.Game.Anchors.{OnEvict}
use pixel_beetle.Game.Registry.{
  ClaimMeta, Registry, superseded, vacate, reserve, rollback, resolve, reap, reap_lock,
}
use pixel_beetle.Game.Registry.Reserve.{reserve-IsIndexed, reserve-IsLocked}
use pixel_beetle.Game.Interleaving.{
  Shared, Reach, start, next, begin_step, succeed_step, fail_step, initial, empty_registry, begin,
  fail, attempt,
}
use pixel_beetle.Game.Interleaving.Steps.{Reach-one_claim}
use pixel_beetle.Game.Interleaving.Overlap.{overlap, reserve-overlap}
use pixel_beetle.Game.Service.{
  World, new_service, ensure_system_pool, ensure_pixel, claim_answered, claim_free, claim,
}
use pixel_beetle.Game.Service.Claims.{IsWf, Claimed, claim_id, claim-Claimed}
use pixel_beetle.Game.Resolution.{Event, confirm, cancel, reap_expired}
use pixel_beetle.Game.Resolution.Painting.{Confirmed, confirm-Confirmed}
use pixel_beetle.Game.Resolution.Tables.{resolution-IsWf}

tables : Unit {0}
unfolding lookup insert erase reserve superseded vacate rollback resolve reap reap_lock
tables = tt

service : Unit {0}
unfolding tables new_service claim claim_free claim_answered ensure_system_pool ensure_pixel
    new_claim
service = tt

abbrev meta9 : ClaimMeta
meta9 = record { x = 1; y = 1; color = 5; player = 9 }

abbrev meta7 : ClaimMeta
meta7 = record { x = 2; y = 2; color = 6; player = 7 }

abbrev one_claim : Registry
one_claim = reserve 50 meta9 3000000000 empty_registry

-- Player 9 holds claim 50 at (1, 1), player 7 holds claim 60 at (2, 2).
abbrev two_claims : Registry
two_claims = reserve 60 meta7 4000000000 one_claim

empty-IsWf : IsWf empty_registry
unfolding lookup
empty-IsWf = (record { indexed = λ i n f. cc; backed = λ p i f. cc }, λ k l f. absurd (cc))

one_claim-IsWf : IsWf one_claim
unfolding lookup
one_claim-IsWf = (
  reserve-IsIndexed 50 meta9 3000000000 empty_registry empty-IsWf.0 refl,
  reserve-IsLocked 50 meta9 3000000000 empty_registry empty-IsWf.0 empty-IsWf.1 refl,
)

two_claims-IsWf : IsWf two_claims
unfolding tables new_claim
two_claims-IsWf = (
  reserve-IsIndexed 60 meta7 4000000000 one_claim one_claim-IsWf.0 refl,
  reserve-IsLocked 60 meta7 4000000000 one_claim one_claim-IsWf.0 one_claim-IsWf.1 refl,
)

-- A nil hook.
abbrev nil_hook : OnEvict (Unit {0})
nil_hook ts hash bmp f = (none, f)

abbrev world : World (List Transfer) (Unit {0})
world = record {
  svc = record (new_service 4 3) { registry = two_claims };
  store = [];
  sidecar = tt;
  sent = [];
}

abbrev meta9_next : ClaimMeta
meta9_next = record { x = 3; y = 0; color = 2; player = 9 }

-- TigerBeetle refuses the claim of (3, 0), and player 9 keeps the claim of (1, 1).
claim-Claimed_example :
    Claimed
      (claim_id sample_tb 70 meta9_next)
      meta9_next
      1001
      two_claims
      (claim sample_tb refusing 9 3 0 2 1000 1001 70 71 world)
unfolding tables new_claim
claim-Claimed_example =
    claim-Claimed sample_tb refusing 9 3 0 2 1000 1001 70 71 world two_claims-IsWf refl
      (λ l f. absurd (cc))

resolution-IsWf_example :
    IsWf (confirm sample_tb accepting nil_hook 9 50 1000 70 71 world).0.svc.registry
    × IsWf (cancel sample_tb accepting nil_hook 9 50 70 world).0.svc.registry
    × IsWf (reap_expired 1000 [] world).svc.registry
resolution-IsWf_example =
    resolution-IsWf sample_tb accepting nil_hook 9 50 world two_claims-IsWf 1000 70 71 []

confirm-Confirmed_example :
    Confirmed 50 meta9 world (confirm sample_tb accepting nil_hook 9 50 1000 70 71 world)
unfolding tables new_service
confirm-Confirmed_example =
    confirm-Confirmed sample_tb accepting nil_hook 9 50 1000 70 71 meta9 world refl (omega arith)

abbrev delivered : Event
delivered = record {
  posted = true;
  timestamp = 61_000_000_000;
  x = 3;
  y = 2;
  color = 4;
  player = 8;
  transfer_id = 99;
}

-- Player 9 has claim 50 and begins claim 51, which fails.
abbrev begun : Shared
begun = begin 50 meta9 3000000000 initial

abbrev settled : Shared
settled = record begun { attempts = erase 9 begun.attempts }

abbrev begun_again : Shared
begun_again = begin 51 meta9_next 4000000000 settled

abbrev restored : Shared
restored = fail 9 (attempt 51 meta9_next settled.registry) begun_again

restored-Reach : Reach restored
unfolding tables
restored-Reach =
    next
      (next
        (next (next start (begin_step initial 50 meta9 0 3000000000 refl refl refl))
          (succeed_step begun 9))
        (begin_step settled 51 meta9_next 1000000000 4000000000 refl refl refl))
      (fail_step begun_again 9 (attempt 51 meta9_next settled.registry) refl)

Reach-one_claim_example : (◌≡◌ {A = ℕ} 50 50) × (lookup 9 restored.registry.by_player ≡ some 50)
unfolding tables
Reach-one_claim_example = Reach-one_claim 50 50 meta9 meta9 restored-Reach refl refl refl

reserve-overlap_example :
    (superseded 9 (overlap 50 51 meta9 meta9_next 3 4 empty_registry) ≡ none)
    × (lookup 51 (reserve 52 meta9 5 (overlap 50 51 meta9 meta9_next 3 4 empty_registry)).claims
        ≡ some meta9_next)
    × (lookup 52 (reserve 52 meta9 5 (overlap 50 51 meta9 meta9_next 3 4 empty_registry)).claims
        ≡ some meta9)
unfolding tables
reserve-overlap_example =
    reserve-overlap 50 51 52 meta9 meta9_next meta9 3 4 5 empty_registry refl refl refl
      (λ e. ground arith) (λ e. ground arith)
