-- ===== src/Game/Interleaving.antt =====
-- Requests that run at the same time (internal/game/game.go): `Claim` gives up `s.mu` while it waits
-- for TigerBeetle, so other requests and the reaper run between its two critical sections. A step
-- is one critical section. `attempts` holds, for each player, the claim that waits and what its
-- goroutine keeps in local variables; `issued` records every claim ever entered.
pub mod Safety
pub mod Steps
pub mod Overlap
use pixel_beetle.Prelude.{ℕ, ◌≡◌, false, Option, none, some, List, Table, [], lookup, insert, erase}
use pixel_beetle.Game.Registry.{
  Lock, ClaimMeta, Registry, key_of, held_by_other, vacate, Superseded, superseded, reserve,
  rollback, reap,
}

pub record Attempt : Type 0 where
  pub id : ℕ
  pub meta : ClaimMeta
  pub old : Option Superseded

pub record Shared : Type 0 where
  pub registry : Registry
  pub attempts : Table Attempt
  pub issued : Table ClaimMeta

abbrev pub attempt : ℕ → ClaimMeta → Registry → Attempt
attempt id m r = record { id = id; meta = m; old = superseded m.player r }

-- The first critical section of `Claim` under a fresh id.
abbrev pub begin : ℕ → ClaimMeta → ℕ → Shared → Shared
begin id m expires s = record {
  registry = reserve id m expires s.registry;
  attempts = insert m.player (attempt id m s.registry) s.attempts;
  issued = insert id m s.issued;
}

-- The second one, after a failed submit.
abbrev pub fail : ℕ → Attempt → Shared → Shared
fail p a s = record s {
  registry = rollback a.id a.meta a.old s.registry;
  attempts = erase p s.attempts;
}

-- A player has at most one `Claim` in flight. `Confirm` and `Cancel` end in a `vacate` of a claim
-- that `resolve` found earlier; the claim may be gone by then.
pub data Step : Shared → Shared → Type 0 where
  begin_step :
      (s : Shared) (id : ℕ) (m : ClaimMeta) (now expires : ℕ)
      → lookup m.player s.attempts ≡ none
      → lookup id s.issued ≡ none
      → held_by_other now m.player (lookup (key_of m) s.registry.locks) ≡ false
      → Step s (begin id m expires s)
  succeed_step : (s : Shared) (p : ℕ) → Step s (record s { attempts = erase p s.attempts })
  fail_step :
      (s : Shared) (p : ℕ) (a : Attempt) → lookup p s.attempts ≡ some a → Step s (fail p a s)
  vacate_step :
      (s : Shared) (id : ℕ) (m : ClaimMeta)
      → lookup id s.issued ≡ some m
      → Step s (record s { registry = vacate id (key_of m) s.registry })
  reap_step :
      (s : Shared) (now : ℕ) (ks : List ℕ)
      → Step s (record s { registry = (reap now ks s.registry).0 })

abbrev pub empty_registry : Registry
empty_registry = record { locks = []; claims = []; by_player = [] }

abbrev pub initial : Shared
initial = record { registry = empty_registry; attempts = []; issued = [] }

pub data Reach : Shared → Type 0 where
  start : Reach initial
  next : {s t : Shared} → Reach s → Step s t → Reach t
