-- ===== src/Bot/Tests.antt =====
-- The palette, blueprints and the painter of internal/bot at small drawings.
use pixel_beetle.Prelude.{ℕ, ◌≡◌, refl, true, List, [], ◌∷◌, ◌++◌, arith}
use pixel_beetle.Bot.Blueprint.{Placement, Blueprint, compose}
use pixel_beetle.Bot.Blueprint.Compose.{painted, painted-compose}
use pixel_beetle.Bot.Paint.{
  Pool, seeded, taken_job, fresh_job, settle, locked, PoolStep, take_job, settle_job, PoolRun, stop,
  next,
}
use pixel_beetle.Bot.Paint.Workers.{IsPool}
use pixel_beetle.Bot.Paint.Runs.{Finishes, PoolRun-IsPool, PoolRun-Finishes}

abbrev at : ℕ → ℕ → ℕ → Placement
at x y color = record { x = x; y = y; color = color }

-- Two placements, the second of them below and left of the first.
abbrev drawing : Blueprint
drawing = record { w = 2; h = 1; placements = at 1 0 3 ∷ at 0 1 4 ∷ [] }

abbrev overlay : List Placement
overlay = at 1 0 5 ∷ []

painted-compose_example :
    painted (compose drawing overlay).placements 1 0 ≡ painted (drawing.placements ++ overlay) 1 0
painted-compose_example =
    painted-compose drawing overlay 1 0 (omega arith, omega arith, (omega arith, omega arith, tt))
      (omega arith, omega arith, tt)

-- `#.` over `.#`, and a legend that lacks `#` for the second line's `?`.
abbrev art : List (List ℕ)
art = (35 ∷ 46 ∷ []) ∷ (46 ∷ 63 ∷ []) ∷ []

-- Wider than the grid by three, so that the offset wraps around.
abbrev too_wide : Blueprint
too_wide = record { w = 7; h = 1; placements = [] }

abbrev two_places : List Placement
two_places = at 0 0 1 ∷ at 1 0 2 ∷ []

-- A worker has claimed the first placement in vain.
abbrev one_try : Pool
one_try =
    settle locked (fresh_job (at 0 0 1))
      (record (taken_job (fresh_job (at 0 0 1)) (fresh_job (at 1 0 2) ∷ []) (seeded two_places)) {
        flying = [];
      })

one_try-PoolRun : PoolRun 1 (seeded two_places) one_try 2
unfolding seeded taken_job
one_try-PoolRun =
    next
      (next stop (take_job (fresh_job (at 0 0 1)) (fresh_job (at 1 0 2) ∷ []) refl (omega arith)))
      (settle_job [] [] (fresh_job (at 0 0 1)) locked refl)

PoolRun-IsPool_example : IsPool 2 one_try
PoolRun-IsPool_example = PoolRun-IsPool 1 two_places (omega arith) one_try-PoolRun

PoolRun-Finishes_example :
    Finishes 1 one_try
    × (((t : Pool) → ¬ PoolStep 1 one_try t) → (one_try.done ≡ true) × (one_try.remaining ≡ 0))
PoolRun-Finishes_example = PoolRun-Finishes 1 two_places (omega arith) (omega arith) one_try-PoolRun
