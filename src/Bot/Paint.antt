-- ===== src/Bot/Paint.antt =====
-- internal/bot/paint.go: `resolvePaintOffset` and the pool of workers of `paintRun`. A step of the pool
-- is what one goroutine does between two channel operations; the outcome of a claim and its
-- confirmation is a parameter of the step. A cancelled run is a prefix of a run.
pub mod Offset
pub mod Workers
pub mod Runs
use pixel_beetle.Prelude.{
  ℕ, zero, suc, ◌+◌, ◌-◌, ◌/◌, ◌%◌, ◌^◌, ◌<◌, ◌≡◌, Bool, true, false, Option, none, some, List, [],
  ◌∷◌, ◌++◌, map, ltb, leb, ◌==◌, if◌then◌else◌, length,
}
use pixel_beetle.Bot.Blueprint.{Placement, Blueprint, validate_bounds}

abbrev pub max_paint_retries : ℕ
max_paint_retries = 3

-- `uint32((int(grid) - size) / 2)`, which rounds towards 0 and wraps around.
abbrev pub half_gap : ℕ → ℕ → ℕ
half_gap grid size =
    if leb size grid then (grid - size) / 2 else (2 ^ 32 - (size - grid) / 2) % 2 ^ 32

abbrev pub checked_offset : ℕ → ℕ → Blueprint → ℕ × ℕ → Option (ℕ × ℕ)
checked_offset grid_w grid_h bp off =
    if validate_bounds bp grid_w grid_h off then some off else none

-- The offset is `some` where the user has set one.
unfoldable pub resolve_paint_offset : Option (ℕ × ℕ) → ℕ → ℕ → Blueprint → Option (ℕ × ℕ)
unfolding validate_bounds
resolve_paint_offset none grid_w grid_h bp =
    checked_offset grid_w grid_h bp (half_gap grid_w bp.w, half_gap grid_h bp.h)
resolve_paint_offset (some off) grid_w grid_h bp = checked_offset grid_w grid_h bp off

abbrev pub shifted : ℕ × ℕ → Placement → Placement
shifted (ox, oy) p = record p { x = p.x + ox; y = p.y + oy }

pub record PaintJob : Type 0 where
  pub p : Placement
  pub attempts : ℕ

-- The counters of the bot that a painter changes.
pub record Metrics : Type 0 where
  pub claims_started : ℕ
  pub confirmed : ℕ
  pub lock_conflicts : ℕ
  pub errors : ℕ
  pub painted : ℕ

-- `jobs` is the channel, `flying` the jobs that a worker holds, `waiting` those of the goroutines
-- that back off; `done` is whether the channel that ends the workers is closed.
pub record Pool : Type 0 where
  pub jobs : List PaintJob
  pub flying : List PaintJob
  pub waiting : List PaintJob
  pub remaining : ℕ
  pub done : Bool
  pub metrics : Metrics

-- What submitting and resolving a claim returns: nil, `errLocked` or another error.
pub data ClaimOutcome : Type 0 where
  confirmed : ClaimOutcome
  locked : ClaimOutcome
  failed : ClaimOutcome

abbrev pub record_failure : Bool → Metrics → Metrics
record_failure true m = record m { lock_conflicts = m.lock_conflicts + 1 }
record_failure false m = record m { errors = m.errors + 1 }

abbrev pub record_painted : Metrics → Metrics
record_painted m = record m { confirmed = m.confirmed + 1; painted = m.painted + 1 }

-- One placement less to do, and the end behind the last.
abbrev pub finish_one : Pool → Pool
finish_one s = record s {
  remaining = s.remaining - 1;
  done = if s.remaining - 1 == 0 then true else s.done;
}

abbrev pub retry_or_give_up : PaintJob → Pool → Pool
retry_or_give_up j s =
    if ltb j.attempts max_paint_retries
    then record s { waiting = record j { attempts = j.attempts + 1 } ∷ s.waiting }
    else finish_one s

-- What a worker does with a job that it has tried.
unfoldable pub settle : ClaimOutcome → PaintJob → Pool → Pool
settle confirmed j s = finish_one (record s { metrics = record_painted s.metrics })
settle locked j s = retry_or_give_up j (record s { metrics = record_failure true s.metrics })
settle failed j s = retry_or_give_up j (record s { metrics = record_failure false s.metrics })

abbrev pub fresh_job : Placement → PaintJob
fresh_job p = record { p = p; attempts = 0 }

abbrev pub no_metrics : Metrics
no_metrics = record {
  claims_started = 0;
  confirmed = 0;
  lock_conflicts = 0;
  errors = 0;
  painted = 0;
}

-- The queue with every placement.
unfoldable pub seeded : List Placement → Pool
seeded ps = record {
  jobs = map fresh_job ps;
  flying = [];
  waiting = [];
  remaining = length ps;
  done = false;
  metrics = no_metrics;
}

-- A worker that is free takes the first job.
unfoldable pub taken_job : PaintJob → List PaintJob → Pool → Pool
taken_job j rest s = record s {
  jobs = rest;
  flying = j ∷ s.flying;
  metrics = record s.metrics { claims_started = s.metrics.claims_started + 1 };
}

-- A step of the pool of `workers` workers.
pub data PoolStep (workers : ℕ) : Pool → Pool → Type 0 where
  take_job :
      {s : Pool} (j : PaintJob) (rest : List PaintJob)
      → s.jobs ≡ j ∷ rest
      → length s.flying < workers
      → PoolStep workers s (taken_job j rest s)
  settle_job :
      {s : Pool} (pre post : List PaintJob) (j : PaintJob) (o : ClaimOutcome)
      → s.flying ≡ pre ++ j ∷ post
      → PoolStep workers s (settle o j (record s { flying = pre ++ post }))
  push_back :
      {s : Pool} (pre post : List PaintJob) (j : PaintJob)
      → s.waiting ≡ pre ++ j ∷ post
      → PoolStep workers s (record s { jobs = s.jobs ++ j ∷ []; waiting = pre ++ post })

pub data PoolRun (workers : ℕ) : Pool → Pool → ℕ → Type 0 where
  stop : {s : Pool} → PoolRun workers s s 0
  next :
      {s t u : Pool} {n : ℕ}
      → PoolRun workers s t n
      → PoolStep workers t u
      → PoolRun workers s u (suc n)
