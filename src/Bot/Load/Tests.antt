-- ===== src/Bot/Load/Tests.antt =====
-- Loading and starting (internal/bot/image.go, internal/bot/paint.go) at a drawing of three characters.
use pixel_beetle.Prelude.{
  ℕ, zero, suc, ◌+◌, ◌*◌, ◌≤◌, ◌≡◌, refl, ap, inr, true, Option, none, some, List, [], ◌∷◌, map,
  length, pos, codes, lookup, insert, arith,
}
use pixel_beetle.TbClient.External.{TbServer, account_created, transfer_created}
use pixel_beetle.TbClient.Client.{
  create_accounts, account_errors, submit_batch, submit_errors, status_error,
}
use pixel_beetle.TbClient.Sample.{sample_tb}
use pixel_beetle.Bot.Blueprint.{Blueprint}
use pixel_beetle.Bot.Image.{Image}
use pixel_beetle.Bot.Paint.{
  PaintJob, Pool, fresh_job, seeded, taken_job, PoolStep, take_job, PoolRun, stop, next,
}
use pixel_beetle.Bot.Paint.Runs.{Finishes}
use pixel_beetle.Bot.Load.Queue.Ends.{paint_start-Finishes}
use pixel_beetle.Bot.Load.{Config, last_dot, path_ext, load_paint}
use pixel_beetle.Bot.Load.Queue.{PaintConfig, running, paint_start}
use pixel_beetle.Bot.Load.Queue.Started.{AreInRange, IsStarted, load_paint-paint_start}

abbrev no_image : List ℕ → Option Image
no_image bytes = none

abbrev art_file : List ℕ → Option (List ℕ)
art_file path = some (codes "legend: #=#888888 o=#222222\n#o\n.#\n")

abbrev art_config : Config
art_config = record {
  grid_w = 5;
  grid_h = 4;
  blueprint_path = codes "art/a.txt";
  draws = [];
  paint_size = none;
  paint_offset = none;
}

abbrev random_run : PaintConfig
random_run = record {
  config = art_config;
  paint_order = codes "random";
  paint_workers = pos 0;
  direct = true;
}

abbrev three_cells : Blueprint
three_cells = record {
  w = 2;
  h = 2;
  placements =
      record { x = 0; y = 0; color = 2 }
      ∷ record { x = 1; y = 0; color = 3 }
      ∷ record { x = 1; y = 1; color = 2 }
      ∷ [];
}

test_path_ext : path_ext (codes "art.d/a.txt") ≡ codes ".txt"
unfolding path_ext last_dot
test_path_ext = refl

three_cells-loaded :
    load_paint art_file no_image (λ s. s) (λ s. s) (λ s. s) (λ s. []) art_config ≡ inr three_cells
unfolding load_paint lookup insert
three_cells-loaded = refl

-- The first two of a list of two or more.
abbrev first_two : ℕ → List (ℕ × ℕ)
first_two zero = []
first_two (suc zero) = []
first_two (suc (suc n)) = (0, 1) ∷ []

first_two-AreInRange : AreInRange first_two
first_two-AreInRange zero = tt
first_two-AreInRange (suc zero) = tt
first_two-AreInRange (suc (suc n)) = (omega arith, omega arith, tt)

-- Counts the accounts and the transfers.
abbrev counting : TbServer (ℕ × ℕ)
counting = record {
  create_accounts =
      λ accounts s. (some (map (λ a. account_created) accounts), (s.0 + length accounts, s.1));
  create_transfers = λ ts s. (some (map (λ t. transfer_created) ts), (s.0, s.1 + length ts));
  query_transfers = λ q s. none;
}

load_paint-paint_start_example :
    IsStarted sample_tb counting random_run three_cells
      (0, 0)
      (paint_start sample_tb counting first_two random_run three_cells (0, 0))
load_paint-paint_start_example =
    load_paint-paint_start art_file no_image (λ s. s) (λ s. s) (λ s. s) (λ s. []) sample_tb counting
      first_two random_run three_cells (0, 0) first_two-AreInRange three_cells-loaded

-- The queue in the exchanged order.
abbrev three_jobs : Pool
three_jobs = seeded (
    record { x = 2; y = 1; color = 3 }
    ∷ record { x = 1; y = 1; color = 2 }
    ∷ record { x = 2; y = 2; color = 2 }
    ∷ [])

-- The pool's account and three more, and three transfers.
test_paint_start :
    paint_start sample_tb counting first_two random_run three_cells (0, 0)
    ≡ (running 16 three_jobs, (4, 3))
unfolding paint_start create_accounts account_errors submit_batch submit_errors status_error
test_paint_start = refl

abbrev first_job : PaintJob
first_job = fresh_job (record { x = 2; y = 1; color = 3 })

abbrev later_jobs : List PaintJob
later_jobs =
    fresh_job (record { x = 1; y = 1; color = 2 })
    ∷ fresh_job (record { x = 2; y = 2; color = 2 })
    ∷ []

-- A worker has taken the first job.
abbrev one_taken : Pool
one_taken = taken_job first_job later_jobs three_jobs

one_taken-PoolRun : PoolRun 16 three_jobs one_taken 1
unfolding seeded
one_taken-PoolRun = next stop (take_job first_job later_jobs refl (omega arith))

paint_start-Finishes_example :
    (1 ≤ 12 * three_jobs.remaining)
    × Finishes 16 one_taken
    × (((u : Pool) → ¬ PoolStep 16 one_taken u)
        → (one_taken.done ≡ true) × (one_taken.remaining ≡ 0))
paint_start-Finishes_example =
    paint_start-Finishes sample_tb counting first_two random_run three_cells (0, 0) 16 three_jobs
      (ap (λ out. out.0) test_paint_start) one_taken-PoolRun
