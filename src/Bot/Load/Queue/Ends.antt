-- ===== src/Bot/Load/Queue/Ends.antt =====
-- A run of the painter from its start to its end (internal/bot/paint.go).
use pixel_beetle.Prelude.{
  ℕ, zero, suc, ◌*◌, ◌<◌, ◌≤◌, ◌≡◌, refl, sym, subst, map, Option, none, some, true, List, [], ◌∷◌,
  length, ℤ, pos, negsuc, arith,
}
use pixel_beetle.TbClient.External.{TbLib, TbServer}
use pixel_beetle.TbClient.Client.{TbError}
use pixel_beetle.Bot.Blueprint.{Placement, Blueprint}
use pixel_beetle.Bot.Paint.{Pool, seeded, PoolStep, PoolRun, resolve_paint_offset, shifted}
use pixel_beetle.Bot.Paint.Runs.{Finishes, PoolRun-bounded, PoolRun-Finishes}
use pixel_beetle.Bot.Load.Queue.{
  PaintConfig, Start, refused, panicked, idle, unprovisioned, running, worker_count, ordered,
  ordered_from, provision, provisioned, queued, placed_at, paint_start,
}

worker_count-positive : (n : ℤ) → 0 < worker_count n
unfolding worker_count
worker_count-positive (pos zero) = omega arith
worker_count-positive (pos (suc n)) = omega arith
worker_count-positive (negsuc n) = omega arith

-- A start that runs has a worker at least and a queue that is not empty.
IsRunnable : Start → Type 0
IsRunnable refused = Unit
IsRunnable panicked = Unit
IsRunnable idle = Unit
IsRunnable (unprovisioned e) = Unit
IsRunnable (running workers pool) =
    (0 < workers) × ((ps : List Placement) × (0 < length ps) × (pool ≡ seeded ps))

ordered_from-IsRunnable :
    (workers : ℕ) (ps : List Placement) → 0 < workers → IsRunnable (ordered_from workers ps)
unfolding IsRunnable
ordered_from-IsRunnable workers [] h = tt
ordered_from-IsRunnable workers (p ∷ ps) h = (h, (p ∷ ps, omega arith, refl))

module _ {S : Type 0} (tb : TbLib) (server : TbServer S) where
  provisioned-IsRunnable :
      (workers : ℕ) (ps : List Placement) (out : Option TbError × S)
      → 0 < workers
      → IsRunnable (provisioned tb server workers ps out).0
  unfolding IsRunnable
  provisioned-IsRunnable workers ps (none, s) h = ordered_from-IsRunnable workers ps h
  provisioned-IsRunnable workers ps (some e, s) h = tt

  queued-IsRunnable :
      (cfg : PaintConfig) (o : Option (List Placement)) (s : S)
      → IsRunnable (queued tb server cfg o s).0
  unfolding IsRunnable
  queued-IsRunnable cfg none s = tt
  queued-IsRunnable cfg (some ps) s =
      provisioned-IsRunnable (worker_count cfg.paint_workers) ps
        (provision tb server cfg.direct ps s) (worker_count-positive cfg.paint_workers)

  placed_at-IsRunnable :
      (shuffled : ℕ → List (ℕ × ℕ)) (cfg : PaintConfig) (bp : Blueprint) (o : Option (ℕ × ℕ))
      (s : S)
      → IsRunnable (placed_at tb server shuffled cfg bp o s).0
  unfolding IsRunnable
  placed_at-IsRunnable shuffled cfg bp none s = tt
  placed_at-IsRunnable shuffled cfg bp (some off) s =
      queued-IsRunnable cfg (ordered shuffled cfg.paint_order (map (shifted off) bp.placements)) s

  -- Whatever number of workers is configured: where a run starts, its workers take at most twelve steps
  -- for each placement of the queue; from every state that they reach the run can be finished; and
  -- where no step is left, no placement is open and the end is signalled.
  pub paint_start-Finishes :
      (shuffled : ℕ → List (ℕ × ℕ)) (cfg : PaintConfig) (bp : Blueprint) (s : S) (workers : ℕ)
      (pool : Pool) {t : Pool} {n : ℕ}
      → (paint_start tb server shuffled cfg bp s).0 ≡ running workers pool
      → PoolRun workers pool t n
      → (n ≤ 12 * pool.remaining)
        × Finishes workers t
        × (((u : Pool) → ¬ PoolStep workers t u) → (t.done ≡ true) × (t.remaining ≡ 0))
  unfolding paint_start IsRunnable seeded
  paint_start-Finishes shuffled cfg bp s workers pool {t} {n} e r =
      let (h, (ps, k, f)) = subst IsRunnable e (
        placed_at-IsRunnable shuffled cfg bp
          (resolve_paint_offset cfg.config.paint_offset cfg.config.grid_w cfg.config.grid_h bp)
          s) in
      let r' = subst (λ q. PoolRun workers q t n) f r in
      let (finishes, stuck) = PoolRun-Finishes workers ps h k r' in
      (subst (λ q. n ≤ 12 * q.remaining) (sym f) (PoolRun-bounded workers ps k r'), finishes, stuck)
