-- ===== src/Bot/Paint/Runs.antt =====
-- How long the pool of workers of `paintRun` runs and where it stops (internal/bot/paint.go).
use pixel_beetle.Prelude.{
  ℕ, zero, suc, ◌+◌, ◌-◌, ◌*◌, ◌<◌, ◌≤◌, ◌≡◌, refl, ap, ◌⊎◌, inl, inr, true, false, List, [], ◌∷◌,
  ◌++◌, map, ltb, arith, Bool-cases, length,
}
use pixel_beetle.Bot.Blueprint.{Placement}
use pixel_beetle.Bot.Paint.{
  PaintJob, Pool, ClaimOutcome, confirmed, locked, failed, record_failure, retry_or_give_up, settle,
  fresh_job, seeded, taken_job, PoolStep, take_job, settle_job, push_back, PoolRun, stop, next,
}
use pixel_beetle.Bot.Paint.Workers.{
  sum_of, sum_of-split, sum_of-snoc, tries_left, excess, IsPool, taken_job-IsPool, push_back-IsPool,
  settle-IsPool,
}

sum_of-fresh :
    (f : PaintJob → ℕ) (n : ℕ) (ps : List Placement)
    → ((p : Placement) → f (fresh_job p) ≡ n)
    → sum_of f (map fresh_job ps) ≡ n * length ps
unfolding sum_of
sum_of-fresh f n [] h = omega arith
sum_of-fresh f n (p ∷ ps) h = grind (arith, h p, sum_of-fresh f n ps h)

length-fresh : (ps : List Placement) → length (map fresh_job ps) ≡ length ps
length-fresh [] = refl
length-fresh (p ∷ ps) = ap suc (length-fresh ps)

seeded-IsPool : (ps : List Placement) → 0 < length ps → IsPool (length ps) (seeded ps)
unfolding seeded sum_of
seeded-IsPool ps h = record {
  count = omega (arith, length-fresh ps);
  ended = (λ d. absurd (ground (arith, d)), λ z. absurd (omega (arith, z, h)));
  tried = refl;
  shown = refl;
  left = omega arith;
  budget = omega (arith, sum_of-fresh tries_left 4 ps (λ p. refl));
  bounded = omega (arith, sum_of-fresh (excess 3) 0 ps (λ p. refl));
}

PoolStep-IsPool :
    {workers total : ℕ} {s t : Pool} → PoolStep workers s t → IsPool total s → IsPool total t
PoolStep-IsPool {total = total} (take_job {s} j rest e w) i = taken_job-IsPool total s j rest e i
PoolStep-IsPool {total = total} (settle_job {s} pre post j o e) i =
    settle-IsPool total s pre post j o e i
PoolStep-IsPool {total = total} (push_back {s} pre post j e) i =
    push_back-IsPool total s pre post j e i

-- The steps that a job still takes, at most.
abbrev job_steps : PaintJob → ℕ
job_steps j = 3 * (4 - j.attempts)

abbrev flying_steps : PaintJob → ℕ
flying_steps j = 3 * (4 - j.attempts) - 1

abbrev waiting_steps : PaintJob → ℕ
waiting_steps j = 3 * (4 - j.attempts) + 1

abbrev steps_left : Pool → ℕ
steps_left s =
    sum_of job_steps s.jobs + sum_of flying_steps s.flying + sum_of waiting_steps s.waiting

retry_steps :
    (j : PaintJob) (s : Pool)
    → j.attempts ≤ 3
    → suc (steps_left (retry_or_give_up j s)) ≤ steps_left s + flying_steps j
unfolding sum_of
retry_steps j s h = elim (Bool-cases (ltb j.attempts 3)) [
  | inl t ↦ ground (arith, t)
  | inr t ↦ ground (arith, t, h)
]

settle_steps :
    (j : PaintJob) (s : Pool) (o : ClaimOutcome)
    → j.attempts ≤ 3
    → suc (steps_left (settle o j s)) ≤ steps_left s + flying_steps j
unfolding settle sum_of
settle_steps j s confirmed h = omega (arith, h)
settle_steps j s locked h = retry_steps j (record s { metrics = record_failure true s.metrics }) h
settle_steps j s failed h = retry_steps j (record s { metrics = record_failure false s.metrics }) h

PoolStep-steps_left :
    {workers total : ℕ} {s t : Pool}
    → PoolStep workers s t
    → IsPool total s
    → suc (steps_left t) ≤ steps_left s
unfolding taken_job sum_of
PoolStep-steps_left (take_job {s} j rest e w) i =
    omega (arith, ap (sum_of job_steps) e, ap (sum_of (excess 3)) e, i.bounded)
PoolStep-steps_left (settle_job {s} pre post j o e) i = omega (
  arith,
  settle_steps j (record s { flying = pre ++ post }) o
      (omega (arith, sum_of-split (excess 3) pre post j s.flying e, i.bounded)),
  sum_of-split flying_steps pre post j s.flying e,
)
PoolStep-steps_left (push_back {s} pre post j e) i =
    omega (arith, sum_of-split waiting_steps pre post j s.waiting e, sum_of-snoc job_steps s.jobs j)

PoolRun-steps_left :
    {workers total : ℕ} {s t : Pool} {n : ℕ}
    → IsPool total s
    → PoolRun workers s t n
    → IsPool total t × (n + steps_left t ≤ steps_left s)
PoolRun-steps_left i stop = (i, omega arith)
PoolRun-steps_left i (next r t) =
    let (k, l) = PoolRun-steps_left i r in
    (PoolStep-IsPool t k, omega (arith, l, PoolStep-steps_left t k))

-- In every state that the workers reach: the counter is the number of open placements and the end
-- is signalled exactly when it is 0; every claim has been counted once, and there are
-- at most four for each placement.
pub PoolRun-IsPool :
    (workers : ℕ) (ps : List Placement) {s : Pool} {n : ℕ}
    → 0 < length ps
    → PoolRun workers (seeded ps) s n
    → IsPool (length ps) s
PoolRun-IsPool workers ps h r = (PoolRun-steps_left (seeded-IsPool ps h) r).0

-- A run of the workers has at most twelve steps for each placement, whatever the outcomes are.
pub PoolRun-bounded :
    (workers : ℕ) (ps : List Placement) {s : Pool} {n : ℕ}
    → 0 < length ps
    → PoolRun workers (seeded ps) s n
    → n ≤ 12 * length ps
unfolding seeded sum_of
PoolRun-bounded workers ps h r =
    omega (
      arith,
      (PoolRun-steps_left (seeded-IsPool ps h) r).1,
      sum_of-fresh job_steps 12 ps (λ p. refl),
    )

List-cases : (l : List PaintJob) → (l ≡ []) ⊎ ((j : PaintJob) × (r : List PaintJob) × (l ≡ j ∷ r))
List-cases [] = inl refl
List-cases (j ∷ r) = inr (j, r, refl)

-- A state that is not the end has a next one.
progress :
    (workers total : ℕ) (s : Pool)
    → 0 < workers
    → IsPool total s
    → (s.done ≡ true) ⊎ ((t : Pool) × PoolStep workers s t)
progress workers total s h i = elim (List-cases s.flying) [
  | inr (j, r, e) ↦
      inr (settle confirmed j (record s { flying = [] ++ r }), settle_job [] r j confirmed e)
  | inl f ↦ elim (List-cases s.jobs) [
    | inr (j, r, e) ↦ inr (taken_job j r s, take_job j r e (omega (arith, h, ap length f)))
    | inl q ↦ elim (List-cases s.waiting) [
      | inr (j, r, e) ↦
          inr (record s { jobs = s.jobs ++ j ∷ []; waiting = [] ++ r }, push_back [] r j e)
      | inl w ↦ inl (i.ended.1 (omega (arith, i.count, ap length f, ap length q, ap length w)))
    ]
  ]
]

abbrev pub Finishes : ℕ → Pool → Type 0
Finishes workers s = (u : Pool) × (m : ℕ) × PoolRun workers s u m × (u.done ≡ true)

finish :
    (workers total fuel : ℕ) {s t : Pool} {n : ℕ}
    → 0 < workers
    → PoolRun workers s t n
    → IsPool total t
    → steps_left t ≤ fuel
    → Finishes workers s
finish workers total zero {s} {t} {n} h r i l = elim (progress workers total t h i) [
  | inl d ↦ (t, n, r, d)
  | inr (u, k) ↦ absurd (omega (arith, l, PoolStep-steps_left k i))
]
finish workers total (suc fuel) {s} {t} {n} h r i l = elim (progress workers total t h i) [
  | inl d ↦ (t, n, r, d)
  | inr (u, k) ↦
      finish workers total fuel h (next r k) (PoolStep-IsPool k i)
        (omega (arith, l, PoolStep-steps_left k i))
]

-- From every state that the workers reach, whatever failed before, the run can be finished; and
-- where no step is left it is finished: no placement is open and the end is signalled. There is at
-- least one placement and one worker.
pub PoolRun-Finishes :
    (workers : ℕ) (ps : List Placement) {s : Pool} {n : ℕ}
    → 0 < workers
    → 0 < length ps
    → PoolRun workers (seeded ps) s n
    → Finishes workers s
      × (((t : Pool) → ¬ PoolStep workers s t) → (s.done ≡ true) × (s.remaining ≡ 0))
PoolRun-Finishes workers ps {s} h k r =
    let i = PoolRun-IsPool workers ps k r in
    (
      finish workers (length ps) (steps_left s) h stop i (omega arith),
      λ f. elim (progress workers (length ps) s h i) [
        | inl d ↦ (d, i.ended.0 d)
        | inr (t, x) ↦ absurd (f t x)
      ],
    )
