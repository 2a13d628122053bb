-- ===== src/Bot/Paint/Workers.antt =====
-- The runs of the pool of workers of `paintRun` (internal/bot/paint.go): what holds in every state,
-- how many steps a run has, and where it stops.
use pixel_beetle.Prelude.{
  ℕ, suc, ◌+◌, ◌-◌, ◌*◌, ◌≤◌, ◌≡◌, refl, sym, ap, subst, ◌∙◌, ◌↔◌, inl, inr, Bool, true, false,
  List, [], ◌∷◌, ◌++◌, ltb, ◌==◌, if◌then◌else◌, arith, ltb→lt, Bool-cases, length, length-append,
}
use pixel_beetle.Bot.Paint.{
  PaintJob, Pool, ClaimOutcome, confirmed, locked, failed, record_failure, record_painted,
  finish_one, retry_or_give_up, settle, taken_job,
}

unfoldable pub sum_of : (PaintJob → ℕ) → List PaintJob → ℕ
sum_of f [] = 0
sum_of f (j ∷ l) = f j + sum_of f l

pub sum_of-split :
    (f : PaintJob → ℕ) (pre post : List PaintJob) (j : PaintJob) (l : List PaintJob)
    → l ≡ pre ++ j ∷ post
    → sum_of f l ≡ f j + sum_of f (pre ++ post)
unfolding sum_of
sum_of-split f [] post j l e = ap (sum_of f) e
sum_of-split f (k ∷ pre) post j l e =
    ap (sum_of f) e ∙ omega (arith, sum_of-split f pre post j (pre ++ j ∷ post) refl)

pub sum_of-snoc :
    (f : PaintJob → ℕ) (l : List PaintJob) (j : PaintJob)
    → sum_of f (l ++ j ∷ []) ≡ f j + sum_of f l
unfolding sum_of
sum_of-snoc f [] j = refl
sum_of-snoc f (k ∷ l) j = omega (arith, sum_of-snoc f l j)

length-split :
    (pre post : List PaintJob) (j : PaintJob) (l : List PaintJob)
    → l ≡ pre ++ j ∷ post
    → length l ≡ suc (length (pre ++ post))
length-split pre post j l e =
    ap length e ∙ omega (arith, length-append pre (j ∷ post), length-append pre post)

-- The claims that a job can still start, and those that it can behind the one in flight.
abbrev pub tries_left : PaintJob → ℕ
tries_left j = 4 - j.attempts

abbrev pub retries_left : PaintJob → ℕ
retries_left j = 3 - j.attempts

-- The attempts of a job, as a sum over the jobs: none is past the bound where it is 0.
abbrev pub excess : ℕ → PaintJob → ℕ
excess n j = j.attempts - n

-- What holds in every state of a run over `total` placements.
pub record IsPool (total : ℕ) (s : Pool) : Type 0 where
  pub count : s.remaining ≡ length s.jobs + length s.flying + length s.waiting
  pub ended : (s.done ≡ true) ↔ (s.remaining ≡ 0)
  pub tried :
      s.metrics.claims_started
      ≡ s.metrics.confirmed + s.metrics.lock_conflicts + s.metrics.errors + length s.flying
  pub shown : s.metrics.painted ≡ s.metrics.confirmed
  pub left : s.metrics.painted + s.remaining ≤ total
  pub budget :
      s.metrics.claims_started
        + sum_of tries_left s.jobs
        + sum_of retries_left s.flying
        + sum_of tries_left s.waiting
      ≤ 4 * total
  pub bounded :
      sum_of (excess 3) s.jobs + sum_of (excess 3) s.flying + sum_of (excess 3) s.waiting ≡ 0

pub taken_job-IsPool :
    (total : ℕ) (s : Pool) (j : PaintJob) (rest : List PaintJob)
    → s.jobs ≡ j ∷ rest
    → IsPool total s
    → IsPool total (taken_job j rest s)
unfolding taken_job sum_of
taken_job-IsPool total s j rest e i =
    let len = ap length e in
    let tries = ap (sum_of tries_left) e in
    let past = ap (sum_of (excess 3)) e in
    record {
      count = omega (arith, i.count, len);
      ended = i.ended;
      tried = omega (arith, i.tried);
      shown = i.shown;
      left = i.left;
      budget = omega (arith, i.budget, tries, past, i.bounded);
      bounded = omega (arith, past, i.bounded);
    }

pub push_back-IsPool :
    (total : ℕ) (s : Pool) (pre post : List PaintJob) (j : PaintJob)
    → s.waiting ≡ pre ++ j ∷ post
    → IsPool total s
    → IsPool total (record s { jobs = s.jobs ++ j ∷ []; waiting = pre ++ post })
unfolding sum_of
push_back-IsPool total s pre post j e i = record {
  count =
      omega (arith, i.count, length-split pre post j s.waiting e, length-append s.jobs (j ∷ []));
  ended = i.ended;
  tried = i.tried;
  shown = i.shown;
  left = i.left;
  budget = omega (
    arith,
    i.budget,
    sum_of-split tries_left pre post j s.waiting e,
    sum_of-snoc tries_left s.jobs j,
  );
  bounded = omega (
    arith,
    i.bounded,
    sum_of-split (excess 3) pre post j s.waiting e,
    sum_of-snoc (excess 3) s.jobs j,
  );
}

-- A state whose worker holds `j` with its outcome counted.
record IsHeld (total : ℕ) (j : PaintJob) (s : Pool) : Type 0 where
  count : s.remaining ≡ suc (length s.jobs + length s.flying + length s.waiting)
  running : s.done ≡ false
  tried :
      s.metrics.claims_started
      ≡ s.metrics.confirmed + s.metrics.lock_conflicts + s.metrics.errors + length s.flying
  shown : s.metrics.painted ≡ s.metrics.confirmed
  left : s.metrics.painted + (s.remaining - 1) ≤ total
  budget :
      s.metrics.claims_started
        + sum_of tries_left s.jobs
        + (retries_left j + sum_of retries_left s.flying)
        + sum_of tries_left s.waiting
      ≤ 4 * total
  bounded :
      sum_of (excess 3) s.jobs
        + (excess 3 j + sum_of (excess 3) s.flying)
        + sum_of (excess 3) s.waiting
      ≡ 0

finish_one-IsPool :
    (total : ℕ) (j : PaintJob) (s : Pool) → IsHeld total j s → IsPool total (finish_one s)
unfolding sum_of
finish_one-IsPool total j s i = record {
  count = omega (arith, i.count);
  ended = (
    λ d. elim (Bool-cases (s.remaining - 1 == 0)) [
      | inl t ↦ ground (arith, t)
      | inr t ↦ absurd (ground (arith, t, d, i.running))
    ],
    λ z. ground (arith, z),
  );
  tried = i.tried;
  shown = i.shown;
  left = i.left;
  budget = omega (arith, i.budget);
  bounded = omega (arith, i.bounded);
}

retry_or_give_up-IsPool :
    (total : ℕ) (j : PaintJob) (s : Pool)
    → IsHeld total j s
    → s.metrics.painted + s.remaining ≤ total
    → IsPool total (retry_or_give_up j s)
unfolding sum_of
retry_or_give_up-IsPool total j s i l = elim (Bool-cases (ltb j.attempts 3)) [
  | inl t ↦
      let lt = ltb→lt j.attempts 3 t in
      subst (IsPool total)
        (sym (
          ap
            (λ b.
              if b
              then record s { waiting = record j { attempts = j.attempts + 1 } ∷ s.waiting }
              else finish_one s)
            t))
        (record {
          count = omega (arith, i.count);
          ended =
              (λ d. absurd (ground (arith, d, i.running)), λ z. absurd (omega (arith, z, i.count)));
          tried = i.tried;
          shown = i.shown;
          left = l;
          budget = omega (arith, i.budget, lt);
          bounded = omega (arith, i.bounded, lt);
        })
  | inr t ↦
      subst (IsPool total)
        (sym (
          ap
            (λ b.
              if b
              then record s { waiting = record j { attempts = j.attempts + 1 } ∷ s.waiting }
              else finish_one s)
            t))
        (finish_one-IsPool total j s i)
]

still_open :
    (total : ℕ) (s : Pool) (n : ℕ) → IsPool total s → length s.flying ≡ suc n → s.done ≡ false
still_open total s n i e = elim (Bool-cases s.done) [
  | inl t ↦ absurd (omega (arith, i.ended.0 t, i.count, e))
  | inr t ↦ t
]

failed_job-IsHeld :
    (total : ℕ) (s : Pool) (pre post : List PaintJob) (j : PaintJob) (b : Bool)
    → s.flying ≡ pre ++ j ∷ post
    → IsPool total s
    → IsHeld total j (record s { flying = pre ++ post; metrics = record_failure b s.metrics })
failed_job-IsHeld total s pre post j b e i =
    let len = length-split pre post j s.flying e in
    record {
      count = omega (arith, i.count, len);
      running = still_open total s (length (pre ++ post)) i len;
      tried = ground (arith, i.tried, len);
      shown = ground (arith, i.shown);
      left = ground (arith, i.left);
      budget = ground (arith, i.budget, sum_of-split retries_left pre post j s.flying e);
      bounded = omega (arith, i.bounded, sum_of-split (excess 3) pre post j s.flying e);
    }

pub settle-IsPool :
    (total : ℕ) (s : Pool) (pre post : List PaintJob) (j : PaintJob) (o : ClaimOutcome)
    → s.flying ≡ pre ++ j ∷ post
    → IsPool total s
    → IsPool total (settle o j (record s { flying = pre ++ post }))
unfolding settle
settle-IsPool total s pre post j confirmed e i =
    let len = length-split pre post j s.flying e in
    let held : IsHeld total j
        (record s { flying = pre ++ post; metrics = record_painted s.metrics }) =
      record {
        count = omega (arith, i.count, len);
        running = still_open total s (length (pre ++ post)) i len;
        tried = omega (arith, i.tried, len);
        shown = omega (arith, i.shown);
        left = omega (arith, i.left, i.count, len);
        budget = omega (arith, i.budget, sum_of-split retries_left pre post j s.flying e);
        bounded = omega (arith, i.bounded, sum_of-split (excess 3) pre post j s.flying e);
      } in
    finish_one-IsPool total j
      (record s { flying = pre ++ post; metrics = record_painted s.metrics }) held
settle-IsPool total s pre post j locked e i =
    retry_or_give_up-IsPool total j
      (record s { flying = pre ++ post; metrics = record_failure true s.metrics })
      (failed_job-IsHeld total s pre post j true e i) i.left
settle-IsPool total s pre post j failed e i =
    retry_or_give_up-IsPool total j
      (record s { flying = pre ++ post; metrics = record_failure false s.metrics })
      (failed_job-IsHeld total s pre post j false e i) i.left
