-- ===== src/Game/Interleaving/Steps.antt =====
-- Each step of the interleaved critical sections of internal/game/game.go keeps the claims indexed.
use pixel_beetle.Prelude.{
  ℕ, ◌≡◌, ◌≢◌, ◌⊎◌, refl, subst, inl, inr, Option, none, some, Table, arith, lookup, insert, erase,
  ◌==◌, Bool-cases, Bool-cases, Option-cases, lookup-insert, lookup-erase,
}
use pixel_beetle.Game.Registry.{ClaimMeta, Registry, key_of, Superseded, superseded, rollback}
use pixel_beetle.Game.Registry.Wf.{vacate-IsIndexed}
use pixel_beetle.Game.Registry.Reserve.{superseded-cases, reserve-IsIndexed}
use pixel_beetle.Game.Registry.Rollback.{CanRestore, rollback-IsIndexed}
use pixel_beetle.Game.Registry.ReapLoop.{reap-IsIndexed}
use pixel_beetle.Game.Interleaving.{
  Attempt, Shared, begin, fail, attempt, Step, begin_step, succeed_step, fail_step, vacate_step,
  reap_step, Reach, start, next, initial,
}
use pixel_beetle.Game.Interleaving.Safety.{
  vacate-Within, reap-Within, claims-reserve, OldIssued, IsAttempt, IsSafe, drop-IsSafe,
  succeed-IsSafe,
}

superseded-OldIssued :
    (id : ℕ) (m : ClaimMeta) (s : Shared)
    → IsSafe s
    → lookup id s.issued ≡ none
    → OldIssued m.player id (superseded m.player s.registry) (insert id m s.issued)
superseded-OldIssued id m s h fresh = elim (superseded-cases m.player s.registry h.index) [
  | inl (no_old, idle) ↦ rw no_old tt
  | inr (oid, om, old, found, e, mine) ↦ rw old (
    mine,
    ground (arith, lookup-insert id oid m s.issued, h.known oid om e),
    ground (arith, h.known oid om e),
  )
]

keep-OldIssued :
    (p id i : ℕ) (m : ClaimMeta) (o : Option Superseded) (t : Table ClaimMeta)
    → lookup i t ≡ none
    → OldIssued p id o t
    → OldIssued p id o (insert i m t)
keep-OldIssued p id i m none t fresh k = tt
keep-OldIssued p id i m (some o) t fresh (mine, entered, other) =
    (mine, ground (arith, lookup-insert i o.id m t), other)

begin-IsAttempt :
    (id : ℕ) (m : ClaimMeta) (expires : ℕ) (s : Shared)
    → IsSafe s
    → lookup id s.issued ≡ none
    → IsAttempt m.player (attempt id m s.registry) (begin id m expires s)
begin-IsAttempt id m expires s h fresh = record {
  mine = refl;
  entered = ground (arith, lookup-insert id id m s.issued);
  kept = superseded-OldIssued id m s h fresh;
  only = λ i n g e. elim (claims-reserve id m expires s.registry i n h.index g) [
    | inl (new, _) ↦ new
    | inr (other, _) ↦ absurd (other e)
  ];
}

waits-IsAttempt :
    (id : ℕ) (m : ClaimMeta) (expires p : ℕ) (a : Attempt) (s : Shared)
    → IsSafe s
    → lookup id s.issued ≡ none
    → m.player ≢ p
    → IsAttempt p a s
    → IsAttempt p a (begin id m expires s)
waits-IsAttempt id m expires p a s h fresh other b = record {
  mine = b.mine;
  entered = ground (arith, b.entered, lookup-insert id a.id m s.issued);
  kept = keep-OldIssued p a.id id m a.old s.issued fresh b.kept;
  only = λ i n g e. elim (claims-reserve id m expires s.registry i n h.index g) [
    | inl (_, new) ↦ absurd (other (ground arith))
    | inr (_, old) ↦ b.only i n old e
  ];
}

fresh-claims :
    (id : ℕ) (s : Shared)
    → IsSafe s
    → lookup id s.issued ≡ none
    → lookup id s.registry.claims ≡ none
fresh-claims id s h fresh = elim (Option-cases (lookup id s.registry.claims)) [
  | inl e ↦ e
  | inr (n, e) ↦ absurd (ground (arith, h.known id n e))
]

begin-IsSafe :
    (id : ℕ) (m : ClaimMeta) (expires : ℕ) (s : Shared)
    → IsSafe s
    → lookup id s.issued ≡ none
    → IsSafe (begin id m expires s)
begin-IsSafe id m expires s h fresh = record {
  index = reserve-IsIndexed id m expires s.registry h.index (fresh-claims id s h fresh);
  known = λ i n g. elim (claims-reserve id m expires s.registry i n h.index g) [
    | inl (new, e) ↦ ground (arith, lookup-insert id i m s.issued)
    | inr (_, old) ↦ ground (arith, lookup-insert id i m s.issued, h.known i n old)
  ];
  waiting = λ p a g. elim (Bool-cases (m.player == p)) [
    | inl mine ↦
        let e : m.player ≡ p = ground arith in
        let same : attempt id m s.registry ≡ a =
          ground (arith, lookup-insert m.player p (attempt id m s.registry) s.attempts) in
        subst (λ q. IsAttempt q a (begin id m expires s)) e
          (subst (λ b. IsAttempt m.player b (begin id m expires s)) same
            (begin-IsAttempt id m expires s h fresh))
    | inr other ↦ waits-IsAttempt id m expires p a s h fresh (ground arith) (
        h.waiting p a
          (ground (arith, lookup-insert m.player p (attempt id m s.registry) s.attempts)))
  ];
}

-- The claims after a rollback: those before it but the failed one, and the restored one.
claims-rollback :
    (id : ℕ) (m : ClaimMeta) (old : Option Superseded) (r : Registry) (i : ℕ) (n : ClaimMeta)
    → lookup i (rollback id m old r).claims ≡ some n
    → ((i ≢ id) × (lookup i r.claims ≡ some n))
      ⊎ ((o : Superseded) × (old ≡ some o) × (i ≡ o.id) × (n ≡ o.meta))
unfolding rollback
claims-rollback id m none r i n f =
    inl (ground (arith, lookup-erase id i r.claims), ground (arith, lookup-erase id i r.claims))
claims-rollback id m (some o) r i n f = elim (Bool-cases (o.id == i)) [
  | inl restored ↦
      inr (o, refl, ground arith, ground (arith, lookup-insert o.id i o.meta (erase id r.claims)))
  | inr other ↦
      let g : lookup i (erase id r.claims) ≡ some n =
        ground (arith, lookup-insert o.id i o.meta (erase id r.claims)) in
      inl (ground (arith, lookup-erase id i r.claims), ground (arith, lookup-erase id i r.claims))
]

can_restore :
    (p : ℕ) (a : Attempt) (s : Shared)
    → IsSafe s
    → IsAttempt p a s
    → CanRestore a.id a.meta a.old s.registry
can_restore p a s h b = go a.old b.kept
  where
    go : (o : Option Superseded) → OldIssued p a.id o s.issued → CanRestore a.id a.meta o s.registry
    go none k = tt
    go (some o) (mine, entered, other) = (
      ground (arith, b.mine),
      elim (Option-cases (lookup o.id s.registry.claims)) [
        | inl gone ↦ gone
        | inr (n, e) ↦ absurd (other (b.only o.id n e (ground (arith, h.known o.id n e))))
      ],
    )

fail-IsSafe :
    (p : ℕ) (a : Attempt) (s : Shared)
    → IsSafe s
    → lookup p s.attempts ≡ some a
    → IsSafe (fail p a s)
fail-IsSafe p a s h at =
    let b = h.waiting p a at in
    record {
      index =
          rollback-IsIndexed a.id a.meta s.registry h.index
            (λ i n f e. b.only i n f (ground (arith, b.mine)))
            (λ n f. ground (arith, b.mine, b.entered, h.known a.id n f)) a.old
            (can_restore p a s h b);
      known = λ i n f. elim (claims-rollback a.id a.meta a.old s.registry i n f) [
        | inl (_, old) ↦ h.known i n old
        | inr (o, kept, e, same) ↦
            let (mine, entered, other) = subst (λ x. OldIssued p a.id x s.issued) kept b.kept in
            ground (arith, entered)
      ];
      waiting = λ q c f.
          let c' = h.waiting q c (ground (arith, lookup-erase p q s.attempts)) in
          record {
            mine = c'.mine;
            entered = c'.entered;
            kept = c'.kept;
            only = λ i n g e. elim (claims-rollback a.id a.meta a.old s.registry i n g) [
              | inl (_, old) ↦ c'.only i n old e
              | inr (o, kept, _, same) ↦
                  let (mine, entered, other) =
                    subst (λ x. OldIssued p a.id x s.issued) kept b.kept in
                  absurd (ground (arith, mine, lookup-erase p q s.attempts))
            ];
          };
    }

pub Step-IsSafe : {s t : Shared} → Step s t → IsSafe s → IsSafe t
Step-IsSafe (begin_step s id m now expires idle fresh free) h = begin-IsSafe id m expires s h fresh
Step-IsSafe (succeed_step s p) h = succeed-IsSafe s p h
Step-IsSafe (fail_step s p a at) h = fail-IsSafe p a s h at
Step-IsSafe (vacate_step s id m entered) h =
    drop-IsSafe s _ h (vacate-IsIndexed id (key_of m) s.registry h.index)
      (vacate-Within id (key_of m) s.registry)
Step-IsSafe (reap_step s now ks) h =
    drop-IsSafe s _ h (reap-IsIndexed now ks s.registry h.index) (reap-Within now ks s.registry)

initial-IsSafe : IsSafe initial
unfolding lookup
initial-IsSafe = record {
  index = record { indexed = λ i n f. cc; backed = λ p i f. cc };
  known = λ i n f. cc;
  waiting = λ p a f. absurd (cc);
}

Reach-IsSafe : {s : Shared} → Reach s → IsSafe s
Reach-IsSafe start = initial-IsSafe
Reach-IsSafe (next r st) = Step-IsSafe st (Reach-IsSafe r)

-- In every state that interleaved requests reach, as long as no player has two `Claim` requests in
-- flight at once, two claims of one player are the same claim, and the players' index names it.
pub Reach-one_claim :
    {s : Shared} (i j : ℕ) (n n' : ClaimMeta)
    → Reach s
    → lookup i s.registry.claims ≡ some n
    → lookup j s.registry.claims ≡ some n'
    → n.player ≡ n'.player
    → (i ≡ j) × (lookup n.player s.registry.by_player ≡ some i)
Reach-one_claim {s} i j n n' r f g same =
    let h = (Reach-IsSafe r).index in
    (ground (arith, h.indexed i n f, h.indexed j n' g), h.indexed i n f)
