-- ===== src/Game/Interleaving/Safety.antt =====
-- The index of the claims (byPlayer and claims of internal/game/game.go) under every interleaving of
-- the critical sections.
use pixel_beetle.Prelude.{
  ℕ, ◌≡◌, ◌≢◌, ◌⊎◌, ap, inl, inr, Option, none, some, List, [], ◌∷◌, Table, arith, lookup, erase,
  ltb, ◌==◌, if◌then◌else◌, Bool-cases, Option-cases, lookup-insert, lookup-erase,
}
use pixel_beetle.Game.Registry.{
  Lock, ClaimMeta, Registry, key_of, vacate, Superseded, superseded, vacate_old, reserve,
  reap_claim, reap_lock, reap_at, reap,
}
use pixel_beetle.Game.Registry.Wf.{IsIndexed}
use pixel_beetle.Game.Registry.Reserve.{vacated-idle, vacate_old-IsIndexed}
use pixel_beetle.Game.Interleaving.{Attempt, Shared}

-- No claim of `r` that `s` does not have.
abbrev pub Within : Registry → Registry → Type 0
Within r s = (i : ℕ) (n : ClaimMeta) → lookup i r.claims ≡ some n → lookup i s.claims ≡ some n

pub claims-vacate :
    (id k i : ℕ) (r : Registry)
    → lookup i (vacate id k r).claims ≡ (if id == i then none else lookup i r.claims)
unfolding vacate
claims-vacate id k i r = elim (Option-cases (lookup id r.claims)) [
  | inl missing ↦ rw (missing, vacate) (ground arith)
  | inr (m, e) ↦ rw (e, vacate) (lookup-erase id i r.claims)
]

pub vacate-Within : (id k : ℕ) (r : Registry) → Within (vacate id k r) r
vacate-Within id k r i n f = ground (arith, claims-vacate id k i r)

reap_claim-Within : (k : ℕ) (l : Lock) (r : Registry) → Within (reap_claim k l r) r
reap_claim-Within k l r = elim (Option-cases (lookup l.player r.by_player)) [
  | inl idle ↦ rw (idle, reap_claim) (λ i n f. f)
  | inr (id, found) ↦ elim (Option-cases (lookup id r.claims)) [
    | inl missing ↦ rw (found, reap_claim) (rw missing (λ i n f. f))
    | inr (m, e) ↦ elim (Bool-cases (key_of m == k)) [
      | inl here ↦ rw (found, reap_claim) (rw e (rw here (vacate-Within id k r)))
      | inr away ↦ rw (found, reap_claim) (rw e (rw away (λ i n f. f)))
    ]
  ]
]

reap_at-Within : (now k : ℕ) (r : Registry) → Within (reap_at now k (lookup k r.locks) r).0 r
unfolding reap_lock
reap_at-Within now k r = elim (Option-cases (lookup k r.locks)) [
  | inl free ↦ rw (free, reap_at) (λ i n f. f)
  | inr (l, at) ↦ elim (Bool-cases (ltb l.expires now)) [
    | inl dead ↦ rw (at, reap_at) (rw dead (reap_claim-Within k l r))
    | inr alive ↦ rw (at, reap_at) (rw alive (λ i n f. f))
  ]
]

pub reap-Within : (now : ℕ) (ks : List ℕ) (r : Registry) → Within (reap now ks r).0 r
unfolding reap
reap-Within now [] r i n f = f
reap-Within now (k ∷ ks) r i n f = reap_at-Within now k r i n (reap-Within now ks _ i n f)

vacate_old-Within : (o : Option Superseded) (r : Registry) → Within (vacate_old o r) r
vacate_old-Within none r i n f = f
vacate_old-Within (some o) r i n f = vacate-Within o.id (key_of o.meta) r i n f

-- The claims after `reserve`: the new one, and those of other players.
pub claims-reserve :
    (id : ℕ) (m : ClaimMeta) (expires : ℕ) (r : Registry) (i : ℕ) (n : ClaimMeta)
    → IsIndexed r
    → lookup i (reserve id m expires r).claims ≡ some n
    → ((i ≡ id) × (n ≡ m)) ⊎ ((n.player ≢ m.player) × (lookup i r.claims ≡ some n))
unfolding reserve
claims-reserve id m expires r i n h f =
    let r0 = vacate_old (superseded m.player r) r in
    elim (Bool-cases (id == i)) [
      | inl new ↦ inl (ground arith, ground (arith, lookup-insert id i m r0.claims))
      | inr old ↦
          let g : lookup i r0.claims ≡ some n = ground (arith, lookup-insert id i m r0.claims) in
          let j = (vacate_old-IsIndexed m.player r h).indexed i n g in
          inr (
            λ e. cc (ap (λ p. lookup p r0.by_player) e, vacated-idle m.player r h),
            vacate_old-Within (superseded m.player r) r i n g,
          )
    ]

-- What an attempt in flight keeps aside was a claim of its player, entered earlier under another id.
abbrev pub OldIssued : ℕ → ℕ → Option Superseded → Table ClaimMeta → Type 0
OldIssued p id none issued = Unit
OldIssued p id (some o) issued =
    (o.meta.player ≡ p) × (lookup o.id issued ≡ some o.meta) × (o.id ≢ id)

pub record IsAttempt (p : ℕ) (a : Attempt) (s : Shared) : Type 0 where
  pub mine : a.meta.player ≡ p
  pub entered : lookup a.id s.issued ≡ some a.meta
  pub kept : OldIssued p a.id a.old s.issued
  pub only : (i : ℕ) (n : ClaimMeta) → lookup i s.registry.claims ≡ some n → n.player ≡ p → i ≡ a.id

pub record IsSafe (s : Shared) : Type 0 where
  pub index : IsIndexed s.registry
  pub known :
      (i : ℕ) (n : ClaimMeta) → lookup i s.registry.claims ≡ some n → lookup i s.issued ≡ some n
  pub waiting : (p : ℕ) (a : Attempt) → lookup p s.attempts ≡ some a → IsAttempt p a s

-- A critical section that only drops claims.
pub drop-IsSafe :
    (s : Shared) (r : Registry)
    → IsSafe s
    → IsIndexed r
    → Within r s.registry
    → IsSafe (record s { registry = r })
drop-IsSafe s r h hr w = record {
  index = hr;
  known = λ i n f. h.known i n (w i n f);
  waiting = λ p a f.
      let b = h.waiting p a f in
      record {
        mine = b.mine;
        entered = b.entered;
        kept = b.kept;
        only = λ i n g. b.only i n (w i n g);
      };
}

-- The end of an attempt that leaves the tables alone.
pub succeed-IsSafe :
    (s : Shared) (p : ℕ) → IsSafe s → IsSafe (record s { attempts = erase p s.attempts })
succeed-IsSafe s p h = record {
  index = h.index;
  known = h.known;
  waiting = λ q a f.
      let b = h.waiting q a (ground (arith, lookup-erase p q s.attempts)) in
      record { mine = b.mine; entered = b.entered; kept = b.kept; only = b.only };
}
