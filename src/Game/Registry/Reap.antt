-- ===== src/Game/Registry/Reap.antt =====
-- One round of the loop of `ReapExpired` (internal/game/game.go) at an expired lock.
use pixel_beetle.Prelude.{
  ℕ, ◌≡◌, inl, inr, true, none, some, arith, lookup, erase, ◌==◌, if◌then◌else◌, Bool-cases,
  Option-cases, lookup-erase,
}
use pixel_beetle.Game.Registry.{
  Lock, ClaimMeta, Registry, key_of, vacate, vacate_found, reap_claim, reap_lock, is_id,
}
use pixel_beetle.Game.Registry.Wf.{IsIndexed, IsLocked, vacate-IsIndexed, vacate_found-IsLocked}

-- The claim that `reap_claim` vacates, if any, is the lock holder's active one.
reap_claim-IsIndexed :
    (k : ℕ) (l : Lock) (r : Registry) → IsIndexed r → IsIndexed (reap_claim k l r)
reap_claim-IsIndexed k l r h = elim (Option-cases (lookup l.player r.by_player)) [
  | inl idle ↦ rw (idle, reap_claim) h
  | inr (id, found) ↦ elim (Option-cases (lookup id r.claims)) [
    | inl missing ↦ rw (found, reap_claim) (rw missing h)
    | inr (m, e) ↦ elim (Bool-cases (key_of m == k)) [
      | inl here ↦ rw (found, reap_claim) (rw e (rw here (vacate-IsIndexed id k r h)))
      | inr away ↦ rw (found, reap_claim) (rw e (rw away h))
    ]
  ]
]

reap_claim_of_locked :
    (k : ℕ) (l : Lock) (r : Registry)
    → IsIndexed r
    → IsLocked r
    → lookup k r.locks ≡ some l
    → (id : ℕ) × (m : ClaimMeta) × (lookup id r.claims ≡ some m)
      × (m.player ≡ l.player)
      × (key_of m ≡ k)
      × (reap_claim k l r ≡ vacate_found id k m r)
unfolding vacate
reap_claim_of_locked k l r h hl at = elim (Option-cases (lookup l.player r.by_player)) [
  | inl idle ↦ absurd (ground (arith, hl k l at))
  | inr (id, found) ↦ elim (Option-cases (lookup id r.claims)) [
    | inl missing ↦ absurd (ground (arith, hl k l at))
    | inr (m, e) ↦
        let here : (key_of m == k) ≡ true = ground (arith, hl k l at) in
        (
          id,
          m,
          e,
          ground (arith, h.backed l.player id found),
          ground (arith, hl k l at),
          rw (found, reap_claim) (rw e (rw here (rw (e, vacate)))),
        )
  ]
]

-- One round at an expired lock: its entry goes, with the claim of its holder, and no other.
pub reap_lock-IsIndexed :
    (k : ℕ) (l : Lock) (r : Registry) → IsIndexed r → IsIndexed (reap_lock k l r)
unfolding reap_lock
reap_lock-IsIndexed k l r h =
    let h' = reap_claim-IsIndexed k l r h in record { indexed = h'.indexed; backed = h'.backed }

unlock-IsLocked :
    (k : ℕ) (r : Registry) → IsLocked r → IsLocked (record r { locks = erase k r.locks })
unlock-IsLocked k r hl j l f = ground (arith, hl j l, lookup-erase k j r.locks)

pub reap_lock-IsLocked :
    (k : ℕ) (l : Lock) (r : Registry)
    → IsIndexed r
    → IsLocked r
    → lookup k r.locks ≡ some l
    → IsLocked (reap_lock k l r)
unfolding reap_lock
reap_lock-IsLocked k l r h hl at =
    let (id, m, e, mine, here, claim) = reap_claim_of_locked k l r h hl at in
    unlock-IsLocked k (reap_claim k l r) (rw claim (vacate_found-IsLocked id k m r h hl e here))

pub locks-reap_lock :
    (k j : ℕ) (l : Lock) (r : Registry)
    → IsIndexed r
    → IsLocked r
    → lookup k r.locks ≡ some l
    → lookup j (reap_lock k l r).locks ≡ (if k == j then none else lookup j r.locks)
unfolding reap_lock
locks-reap_lock k j l r h hl at =
    let (id, m, e, mine, here, claim) = reap_claim_of_locked k l r h hl at in
    rw claim (ground (arith, lookup-erase k j r.locks, lookup-erase k j (erase k r.locks)))

pub claims-reap_lock :
    (k i : ℕ) (l : Lock) (r : Registry)
    → IsIndexed r
    → IsLocked r
    → lookup k r.locks ≡ some l
    → lookup i (reap_lock k l r).claims
      ≡ (if is_id i (lookup l.player r.by_player) then none else lookup i r.claims)
unfolding reap_lock
claims-reap_lock k i l r h hl at =
    let (id, m, e, mine, here, claim) = reap_claim_of_locked k l r h hl at in
    rw claim (ground (arith, lookup-erase id i r.claims, h.indexed id m e))
