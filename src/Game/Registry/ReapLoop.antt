-- ===== src/Game/Registry/ReapLoop.antt =====
-- The loop of `ReapExpired` (internal/game/game.go): what it leaves in the tables.
use pixel_beetle.Prelude.{
  ℕ, ◌≡◌, inl, inr, Bool, false, ◌&&◌, Option, none, some, List, [], ◌∷◌, Table, lookup, ltb, ◌==◌,
  if◌then◌else◌, contains, Bool-cases, Option-cases,
}
use pixel_beetle.Game.Registry.{Lock, ClaimMeta, Registry, key_of, reap_at, reap}
use pixel_beetle.Game.Registry.Wf.{IsIndexed, IsLocked}
use pixel_beetle.Game.Registry.Reap.{reap_lock-IsIndexed, reap_lock-IsLocked}

abbrev pub is_expired : ℕ → Option Lock → Bool
is_expired now none = false
is_expired now (some l) = ltb l.expires now

-- What stays of an entry of the lock table.
abbrev pub live : ℕ → Option Lock → Option Lock
live now none = none
live now (some l) = if ltb l.expires now then none else some l

-- One round of the loop, at any key.
reap_at-IsIndexed :
    (now k : ℕ) (r : Registry) → IsIndexed r → IsIndexed (reap_at now k (lookup k r.locks) r).0
reap_at-IsIndexed now k r h = elim (Option-cases (lookup k r.locks)) [
  | inl free ↦ rw (free, reap_at) h
  | inr (l, at) ↦ elim (Bool-cases (ltb l.expires now)) [
    | inl dead ↦ rw (at, reap_at) (rw dead (reap_lock-IsIndexed k l r h))
    | inr alive ↦ rw (at, reap_at) (rw alive h)
  ]
]

reap_at-IsLocked :
    (now k : ℕ) (r : Registry)
    → IsIndexed r
    → IsLocked r
    → IsLocked (reap_at now k (lookup k r.locks) r).0
reap_at-IsLocked now k r h hl = elim (Option-cases (lookup k r.locks)) [
  | inl free ↦ rw (free, reap_at) hl
  | inr (l, at) ↦ elim (Bool-cases (ltb l.expires now)) [
    | inl dead ↦ rw (at, reap_at) (rw dead (reap_lock-IsLocked k l r h hl at))
    | inr alive ↦ rw (at, reap_at) (rw alive hl)
  ]
]

pub reap-IsIndexed :
    (now : ℕ) (ks : List ℕ) (r : Registry) → IsIndexed r → IsIndexed (reap now ks r).0
unfolding reap
reap-IsIndexed now [] r h = h
reap-IsIndexed now (k ∷ ks) r h = reap-IsIndexed now ks _ (reap_at-IsIndexed now k r h)

pub reap-IsLocked :
    (now : ℕ) (ks : List ℕ) (r : Registry) → IsIndexed r → IsLocked r → IsLocked (reap now ks r).0
unfolding reap
reap-IsLocked now [] r h hl = hl
reap-IsLocked now (k ∷ ks) r h hl =
    reap-IsLocked now ks _ (reap_at-IsIndexed now k r h) (reap_at-IsLocked now k r h hl)

-- The claims after the loop.
abbrev pub is_stale_own : ℕ → ℕ → Option Lock → Bool
is_stale_own now player none = false
is_stale_own now player (some l) = ltb l.expires now && (l.player == player)

-- What stays of an entry of the claims.
abbrev pub reaped : ℕ → Table Lock → Option ClaimMeta → Option ClaimMeta
reaped now locks none = none
reaped now locks (some m) =
    if is_stale_own now m.player (lookup (key_of m) locks) then none else some m

pub record IsReaped (now : ℕ) (r : Registry) (result : Registry × List ℕ) : Type 0 where
  pub live_locks : (j : ℕ) → lookup j result.0.locks ≡ live now (lookup j r.locks)
  pub live_claims : (i : ℕ) → lookup i result.0.claims ≡ reaped now r.locks (lookup i r.claims)
  pub reported : (j : ℕ) → contains result.1 j ≡ is_expired now (lookup j r.locks)
  pub still_indexed : IsIndexed result.0
  pub still_locked : IsLocked result.0
