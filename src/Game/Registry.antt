-- ===== src/Game/Registry.antt =====
-- The in-memory tables of the claim service, internal/game/game.go: the lock table, the claims and
-- the players' index, and every critical section (the code between `s.mu.Lock()` and
-- `s.mu.Unlock()`) that changes them. A UUID and a `[16]byte` claim id are the numbers that the 16
-- bytes stand for; a `time.Time` is a number of nanoseconds.
pub mod Wf
pub mod Reserve
pub mod Rollback
pub mod Reap
pub mod ReapLoop
use pixel_beetle.Prelude.{
  ℕ, ◌+◌, ◌*◌, ◌^◌, Bool, true, false, not, ◌&&◌, Option, none, some, List, [], ◌∷◌, ◌++◌, ltb,
  ◌==◌, if◌then◌else◌, Table, lookup, insert, erase,
}

-- `x` and `y` are below 2 ^ 32, so the `|` of the source is a sum.
abbrev pub pack : ℕ → ℕ → ℕ
pack x y = x * 2 ^ 32 + y

pub record Lock : Type 0 where
  pub player : ℕ
  pub expires : ℕ

pub record ClaimMeta : Type 0 where
  pub x : ℕ
  pub y : ℕ
  pub color : ℕ
  pub player : ℕ

pub record Registry : Type 0 where
  pub locks : Table Lock
  pub claims : Table ClaimMeta
  pub by_player : Table ℕ

abbrev pub key_of : ClaimMeta → ℕ
key_of m = pack m.x m.y

-- `if l, ok := s.locks[key]; ok && time.Now().Before(l.expires) && l.player != player`
abbrev pub held_by_other : ℕ → ℕ → Option Lock → Bool
held_by_other now player none = false
held_by_other now player (some l) = ltb now l.expires && not (l.player == player)

-- `cur, ok := s.byPlayer[m.Player]; ok && cur == claimID`
abbrev pub is_id : ℕ → Option ℕ → Bool
is_id id none = false
is_id id (some cur) = cur == id

-- `l, ok := s.locks[key]; ok && l.player == m.Player`
abbrev pub is_owner : ℕ → Option Lock → Bool
is_owner player none = false
is_owner player (some l) = l.player == player

-- The body of `vacate` once the claim is found.
abbrev pub vacate_found : ℕ → ℕ → ClaimMeta → Registry → Registry
vacate_found id key m r = record {
  locks = if is_owner m.player (lookup key r.locks) then erase key r.locks else r.locks;
  claims = erase id r.claims;
  by_player =
      if is_id id (lookup m.player r.by_player) then erase m.player r.by_player else r.by_player;
}

unfoldable pub vacate : ℕ → ℕ → Registry → Registry
vacate id key r = elim (lookup id r.claims) [ none ↦ r | some m ↦ vacate_found id key m r ]

-- The superseded claim that `Claim` keeps aside (`oldID`, `old`, `oldLock`).
pub record Superseded : Type 0 where
  pub id : ℕ
  pub meta : ClaimMeta
  pub lock : Option Lock

-- `hadOld` is that the result is not `none`; `hadLock` that its lock is not.
unfoldable pub superseded : ℕ → Registry → Option Superseded
superseded player r = elim (lookup player r.by_player) [
  | none ↦ none
  | some id ↦ elim (lookup id r.claims) [
    | none ↦ none
    | some m ↦ some (record { id = id; meta = m; lock = lookup (key_of m) r.locks })
  ]
]

abbrev pub vacate_old : Option Superseded → Registry → Registry
vacate_old none r = r
vacate_old (some o) r = vacate o.id (key_of o.meta) r

abbrev pub enter : ℕ → ClaimMeta → ℕ → Registry → Registry
enter id m expires r = record {
  locks = insert (key_of m) (record { player = m.player; expires = expires }) r.locks;
  claims = insert id m r.claims;
  by_player = insert m.player id r.by_player;
}

-- The first critical section of `Claim`, past its test of the lock: the old claim is vacated and
-- the new one entered.
unfoldable pub reserve : ℕ → ClaimMeta → ℕ → Registry → Registry
reserve id m expires r = enter id m expires (vacate_old (superseded m.player r) r)

-- The second one, after a failed submit: the new claim goes and the superseded one comes back.
unfoldable pub rollback : ℕ → ClaimMeta → Option Superseded → Registry → Registry
rollback id m none r = record {
  locks = erase (key_of m) r.locks;
  claims = erase id r.claims;
  by_player = erase m.player r.by_player;
}
rollback id m (some o) r = record {
  locks = elim o.lock [
    | none ↦ erase (key_of m) r.locks
    | some l ↦ insert (key_of o.meta) l (erase (key_of m) r.locks)
  ];
  claims = insert o.id o.meta (erase id r.claims);
  by_player = insert m.player o.id r.by_player;
}

abbrev pub owned_claim : ℕ → Option ClaimMeta → Option ClaimMeta
owned_claim player none = none
owned_claim player (some m) = if m.player == player then some m else none

-- `resolve`; `none` is `ErrUnknownClaim`.
unfoldable pub resolve : ℕ → ℕ → Registry → Option ClaimMeta
resolve player id r = owned_claim player (lookup id r.claims)

-- The claim that `ReapExpired` vacates with an expired lock at `k`.
abbrev pub reap_claim : ℕ → Lock → Registry → Registry
reap_claim k l r = elim (lookup l.player r.by_player) [
  | none ↦ r
  | some id ↦ elim (lookup id r.claims) [
    | none ↦ r
    | some m ↦ if key_of m == k then vacate id k r else r
  ]
]

-- One round of the loop of `ReapExpired`, at a key that the lock table still holds.
unfoldable pub reap_lock : ℕ → Lock → Registry → Registry
reap_lock k l r = let r' = reap_claim k l r in record r' { locks = erase k r'.locks }

abbrev pub reap_at : ℕ → ℕ → Option Lock → Registry → Registry × List ℕ
reap_at now k none r = (r, [])
reap_at now k (some l) r = if ltb l.expires now then (reap_lock k l r, k ∷ []) else (r, [])

-- The loop of `ReapExpired` over the keys `ks`, in the order in which `range` visits them: the
-- tables after it and the keys that it unlocked. A key that is gone when its turn comes is skipped.
unfoldable pub reap : ℕ → List ℕ → Registry → Registry × List ℕ
reap now [] r = (r, [])
reap now (k ∷ ks) r =
    let (r', unlocked) = reap_at now k (lookup k r.locks) r in
    let (r'', rest) = reap now ks r' in (r'', unlocked ++ rest)
