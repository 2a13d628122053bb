-- ===== src/Game/Interleaving/Overlap.antt =====
-- Two `Claim` requests of one player in flight at once (internal/game/game.go): the branch
-- `delete(s.byPlayer, player)` after a failed submit does not ask whose entry it deletes.
use pixel_beetle.Prelude.{ℕ, ◌≡◌, ◌≢◌, none, some, arith, lookup, lookup-insert, lookup-erase}
use pixel_beetle.Game.Registry.{ClaimMeta, Registry, superseded, reserve, rollback}

-- The tables after a player without a claim begins a first claim, begins a second one, and the
-- first one's submit fails.
abbrev pub overlap : ℕ → ℕ → ClaimMeta → ClaimMeta → ℕ → ℕ → Registry → Registry
overlap id1 id2 m1 m2 e1 e2 r =
    rollback id1 m1 (superseded m1.player r) (reserve id2 m2 e2 (reserve id1 m1 e1 r))

module _ (id1 id2 id3 : ℕ) (m1 m2 m3 : ClaimMeta) (e1 e2 e3 : ℕ) (r : Registry)
    (idle : superseded m1.player r ≡ none) (one : m2.player ≡ m1.player)
    (same : m3.player ≡ m1.player) (other : id1 ≢ id2) (third : id2 ≢ id3) where
  overlap-idle : lookup m1.player (overlap id1 id2 m1 m2 e1 e2 r).by_player ≡ none
  unfolding rollback
  overlap-idle = rw idle (simp lookup-erase (ground arith))

  overlap-kept : lookup id2 (overlap id1 id2 m1 m2 e1 e2 r).claims ≡ some m2
  unfolding rollback reserve
  overlap-kept = rw idle (simp (lookup-erase, lookup-insert) (ground arith))

  no_old : superseded m1.player (overlap id1 id2 m1 m2 e1 e2 r) ≡ none
  unfolding superseded
  no_old = rw (overlap-idle, superseded)

  -- When a player who holds no claim begins a first claim and then a second one while the first is
  -- in flight, and the first one's submit fails, a third claim of that player supersedes nothing:
  -- the second and the third claim of one player are both active.
  pub reserve-overlap :
      (superseded m3.player (overlap id1 id2 m1 m2 e1 e2 r) ≡ none)
      × (lookup id2 (reserve id3 m3 e3 (overlap id1 id2 m1 m2 e1 e2 r)).claims ≡ some m2)
      × (lookup id3 (reserve id3 m3 e3 (overlap id1 id2 m1 m2 e1 e2 r)).claims ≡ some m3)
  unfolding reserve
  reserve-overlap =
      let t = overlap id1 id2 m1 m2 e1 e2 r in
      let clear : superseded m3.player t ≡ none = rw same no_old in
      (
        clear,
        rw (clear, reserve) (ground (arith, overlap-kept, lookup-insert id3 id2 m3 t.claims)),
        rw (clear, reserve) (ground (arith, lookup-insert id3 id3 m3 t.claims)),
      )
