-- ===== src/Game/Warm/Tests.antt =====
-- The warm-up and the history view of internal/game at a ledger of two posted claims.
use pixel_beetle.Prelude.{
  ℕ, ◌+◌, ◌≡◌, refl, ap, subst, sym, ◌∙◌, ◌⊎◌, inl, inr, ltb, Bool-cases, insert, false, lookup,
  Bool, true, Option, none, some, List, [], ◌∷◌, arith, take,
}
use pixel_beetle.TbClient.External.{Transfer, TbServer}
use pixel_beetle.TbClient.Ids.{pixel_id, unpack_pixel_id}
use pixel_beetle.TbClient.Transfers.{new_claim, is_posted_claim, post_flags}
use pixel_beetle.TbClient.Sample.{sample_tb}
use pixel_beetle.Game.Anchors.{
  OnEvict, empty_grid, checkpoint, sidecar_at, bmp_hash, fill_to, sync_to, fill, insert_anchor,
  evict, overflow,
}
use pixel_beetle.Game.Anchors.Covered.{NoCollision}
use pixel_beetle.Game.Fold.{fold_page, fold_from, query_page_size}
use pixel_beetle.Game.Fold.Ledger.{IsAscending, since, until, QueryLaws}
use pixel_beetle.Game.Fold.Paging.{IsFolded, fold_from-fold_page}
use pixel_beetle.Game.Warm.Seek.{canvas_before, frame_at-replay}
use pixel_beetle.Game.Service.{Service, World, new_service}
use pixel_beetle.Game.History.{copy, fold_start, frame_at}
use pixel_beetle.Game.History.Frames.{painted, IsFrame, frame_at-painted}
use pixel_beetle.Game.Warm.{Build, warm_step, replay, warm_cache}
use pixel_beetle.Game.Warm.Replay.{IsWarm, warm_cache-IsWarm}

abbrev posted : ℕ → ℕ → ℕ → ℕ → Transfer
posted x y color ts = record (new_claim sample_tb 77 x y color 9) {
  flags = sample_tb.transfer_flags post_flags;
  timestamp = ts;
}

-- Cell (1, 0) in color 4, then in color 5 two minutes later.
abbrev two_paints : List Transfer
two_paints = posted 1 0 4 60_000_000_000 ∷ posted 1 0 5 180_000_000_000 ∷ []

abbrev recording : TbServer (Unit {0})
recording = record {
  create_accounts = λ accounts s. (none, s);
  create_transfers = λ transfers s. (none, s);
  query_transfers = λ q s. some (take q.limit (since q.timestamp_min two_paints));
}

recording-QueryLaws : QueryLaws recording (λ s. two_paints)
unfolding IsAscending
recording-QueryLaws = record {
  ascending = λ s. ((omega arith, tt), (tt, tt));
  answered = λ from limit s. refl;
}

-- Counts transfers, and stops at the second.
abbrev count_two : Transfer → ℕ → ℕ × Bool
count_two t n = (n + 1, true)

fold_from-fold_page_example :
    IsFolded 0
      (fold_page count_two (since 0 two_paints) 0).0
      (fold_from recording count_two 0 tt 1 0 0 0)
unfolding since query_page_size
fold_from-fold_page_example =
    fold_from-fold_page recording-QueryLaws count_two 0 tt 1 0 0 0 (inl (omega arith))

no_hook : OnEvict (Unit {0})
no_hook ts hash bmp f = (none, f)

abbrev fresh_world : World (Unit {0}) (Unit {0})
fresh_world = record { svc = new_service 2 1; store = tt; sidecar = tt; sent = [] }

-- A snapshot of the canvas between the two paints.
abbrev snapshot : Build
snapshot = record {
  bmp = 0 ∷ 5 ∷ [];
  ag = empty_grid;
  first_paint = 60_000;
  last_paint = 60_000;
  last_ts = 60_000_000_000;
}

abbrev loaded_or_snapshot : Option Build → Build
loaded_or_snapshot none = snapshot
loaded_or_snapshot (some b) = b

warm_cache-IsWarm_example : IsWarm sample_tb two_paints 2 1 (
    warm_cache recording no_hook sample_tb
      (some snapshot)
      (λ f. none)
      (λ f. f)
      1
      200_000
      fresh_world)
unfolding new_service query_page_size painted until is_posted_claim unpack_pixel_id pixel_id
    new_claim
warm_cache-IsWarm_example =
    warm_cache-IsWarm recording-QueryLaws no_hook sample_tb 200_000 1 (some snapshot) (λ f. none)
      (λ f. f) fresh_world (omega arith)
      (λ b e.
        subst
          (λ (c : Build).
            c.bmp ≡ painted sample_tb 2 1 (until (c.last_ts + 1) two_paints) (0 ∷ 0 ∷ []))
          (ap loaded_or_snapshot e) refl)

-- The service with both paints and a checkpoint of the first.
abbrev painted_service : Service
painted_service = record (new_service 2 1) {
  bmp = 0 ∷ 6 ∷ [];
  last_paint_ms = 180_000;
  ag = record empty_grid {
    list = record { ts_ms = 120_000; hash = 11 } ∷ [];
    pool = (11, 0 ∷ 5 ∷ []) ∷ [];
  };
}

frame_at-painted_example :
    IsFrame
      (λ bmp. bmp)
      sample_tb
      recording-QueryLaws
      (λ ref. none)
      150_000
      painted_service
      tt
      (frame_at (λ bmp. bmp) sample_tb recording (λ ref. none) 150_000 painted_service tt)
unfolding new_service fold_start checkpoint painted until is_posted_claim unpack_pixel_id pixel_id
    new_claim lookup copy
frame_at-painted_example =
    frame_at-painted (λ bmp. bmp) sample_tb recording-QueryLaws (λ ref. none) 150_000
      painted_service tt (0 ∷ 5 ∷ []) 120_000_000_000 (omega arith) refl refl (omega arith)

-- The canvases of the two paints over time.
abbrev shown_at : ℕ → List ℕ
shown_at = canvas_before sample_tb 2 1 two_paints

shown_at-cases :
    (i : ℕ) → (shown_at i ≡ 0 ∷ 0 ∷ []) ⊎ ((shown_at i ≡ 0 ∷ 5 ∷ []) ⊎ (shown_at i ≡ 0 ∷ 6 ∷ []))
unfolding painted until is_posted_claim unpack_pixel_id pixel_id new_claim
shown_at-cases i = elim (Bool-cases (ltb 60_000_000_000 i)) [
  | inr t ↦ inl (let u : ltb 180_000_000_000 i ≡ false = ground (arith, t) in rw (t, u) refl)
  | inl t ↦ elim (Bool-cases (ltb 180_000_000_000 i)) [
    | inr u ↦ inr (inl (rw (t, u) refl))
    | inl u ↦ inr (inr (rw (t, u) refl))
  ]
]

-- Two of these canvases with one hash are the same.
shown_at-NoCollision : NoCollision shown_at
unfolding bmp_hash
shown_at-NoCollision i j e =
    let hashed : (a b : List ℕ) → shown_at i ≡ a → shown_at j ≡ b → bmp_hash a ≡ bmp_hash b =
      λ a b p q. ap bmp_hash (sym p) ∙ e ∙ ap bmp_hash q in
    elim (shown_at-cases i) [
      | inl p ↦ elim (shown_at-cases j) [
        | inl q ↦ p ∙ sym q
        | inr (inl q) ↦ absurd (omega (arith, hashed _ _ p q))
        | inr (inr q) ↦ absurd (omega (arith, hashed _ _ p q))
      ]
      | inr (inl p) ↦ elim (shown_at-cases j) [
        | inl q ↦ absurd (omega (arith, hashed _ _ p q))
        | inr (inl q) ↦ p ∙ sym q
        | inr (inr q) ↦ absurd (omega (arith, hashed _ _ p q))
      ]
      | inr (inr p) ↦ elim (shown_at-cases j) [
        | inl q ↦ absurd (omega (arith, hashed _ _ p q))
        | inr (inl q) ↦ absurd (omega (arith, hashed _ _ p q))
        | inr (inr q) ↦ p ∙ sym q
      ]
    ]

-- The service after a full replay.
abbrev replayed : Service
replayed = (replay recording no_hook sample_tb (λ f. f) 1 200_000 fresh_world).0.svc

test_replayed : (replayed.last_paint_ms ≡ 180_000) × (sidecar_at 150_000 replayed.ag ≡ none)
unfolding replay sidecar_at query_page_size new_service is_posted_claim unpack_pixel_id pixel_id
    new_claim since warm_step fill_to sync_to fill insert_anchor evict overflow lookup insert
    bmp_hash
test_replayed = (refl, refl)

frame_at-replay_example :
    IsFrame
      (λ bmp. bmp)
      sample_tb
      recording-QueryLaws
      (λ ref. none)
      150_000
      replayed
      tt
      (frame_at (λ bmp. bmp) sample_tb recording (λ ref. none) 150_000 replayed tt)
unfolding query_page_size new_service
frame_at-replay_example =
    frame_at-replay recording-QueryLaws no_hook sample_tb 200_000 1 (λ bmp. bmp) (λ ref. none)
      (λ f. f) fresh_world 150_000 (omega arith) shown_at-NoCollision
      (omega (arith, test_replayed.0)) (λ e. test_replayed.1)
