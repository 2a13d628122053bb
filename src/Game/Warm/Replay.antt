-- ===== src/Game/Warm/Replay.antt =====
-- What `WarmCache` (internal/game/warm.go) rebuilds from the ledger.
use pixel_beetle.Prelude.{
  ℕ, ◌+◌, ◌*◌, ◌≤◌, ◌<◌, ◌≡◌, refl, sym, subst, ◌∙◌, ap, true, false, inl, inr, Option, none, some,
  List, [], ◌∷◌, arith, ltb, leb, Bool-cases, length, replicate,
}
use pixel_beetle.TbClient.External.{Transfer, TbLib, TbServer}
use pixel_beetle.TbClient.Transfers.{is_posted_claim}
use pixel_beetle.Game.Anchors.{AnchorRef, OnEvict}
use pixel_beetle.Game.Fold.{fold_page, query_page_size, FoldError}
use pixel_beetle.Game.Fold.Ledger.{
  IsAbove, IsAscending, IsAscending-since, IsAbove-since_next, since, since-since, since_above,
  until, until_none, QueryLaws,
}
use pixel_beetle.Game.Fold.Paging.{fold_from-fold_page}
use pixel_beetle.Game.History.{paint_posted}
use pixel_beetle.Game.History.Frames.{painted}
use pixel_beetle.Game.Service.{World}
use pixel_beetle.Game.Warm.{
  Build, empty_build, fold_claim, warm_step, installed, install, warm_from, replay, scanned,
  warm_cache,
}

pub bmp-fold_claim :
    (grid_w ms : ℕ) (c : Option (ℕ × ℕ × ℕ)) (b : Build)
    → (fold_claim grid_w ms c b).bmp ≡ paint_posted grid_w c b.bmp
bmp-fold_claim grid_w ms none b = refl
bmp-fold_claim grid_w ms (some (x, y, color)) b = refl

pub since_zero : (l : List Transfer) → since 0 l ≡ l
unfolding since
since_zero [] = refl
since_zero (t ∷ l) = ground (arith, since_zero l)

pub until_zero : (l : List Transfer) → until 0 l ≡ []
unfolding until
until_zero [] = refl
until_zero (t ∷ l) = ground (arith, until_zero l)

-- The last timestamp of a list, or an earlier one.
abbrev pub last_or : ℕ → List Transfer → ℕ
last_or ts [] = ts
last_or ts (t ∷ l) = last_or t.timestamp l

module _ {F : Type 0} (on_evict : OnEvict F) (tb : TbLib) (grid_w grid_h : ℕ) where
  fold_page-warm_step :
      (l : List Transfer) (b : Build) (f : F)
      → ((fold_page (warm_step on_evict tb grid_w grid_h) l (b, f)).0.0.bmp
          ≡ painted tb grid_w grid_h l b.bmp)
        × ((fold_page (warm_step on_evict tb grid_w grid_h) l (b, f)).0.0.last_ts
            ≡ last_or b.last_ts l)
  unfolding fold_page painted warm_step
  fold_page-warm_step [] b f = (refl, refl)
  fold_page-warm_step (t ∷ l) b f =
      let rest =
        fold_page-warm_step l (warm_step on_evict tb grid_w grid_h t (b, f)).0.0
          (warm_step on_evict tb grid_w grid_h t (b, f)).0.1 in
      (
        rest.0
            ∙ ap (painted tb grid_w grid_h l)
                (bmp-fold_claim grid_w _ (is_posted_claim tb t grid_w grid_h) _),
        rest.1,
      )

length-since : (from : ℕ) (l : List Transfer) → length (since from l) ≤ length l
unfolding since
length-since from [] = omega arith
length-since from (t ∷ l) = ground (arith, length-since from l)

last_or_bound : (ts : ℕ) (l : List Transfer) → IsAbove ts l → IsAscending l → ts ≤ last_or ts l
unfolding IsAbove IsAscending
last_or_bound ts [] above asc = omega arith
last_or_bound ts (t ∷ l) above asc = omega (arith, above.0, last_or_bound t.timestamp l asc.0 asc.1)

-- Nothing of an ascending list is past its last timestamp.
since-last_or : (ts : ℕ) (l : List Transfer) → IsAscending l → since (last_or ts l + 1) l ≡ []
unfolding since IsAscending
since-last_or ts [] asc = refl
since-last_or ts (t ∷ l) asc =
    let gone : leb (last_or t.timestamp l + 1) t.timestamp ≡ false =
      ground (arith, last_or_bound t.timestamp l asc.0 asc.1) in
    rw gone (since-last_or t.timestamp l asc.1)

painted_resume :
    (tb : TbLib) (grid_w grid_h from : ℕ) (l : List Transfer) (bmp : List ℕ)
    → IsAscending l
    → painted tb grid_w grid_h (since from l) (painted tb grid_w grid_h (until from l) bmp)
      ≡ painted tb grid_w grid_h l bmp
unfolding painted until since IsAscending
painted_resume tb grid_w grid_h from [] bmp asc = refl
painted_resume tb grid_w grid_h from (t ∷ l) bmp asc = elim (Bool-cases (leb from t.timestamp)) [
  | inl later ↦
      let out : ltb t.timestamp from ≡ false = ground (arith, later) in
      let none_before = until_none from t.timestamp l (ground (arith, later)) asc.0 in
      let all_after = since_above from t.timestamp l (ground (arith, later)) asc.0 in
      rw (later, out) (rw (none_before, all_after) refl)
  | inr before ↦
      let early : ltb t.timestamp from ≡ true = ground (arith, before) in
      rw (before, early) (painted_resume tb grid_w grid_h from l _ asc.1)
]

module _ {S F : Type 0} where
  -- The service holds the whole ledger: the canvas of all its posted claims, and a watermark that
  -- no transfer is past.
  pub record IsWarm (tb : TbLib) (l : List Transfer) (grid_w grid_h : ℕ)
      (r : World S F × Option FoldError) : Type 0 where
    pub ok : r.1 ≡ none
    pub canvas : r.0.svc.bmp ≡ painted tb grid_w grid_h l (replicate (grid_w * grid_h) 0)
    pub watermark : since (r.0.svc.warm_ts + 1) l ≡ []
    pub completed : r.0.svc.warmed ≡ true

module _ {S F : Type 0} {server : TbServer S} {ledger : S → List Transfer}
    (laws : QueryLaws server ledger) (on_evict : OnEvict F) (tb : TbLib) (now_ms fuel : ℕ) where
  warm_from-IsWarm :
      (from : ℕ) (b : Build) (w : World S F)
      → length (ledger w.store) < fuel * query_page_size
      → b.bmp
        ≡ painted tb w.svc.grid_w w.svc.grid_h
            (until from (ledger w.store))
            (replicate (w.svc.grid_w * w.svc.grid_h) 0)
      → since (last_or b.last_ts (since from (ledger w.store)) + 1) (ledger w.store) ≡ []
      → IsWarm tb
          (ledger w.store)
          w.svc.grid_w
          w.svc.grid_h
          (warm_from server on_evict tb fuel now_ms from b w)
  unfolding warm_from install
  warm_from-IsWarm from b w enough sound past =
      let l = ledger w.store in
      let step = warm_step on_evict tb w.svc.grid_w w.svc.grid_h in
      let built =
        fold_page-warm_step on_evict tb w.svc.grid_w w.svc.grid_h (since from l) b w.sidecar in
      elim (fold_from-fold_page laws step 0 w.store fuel from 0 (b, w.sidecar)
        (inl (omega (arith, enough, length-since from l)))) [
          | inr broad ↦ absurd (omega (arith, broad.0))
          | inl (done, acc) ↦
              rw (done, installed)
                (record {
                  ok = refl;
                  canvas =
                      ap (λ x. x.0.bmp) acc
                      ∙ built.0
                      ∙ ap (painted tb w.svc.grid_w w.svc.grid_h (since from l)) sound
                      ∙ painted_resume tb w.svc.grid_w w.svc.grid_h from l _
                          (laws.ascending w.store);
                  watermark =
                      subst (λ ts. since (ts + 1) l ≡ [])
                        (sym (ap (λ x. x.0.last_ts) acc ∙ built.1)) past;
                  completed = refl;
                })
        ]

  pub replay-IsWarm :
      (reset : F → F) (w : World S F)
      → length (ledger w.store) < fuel * query_page_size
      → IsWarm tb
          (ledger w.store)
          w.svc.grid_w
          w.svc.grid_h
          (replay server on_evict tb reset fuel now_ms w)
  unfolding replay painted
  replay-IsWarm reset w enough =
      let l = ledger w.store in
      warm_from-IsWarm 0 (empty_build w.svc.grid_w w.svc.grid_h)
        (record w { sidecar = reset w.sidecar }) enough (rw (until_zero l) refl)
        (rw (since_zero l) (since-last_or 0 l (laws.ascending w.store)))

  scanned-IsWarm :
      (refs : Option (List AnchorRef)) (l : List Transfer) (grid_w grid_h : ℕ) (w : World S F)
      (err : Option FoldError)
      → IsWarm tb l grid_w grid_h (w, err)
      → IsWarm tb l grid_w grid_h (scanned server on_evict tb refs w, none)
  scanned-IsWarm none l grid_w grid_h w err h = record {
    ok = refl;
    canvas = h.canvas;
    watermark = h.watermark;
    completed = h.completed;
  }
  scanned-IsWarm (some refs) l grid_w grid_h w err h = record {
    ok = refl;
    canvas = h.canvas;
    watermark = h.watermark;
    completed = h.completed;
  }

  -- Over a ledger in ascending order that answers every query, with as many rounds as its pages:
  -- whether `WarmCache` replays the whole ledger or folds what is new into a snapshot, which has
  -- to be the canvas of all transfers up to its watermark, it returns nil, and the bitmap is the
  -- canvas of all posted claims of the ledger, no transfer of which is past the new watermark.
  pub warm_cache-IsWarm :
      (loaded : Option Build) (scan : F → Option (List AnchorRef)) (reset : F → F) (w : World S F)
      → length (ledger w.store) < fuel * query_page_size
      → ((b : Build)
          → loaded ≡ some b
          → b.bmp
            ≡ painted tb w.svc.grid_w w.svc.grid_h
                (until (b.last_ts + 1) (ledger w.store))
                (replicate (w.svc.grid_w * w.svc.grid_h) 0))
      → IsWarm tb
          (ledger w.store)
          w.svc.grid_w
          w.svc.grid_h
          (warm_cache server on_evict tb loaded scan reset fuel now_ms w)
  unfolding warm_cache
  warm_cache-IsWarm none scan reset w enough sound = replay-IsWarm reset w enough
  warm_cache-IsWarm (some b) scan reset w enough sound =
      let l = ledger w.store in
      let asc = IsAscending-since (b.last_ts + 1) l (laws.ascending w.store) in
      let delta = since (b.last_ts + 1) l in
      let later = last_or_bound b.last_ts delta (IsAbove-since_next b.last_ts l) asc in
      let past : since (last_or b.last_ts delta + 1) l ≡ [] =
        sym (since-since (b.last_ts + 1) (last_or b.last_ts delta + 1) l (omega (arith, later)))
        ∙ since-last_or b.last_ts delta asc in
      let h = warm_from-IsWarm (b.last_ts + 1) b w enough (sound b refl) past in
      rw (h.ok, warm_cache) (scanned-IsWarm _ l w.svc.grid_w w.svc.grid_h _ _ h)
