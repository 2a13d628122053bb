-- ===== src/Game/Warm/Seek.antt =====
-- `FrameAt` (internal/game/game.go) on the service that the full replay of `WarmCache`
-- (internal/game/warm.go) leaves.
use pixel_beetle.Prelude.{
  ℕ, ◌+◌, ◌*◌, ◌≤◌, ◌<◌, ◌≡◌, refl, sym, subst, ◌∙◌, ap, inl, inr, Option, none, some, List, [],
  ◌∷◌, arith, length, replicate, lookup, length-replicate, length-set,
}
use pixel_beetle.TbClient.External.{Transfer, TbLib, TbServer}
use pixel_beetle.TbClient.Transfers.{is_posted_claim}
use pixel_beetle.Game.Anchors.{AnchorRef, OnEvict, checkpoint, sidecar_at, empty_grid, fill_to}
use pixel_beetle.Game.Anchors.Covered.{
  start_of, IsCovered, NoCollision, IsCanvas, fill_to-IsCovered, checkpoint-IsCanvas,
}
use pixel_beetle.Game.Fold.{fold_page, query_page_size}
use pixel_beetle.Game.Fold.Ledger.{until, QueryLaws}
use pixel_beetle.Game.Fold.Paging.{fold_from-fold_page}
use pixel_beetle.Game.History.{
  copy, blank, paint_posted, paint_transfer, fold_start, checkpoint_start, sidecar_start, end_ns,
  frame_at,
}
use pixel_beetle.Game.History.Frames.{painted, IsFrame, frame_at-painted}
use pixel_beetle.Game.Service.{World, Service}
use pixel_beetle.Game.Warm.{Build, empty_build, warm_step, installed, install, warm_from, replay}
use pixel_beetle.Game.Warm.Replay.{since_zero, until_zero, replay-IsWarm}
use pixel_beetle.Game.Warm.Checkpoints.{IsBuilt, fold_page-IsBuilt}

length-paint_posted :
    (grid_w : ℕ) (c : Option (ℕ × ℕ × ℕ)) (bmp : List ℕ)
    → length (paint_posted grid_w c bmp) ≡ length bmp
length-paint_posted grid_w none bmp = refl
length-paint_posted grid_w (some (x, y, color)) bmp = length-set bmp _ _

length-painted :
    (tb : TbLib) (grid_w grid_h : ℕ) (l : List Transfer) (bmp : List ℕ)
    → length (painted tb grid_w grid_h l bmp) ≡ length bmp
unfolding painted
length-painted tb grid_w grid_h [] bmp = refl
length-painted tb grid_w grid_h (t ∷ l) bmp =
    length-painted tb grid_w grid_h l (paint_transfer tb grid_w grid_h t bmp)
    ∙ length-paint_posted grid_w (is_posted_claim tb t grid_w grid_h) bmp

copy_all : (dst src : List ℕ) → length dst ≡ length src → copy dst src ≡ src
unfolding copy
copy_all [] [] h = refl
copy_all [] (b ∷ src) h = absurd (omega (arith, h))
copy_all (d ∷ dst) [] h = absurd (omega (arith, h))
copy_all (d ∷ dst) (b ∷ src) h = ap (λ l. b ∷ l) (copy_all dst src (omega (arith, h)))

-- The canvas before a nanosecond.
abbrev pub canvas_before : TbLib → ℕ → ℕ → List Transfer → ℕ → List ℕ
canvas_before tb grid_w grid_h l i =
    painted tb grid_w grid_h (until i l) (replicate (grid_w * grid_h) 0)

length-canvas_before :
    (tb : TbLib) (grid_w grid_h : ℕ) (l : List Transfer) (i : ℕ)
    → length (canvas_before tb grid_w grid_h l i) ≡ grid_w * grid_h
length-canvas_before tb grid_w grid_h l i =
    length-painted tb grid_w grid_h (until i l) _ ∙ length-replicate (grid_w * grid_h) 0

-- The same canvas by the fields of a service of the grid.
canvas_before-painted :
    (tb : TbLib) (grid_w grid_h : ℕ) (l : List Transfer) (v : Service) (i : ℕ)
    → v.grid_w ≡ grid_w
    → v.grid_h ≡ grid_h
    → length v.bmp ≡ grid_w * grid_h
    → canvas_before tb grid_w grid_h l i ≡ painted tb v.grid_w v.grid_h (until i l) (blank v)
canvas_before-painted tb grid_w grid_h l v i width height size =
    sym (ap (λ n. painted tb grid_w grid_h (until i l) (replicate n 0)) size)
    ∙ ap (λ x. painted tb x grid_h (until i l) (blank v)) (sym width)
    ∙ ap (λ y. painted tb v.grid_w y (until i l) (blank v)) (sym height)

empty-IsCovered : (canvas : ℕ → List ℕ) → IsCovered canvas empty_grid
unfolding lookup
empty-IsCovered canvas = record { listed = tt; kept = λ h b e. absurd (cc e) }

filled-IsCovered :
    {F : Type 0} (on_evict : OnEvict F) (tb : TbLib) (grid_w grid_h : ℕ) (canvas : ℕ → List ℕ)
    (now_ms : ℕ) (x : Build × F)
    → IsBuilt on_evict tb grid_w grid_h canvas [] x.0
    → IsCovered canvas (fill_to on_evict now_ms x.0.bmp x.0.ag x.1).0
unfolding painted until
filled-IsCovered on_evict tb grid_w grid_h canvas now_ms (b, f) h =
    fill_to-IsCovered canvas on_evict now_ms b.bmp b.ag f
      (λ i low. h.ahead (start_of i) (omega (arith, low))) h.covered

-- A service of a grid whose checkpoints are canvases of a ledger.
record IsSeekable (tb : TbLib) (l : List Transfer) (grid_w grid_h : ℕ) (v : Service) : Type 0 where
  pub covered : IsCovered (canvas_before tb grid_w grid_h l) v.ag
  pub width : v.grid_w ≡ grid_w
  pub height : v.grid_h ≡ grid_h

-- What a fold starts from, where no evicted checkpoint is needed.
start-IsCanvas :
    (tb : TbLib) (l : List Transfer) (grid_w grid_h ts_ms : ℕ) (v : Service)
    (read_blob : AnchorRef → Option (List ℕ)) (o : Option (List ℕ × ℕ))
    → length v.bmp ≡ grid_w * grid_h
    → IsCanvas (canvas_before tb grid_w grid_h l) ts_ms o
    → (o ≡ none → sidecar_at ts_ms v.ag ≡ none)
    → (start : List ℕ) × (from : ℕ) × (checkpoint_start read_blob ts_ms o v ≡ some (start, from))
      × (start ≡ canvas_before tb grid_w grid_h l from)
      × (from ≤ end_ns ts_ms + 1)
unfolding painted
start-IsCanvas tb l grid_w grid_h ts_ms v read_blob none size h needless = (
  blank v,
  0,
  ap (λ r. sidecar_start read_blob r v) (needless refl),
  ap (λ n. replicate n 0) size
      ∙ sym (ap (λ x. painted tb grid_w grid_h x (replicate (grid_w * grid_h) 0)) (until_zero l)),
  omega arith,
)
start-IsCanvas tb l grid_w grid_h ts_ms v read_blob (some (bmp, from)) size (e, le) needless =
    let same : length (blank v) ≡ length bmp =
      length-replicate (length v.bmp) 0
      ∙ size
      ∙ sym (ap length e ∙ length-canvas_before tb grid_w grid_h l from) in
    (copy (blank v) bmp, from, refl, copy_all (blank v) bmp same ∙ e, omega (arith, le))

module _ {S F : Type 0} {server : TbServer S} {ledger : S → List Transfer}
    (laws : QueryLaws server ledger) (on_evict : OnEvict F) (tb : TbLib) (now_ms fuel : ℕ) where
  replay-IsSeekable :
      (reset : F → F) (w : World S F)
      → length (ledger w.store) < fuel * query_page_size
      → IsSeekable tb
          (ledger w.store)
          w.svc.grid_w
          w.svc.grid_h
          (replay server on_evict tb reset fuel now_ms w).0.svc
  unfolding replay warm_from install
  replay-IsSeekable reset w enough =
      let l = ledger w.store in
      let step = warm_step on_evict tb w.svc.grid_w w.svc.grid_h in
      let b = empty_build w.svc.grid_w w.svc.grid_h in
      let built =
        fold_page-IsBuilt on_evict tb w.svc.grid_w w.svc.grid_h
          (canvas_before tb w.svc.grid_w w.svc.grid_h l) l b (reset w.sidecar)
          (laws.ascending w.store)
          (record { covered = empty-IsCovered _; ahead = λ i low. refl }) in
      let filled =
        filled-IsCovered on_evict tb w.svc.grid_w w.svc.grid_h
          (canvas_before tb w.svc.grid_w w.svc.grid_h l) now_ms _ built in
      elim (fold_from-fold_page laws step 0 w.store fuel 0 0 (b, reset w.sidecar)
        (inl (rw (since_zero l) enough))) [
          | inr broad ↦ absurd (omega (arith, broad.0))
          | inl (done, acc) ↦
              rw (done, installed)
                (record {
                  covered =
                      subst
                        (λ x.
                          IsCovered (canvas_before tb w.svc.grid_w w.svc.grid_h l)
                            (fill_to on_evict now_ms x.0.bmp x.0.ag x.1).0)
                        (sym (
                          acc ∙ ap (λ x. (fold_page step x (b, reset w.sidecar)).0) (since_zero l)))
                        filled;
                  width = refl;
                  height = refl;
                })
        ]

  -- After a full replay of a ledger in ascending order that answers every query, with as many rounds as
  -- its pages, and where no two canvases over time have the same hash: for a time before the latest
  -- paint, for which no evicted checkpoint is needed, `FrameAt` returns the canvas of all posted claims
  -- up to the end of the millisecond asked for, or `ErrFrameTooBroad`.
  pub frame_at-replay :
      {B : Type 0} (encode : List ℕ → B) (read_blob : AnchorRef → Option (List ℕ)) (reset : F → F)
      (w : World S F) (ts_ms : ℕ)
      → length (ledger w.store) < fuel * query_page_size
      → NoCollision (canvas_before tb w.svc.grid_w w.svc.grid_h (ledger w.store))
      → ts_ms < (replay server on_evict tb reset fuel now_ms w).0.svc.last_paint_ms
      → (checkpoint ts_ms (replay server on_evict tb reset fuel now_ms w).0.svc.ag ≡ none
          → sidecar_at ts_ms (replay server on_evict tb reset fuel now_ms w).0.svc.ag ≡ none)
      → IsFrame encode tb laws read_blob ts_ms
          (replay server on_evict tb reset fuel now_ms w).0.svc
          w.store
          (frame_at encode tb server read_blob ts_ms
            (replay server on_evict tb reset fuel now_ms w).0.svc
            w.store)
  unfolding fold_start
  frame_at-replay encode read_blob reset w ts_ms enough distinct older needless =
      let l = ledger w.store in
      let v = (replay server on_evict tb reset fuel now_ms w).0.svc in
      let seek = replay-IsSeekable reset w enough in
      let canvas = canvas_before tb w.svc.grid_w w.svc.grid_h l in
      let warm = replay-IsWarm laws on_evict tb now_ms fuel reset w enough in
      let size : length v.bmp ≡ w.svc.grid_w * w.svc.grid_h =
        ap length warm.canvas
        ∙ length-painted tb w.svc.grid_w w.svc.grid_h l _
        ∙ length-replicate (w.svc.grid_w * w.svc.grid_h) 0 in
      let (start, from, chosen, sound, order) =
        start-IsCanvas tb l w.svc.grid_w w.svc.grid_h ts_ms v read_blob (checkpoint ts_ms v.ag) size
          (checkpoint-IsCanvas canvas ts_ms v.ag distinct seek.covered) needless in
      frame_at-painted encode tb laws read_blob ts_ms v w.store start from older chosen
        (sound
          ∙ canvas_before-painted tb w.svc.grid_w w.svc.grid_h l v from seek.width seek.height size)
        order
