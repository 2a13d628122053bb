-- ===== src/Game/History/Frames.antt =====
-- `FrameAt` (internal/game/game.go) against the definition of the canvas at a time: the fold of all
-- posted claims up to it.
use pixel_beetle.Prelude.{
  ℕ, ◌+◌, ◌≤◌, ◌<◌, ◌≡◌, ◌⊎◌, refl, sym, subst, ◌∙◌, ap, true, false, inl, inr, Option, some, List,
  [], ◌∷◌, arith, ltb, leb, Bool-cases,
}
use pixel_beetle.TbClient.External.{Transfer, TbLib, TbServer}
use pixel_beetle.Game.Anchors.{AnchorRef}
use pixel_beetle.Game.Fold.{fold_page, fold_from, too_broad, max_frame_pages, Folded}
use pixel_beetle.Game.Fold.Ledger.{
  IsAscending, since, since_above, until, until_none, QueryLaws, IsAscending-since,
}
use pixel_beetle.Game.Fold.Paging.{fold_page_stop, fold_page_more, fold_from-fold_page, IsFolded}
use pixel_beetle.Game.History.{
  Frame, frame, fold_error, paint_transfer, frame_step, end_ns, blank, fold_start, folded_frame,
  frame_at,
}
use pixel_beetle.Game.Service.{Service}

module _ (tb : TbLib) (grid_w grid_h : ℕ) where
  -- The canvas after some transfers.
  unfoldable pub painted : List Transfer → List ℕ → List ℕ
  painted [] bmp = bmp
  painted (t ∷ l) bmp = painted l (paint_transfer tb grid_w grid_h t bmp)

  -- The callback stops at the first transfer past the end, which is where a scan would stop painting.
  fold_page-frame_step :
      (end : ℕ) (l : List Transfer) (bmp : List ℕ)
      → IsAscending l
      → (fold_page (frame_step tb grid_w grid_h end) l bmp).0 ≡ painted (until (end + 1) l) bmp
  unfolding fold_page painted until IsAscending
  fold_page-frame_step end [] bmp asc = refl
  fold_page-frame_step end (t ∷ l) bmp asc = elim (Bool-cases (ltb end t.timestamp)) [
    | inl late ↦
        let step : frame_step tb grid_w grid_h end t bmp ≡ (bmp, true) =
          rw (late, frame_step) refl in
        let out : ltb t.timestamp (end + 1) ≡ false = ground (arith, late) in
        ap (λ p. p.0) (fold_page_stop (frame_step tb grid_w grid_h end) t l bmp bmp step)
        ∙ rw out (
            ap (λ x. painted x bmp)
              (sym (until_none (end + 1) t.timestamp l (ground (arith, late)) asc.0)))
    | inr within ↦
        let step : frame_step tb grid_w grid_h end t bmp
            ≡ (paint_transfer tb grid_w grid_h t bmp, false) =
          rw (within, frame_step) refl in
        let inside : ltb t.timestamp (end + 1) ≡ true = ground (arith, within) in
        ap (λ p. p.0) (fold_page_more (frame_step tb grid_w grid_h end) t l bmp _ step)
        ∙ rw inside (fold_page-frame_step end l _ asc.1)
  ]

  -- The transfers up to a time are those before an earlier time and then those between.
  painted_split :
      (from end : ℕ) (l : List Transfer) (bmp : List ℕ)
      → from ≤ end
      → IsAscending l
      → painted (until end (since from l)) (painted (until from l) bmp) ≡ painted (until end l) bmp
  unfolding painted until since IsAscending
  painted_split from end [] bmp h asc = refl
  painted_split from end (t ∷ l) bmp h asc = elim (Bool-cases (leb from t.timestamp)) [
    | inl later ↦
        let out : ltb t.timestamp from ≡ false = ground (arith, later) in
        let none_before = until_none from t.timestamp l (ground (arith, later)) asc.0 in
        let all_after = since_above from t.timestamp l (ground (arith, later)) asc.0 in
        rw (later, out) (rw (none_before, all_after) refl)
    | inr before ↦
        let early : ltb t.timestamp from ≡ true = ground (arith, before) in
        let inside : ltb t.timestamp end ≡ true = ground (arith, before) in
        rw (before, early, inside) (painted_split from end l _ h asc.1)
  ]

module _ {B S : Type 0} (encode : List ℕ → B) (tb : TbLib) {server : TbServer S}
    {ledger : S → List Transfer} (laws : QueryLaws server ledger)
    (read_blob : AnchorRef → Option (List ℕ)) (ts_ms : ℕ) (v : Service) (s : S) where
  -- The canvas at the end of the millisecond.
  abbrev pub canvas_at : List ℕ
  canvas_at = painted tb v.grid_w v.grid_h (until (end_ns ts_ms + 1) (ledger s)) (blank v)

  abbrev pub IsFrame : Frame B → Type 0
  IsFrame f = (f ≡ frame (encode canvas_at) ts_ms) ⊎ (f ≡ fold_error too_broad)

  folded-IsFrame :
      (r : Folded (List ℕ))
      → IsFolded max_frame_pages canvas_at r
      → IsFrame (folded_frame encode tb server read_blob ts_ms r.err r.acc)
  folded-IsFrame r (inl (ok, acc)) = inl (rw ok (rw acc refl))
  folded-IsFrame r (inr (_, broad)) = inr (rw broad refl)

  -- Over a ledger in ascending order that answers every query: for a time before the latest paint,
  -- where the checkpoint that `FrameAt` picks is the canvas of all transfers before the time that
  -- comes with it, and that time is not past the frame's, `FrameAt` returns the canvas of all
  -- posted claims up to the end of the millisecond asked for, or `ErrFrameTooBroad`.
  pub frame_at-painted :
      (start : List ℕ) (from : ℕ)
      → ts_ms < v.last_paint_ms
      → fold_start read_blob ts_ms v ≡ some (start, from)
      → start ≡ painted tb v.grid_w v.grid_h (until from (ledger s)) (blank v)
      → from ≤ end_ns ts_ms + 1
      → IsFrame (frame_at encode tb server read_blob ts_ms v s)
  unfolding frame_at
  frame_at-painted start from older chosen sound order =
      let past : leb v.last_paint_ms ts_ms ≡ false = ground (arith, older) in
      let scanned : (fold_page (frame_step tb v.grid_w v.grid_h (end_ns ts_ms))
            (since from (ledger s)) start).0
          ≡ canvas_at =
        fold_page-frame_step tb v.grid_w v.grid_h (end_ns ts_ms) (since from (ledger s)) start
          (IsAscending-since from (ledger s) (laws.ascending s))
        ∙ ap (painted tb v.grid_w v.grid_h (until (end_ns ts_ms + 1) (since from (ledger s)))) sound
        ∙ painted_split tb v.grid_w v.grid_h from (end_ns ts_ms + 1) (ledger s) (blank v) order
            (laws.ascending s) in
      rw (past, chosen)
        (folded-IsFrame
          (fold_from server (frame_step tb v.grid_w v.grid_h (end_ns ts_ms)) max_frame_pages s
            max_frame_pages from 0 start)
          (subst
            (λ x. IsFolded max_frame_pages x (
              fold_from server (frame_step tb v.grid_w v.grid_h (end_ns ts_ms)) max_frame_pages s
                max_frame_pages from 0 start))
            scanned
            (fold_from-fold_page laws (frame_step tb v.grid_w v.grid_h (end_ns ts_ms))
              max_frame_pages s max_frame_pages from 0 start
              (inr (omega arith, omega arith, omega arith)))))
