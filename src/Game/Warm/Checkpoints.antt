-- ===== src/Game/Warm/Checkpoints.antt =====
-- The checkpoints that `WarmCache` (internal/game/warm.go) leaves, and the frames that `FrameAt`
-- (internal/game/game.go) makes from them.
use pixel_beetle.Prelude.{
  ℕ, ◌/◌, ◌≤◌, ◌<◌, ◌≡◌, refl, sym, subst, ◌∙◌, ap, false, Option, none, some, List, [], ◌∷◌, arith,
  ltb,
}
use pixel_beetle.TbClient.External.{Transfer, TbLib}
use pixel_beetle.TbClient.Transfers.{is_posted_claim}
use pixel_beetle.Game.Anchors.{OnEvict, sync_to}
use pixel_beetle.Game.Anchors.Boundary.{sync_to_passes}
use pixel_beetle.Game.Anchors.Covered.{start_of, IsCovered, sync_to-IsCovered}
use pixel_beetle.Game.Fold.{fold_page}
use pixel_beetle.Game.Fold.Ledger.{IsAscending, until, until_none}
use pixel_beetle.Game.History.Frames.{painted}
use pixel_beetle.Game.Warm.{Build, fold_claim, warm_step}
use pixel_beetle.Game.Warm.Replay.{bmp-fold_claim}

ag-fold_claim :
    (grid_w ms : ℕ) (c : Option (ℕ × ℕ × ℕ)) (b : Build) → (fold_claim grid_w ms c b).ag ≡ b.ag
ag-fold_claim grid_w ms none b = refl
ag-fold_claim grid_w ms (some (x, y, color)) b = refl

-- No transfer of an ascending list is before its first one.
until_early :
    (end : ℕ) (t : Transfer) (l : List Transfer)
    → end ≤ t.timestamp
    → IsAscending (t ∷ l)
    → until end (t ∷ l) ≡ []
unfolding until IsAscending
until_early end t l h asc =
    let out : ltb t.timestamp end ≡ false = ground (arith, h) in
    rw out (until_none end t.timestamp l (omega (arith, h)) asc.0)

until_late :
    (end : ℕ) (t : Transfer) (l : List Transfer)
    → t.timestamp < end
    → until end (t ∷ l) ≡ t ∷ until end l
unfolding until
until_late end t l h = ground (arith, h)

module _ {F : Type 0} (on_evict : OnEvict F) (tb : TbLib) (grid_w grid_h : ℕ)
    (canvas : ℕ → List ℕ) where
  -- From the next boundary on the canvas is what the remaining transfers make of the bitmap.
  abbrev pub IsAhead : List Transfer → Build → Type 0
  IsAhead l b =
      (i : ℕ)
      → start_of b.ag.next_boundary ≤ i
      → canvas i ≡ painted tb grid_w grid_h (until i l) b.bmp

  pub record IsBuilt (l : List Transfer) (b : Build) : Type 0 where
    pub covered : IsCovered canvas b.ag
    pub ahead : IsAhead l b

  warm_step-IsBuilt :
      (t : Transfer) (l : List Transfer) (b : Build) (f : F)
      → IsAscending (t ∷ l)
      → IsBuilt (t ∷ l) b
      → IsBuilt l (warm_step on_evict tb grid_w grid_h t (b, f)).0.0
  unfolding warm_step painted
  warm_step-IsBuilt t l b f asc h =
      let synced = (sync_to on_evict t.timestamp b.bmp b.ag f).0 in
      let same =
        ag-fold_claim grid_w (t.timestamp / 1_000_000) (is_posted_claim tb t grid_w grid_h)
          (record b { ag = synced }) in
      let (covered, later) =
        sync_to-IsCovered canvas on_evict t.timestamp b.bmp b.ag f
          (λ i low high.
            h.ahead (start_of i) (omega (arith, low))
            ∙ ap (λ x. painted tb grid_w grid_h x b.bmp)
                (until_early (start_of i) t l (omega (arith, high)) asc))
          h.covered in
      let past = sync_to_passes on_evict t.timestamp b.bmp b.ag f in
      let reached = ap (λ ag. ag.next_boundary) same in
      record {
        covered = subst (IsCovered canvas) (sym same) covered;
        ahead = λ i low.
            h.ahead i (omega (arith, low, reached, later))
            ∙ ap (λ x. painted tb grid_w grid_h x b.bmp)
                (until_late i t l (omega (arith, low, reached, past)))
            ∙ ap (painted tb grid_w grid_h (until i l)) (
                sym (
                  bmp-fold_claim grid_w (t.timestamp / 1_000_000)
                    (is_posted_claim tb t grid_w grid_h) (record b { ag = synced })));
      }

  pub fold_page-IsBuilt :
      (l : List Transfer) (b : Build) (f : F)
      → IsAscending l
      → IsBuilt l b
      → IsBuilt [] (fold_page (warm_step on_evict tb grid_w grid_h) l (b, f)).0.0
  unfolding fold_page warm_step IsAscending
  fold_page-IsBuilt [] b f asc h = h
  fold_page-IsBuilt (t ∷ l) b f asc h =
      fold_page-IsBuilt l (warm_step on_evict tb grid_w grid_h t (b, f)).0.0
        (warm_step on_evict tb grid_w grid_h t (b, f)).0.1 asc.1 (warm_step-IsBuilt t l b f asc h)
