-- ===== src/Game/Anchors/Boundary.antt =====
-- The loop of `syncTo` and `fillTo` (internal/game/anchors.go) and the next boundary.
use pixel_beetle.Prelude.{
  ℕ, zero, suc, ◌+◌, ◌*◌, ◌/◌, ◌<◌, ◌≡◌, refl, ◌∙◌, inl, inr, List, arith, leb, ◌==◌, Bool-cases,
}
use pixel_beetle.Game.Anchors.{
  AnchorGrid, OnEvict, anchor_interval_ms, recorded, evict_first, evict, insert_anchor, fill,
  sync_to,
}

module _ {F : Type 0} (on_evict : OnEvict F) where
  next_boundary-evict :
      (g : AnchorGrid) (f : F) → (evict on_evict g f).0.next_boundary ≡ g.next_boundary
  unfolding evict evict_first
  next_boundary-evict g f = ground arith

  next_boundary-recorded :
      (ts : ℕ) (bmp : List ℕ) (g : AnchorGrid) → (recorded ts bmp g).next_boundary ≡ g.next_boundary
  next_boundary-recorded ts bmp g = ground arith

  pub next_boundary-insert_anchor :
      (ts : ℕ) (bmp : List ℕ) (g : AnchorGrid) (f : F)
      → (insert_anchor on_evict ts bmp g f).0.next_boundary ≡ g.next_boundary
  unfolding insert_anchor
  next_boundary-insert_anchor ts bmp g f =
      next_boundary-evict (recorded ts bmp g) f ∙ next_boundary-recorded ts bmp g

  -- With enough rounds the loop passes `ms`.
  fill_passes :
      (fuel ms : ℕ) (bmp : List ℕ) (g : AnchorGrid) (f : F)
      → ms < g.next_boundary + fuel * anchor_interval_ms
      → ms < (fill on_evict fuel ms bmp g f).0.next_boundary
  unfolding fill
  fill_passes zero ms bmp g f h = omega arith
  fill_passes (suc fuel) ms bmp g f h = elim (Bool-cases (leb g.next_boundary ms)) [
    | inr past ↦ rw (past, fill) (ground arith)
    | inl due ↦
        rw (due, fill)
          (fill_passes fuel ms bmp _ _
            (omega (arith, next_boundary-insert_anchor g.next_boundary bmp g f)))
  ]

  -- Nothing is due.
  fill_idle :
      (fuel ms : ℕ) (bmp : List ℕ) (g : AnchorGrid) (f : F)
      → ms < g.next_boundary
      → fill on_evict fuel ms bmp g f ≡ (g, f)
  unfolding fill
  fill_idle zero ms bmp g f h = refl
  fill_idle (suc fuel) ms bmp g f h = ground arith

  -- After `syncTo` the next boundary lies after the event: the loop has ended by its test.
  pub sync_to_passes :
      (ts : ℕ) (bmp : List ℕ) (g : AnchorGrid) (f : F)
      → ts / 1_000_000 < (sync_to on_evict ts bmp g f).0.next_boundary
  unfolding sync_to
  sync_to_passes ts bmp g f = fill_passes _ _ bmp _ f (ground arith)

  sync_to_idle :
      (ts : ℕ) (bmp : List ℕ) (g : AnchorGrid) (f : F)
      → ts / 1_000_000 < g.next_boundary
      → sync_to on_evict ts bmp g f ≡ (g, f)
  unfolding sync_to
  sync_to_idle ts bmp g f h = elim (Bool-cases (g.next_boundary == 0)) [
    | inl zero_boundary ↦ absurd (ground arith)
    | inr started ↦ rw started (fill_idle _ _ bmp g f h)
  ]

  -- A second `syncTo` at the same time changes nothing, whatever the bitmap then is.
  pub sync_to_again :
      (ts : ℕ) (bmp bmp' : List ℕ) (g : AnchorGrid) (f f' : F)
      → sync_to on_evict ts bmp' (sync_to on_evict ts bmp g f).0 f'
        ≡ ((sync_to on_evict ts bmp g f).0, f')
  sync_to_again ts bmp bmp' g f f' =
      sync_to_idle ts bmp' (sync_to on_evict ts bmp g f).0 f' (sync_to_passes ts bmp g f)
