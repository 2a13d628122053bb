-- ===== src/Bot/Load/Queue/Started.antt =====
-- What the start of `paintRun` (internal/bot/paint.go) queues for a drawing that `LoadPaint` returned.
use pixel_beetle.Prelude.{
  ℕ, ◌-◌, ◌<◌, ◌≡◌, ◌⊎◌, refl, sym, ap, subst, ◌∙◌, inl, inr, ◌&&◌, Option, none, some, List, map,
  length, leb, arith, Bool-cases, Option-cases, same_bytes, codes,
}
use pixel_beetle.TbClient.External.{TbLib, TbServer}
use pixel_beetle.Bot.Blueprint.{Placement, Blueprint}
use pixel_beetle.Bot.Image.{Image}
use pixel_beetle.Bot.Paint.{shifted, resolve_paint_offset}
use pixel_beetle.Bot.Paint.Offset.{resolve_paint_offset-inside}
use pixel_beetle.Bot.Preview.Rendered.{drawn_color}
use pixel_beetle.Bot.Load.{load_paint}
use pixel_beetle.Bot.Load.Scanline.{IsDrawing, IsLoaded, load_paint-IsLoaded}
use pixel_beetle.Bot.Load.Queue.{
  PaintConfig, Start, refused, worker_count, ordered, queued, placed_at, paint_start,
}
use pixel_beetle.Bot.Load.Queue.Provisioned.{IsProvisionedFor, provisioned-IsProvisionedFor}
use pixel_beetle.Bot.Load.Queue.Counts.{
  count_puts, holds, AreBelow, IsReordered, shuffle_placements-IsReordered, count_puts-IsScanline,
  painted-inside, count_puts-shifted,
}

-- The list puts on each cell what the drawing at the offset has there, once, and lies on the grid.
abbrev pub IsQueue : PaintConfig → Blueprint → ℕ × ℕ → List Placement → Type 0
IsQueue cfg bp off ps =
    ((x y c : ℕ) → count_puts x y c ps ≡ holds c (drawn_color bp off x y))
    × ((x y c : ℕ)
        → drawn_color bp off x y ≡ some c
        → (x < cfg.config.grid_w) × (y < cfg.config.grid_h))

drawn_color-holds :
    (bp : Blueprint) (off : ℕ × ℕ) (x y c : ℕ)
    → IsDrawing bp
    → count_puts x y c (map (shifted off) bp.placements) ≡ holds c (drawn_color bp off x y)
drawn_color-holds bp (ox, oy) x y c s =
    let once = count_puts-IsScanline bp.w bp.h 0 0 bp.placements (x - ox) (y - oy) c s in
    count_puts-shifted ox oy bp.placements x y c
    ∙ elim (Bool-cases (leb ox x && leb oy y)) [ inl t ↦ rw t once | inr t ↦ rw t refl ]

drawn_color-inside :
    (cfg : PaintConfig) (bp : Blueprint) (off : ℕ × ℕ) (x y c : ℕ)
    → IsDrawing bp
    → resolve_paint_offset cfg.config.paint_offset cfg.config.grid_w cfg.config.grid_h bp ≡ some off
    → drawn_color bp off x y ≡ some c
    → (x < cfg.config.grid_w) × (y < cfg.config.grid_h)
drawn_color-inside cfg bp (ox, oy) x y c s e h = elim (Bool-cases (leb ox x && leb oy y)) [
  | inl t ↦
      let inside =
        resolve_paint_offset-inside cfg.config.paint_offset cfg.config.grid_w cfg.config.grid_h bp
          (ox, oy) (record { x = x - ox; y = y - oy; color = c }) e
          (painted-inside bp.w bp.h 0 0 bp.placements (x - ox) (y - oy) c s
            (ground (arith, t, h))) in
      (ground (arith, t, inside), ground (arith, t, inside))
  | inr t ↦ absurd (ground (arith, t, h))
]

moved-IsQueue :
    (cfg : PaintConfig) (bp : Blueprint) (off : ℕ × ℕ) (ps : List Placement)
    → IsDrawing bp
    → resolve_paint_offset cfg.config.paint_offset cfg.config.grid_w cfg.config.grid_h bp ≡ some off
    → IsReordered (map (shifted off) bp.placements) ps
    → IsQueue cfg bp off ps
moved-IsQueue cfg bp off ps s e (_, counts) = (
  λ x y c. counts x y c ∙ drawn_color-holds bp off x y c s,
  λ x y c. drawn_color-inside cfg bp off x y c s e,
)

-- The exchanges of rand.Shuffle stay inside the list.
abbrev pub AreInRange : (ℕ → List (ℕ × ℕ)) → Type 0
AreInRange shuffled = (n : ℕ) → AreBelow n (shuffled n)

ordered-IsReordered :
    (shuffled : ℕ → List (ℕ × ℕ)) (order : List ℕ) (ps : List Placement)
    → AreInRange shuffled
    → (qs : List Placement) × (ordered shuffled order ps ≡ some qs) × IsReordered ps qs
unfolding ordered
ordered-IsReordered shuffled order ps h = elim (Bool-cases (same_bytes order (codes "random"))) [
  | inl t ↦
      let (qs, e, r) = shuffle_placements-IsReordered (shuffled (length ps)) ps (h (length ps)) in
      (qs, rw (ordered, t) e, r)
  | inr t ↦ (ps, rw (ordered, t) refl, (refl, λ x y c. refl))
]

module _ {S : Type 0} (tb : TbLib) (server : TbServer S) where
  -- How a run starts: refused where the offset is, else with a queue that is provisioned for.
  abbrev pub IsStarted : PaintConfig → Blueprint → S → Start × S → Type 0
  IsStarted cfg bp s out =
      let resolved =
        resolve_paint_offset cfg.config.paint_offset cfg.config.grid_w cfg.config.grid_h bp in
      ((resolved ≡ none) × (out ≡ (refused, s)))
      ⊎ ((off : ℕ × ℕ) × (ps : List Placement) × (resolved ≡ some off)
          × IsQueue cfg bp off ps
          × IsProvisionedFor tb server (worker_count cfg.paint_workers) ps cfg.direct s out)

  placed_at-IsStarted :
      (shuffled : ℕ → List (ℕ × ℕ)) (cfg : PaintConfig) (bp : Blueprint) (off : ℕ × ℕ) (s : S)
      → AreInRange shuffled
      → IsDrawing bp
      → resolve_paint_offset cfg.config.paint_offset cfg.config.grid_w cfg.config.grid_h bp
        ≡ some off
      → IsStarted cfg bp s (placed_at tb server shuffled cfg bp (some off) s)
  placed_at-IsStarted shuffled cfg bp off s h drawing e =
      let (ps, f, r) =
        ordered-IsReordered shuffled cfg.paint_order (map (shifted off) bp.placements) h in
      let workers = worker_count cfg.paint_workers in
      inr (
        off,
        ps,
        e,
        moved-IsQueue cfg bp off ps drawing e r,
        subst (λ o. IsProvisionedFor tb server workers ps cfg.direct s (queued tb server cfg o s))
            (sym f) (provisioned-IsProvisionedFor tb server workers cfg.direct ps s),
      )

  -- A drawing in scanline order is refused if its offset is, with nothing written. Else the run does
  -- not panic: it provisions and queues, in some order, exactly the cells and colors that the drawing at
  -- that offset has, each once and all on the grid.
  paint_start-IsStarted :
      (shuffled : ℕ → List (ℕ × ℕ)) (cfg : PaintConfig) (bp : Blueprint) (s : S)
      → AreInRange shuffled
      → IsDrawing bp
      → IsStarted cfg bp s (paint_start tb server shuffled cfg bp s)
  unfolding paint_start
  paint_start-IsStarted shuffled cfg bp s h drawing =
      elim (Option-cases
        (resolve_paint_offset cfg.config.paint_offset cfg.config.grid_w cfg.config.grid_h bp)) [
          | inl e ↦ inl (e, ap (λ o. placed_at tb server shuffled cfg bp o s) e)
          | inr (off, e) ↦
              subst (λ o. IsStarted cfg bp s (placed_at tb server shuffled cfg bp o s)) (sym e)
                (placed_at-IsStarted shuffled cfg bp off s h drawing e)
        ]

module _ (read_file : List ℕ → Option (List ℕ)) (decode : List ℕ → Option Image)
    (to_lower to_upper : List ℕ → List ℕ) (runes : List ℕ → List ℕ)
    (runes_at : List ℕ → List (ℕ × ℕ)) where
  -- If the exchanges of rand.Shuffle stay inside the list, a run on what LoadPaint returned does not
  -- panic. It is refused if the offset is, with nothing sent. Else it has, in some order, exactly the
  -- cells and colors that the drawing has at that offset, each once and all on the grid. With a client it
  -- asks for the accounts of these cells and then funds them one by one, and the first error ends
  -- it. After that, or without a client, every one of them is queued with no attempt and open;
  -- without a cell it ends.
  pub load_paint-paint_start :
      {S : Type 0} (tb : TbLib) (server : TbServer S) (shuffled : ℕ → List (ℕ × ℕ))
      (cfg : PaintConfig) (bp : Blueprint) (s : S)
      → AreInRange shuffled
      → load_paint read_file decode to_lower to_upper runes runes_at cfg.config ≡ inr bp
      → IsStarted tb server cfg bp s (paint_start tb server shuffled cfg bp s)
  load_paint-paint_start tb server shuffled cfg bp s h e =
      paint_start-IsStarted tb server shuffled cfg bp s h (
        subst IsLoaded e
          (load_paint-IsLoaded read_file decode to_lower to_upper runes runes_at cfg.config))
