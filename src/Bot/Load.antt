-- ===== src/Bot/Load.antt =====
-- `LoadPaint` and `paintTarget` of internal/bot/image.go. os.ReadFile, image.Decode, strings.ToLower,
-- strings.ToUpper and the runes of a string are parameters.
mod Tests
pub mod Scanline
pub mod Queue
use pixel_beetle.Prelude.{
  ℕ, zero, suc, ◌+◌, ◌%◌, ◌^◌, ◌⊎◌, inl, inr, Bool, true, false, ◌&&◌, ◌||◌, Option, none, some,
  List, [], ◌∷◌, ◌++◌, map, ltb, ◌==◌, if◌then◌else◌, length, same_bytes, codes, pos, negsuc,
  get_elem?, set,
}
use pixel_beetle.TbClient.External.{TbLib, TbServer}
use pixel_beetle.TbClient.Ids.{pixel_id}
use pixel_beetle.TbClient.Client.{TbError, ensure_accounts, fund}
use pixel_beetle.Bot.Blueprint.{Placement, Blueprint, grown, Merged, merge, scanned_blueprint}
use pixel_beetle.Bot.Blueprint.TextArt.{ArtError, is_nil, parse_text_art}
use pixel_beetle.Bot.Shapes.Circle.{Mark}
use pixel_beetle.Bot.Shapes.Parse.{ShapeError, Shape, compose_shapes}
use pixel_beetle.Bot.Image.{Image, image_to_blueprint}
use pixel_beetle.Bot.Paint.{shifted, Pool, seeded, resolve_paint_offset}

-- The fields of `Config` that the painter reads; a pair is `none` where its `Set` flag is false.
pub record Config : Type 0 where
  pub grid_w : ℕ
  pub grid_h : ℕ
  pub blueprint_path : List ℕ
  pub draws : List (List ℕ)
  pub paint_size : Option (ℕ × ℕ)
  pub paint_offset : Option (ℕ × ℕ)

pub data LoadError : Type 0 where
  unreadable unsupported undecodable empty_image : LoadError
  art : ArtError → LoadError
  draw : ShapeError → LoadError

abbrev pub Loaded : Type 0
Loaded = LoadError ⊎ Blueprint

abbrev pub empty_blueprint : Blueprint
empty_blueprint = record { w = 0; h = 0; placements = [] }

unfoldable pub paint_target : Config → ℕ × ℕ
paint_target cfg = elim cfg.paint_size [ none ↦ (cfg.grid_w, cfg.grid_h) | some size ↦ size ]

-- The text from the last dot on behind the last slash; `none` is that there is none.
abbrev pub keep_dot : ℕ → List ℕ → Option (List ℕ) → Option (List ℕ)
keep_dot c s (some ext) = some ext
keep_dot c s none = if c == 46 then some (c ∷ s) else none

abbrev pub has_slash : List ℕ → Bool
has_slash [] = false
has_slash (c ∷ s) = c == 47 || has_slash s

unfoldable pub last_dot : List ℕ → Option (List ℕ)
last_dot [] = none
last_dot (c ∷ s) = let rest = last_dot s in if has_slash s then rest else keep_dot c s rest

-- `filepath.Ext`
abbrev pub or_empty : Option (List ℕ) → List ℕ
or_empty none = []
or_empty (some s) = s

unfoldable pub path_ext : List ℕ → List ℕ
unfolding last_dot
path_ext path = or_empty (last_dot path)

-- The second loop of `compose`, over placements that may stand left of the canvas: such a one only
-- counts for the height.
unfoldable pub merge_marks : List Mark → Merged → Merged
merge_marks [] m = m
merge_marks (k ∷ ks) m = merge_marks ks (elim k.x [
  | pos x ↦ record {
    cells = record { x = x; y = k.y; color = k.color } ∷ m.cells;
    w = grown x m.w;
    h = grown k.y m.h;
  }
  | negsuc x ↦ record m { h = grown k.y m.h }
])

unfoldable pub compose_marks : Blueprint → List Mark → Blueprint
unfolding merge merge_marks
compose_marks base more =
    scanned_blueprint
      (merge_marks more (merge base.placements (record { cells = []; w = base.w; h = base.h })))

module _ (read_file : List ℕ → Option (List ℕ)) (decode : List ℕ → Option Image)
    (to_lower to_upper : List ℕ → List ℕ) (runes : List ℕ → List ℕ)
    (runes_at : List ℕ → List (ℕ × ℕ)) where
  abbrev pub art_result : ArtError ⊎ Blueprint → Loaded
  art_result (inl e) = inl (art e)
  art_result (inr bp) = inr bp

  abbrev pub scaled_result : Option Blueprint → Loaded
  scaled_result none = inl empty_image
  scaled_result (some bp) = inr bp

  abbrev pub image_result : Config → Option Image → Loaded
  image_result cfg none = inl undecodable
  image_result cfg (some img) =
      let (max_w, max_h) = paint_target cfg in scaled_result (image_to_blueprint img max_w max_h)

  abbrev pub is_image_ext : List ℕ → Bool
  is_image_ext ext =
      same_bytes ext (codes ".png")
      || same_bytes ext (codes ".jpg")
      || same_bytes ext (codes ".jpeg")
      || same_bytes ext (codes ".gif")

  -- The `switch` on the extension.
  abbrev pub load_ext : Config → List ℕ → List ℕ → Loaded
  load_ext cfg bytes ext =
      if same_bytes ext (codes ".txt")
      then art_result (parse_text_art runes bytes)
      else if is_image_ext ext
      then image_result cfg (decode bytes)
      else inl unsupported

  abbrev pub load_bytes : Config → Option (List ℕ) → Loaded
  load_bytes cfg none = inl unreadable
  load_bytes cfg (some bytes) = load_ext cfg bytes (to_lower (path_ext cfg.blueprint_path))

  abbrev pub load_blueprint : Config → Loaded
  load_blueprint cfg =
      if is_nil cfg.blueprint_path
      then inr empty_blueprint
      else load_bytes cfg (read_file cfg.blueprint_path)

  abbrev pub drawn : Blueprint → Shape → Loaded
  drawn bp (inl e) = inl (draw e)
  drawn bp (inr ks) = inr (compose_marks bp ks)

  abbrev pub load_draws : List (List ℕ) → Loaded → Loaded
  load_draws draws (inl e) = inl e
  load_draws [] (inr bp) = inr bp
  load_draws (d ∷ draws) (inr bp) = drawn bp (compose_shapes to_upper runes_at (d ∷ draws))

  unfoldable pub load_paint : Config → Loaded
  unfolding paint_target path_ext compose_marks parse_text_art image_to_blueprint compose_shapes
  load_paint cfg = load_draws cfg.draws (load_blueprint cfg)
