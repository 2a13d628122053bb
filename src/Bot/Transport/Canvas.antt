-- ===== src/Bot/Transport/Canvas.antt =====
-- `Claim` of internal/game/game.go leaves the bitmap as it is.
use pixel_beetle.Prelude.{
  ℕ, ◌≡◌, refl, ◌∙◌, inl, inr, ◌||◌, Option, none, some, List, lookup, leb, Bool-cases,
}
use pixel_beetle.TbClient.External.{TbLib, TbServer}
use pixel_beetle.TbClient.Transfers.{build_void}
use pixel_beetle.TbClient.Client.{TbError, submit}
use pixel_beetle.Game.Registry.{ClaimMeta, Superseded, superseded, pack, held_by_other}
use pixel_beetle.Game.Service.{
  Service, World, is_created, funded, fund_created, ensure_system_pool, ensure_pixel, unlocks,
  void_old, claim_answered, claim_free, claim,
}

-- The cells and the width of the grid.
abbrev pub canvas : Service → List ℕ × ℕ
canvas v = (v.bmp, v.grid_w)

module _ {S F : Type 0} (tb : TbLib) (server : TbServer S) where
  canvas-funded :
      (key : ℕ) (a : Option TbError × S) (w : World S F)
      → canvas (funded tb server key a w).svc ≡ canvas w.svc
  canvas-funded key (none, s) w = refl
  canvas-funded key (some e, s) w = refl

  canvas-fund_created :
      (x y : ℕ) (a : Option TbError × S) (w : World S F)
      → canvas (fund_created tb server x y a w).svc ≡ canvas w.svc
  canvas-fund_created x y (none, s) w = canvas-funded (pack x y) _ w
  canvas-fund_created x y (some e, s) w = refl

  canvas-ensure_pixel :
      (x y : ℕ) (w : World S F) → canvas (ensure_pixel tb server x y w).svc ≡ canvas w.svc
  unfolding ensure_pixel
  canvas-ensure_pixel x y w = elim (Bool-cases (is_created (pack x y) w.svc)) [
    | inl done ↦ rw done refl
    | inr missing ↦ rw missing (canvas-fund_created x y _ w)
  ]

  canvas-ensure_system_pool :
      (w : World S F) → canvas (ensure_system_pool tb server w).svc ≡ canvas w.svc
  unfolding ensure_system_pool
  canvas-ensure_system_pool w = elim (Bool-cases w.svc.sys_once) [
    | inl done ↦ rw done refl
    | inr missing ↦ rw missing refl
  ]

  canvas-void_old :
      (uuid : ℕ) (old : Option Superseded) (w : World S F)
      → canvas (void_old tb server uuid old w).svc ≡ canvas w.svc
  unfolding void_old
  canvas-void_old uuid none w = refl
  canvas-void_old uuid (some o) w =
      elim (Bool-cases
        (unlocks (submit tb server (build_void tb uuid (tb.bytes_to_uint128 o.id)) w.store).0)) [
          | inl t ↦ rw t refl
          | inr t ↦ rw t refl
        ]

  canvas-claim_answered :
      (id : ℕ) (m : ClaimMeta) (old : Option Superseded) (void_uuid : ℕ)
      → (a : Option TbError × S) (w : World S F)
      → canvas (claim_answered tb server id m old void_uuid a w).0.svc ≡ canvas w.svc
  unfolding claim_answered
  canvas-claim_answered id m old void_uuid (some e, s) w = refl
  canvas-claim_answered id m old void_uuid (none, s) w = canvas-void_old void_uuid old _

  canvas-claim_free :
      (m : ClaimMeta) (now uuid void_uuid : ℕ) (w : World S F)
      → canvas (claim_free tb server m now uuid void_uuid w).0.svc ≡ canvas w.svc
  unfolding claim_free
  canvas-claim_free m now uuid void_uuid w =
      canvas-claim_answered _ m (superseded m.player w.svc.registry) void_uuid _ _

  pub canvas-claim :
      (player x y color now now' uuid void_uuid : ℕ) (w : World S F)
      → canvas (claim tb server player x y color now now' uuid void_uuid w).0.svc ≡ canvas w.svc
  unfolding claim
  canvas-claim player x y color now now' uuid void_uuid w =
      let w' = ensure_pixel tb server x y (ensure_system_pool tb server w) in
      let same =
        canvas-ensure_pixel x y (ensure_system_pool tb server w) ∙ canvas-ensure_system_pool w in
      elim (Bool-cases (leb w.svc.grid_w x || leb w.svc.grid_h y)) [
        | inl outside ↦ rw outside refl
        | inr inside ↦
            elim (Bool-cases (held_by_other now player (lookup (pack x y) w'.svc.registry.locks))) [
              | inl held ↦ rw (inside, held) same
              | inr open_cell ↦
                  rw (inside, open_cell) (canvas-claim_free _ now' uuid void_uuid w' ∙ same)
            ]
      ]
