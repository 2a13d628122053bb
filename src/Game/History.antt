-- ===== src/Game/History.antt =====
-- The history view of internal/game/game.go: `FrameAt` over the checkpoints and the ledger. The base64
-- encoding is a parameter, as is the read of a bitmap from the sidecar file (`none` is an error).
pub mod Frames
use pixel_beetle.Prelude.{
  ℕ, ◌+◌, ◌*◌, Bool, true, false, Option, none, some, List, [], ◌∷◌, ltb, leb, if◌then◌else◌,
  length, set, replicate,
}
use pixel_beetle.TbClient.External.{Transfer, TbLib, TbServer}
use pixel_beetle.TbClient.Transfers.{is_posted_claim}
use pixel_beetle.Game.Anchors.{AnchorRef, checkpoint, sidecar_at}
use pixel_beetle.Game.Fold.{Folded, FoldError, fold_from, max_frame_pages}
use pixel_beetle.Game.Service.{Service, paint_byte, cell_index}

-- The frame and its effective time.
pub data Frame (B : Type 0) : Type 0 where
  frame : B → ℕ → Frame B
  sidecar_error : Frame B
  fold_error : FoldError → Frame B

-- `copy(dst, src)`
unfoldable pub copy : List ℕ → List ℕ → List ℕ
copy [] src = []
copy (d ∷ dst) [] = d ∷ dst
copy (d ∷ dst) (b ∷ src) = b ∷ copy dst src

abbrev pub paint_posted : ℕ → Option (ℕ × ℕ × ℕ) → List ℕ → List ℕ
paint_posted grid_w none bmp = bmp
paint_posted grid_w (some (x, y, color)) bmp = set bmp (cell_index grid_w x y) (paint_byte color)

module _ (tb : TbLib) (grid_w grid_h : ℕ) where
  -- What a transfer does to a bitmap.
  abbrev pub paint_transfer : Transfer → List ℕ → List ℕ
  paint_transfer t bmp = paint_posted grid_w (is_posted_claim tb t grid_w grid_h) bmp

  -- The callback of `FrameAt`.
  abbrev pub frame_step : ℕ → Transfer → List ℕ → List ℕ × Bool
  frame_step to_ns t bmp =
      if ltb to_ns t.timestamp then (bmp, true) else (paint_transfer t bmp, false)

-- The last nanosecond of the frame's millisecond.
abbrev pub end_ns : ℕ → ℕ
end_ns ts_ms = ts_ms * 1_000_000 + 999_999

abbrev pub blank : Service → List ℕ
blank v = replicate (length v.bmp) 0

module _ (read_blob : AnchorRef → Option (List ℕ)) where
  abbrev pub blob_start : AnchorRef → Option (List ℕ) → Service → Option (List ℕ × ℕ)
  blob_start ref none v = none
  blob_start ref (some blob) v = some (copy (blank v) blob, ref.ts_ms * 1_000_000)

  abbrev pub sidecar_start : Option AnchorRef → Service → Option (List ℕ × ℕ)
  sidecar_start none v = some (blank v, 0)
  sidecar_start (some ref) v = blob_start ref (read_blob ref) v

  abbrev pub checkpoint_start : ℕ → Option (List ℕ × ℕ) → Service → Option (List ℕ × ℕ)
  checkpoint_start ts_ms none v = sidecar_start (sidecar_at ts_ms v.ag) v
  checkpoint_start ts_ms (some (a, start_ns)) v = some (copy (blank v) a, start_ns)

  -- The bitmap that the fold starts from and its first nanosecond; `none` is an error of the sidecar.
  unfoldable pub fold_start : ℕ → Service → Option (List ℕ × ℕ)
  fold_start ts_ms v = checkpoint_start ts_ms (checkpoint ts_ms v.ag) v

module _ {B S : Type 0} (encode : List ℕ → B) (tb : TbLib) (server : TbServer S)
    (read_blob : AnchorRef → Option (List ℕ)) where
  abbrev pub folded_frame : ℕ → Option FoldError → List ℕ → Frame B
  folded_frame ts_ms none bmp = frame (encode bmp) ts_ms
  folded_frame ts_ms (some e) bmp = fold_error e

  abbrev pub frame_from : ℕ → Option (List ℕ × ℕ) → Service → S → Frame B
  frame_from ts_ms none v s = sidecar_error
  frame_from ts_ms (some (bmp, from)) v s =
      let r =
        fold_from server (frame_step tb v.grid_w v.grid_h (end_ns ts_ms)) max_frame_pages s
          max_frame_pages from 0 bmp in
      folded_frame ts_ms r.err r.acc

  -- `FrameAt`; `max_frame_pages` rounds are all that the bound on the pages allows.
  unfoldable pub frame_at : ℕ → Service → S → Frame B
  unfolding fold_from fold_start
  frame_at ts_ms v s =
      if leb v.last_paint_ms ts_ms
      then frame (encode (copy (blank v) v.bmp)) v.last_paint_ms
      else frame_from ts_ms (fold_start read_blob ts_ms v) v s
