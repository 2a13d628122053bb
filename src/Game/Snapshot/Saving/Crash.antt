-- ===== src/Game/Snapshot/Saving/Crash.antt =====
-- What a save of internal/game/persist.go leaves on the disk, when it fails and when the process dies.
use pixel_beetle.Prelude.{
  ℕ, zero, suc, ◌≡◌, refl, ap, ◌∙◌, ◌⊎◌, inl, inr, true, Option, none, some, List, [], ◌∷◌, arith,
  take,
}
use pixel_beetle.Game.Service.{Service}
use pixel_beetle.Game.Warm.{Build}
use pixel_beetle.Game.Snapshot.{write_snapshot, load_snapshot}
use pixel_beetle.Game.Snapshot.RoundTrip.{IsSaveable, build_of, load_snapshot-write_snapshot}
use pixel_beetle.Game.Snapshot.Saving.{
  Disk, Faults, SaveError, SaveOp, run_ops, apply_op, write_ops, save_ops, save_snapshot,
}

-- What a result of the save promises of the snapshot on the disk.
abbrev pub IsSaved : Option SaveError → Service → Disk → Disk → Type 0
IsSaved none v d d' = (v.warmed ≡ true) × (d'.target ≡ some (write_snapshot v))
IsSaved (some e) v d d' = d'.target ≡ d.target

-- Whether a temporary file is left: none behind a save that succeeded, and behind any other only where
-- it cannot be removed.
abbrev pub IsClean : Option SaveError → Faults → Disk → Type 0
IsClean none os d' = d'.temp ≡ none
IsClean (some e) os d' = (d'.temp ≡ none) ⊎ (os.remove_fails ≡ true)

-- The states that the disk goes through.
abbrev AllStates : (Disk → Type 0) → List SaveOp → Disk → Type 0
AllStates P [] d = P d
AllStates P (o ∷ l) d = P d × AllStates P l (apply_op o d)

take-AllStates :
    (P : Disk → Type 0) (l : List SaveOp) (d : Disk) (n : ℕ)
    → AllStates P l d
    → P (run_ops (take n l) d)
take-AllStates P [] d zero h = h
take-AllStates P [] d (suc n) h = h
take-AllStates P (o ∷ l) d zero h = h.0
take-AllStates P (o ∷ l) d (suc n) h = take-AllStates P l (apply_op o d) n h.1

abbrev IsOldOrNew : List ℕ → Disk → Disk → Type 0
IsOldOrNew b d d' = (d'.target ≡ d.target) ⊎ (d'.target ≡ some b)

write_ops-IsOldOrNew :
    (os : Faults) (b : List ℕ) (d d' : Disk)
    → d'.target ≡ d.target
    → AllStates (IsOldOrNew b d) (write_ops os b).0 d'
write_ops-IsOldOrNew os b d d' h = ground arith

save_ops-IsOldOrNew :
    (os : Faults) (v : Service) (d : Disk)
    → AllStates (IsOldOrNew (write_snapshot v) d) (save_ops os v).0 d
unfolding save_ops
save_ops-IsOldOrNew os v d = ground (
  arith,
  write_ops-IsOldOrNew os (write_snapshot v) d (record d { temp = some []; locked = true }) refl,
)

-- Without an error the snapshot is the service's, and the service was warmed up; with any error
-- it is the one from before. No temporary file stays behind, unless the save failed and the file
-- cannot be removed.
pub save_snapshot-IsSaved :
    (os : Faults) (v : Service) (d : Disk)
    → d.temp ≡ none
    → IsSaved (save_snapshot os v d).1 v d (save_snapshot os v d).0
      × IsClean (save_snapshot os v d).1 os (save_snapshot os v d).0
unfolding save_snapshot save_ops
save_snapshot-IsSaved os v d h = ground (arith, h)

-- A process that dies at any point of a save leaves the old snapshot or the new one, whole.
pub crash-save_ops :
    (os : Faults) (v : Service) (d : Disk) (n : ℕ)
    → ((run_ops (take n (save_ops os v).0) d).target ≡ d.target)
      ⊎ ((run_ops (take n (save_ops os v).0) d).target ≡ some (write_snapshot v))
unfolding save_ops
crash-save_ops os v d n =
    take-AllStates (IsOldOrNew (write_snapshot v) d) (save_ops os v).0 d n
      (save_ops-IsOldOrNew os v d)

abbrev load_file : ℕ → ℕ → Option (List ℕ) → Option Build
load_file w h none = none
load_file w h (some b) = load_snapshot w h b

abbrev pub load_disk : ℕ → ℕ → Disk → Option Build
load_disk w h d = load_file w h d.target

-- Where a process dies at any point of a save, the next boot loads what it would have loaded before
-- the save, or the state that was being saved. The saved state fits into the fields.
pub load_disk-save_ops :
    (os : Faults) (v : Service) (d : Disk) (n : ℕ)
    → IsSaveable v
    → (load_disk v.grid_w v.grid_h (run_ops (take n (save_ops os v).0) d)
        ≡ load_disk v.grid_w v.grid_h d)
      ⊎ (load_disk v.grid_w v.grid_h (run_ops (take n (save_ops os v).0) d) ≡ some (build_of v))
load_disk-save_ops os v d n s = elim (crash-save_ops os v d n) [
  | inl e ↦ inl (ap (load_file v.grid_w v.grid_h) e)
  | inr e ↦ inr (ap (load_file v.grid_w v.grid_h) e ∙ (load_snapshot-write_snapshot v s).0)
]
