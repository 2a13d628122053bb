-- ===== src/Game/Snapshot/Saving.antt =====
-- The file work of `SaveSnapshot` (internal/game/persist.go): the calls that take effect on the disk,
-- in their order, where the outcome of each system call is a parameter. A process that dies has done
-- a prefix of them. The disk has the snapshot, one temporary file and the lock file.
pub mod Crash
use pixel_beetle.Prelude.{
  ℕ, Bool, true, false, not, Option, none, some, List, [], ◌∷◌, if◌then◌else◌,
}
use pixel_beetle.Game.Service.{Service}
use pixel_beetle.Game.Snapshot.{write_snapshot}

pub record Disk : Type 0 where
  pub target : Option (List ℕ)
  pub temp : Option (List ℕ)
  pub locked : Bool

-- Which system calls fail, and what reaches the temporary file where the flush fails.
pub record Faults : Type 0 where
  pub lock_open_fails : Bool
  pub flock_fails : Bool
  pub create_fails : Bool
  pub flush_fails : Bool
  pub sync_fails : Bool
  pub close_fails : Bool
  pub rename_fails : Bool
  pub remove_fails : Bool
  pub written : List ℕ

pub data SaveError : Type 0 where
  not_warmed : SaveError
  lock_open_failed : SaveError
  flock_failed : SaveError
  temp_failed : SaveError
  write_failed : SaveError
  sync_failed : SaveError
  close_failed : SaveError
  rename_failed : SaveError

-- The file is closed by every path and the lock with it, which no later call depends on.
pub data SaveOp : Type 0 where
  create_lock : SaveOp
  create_temp : SaveOp
  write_temp : List ℕ → SaveOp
  rename_temp : SaveOp
  remove_temp : SaveOp

-- What renaming does without a temporary file: nothing.
abbrev pub renamed : Option (List ℕ) → Disk → Disk
renamed none d = d
renamed (some b) d = record d { target = some b; temp = none }

abbrev pub apply_op : SaveOp → Disk → Disk
apply_op create_lock d = record d { locked = true }
apply_op create_temp d = record d { temp = some [] }
apply_op (write_temp b) d = record d { temp = some b }
apply_op rename_temp d = renamed d.temp d
apply_op remove_temp d = record d { temp = none }

abbrev pub run_ops : List SaveOp → Disk → Disk
run_ops [] d = d
run_ops (o ∷ l) d = run_ops l (apply_op o d)

-- The deferred removal, whose error is dropped.
abbrev pub cleanup : Faults → List SaveOp
cleanup os = if os.remove_fails then [] else remove_temp ∷ []

-- Behind the flush: sync, close and rename, and the deferred removal of the temporary file.
abbrev pub finish_ops : Faults → List SaveOp × Option SaveError
finish_ops os =
    if os.sync_fails
    then (cleanup os, some sync_failed)
    else if os.close_fails
    then (cleanup os, some close_failed)
    else if os.rename_fails
    then (cleanup os, some rename_failed)
    else (rename_temp ∷ cleanup os, none)

abbrev pub prepend_op : SaveOp → List SaveOp × Option SaveError → List SaveOp × Option SaveError
prepend_op o (l, e) = (o ∷ l, e)

-- From the temporary file on.
abbrev pub write_ops : Faults → List ℕ → List SaveOp × Option SaveError
write_ops os payload =
    if os.flush_fails
    then (write_temp os.written ∷ cleanup os, some write_failed)
    else prepend_op (write_temp payload) (finish_ops os)

unfoldable pub save_ops : Faults → Service → List SaveOp × Option SaveError
save_ops os v =
    if not v.warmed
    then ([], some not_warmed)
    else if os.lock_open_fails
    then ([], some lock_open_failed)
    else if os.flock_fails
    then (create_lock ∷ [], some flock_failed)
    else if os.create_fails
    then (create_lock ∷ [], some temp_failed)
    else prepend_op create_lock (prepend_op create_temp (write_ops os (write_snapshot v)))

-- `SaveSnapshot`.
unfoldable pub save_snapshot : Faults → Service → Disk → Disk × Option SaveError
unfolding save_ops
save_snapshot os v d = let (l, e) = save_ops os v in (run_ops l d, e)
