-- ===== src/Store/Crash.antt =====
-- The two files under crashes: whatever point of a write a process dies at, the store is either the
-- old snapshot or the new one.
use project_development_skil.Base.{◌≤◌, ◌<◌, true, Option, some, ◌≡◌, ◌⊎◌, arith, All}
use project_development_skil.Store.State.{Snapshot, Env}
use project_development_skil.Store.Validate.{validate}
use project_development_skil.Store.Disk.{Disk, candidate, current, write, write_phases}

-- A valid backup is no newer than a valid primary.
abbrev Older : Option Snapshot → Option Snapshot → Type 0
Older (some a) (some b) = b.generation ≤ a.generation
Older _ _ = Unit

abbrev pub IsOrdered : Env → Disk → Type 0
IsOrdered env d = Older (candidate env d.primary) (candidate env d.backup)

module _ (env : Env) (d : Disk) (old new : Snapshot) where
  -- Writing a valid, newer snapshot over an ordered disk: at every point where the process may
  -- die, the next reader gets the old snapshot or the new one; after the last rename it gets the
  -- new one, and the disk is ordered again.
  pub write_crash_safe :
      IsOrdered env d
      → current env d ≡ some old
      → validate env new ≡ true
      → old.generation < new.generation
      → All (λ x. (current env x ≡ some old) ⊎ (current env x ≡ some new)) (write_phases env d new)
        × (current env (write env d new) ≡ some new)
        × IsOrdered env (write env d new)
  unfolding write_phases current
  write_crash_safe o c v g = ground arith
