-- ===== src/Scheduler/Stale.antt =====
-- scripts/pd_fleet/scheduler.py, `recover_stale`: expired leases are dropped one by one, each by a
-- write that expects the generation just read. Each reading and each write holds the store's lock by
-- itself, so other calls may come before either: what they do to the disk is a parameter.
pub mod Later
pub mod Recovery
use project_development_skil.Base.{
  ℕ, ◌<◌, String, Bool, true, false, Option, none, some, List, [], ◌∷◌, ◌≡◌, refl, arith, eq_iff,
  if◌then◌else◌, leb, inl, inr, Bool-cases, cons_if, not, All, str_eq, sym,
}
use project_development_skil.Dict
use project_development_skil.Dict.{Dict, get-pop, all-pop}
use project_development_skil.Store.State.{Snapshot, Env, Lease}
use project_development_skil.Store.Validate.{validate, valid_lease}
use project_development_skil.Store.Disk.{
  Result, ok, err, Disk, current, load, mutate, save, stamped, write, ◌>>=◌, ◌>>◌,
}
use project_development_skil.Store.Crash.{IsOrdered, write_crash_safe}
use project_development_skil.Store.Evolution.{Evolves, Evolves-refl, Evolves-trans, stamped-Evolves}
use project_development_skil.Store.Refinement.{current-valid, opened-cases}
use project_development_skil.Scheduler.{sorted, insert, str_leb}

abbrev pub is_expired : ℕ → Option Lease → Bool
is_expired now none = false
is_expired now (some lease) = leb lease.expires_at now

-- The callback `remove`: the lease may be gone, or renewed, by then.
unfoldable pub drop_stale : ℕ → String → Snapshot → Snapshot
drop_stale now task_id s =
    if is_expired now (Dict.get task_id s.leases)
    then record s { leases = Dict.pop task_id s.leases }
    else s

-- The ids of the expired leases
unfoldable pub stale_ids : ℕ → Dict Lease → List String
stale_ids now [] = []
stale_ids now ((task_id, lease) ∷ leases) =
    cons_if (leb lease.expires_at now) task_id (stale_ids now leases)

-- What the loop does after one id: an error ends it.
abbrev pub go_on :
    {A : Type 0} → (Disk → Result (Unit {0}) × Disk) → Result A × Disk → Result (Unit {0}) × Disk
go_on next (err e, d) = (err e, d)
go_on next (ok a, d) = next d

-- What other calls do to the disk for an id: before it is read, and between reading and write
pub record Others : Type 0 where
  pub before : String → Disk → Disk
  pub between : String → Disk → Disk

pub drop_one : Env → Others → Disk → String → ℕ → ℕ → String → Snapshot → Result Snapshot × Disk
unfolding drop_stale mutate
drop_one env others d owner now stamp task_id s =
    if Dict.has_key task_id s.leases
    then mutate env (others.between task_id d) owner (some s.generation) stamp
        (λ u. ok (drop_stale now task_id u))
    else (ok s, d)

pub drop_next :
    Env → Others → Disk → String → ℕ → ℕ → String → Result Snapshot → Result Snapshot × Disk
unfolding drop_one
drop_next env others d owner now stamp task_id (err e) = (err e, d)
drop_next env others d owner now stamp task_id (ok s) =
    drop_one env others d owner now stamp task_id s

-- One round of the loop
pub drop_at : Env → Others → Disk → String → ℕ → ℕ → String → Result Snapshot × Disk
unfolding drop_next
drop_at env others d owner now stamp task_id =
    let d' = others.before task_id d in
    drop_next env others d' owner now stamp task_id (load env d')

-- `stamp` gives the instant of the write for an id.
unfoldable pub drop_each :
    Env → Others → String → ℕ → (String → ℕ) → List String → Disk → Result (Unit {0}) × Disk
unfolding drop_at
drop_each env others owner now stamp [] d = (ok tt, d)
drop_each env others owner now stamp (task_id ∷ rest) d =
    go_on (drop_each env others owner now stamp rest)
      (drop_at env others d owner now (stamp task_id) task_id)

pub recover_from :
    Env → Others → Disk → String → ℕ → (String → ℕ) → Result Snapshot → Result (List String) × Disk
unfolding drop_each stale_ids sorted
recover_from env others d owner now stamp (err e) = (err e, d)
recover_from env others d owner now stamp (ok s) =
    let ids = sorted (stale_ids now s.leases) in
    let outcome = drop_each env others owner now stamp ids d in (outcome.0 >> ok ids, outcome.1)

-- `recover_stale`; without a clock nothing is done.
unfoldable pub recover_stale :
    Env → Others → Disk → String → Option ℕ → (String → ℕ) → Result (List String) × Disk
unfolding recover_from load
recover_stale env others d owner none stamp = ((do s ← load env d; ok []), d)
recover_stale env others d owner (some now) stamp =
    recover_from env others d owner now stamp (load env d)
