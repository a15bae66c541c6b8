-- ===== src/Scheduler.antt =====
-- scripts/pd_fleet/scheduler.py: the tasks that are ready, the paths they own, and the selector that
-- the scheduler gives to `claim_many`.
pub mod Ready
pub mod Select
pub mod Apart
pub mod Stale
use Prim.Native.Char.{Char, code}
use Prim.Native.String.{◌++◌ as append}
use project_development_skil.Base.{
  ℕ, zero, suc, String, Bool, true, false, not, ◌&&◌, ◌||◌, Option, none, some, List, [], ◌∷◌, ◌++◌,
  ltb, leb, ◌==◌, str_eq, if◌then◌else◌, any, all, keep, is_nil, length, ℤ, pos, negsuc, is_empty,
  cons_if,
}
use project_development_skil.Dict
use project_development_skil.Dict.{Dict}
use project_development_skil.Store.State.{
  Status, PlanTask, Lease, ReportRecord, Snapshot, Env, is_terminal_task, is_completed,
}
use project_development_skil.Store.Disk.{
  Result, ok, err, StoreError, capacity_exceeded, ownership_conflict, scheduler_error, Disk, ◌>>=◌,
  ◌>>◌, require, load,
}
use project_development_skil.Store.Leases.{is_active}
use project_development_skil.Store.Batch.{Selector, Batch, claim_many, mem}

-- Text, by code points: `a <= b`, and whether `s` starts with `p`.
unfoldable pub str_leb : String → String → Bool
str_leb String.[] t = true
str_leb (String.◌∷◌ c s) String.[] = false
str_leb (String.◌∷◌ c s) (String.◌∷◌ d t) =
    ltb (code c) (code d) || (code c == code d && str_leb s t)

unfoldable pub starts_with : String → String → Bool
starts_with String.[] s = true
starts_with (String.◌∷◌ c p) String.[] = false
starts_with (String.◌∷◌ c p) (String.◌∷◌ d s) = code c == code d && starts_with p s

-- sorted(ids)
unfoldable pub insert : String → List String → List String
insert x [] = x ∷ []
insert x (y ∷ ys) = let rest = insert x ys in if str_leb x y then x ∷ y ∷ ys else y ∷ rest

unfoldable pub sorted : List String → List String
unfolding insert
sorted [] = []
sorted (x ∷ xs) = insert x (sorted xs)

-- What the scheduler takes of `PurePosixPath`: the parts of a path, and its text.
pub record Posix : Type 0 where
  pub parts : String → List String
  pub text : String → String

-- value.replace("\\", "/")
slashes : String → String
slashes String.[] = ""
slashes (String.◌∷◌ c s) = String.◌∷◌ (if code c == 92 then "/" else c) (slashes s)

owned_path : Posix → String → Result String
unfolding starts_with slashes
owned_path posix value = do
  require (not (is_nil value)) scheduler_error
  require (not (starts_with "/" value || starts_with "\\" value)) scheduler_error
  require (not (mem ".." (posix.parts (slashes value)))) scheduler_error
  ok (posix.text (slashes value))

-- _paths, on the paths that a task lists under its two keys
unfoldable pub paths_of : Posix → List String → Result (List String)
unfolding owned_path
paths_of posix [] = ok []
paths_of posix (value ∷ rest) = do p ← owned_path posix value; ps ← paths_of posix rest; ok (p ∷ ps)

-- _overlap
unfoldable pub paths_meet : String → String → Bool
unfolding starts_with
paths_meet a b = str_eq a b || (starts_with (append b "/") a || starts_with (append a "/") b)

unfoldable pub overlap : List String → List String → Bool
unfolding paths_meet
overlap left right = any (λ a. any (paths_meet a) right) left

-- _task_map: later tasks replace earlier ones of the same id
task_map_from : Dict PlanTask → List PlanTask → Dict PlanTask
task_map_from d [] = d
task_map_from d (t ∷ ts) = task_map_from (Dict.put t.id t d) ts

unfoldable pub task_map : Snapshot → Dict PlanTask
unfolding task_map_from
task_map s = task_map_from [] s.plan

abbrev pub status_or : Option Status → Status → Status
status_or none status = status
status_or (some status) old = status

-- The status of a task: the run's, or else the plan's.
unfoldable pub status_of : Snapshot → String → PlanTask → Status
status_of s task_id t = status_or (Dict.get task_id s.tasks) t.status

abbrev completed_status : Option Status → Bool
completed_status none = false
completed_status (some status) = is_completed status

abbrev completed_report : Option ReportRecord → Bool
completed_report none = false
completed_report (some r) = is_completed r.status

-- `dep in completed`
unfoldable pub is_done : Snapshot → String → Bool
is_done s dep = completed_status (Dict.get dep s.tasks) || completed_report (Dict.get dep s.reports)

-- Without a clock every lease counts as active.
abbrev pub holds : Option ℕ → Option Lease → Bool
holds now none = false
holds none (some lease) = true
holds (some now) (some lease) = ltb now lease.expires_at

abbrev pub is_open : Snapshot → String × PlanTask → Bool
unfolding status_of
is_open s (task_id, t) = not (is_terminal_task (status_of s task_id t))

-- The waves of the tasks that are not terminal.
unfoldable pub open_waves : Snapshot → Dict PlanTask → List ℕ
open_waves s [] = []
open_waves s ((task_id, t) ∷ ts) = cons_if (is_open s (task_id, t)) t.wave (open_waves s ts)

-- min(waves), for a first wave and the others
unfoldable pub minimum : ℕ → List ℕ → ℕ
minimum n [] = n
minimum n (m ∷ ms) = let rest = minimum n ms in if leb rest m then rest else m

-- The tests of the loop, for a task of the map.
unfoldable pub runnable : Option ℕ → Snapshot → ℕ → String → Option PlanTask → Bool
unfolding status_of is_done
runnable now s wave task_id none = false
runnable now s wave task_id (some t) =
    not (is_terminal_task (status_of s task_id t))
    && (not (holds now (Dict.get task_id s.leases))
        && (t.wave == wave && all (is_done s) t.depends_on))

abbrev pub keys : Dict PlanTask → List String
keys [] = []
keys ((k, t) ∷ d) = k ∷ keys d

ready_in : Option ℕ → Snapshot → List ℕ → List String
unfolding minimum runnable sorted task_map
ready_in now s [] = []
ready_in now s (w ∷ ws) =
    keep (λ k. runnable now s (minimum w ws) k (Dict.get k (task_map s)))
      (sorted (keys (task_map s)))

-- _ready_ids_from_state
unfoldable pub ready_ids : Option ℕ → Snapshot → List String
unfolding ready_in open_waves
ready_ids now s = ready_in now s (open_waves s (task_map s))
