-- ===== src/Scheduler/Select.antt =====
-- scripts/pd_fleet/scheduler.py, `claim`: the selector that it gives to `claim_many`, and what it
-- makes of the outcome. The table of claims that a scheduler keeps in memory is left out.
use project_development_skil.Base.{
  ℕ, String, Bool, not, ◌||◌, Option, none, some, List, [], ◌∷◌, ◌++◌, ltb, leb, if◌then◌else◌, any,
  is_nil, is_empty, length, ℤ, pos, negsuc,
}
use project_development_skil.Dict
use project_development_skil.Dict.{Dict}
use project_development_skil.Store.State.{PlanTask, Lease, Snapshot, Env}
use project_development_skil.Store.Disk.{
  Result, ok, err, capacity_exceeded, ownership_conflict, scheduler_error, Disk, ◌>>=◌, ◌>>◌,
  require, load,
}
use project_development_skil.Store.Batch.{Selector, Batch, claim_many, mem}
use project_development_skil.Scheduler.{Posix, paths_of, overlap, sorted, task_map, ready_ids}

-- A task with the paths that it owns.
abbrev pub Owner : Type 0
Owner = String × List String

abbrev pub names : List Owner → List String
names [] = []
names ((task_id, paths) ∷ rest) = task_id ∷ names rest

-- _paths(tasks[task_id]); a ready task is in the map
unfoldable pub task_paths : Posix → Option PlanTask → Result (List String)
task_paths posix none = err scheduler_error
task_paths posix (some t) = paths_of posix t.owned_paths

-- The paths of the leased tasks of the plan.
add_owner : Posix → String → Option PlanTask → Result (List Owner) → Result (List Owner)
unfolding task_paths
add_owner posix task_id none rest = rest
add_owner posix task_id (some t) rest = do
  paths ← paths_of posix t.owned_paths
  owners ← rest
  ok ((task_id, paths) ∷ owners)

unfoldable pub occupied : Posix → Dict PlanTask → ℕ → Dict Lease → Result (List Owner)
unfolding add_owner
occupied posix tasks now [] = ok []
occupied posix tasks now ((task_id, lease) ∷ leases) =
    let rest = occupied posix tasks now leases in
    if ltb now lease.expires_at then add_owner posix task_id (Dict.get task_id tasks) rest else rest

-- The paths overlap with those of one of the owners.
unfoldable pub clashes : List String → List Owner → Bool
clashes paths owners = any (λ (o : Owner). overlap paths o.1) owners

-- One round of the loop, for a ready task.
unfoldable pub pick : Posix → Dict PlanTask → List Owner → List Owner → String → Result (List Owner)
unfolding clashes task_paths
pick posix tasks leased picked task_id = do
  paths ← task_paths posix (Dict.get task_id tasks)
  require (not (clashes paths leased || clashes paths picked)) ownership_conflict
  ok (picked ++ (task_id, paths) ∷ [])

-- The loop over the sorted ids on offer.
unfoldable pub pick_all :
    Posix
    → Dict PlanTask
    → List String
    → ℕ
    → List Owner
    → List String
    → List Owner
    → Result (List Owner)
pick_all posix tasks ready requested leased [] picked = ok picked
pick_all posix tasks ready requested leased (task_id ∷ rest) picked =
    if leb requested (length picked)
    then ok picked
    else if not (mem task_id ready)
    then pick_all posix tasks ready requested leased rest picked
    else pick posix tasks leased picked task_id >>= pick_all posix tasks ready requested leased rest

-- `select`, before the paths are dropped
unfoldable pub picks : Posix → ℕ → Snapshot → List String → ℕ → ℕ → Result (List Owner)
unfolding occupied pick_all
picks posix requested s available capacity now = do
  require (not (ltb capacity requested)) capacity_exceeded
  leased ← occupied posix (task_map s) now s.leases
  pick_all posix (task_map s) (ready_ids (some now) s) requested leased (sorted available) []

unfoldable pub select : Posix → ℕ → Selector
unfolding picks
select posix requested s available capacity now = do
  picked ← picks posix requested s available capacity now
  ok (names picked)

abbrev empty_batch : Batch
empty_batch = record { next = none; claimed = [] }

-- A capacity error is no error for a scheduler that saw ready tasks.
unfoldable pub settle_claim : List String → Result Batch × Disk → Result Batch × Disk
settle_claim candidates (err capacity_exceeded, d) =
    if is_empty candidates then (err capacity_exceeded, d) else (ok empty_batch, d)
settle_claim candidates outcome = outcome

-- The limit that is asked for; a negative one is refused.
unfoldable pub requested_of : ℕ → Option ℤ → Result ℕ
requested_of max_parallel none = ok max_parallel
requested_of max_parallel (some (negsuc n)) = err scheduler_error
requested_of max_parallel (some (pos n)) =
    if ltb max_parallel n then err capacity_exceeded else ok n

attempt_claim :
    Env
    → Posix
    → Disk
    → (ℕ → String)
    → String
    → ℕ
    → ℤ
    → Option ℕ
    → ℕ
    → ℕ
    → ℕ
    → Result Snapshot
    → Result Batch × Disk
unfolding settle_claim
attempt_claim env posix d secret owner max_parallel seconds clock now stamp requested (err e) =
    (err e, d)
attempt_claim env posix d secret owner max_parallel seconds clock now stamp requested (ok s) =
    let candidates = ready_ids clock s in
    settle_claim candidates (
      claim_many env d secret candidates owner max_parallel seconds now stamp
        (select posix requested))

with_limit : Disk → (ℕ → Result Batch × Disk) → Result ℕ → Result Batch × Disk
with_limit d next (err e) = (err e, d)
with_limit d next (ok requested) = next requested

-- `claim`; `clock` is what the scheduler's own clock shows, if it has one.
unfoldable pub scheduler_claim :
    Env
    → Posix
    → Disk
    → (ℕ → String)
    → String
    → String
    → ℕ
    → Option ℤ
    → ℤ
    → Option ℕ
    → ℕ
    → ℕ
    → Result Batch × Disk
unfolding attempt_claim requested_of with_limit load
scheduler_claim env posix d secret worker owner max_parallel limit seconds clock now stamp =
    if is_nil worker
    then (err scheduler_error, d)
    else with_limit d
        (λ requested.
          attempt_claim env posix d secret owner max_parallel seconds clock now stamp requested
            (load env d))
        (requested_of max_parallel limit)
