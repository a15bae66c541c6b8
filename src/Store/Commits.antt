-- ===== src/Store/Commits.antt =====
-- scripts/pd_fleet/run_store.py: `transition`, `update_task_status` and `commit`.
use project_development_skil.Base.{
  ℕ, String, Bool, not, ◌&&◌, Option, none, some, ◌==◌, str_eq, if◌then◌else◌,
}
use project_development_skil.Value.{Fields}
use project_development_skil.Dict
use project_development_skil.Store.State.{
  Status, Token, ReportRecord, Snapshot, Env, is_id, is_run_status, is_task_status, is_terminal_run,
  is_report_status, status_name, valid_report,
}
use project_development_skil.Store.Redact.{redact_fields}
use project_development_skil.Store.Disk.{
  Result, ok, err, run_store_error, lease_error, path_containment, duplicate_commit, Disk, ◌>>=◌,
  ◌>>◌, require, opened, save, stamped, mutate,
}
use project_development_skil.Store.Leases.{known, count_or, token_shaped, check_token}

-- Statuses are compared as the texts that they are.
unfoldable pub same_status : Status → Status → Bool
unfolding status_name
same_status a b = str_eq (status_name a) (status_name b)

-- The callback of `transition`.
unfoldable pub transition_step : Status → Snapshot → Result Snapshot
unfolding same_status
transition_step status s = do
  require (is_run_status status) run_store_error
  require (not (is_terminal_run s.status && not (same_status s.status status))) run_store_error
  ok (record s { status = status })

unfoldable pub transition : Env → Disk → Status → String → Option ℕ → ℕ → Result Snapshot × Disk
unfolding transition_step mutate
transition env d status owner expected stamp =
    mutate env d owner expected stamp (transition_step status)

-- The callback of `update_task_status`.
unfoldable pub update_step : String → Status → Snapshot → Result Snapshot
unfolding known
update_step task_id status s = do
  require (known task_id s) run_store_error
  require (not (Dict.has_key task_id s.reports)) run_store_error
  ok (record s { tasks = Dict.put task_id status s.tasks; leases = Dict.pop task_id s.leases })

unfoldable pub update_task_status :
    Env → Disk → String → Status → String → Option ℕ → ℕ → Result Snapshot × Disk
unfolding update_step mutate
update_task_status env d task_id status owner expected stamp =
    if not (is_id task_id)
    then (err path_containment, d)
    else if not (is_task_status status)
    then (err run_store_error, d)
    else mutate env d owner expected stamp (update_step task_id status)

-- `commit` writes a new snapshot, or finds that the very report is there already.
pub data Committed : Type 0 where
  replayed written : Snapshot → Committed

-- The report of the task, with its lease given up.
unfoldable pub recorded : Env → String → Token → Fields → Status → Snapshot → Snapshot
recorded env task_id token safe status s = record s {
  reports =
      Dict.put task_id
        (record {
          status = status;
          report = safe;
          digest = env.digest safe;
          attempt = count_or 1 (Dict.get task_id s.attempts);
          lease_id = token.lease_id;
          lease_generation = token.generation;
        })
        s.reports;
  tasks = Dict.put task_id status s.tasks;
  leases = Dict.pop task_id s.leases;
}

-- A second commit for a task that has a report.
abbrev recommit : Env → Token → Fields → Status → ReportRecord → Snapshot → Result Committed
recommit env token safe status r s =
    if not (str_eq r.lease_id token.lease_id && r.lease_generation == token.generation)
    then err lease_error
    else if str_eq r.digest (env.digest safe) && same_status r.status status
    then ok (replayed s)
    else err duplicate_commit

first_commit : Env → String → Token → Fields → Status → ℕ → Snapshot → Result Committed
unfolding check_token recorded
first_commit env task_id token safe status now s = do
  require (check_token task_id token now s) lease_error
  ok (written (recorded env task_id token safe status s))

-- `commit` under the lock, after the checks of the report.
unfoldable pub commit_step :
    Env → String → Token → Fields → Status → ℕ → Snapshot → Result Committed
unfolding token_shaped first_commit same_status
commit_step env task_id token safe status now s = do
  require (token_shaped task_id token s) lease_error
  elim (Dict.get task_id s.reports) [
    | some r ↦ recommit env token safe status r s
    | none ↦ first_commit env task_id token safe status now s
  ]

unfoldable pub save_commit : Env → Disk → ℕ → Result Committed → Result Snapshot × Disk
unfolding save stamped
save_commit env d stamp (ok (written s)) = save env d (ok (stamped stamp s))
save_commit env d stamp (ok (replayed s)) = (ok s, d)
save_commit env d stamp (err e) = (err e, d)

-- The report is redacted first; what is checked, digested and kept is the redacted copy.
unfoldable pub commit :
    Env → Disk → String → Token → String → Fields → Status → ℕ → ℕ → Result Snapshot × Disk
unfolding redact_fields valid_report opened commit_step save_commit
commit env d task_id token owner report status now stamp =
    let safe = redact_fields env report in
    if not (is_report_status status)
    then (err run_store_error, d)
    else if not (valid_report env safe status)
    then (err run_store_error, d)
    else save_commit env d stamp
        (do s ← opened env d owner none; commit_step env task_id token safe status now s)
