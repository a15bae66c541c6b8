-- ===== src/Reconciliation.antt =====
-- scripts/pd_fleet/run_event_reconciliation.py: the comparison of a run's snapshot with its event log.
-- `none` stands for any exception. The file of the log is `none` when there is no such file. What the
-- report checks of its own fields holds of every report that is made here, but for the form of the
-- run's identifier, which is checked before.
pub mod InStep
use project_development_skil.Base.{
  ℕ, suc, leb, String, Bool, true, false, not, ◌&&◌, ◌||◌, Option, none, some, List, [], ◌∷◌, ◌++◌,
  ◌==◌, str_eq, if◌then◌else◌, any, all, keep, length, is_empty, is_some, is_none,
}
use project_development_skil.Fallible.{◌>>=◌, ◌>>◌, require}
use project_development_skil.Readiness.{
  ReconciliationStatus, consistent, reconciliation_degraded, reconciliation_unknown,
}
use project_development_skil.Store.State.{Status, Snapshot, is_id}
use project_development_skil.Store.Disk.{Result, ok, err, run_not_found}
use project_development_skil.Events.{FleetEvent, Json, EventLog, Lines, replay, limit_fits}

-- _REASONS
pub data Reason : Type 0 where
  event_sequence_mismatch event_count_mismatch missing_store_snapshot missing_event_log : Reason
  run_id_mismatch owner_context_mismatch : Reason

abbrev pub reasons_in_order : List Reason
reasons_in_order =
    event_sequence_mismatch ∷ event_count_mismatch ∷ missing_store_snapshot ∷ missing_event_log
    ∷ run_id_mismatch ∷ owner_context_mismatch ∷ []

abbrev rank : Reason → ℕ
rank event_sequence_mismatch = 0
rank event_count_mismatch = 1
rank missing_store_snapshot = 2
rank missing_event_log = 3
rank run_id_mismatch = 4
rank owner_context_mismatch = 5

pub record Report : Type 0 where
  pub status : ReconciliationStatus
  pub run_id : String
  pub snapshot_status : Option Status
  pub snapshot_generation : Option ℕ
  pub store_event_sequence : Option ℕ
  pub event_log_count : ℕ
  pub event_log_last_sequence : Option ℕ
  pub reasons : List Reason

abbrev text_length : String → ℕ
text_length String.[] = 0
text_length (String.◌∷◌ c s) = suc (text_length s)

-- _ID, which bounds the length as well
unfoldable pub is_run_id : String → Bool
unfolding is_id
is_run_id s = is_id s && leb (text_length s) 128

-- store.load(run_id), where a run that is not found is no snapshot
unfoldable pub loaded : Result Snapshot → Option (Option Snapshot)
loaded (ok s) = some (some s)
loaded (err run_not_found) = some none
loaded (err _) = none

-- event_log.replay(limit=limit), which reads no events where there is no file
unfoldable pub replayed : Json → ℕ → Option Lines → Option Lines
unfolding replay
replayed json limit none = do require (limit_fits limit); some []
replayed json limit (some lines) = replay json limit lines

-- The log or one of its events is of another run.
abbrev pub is_foreign : String → EventLog → Lines → Bool
is_foreign run log events =
    not (str_eq log.run_id run) || any (λ (e : FleetEvent). not (str_eq e.run_id run)) events

abbrev same_epoch : Option ℕ → Option ℕ → Bool
same_epoch (some n) (some m) = n == m
same_epoch (some n) none = false
same_epoch none e = true

-- An event is of another epoch than the log, if that has one.
abbrev pub is_disowned : EventLog → Lines → Bool
is_disowned log events =
    any (λ (e : FleetEvent). not (same_epoch log.owner_epoch e.owner_epoch)) events

abbrev last_of : ℕ → Lines → ℕ
last_of n [] = n
last_of n (e ∷ es) = last_of e.sequence es

-- events[-1].sequence, or 0 for a log without events
abbrev pub last_sequence : Bool → Lines → Option ℕ
last_sequence log_exists (e ∷ es) = some (last_of e.sequence es)
last_sequence true [] = some 0
last_sequence false [] = none

abbrev pub reason_if : Bool → Reason → List Reason
reason_if true r = r ∷ []
reason_if false r = []

abbrev same_number : ℕ → Option ℕ → Bool
same_number n none = false
same_number n (some m) = n == m

-- What the snapshot adds
unfoldable pub snapshot_reasons : String → Option Snapshot → List Reason
snapshot_reasons run none = []
snapshot_reasons run (some s) = reason_if (not (str_eq s.run_id run)) run_id_mismatch

unfoldable pub compared : Option Snapshot → Bool → Lines → List Reason
compared none log_exists events = []
compared (some s) false events = []
compared (some s) true events =
    reason_if (not (same_number s.event_sequence (last_sequence true events)))
      event_sequence_mismatch
    ++ reason_if (not (length s.events == length events)) event_count_mismatch

unfoldable pub all_reasons : String → EventLog → Option Snapshot → Bool → Lines → List Reason
unfolding snapshot_reasons compared
all_reasons run log snapshot log_exists events =
    reason_if (is_none snapshot) missing_store_snapshot
    ++ (reason_if (not log_exists) missing_event_log
        ++ (snapshot_reasons run snapshot
            ++ (reason_if (is_foreign run log events) run_id_mismatch
                ++ (reason_if (is_disowned log events) owner_context_mismatch
                    ++ compared snapshot log_exists events))))

-- The reasons that were added, each once and in the order of _REASONS
unfoldable pub in_order : List Reason → List Reason
in_order reasons = keep (λ r. any (λ q. rank q == rank r) reasons) reasons_in_order

abbrev mapped {ℓ κ} : {A : Type ℓ} {B : Type κ} → (A → B) → Option A → Option B
mapped f none = none
mapped f (some a) = some (f a)

abbrev pub status_of : List Reason → ReconciliationStatus
status_of [] = consistent
status_of (r ∷ rs) = reconciliation_degraded

unfoldable pub report : String → EventLog → Option Snapshot → Bool → Lines → Report
unfolding all_reasons in_order
report run log snapshot log_exists events =
    if is_none snapshot && (not log_exists && not (is_foreign run log events))
    then record {
      status = reconciliation_unknown;
      run_id = run;
      snapshot_status = none;
      snapshot_generation = none;
      store_event_sequence = none;
      event_log_count = 0;
      event_log_last_sequence = none;
      reasons = [];
    }
    else record {
      status = status_of (all_reasons run log snapshot log_exists events);
      run_id = run;
      snapshot_status = mapped (λ (s : Snapshot). s.status) snapshot;
      snapshot_generation = mapped (λ (s : Snapshot). s.generation) snapshot;
      store_event_sequence = mapped (λ (s : Snapshot). s.event_sequence) snapshot;
      event_log_count = length events;
      event_log_last_sequence = last_sequence log_exists events;
      reasons = in_order (all_reasons run log snapshot log_exists events);
    }

-- reconcile_run_events, given what the store loads and the file of the log
unfoldable pub reconcile_run_events :
    Json → EventLog → String → ℕ → Result Snapshot → Option Lines → Option Report
unfolding is_run_id loaded replayed report
reconcile_run_events json log run limit result file = do
  require (is_run_id run)
  require (limit_fits limit)
  snapshot ← loaded result
  events ← replayed json limit file
  some (report run log snapshot (is_some file) events)

unfoldable pub missing_reasons : String → EventLog → Lines → List Reason
missing_reasons run log events =
    reason_if true missing_store_snapshot
    ++ (reason_if (is_foreign run log events) run_id_mismatch
        ++ reason_if (is_disowned log events) owner_context_mismatch)

unfoldable pub missing_report : String → EventLog → Bool → Lines → Report
unfolding missing_reasons in_order
missing_report run log log_exists events =
    if not log_exists && not (is_foreign run log events)
    then record {
      status = reconciliation_unknown;
      run_id = run;
      snapshot_status = none;
      snapshot_generation = none;
      store_event_sequence = none;
      event_log_count = 0;
      event_log_last_sequence = none;
      reasons = [];
    }
    else record {
      status = reconciliation_degraded;
      run_id = run;
      snapshot_status = none;
      snapshot_generation = none;
      store_event_sequence = none;
      event_log_count = length events;
      event_log_last_sequence = last_sequence true events;
      reasons = in_order (missing_reasons run log events);
    }

-- reconcile_missing_store
unfoldable pub reconcile_missing_store : Json → EventLog → String → ℕ → Option Lines → Option Report
unfolding is_run_id replayed missing_report
reconcile_missing_store json log run limit file = do
  require (is_run_id run)
  require (limit_fits limit)
  events ← replayed json limit file
  some (missing_report run log (is_some file) events)
