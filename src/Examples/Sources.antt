-- ===== src/Examples/Sources.antt =====
-- The reconciliation of scripts/pd_fleet/run_event_reconciliation.py at a concrete run.
use project_development_skil.Base.{true, none, some, [], ◌≡◌, ◌↔◌, refl}
use project_development_skil.Readiness.{consistent}
use project_development_skil.Store.State.{Snapshot, is_id, running}
use project_development_skil.Store.Disk.{ok}
use project_development_skil.Events.{EventLog, replay, records}
use project_development_skil.Reconciliation.{
  Report, loaded, replayed, report, reconcile_run_events, all_reasons, snapshot_reasons, compared,
  in_order, is_run_id,
}
use project_development_skil.Reconciliation.InStep.{IsInStep, reconcile-consistent_iff}
use project_development_skil.Examples.Logs.{json}

abbrev log : EventLog
log = record { run_id = "r"; owner_epoch = none }

-- A run without events, and the empty file of its log.
abbrev started : Snapshot
started = record {
  run_id = "r";
  plan = [];
  generation = 1;
  owner = "lead";
  status = running;
  tasks = [];
  leases = [];
  attempts = [];
  reports = [];
  events = [];
  event_sequence = 0;
  updated_at = 0;
}

abbrev started_report : Report
started_report = record {
  status = consistent;
  run_id = "r";
  snapshot_status = some running;
  snapshot_generation = some 1;
  store_event_sequence = some 0;
  event_log_count = 0;
  event_log_last_sequence = some 0;
  reasons = [];
}

started-reconciled :
    reconcile_run_events json log "r" 5 (ok started) (some []) ≡ some started_report
unfolding reconcile_run_events loaded replayed replay records report all_reasons snapshot_reasons
    compared in_order is_run_id is_id
started-reconciled = refl

started-loaded : loaded (ok started) ≡ some (some started)
unfolding loaded
started-loaded = refl

started-replayed : replayed json 5 (some []) ≡ some []
unfolding replayed replay records
started-replayed = refl

reconcile-consistent_iff_example :
    (started_report.status ≡ consistent) ↔ IsInStep "r" log (some started) true []
reconcile-consistent_iff_example =
    reconcile-consistent_iff json log "r" 5 (ok started) (some []) started-loaded started-replayed
      started-reconciled
