-- ===== src/Examples/Reports.antt =====
-- Reports of scripts/pd_fleet/supervision.py and readiness.py at concrete inputs.
use project_development_skil.Base.{Option, none, some, [], ◌∷◌, ◌≡◌, ◌≢◌, ◌⊎◌, ◌↔◌, refl}
use project_development_skil.Supervision.{
  HealthSnapshot, alive, ready, advanced, healthy_signal, healthy, slow, running, paused,
  diagnose_snapshot, reconcile_snapshot,
}
use project_development_skil.Supervision.Diagnosis.{IsCurrent, IsAsDesired, reconcile_iff}
use project_development_skil.Readiness.{
  ReadinessView, ReconciliationStatus, event_healthy, event_blocked, consistent, view_ready,
  view_degraded, source_degraded, supervisor, event, components, compose_readiness,
}
use project_development_skil.Readiness.Composition.{compose-none_iff, compose-ready_iff}

-- A worker that is well, and was last heard of 12 seconds ago.
abbrev well : HealthSnapshot
well = record {
  mission_run_id = "m";
  task_id = "t";
  lane_id = "l";
  owner_epoch = 3;
  signal = record {
    liveness = alive;
    readiness = ready;
    progress = advanced;
    health = healthy_signal;
  };
  last_heartbeat_age_seconds = some 12;
  last_progress_age_seconds = none;
}

well_status : (diagnose_snapshot well).status ≡ healthy
unfolding diagnose_snapshot
well_status = refl

-- A pause that the worker has not followed.
unpaused : (reconcile_snapshot well paused none).reasons ≡ "pause_not_observed" ∷ []
unfolding reconcile_snapshot
unpaused = refl

reconcile_iff_example :
    (((reconcile_snapshot well running (some 4)).status ≡ healthy)
      ↔ (IsCurrent well (some 4) × IsAsDesired well running))
    × (((reconcile_snapshot well running (some 4)).reasons ≡ "stale_owner_epoch" ∷ [])
        ↔ (¬ IsCurrent well (some 4)))
reconcile_iff_example = reconcile_iff well running (some 4)

-- A slow worker beside good events.
abbrev mixed : ReadinessView
mixed = record {
  status = view_degraded;
  supervisor_status = some slow;
  event_status = some event_healthy;
  reconciliation_status = none;
  reasons = source_degraded ∷ [];
  present_components = supervisor ∷ event ∷ [];
}

mixed_composed : compose_readiness (some slow) (some event_healthy) none ≡ some mixed
unfolding compose_readiness
mixed_composed = refl

compose-none_iff_example :
    ((compose_readiness (some slow) (some event_blocked) none ≡ none)
      ↔ (some event_blocked ≡ some event_blocked))
    × ((v : ReadinessView)
        → compose_readiness (some slow) (some event_blocked) none ≡ some v
        → (v.supervisor_status ≡ some slow)
          × (v.event_status ≡ some event_blocked)
          × (v.reconciliation_status ≡ none))
compose-none_iff_example = compose-none_iff (some slow) (some event_blocked) none

abbrev no_report : Option ReconciliationStatus
no_report = none

compose-ready_iff_example : (mixed.status ≡ view_ready) ↔ (
    (components (some slow) (some event_healthy) no_report ≢ [])
    × ((some slow ≡ none) ⊎ (some slow ≡ some healthy))
    × ((some event_healthy ≡ none) ⊎ (some event_healthy ≡ some event_healthy))
    × ((no_report ≡ none) ⊎ (no_report ≡ some consistent)))
compose-ready_iff_example =
    compose-ready_iff (some slow) (some event_healthy) none mixed mixed_composed
