-- ===== src/Supervision.antt =====
-- scripts/pd_fleet/supervision.py: the diagnosis of one health snapshot. A signal is the member of
-- its closed vocabulary that HealthSignal validates; an age is in whole seconds, which decides every
-- `>=` against the thresholds as the fractional age does. Identifiers and references are kept as
-- they are given: the text checks of handoff.py are not part of the model.
pub mod Diagnosis
use Prim.Native.String.{◌++◌ as append}
use project_development_skil.Base.{
  ℕ, String, Bool, true, false, not, ◌&&◌, ◌||◌, Option, none, some, List, [], ◌∷◌, leb, ◌==◌,
  if◌then◌else◌,
}

pub data Liveness : Type 0 where
  alive missing liveness_unknown : Liveness

pub data WorkerReadiness : Type 0 where
  ready not_ready readiness_unknown : WorkerReadiness

pub data Progress : Type 0 where
  advanced stalled progress_unknown : Progress

pub data Health : Type 0 where
  healthy_signal degraded_signal failed_signal health_unknown : Health

pub record HealthSignal : Type 0 where
  pub liveness : Liveness
  pub readiness : WorkerReadiness
  pub progress : Progress
  pub health : Health

pub record HealthSnapshot : Type 0 where
  pub mission_run_id : String
  pub task_id : String
  pub lane_id : String
  pub owner_epoch : ℕ
  pub signal : HealthSignal
  pub last_heartbeat_age_seconds : Option ℕ
  pub last_progress_age_seconds : Option ℕ

-- HandoffReason, as far as the diagnosis uses it
pub data HandoffReason : Type 0 where
  retry fallback human_intervention : HandoffReason

pub record InterventionProposal : Type 0 where
  pub action : String
  pub reason : HandoffReason
  pub target : String
  pub evidence_refs : List String
  pub human_gate_required : Bool

-- _DIAGNOSIS_STATUSES
pub data DiagnosisStatus : Type 0 where
  healthy slow suspected blocked degraded failed needs_human_intervention : DiagnosisStatus

pub record SupervisorDiagnosis : Type 0 where
  pub status : DiagnosisStatus
  pub reasons : List String
  pub proposals : List InterventionProposal

pub data DesiredState : Type 0 where
  running paused completed cancelled : DesiredState

abbrev pub max_age_seconds : ℕ
max_age_seconds = 2592000

abbrev pub heartbeat_suspect_seconds : ℕ
heartbeat_suspect_seconds = 60

abbrev pub heartbeat_human_seconds : ℕ
heartbeat_human_seconds = 300

abbrev pub progress_slow_seconds : ℕ
progress_slow_seconds = 300

-- HealthSnapshot.__post_init__, the bounds on the ages
abbrev pub age_in_bounds : Option ℕ → Bool
age_in_bounds none = true
age_in_bounds (some age) = leb age max_age_seconds

unfoldable pub snapshot_accepted : HealthSnapshot → Bool
snapshot_accepted s =
    age_in_bounds s.last_heartbeat_age_seconds && age_in_bounds s.last_progress_age_seconds

-- _proposal
unfoldable pub proposal : String → HandoffReason → HealthSnapshot → Bool → InterventionProposal
proposal action reason s human = record {
  action = action;
  reason = reason;
  target = s.task_id;
  evidence_refs = append "snapshot:" (append s.mission_run_id (append ":" s.task_id)) ∷ [];
  human_gate_required = human;
}

-- `age is not None and age >= threshold`
abbrev pub reaches : Option ℕ → ℕ → Bool
reaches none threshold = false
reaches (some age) threshold = leb threshold age

abbrev is_missing : Liveness → Bool
is_missing missing = true
is_missing _ = false

abbrev pub is_alive : Liveness → Bool
is_alive alive = true
is_alive _ = false

abbrev is_not_ready : WorkerReadiness → Bool
is_not_ready not_ready = true
is_not_ready _ = false

abbrev is_stalled : Progress → Bool
is_stalled stalled = true
is_stalled _ = false

abbrev pub is_advanced : Progress → Bool
is_advanced advanced = true
is_advanced _ = false

abbrev is_failed : Health → Bool
is_failed failed_signal = true
is_failed _ = false

abbrev is_degraded : Health → Bool
is_degraded degraded_signal = true
is_degraded _ = false

-- `"unknown" in (liveness, readiness, progress, health)`
abbrev any_unknown : Liveness → WorkerReadiness → Progress → Health → Bool
any_unknown liveness_unknown _ _ _ = true
any_unknown _ readiness_unknown _ _ = true
any_unknown _ _ progress_unknown _ = true
any_unknown _ _ _ health_unknown = true
any_unknown _ _ _ _ = false

abbrev diagnosis : DiagnosisStatus → List String → List InterventionProposal → SupervisorDiagnosis
diagnosis status reasons proposals = record {
  status = status;
  reasons = reasons;
  proposals = proposals;
}

unfoldable pub diagnose_snapshot : HealthSnapshot → SupervisorDiagnosis
unfolding proposal
diagnose_snapshot s =
    if is_failed signal.health
    then diagnosis failed ("worker_reported_failed" ∷ [])
        (proposal "inspect" human_intervention s true ∷ [])
    else if is_missing signal.liveness
    then (if reaches s.last_heartbeat_age_seconds heartbeat_human_seconds
        then diagnosis needs_human_intervention ("heartbeat_missing_too_long" ∷ [])
            (proposal "inspect" human_intervention s true ∷ [])
        else diagnosis suspected ("heartbeat_missing" ∷ []) [])
    else if is_not_ready signal.readiness
    then diagnosis blocked ("worker_not_ready" ∷ []) (proposal "inspect" fallback s false ∷ [])
    else if is_stalled signal.progress
    then (if reaches s.last_progress_age_seconds progress_slow_seconds
        then diagnosis slow ("progress_stalled" ∷ "progress_age_exceeded_slow_threshold" ∷ [])
            (proposal "inspect" retry s false ∷ [])
        else diagnosis suspected ("progress_stalled" ∷ []) [])
    else if is_degraded signal.health
    then diagnosis degraded ("health_degraded" ∷ []) (proposal "inspect" fallback s false ∷ [])
    else if any_unknown signal.liveness signal.readiness signal.progress signal.health
    then diagnosis suspected ("incomplete_health_signal" ∷ []) []
    else if reaches s.last_heartbeat_age_seconds heartbeat_suspect_seconds
    then diagnosis suspected ("heartbeat_age_exceeded_suspect_threshold" ∷ []) []
    else diagnosis healthy [] []
  where
    open s use {signal}

abbrev is_stale : ℕ → Option ℕ → Bool
is_stale epoch none = false
is_stale epoch (some active) = not (epoch == active)

-- What is left of `reconcile_snapshot` once the epoch is current.
reconcile_current : HealthSnapshot → DesiredState → SupervisorDiagnosis
unfolding diagnose_snapshot
reconcile_current s running = diagnose_snapshot s
reconcile_current s paused =
    if is_alive s.signal.liveness
    then diagnosis degraded ("pause_not_observed" ∷ []) []
    else diagnosis healthy [] []
reconcile_current s completed =
    if is_advanced s.signal.progress
    then diagnosis healthy [] []
    else diagnosis blocked ("terminal_state_not_ready" ∷ []) []
reconcile_current s cancelled =
    if is_advanced s.signal.progress
    then diagnosis healthy [] []
    else diagnosis blocked ("terminal_state_not_ready" ∷ []) []

unfoldable pub reconcile_snapshot : HealthSnapshot → DesiredState → Option ℕ → SupervisorDiagnosis
unfolding reconcile_current
reconcile_snapshot s desired active_owner_epoch =
    if is_stale s.owner_epoch active_owner_epoch
    then diagnosis blocked ("stale_owner_epoch" ∷ []) []
    else reconcile_current s desired
