-- ===== src/Readiness.antt =====
-- scripts/pd_fleet/readiness.py: the view that joins three reports. A status is the member of its
-- closed vocabulary; the event report's vocabulary is that of event_diagnostics.py, where the view
-- is stricter. `none` stands for the ValueError that a view raises as it is built.
pub mod Composition
use project_development_skil.Base.{
  Bool, true, false, not, ◌&&◌, ◌||◌, Option, none, some, List, [], ◌∷◌, ◌++◌, any, length, ltb,
  if◌then◌else◌,
}
use project_development_skil.Supervision.{
  DiagnosisStatus, healthy, slow, suspected, blocked, degraded, failed, needs_human_intervention,
}

-- event_diagnostics._STATUS
pub data EventStatus : Type 0 where
  event_healthy event_degraded event_blocked event_unknown : EventStatus

-- run_event_reconciliation._STATUS
pub data ReconciliationStatus : Type 0 where
  consistent reconciliation_degraded reconciliation_unknown : ReconciliationStatus

pub data ReadinessStatus : Type 0 where
  view_ready view_unknown view_degraded view_blocked : ReadinessStatus

pub data Reason : Type 0 where
  supervisor_blocked source_degraded missing_or_unknown_source : Reason

pub data Component : Type 0 where
  supervisor event reconciliation : Component

pub record ReadinessView : Type 0 where
  pub status : ReadinessStatus
  pub supervisor_status : Option DiagnosisStatus
  pub event_status : Option EventStatus
  pub reconciliation_status : Option ReconciliationStatus
  pub reasons : List Reason
  pub present_components : List Component

abbrev listed {ℓ} : {A : Type ℓ} → Option A → Component → List Component → List Component
listed none c rest = rest
listed (some _) c rest = c ∷ rest

-- The names of the reports that are there, in the fixed order.
abbrev pub components {ℓ κ μ} :
    {A : Type ℓ} {B : Type κ} {C : Type μ} → Option A → Option B → Option C → List Component
components s e r = listed s supervisor (listed e event (listed r reconciliation []))

-- `_status`: the view refuses the event status "blocked".
abbrev event_accepted : Option EventStatus → Bool
event_accepted (some event_blocked) = false
event_accepted _ = true

abbrev pub is_blocking : Option DiagnosisStatus → Bool
is_blocking (some blocked) = true
is_blocking (some failed) = true
is_blocking (some needs_human_intervention) = true
is_blocking _ = false

abbrev is_slow : Option DiagnosisStatus → Bool
is_slow (some slow) = true
is_slow (some degraded) = true
is_slow _ = false

abbrev is_suspected : Option DiagnosisStatus → Bool
is_suspected (some suspected) = true
is_suspected _ = false

abbrev healthy_or_none : Option DiagnosisStatus → Bool
healthy_or_none none = true
healthy_or_none (some healthy) = true
healthy_or_none _ = false

abbrev event_is_degraded : Option EventStatus → Bool
event_is_degraded (some event_degraded) = true
event_is_degraded _ = false

abbrev event_is_unknown : Option EventStatus → Bool
event_is_unknown (some event_unknown) = true
event_is_unknown _ = false

abbrev event_healthy_or_none : Option EventStatus → Bool
event_healthy_or_none none = true
event_healthy_or_none (some event_healthy) = true
event_healthy_or_none _ = false

abbrev reconciliation_is_degraded : Option ReconciliationStatus → Bool
reconciliation_is_degraded (some reconciliation_degraded) = true
reconciliation_is_degraded _ = false

abbrev reconciliation_is_unknown : Option ReconciliationStatus → Bool
reconciliation_is_unknown (some reconciliation_unknown) = true
reconciliation_is_unknown _ = false

abbrev consistent_or_none : Option ReconciliationStatus → Bool
consistent_or_none none = true
consistent_or_none (some consistent) = true
consistent_or_none _ = false

-- `components != expected`
abbrev same_component : Component → Component → Bool
same_component supervisor supervisor = true
same_component event event = true
same_component reconciliation reconciliation = true
same_component _ _ = false

abbrev same_components : List Component → List Component → Bool
same_components [] [] = true
same_components (c ∷ cs) (d ∷ ds) = same_component c d && same_components cs ds
same_components _ _ = false

-- `reasons == (reason,)`
abbrev is_just : Reason → List Reason → Bool
is_just supervisor_blocked (supervisor_blocked ∷ []) = true
is_just source_degraded (source_degraded ∷ []) = true
is_just missing_or_unknown_source (missing_or_unknown_source ∷ []) = true
is_just _ _ = false

abbrev no_reasons : List Reason → Bool
no_reasons [] = true
no_reasons (r ∷ rs) = false

abbrev no_components : List Component → Bool
no_components [] = true
no_components (c ∷ cs) = false

-- The last test of ReadinessView.__post_init__, one clause for each status.
consistent_status : ReadinessStatus → ReadinessView → Bool
consistent_status view_ready v =
    no_reasons v.reasons
    && (healthy_or_none v.supervisor_status
        && (event_healthy_or_none v.event_status && consistent_or_none v.reconciliation_status))
consistent_status view_blocked v =
    is_just supervisor_blocked v.reasons && is_blocking v.supervisor_status
consistent_status view_degraded v =
    is_just source_degraded v.reasons
    && (is_slow v.supervisor_status
        || event_is_degraded v.event_status
        || reconciliation_is_degraded v.reconciliation_status)
consistent_status view_unknown v =
    is_just missing_or_unknown_source v.reasons
    && (no_components v.present_components
        || is_suspected v.supervisor_status
        || event_is_unknown v.event_status
        || reconciliation_is_unknown v.reconciliation_status)

abbrev same_reason : Reason → Reason → Bool
same_reason supervisor_blocked supervisor_blocked = true
same_reason source_degraded source_degraded = true
same_reason missing_or_unknown_source missing_or_unknown_source = true
same_reason _ _ = false

-- `_fixed_tuple(…, dedupe=True)`: the first occurrences, in order
dedupe : List Reason → List Reason → List Reason
dedupe seen [] = seen
dedupe seen (r ∷ rs) = dedupe (if any (same_reason r) seen then seen else seen ++ r ∷ []) rs

-- __post_init__: more than three reasons are refused, repeated ones are dropped.
unfoldable pub build_view : ReadinessView → Option ReadinessView
unfolding consistent_status dedupe
build_view v =
    let detached = record v { reasons = dedupe [] v.reasons } in
    if ltb 3 (length v.reasons) || not (event_accepted v.event_status)
    then none
    else if not (
        same_components v.present_components
          (components v.supervisor_status v.event_status v.reconciliation_status))
    then none
    else if consistent_status v.status detached
    then some detached
    else none

-- The status and the reasons that `compose_readiness` chooses.
choose :
    Option DiagnosisStatus
    → Option EventStatus
    → Option ReconciliationStatus
    → ReadinessStatus × List Reason
choose s e r =
    if is_blocking s
    then (view_blocked, supervisor_blocked ∷ [])
    else if is_slow s || event_is_degraded e || reconciliation_is_degraded r
    then (view_degraded, source_degraded ∷ [])
    else if no_components (components s e r)
        || is_suspected s
        || event_is_unknown e
        || reconciliation_is_unknown r
    then (view_unknown, missing_or_unknown_source ∷ [])
    else (view_ready, [])

-- The arguments are the statuses of the three reports, `none` where a report is not given.
unfoldable pub compose_readiness :
    Option DiagnosisStatus → Option EventStatus → Option ReconciliationStatus → Option ReadinessView
unfolding choose build_view
compose_readiness s e r =
    let (status, reasons) = choose s e r in
    build_view (record {
      status = status;
      supervisor_status = s;
      event_status = e;
      reconciliation_status = r;
      reasons = reasons;
      present_components = components s e r;
    })
