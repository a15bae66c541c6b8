-- ===== src/Readiness/Composition.antt =====
-- When a readiness view can be composed, and when it says that the fleet is ready.
use project_development_skil.Base.{true, Option, none, some, [], ◌≡◌, ◌≢◌, ◌↔◌, ◌⊎◌, arith}
use project_development_skil.Supervision.{DiagnosisStatus, healthy}
use project_development_skil.Readiness.{
  EventStatus, ReconciliationStatus, ReadinessView, event_healthy, event_blocked, consistent,
  view_ready, view_blocked, compose_readiness, components, is_blocking,
}

module _ (s : Option DiagnosisStatus) (e : Option EventStatus)
    (r : Option ReconciliationStatus) where
  -- Composing raises exactly for an event report that is blocked: for all other statuses the
  -- chosen status and reasons pass the checks of the view. The view carries the three statuses.
  pub compose-none_iff :
      ((compose_readiness s e r ≡ none) ↔ (e ≡ some event_blocked))
      × ((v : ReadinessView)
          → compose_readiness s e r ≡ some v
          → (v.supervisor_status ≡ s) × (v.event_status ≡ e) × (v.reconciliation_status ≡ r))
  unfolding compose_readiness
  compose-none_iff = ((ground arith, ground arith), λ v h. ground arith)

  -- The view is ready exactly when some report is given, and each one given is good: the diagnosis
  -- healthy, the events healthy, the reconciliation consistent.
  pub compose-ready_iff :
      (v : ReadinessView)
      → compose_readiness s e r ≡ some v
      → (v.status ≡ view_ready) ↔ (
          (components s e r ≢ [])
          × ((s ≡ none) ⊎ (s ≡ some healthy))
          × ((e ≡ none) ⊎ (e ≡ some event_healthy))
          × ((r ≡ none) ⊎ (r ≡ some consistent)))
  unfolding compose_readiness
  compose-ready_iff v h = (ground arith, ground arith)

  -- A diagnosis that is blocked, failed or in need of a person blocks the view, whatever the other
  -- reports say, and nothing else does.
  pub compose-blocked_iff :
      (v : ReadinessView)
      → compose_readiness s e r ≡ some v
      → (v.status ≡ view_blocked) ↔ (is_blocking s ≡ true)
  unfolding compose_readiness
  compose-blocked_iff v h = (ground arith, ground arith)
