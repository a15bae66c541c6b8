-- ===== src/Supervision/Diagnosis.antt =====
-- What a diagnosis says of the snapshot it was made from.
use project_development_skil.Base.{
  ℕ, ◌≤◌, ◌<◌, String, List, str_eq, Bool, true, false, Option, none, some, [], ◌∷◌, ◌≡◌, ◌≢◌, ◌↔◌,
  ◌⊎◌, arith, any, All, length,
}
use project_development_skil.Supervision.{
  HealthSnapshot, SupervisorDiagnosis, InterventionProposal, DesiredState, alive, missing, ready,
  advanced, healthy_signal, failed_signal, healthy, running, paused, completed, cancelled, reaches,
  diagnose_snapshot, reconcile_snapshot,
}

abbrev pub IsRecent : Option ℕ → Type 0
IsRecent none = Unit
IsRecent (some age) = age < 60

abbrev pub IsWell : HealthSnapshot → Type 0
IsWell s =
    (s.signal.liveness ≡ alive)
    × (s.signal.readiness ≡ ready)
    × (s.signal.progress ≡ advanced)
    × (s.signal.health ≡ healthy_signal)
    × IsRecent s.last_heartbeat_age_seconds

-- A snapshot is diagnosed healthy exactly when each of its four signals is the good one and its
-- heartbeat, if it has an age, is younger than 60 seconds.
pub diagnose-healthy_iff :
    (s : HealthSnapshot) → ((diagnose_snapshot s).status ≡ healthy) ↔ IsWell s
unfolding diagnose_snapshot
diagnose-healthy_iff s = (ground arith, ground arith)

abbrev pub needs_human : SupervisorDiagnosis → Bool
needs_human d = any (λ (p : InterventionProposal). p.human_gate_required) d.proposals

-- A person is asked for exactly when the worker reported a failure, or its liveness is missing
-- and the last heartbeat is at least 300 seconds old.
pub diagnose-needs_human_iff :
    (s : HealthSnapshot)
    → (needs_human (diagnose_snapshot s) ≡ true) ↔ (
        (s.signal.health ≡ failed_signal)
        ⊎ ((s.signal.liveness ≡ missing) × (reaches s.last_heartbeat_age_seconds 300 ≡ true)))
unfolding diagnose_snapshot
diagnose-needs_human_iff s = (ground arith, ground arith)

-- Every reconciliation gives at most one proposal, with the snapshot's task as its target; and it
-- gives no reason exactly when it is healthy.
pub reconcile_bounded :
    (s : HealthSnapshot) (desired : DesiredState) (epoch : Option ℕ)
    → (length (reconcile_snapshot s desired epoch).proposals ≤ 1)
      × All (λ p. p.target ≡ s.task_id) (reconcile_snapshot s desired epoch).proposals
      × (((reconcile_snapshot s desired epoch).status ≡ healthy)
          ↔ ((reconcile_snapshot s desired epoch).reasons ≡ []))
unfolding reconcile_snapshot
reconcile_bounded s desired epoch = (ground arith, ground arith, (ground arith, ground arith))

-- No epoch is given, or it is the snapshot's.
abbrev pub IsCurrent : HealthSnapshot → Option ℕ → Type 0
IsCurrent s none = Unit
IsCurrent s (some active) = s.owner_epoch ≡ active

-- What a snapshot must show to be in the desired state
abbrev pub IsAsDesired : HealthSnapshot → DesiredState → Type 0
IsAsDesired s running = IsWell s
IsAsDesired s paused = s.signal.liveness ≢ alive
IsAsDesired s completed = s.signal.progress ≡ advanced
IsAsDesired s cancelled = s.signal.progress ≡ advanced

-- Whether the one reason is the stale epoch
abbrev names_stale : List String → Bool
names_stale (r ∷ []) = str_eq r "stale_owner_epoch"
names_stale _ = false

named_stale : (rs : List String) → names_stale rs ≡ false → rs ≢ "stale_owner_epoch" ∷ []
named_stale rs h e = (let n = rw e at h in cc)

diagnose-names_stale : (s : HealthSnapshot) → names_stale (diagnose_snapshot s).reasons ≡ false
unfolding diagnose_snapshot
diagnose-names_stale s = ground arith

module _ (s : HealthSnapshot) where
  healthy_iff :
      (desired : DesiredState) (epoch : Option ℕ)
      → ((reconcile_snapshot s desired epoch).status ≡ healthy)
        ↔ (IsCurrent s epoch × IsAsDesired s desired)
  unfolding reconcile_snapshot
  healthy_iff running epoch =
      (ground (arith, diagnose-healthy_iff s), ground (arith, diagnose-healthy_iff s))
  healthy_iff paused epoch = (ground arith, ground arith)
  healthy_iff completed epoch = (ground arith, ground arith)
  healthy_iff cancelled epoch = (ground arith, ground arith)

  -- Whatever the run should be, a current epoch is never named stale.
  current-names_stale :
      (desired : DesiredState) (epoch : Option ℕ)
      → IsCurrent s epoch
      → names_stale (reconcile_snapshot s desired epoch).reasons ≡ false
  unfolding reconcile_snapshot
  current-names_stale running epoch c = ground (arith, diagnose-names_stale s)
  current-names_stale paused epoch c = ground arith
  current-names_stale completed epoch c = ground arith
  current-names_stale cancelled epoch c = ground arith

  stale_reason :
      (desired : DesiredState) (epoch : Option ℕ)
      → ¬ IsCurrent s epoch
      → (reconcile_snapshot s desired epoch).reasons ≡ "stale_owner_epoch" ∷ []
  unfolding reconcile_snapshot
  stale_reason desired epoch n = ground arith

  stale_iff :
      (desired : DesiredState) (epoch : Option ℕ)
      → ((reconcile_snapshot s desired epoch).reasons ≡ "stale_owner_epoch" ∷ [])
        ↔ (¬ IsCurrent s epoch)
  stale_iff desired epoch =
      (λ e c. named_stale _ (current-names_stale desired epoch c) e, stale_reason desired epoch)

-- A reconciliation is healthy exactly when the given owner epoch, if any, is the snapshot's and the
-- snapshot is as desired: for a run that should be running all four signals are good and the
-- heartbeat is recent, for a paused one the worker is not alive, for a completed or cancelled one the
-- progress is advanced. Its one reason is stale_owner_epoch exactly when the epoch is another one.
pub reconcile_iff :
    (s : HealthSnapshot) (desired : DesiredState) (epoch : Option ℕ)
    → (((reconcile_snapshot s desired epoch).status ≡ healthy)
        ↔ (IsCurrent s epoch × IsAsDesired s desired))
      × (((reconcile_snapshot s desired epoch).reasons ≡ "stale_owner_epoch" ∷ [])
          ↔ (¬ IsCurrent s epoch))
reconcile_iff s desired epoch = (healthy_iff s desired epoch, stale_iff s desired epoch)
