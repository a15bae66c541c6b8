-- ===== src/Lifecycle/Terminal.antt =====
-- Terminal states, the codec of the state names, and what brings a failed task back.
use project_development_skil.Base.{
  ◌≤◌, String, false, none, some, List, [], ◌∷◌, ◌≡◌, ◌⊎◌, refl, arith, eq_iff,
}
use project_development_skil.Lifecycle.{
  LifecycleState, TaskLifecycle, Op, value, of_value, apply, run, mark_ready, retry, completed,
  skipped, blocked, failed, ready, pending, running, retry_exhausted,
}

abbrev pub IsTerminal : LifecycleState → Type 0
IsTerminal s = (s ≡ completed) ⊎ ((s ≡ skipped) ⊎ (s ≡ blocked))

apply_of_IsTerminal : (s : TaskLifecycle) (op : Op) → IsTerminal s.state → (apply s op).0 ≡ s
unfolding apply
apply_of_IsTerminal s op h = ground arith

-- A completed, skipped or blocked task is never changed again, by any calls at all.
pub terminal_absorbs : (s : TaskLifecycle) (ops : List Op) → IsTerminal s.state → run s ops ≡ s
unfolding run
terminal_absorbs s [] h = refl
terminal_absorbs s (op ∷ ops) h = rw (apply_of_IsTerminal s op h) (terminal_absorbs s ops h)

of_value_self : (s : LifecycleState) → of_value (value s) ≡ some s
unfolding of_value value
of_value_self pending = refl
of_value_self ready = refl
of_value_self running = refl
of_value_self blocked = refl
of_value_self failed = refl
of_value_self completed = refl
of_value_self skipped = refl

value_only : (s : LifecycleState) (t : String) → of_value t ≡ some s → t ≡ value s
unfolding of_value value
value_only s t h = ground (
  arith,
  eq_iff t "pending",
  eq_iff t "ready",
  eq_iff t "running",
  eq_iff t "blocked",
  eq_iff t "failed",
  eq_iff t "completed",
  eq_iff t "skipped",
)

-- Reading a state's text gives the state back, and only its own text reads as a state.
pub of_value-value :
    (s : LifecycleState) (t : String)
    → (of_value (value s) ≡ some s) × (of_value t ≡ some s → t ≡ value s)
of_value-value s t = (of_value_self s, value_only s t)

-- `mark_ready` brings every failed task back, also one that `retry` refuses because its attempts
-- are used up or its failure is not retryable, and does not count an attempt.
pub mark_ready_bypasses_retry :
    (s : TaskLifecycle)
    → s.state ≡ failed
    → (s.max_attempts ≤ s.attempt) ⊎ (s.retryable ≡ false)
    → (retry s ≡ (s, some retry_exhausted))
      × ((mark_ready s).1 ≡ none)
      × ((mark_ready s).0.state ≡ ready)
      × ((mark_ready s).0.attempt ≡ s.attempt)
unfolding retry mark_ready
mark_ready_bypasses_retry s f h = ground arith
