-- ===== src/Lifecycle/Orphans.antt =====
-- `recover_orphan`: what it does to a task whose heartbeat is recent.
use project_development_skil.Base.{ℕ, true, none, some, ◌≡◌, ◌≢◌, arith, pos, String}
use project_development_skil.Lifecycle.{
  TaskLifecycle, Now, unreadable, running, failed, recover_orphan, fresh,
}
use project_development_skil.Lifecycle.Attempts.{Reach, IsTimely, Reach-IsUnreported}

-- After calls of the protocol whose times can be read, a running task has no report, so
-- `recover_orphan` fails it whatever its last heartbeat and the timeout are: with a timeout that is
-- not negative, and None or a time that can be read, it raises nothing, returns true, and the task is
-- failed as "orphaned_run" and may be retried.
pub recover_orphan_ignores_heartbeat :
    (task_id : String) (max_attempts : ℕ) {s : TaskLifecycle} (now : Now) (timeout : ℕ)
    → (r : Reach (fresh task_id max_attempts) s) → IsTimely r
    → s.state ≡ running
    → now ≢ unreadable
    → ((recover_orphan s now (pos timeout)).1 ≡ none)
      × ((recover_orphan s now (pos timeout)).2 ≡ true)
      × ((recover_orphan s now (pos timeout)).0.state ≡ failed)
      × ((recover_orphan s now (pos timeout)).0.error ≡ some "orphaned_run")
      × ((recover_orphan s now (pos timeout)).0.retryable ≡ true)
unfolding recover_orphan
recover_orphan_ignores_heartbeat task_id max_attempts now timeout r t h n =
    ground (arith, Reach-IsUnreported task_id max_attempts r t)
