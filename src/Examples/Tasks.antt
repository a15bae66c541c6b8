-- ===== src/Examples/Tasks.antt =====
-- Tasks of scripts/pd_fleet/lifecycle.py at concrete inputs.
use project_development_skil.Base.{
  ◌≤◌, String, true, false, none, some, List, [], ◌∷◌, ◌≡◌, ◌≢◌, ◌⊎◌, inl, refl, arith, pos, join,
}
use Prim.Native.String.{◌++◌ as append}
use project_development_skil.Value.{
  Value, Fields, string, obj, end, field, get, present, has, has_field,
}
use project_development_skil.Lifecycle.{
  TaskLifecycle, Op, apply, run, fresh, recover_orphan, pending, ready, running, failed, completed,
  blocked, value_error, instant, omitted, unreadable, do_mark_ready, do_start, do_complete, do_fail,
  do_retry, do_skip,
}
use project_development_skil.Lifecycle.Walks.{Walks, history-Walks, now_of, raise_unchanged}
use project_development_skil.Lifecycle.Terminal.{terminal_absorbs}
use project_development_skil.Lifecycle.Attempts.{
  starts, Reach, here, next, IsSound, IsTimely, Reach-IsSound, starts-le-max_attempts,
}
use project_development_skil.Lifecycle.Orphans.{recover_orphan_ignores_heartbeat}
use project_development_skil.Lifecycle.Gates.{
  GatePolicy, passed, lookup, allows, blocked_by, require_ready, require_ready_lem,
}

-- Ready, started, failed, retried, started again and completed.
abbrev calls : List Op
calls =
    do_mark_ready
    ∷ do_start "ana" (instant 1)
    ∷ do_fail "timeout" true (instant 2)
    ∷ do_retry
    ∷ do_start "ana" (instant 3)
    ∷ do_complete (string "diff") (string "log") (instant 4)
    ∷ []

calls_state : (run (fresh "t" 2) calls).state ≡ completed
unfolding run apply fresh has
calls_state = refl

calls_attempt : (run (fresh "t" 2) calls).attempt ≡ 2
unfolding run apply fresh has
calls_attempt = refl

history-Walks_example : let s = run (fresh "t" 2) calls in Walks pending s.history s.state
history-Walks_example = history-Walks "t" 2 calls

abbrev started_task : TaskLifecycle
unfolding apply fresh
started_task = (apply (apply (fresh "t" 2) do_mark_ready).0 (do_start "ana" (instant 1))).0

-- A completion at a time that is the text of a date
abbrev half_completed : Op
half_completed = do_complete (string "diff") (string "log") unreadable

raise_unchanged_example :
    ((apply started_task half_completed).0 ≡ started_task)
    ⊎ ((value_error ≡ value_error)
        × (now_of half_completed ≡ unreadable)
        × ((apply started_task half_completed).0.state ≡ running)
        × ((apply started_task half_completed).0.heartbeat ≡ started_task.heartbeat)
        × ((apply started_task half_completed).0.started_at ≡ started_task.started_at)
        × ((apply started_task half_completed).0.finished_at ≡ started_task.finished_at))
unfolding apply fresh has
raise_unchanged_example = raise_unchanged started_task half_completed {e = value_error} refl

half_completed-report : (apply started_task half_completed).0.final_report ≡ string "log"
unfolding apply fresh has
half_completed-report = refl

abbrev finished : TaskLifecycle
unfolding run apply fresh has
finished = run (fresh "t" 2) calls

terminal_absorbs_example : run finished (do_retry ∷ do_skip "late" ∷ []) ≡ finished
unfolding run apply fresh has
terminal_absorbs_example = terminal_absorbs finished (do_retry ∷ do_skip "late" ∷ []) (inl refl)

-- A task whose only attempt failed for good.
abbrev spent : TaskLifecycle
unfolding run apply fresh has
spent =
    run (fresh "t" 1) (do_mark_ready ∷ do_start "ana" omitted ∷ do_fail "bug" false omitted ∷ [])

abbrev route : Reach (fresh "t" 2) started_task
unfolding apply fresh
route = next (next here do_mark_ready refl) (do_start "ana" (instant 1)) refl

Reach-IsSound_example : IsSound started_task
unfolding apply fresh
Reach-IsSound_example = Reach-IsSound "t" 2 (omega arith) route

starts-le-max_attempts_example : starts started_task.history ≤ 2
unfolding apply fresh
starts-le-max_attempts_example = starts-le-max_attempts "t" 2 (omega arith) route

instant_readable : instant 2 ≢ unreadable
instant_readable = ground arith

route-IsTimely : IsTimely route
unfolding apply fresh IsTimely
route-IsTimely = ground arith

-- One tick after the heartbeat, with a timeout of 300
recover_orphan_ignores_heartbeat_example :
    ((recover_orphan started_task (instant 2) (pos 300)).1 ≡ none)
    × ((recover_orphan started_task (instant 2) (pos 300)).2 ≡ true)
    × ((recover_orphan started_task (instant 2) (pos 300)).0.state ≡ failed)
    × ((recover_orphan started_task (instant 2) (pos 300)).0.error ≡ some "orphaned_run")
    × ((recover_orphan started_task (instant 2) (pos 300)).0.retryable ≡ true)
unfolding apply fresh
recover_orphan_ignores_heartbeat_example =
    recover_orphan_ignores_heartbeat "t" 2 (instant 2) 300 route route-IsTimely refl
      instant_readable

abbrev policy : GatePolicy
policy = record { required = "review" ∷ "tests" ∷ [] }

-- A review that passed with its evidence, and no tests.
abbrev review : Fields
review =
    field "status" (string "passed")
      (field "evidence" (string "link") (field "owner" (string "ana") end))

abbrev given : List (String × Value)
given = ("review", obj review) ∷ []

given_blocked : blocked_by policy given ≡ "tests" ∷ []
unfolding blocked_by lookup passed present has_field get
given_blocked = refl

require_ready_lem_example :
    ((require_ready policy (fresh "t" 2) given).1 ≡ none)
    × ((fresh "t" 2).state ≡ pending
        → allows policy given ≡ true
        → (require_ready policy (fresh "t" 2) given).0.state ≡ ready)
    × ((fresh "t" 2).state ≡ pending
        → allows policy given ≡ false
        → ((require_ready policy (fresh "t" 2) given).0.state ≡ blocked)
          × ((require_ready policy (fresh "t" 2) given).0.reason
              ≡ some (append "gate: " (join ", " (blocked_by policy given)))))
    × ((fresh "t" 2).state ≢ pending → (require_ready policy (fresh "t" 2) given).0 ≡ fresh "t" 2)
require_ready_lem_example = require_ready_lem policy (fresh "t" 2) given
