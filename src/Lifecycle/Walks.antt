-- ===== src/Lifecycle/Walks.antt =====
-- The history is a walk of VALID_TRANSITIONS, from `pending` to the state, whatever was called.
use project_development_skil.Base.{
  ℕ, String, true, Option, some, List, [], ◌∷◌, ◌++◌, ◌≡◌, ◌⊎◌, refl, arith,
}
use project_development_skil.Lifecycle.{
  LifecycleState, LifecycleError, TaskLifecycle, Move, Op, Now, allowed, apply, run, fresh, pending,
  running, value_error, omitted, unreadable, do_start, do_beat, do_complete, do_fail,
  do_recover_orphan,
}
use project_development_skil.Lifecycle.Diagram.{Step, stay, follow, apply-Step}

-- Each move starts where the one before it ended, and is an edge of the table.
abbrev pub Walks : LifecycleState → List Move → LifecycleState → Type 0
Walks a [] b = a ≡ b
Walks a (m ∷ ms) b = (a ≡ m.source) × (allowed m.source m.target ≡ true) × Walks m.target ms b

Walks-snoc :
    (a b c : LifecycleState) (ms : List Move) (r : Option String)
    → Walks a ms b
    → allowed b c ≡ true
    → Walks a (ms ++ record { source = b; target = c; reason = r } ∷ []) c
Walks-snoc a b c [] r w h = (w, h, refl)
Walks-snoc a b c (m ∷ ms) r w h = (w.0, w.1, Walks-snoc m.target b c ms r w.2 h)

Step-Walks :
    (a b : LifecycleState) (ms : List Move) (t : TaskLifecycle)
    → Walks a ms b
    → Step b ms t
    → Walks a t.history t.state
Step-Walks a b ms t w (stay p q) = rw (p, q) w
Step-Walks a b ms t w (follow r p q) = rw q (Walks-snoc a b t.state ms r w p)

run-Walks :
    (s : TaskLifecycle) (ops : List Op)
    → Walks pending s.history s.state
    → Walks pending (run s ops).history (run s ops).state
unfolding run
run-Walks s [] w = w
run-Walks s (op ∷ ops) w =
    run-Walks (apply s op).0 ops
      (Step-Walks pending s.state s.history (apply s op).0 w (apply-Step s op))

-- After any calls on a fresh task, failing ones included, each entry of the history starts where
-- the one before it ended, every entry is an edge of VALID_TRANSITIONS, and the last one ends in
-- the task's state.
pub history-Walks :
    (task_id : String) (max_attempts : ℕ) (ops : List Op)
    → let s = run (fresh task_id max_attempts) ops in Walks pending s.history s.state
unfolding fresh
history-Walks task_id max_attempts ops = run-Walks (fresh task_id max_attempts) ops refl

-- The argument `now` of a call, and None for a method that does not use one
abbrev pub now_of : Op → Now
now_of (do_start _ now) = now
now_of (do_beat now) = now
now_of (do_complete _ _ now) = now
now_of (do_fail _ _ now) = now
now_of (do_recover_orphan now _) = now
now_of _ = omitted

-- A call that raises leaves the whole object as it was, unless it is given a time that cannot be
-- read. Then what is raised is that time's exception, and the task is left running, with an
-- agent's start, a report or a failure written halfway: its times are those from before.
pub raise_unchanged :
    (s : TaskLifecycle) (op : Op) {e : LifecycleError}
    → (apply s op).1 ≡ some e
    → ((apply s op).0 ≡ s)
      ⊎ ((e ≡ value_error)
          × (now_of op ≡ unreadable)
          × ((apply s op).0.state ≡ running)
          × ((apply s op).0.heartbeat ≡ s.heartbeat)
          × ((apply s op).0.started_at ≡ s.started_at)
          × ((apply s op).0.finished_at ≡ s.finished_at))
unfolding apply
raise_unchanged s op h = ground arith
