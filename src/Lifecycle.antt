-- ===== src/Lifecycle.antt =====
-- scripts/pd_fleet/lifecycle.py: the state machine of one task. A method mutates the object and may
-- raise, so it returns the object beside the error: what was written before a raise stays written.
-- Instants and durations are whole ticks of the caller's clock; only the exception's class is kept.
-- `now` may be left out, or be something that `_seconds` raises on.
pub mod Diagram
pub mod Walks
pub mod Terminal
pub mod Attempts
pub mod Orphans
pub mod Gates
use project_development_skil.Base.{
  ℕ, ◌+◌, String, Bool, true, false, not, ◌||◌, Option, none, some, List, [], ◌∷◌, ◌++◌, ltb, leb,
  ◌==◌, if◌then◌else◌, is_nil, is_blank, str_eq, ℤ, pos, negsuc,
}
use project_development_skil.Value.{Value, null, has}

pub data LifecycleState : Type 0 where
  pending ready running blocked failed completed skipped : LifecycleState

-- The exception classes; the next three derive from `lifecycle_error`. `value_error` is none of
-- them: it stands for what `float` and a failing `timestamp` raise in `_seconds`.
pub data LifecycleError : Type 0 where
  lifecycle_error invalid_transition completion_error retry_exhausted value_error : LifecycleError

-- The argument `now`: None, what `_seconds` raises on, such as the text of a date, or an instant
pub data Now : Type 0 where
  omitted unreadable : Now
  instant : ℕ → Now

-- _seconds; `none` stands for its exception, also on None
abbrev pub seconds : Now → Option ℕ
seconds (instant t) = some t
seconds _ = none

-- `LifecycleState.value`, and `LifecycleState(text)`, which raises `ValueError` on other texts
unfoldable pub value : LifecycleState → String
value pending = "pending"
value ready = "ready"
value running = "running"
value blocked = "blocked"
value failed = "failed"
value completed = "completed"
value skipped = "skipped"

unfoldable pub of_value : String → Option LifecycleState
of_value s =
    if str_eq s "pending"
    then some pending
    else if str_eq s "ready"
    then some ready
    else if str_eq s "running"
    then some running
    else if str_eq s "blocked"
    then some blocked
    else if str_eq s "failed"
    then some failed
    else if str_eq s "completed"
    then some completed
    else if str_eq s "skipped"
    then some skipped
    else none

-- What a caller may pass as a state: a member, a `str`, or anything else.
pub data StateArg : Type 0 where
  member : LifecycleState → StateArg
  named : String → StateArg
  foreign : StateArg

-- _state; `none` stands for the LifecycleError
unfoldable pub to_state : StateArg → Option LifecycleState
unfolding of_value
to_state (member s) = some s
to_state (named t) = of_value t
to_state foreign = none

-- VALID_TRANSITIONS
unfoldable pub allowed : LifecycleState → LifecycleState → Bool
allowed pending ready = true
allowed pending skipped = true
allowed pending blocked = true
allowed ready running = true
allowed ready skipped = true
allowed ready blocked = true
allowed running completed = true
allowed running failed = true
allowed running blocked = true
allowed failed ready = true
allowed _ _ = false

pub record Move : Type 0 where
  pub source : LifecycleState
  pub target : LifecycleState
  pub reason : Option String

pub record TaskLifecycle : Type 0 where
  pub task_id : String
  pub state : LifecycleState
  pub attempt : ℕ
  pub max_attempts : ℕ
  pub agent : Option String
  pub heartbeat : Option ℕ
  pub started_at : Option ℕ
  pub finished_at : Option ℕ
  pub outputs : Value
  pub evidence : Value
  pub reason : Option String
  pub error : Option String
  pub history : List Move
  pub final_report : Value
  pub report_final : Value
  pub retryable : Bool

-- The dataclass defaults, for a given id and bound on attempts.
unfoldable pub fresh : String → ℕ → TaskLifecycle
fresh task_id max_attempts = record {
  task_id = task_id;
  state = pending;
  attempt = 0;
  max_attempts = max_attempts;
  agent = none;
  heartbeat = none;
  started_at = none;
  finished_at = none;
  outputs = null;
  evidence = null;
  reason = none;
  error = none;
  history = [];
  final_report = null;
  report_final = null;
  retryable = true;
}

abbrev pub Call : Type 0
Call = TaskLifecycle × Option LifecycleError

-- __post_init__ on fields of the declared types
unfoldable pub post_init : TaskLifecycle → Call
post_init s =
    if is_nil s.task_id || ltb s.max_attempts 1 || ltb s.max_attempts s.attempt
    then (s, some lifecycle_error)
    else (s, none)

-- The new reason replaces the old one unless it is None.
abbrev pub or_keep {ℓ} : {A : Type ℓ} → Option A → Option A → Option A
or_keep none old = old
or_keep (some a) old = some a

unfoldable pub can_transition : TaskLifecycle → StateArg → Option Bool
unfolding to_state allowed
can_transition s arg = elim (to_state arg) [ none ↦ none | some t ↦ some (allowed s.state t) ]

unfoldable pub move : TaskLifecycle → LifecycleState → Option String → Call
unfolding allowed
move s target reason =
    if allowed s.state target
    then (
      record s {
        state = target;
        reason = or_keep reason s.reason;
        history = s.history ++ record { source = s.state; target = target; reason = reason } ∷ [];
      },
      none,
    )
    else (s, some invalid_transition)

unfoldable pub transition : TaskLifecycle → StateArg → Option String → Call
unfolding to_state move
transition s arg reason = elim (to_state arg) [
  | none ↦ (s, some lifecycle_error)
  | some t ↦ move s t reason
]

abbrev pub is_running : LifecycleState → Bool
is_running running = true
is_running _ = false

abbrev pub is_completed : LifecycleState → Bool
is_completed completed = true
is_completed _ = false

abbrev pub is_failed : LifecycleState → Bool
is_failed failed = true
is_failed _ = false

unfoldable pub mark_ready : TaskLifecycle → Call
unfolding move
mark_ready s = move s ready none

-- The tail of `start`, after a transition that did not raise
started : String → Now → TaskLifecycle → Call
started agent now s =
    let first = record s {
      attempt = if s.attempt == 0 then 1 else s.attempt;
      agent = some agent;
    } in
    elim now [
      | omitted ↦ (first, none)
      | unreadable ↦ (first, some value_error)
      | instant t ↦ (record first { started_at = some t; heartbeat = some t }, none)
    ]

-- A transition that raised ends `start`.
start_from : String → Now → Call → Call
unfolding started
start_from agent now (s, none) = started agent now s
start_from agent now (s, some e) = (s, some e)

unfoldable pub start : TaskLifecycle → String → Now → Call
unfolding move start_from
start s agent now =
    if is_nil agent then (s, some lifecycle_error) else start_from agent now (move s running none)

unfoldable pub beat : TaskLifecycle → Now → Call
beat s now =
    if is_running s.state
    then elim (seconds now) [
      | none ↦ (s, some value_error)
      | some t ↦ (record s { heartbeat = some t }, none)
    ]
    else (s, some invalid_transition)

-- The last two statements of `complete` and of `fail`: `finished_at`, unless `now` is None, and the
-- transition
finish : TaskLifecycle → Now → LifecycleState → Option String → Call
unfolding move
finish s now target reason = elim now [
  | omitted ↦ move s target reason
  | unreadable ↦ (s, some value_error)
  | instant t ↦ move (record s { finished_at = some t }) target reason
]

unfoldable pub complete : TaskLifecycle → Value → Value → Now → Call
unfolding finish
complete s outputs evidence now =
    if is_completed s.state
    then (s, none)
    else if not (is_running s.state)
    then (s, some invalid_transition)
    else if not (has outputs) || not (has evidence)
    then (s, some completion_error)
    else finish
        (record s {
          outputs = outputs;
          evidence = evidence;
          final_report = evidence;
          report_final = evidence;
        })
        now completed none

unfoldable pub fail : TaskLifecycle → String → Bool → Now → Call
unfolding finish
fail s error retryable now =
    if is_running s.state
    then finish (record s { error = some error; retryable = retryable }) now failed (some error)
    else (s, some invalid_transition)

unfoldable pub retry : TaskLifecycle → Call
unfolding move
retry s =
    if not (is_failed s.state)
    then (s, some invalid_transition)
    else if leb s.max_attempts s.attempt
    then (s, some retry_exhausted)
    else if not s.retryable
    then (s, some retry_exhausted)
    else move (record s { attempt = s.attempt + 1; error = none }) ready (some "explicit_retry")

unfoldable pub block : TaskLifecycle → String → Call
unfolding move
block s reason = if is_blank reason then (s, some lifecycle_error) else move s blocked (some reason)

unfoldable pub skip : TaskLifecycle → String → Call
unfolding move
skip s reason = if is_blank reason then (s, some lifecycle_error) else move s skipped (some reason)

-- `x if x is not None else y`, for Any values and for optional instants
abbrev pub or_value : Value → Value → Value
or_value null y = y
or_value x y = x

abbrev pub is_null : Value → Bool
is_null null = true
is_null _ = false

-- `reference is None or _seconds(now) - reference >= timeout`, the latter without a subtraction
abbrev pub overdue : Option ℕ → Now → ℕ → Option Bool
overdue none now timeout = some true
overdue (some reference) (instant t) timeout = some (leb (reference + timeout) t)
overdue (some reference) _ timeout = none

-- The test of `recover_orphan`, for a running task; it stops at the first part that holds.
unfoldable pub is_orphan : TaskLifecycle → Now → ℕ → Option Bool
is_orphan s now timeout =
    if is_null (or_value s.final_report s.report_final)
    then some true
    else overdue (or_keep s.heartbeat s.started_at) now timeout

-- `return True` after a call of `fail` that did not raise
abbrev pub recovered : Call → TaskLifecycle × Option LifecycleError × Bool
recovered (s, none) = (s, none, true)
recovered (s, some e) = (s, some e, false)

-- A negative timeout raises; the last part is the returned bool, and false after an exception.
unfoldable pub recover_orphan :
    TaskLifecycle → Now → ℤ → TaskLifecycle × Option LifecycleError × Bool
unfolding fail is_orphan
recover_orphan s now (negsuc n) =
    if is_running s.state then (s, some lifecycle_error, false) else (s, none, false)
recover_orphan s now (pos timeout) =
    if not (is_running s.state) then (s, none, false) else elim (is_orphan s now timeout) [
      | none ↦ (s, some value_error, false)
      | some false ↦ (s, none, false)
      | some true ↦ recovered (fail s "orphaned_run" true now)
    ]

-- One call of a method, with the arguments it was given.
pub data Op : Type 0 where
  do_transition : StateArg → Option String → Op
  do_mark_ready : Op
  do_start : String → Now → Op
  do_beat : Now → Op
  do_complete : Value → Value → Now → Op
  do_fail : String → Bool → Now → Op
  do_retry : Op
  do_block : String → Op
  do_skip : String → Op
  do_recover_orphan : Now → ℤ → Op

unfoldable pub apply : TaskLifecycle → Op → Call
unfolding transition mark_ready start beat complete fail retry block skip recover_orphan
apply s (do_transition arg reason) = transition s arg reason
apply s do_mark_ready = mark_ready s
apply s (do_start agent now) = start s agent now
apply s (do_beat now) = beat s now
apply s (do_complete outputs evidence now) = complete s outputs evidence now
apply s (do_fail error retryable now) = fail s error retryable now
apply s do_retry = retry s
apply s (do_block reason) = block s reason
apply s (do_skip reason) = skip s reason
apply s (do_recover_orphan now timeout) = let (s', e, _) = recover_orphan s now timeout in (s', e)

-- A caller that carries on after every error.
unfoldable pub run : TaskLifecycle → List Op → TaskLifecycle
run s [] = s
run s (op ∷ ops) = run (apply s op).0 ops
