-- ===== src/Lifecycle/Attempts.antt =====
-- Callers that use the methods as intended: no bare `transition`, and `mark_ready` only on a task
-- that has not failed. For them the attempt counter accounts for every start.
use project_development_skil.Base.{
  ℕ, suc, ◌-◌, ◌≤◌, String, Bool, true, false, not, Option, none, some, List, [], ◌∷◌, ◌++◌, ◌≡◌,
  ◌≢◌, refl, arith, is_nil, pos, negsuc, ◌∙◌,
}
use project_development_skil.Value.{has, null}
use project_development_skil.Lifecycle.{
  LifecycleState, TaskLifecycle, Move, Op, Now, apply, start, fresh, is_failed, pending, ready,
  running, blocked, failed, completed, skipped, do_transition, do_mark_ready, do_start, do_beat,
  do_complete, do_fail, do_retry, do_block, do_skip, do_recover_orphan, unreadable,
}
use project_development_skil.Lifecycle.Walks.{now_of}

-- How often the history enters `running`.
pub starts : List Move → ℕ
starts [] = 0
starts (m ∷ ms) = let rest = starts ms in elim m.target [ running ↦ suc rest | _ ↦ rest ]

-- One more entry of the history.
abbrev enters : LifecycleState → ℕ → ℕ
enters running n = suc n
enters _ n = n

starts-snoc :
    (ms : List Move) (a b : LifecycleState) (r : Option String)
    → starts (ms ++ record { source = a; target = b; reason = r } ∷ []) ≡ enters b (starts ms)
unfolding starts
starts-snoc [] a b r = ground arith
starts-snoc (m ∷ ms) a b r = ground (arith, starts-snoc ms a b r)

-- The calls of the intended protocol.
abbrev pub in_protocol : TaskLifecycle → Op → Bool
in_protocol s (do_transition _ _) = false
in_protocol s do_mark_ready = not (is_failed s.state)
in_protocol s _ = true

pub data Reach (origin : TaskLifecycle) : TaskLifecycle → Type 0 where
  here : Reach origin origin
  next :
      {s : TaskLifecycle}
      → Reach origin s
      → (op : Op) → in_protocol s op ≡ true
      → Reach origin (apply s op).0

-- What the attempt counter says of the number of starts, in each state.
abbrev pub Accounts : LifecycleState → ℕ → ℕ → Type 0
Accounts pending attempt n = (attempt ≡ 0) × (n ≡ 0)
Accounts ready attempt n = n ≡ attempt - 1
Accounts running attempt n = (n ≡ attempt) × (1 ≤ attempt)
Accounts failed attempt n = (n ≡ attempt) × (1 ≤ attempt)
Accounts completed attempt n = (n ≡ attempt) × (1 ≤ attempt)
Accounts blocked attempt n = n ≤ attempt
Accounts skipped attempt n = n ≤ attempt

abbrev IsStaffed : Option String → Type 0
IsStaffed none = ⊥
IsStaffed (some a) = is_nil a ≡ false

pub record IsSound (s : TaskLifecycle) : Type 0 where
  pub room : 1 ≤ s.max_attempts
  pub bounded : s.attempt ≤ s.max_attempts
  pub accounts : Accounts s.state s.attempt (starts s.history)
  pub evidenced : s.state ≡ completed → (has s.outputs ≡ true) × (has s.evidence ≡ true)
  pub reported : (s.final_report ≡ s.evidence) × (s.report_final ≡ s.evidence)
  pub staffed : s.state ≡ running → IsStaffed s.agent

fresh-IsSound : (task_id : String) (n : ℕ) → 1 ≤ n → IsSound (fresh task_id n)
unfolding fresh starts
fresh-IsSound task_id n h = ground arith

start-IsSound :
    (s : TaskLifecycle) (agent : String) (now : Now) → IsSound s → IsSound (start s agent now).0
unfolding start
start-IsSound s agent now h = ground (arith, starts-snoc s.history s.state running none)

apply-IsSound :
    (s : TaskLifecycle) (op : Op) → in_protocol s op ≡ true → IsSound s → IsSound (apply s op).0
unfolding apply
apply-IsSound s (do_transition _ _) p h = cc
apply-IsSound s do_mark_ready p h = ground (arith, starts-snoc s.history s.state ready none)
apply-IsSound s (do_start agent now) p h = start-IsSound s agent now h
apply-IsSound s (do_beat now) p h = ground arith
apply-IsSound s (do_complete outputs evidence now) p h =
    ground (arith, starts-snoc s.history s.state completed none)
apply-IsSound s (do_fail error retryable now) p h =
    ground (arith, starts-snoc s.history s.state failed (some error))
apply-IsSound s do_retry p h =
    ground (arith, starts-snoc s.history s.state ready (some "explicit_retry"))
apply-IsSound s (do_block reason) p h =
    ground (arith, starts-snoc s.history s.state blocked (some reason))
apply-IsSound s (do_skip reason) p h =
    ground (arith, starts-snoc s.history s.state skipped (some reason))
apply-IsSound s (do_recover_orphan now (pos n)) p h =
    ground (arith, starts-snoc s.history s.state failed (some "orphaned_run"))
apply-IsSound s (do_recover_orphan now (negsuc n)) p h = ground arith

-- A fresh task with room for an attempt stays sound under the protocol, whatever times the calls
-- are given: its attempts stay within the bound, the history's starts agree with the counter in each
-- state, both reports are the evidence, a completed task has outputs and evidence that are not
-- empty, and a running one has a named agent.
pub Reach-IsSound :
    (task_id : String) (max_attempts : ℕ) {s : TaskLifecycle}
    → 1 ≤ max_attempts
    → Reach (fresh task_id max_attempts) s
    → IsSound s
Reach-IsSound task_id max_attempts h here = fresh-IsSound task_id max_attempts h
Reach-IsSound task_id max_attempts h (next {s = s} r op p) =
    apply-IsSound s op p (Reach-IsSound task_id max_attempts h r)

-- No call on the way was given a time that cannot be read.
unfoldable pub IsTimely : {o s : TaskLifecycle} → Reach o s → Type 0
IsTimely here = Unit
IsTimely (next r op p) = (now_of op ≢ unreadable) × IsTimely r

abbrev pub IsUnreported : TaskLifecycle → Type 0
IsUnreported s = s.state ≢ completed → (s.final_report ≡ null) × (s.report_final ≡ null)

apply-IsUnreported :
    (s : TaskLifecycle) (op : Op)
    → now_of op ≢ unreadable
    → IsUnreported s
    → IsUnreported (apply s op).0
unfolding apply
apply-IsUnreported s op p h = ground arith

pub Reach-IsUnreported :
    (task_id : String) (max_attempts : ℕ) {s : TaskLifecycle}
    (r : Reach (fresh task_id max_attempts) s)
    → IsTimely r
    → IsUnreported s
unfolding fresh IsTimely
Reach-IsUnreported task_id max_attempts here t = ground arith
Reach-IsUnreported task_id max_attempts (next {s = s} r op p) t =
    apply-IsUnreported s op t.0 (Reach-IsUnreported task_id max_attempts r t.1)

max_attempts-apply : (s : TaskLifecycle) (op : Op) → (apply s op).0.max_attempts ≡ s.max_attempts
unfolding apply
max_attempts-apply s op = ground arith

max_attempts-Reach :
    (o : TaskLifecycle) {s : TaskLifecycle} → Reach o s → s.max_attempts ≡ o.max_attempts
max_attempts-Reach o here = refl
max_attempts-Reach o (next {s = s} r op p) = max_attempts-apply s op ∙ max_attempts-Reach o r

starts-le : (a : LifecycleState) (attempt n : ℕ) → Accounts a attempt n → n ≤ attempt
starts-le a attempt n h = ground arith

-- Under the protocol a task is never started more often than its `max_attempts`.
pub starts-le-max_attempts :
    (task_id : String) (max_attempts : ℕ) {s : TaskLifecycle}
    → 1 ≤ max_attempts
    → Reach (fresh task_id max_attempts) s
    → starts s.history ≤ max_attempts
unfolding fresh
starts-le-max_attempts task_id max_attempts {s} h r =
    let v = Reach-IsSound task_id max_attempts h r in
    omega (
      arith,
      max_attempts-Reach _ r,
      starts-le s.state s.attempt (starts s.history) v.accounts,
      v.bounded,
    )
