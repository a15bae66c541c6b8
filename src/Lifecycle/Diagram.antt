-- ===== src/Lifecycle/Diagram.antt =====
-- What every method does to the state and the history: it stays, or follows one edge of
-- VALID_TRANSITIONS and records it.
use project_development_skil.Base.{
  String, Bool, true, false, Option, none, some, List, [], ◌∷◌, ◌++◌, ◌≡◌, refl, inl, inr,
  Bool-cases, Option-cases, ℤ, pos, negsuc, if◌then◌else◌, is_nil, not, ◌||◌, leb, is_blank,
}
use project_development_skil.Value.{has}
use project_development_skil.Lifecycle.{
  LifecycleState, TaskLifecycle, Move, Op, Now, omitted, unreadable, instant, allowed, of_value,
  move, transition, apply, started, start_from, start, finish, is_orphan, running, fail,
  recover_orphan, recovered, Call, beat,
}
use project_development_skil.Lifecycle.{
  ready, failed, completed, blocked, skipped, member, named, foreign, is_running, is_completed,
  is_failed, do_transition, do_mark_ready, do_start, do_beat, do_complete, do_fail, do_retry,
  do_block, do_skip, do_recover_orphan,
}

-- From a state and a history to the object that a call leaves.
pub data Step (before : LifecycleState) (history : List Move) (t : TaskLifecycle) : Type 0 where
  stay : t.state ≡ before → t.history ≡ history → Step before history t
  follow :
      (reason : Option String)
      → allowed before t.state ≡ true
      → t.history ≡ history ++ record { source = before; target = t.state; reason = reason } ∷ []
      → Step before history t

module _ (s : TaskLifecycle) where
  move-Step : (t : LifecycleState) (r : Option String) → Step s.state s.history (move s t r).0
  unfolding move
  move-Step t r = elim (Bool-cases (allowed s.state t)) [
    | inl h ↦ rw h (follow r h refl)
    | inr h ↦ rw h (stay refl refl)
  ]

started-Step :
    (a : LifecycleState) (h : List Move) (agent : String) (now : Now) (t : TaskLifecycle)
    → Step a h t
    → Step a h (started agent now t).0
unfolding started
started-Step a h agent omitted t (stay p q) = stay p q
started-Step a h agent unreadable t (stay p q) = stay p q
started-Step a h agent (instant n) t (stay p q) = stay p q
started-Step a h agent omitted t (follow r p q) = follow r p q
started-Step a h agent unreadable t (follow r p q) = follow r p q
started-Step a h agent (instant n) t (follow r p q) = follow r p q

finish-Step :
    (s : TaskLifecycle) (now : Now) (t : LifecycleState) (r : Option String)
    → Step s.state s.history (finish s now t r).0
unfolding finish
finish-Step s omitted t r = move-Step s t r
finish-Step s unreadable t r = stay refl refl
finish-Step s (instant n) t r = move-Step (record s { finished_at = some n }) t r

start_from-Step :
    (a : LifecycleState) (h : List Move) (agent : String) (now : Now)
    → (r : Call) → Step a h r.0
    → Step a h (start_from agent now r).0
unfolding start_from
start_from-Step a h agent now (t, none) st = started-Step a h agent now t st
start_from-Step a h agent now (t, some e) st = st

-- `if c then … else …` keeps what both branches keep.
Step-if :
    (a : LifecycleState) (h : List Move) (c : Bool) (x y : Call)
    → Step a h x.0
    → Step a h y.0
    → Step a h (if c then x else y).0
Step-if a h true x y p q = p
Step-if a h false x y p q = q

fail-Step :
    (s : TaskLifecycle) (error : String) (retryable : Bool) (now : Now)
    → Step s.state s.history (fail s error retryable now).0
unfolding fail
fail-Step s error retryable now =
    Step-if _ _ (is_running s.state) _ _ (finish-Step _ now failed (some error)) (stay refl refl)

recovered-Step :
    (a : LifecycleState) (h : List Move) (r : Call) → Step a h r.0 → Step a h (recovered r).0
recovered-Step a h (t, none) st = st
recovered-Step a h (t, some e) st = st

recover-Step :
    (s : TaskLifecycle) (now : Now) (timeout : ℤ)
    → Step s.state s.history (recover_orphan s now timeout).0
unfolding recover_orphan
recover-Step s now (negsuc n) = elim (Bool-cases (is_running s.state)) [
  | inl h ↦ rw h (stay refl refl)
  | inr h ↦ rw h (stay refl refl)
]
recover-Step s now (pos timeout) = elim (Bool-cases (is_running s.state)) [
  | inr h ↦ rw h (stay refl refl)
  | inl h ↦ elim (Option-cases (is_orphan s now timeout)) [
    | inl k ↦ rw (h, k) (stay refl refl)
    | inr (true, k) ↦ rw (h, k) (recovered-Step _ _ _ (fail-Step s "orphaned_run" true now))
    | inr (false, k) ↦ rw (h, k) (stay refl refl)
  ]
]

beat-Step : (s : TaskLifecycle) (now : Now) → Step s.state s.history (beat s now).0
unfolding beat
beat-Step s omitted = Step-if _ _ (is_running s.state) _ _ (stay refl refl) (stay refl refl)
beat-Step s unreadable = Step-if _ _ (is_running s.state) _ _ (stay refl refl) (stay refl refl)
beat-Step s (instant t) = Step-if _ _ (is_running s.state) _ _ (stay refl refl) (stay refl refl)

start-Step :
    (s : TaskLifecycle) (agent : String) (now : Now) → Step s.state s.history (start s agent now).0
unfolding start
start-Step s agent now =
    Step-if _ _ (is_nil agent) _ _ (stay refl refl)
      (start_from-Step _ _ agent now _ (move-Step s running none))

pub apply-Step : (s : TaskLifecycle) (op : Op) → Step s.state s.history (apply s op).0
unfolding apply
apply-Step s (do_transition (member t) reason) = move-Step s t reason
apply-Step s (do_transition (named t) reason) = elim (Option-cases (of_value t)) [
  | inl e ↦ rw (e, transition) (stay refl refl)
  | inr (m, e) ↦ rw (e, transition) (move-Step s m reason)
]
apply-Step s (do_transition foreign reason) = stay refl refl
apply-Step s do_mark_ready = move-Step s ready none
apply-Step s (do_start agent now) = start-Step s agent now
apply-Step s (do_beat now) = beat-Step s now
apply-Step s (do_complete outputs evidence now) =
    Step-if _ _ (is_completed s.state) _ _ (stay refl refl) (
      Step-if _ _ (not (is_running s.state)) _ _ (stay refl refl) (
        Step-if _ _ (not (has outputs) || not (has evidence)) _ _ (stay refl refl)
          (finish-Step _ now completed none)))
apply-Step s (do_fail error retryable now) = fail-Step s error retryable now
apply-Step s do_retry = Step-if _ _ (not (is_failed s.state)) _ _ (stay refl refl) (
    Step-if _ _ (leb s.max_attempts s.attempt) _ _ (stay refl refl) (
      Step-if _ _ (not s.retryable) _ _ (stay refl refl)
        (move-Step _ ready (some "explicit_retry"))))
apply-Step s (do_block reason) =
    Step-if _ _ (is_blank reason) _ _ (stay refl refl) (move-Step s blocked (some reason))
apply-Step s (do_skip reason) =
    Step-if _ _ (is_blank reason) _ _ (stay refl refl) (move-Step s skipped (some reason))
apply-Step s (do_recover_orphan now timeout) = recover-Step s now timeout
