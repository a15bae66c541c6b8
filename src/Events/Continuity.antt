-- ===== src/Events/Continuity.antt =====
-- scripts/pd_fleet/event_diagnostics.py: what a healthy report says of the events.
use project_development_skil.Base.{
  ℕ, suc, ◌+◌, ◌-◌, String, Bool, true, false, not, ◌&&◌, Option, none, some, List, [], ◌∷◌, ◌++◌,
  ◌≡◌, ◌↔◌, refl, arith, ltb, ◌==◌, str_eq, is_nil, all, is_empty, if◌then◌else◌, Bool-cases, inl,
  inr, ◌∙◌,
}
use project_development_skil.Dict
use project_development_skil.Dict.{Dict}
use project_development_skil.Fallible.{◌>>◌, require}
use project_development_skil.Value.{Fields, get}
use project_development_skil.Lifecycle.{LifecycleState}
use project_development_skil.Gates.Honest.{bind-some}
use project_development_skil.Readiness.{event_healthy}
use project_development_skil.Events.{FleetEvent, EventLog, Lines}
use project_development_skil.Events.Diagnostics.{
  Reason, duplicate_sequence, non_monotonic_sequence, sequence_gap, inconsistent_transition,
  malformed_transition, range, Report, Tally, fresh_tally, reason_add, state_of, follows_on,
  project, projected, malformed, count_event, count_events, compare_pairs, has_anomaly, push,
  between, gaps, sequences, all_reasons, with_gap, found_gaps, epoch_kept, status_of, report,
  report_accepted, diagnose_events,
}

-- Each number is the next one after the number before it.
abbrev pub consecutive : List ℕ → Bool
consecutive [] = true
consecutive (a ∷ []) = true
consecutive (a ∷ b ∷ rest) = b == a + 1 && consecutive (b ∷ rest)

abbrev pub leads : Option LifecycleState → Option LifecycleState → Option LifecycleState → Bool
leads last (some from) (some to) = follows_on last from
leads last _ _ = false

abbrev pub moved : String → Option LifecycleState → Dict LifecycleState → Dict LifecycleState
moved task none states = states
moved task (some to) states = Dict.put task to states

-- A transition that is well formed and starts where the one before it ended
abbrev pub well_moved : Dict LifecycleState → Option String → Fields → Bool
unfolding state_of
well_moved states none payload = false
well_moved states (some task) payload =
    not (is_nil task)
    && leads (Dict.get task states) (state_of (get "from" payload)) (state_of (get "to" payload))

abbrev pub states_after : Dict LifecycleState → Option String → Fields → Dict LifecycleState
unfolding state_of
states_after states none payload = states
states_after states (some task) payload = moved task (state_of (get "to" payload)) states

-- Every transition among the events is well moved.
unfoldable pub chained : Dict LifecycleState → Lines → Bool
chained states [] = true
chained states (e ∷ es) =
    let next = chained (states_after states e.task_id e.payload) es in
    let same = chained states es in
    if str_eq e.kind "lifecycle.transition"
    then well_moved states e.task_id e.payload && next
    else same

reason_add-filled : (rs : List Reason) (r : Reason) → is_empty (reason_add rs r) ≡ false
unfolding reason_add
reason_add-filled [] r = ground arith
reason_add-filled (q ∷ qs) r = ground arith

compare_pairs-empty :
    (seqs : List ℕ) (rs : List Reason)
    → is_empty (compare_pairs seqs rs) ≡ (is_empty rs && not (has_anomaly seqs))
unfolding compare_pairs
compare_pairs-empty [] rs = ground arith
compare_pairs-empty (a ∷ []) rs = ground arith
compare_pairs-empty (a ∷ b ∷ rest) rs =
    let tail = compare_pairs-empty (b ∷ rest) in
    elim (Bool-cases (b == a)) [
      | inl same ↦ rw same (
          tail (reason_add rs duplicate_sequence)
          ∙ ground (arith, reason_add-filled rs duplicate_sequence))
      | inr other ↦ elim (Bool-cases (ltb b a)) [
        | inl back ↦
            rw (other, back)
              (tail (reason_add rs non_monotonic_sequence)
                ∙ ground (arith, reason_add-filled rs non_monotonic_sequence))
        | inr on ↦ rw (other, on) (tail rs ∙ ground arith)
      ]
    ]

append-filled : (m : List ℕ) (v : ℕ) → is_empty (m ++ v ∷ []) ≡ false
append-filled [] v = refl
append-filled (x ∷ m) v = refl

push-filled : (m vs : List ℕ) → is_empty m ≡ false → is_empty (push m vs) ≡ false
unfolding push
push-filled m [] h = h
push-filled m (v ∷ vs) h = ground (arith, push-filled (m ++ v ∷ []) vs, append-filled m v)

push-some : (a n : ℕ) → is_empty (push [] (range a (suc n))) ≡ false
unfolding push
push-some a n = push-filled (a ∷ []) (range (suc a) n) refl

between-empty : (a b : ℕ) → is_empty (between [] a b) ≡ not (ltb (a + 1) b)
unfolding between
between-empty a b = elim (Bool-cases (ltb (a + 1) b)) [
  | inr near ↦ rw near refl
  | inl far ↦
      (let e : b - (a + 1) ≡ suc (b - (a + 2)) = ground arith in
        rw (far, e) (push-some (a + 1) (b - (a + 2))))
]

between-filled : (m : List ℕ) (a b : ℕ) → is_empty m ≡ false → is_empty (between m a b) ≡ false
unfolding between
between-filled m a b h = elim (Bool-cases (ltb (a + 1) b)) [
  | inr near ↦ rw near h
  | inl far ↦ rw far (push-filled m (range (a + 1) (b - (a + 1))) h)
]

gaps-filled : (m seqs : List ℕ) → is_empty m ≡ false → is_empty (gaps m seqs) ≡ false
unfolding gaps
gaps-filled m [] h = h
gaps-filled m (a ∷ []) h = h
gaps-filled m (a ∷ b ∷ rest) h =
    ground (
      arith,
      between-filled m a b h,
      gaps-filled (between m a b) (b ∷ rest) (between-filled m a b h),
    )

nil-of-empty : (m : List ℕ) → is_empty m ≡ true → m ≡ []
nil-of-empty [] h = refl
nil-of-empty (x ∷ m) h = cc

-- A stream that goes up has no gap exactly when its numbers are consecutive.
gaps-empty : (seqs : List ℕ) → has_anomaly seqs ≡ false → is_empty (gaps [] seqs) ≡ consecutive seqs
unfolding gaps
gaps-empty [] h = refl
gaps-empty (a ∷ []) h = refl
gaps-empty (a ∷ b ∷ rest) h = elim (Bool-cases (ltb (a + 1) b)) [
  | inl far ↦
      (let f : is_empty (between [] a b) ≡ false = ground (arith, between-empty a b) in
        ground (arith, f, gaps-filled (between [] a b) (b ∷ rest) f))
  | inr near ↦
      (let e = nil-of-empty (between [] a b) (ground (arith, between-empty a b)) in
        rw (e, gaps) (ground (arith, gaps-empty (b ∷ rest))))
]

consecutive-has_anomaly : (seqs : List ℕ) → has_anomaly seqs ≡ true → consecutive seqs ≡ false
consecutive-has_anomaly [] h = cc
consecutive-has_anomaly (a ∷ []) h = cc
consecutive-has_anomaly (a ∷ b ∷ rest) h = ground (arith, consecutive-has_anomaly (b ∷ rest))

with_gap-empty :
    (gs : List ℕ) (rs : List Reason) → is_empty (with_gap gs rs) ≡ (is_empty gs && is_empty rs)
unfolding with_gap
with_gap-empty [] rs = refl
with_gap-empty (g ∷ gs) rs = reason_add-filled rs sequence_gap

all_reasons-empty :
    (seqs : List ℕ) (rs : List Reason)
    → is_empty (all_reasons seqs rs) ≡ (is_empty rs && consecutive seqs)
unfolding all_reasons
all_reasons-empty seqs rs =
    let g = with_gap-empty (found_gaps seqs) (compare_pairs seqs rs) in
    let c = compare_pairs-empty seqs rs in
    elim (Bool-cases (has_anomaly seqs)) [
      | inl bad ↦ ground (arith, g, c, consecutive-has_anomaly seqs bad)
      | inr good ↦ ground (arith, g, c, gaps-empty seqs good)
    ]

-- One transition, and the reasons and states after it
projected-cases :
    (task : String) (from to : Option LifecycleState) (t : Tally)
    → (is_empty (projected task from to t).reasons
        ≡ (is_empty t.reasons && leads (Dict.get task t.states) from to))
      × (leads (Dict.get task t.states) from to ≡ true
          → (projected task from to t).states ≡ moved task to t.states)
unfolding projected malformed
projected-cases task (some from) (some to) t =
    (ground (arith, reason_add-filled t.reasons inconsistent_transition), λ h. refl)
projected-cases task (some from) none t =
    (ground (arith, reason_add-filled t.reasons malformed_transition), λ h. cc)
projected-cases task none to t =
    (ground (arith, reason_add-filled t.reasons malformed_transition), λ h. cc)

project-cases :
    (task : Option String) (payload : Fields) (t : Tally)
    → (is_empty (project task payload t).reasons
        ≡ (is_empty t.reasons && well_moved t.states task payload))
      × (well_moved t.states task payload ≡ true
          → (project task payload t).states ≡ states_after t.states task payload)
unfolding project malformed
project-cases none payload t =
    (ground (arith, reason_add-filled t.reasons malformed_transition), λ h. cc)
project-cases (some task) payload t = elim (Bool-cases (is_nil task)) [
  | inl blank ↦ rw blank (ground (arith, reason_add-filled t.reasons malformed_transition), λ h. cc)
  | inr named ↦
      rw named
        (projected-cases task (state_of (get "from" payload)) (state_of (get "to" payload)) t)
]

count_event-cases :
    (e : FleetEvent) (t : Tally)
    → str_eq e.kind "lifecycle.transition" ≡ false
    → ((count_event e t).reasons ≡ t.reasons) × ((count_event e t).states ≡ t.states)
unfolding count_event
count_event-cases e t h = (ground arith, ground arith)

count_events-empty :
    (es : Lines) (t : Tally)
    → is_empty (count_events es t).reasons ≡ (is_empty t.reasons && chained t.states es)
unfolding count_events count_event chained
count_events-empty [] t = ground arith
count_events-empty (e ∷ es) t = elim (Bool-cases (str_eq e.kind "lifecycle.transition")) [
  | inl move ↦
      (let moving = record t { transitions = t.transitions + 1 } in
        let (reasons, states) = project-cases e.task_id e.payload moving in
        let later = count_events-empty es (project e.task_id e.payload moving) in
        rw move (elim (Bool-cases (well_moved t.states e.task_id e.payload)) [
          | inl good ↦ ground (arith, rw (states good) at later, reasons, good)
          | inr bad ↦ ground (arith, later, reasons, bad)
        ]))
  | inr other ↦
      (let (reasons, states) = count_event-cases e t other in
        rw (other, count_events-empty es (count_event e t), reasons, states) refl)
]

event_healthy-empty : (rs : List Reason) → (status_of rs ≡ event_healthy) ↔ (is_empty rs ≡ true)
event_healthy-empty [] = (λ h. refl, λ h. refl)
event_healthy-empty (r ∷ rs) = (λ h. cc, λ h. cc)

diagnosed :
    (is_safe_id : String → Bool) (log : EventLog) (e : FleetEvent) (es : Lines) {r : Report}
    → diagnose_events is_safe_id log (e ∷ es) ≡ some r
    → r ≡ report e es
unfolding diagnose_events
diagnosed is_safe_id log e es h =
    let kept =
      require (all (λ (x : FleetEvent). epoch_kept log.owner_epoch x.owner_epoch) (e ∷ es)) in
    let fits = require (report_accepted is_safe_id (report e es)) in
    let (u, a, f) = bind-some kept (λ _. fits >> some (report e es)) h in
    let (v, b, g) = bind-some fits (λ _. some (report e es)) f in cc

-- A report on events is healthy exactly when their sequences follow one another without a gap and
-- every transition among them is well formed and starts in the state where the last transition of
-- its task ended.
pub diagnose-event_healthy_iff :
    (is_safe_id : String → Bool) (log : EventLog) (e : FleetEvent) (es : Lines) {r : Report}
    → diagnose_events is_safe_id log (e ∷ es) ≡ some r
    → (r.status ≡ event_healthy)
      ↔ ((consecutive (sequences (e ∷ es)) ≡ true) × (chained [] (e ∷ es) ≡ true))
unfolding report
diagnose-event_healthy_iff is_safe_id log e es {r} h =
    let t = count_events (e ∷ es) fresh_tally in
    let a = all_reasons-empty (sequences (e ∷ es)) t.reasons in
    let c = count_events-empty (e ∷ es) fresh_tally in
    let s = event_healthy-empty (all_reasons (sequences (e ∷ es)) t.reasons) in
    rw (diagnosed is_safe_id log e es h, report)
      (
        (λ g. let f = s.0 g in (ground (arith, f, a, c), ground (arith, f, a, c))),
        λ (n, m). s.1 (ground (arith, a, c, n, m)),
      )
