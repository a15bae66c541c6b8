-- ===== src/Events/Diagnostics.antt =====
-- scripts/pd_fleet/event_diagnostics.py: the report on a log. `none` stands for an EventError or a
-- ValueError. Sequences are natural numbers, so the reason for those that are not integers does not
-- occur. The test for a task's identifier, a regular expression, is a parameter.
use project_development_skil.Base.{
  ℕ, zero, suc, ◌+◌, ◌-◌, String, Bool, true, false, ◌&&◌, ◌||◌, Option, none, some, List, [], ◌∷◌,
  ◌++◌, leb, ltb, ◌==◌, str_eq, if◌then◌else◌, is_nil, any, all, length,
}
use project_development_skil.Dict
use project_development_skil.Dict.{Dict}
use project_development_skil.Fallible.{◌>>=◌, ◌>>◌, require}
use project_development_skil.Value.{Value, Fields, string, get}
use project_development_skil.Lifecycle.{LifecycleState, value, of_value}
use project_development_skil.Readiness.{EventStatus, event_healthy, event_degraded, event_unknown}
use project_development_skil.Events.{FleetEvent, Json, EventLog, Lines, replay}

pub data Reason : Type 0 where
  malformed_transition inconsistent_transition sequence_gap : Reason
  duplicate_sequence non_monotonic_sequence : Reason

pub record Report : Type 0 where
  pub status : EventStatus
  pub event_count : ℕ
  pub transition_count : ℕ
  pub checkpoint_count : ℕ
  pub first_sequence : Option ℕ
  pub last_sequence : Option ℕ
  pub sequence_gaps : List ℕ
  pub task_states : Dict LifecycleState
  pub reasons : List Reason

abbrev rank : Reason → ℕ
rank malformed_transition = 0
rank inconsistent_transition = 1
rank sequence_gap = 2
rank duplicate_sequence = 3
rank non_monotonic_sequence = 4

-- _reason_add
unfoldable pub reason_add : List Reason → Reason → List Reason
reason_add reasons r = if any (λ q. rank q == rank r) reasons then reasons else reasons ++ r ∷ []

-- _state
unfoldable pub state_of : Option Value → Option LifecycleState
unfolding of_value
state_of (some (string s)) = of_value s
state_of _ = none

-- What the loop over the events keeps
pub record Tally : Type 0 where
  pub states : Dict LifecycleState
  pub reasons : List Reason
  pub transitions : ℕ
  pub checkpoints : ℕ

abbrev pub follows_on : Option LifecycleState → LifecycleState → Bool
follows_on none from = true
follows_on (some s) from = str_eq (value s) (value from)

unfoldable pub malformed : Tally → Tally
unfolding reason_add
malformed t = record t { reasons = reason_add t.reasons malformed_transition }

unfoldable pub projected : String → Option LifecycleState → Option LifecycleState → Tally → Tally
unfolding reason_add malformed
projected task (some from) (some to) t = record t {
  states = Dict.put task to t.states;
  reasons =
      if follows_on (Dict.get task t.states) from
      then t.reasons
      else reason_add t.reasons inconsistent_transition;
}
projected task _ _ t = malformed t

-- _transition
unfoldable pub project : Option String → Fields → Tally → Tally
unfolding state_of projected malformed
project none payload t = malformed t
project (some task) payload t =
    if is_nil task
    then malformed t
    else projected task (state_of (get "from" payload)) (state_of (get "to" payload)) t

-- One round of the loop, without the test of the epoch
unfoldable pub count_event : FleetEvent → Tally → Tally
unfolding project
count_event e t =
    if str_eq e.kind "lifecycle.transition"
    then project e.task_id e.payload (record t { transitions = t.transitions + 1 })
    else if str_eq e.kind "checkpoint.committed"
    then record t { checkpoints = t.checkpoints + 1 }
    else t

unfoldable pub count_events : Lines → Tally → Tally
unfolding count_event
count_events [] t = t
count_events (e ∷ es) t = count_events es (count_event e t)

-- The reasons that two sequences in a row give
unfoldable pub compare_pairs : List ℕ → List Reason → List Reason
unfolding reason_add
compare_pairs [] reasons = reasons
compare_pairs (a ∷ []) reasons = reasons
compare_pairs (a ∷ b ∷ rest) reasons = compare_pairs (b ∷ rest) (
    if b == a
    then reason_add reasons duplicate_sequence
    else if ltb b a
    then reason_add reasons non_monotonic_sequence
    else reasons)

abbrev pub has_anomaly : List ℕ → Bool
has_anomaly [] = false
has_anomaly (a ∷ []) = false
has_anomaly (a ∷ b ∷ rest) = leb b a || has_anomaly (b ∷ rest)

-- range(lower, lower + n)
abbrev pub range : ℕ → ℕ → List ℕ
range lower zero = []
range lower (suc n) = lower ∷ range (suc lower) n

-- Up to 32 numbers are kept.
unfoldable pub push : List ℕ → List ℕ → List ℕ
push missing [] = missing
push missing (v ∷ vs) =
    let rest = push (missing ++ v ∷ []) vs in if ltb (length missing) 32 then rest else missing

unfoldable pub between : List ℕ → ℕ → ℕ → List ℕ
unfolding push
between missing lower upper =
    if ltb (lower + 1) upper
    then push missing (range (lower + 1) (upper - (lower + 1)))
    else missing

unfoldable pub gaps : List ℕ → List ℕ → List ℕ
unfolding between
gaps missing [] = missing
gaps missing (a ∷ []) = missing
gaps missing (a ∷ b ∷ rest) =
    let more = gaps (between missing a b) (b ∷ rest) in
    if leb 32 (length (between missing a b)) then between missing a b else more

abbrev pub sequences : Lines → List ℕ
sequences [] = []
sequences (e ∷ es) = e.sequence ∷ sequences es

abbrev minimum : ℕ → List ℕ → ℕ
minimum n [] = n
minimum n (m ∷ ms) = minimum (if ltb m n then m else n) ms

abbrev maximum : ℕ → List ℕ → ℕ
maximum n [] = n
maximum n (m ∷ ms) = maximum (if ltb n m then m else n) ms

abbrev pub found_gaps : List ℕ → List ℕ
unfolding gaps
found_gaps seqs = if has_anomaly seqs then [] else gaps [] seqs

unfoldable pub with_gap : List ℕ → List Reason → List Reason
unfolding reason_add
with_gap [] reasons = reasons
with_gap (g ∷ gs) reasons = reason_add reasons sequence_gap

unfoldable pub all_reasons : List ℕ → List Reason → List Reason
unfolding compare_pairs gaps with_gap
all_reasons seqs reasons = with_gap (found_gaps seqs) (compare_pairs seqs reasons)

abbrev pub status_of : List Reason → EventStatus
status_of [] = event_healthy
status_of (r ∷ rs) = event_degraded

-- EventDiagnosticsReport.__post_init__, on what a log can give
unfoldable pub report_accepted : (String → Bool) → Report → Bool
report_accepted is_safe_id r =
    leb r.event_count 1000
    && (leb (length r.task_states) 256 && all (λ (k, s). is_safe_id k) r.task_states)

abbrev pub epoch_kept : Option ℕ → Option ℕ → Bool
epoch_kept none e = true
epoch_kept (some n) none = false
epoch_kept (some n) (some m) = n == m

abbrev pub fresh_tally : Tally
fresh_tally = record { states = []; reasons = []; transitions = 0; checkpoints = 0 }

-- The report on the events that were replayed
unfoldable pub report : FleetEvent → Lines → Report
unfolding count_events all_reasons gaps
report e es =
    let t = count_events (e ∷ es) fresh_tally in
    let reasons = all_reasons (sequences (e ∷ es)) t.reasons in
    record {
      status = status_of reasons;
      event_count = length (e ∷ es);
      transition_count = t.transitions;
      checkpoint_count = t.checkpoints;
      first_sequence = some (minimum e.sequence (sequences es));
      last_sequence = some (maximum e.sequence (sequences es));
      sequence_gaps = found_gaps (sequences (e ∷ es));
      task_states = t.states;
      reasons = reasons;
    }

abbrev pub empty_report : Report
empty_report = record {
  status = event_unknown;
  event_count = 0;
  transition_count = 0;
  checkpoint_count = 0;
  first_sequence = none;
  last_sequence = none;
  sequence_gaps = [];
  task_states = [];
  reasons = [];
}

unfoldable pub diagnose_events : (String → Bool) → EventLog → Lines → Option Report
unfolding report report_accepted
diagnose_events is_safe_id log [] = some empty_report
diagnose_events is_safe_id log (e ∷ es) = do
  require (all (λ (x : FleetEvent). epoch_kept log.owner_epoch x.owner_epoch) (e ∷ es))
  require (report_accepted is_safe_id (report e es))
  some (report e es)

abbrev active_fits : Option ℕ → Option ℕ → Bool
active_fits none e = true
active_fits (some n) none = false
active_fits (some n) (some m) = n == m

-- diagnose_event_log
unfoldable pub diagnose_event_log :
    (String → Bool) → Json → EventLog → Option ℕ → ℕ → Lines → Option Report
unfolding replay diagnose_events
diagnose_event_log is_safe_id json log active limit lines = do
  require (active_fits active log.owner_epoch)
  events ← replay json limit lines
  diagnose_events is_safe_id log events
