-- ===== src/Examples/Logs.antt =====
-- The event log of scripts/pd_fleet/events.py at concrete inputs.
use Prim.Native.String.{◌++◌ as join}
use project_development_skil.Base.{
  ℕ, zero, suc, String, true, none, some, [], ◌∷◌, ◌++◌, ◌≡◌, ◌↔◌, refl, arith,
}
use project_development_skil.Dict
use project_development_skil.Lifecycle.{running, value, of_value}
use project_development_skil.Readiness.{event_healthy}
use project_development_skil.Value.{end, field, string, get}
use project_development_skil.Events.Diagnostics.{
  Report, diagnose_events, report, report_accepted, count_events, count_event, project, projected,
  state_of, all_reasons, with_gap, compare_pairs, gaps, between, sequences,
}
use project_development_skil.Events.Continuity.{consecutive, chained, diagnose-event_healthy_iff}
use project_development_skil.Events.{
  FleetEvent, Json, EventLog, Lines, records, owns, scan, follows, write_line, append_found, append,
  append_all, replay,
}
use project_development_skil.Events.Order.{IsSound, appends-IsSound}
use project_development_skil.Events.Overflow.{append_overflow}

-- Every line as long as it may be.
abbrev pub json : Json
json = record { canonical = λ e. e.event_id; line_bytes = λ e. 66_560 }

abbrev log : EventLog
log = record { run_id = "r"; owner_epoch = none }

abbrev pub event : String → ℕ → FleetEvent
event id n = record {
  event_id = id;
  run_id = "r";
  task_id = none;
  kind = "note";
  ordering_key = "k";
  sequence = n;
  owner_epoch = none;
  payload = end;
  created_at = "";
}

abbrev tally : ℕ → String
tally zero = ""
tally (suc n) = join "i" (tally n)

abbrev many : ℕ → Lines
many zero = []
many (suc n) = many n ++ event (tally n) n ∷ []

two-logged :
    append_all json log (event "a" 1 ∷ event "b" 2 ∷ event "c" 2 ∷ []) []
    ≡ event "a" 1 ∷ event "b" 2 ∷ []
unfolding append_all append records owns scan append_found write_line follows
two-logged = refl

appends-IsSound_example :
    IsSound json log (append_all json log (event "a" 1 ∷ event "b" 2 ∷ event "c" 2 ∷ []) [])
appends-IsSound_example = appends-IsSound json log (event "a" 1 ∷ event "b" 2 ∷ event "c" 2 ∷ [])

many-appended :
    append json log (event "last" 63) (many 63)
    ≡ (some (event "last" 63), many 63 ++ event "last" 63 ∷ [])
unfolding append records owns scan append_found write_line follows
many-appended = refl

append_overflow_example :
    (append_all json log (event "x" 99 ∷ []) (many 63 ++ event "last" 63 ∷ [])
      ≡ many 63 ++ event "last" 63 ∷ [])
    × ((append json log (event "y" 99) (many 63 ++ event "last" 63 ∷ [])).0 ≡ none)
    × (replay json 5 (many 63 ++ event "last" 63 ∷ []) ≡ none)
append_overflow_example =
    append_overflow json log (event "last" 63) (many 63) many-appended (omega arith)
      (event "x" 99 ∷ []) (event "y" 99) 5

-- A task goes from pending to ready, and on to running.
abbrev task_event : ℕ → String → String → FleetEvent
task_event n from to = record (event (tally n) n) {
  kind = "lifecycle.transition";
  task_id = some "t1";
  payload = field "from" (string from) (field "to" (string to) end);
}

abbrev moves : Lines
moves = task_event 2 "ready" "running" ∷ []

abbrev moves_report : Report
moves_report = record {
  status = event_healthy;
  event_count = 2;
  transition_count = 2;
  checkpoint_count = 0;
  first_sequence = some 1;
  last_sequence = some 2;
  sequence_gaps = [];
  task_states = ("t1", running) ∷ [];
  reasons = [];
}

moves-diagnosed :
    diagnose_events (λ k. true) log (task_event 1 "pending" "ready" ∷ moves) ≡ some moves_report
unfolding diagnose_events report report_accepted count_events count_event project projected state_of
    of_value value all_reasons with_gap compare_pairs gaps between get Dict.get Dict.put
moves-diagnosed = refl

diagnose-event_healthy_iff_example : (moves_report.status ≡ event_healthy) ↔ (
    (consecutive (sequences (task_event 1 "pending" "ready" ∷ moves)) ≡ true)
    × (chained [] (task_event 1 "pending" "ready" ∷ moves) ≡ true))
diagnose-event_healthy_iff_example =
    diagnose-event_healthy_iff (λ k. true) log (task_event 1 "pending" "ready") moves
      moves-diagnosed
