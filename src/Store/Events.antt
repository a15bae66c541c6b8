-- ===== src/Store/Events.antt =====
-- scripts/pd_fleet/run_store.py: `append_event`, `append_terminal_event_if_absent`, and the order
-- in which `query` gives the events.
use project_development_skil.Base.{
  ℕ, ◌+◌, String, Bool, not, ◌&&◌, ◌||◌, Option, none, some, List, [], ◌∷◌, ◌++◌, str_eq,
  if◌then◌else◌, any, keep, is_empty, is_nil,
}
use project_development_skil.Value.{Value, Fields, null, string, end, field, get}
use project_development_skil.Dict
use project_development_skil.Store.State.{
  Status, ReportRecord, Event, Snapshot, Env, is_id, is_string, is_report_status, status_name,
}
use project_development_skil.Store.Redact.{redact_fields}
use project_development_skil.Store.Disk.{
  Result, ok, err, run_store_error, path_containment, Disk, ◌>>=◌, opened, save, stamped, mutate,
}

unfoldable pub appended : Event → Snapshot → Snapshot
appended e s = record s { events = s.events ++ e ∷ []; event_sequence = s.event_sequence + 1 }

-- item.get("ordering_key", item.get("event_id"))
abbrev or_else : Option Value → Option Value → Value
or_else (some v) w = v
or_else none (some w) = w
or_else none none = null

-- The items that the derived key is a digest of.
unkeyed : Fields → Fields
unkeyed end = end
unkeyed (field k v fs) =
    let rest = unkeyed fs in
    if str_eq k "sequence" || str_eq k "event_id" || str_eq k "ordering_key"
    then rest
    else field k v rest

-- A text that is not empty, or an error
nonempty : Value → Result String
nonempty (string s) = if is_nil s then err run_store_error else ok s
nonempty _ = err run_store_error

abbrev given_id : Option Value → Result (Option String)
unfolding nonempty
given_id none = ok none
given_id (some v) = do s ← nonempty v; ok (some s)

abbrev supplied_key : Env → Fields → Value → Result String
unfolding nonempty unkeyed
supplied_key env item null = ok (env.digest (unkeyed item))
supplied_key env item v = nonempty v

abbrev id_or : Option String → String → String
id_or none key = key
id_or (some s) key = s

-- The event that `append_event` makes of a redacted mapping, with its place in the sequence.
unfoldable pub event_of : Env → Fields → ℕ → Result Event
unfolding get nonempty unkeyed
event_of env item n = do
  event_id ← given_id (get "event_id" item)
  key ← supplied_key env item (or_else (get "ordering_key" item) (get "event_id" item))
  ok (record { event_id = id_or event_id key; ordering_key = key; sequence = n; payload = item })

-- The callback of `append_event`.
unfoldable pub append_step : Env → Fields → Snapshot → Result Snapshot
unfolding event_of appended
append_step env item s = do e ← event_of env item (s.event_sequence + 1); ok (appended e s)

unfoldable pub append_event : Env → Disk → Fields → String → Option ℕ → ℕ → Result Snapshot × Disk
unfolding redact_fields append_step mutate
append_event env d event owner expected stamp =
    mutate env d owner expected stamp (append_step env (redact_fields env event))

-- The events that a task's terminal event would repeat.
canonical : String → List Event → List Event
canonical task_id = keep (λ (e : Event). str_eq e.event_id task_id && str_eq e.ordering_key task_id)

tells : String → Status → Event → Bool
unfolding get status_name
tells task_id status e =
    is_string (get "task_id" e.payload) task_id
    && is_string (get "status" e.payload) (status_name status)

unfoldable pub terminal_event : String → Status → ℕ → Event
unfolding status_name
terminal_event task_id status n = record {
  event_id = task_id;
  ordering_key = task_id;
  sequence = n;
  payload = field "task_id" (string task_id) (field "status" (string (status_name status)) end);
}

-- Whether an event was appended.
pub data Appended : Type 0 where
  already fresh : Snapshot → Appended

abbrev report_status : Option ReportRecord → Result Status
report_status none = err run_store_error
report_status (some r) = if is_report_status r.status then ok r.status else err run_store_error

unfoldable pub terminal_step : String → Snapshot → Result Appended
unfolding canonical tells terminal_event appended
terminal_step task_id s = do
  status ← report_status (Dict.get task_id s.reports)
  if is_empty (canonical task_id s.events)
      then ok (fresh (appended (terminal_event task_id status (s.event_sequence + 1)) s))
      else if any (tells task_id status) (canonical task_id s.events)
      then ok (already s)
      else err run_store_error

unfoldable pub save_event : Env → Disk → ℕ → Result Appended → Result Appended × Disk
unfolding save stamped
save_event env d stamp (ok (fresh s)) =
    (ok (fresh (stamped stamp s)), (save env d (ok (stamped stamp s))).1)
save_event env d stamp (ok (already s)) = (ok (already s), d)
save_event env d stamp (err e) = (err e, d)

unfoldable pub append_terminal_event_if_absent :
    Env → Disk → String → String → Option ℕ → ℕ → Result Appended × Disk
unfolding opened terminal_step save_event
append_terminal_event_if_absent env d task_id owner expected stamp =
    if not (is_id task_id)
    then (err path_containment, d)
    else save_event env d stamp (do s ← opened env d owner expected; terminal_step task_id s)
