-- ===== src/Events.antt =====
-- scripts/pd_fleet/events.py, EventLog: the append-only log of a run. `none` stands for an
-- EventError. A log is its list of lines, each a complete record of an event; sequences and epochs
-- are natural numbers. The JSON text of an event and the length of its line are parameters, since
-- they rest on `json` and `hashlib`; a line with a wrong checksum is not modelled. The file lock
-- makes calls follow one another.
pub mod Order
pub mod Overflow
pub mod Diagnostics
pub mod Continuity
use project_development_skil.Base.{
  ℕ, zero, suc, ◌+◌, ◌*◌, String, Bool, true, false, not, ◌&&◌, ◌||◌, Option, none, some, List, [],
  ◌∷◌, ◌++◌, leb, ltb, ◌==◌, str_eq, if◌then◌else◌, is_none, all, keep, length,
}
use project_development_skil.Fallible.{◌>>=◌, ◌>>◌, require}
use project_development_skil.Store.Batch.{take}
use project_development_skil.Scheduler.{str_leb}
use project_development_skil.Value.{Fields}

abbrev pub max_events : ℕ
max_events = 10_000

abbrev pub max_query : ℕ
max_query = 1000

abbrev pub max_log_bytes : ℕ
max_log_bytes = 4_194_304

-- MAX_PAYLOAD_BYTES + 1024
abbrev pub max_log_line_bytes : ℕ
max_log_line_bytes = 66_560

pub record FleetEvent : Type 0 where
  pub event_id : String
  pub run_id : String
  pub task_id : Option String
  pub kind : String
  pub ordering_key : String
  pub sequence : ℕ
  pub owner_epoch : Option ℕ
  pub payload : Fields
  pub created_at : String

-- `_canonical(event.to_dict())`, and the length of the line with its checksum
pub record Json : Type 0 where
  pub canonical : FleetEvent → String
  pub line_bytes : FleetEvent → ℕ

pub record EventLog : Type 0 where
  pub run_id : String
  pub owner_epoch : Option ℕ

abbrev pub Lines : Type 0
Lines = List FleetEvent

abbrev pub bytes : Json → Lines → ℕ
bytes json [] = 0
bytes json (e ∷ es) = json.line_bytes e + bytes json es

-- _records: too many bytes, a line that is too long, or too many lines
unfoldable pub records : Json → Lines → Option Lines
records json lines =
    if leb (bytes json lines) max_log_bytes
      && (all (λ e. leb (json.line_bytes e) max_log_line_bytes) lines
          && leb (length lines) max_events)
    then some lines
    else none

abbrev epochs_agree : Option ℕ → Option ℕ → Bool
epochs_agree none e = true
epochs_agree (some n) none = false
epochs_agree (some n) (some m) = n == m

-- The event is of the log's run, and of its epoch if the log has one.
unfoldable pub owns : EventLog → FleetEvent → Bool
owns log e = str_eq e.run_id log.run_id && epochs_agree log.owner_epoch e.owner_epoch

-- What the records say of a new event
pub data Found : Type 0 where
  fresh : Found
  repeated : FleetEvent → Found
  clash : Found

-- The loop over the records
unfoldable pub scan : Json → FleetEvent → Lines → Found
scan json e [] = fresh
scan json e (old ∷ rest) =
    let later = scan json e rest in
    if str_eq old.event_id e.event_id
    then if str_eq (json.canonical old) (json.canonical e) then repeated old else clash
    else if old.sequence == e.sequence
    then clash
    else later

-- `event.sequence > records[-1].sequence`, or no records
unfoldable pub follows : ℕ → Lines → Bool
follows n [] = true
follows n (e ∷ []) = ltb e.sequence n
follows n (e ∷ rest) = follows n rest

-- The writing of a line, for an event that is fresh
unfoldable pub write_line : Json → FleetEvent → Lines → Option FleetEvent × Lines
unfolding follows
write_line json e lines =
    if not (follows e.sequence lines)
    then (none, lines)
    else if leb max_events (length lines) || ltb max_log_line_bytes (json.line_bytes e)
    then (none, lines)
    else (some e, lines ++ e ∷ [])

unfoldable pub append_found : Json → FleetEvent → Lines → Found → Option FleetEvent × Lines
unfolding write_line
append_found json e lines fresh = write_line json e lines
append_found json e lines (repeated old) = (some old, lines)
append_found json e lines clash = (none, lines)

-- EventLog.append
unfoldable pub append : Json → EventLog → FleetEvent → Lines → Option FleetEvent × Lines
unfolding owns records scan append_found
append json log e lines = if not (owns log e) then (none, lines) else elim (records json lines) [
  | none ↦ (none, lines)
  | some read ↦ append_found json e lines (scan json e read)
]

unfoldable pub append_all : Json → EventLog → List FleetEvent → Lines → Lines
unfolding append
append_all json log [] lines = lines
append_all json log (e ∷ es) lines = append_all json log es (append json log e lines).1

-- _check_limit
abbrev pub limit_fits : ℕ → Bool
limit_fits limit = leb 1 limit && leb limit max_query

-- EventLog.replay
unfoldable pub replay : Json → ℕ → Lines → Option Lines
unfolding records
replay json limit lines = do
  require (limit_fits limit)
  read ← records json lines
  some (take limit read)

abbrev asks : Option String → Option String → Bool
asks none given = true
asks (some k) none = false
asks (some k) (some j) = str_eq j k

abbrev wanted : Option String → Option String → FleetEvent → Bool
wanted ordering_key task_id e = asks ordering_key (some e.ordering_key) && asks task_id e.task_id

-- `(a.ordering_key, a.sequence) <= (b.ordering_key, b.sequence)`
unfoldable pub event_leb : FleetEvent → FleetEvent → Bool
unfolding str_leb
event_leb a b =
    if str_eq a.ordering_key b.ordering_key
    then leb a.sequence b.sequence
    else str_leb a.ordering_key b.ordering_key

unfoldable pub insert : FleetEvent → Lines → Lines
unfolding event_leb
insert e [] = e ∷ []
insert e (x ∷ xs) = let rest = insert e xs in if event_leb e x then e ∷ x ∷ xs else x ∷ rest

unfoldable pub sort : Lines → Lines
unfolding insert
sort [] = []
sort (e ∷ es) = insert e (sort es)

-- EventLog.query, for keys that pass the checks of texts
unfoldable pub query : Json → Option String → Option String → ℕ → Lines → Option Lines
unfolding records sort
query json ordering_key task_id limit lines = do
  require (limit_fits limit)
  read ← records json lines
  some (take limit (sort (keep (wanted ordering_key task_id) read)))
