-- ===== src/Store/State.antt =====
-- scripts/pd_fleet/run_store.py: the snapshot of a run, and what `_validate` demands of it. An
-- instant is a count of microseconds: the store's own clock writes instants in one fixed-width
-- form, whose order as text is the order in time. The fields that no operation reads (waves,
-- checkpoints, gates, metrics, audit, the schema version, the plan's hash and the checksum) are
-- left out.
use Prim.Native.Char.{code}
use project_development_skil.Base.{
  ℕ, String, Bool, true, false, ◌&&◌, ◌||◌, Option, none, some, List, [], ◌∷◌, leb, ◌==◌, str_eq,
  if◌then◌else◌, any,
}
use project_development_skil.Value.{Value, Fields, string, end, field, get, present, has_field}
use project_development_skil.Dict.{Dict}

-- The texts that stand as a status; `unlisted` is any other text.
pub data Status : Type 0 where
  created running completed failed cancelled blocked pending ready orphaned skipped unlisted :
      Status

-- _STATUSES
abbrev pub is_run_status : Status → Bool
is_run_status created = true
is_run_status running = true
is_run_status completed = true
is_run_status failed = true
is_run_status cancelled = true
is_run_status blocked = true
is_run_status _ = false

-- _TASK_STATUSES
abbrev pub is_task_status : Status → Bool
is_task_status unlisted = false
is_task_status _ = true

-- _TERMINAL_TASK_STATUSES
abbrev pub is_terminal_task : Status → Bool
is_terminal_task completed = true
is_terminal_task failed = true
is_terminal_task blocked = true
is_terminal_task cancelled = true
is_terminal_task orphaned = true
is_terminal_task skipped = true
is_terminal_task _ = false

-- _TERMINAL_RUN_STATUSES
abbrev pub is_terminal_run : Status → Bool
is_terminal_run completed = true
is_terminal_run failed = true
is_terminal_run cancelled = true
is_terminal_run _ = false

-- _REPORT_STATUSES
abbrev pub is_report_status : Status → Bool
is_report_status completed = true
is_report_status failed = true
is_report_status blocked = true
is_report_status _ = false

abbrev pub is_completed : Status → Bool
is_completed completed = true
is_completed _ = false

pub Status-discrete : Discrete Status
Status-discrete = hlevel

unfoldable pub status_name : Status → String
status_name created = "created"
status_name running = "running"
status_name completed = "completed"
status_name failed = "failed"
status_name cancelled = "cancelled"
status_name blocked = "blocked"
status_name pending = "pending"
status_name ready = "ready"
status_name orphaned = "orphaned"
status_name skipped = "skipped"
status_name unlisted = ""

-- _ID, fully matched: a letter or digit, then letters, digits, `_`, `.` and `-`.
is_alnum : ℕ → Bool
is_alnum c = (leb b'0' c && leb c b'9') || (leb b'A' c && leb c b'Z') || (leb b'a' c && leb c b'z')

all_id_chars : String → Bool
unfolding is_alnum
all_id_chars String.[] = true
all_id_chars (String.◌∷◌ c s) =
    (is_alnum (code c) || code c == b'_' || code c == b'.' || code c == b'-') && all_id_chars s

unfoldable pub is_id : String → Bool
unfolding is_alnum all_id_chars
is_id String.[] = false
is_id (String.◌∷◌ c s) = is_alnum (code c) && all_id_chars s

pub record PlanTask : Type 0 where
  pub id : String
  pub depends_on : List String
  pub wave : ℕ
  pub owned_paths : List String
  pub status : Status

pub record Lease : Type 0 where
  pub owner : String
  pub lease_id : String
  pub expires_at : ℕ
  pub generation : ℕ

pub record Token : Type 0 where
  pub run_id : String
  pub task_id : String
  pub lease_id : String
  pub generation : ℕ
  pub expires_at : ℕ

pub record ReportRecord : Type 0 where
  pub status : Status
  pub report : Fields
  pub digest : String
  pub attempt : ℕ
  pub lease_id : String
  pub lease_generation : ℕ

-- The other items of the event's mapping are its payload.
pub record Event : Type 0 where
  pub event_id : String
  pub ordering_key : String
  pub sequence : ℕ
  pub payload : Fields

pub record Snapshot : Type 0 where
  pub run_id : String
  pub plan : List PlanTask
  pub generation : ℕ
  pub owner : String
  pub status : Status
  pub tasks : Dict Status
  pub leases : Dict Lease
  pub attempts : Dict ℕ
  pub reports : Dict ReportRecord
  pub events : List Event
  pub event_sequence : ℕ
  pub updated_at : ℕ

-- What the store takes from Python's library: the two searches of the `re` module behind
-- `_redact`, whether `datetime` reads a value as an instant in UTC, and the SHA-256 digest of a
-- mapping's canonical JSON.
pub record Env : Type 0 where
  pub sensitive : String → Bool
  pub scrub : String → String
  pub is_instant : Value → Bool
  pub digest : Fields → String

-- _REPORT_FIELDS
abbrev report_fields : List String
report_fields =
    "status" ∷ "outputs" ∷ "evidence" ∷ "tests" ∷ "validation" ∷ "decision" ∷ "started_at"
    ∷ "completed_at" ∷ "reason" ∷ "error" ∷ "blocker" ∷ []

only_report_fields : Fields → Bool
only_report_fields end = true
only_report_fields (field k v fs) = any (str_eq k) report_fields && only_report_fields fs

abbrev pub is_string : Option Value → String → Bool
is_string (some (string s)) t = str_eq s t
is_string _ t = false

-- `key not in report`, or its value is an instant
abbrev instant_if_given : Env → Option Value → Bool
instant_if_given env none = true
instant_if_given env (some v) = env.is_instant v

-- _valid_report; `not in (None, "", [], {})` is `has`
unfoldable pub valid_report : Env → Fields → Status → Bool
unfolding only_report_fields
valid_report env f status =
    only_report_fields f
    && (is_string (get "status" f) (status_name status)
        && (instant_if_given env (get "started_at" f)
            && (instant_if_given env (get "completed_at" f)
                && (if is_completed status
                    then has_field "outputs" f
                      && (has_field "evidence" f
                          && ((has_field "tests" f || has_field "validation" f)
                              && (has_field "decision" f
                                  && (present "started_at" f && present "completed_at" f))))
                    else has_field "reason" f || has_field "error" f || has_field "blocker" f))))
