-- ===== src/Gates.antt =====
-- scripts/pd_fleet/gates.py: the results of gates, their transitions, and the data they accept.
-- `none` stands for a GateError. The payloads are decoded JSON, so there are no cycles, no keys but
-- texts and no numbers that are not finite, and `_plain_json` and `_frozen_policy` do what `_safe`
-- does.
pub mod Results
pub mod Policy
pub mod Human
pub mod Scope
pub mod Honest
pub mod Roundtrip
pub mod Verdict
pub mod Approval
use project_development_skil.Base.{
  String, Bool, true, false, not, ◌&&◌, ◌||◌, Option, none, some, List, [], ◌∷◌, str_eq,
  if◌then◌else◌, is_nil, is_blank, strip, casefold,
}
use project_development_skil.Store.Batch.{mem}
use project_development_skil.Value.{
  Value, Fields, Items, null, boolean, number, string, arr, obj, end, field, nil, cons, get,
}

pub data GateStatus : Type 0 where
  pending running passed failed blocked : GateStatus

-- GateType, by its values
abbrev pub gate_types : List String
gate_types = "review" ∷ "grill" ∷ "smoke_test" ∷ "evidence" ∷ []

abbrev pub value : GateStatus → String
value pending = "pending"
value running = "running"
value passed = "passed"
value failed = "failed"
value blocked = "blocked"

unfoldable pub of_value : String → Option GateStatus
of_value s =
    if str_eq s "pending"
    then some pending
    else if str_eq s "running"
    then some running
    else if str_eq s "passed"
    then some passed
    else if str_eq s "failed"
    then some failed
    else if str_eq s "blocked"
    then some blocked
    else none

-- _VALID_TRANSITIONS
abbrev pub allowed : GateStatus → GateStatus → Bool
allowed pending running = true
allowed pending blocked = true
allowed running passed = true
allowed running failed = true
allowed running blocked = true
allowed failed running = true
allowed blocked running = true
allowed _ _ = false

abbrev pub items_of : Option Value → Option Items → Option Items
items_of (some v) (some vs) = some (cons v vs)
items_of _ _ = none

abbrev pub fields_of : String → Option Value → Option Fields → Option Fields
fields_of k (some v) (some fs) = if is_nil k then none else some (field k v fs)
fields_of k _ _ = none

abbrev pub in_arr : Option Items → Option Value
in_arr none = none
in_arr (some vs) = some (arr vs)

abbrev pub in_obj : Option Fields → Option Value
in_obj none = none
in_obj (some fs) = some (obj fs)

-- _safe
unfoldable mutual
  pub safe : Value → Option Value
  safe null = some null
  safe (boolean b) = some (boolean b)
  safe (number n) = some (number n)
  safe (string s) = some (string s)
  safe (arr vs) = in_arr (safe_items vs)
  safe (obj fs) = in_obj (safe_fields fs)

  pub safe_items : Items → Option Items
  safe_items nil = some nil
  safe_items (cons v vs) = items_of (safe v) (safe_items vs)

  pub safe_fields : Fields → Option Fields
  safe_fields end = some end
  safe_fields (field k v fs) = fields_of k (safe v) (safe_fields fs)

-- _text, of a text that is required, and of one that is not
unfoldable pub required_text : Value → Option String
unfolding is_blank strip
required_text (string s) = if is_blank s then none else some (strip s)
required_text _ = none

unfoldable pub optional_text : Value → Option (Option String)
unfolding strip
optional_text null = some none
optional_text (string s) = some (some (strip s))
optional_text _ = none

-- _status
unfoldable pub status_of : Value → Option GateStatus
unfolding of_value
status_of (string s) = of_value s
status_of _ = none

-- _items
abbrev pub items : Value → Option Items
items null = some nil
items (arr vs) = some vs
items _ = none

-- _safe(_items(value, name))
unfoldable pub safe_list : Value → Option Items
unfolding safe_items
safe_list v = elim (items v) [ none ↦ none | some vs ↦ safe_items vs ]

abbrev is_filled : Option Value → Bool
is_filled (some (string s)) = not (is_blank s)
is_filled _ = false

-- One item of a list of references.
unfoldable pub is_reference : Value → Bool
unfolding get is_blank
is_reference (string s) = not (is_blank s)
is_reference (obj fs) =
    is_filled (get "ref" fs)
    || (is_filled (get "id" fs) || (is_filled (get "path" fs) || is_filled (get "name" fs)))
is_reference _ = false

abbrev pub all_items : (Value → Bool) → Items → Bool
all_items p nil = true
all_items p (cons v vs) = p v && all_items p vs

abbrev pub any_items : (Value → Bool) → Items → Bool
any_items p nil = false
any_items p (cons v vs) = p v || any_items p vs

-- _references
unfoldable pub references : Value → Option Items
unfolding safe_list is_reference
references v = elim (safe_list v) [
  | none ↦ none
  | some vs ↦ if all_items is_reference vs then some vs else none
]

abbrev known_severities : List String
known_severities = "blocker" ∷ "critical" ∷ "high" ∷ "medium" ∷ "low" ∷ "info" ∷ []

abbrev closed_statuses : List String
closed_statuses = "closed" ∷ "resolved" ∷ "done" ∷ "passed" ∷ []

abbrev open_statuses : List String
open_statuses = "open" ∷ "pending" ∷ "active" ∷ "in_progress" ∷ "in-progress" ∷ "unresolved" ∷ []

abbrev grave_severities : List String
grave_severities = "blocker" ∷ "critical" ∷ "high" ∷ []

-- A blocker by its severity and its status, normalised
unfoldable pub is_open : String → String → Bool
is_open severity status =
    if not (mem severity known_severities)
      || not (mem status open_statuses || mem status closed_statuses)
    then true
    else not (mem status closed_statuses) && mem severity grave_severities

abbrev pub or_else : Option Value → Option Value → Option Value
or_else none w = w
or_else (some v) w = some v

abbrev open_texts : Option Value → Option Value → Bool
unfolding is_open casefold strip
open_texts (some (string severity)) (some (string status)) =
    is_open (casefold (strip severity)) (casefold (strip status))
open_texts _ _ = true

-- _open_blocker
unfoldable pub open_blocker : Value → Bool
unfolding get is_open casefold strip
open_blocker (obj fs) = open_texts (or_else (get "severity" fs) (get "level" fs)) (get "status" fs)
open_blocker _ = true

pub record GateResult : Type 0 where
  pub gate_id : String
  pub gate_type : String
  pub status : GateStatus
  pub owner : Option String
  pub decision : Option String
  pub blockers : Items
  pub evidence : Items
  pub reports : Items
  pub details : Fields

-- `bool(x)`
abbrev pub is_given : Option String → Bool
is_given none = false
is_given (some s) = not (is_nil s)

abbrev pub has_items : Items → Bool
has_items nil = false
has_items (cons v vs) = true

-- _passes_gate_contract
unfoldable pub passes_gate_contract : GateResult → Bool
unfolding open_blocker
passes_gate_contract g =
    (is_given g.owner && (is_given g.decision && (has_items g.evidence && has_items g.reports)))
    && not (any_items open_blocker g.blockers)

abbrev pub is_passed : GateStatus → Bool
is_passed passed = true
is_passed _ = false
