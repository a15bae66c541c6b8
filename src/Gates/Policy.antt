-- ===== src/Gates/Policy.antt =====
-- scripts/pd_fleet/gates.py, GatePolicy: what each type of gate requires, and the verdict on a result.
use project_development_skil.Base.{
  ℕ, suc, String, Bool, true, false, not, ◌&&◌, Option, none, some, List, [], ◌∷◌, ◌==◌, str_eq,
  if◌then◌else◌, is_nil, is_some, lower,
}
use project_development_skil.Dict
use project_development_skil.Dict.{Dict}
use project_development_skil.Store.Batch.{mem}
use project_development_skil.Fallible.{◌>>=◌, ◌>>◌, require}
use project_development_skil.Value.{
  Value, Fields, Items, null, boolean, number, string, arr, obj, end, field, nil, cons, get,
}
use project_development_skil.Gates.{
  GateStatus, GateResult, pending, running, passed, blocked, gate_types, open_blocker, any_items,
  has_items, is_given,
}
use project_development_skil.Gates.Results.{fields, from_dict}

pub record GatePolicy : Type 0 where
  pub requirements : Dict (Dict Bool)
  pub default_requirements : Dict Bool

-- _REQUIREMENT_KEYS and _POLICY_KEYS
abbrev pub requirement_keys : List String
requirement_keys = "owner" ∷ "decision" ∷ "evidence" ∷ "reports" ∷ "no_blockers" ∷ []

abbrev policy_keys : List String
policy_keys = "requirements" ∷ "gates" ∷ "default_requirements" ∷ []

abbrev pub defaults : Dict Bool
defaults =
    ("owner", true)
    ∷ ("decision", true)
    ∷ ("evidence", true)
    ∷ ("reports", true)
    ∷ ("no_blockers", true)
    ∷ []

abbrev flag : Value → Option Bool
flag (boolean b) = some b
flag _ = none

-- The keys and flags of one requirement
unfoldable pub flags : Fields → Option (Dict Bool)
flags end = some []
flags (field k v fs) = do
  require (mem k requirement_keys)
  b ← flag v
  rest ← flags fs
  some ((k, b) ∷ rest)

abbrev mapping : Value → Option Fields
mapping (obj fs) = some fs
mapping _ = none

unfoldable pub kinds : Fields → Option (Dict (Dict Bool))
unfolding flags
kinds end = some []
kinds (field k v fs) = do
  require (mem k gate_types)
  given ← mapping v
  one ← flags given
  rest ← kinds fs
  some ((k, one) ∷ rest)

-- GatePolicy.__post_init__
unfoldable pub policy : Fields → Fields → Option GatePolicy
unfolding kinds flags
policy given given_defaults = do
  requirements ← kinds given
  default_requirements ← flags given_defaults
  some (record { requirements = requirements; default_requirements = default_requirements })

abbrev pub default_policy : GatePolicy
default_policy = record { requirements = []; default_requirements = defaults }

abbrev size : Fields → ℕ
size end = 0
size (field k v fs) = suc (size fs)

abbrev as_number : Bool → ℕ
as_number true = 1
as_number false = 0

abbrev found : Option Value → Value
found none = null
found (some v) = v

-- `a == b` of decoded JSON: a Boolean equals its number, and mappings have no order.
unfoldable mutual
  pub equal : Value → Value → Bool
  equal null null = true
  equal (boolean b) (boolean c) = as_number b == as_number c
  equal (boolean b) (number n) = as_number b == n
  equal (number n) (boolean b) = n == as_number b
  equal (number n) (number m) = n == m
  equal (string s) (string t) = str_eq s t
  equal (arr vs) (arr ws) = equal_items vs ws
  equal (obj fs) (obj gs) = size fs == size gs && equal_fields fs gs
  equal _ _ = false

  pub equal_items : Items → Items → Bool
  equal_items nil nil = true
  equal_items (cons v vs) (cons w ws) = equal v w && equal_items vs ws
  equal_items _ _ = false

  pub equal_fields : Fields → Fields → Bool
  equal_fields end gs = true
  equal_fields (field k v fs) gs =
      is_some (get k gs) && (equal v (found (get k gs)) && equal_fields fs gs)

unfoldable pub known_keys : Fields → Bool
known_keys end = true
known_keys (field k v fs) = mem k policy_keys && known_keys fs

-- A key of the policy that is absent, or holds a mapping.
abbrev optional : Option Value → Option (Option Fields)
unfolding fields
optional none = some none
optional (some v) = do fs ← fields v; some (some fs)

abbrev agree : Option Fields → Option Fields → Bool
unfolding equal
agree (some fs) (some gs) = equal (obj fs) (obj gs)
agree _ _ = true

abbrev first_given : Option Fields → Option Fields → Fields
first_given (some fs) gs = fs
first_given none (some gs) = gs
first_given none none = end

abbrev default_fields : Fields
default_fields = field "owner" (boolean true) (
    field "decision" (boolean true) (
      field "evidence" (boolean true)
        (field "reports" (boolean true) (field "no_blockers" (boolean true) end))))

abbrev or_defaults : Option Fields → Fields
or_defaults none = default_fields
or_defaults (some fs) = fs

-- GatePolicy.from_dict
unfoldable pub policy_from : Value → Option GatePolicy
unfolding known_keys fields equal policy get
policy_from null = some default_policy
policy_from (obj fs) = do
  require (known_keys fs)
  requirements ← optional (get "requirements" fs)
  gates ← optional (get "gates" fs)
  require (agree requirements gates)
  given ← optional (get "default_requirements" fs)
  policy (first_given requirements gates) (or_defaults given)
policy_from _ = none

-- req.update(other)
unfoldable pub update : Dict Bool → Dict Bool → Dict Bool
update req [] = req
update req ((k, b) ∷ rest) = update (Dict.put k b req) rest

abbrev or_empty : Option (Dict Bool) → Dict Bool
or_empty none = []
or_empty (some d) = d

unfoldable pub required : GatePolicy → GateResult → Dict Bool
unfolding update
required p g = update p.default_requirements (or_empty (Dict.get g.gate_type p.requirements))

abbrev or_true : Option Bool → Bool
or_true none = true
or_true (some b) = b

-- req.get(key, True)
unfoldable pub demands : String → Dict Bool → Bool
demands k req = or_true (Dict.get k req)

abbrev human_words : List String
human_words = "human" ∷ "human_required" ∷ "needs_approval" ∷ "pending" ∷ []

-- A decision that is left to a person
unfoldable pub awaits_human : Option String → Bool
unfolding lower
awaits_human none = false
awaits_human (some s) = not (is_nil s) && mem (lower s) human_words

-- The tests on a result that is passed
unfoldable pub judge : Dict Bool → GateResult → GateStatus
unfolding demands open_blocker
judge req g =
    if demands "owner" req && not (is_given g.owner)
    then blocked
    else if demands "decision" req && not (is_given g.decision)
    then pending
    else if demands "evidence" req && not (has_items g.evidence)
    then blocked
    else if demands "reports" req && not (has_items g.reports)
    then blocked
    else if demands "no_blockers" req && any_items open_blocker g.blockers
    then blocked
    else passed

-- GatePolicy.evaluate
unfoldable pub evaluate : GatePolicy → GateResult → GateStatus
unfolding awaits_human judge required
evaluate p g = elim g.status [
  | pending ↦ pending
  | running ↦ running
  | passed ↦ if awaits_human g.decision then pending else judge (required p g) g
  | other ↦ if awaits_human g.decision then pending else other
]

-- The same for a mapping
unfoldable pub evaluate_mapping : GatePolicy → Value → Option GateStatus
unfolding from_dict evaluate
evaluate_mapping p v = do g ← from_dict v; some (evaluate p g)
