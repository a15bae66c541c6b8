-- ===== src/Gates/Human.antt =====
-- scripts/pd_fleet/gates.py, HumanVerificationGate: the record of a person's decision. Instants and
-- durations are whole seconds, an instant from the first one of `datetime`; how a timestamp is read is a parameter, since `datetime` is not
-- modelled, and so is the test for a SHA-256, a regular expression.
use project_development_skil.Base.{
  ℕ, String, Bool, true, false, not, ◌&&◌, ◌||◌, Option, none, some, List, [], ◌∷◌, leb, ltb, ◌==◌,
  str_eq, if◌then◌else◌, upper,
}
use project_development_skil.Store.Batch.{mem}
use project_development_skil.Fallible.{◌>>=◌, ◌>>◌, require}
use project_development_skil.Value.{
  Value, Fields, Items, null, number, string, arr, obj, end, field, nil, get,
}
use project_development_skil.Gates.{safe, safe_list, required_text}

pub data HumanDecision : Type 0 where
  approved rejected undecided : HumanDecision

-- _human_decision: the text of anything that is not a text is no decision.
unfoldable pub human_decision : Value → Option HumanDecision
unfolding upper
human_decision (string s) =
    if str_eq (upper s) "APPROVED"
    then some approved
    else if str_eq (upper s) "REJECTED"
    then some rejected
    else if str_eq (upper s) "PENDING"
    then some undecided
    else none
human_decision _ = none

pub record Env : Type 0 where
  pub read_instant : Value → Option ℕ
  pub is_sha256 : String → Bool

pub record HumanGate : Type 0 where
  pub owner : String
  pub identity : String
  pub decision : HumanDecision
  pub scope : Value
  pub run : String
  pub evidence_digest : String
  pub artifact_digest : String
  pub created_at : ℕ
  pub updated_at : ℕ
  pub freshness_window : ℕ
  pub blockers : Items

-- _digest
unfoldable pub digest : Env → Value → Option String
digest env (string s) = if env.is_sha256 s then some s else none
digest env _ = none

-- The freshness window: a positive number below the 10^9 days where `timedelta` overflows
abbrev window : Value → Option ℕ
window (number n) = if n == 0 then none else if ltb n 86400000000000 then some n else none
window _ = none

unfoldable pub scope_of : Value → Option Value
unfolding required_text safe
scope_of (string s) = do t ← required_text (string s); some (string t)
scope_of (arr vs) = safe (arr vs)
scope_of (obj fs) = safe (obj fs)
scope_of _ = none

-- value.get(name)
abbrev or_null : Option Value → Value
or_null none = null
or_null (some v) = v

abbrev or_nil : Option Value → Value
or_nil none = arr nil
or_nil (some v) = v

-- HumanVerificationGate.__post_init__, on the fields of a mapping and its run
unfoldable pub human_gate : Env → Fields → Value → Option HumanGate
unfolding required_text human_decision digest scope_of safe_list get
human_gate env fs given_run = do
  owner ← required_text (or_null (get "owner" fs))
  identity ← required_text (or_null (get "identity" fs))
  run ← required_text given_run
  decision ← human_decision (or_null (get "decision" fs))
  evidence_digest ← digest env (or_null (get "evidence_digest" fs))
  artifact_digest ← digest env (or_null (get "artifact_digest" fs))
  created_at ← env.read_instant (or_null (get "created_at" fs))
  updated_at ← env.read_instant (or_null (get "updated_at" fs))
  require (leb created_at updated_at)
  freshness_window ← window (or_null (get "freshness_window" fs))
  scope ← scope_of (or_null (get "scope" fs))
  blockers ← safe_list (or_nil (get "blockers" fs))
  some (record {
    owner = owner;
    identity = identity;
    decision = decision;
    scope = scope;
    run = run;
    evidence_digest = evidence_digest;
    artifact_digest = artifact_digest;
    created_at = created_at;
    updated_at = updated_at;
    freshness_window = freshness_window;
    blockers = blockers;
  })

abbrev gate_keys : List String
gate_keys =
    "owner" ∷ "identity" ∷ "decision" ∷ "scope" ∷ "run" ∷ "run_id" ∷ "evidence_digest"
    ∷ "artifact_digest" ∷ "created_at" ∷ "updated_at" ∷ "freshness_window" ∷ "blockers" ∷ []

unfoldable pub known_keys : Fields → Bool
known_keys end = true
known_keys (field k v fs) = mem k gate_keys && known_keys fs

-- `run` and `run_id` may both be given, as the same text.
abbrev runs_agree : Option Value → Option Value → Bool
runs_agree (some (string s)) (some (string t)) = str_eq s t
runs_agree (some v) (some w) = false
runs_agree _ _ = true

abbrev run_of : Option Value → Option Value → Value
run_of (some v) w = v
run_of none w = or_null w

-- HumanVerificationGate.from_dict
unfoldable pub human_from : Env → Bool → Value → Option HumanGate
unfolding known_keys human_gate get
human_from env reject_unknown (obj fs) = do
  require (not reject_unknown || known_keys fs)
  require (runs_agree (get "run" fs) (get "run_id" fs))
  human_gate env fs (run_of (get "run" fs) (get "run_id" fs))
human_from env reject_unknown _ = none
