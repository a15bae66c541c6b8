-- ===== src/Gates/Results.antt =====
-- scripts/pd_fleet/gates.py, GateResult: the construction, the transitions and the mapping that is
-- written. A transition gives the gate as the call leaves it, with whether the call raises.
use project_development_skil.Base.{
  String, Bool, true, false, not, ◌&&◌, ◌||◌, Option, none, some, str_eq, if◌then◌else◌,
}
use project_development_skil.Store.Batch.{mem}
use project_development_skil.Fallible.{◌>>=◌, ◌>>◌, require}
use project_development_skil.Value.{Value, Fields, null, string, arr, obj, end, field, nil, get}
use project_development_skil.Gates.{
  GateStatus, GateResult, passed, failed, gate_types, value, allowed, safe_list, references,
  safe_fields, required_text, optional_text, status_of, or_else, passes_gate_contract, is_passed,
  is_given,
}

unfoldable pub fields : Value → Option Fields
unfolding safe_fields
fields (obj fs) = safe_fields fs
fields _ = none

-- The fields of a result as they are given
pub record Given : Type 0 where
  pub gate_id : Value
  pub gate_type : Value
  pub status : Value
  pub owner : Value
  pub decision : Value
  pub blockers : Value
  pub evidence : Value
  pub reports : Value
  pub details : Value

-- GateResult.__post_init__: the fields it normalises
unfoldable pub normalised : Given → Option GateResult
unfolding required_text optional_text status_of safe_list references fields
normalised v = do
  gate_id ← required_text v.gate_id
  gate_type ← required_text v.gate_type
  require (mem gate_type gate_types)
  status ← status_of v.status
  owner ← optional_text v.owner
  decision ← optional_text v.decision
  blockers ← safe_list v.blockers
  evidence ← references v.evidence
  reports ← references v.reports
  details ← fields v.details
  some (record {
    gate_id = gate_id;
    gate_type = gate_type;
    status = status;
    owner = owner;
    decision = decision;
    blockers = blockers;
    evidence = evidence;
    reports = reports;
    details = details;
  })

-- Its last test: a result that is passed has what that takes.
unfoldable pub honest : GateResult → Bool
unfolding passes_gate_contract
honest g = not (is_passed g.status) || passes_gate_contract g

unfoldable pub gate_result : Given → Option GateResult
unfolding normalised honest
gate_result v = do g ← normalised v; require (honest g); some g

-- value.get(name, default)
abbrev pub or_value : Option Value → Value → Value
or_value none v = v
or_value (some w) v = w

abbrev pub given : Fields → Given
unfolding get
given fs = record {
  gate_id = or_value (or_else (get "gate_id" fs) (get "id" fs)) null;
  gate_type =
      or_value (or_else (get "gate_type" fs) (or_else (get "kind" fs) (get "type" fs))) null;
  status = or_value (get "status" fs) (string "pending");
  owner = or_value (get "owner" fs) null;
  decision = or_value (get "decision" fs) null;
  blockers = or_value (get "blockers" fs) (arr nil);
  evidence = or_value (or_else (get "evidence" fs) (get "evidence_refs" fs)) (arr nil);
  reports = or_value (get "reports" fs) (arr nil);
  details = or_value (get "details" fs) (obj end);
}

-- GateResult.from_dict
unfoldable pub from_dict : Value → Option GateResult
unfolding gate_result get
from_dict (obj fs) = gate_result (given fs)
from_dict _ = none

abbrev pub or_null : Option String → Value
or_null none = null
or_null (some s) = string s

-- GateResult.to_dict
unfoldable pub to_dict : GateResult → Value
to_dict g = obj (
    field "gate_id" (string g.gate_id) (
      field "gate_type" (string g.gate_type) (
        field "status" (string (value g.status)) (
          field "owner" (or_null g.owner) (
            field "decision" (or_null g.decision) (
              field "blockers" (arr g.blockers) (
                field "evidence" (arr g.evidence)
                  (field "reports" (arr g.reports) (field "details" (obj g.details) end)))))))))

-- {**details, key: value}
unfoldable pub with_field : String → Value → Fields → Fields
with_field k v end = field k v end
with_field k v (field j w fs) =
    let rest = with_field k v fs in if str_eq j k then field j v fs else field j w rest

pub record Call : Type 0 where
  pub gate : GateResult
  pub raises : Bool

abbrev pub returned : GateResult → Call
returned g = record { gate = g; raises = false }

abbrev pub raised : GateResult → Call
raised g = record { gate = g; raises = true }

-- The end of a transition, when the status is set already
unfoldable pub with_reason : Value → GateResult → Call
unfolding required_text with_field
with_reason null g = returned g
with_reason v g = elim (required_text v) [
  | none ↦ raised g
  | some s ↦ returned (record g { details = with_field "reason" (string s) g.details })
]

abbrev pub is_final : GateStatus → Bool
is_final passed = true
is_final failed = true
is_final _ = false

unfoldable pub move : GateStatus → Value → GateResult → Call
unfolding passes_gate_contract with_reason
move target reason g =
    if not (allowed g.status target)
    then raised g
    else if is_final target && (not (is_given g.owner) || not (is_given g.decision))
    then raised g
    else if is_passed target && not (passes_gate_contract g)
    then raised g
    else with_reason reason (record g { status = target })

-- GateResult.transition
unfoldable pub transition : Value → Value → GateResult → Call
unfolding status_of move
transition target reason g = elim (status_of target) [ none ↦ raised g | some t ↦ move t reason g ]
