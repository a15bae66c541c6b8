-- ===== src/Examples/Checks.antt =====
-- The gates of scripts/pd_fleet/gates.py at concrete inputs.
use project_development_skil.Base.{
  true, false, some, List, [], ◌∷◌, ◌≡◌, ◌↔◌, refl, is_blank, strip, strip_left, strip_right,
  casefold,
}
use project_development_skil.Value.{Value, null, string, arr, obj, end, field, nil, cons, get}
use project_development_skil.Gates.{
  GateResult, pending, running, passed, safe, safe_list, references, is_reference, required_text,
  optional_text, status_of, of_value, passes_gate_contract, open_blocker, is_open,
}
use project_development_skil.Gates.Results.{
  from_dict, to_dict, gate_result, normalised, honest, fields, transition, move, with_reason,
  with_field, raised,
}
use project_development_skil.Gates.Honest.{
  transitions, read-transitions-honest, transition-half_moved,
}
use project_development_skil.Gates.Policy.{default_policy, evaluate, awaits_human}
use project_development_skil.Gates.Verdict.{default-passed_iff}
use project_development_skil.Gates.Roundtrip.{from_dict-to_dict}

-- The fields of a review, with a blocker that is closed.
abbrev review : Value
review = obj (
    field "id" (string " g1 ") (
      field "kind" (string "review") (
        field "owner" (string "lead") (
          field "decision" (string "approve") (
            field "evidence" (arr (cons (string "log") nil)) (
              field "reports" (arr (cons (obj (field "ref" (string "r1") end)) nil)) (
                field "blockers"
                  (arr (
                    cons
                      (obj
                        (field "severity" (string "HIGH") (field "status" (string "Closed ") end)))
                      nil))
                  end)))))))

abbrev reviewed : GateResult
reviewed = record {
  gate_id = "g1";
  gate_type = "review";
  status = pending;
  owner = some "lead";
  decision = some "approve";
  blockers =
      cons (obj (field "severity" (string "HIGH") (field "status" (string "Closed ") end))) nil;
  evidence = cons (string "log") nil;
  reports = cons (obj (field "ref" (string "r1") end)) nil;
  details = end;
}

review-read : from_dict review ≡ some reviewed
unfolding from_dict gate_result normalised honest fields required_text optional_text status_of
    of_value safe_list references is_reference safe passes_gate_contract open_blocker is_open
    is_blank strip strip_left strip_right casefold get
review-read = refl

abbrev to_passed : List (Value × Value)
to_passed =
    (string "running", null) ∷ (string "passed", string "done") ∷ (string "failed", null) ∷ []

reviewed-passed : (transitions to_passed reviewed).status ≡ passed
unfolding transitions transition move with_reason with_field required_text status_of of_value
    passes_gate_contract open_blocker is_open is_blank strip strip_left strip_right casefold get
reviewed-passed = refl

read-transitions-honest_example : passes_gate_contract (transitions to_passed reviewed) ≡ true
read-transitions-honest_example =
    read-transitions-honest review to_passed review-read reviewed-passed

blank-is_blank : is_blank " " ≡ true
unfolding is_blank strip strip_left strip_right
blank-is_blank = refl

transition-half_moved_example :
    transition (string "running") (string " ") reviewed
    ≡ raised (record reviewed { status = running })
transition-half_moved_example = transition-half_moved running " " reviewed refl refl blank-is_blank

default-passed_iff_example : (evaluate default_policy reviewed ≡ passed) ↔ (
    (reviewed.status ≡ passed)
    × (awaits_human reviewed.decision ≡ false)
    × (passes_gate_contract reviewed ≡ true))
default-passed_iff_example = default-passed_iff reviewed

from_dict-to_dict_example : from_dict (to_dict reviewed) ≡ some reviewed
from_dict-to_dict_example = from_dict-to_dict review review-read
