-- ===== src/Examples/Approvals.antt =====
-- The record of a person's decision of scripts/pd_fleet/gates.py at a concrete request.
use project_development_skil.Base.{
  none, some, ◌≡◌, ◌↔◌, refl, is_blank, strip, strip_left, strip_right,
}
use project_development_skil.Value.{null, string, arr, obj, end, field, nil, cons}
use project_development_skil.Scheduler.{str_leb}
use project_development_skil.Gates.{passed, pending, safe}
use project_development_skil.Gates.Human.{HumanGate, approved}
use project_development_skil.Gates.Scope.{
  Request, evaluate, in_scope, canonical_scope, normalize, insert_item, insert_field, dumps,
  current_blockers, decide,
}
use project_development_skil.Gates.Approval.{IsApproved, approval_iff}

abbrev gate : HumanGate
gate = record {
  owner = "lead";
  identity = "ada";
  decision = approved;
  scope = obj (field "tasks" (arr (cons (string "b") (cons (string "a") nil))) end);
  run = "r1";
  evidence_digest = "e";
  artifact_digest = "d";
  created_at = 10;
  updated_at = 20;
  freshness_window = 60;
  blockers = nil;
}

-- The scope lists the tasks in another order.
abbrev request : Request
request = record {
  now = 80;
  artifact_digest = some "d";
  evidence_digest = none;
  blockers = null;
  expected_run = string "r1";
  expected_scope = obj (field "tasks" (arr (cons (string "a") (cons (string "b") nil))) end);
}

gate-passes : evaluate gate request ≡ some passed
unfolding evaluate in_scope canonical_scope normalize insert_item insert_field dumps safe str_leb
    current_blockers decide is_blank strip strip_left strip_right
gate-passes = refl

gate-late : evaluate gate (record request { now = 81 }) ≡ some pending
unfolding evaluate in_scope canonical_scope normalize insert_item insert_field dumps safe str_leb
    current_blockers decide is_blank strip strip_left strip_right
gate-late = refl

-- A window of 10^12 seconds ends past the last instant.
gate-overflows : evaluate (record gate { freshness_window = 1000000000000 }) request ≡ none
unfolding evaluate in_scope canonical_scope normalize insert_item insert_field dumps safe str_leb
    current_blockers decide is_blank strip strip_left strip_right
gate-overflows = refl

approval_iff_example : (evaluate gate request ≡ some passed) ↔ IsApproved gate request
approval_iff_example = approval_iff gate request
