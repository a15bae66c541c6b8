-- ===== src/Examples/Plans.antt =====
-- The checks of scripts/pd_fleet/validation.py at concrete plans.
use project_development_skil.Base.{
  String, true, false, none, some, List, [], ◌∷◌, ◌≡◌, ◌≢◌, refl, all, All,
}
use project_development_skil.Dict
use project_development_skil.Store.Batch.{mem}
use project_development_skil.Scheduler.{str_leb, sorted, insert, starts_with}
use project_development_skil.Value.{number}
use project_development_skil.Validation.{
  TaskSpec, graph_from, validate_dag, missing_all, walk, visit_all, visit, each, step, enter, leave,
  close, canonical, add_cycle, cycle, missing_dependency,
}
use project_development_skil.Validation.Sound.{is_topological, validate_dag-is_topological}
use project_development_skil.Gates.Policy.{equal}
use project_development_skil.Validation.Ownership.{
  shared_conflict, validate_ownership, own_errors, pair_errors, shared_errors, parallel, search,
  reaches, look_up, any_reaches, overlaps, against, path_overlap, sort_tasks, insert_task,
}
use project_development_skil.Validation.Serial.{
  are_apart, AllPairs, AreKept, validate_ownership-AreKept,
}
use project_development_skil.Validation.Searches.{validate_ends}

abbrev task : String → List String → TaskSpec
task id deps = record {
  id = id;
  role = "worker";
  objective = "build";
  depends_on = deps;
  outputs = "out" ∷ [];
  acceptance_criteria = "done" ∷ [];
  validation_commands = "test" ∷ [];
  wave = number 1;
  allowed_paths = "src/shared/" ∷ id ∷ [];
  forbidden_paths = "docs" ∷ [];
}

abbrev diamond : List TaskSpec
diamond = task "d" ("b" ∷ "c" ∷ []) ∷ task "b" ("a" ∷ []) ∷ task "c" ("a" ∷ []) ∷ task "a" [] ∷ []

diamond-valid : validate_dag diamond ≡ some []
unfolding validate_dag missing_all walk visit_all visit each step enter leave sorted insert str_leb
    Dict.get Dict.put Dict.has_key
diamond-valid = refl

-- A cycle is given from its least node on, and once.
round-invalid :
    validate_dag (task "b" ("c" ∷ []) ∷ task "c" ("b" ∷ "x" ∷ []) ∷ [])
    ≡ some (missing_dependency "c" "x" ∷ cycle ("b" ∷ "c" ∷ "b" ∷ []) ∷ [])
unfolding validate_dag missing_all walk visit_all visit each step enter leave close canonical
    add_cycle sorted insert str_leb Dict.get Dict.put Dict.has_key
round-invalid = refl

validate_dag-is_topological_example :
    (order : List String) × (is_topological (graph_from [] diamond) order ≡ true)
    × (all (λ (t : TaskSpec). mem t.id order) diamond ≡ true)
validate_dag-is_topological_example = validate_dag-is_topological diamond diamond-valid

validate_ends_example : (validate_dag diamond ≢ none) × (validate_ownership diamond ≢ none)
validate_ends_example = validate_ends diamond

-- The two tasks in the middle may run side by side, and share a path.
diamond-shared :
    validate_ownership diamond ≡ some (shared_conflict "b" "c" "src/shared/" "src/shared/" ∷ [])
unfolding validate_ownership own_errors pair_errors shared_errors parallel search reaches look_up
    any_reaches overlaps against path_overlap sort_tasks insert_task sorted insert str_leb
    starts_with equal Dict.get Dict.put
diamond-shared = refl

-- In a chain the shared path is not in dispute.
abbrev chain : List TaskSpec
chain = task "c" ("b" ∷ []) ∷ task "b" ("a" ∷ []) ∷ task "a" [] ∷ []

chain-owned : validate_ownership chain ≡ some []
unfolding validate_ownership own_errors pair_errors shared_errors parallel search reaches look_up
    any_reaches overlaps against path_overlap sort_tasks insert_task sorted insert str_leb
    starts_with equal Dict.get Dict.put
chain-owned = refl

validate_ownership-AreKept_example :
    All (λ t. are_apart t.allowed_paths t.forbidden_paths ≡ true) (sort_tasks chain)
    × AllPairs (AreKept (graph_from [] chain)) (sort_tasks chain)
validate_ownership-AreKept_example = validate_ownership-AreKept chain chain-owned

-- The root of the tree overlaps with no path below it.
root-apart : path_overlap "/" "src" ≡ false
unfolding path_overlap starts_with
root-apart = refl
