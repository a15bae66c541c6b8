-- ===== src/Validation.antt =====
-- scripts/pd_fleet/validation.py: the checks of a plan's tasks and waves. An error is its kind with
-- the names in it, in place of its text; the errors come in the order in which they are found, where
-- the code sorts their texts at the end. The recursion of `visit` counts its depth down, and `none`
-- stands for a depth that was not enough; Python's own limit on recursion is not modelled. For a
-- repeated id the graph has the dependencies of the last task.
pub mod Depth
pub mod Acyclic
pub mod Walks
pub mod Sound
pub mod Ownership
pub mod Serial
pub mod Searches
use project_development_skil.Base.{
  ℕ, zero, suc, ◌+◌, String, Bool, true, false, not, ◌&&◌, ◌||◌, Option, none, some, List, [], ◌∷◌,
  ◌++◌, str_eq, if◌then◌else◌, is_blank, is_empty, any, map, length,
}
use project_development_skil.Dict
use project_development_skil.Dict.{Dict}
use project_development_skil.Fallible.{◌>>=◌}
use project_development_skil.Store.Batch.{mem}
use project_development_skil.Scheduler.{str_leb, sorted}
use project_development_skil.Value.{Value}

-- What the checks read of a TaskSpec
pub record TaskSpec : Type 0 where
  pub id : String
  pub role : String
  pub objective : String
  pub depends_on : List String
  pub outputs : List String
  pub acceptance_criteria : List String
  pub validation_commands : List String
  pub wave : Value
  pub allowed_paths : List String
  pub forbidden_paths : List String

pub record WaveSpec : Type 0 where
  pub id : String
  pub gates : List String

pub data PlanError : Type 0 where
  no_id : PlanError
  no_role no_objective no_criteria no_outputs no_commands : String → PlanError
  missing_dependency missing_gate : String → String → PlanError
  cycle : List String → PlanError

abbrev pub error_if : Bool → PlanError → List PlanError
error_if true e = e ∷ []
error_if false e = []

-- validate_task_contract
unfoldable pub validate_task_contract : TaskSpec → List PlanError
unfolding is_blank
validate_task_contract t =
    error_if (is_blank t.id) no_id
    ++ (error_if (is_blank t.role) (no_role t.id)
        ++ (error_if (is_blank t.objective) (no_objective t.id)
            ++ (error_if (is_empty t.acceptance_criteria) (no_criteria t.id)
                ++ (error_if (is_empty t.outputs) (no_outputs t.id)
                    ++ error_if (is_empty t.validation_commands) (no_commands t.id)))))

-- set(names)
abbrev pub unique : List String → List String
unique [] = []
unique (x ∷ xs) = let rest = unique xs in if mem x xs then rest else x ∷ rest

-- by_id, with what each task depends on
abbrev pub Graph : Type 0
Graph = Dict (List String)

abbrev pub graph_from : Graph → List TaskSpec → Graph
graph_from graph [] = graph
graph_from graph (t ∷ ts) = graph_from (Dict.put t.id t.depends_on graph) ts

abbrev pub or_nil : Option (List String) → List String
or_nil none = []
or_nil (some xs) = xs

abbrev pub missing : Graph → String → List String → List PlanError
missing graph id [] = []
missing graph id (dep ∷ deps) =
    error_if (not (Dict.has_key dep graph)) (missing_dependency id dep) ++ missing graph id deps

unfoldable pub missing_all : Graph → List TaskSpec → List PlanError
unfolding sorted
missing_all graph [] = []
missing_all graph (t ∷ ts) =
    missing graph t.id (sorted (unique t.depends_on)) ++ missing_all graph ts

-- 1 and 2 of `color`; a node without a color is 0.
pub data Color : Type 0 where
  grey black : Color

pub record Walk : Type 0 where
  pub color : Dict Color
  pub stack : List String
  pub cycles : List (List String)

-- stack[stack.index(dep):]
abbrev pub from_first : String → List String → List String
from_first dep [] = []
from_first dep (x ∷ xs) = let rest = from_first dep xs in if str_eq x dep then x ∷ xs else rest

abbrev drop_last : List String → List String
drop_last [] = []
drop_last (x ∷ []) = []
drop_last (x ∷ xs) = x ∷ drop_last xs

-- Every rotation of a cycle, each closed by its first node
abbrev pub rotations : List String → List String → List (List String)
rotations before [] = []
rotations before (x ∷ xs) = (x ∷ (xs ++ (before ++ x ∷ []))) ∷ rotations (before ++ x ∷ []) xs

list_leb : List String → List String → Bool
unfolding str_leb
list_leb [] ys = true
list_leb (x ∷ xs) [] = false
list_leb (x ∷ xs) (y ∷ ys) = if str_eq x y then list_leb xs ys else str_leb x y

-- min(rotations)
least : List String → List (List String) → List String
unfolding list_leb
least c [] = c
least c (d ∷ ds) = least (if list_leb c d then c else d) ds

abbrev same_list : List String → List String → Bool
same_list [] [] = true
same_list (x ∷ xs) (y ∷ ys) = str_eq x y && same_list xs ys
same_list _ _ = false

unfoldable pub canonical : List (List String) → List String
unfolding least
canonical [] = []
canonical (c ∷ cs) = least c cs

unfoldable pub add_cycle : List String → List (List String) → List (List String)
add_cycle c [] = c ∷ []
add_cycle c (d ∷ ds) = if same_list c d then d ∷ ds else d ∷ add_cycle c ds

unfoldable pub enter : String → Walk → Walk
enter node w = record w { color = Dict.put node grey w.color; stack = w.stack ++ node ∷ [] }

unfoldable pub leave : String → Walk → Walk
leave node w = record w { color = Dict.put node black w.color; stack = drop_last w.stack }

unfoldable pub close : String → Walk → Walk
unfolding canonical add_cycle
close dep w = record w {
  cycles = add_cycle (canonical (rotations [] (from_first dep w.stack))) w.cycles;
}

-- One dependency of a node, given the visit of a node
unfoldable pub step : Graph → (String → Walk → Option Walk) → String → Walk → Option Walk
unfolding close
step graph go dep w = if not (Dict.has_key dep graph) then some w else elim (Dict.get dep w.color) [
  | none ↦ go dep w
  | some grey ↦ some (close dep w)
  | some black ↦ some w
]

unfoldable pub each : Graph → (String → Walk → Option Walk) → List String → Walk → Option Walk
unfolding step
each graph go [] w = some w
each graph go (dep ∷ deps) w = do next ← step graph go dep w; each graph go deps next

unfoldable pub visit : Graph → ℕ → String → Walk → Option Walk
unfolding each enter leave sorted
visit graph zero node w = none
visit graph (suc depth) node w = do
  done ← each graph (visit graph depth) (sorted (or_nil (Dict.get node graph))) (enter node w)
  some (leave node done)

-- The loop over the nodes
unfoldable pub visit_all : Graph → ℕ → List String → Walk → Option Walk
unfolding visit
visit_all graph depth [] w = some w
visit_all graph depth (node ∷ nodes) w = do
  next ← if Dict.has_key node w.color then some w else visit graph depth node w
  visit_all graph depth nodes next

abbrev pub keys {ℓ} : {V : Type ℓ} → Dict V → List String
keys [] = []
keys ((k, v) ∷ d) = k ∷ keys d

abbrev pub fresh_walk : Walk
fresh_walk = record { color = []; stack = []; cycles = [] }

-- The walk of the whole graph, as deep as it has nodes
unfoldable pub walk : Graph → Option Walk
unfolding visit_all sorted
walk graph = visit_all graph (length (keys graph)) (sorted (keys graph)) fresh_walk

-- validate_dag
unfoldable pub validate_dag : List TaskSpec → Option (List PlanError)
unfolding walk missing_all
validate_dag tasks = do
  w ← walk (graph_from [] tasks)
  some (missing_all (graph_from [] tasks) tasks ++ map cycle w.cycles)

abbrev missing_gates : List String → String → List String → List PlanError
missing_gates known wave [] = []
missing_gates known wave (g ∷ gs) =
    error_if (not (mem g known)) (missing_gate wave g) ++ missing_gates known wave gs

-- validate_wave_gates, for the ids of the plan's gates
unfoldable pub validate_wave_gates : List String → List WaveSpec → List PlanError
unfolding sorted
validate_wave_gates known [] = []
validate_wave_gates known (w ∷ ws) =
    missing_gates known w.id (sorted (unique w.gates)) ++ validate_wave_gates known ws
