-- ===== src/Validation/Ownership.antt =====
-- scripts/pd_fleet/validation.py: which paths tasks may change, and which tasks may run side by side.
-- The recursion of `reaches` counts its depth down, and `none` stands for a depth that was not enough.
use Prim.Native.Char.{code}
use Prim.Native.String.{◌++◌ as append}
use project_development_skil.Base.{
  ℕ, zero, suc, ◌+◌, String, Bool, true, false, not, ◌&&◌, ◌||◌, Option, none, some, List, [], ◌∷◌,
  ◌++◌, ◌==◌, str_eq, if◌then◌else◌, is_nil, length,
}
use project_development_skil.Dict
use project_development_skil.Dict.{Dict}
use project_development_skil.Fallible.{◌>>=◌}
use project_development_skil.Gates.Policy.{equal}
use project_development_skil.Store.Batch.{mem}
use project_development_skil.Scheduler.{str_leb, sorted, starts_with}
use project_development_skil.Validation.{Graph, TaskSpec, graph_from, keys, unique}

-- `path.strip("/")`
trim_left : String → String
trim_left String.[] = ""
trim_left (String.◌∷◌ c s) = let rest = trim_left s in if code c == 47 then rest else String.◌∷◌ c s

trim_right : String → String
trim_right String.[] = ""
trim_right (String.◌∷◌ c s) =
    let rest = trim_right s in if code c == 47 && is_nil rest then "" else String.◌∷◌ c rest

trim : String → String
unfolding trim_left trim_right
trim s = trim_right (trim_left s)

-- _path_overlap
unfoldable pub path_overlap : String → String → Bool
unfolding trim starts_with
path_overlap left right =
    let a = trim left in
    let b = trim right in
    str_eq a b || (starts_with (append b "/") a || starts_with (append a "/") b)

-- The answer of `reaches`, with what it has seen
abbrev pub Answer : Type 0
Answer = Bool × List String

-- any(reaches(dep) for dep in depends_on), given the search from one node
unfoldable pub any_reaches :
    (String → List String → Option Answer) → List String → List String → Option Answer
any_reaches go [] seen = some (false, seen)
any_reaches go (d ∷ ds) seen = do
  answer ← go d seen
  if answer.0 then some (true, answer.1) else any_reaches go ds answer.1

-- The search from a node that is not the target, with what it depends on
unfoldable pub look_up :
    (String → List String → Option Answer) → Option (List String) → List String → Option Answer
unfolding any_reaches
look_up go none seen = some (false, seen)
look_up go (some deps) seen = any_reaches go deps seen

-- reaches
unfoldable pub reaches : Graph → String → ℕ → String → List String → Option Answer
unfolding look_up
reaches graph target zero start seen = none
reaches graph target (suc depth) start seen =
    if mem start seen
    then some (false, seen)
    else if str_eq start target
    then some (true, start ∷ seen)
    else look_up (reaches graph target depth) (Dict.get start graph) (start ∷ seen)

-- A search, one call deeper than the graph has nodes
unfoldable pub search : Graph → String → String → Option Answer
unfolding reaches
search graph start target = reaches graph target (length (keys graph) + 1) start []

-- _parallel
unfoldable pub parallel : Graph → TaskSpec → TaskSpec → Option Bool
unfolding equal search
parallel graph a b =
    if not (equal a.wave b.wave)
    then some false
    else search graph a.id b.id >>= λ there.
        if there.0 then some false else search graph b.id a.id >>= λ back. some (not back.0)

pub data OwnershipError : Type 0 where
  own_conflict : String → String → String → OwnershipError
  shared_conflict : String → String → String → String → OwnershipError

-- One error for each pair of paths that overlap
unfoldable pub against :
    (String → String → OwnershipError) → String → List String → List OwnershipError
unfolding path_overlap
against make a [] = []
against make a (b ∷ bs) =
    let rest = against make a bs in if path_overlap a b then make a b ∷ rest else rest

unfoldable pub overlaps :
    (String → String → OwnershipError) → List String → List String → List OwnershipError
unfolding against
overlaps make [] bs = []
overlaps make (a ∷ rest) bs = against make a bs ++ overlaps make rest bs

unfoldable pub own_errors : List TaskSpec → List OwnershipError
unfolding overlaps sorted
own_errors [] = []
own_errors (t ∷ ts) =
    overlaps (own_conflict t.id) (sorted (unique t.allowed_paths))
      (sorted (unique t.forbidden_paths))
    ++ own_errors ts

abbrev pub errors_if : Bool → List OwnershipError → List OwnershipError
errors_if true es = es
errors_if false es = []

-- A task and the tasks after it
unfoldable pub shared_errors : Graph → TaskSpec → List TaskSpec → Option (List OwnershipError)
unfolding parallel overlaps sorted
shared_errors graph left [] = some []
shared_errors graph left (right ∷ rest) = do
  beside ← parallel graph left right
  later ← shared_errors graph left rest
  some (
      errors_if beside (
        overlaps (shared_conflict left.id right.id) (sorted (unique left.allowed_paths))
          (sorted (unique right.allowed_paths)))
      ++ later)

unfoldable pub pair_errors : Graph → List TaskSpec → Option (List OwnershipError)
unfolding shared_errors
pair_errors graph [] = some []
pair_errors graph (left ∷ rest) = do
  here ← shared_errors graph left rest
  later ← pair_errors graph rest
  some (here ++ later)

-- sorted(plan.tasks, key=lambda item: item.id)
unfoldable pub insert_task : TaskSpec → List TaskSpec → List TaskSpec
unfolding str_leb
insert_task t [] = t ∷ []
insert_task t (u ∷ us) =
    let rest = insert_task t us in if str_leb t.id u.id then t ∷ u ∷ us else u ∷ rest

unfoldable pub sort_tasks : List TaskSpec → List TaskSpec
unfolding insert_task
sort_tasks [] = []
sort_tasks (t ∷ ts) = insert_task t (sort_tasks ts)

-- validate_ownership
unfoldable pub validate_ownership : List TaskSpec → Option (List OwnershipError)
unfolding own_errors pair_errors sort_tasks
validate_ownership tasks = do
  pairs ← pair_errors (graph_from [] tasks) (sort_tasks tasks)
  some (own_errors (sort_tasks tasks) ++ pairs)
