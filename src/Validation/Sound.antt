-- ===== src/Validation/Sound.antt =====
-- scripts/pd_fleet/validation.py: proofs on plans without errors from `validate_dag`.
use project_development_skil.Base.{
  String, Bool, true, ◌&&◌, some, List, [], ◌∷◌, ◌++◌, ◌≡◌, refl, arith, eq_iff, str_eq, all,
  is_empty, map, length, Option-cases, Bool-cases, inl, inr, ◌∙◌, sym,
}
use project_development_skil.Dict
use project_development_skil.Dict.{Dict}
use project_development_skil.Gates.Honest.{bind-some}
use project_development_skil.Store.Batch.{mem}
use project_development_skil.Scheduler.{sorted}
use project_development_skil.Validation.{
  Graph, TaskSpec, Walk, keys, fresh_walk, walk, or_nil, graph_from, unique, missing, missing_all,
  validate_dag, cycle,
}
use project_development_skil.Validation.Acyclic.{all-sorted, in_order, is_ordered, IsFinished}
use project_development_skil.Validation.Walks.{IsUngrey, visit_all-Walks}

-- Every node of the order comes after all its dependencies; the last one is first.
abbrev pub is_topological : Graph → List String → Bool
is_topological graph [] = true
is_topological graph (k ∷ older) =
    all (λ d. mem d older) (or_nil (Dict.get k graph)) && is_topological graph older

walk-ordered :
    (graph : Graph) (w : Walk)
    → walk graph ≡ some w
    → is_empty w.cycles ≡ true
    → (order : List String) × (is_ordered graph order ≡ true)
      × (all (λ k. mem k order) (keys graph) ≡ true)
unfolding walk IsUngrey Dict.get
walk-ordered graph w h n =
    let (later, ends) =
      visit_all-Walks graph (length (keys graph)) (sorted (keys graph)) fresh_walk w h in
    let start : IsFinished graph fresh_walk [] = record { listed = λ k i. cc; ordered = refl } in
    let (g, m) = ends [] start (λ k i. cc) n in
    (g.longer, g.finished.ordered, sym (all-sorted (λ k. mem k g.longer) (keys graph)) ∙ m)

all-mem :
    (p : String → Bool) (k : String) (xs : List String)
    → all p xs ≡ true
    → mem k xs ≡ true
    → p k ≡ true
all-mem p k [] a h = cc
all-mem p k (x ∷ xs) a h = elim (Bool-cases (str_eq k x)) [
  | inl same ↦ (let q : k ≡ x = (eq_iff k x).0 same in rw q (ground arith))
  | inr other ↦ all-mem p k xs (ground arith) (ground arith)
]

pub all-unique : (p : String → Bool) (xs : List String) → all p (unique xs) ≡ true → all p xs ≡ true
all-unique p [] h = refl
all-unique p (x ∷ xs) h = elim (Bool-cases (mem x xs)) [
  | inl twice ↦
      (let a = all-unique p xs (ground arith) in ground (arith, a, all-mem p x xs a twice))
  | inr once ↦ ground (arith, all-unique p xs)
]

missing-empty :
    (graph : Graph) (id : String) (deps : List String)
    → is_empty (missing graph id deps) ≡ true
    → all (λ d. Dict.has_key d graph) deps ≡ true
missing-empty graph id [] h = refl
missing-empty graph id (d ∷ deps) h = ground (arith, missing-empty graph id deps)

-- All the dependencies of the tasks are in the graph.
abbrev are_known : Graph → List TaskSpec → Bool
are_known graph tasks = all (λ (t : TaskSpec). all (λ d. Dict.has_key d graph) t.depends_on) tasks

pub append-empty :
    {A : Type 0} (xs ys : List A)
    → is_empty (xs ++ ys) ≡ true
    → (is_empty xs ≡ true) × (is_empty ys ≡ true)
append-empty [] ys h = (refl, h)
append-empty (x ∷ xs) ys h = cc

missing_all-empty :
    (graph : Graph) (tasks : List TaskSpec)
    → is_empty (missing_all graph tasks) ≡ true
    → are_known graph tasks ≡ true
unfolding missing_all
missing_all-empty graph [] h = refl
missing_all-empty graph (t ∷ ts) h =
    let known = λ (d : String). Dict.has_key d graph in
    let (a, b) =
      append-empty (missing graph t.id (sorted (unique t.depends_on))) (missing_all graph ts) h in
    let c = missing-empty graph t.id (sorted (unique t.depends_on)) a in
    ground (
      arith,
      all-unique known t.depends_on (sym (all-sorted known (unique t.depends_on)) ∙ c),
      missing_all-empty graph ts b,
    )

-- What the graph holds for a task is in the graph as well.
graph_from-known :
    (whole graph : Graph) (tasks : List TaskSpec)
    → all (λ (k, ds). all (λ d. Dict.has_key d whole) ds) graph ≡ true
    → are_known whole tasks ≡ true
    → all (λ (k, ds). all (λ d. Dict.has_key d whole) ds) (graph_from graph tasks) ≡ true
graph_from-known whole graph [] g h = g
graph_from-known whole graph (t ∷ ts) g h =
    graph_from-known whole (Dict.put t.id t.depends_on graph) ts
      (Dict.all-put (λ (k, ds). all (λ d. Dict.has_key d whole) ds) t.id t.depends_on graph
        (ground arith) g)
      (ground arith)

deps-known :
    (graph : Graph) (k : String)
    → all (λ (k, ds). all (λ d. Dict.has_key d graph) ds) graph ≡ true
    → all (λ d. Dict.has_key d graph) (or_nil (Dict.get k graph)) ≡ true
deps-known graph k h = elim (Option-cases (Dict.get k graph)) [
  | inl e ↦ rw e refl
  | inr (ds, e) ↦ rw e (Dict.all-get (λ (k, ds). all (λ d. Dict.has_key d graph) ds) k ds graph h e)
]

known-in_order :
    (graph : Graph) (older deps : List String)
    → all (λ d. Dict.has_key d graph) deps ≡ true
    → all (in_order graph older) deps ≡ true
    → all (λ d. mem d older) deps ≡ true
known-in_order graph older [] h g = refl
known-in_order graph older (d ∷ deps) h g = ground (arith, known-in_order graph older deps)

ordered-topological :
    (graph : Graph) (order : List String)
    → all (λ (k, ds). all (λ d. Dict.has_key d graph) ds) graph ≡ true
    → is_ordered graph order ≡ true
    → is_topological graph order ≡ true
ordered-topological graph [] h g = refl
ordered-topological graph (k ∷ older) h g =
    let deps = or_nil (Dict.get k graph) in
    ground (
      arith,
      known-in_order graph older deps (deps-known graph k h) (ground arith),
      ordered-topological graph older h (ground arith),
    )

keys-put :
    (j k : String) (v : List String) (graph : Graph)
    → mem j (keys graph) ≡ true
    → mem j (keys (Dict.put k v graph)) ≡ true
unfolding Dict.put
keys-put j k v [] h = cc
keys-put j k v ((i, w) ∷ graph) h = ground (arith, keys-put j k v graph)

keys-put_self :
    (k : String) (v : List String) (graph : Graph) → mem k (keys (Dict.put k v graph)) ≡ true
unfolding Dict.put
keys-put_self k v [] = ground (arith, eq_iff k k)
keys-put_self k v ((i, w) ∷ graph) = ground (arith, eq_iff i k, eq_iff k i, keys-put_self k v graph)

keys-graph_from :
    (j : String) (graph : Graph) (tasks : List TaskSpec)
    → mem j (keys graph) ≡ true
    → mem j (keys (graph_from graph tasks)) ≡ true
keys-graph_from j graph [] h = h
keys-graph_from j graph (t ∷ ts) h =
    keys-graph_from j (Dict.put t.id t.depends_on graph) ts (keys-put j t.id t.depends_on graph h)

-- What holds of every node holds of every task.
tasks-keys :
    (p : String → Bool) (graph : Graph) (tasks : List TaskSpec)
    → all p (keys (graph_from graph tasks)) ≡ true
    → all (λ (t : TaskSpec). p t.id) tasks ≡ true
tasks-keys p graph [] h = refl
tasks-keys p graph (t ∷ ts) h =
    let next = Dict.put t.id t.depends_on graph in
    let listed = keys-graph_from t.id next ts (keys-put_self t.id t.depends_on graph) in
    ground (arith, all-mem p t.id (keys (graph_from next ts)) h listed, tasks-keys p next ts h)

map-empty : {A B : Type 0} (f : A → B) (xs : List A) → is_empty (map f xs) ≡ is_empty xs
map-empty f [] = refl
map-empty f (x ∷ xs) = refl

-- When validate_dag gives no errors there is an order of the tasks, the last one first, that has
-- every task of the plan, and in which each task comes after everything it depends on.
pub validate_dag-is_topological :
    (tasks : List TaskSpec)
    → validate_dag tasks ≡ some []
    → (order : List String) × (is_topological (graph_from [] tasks) order ≡ true)
      × (all (λ (t : TaskSpec). mem t.id order) tasks ≡ true)
unfolding validate_dag
validate_dag-is_topological tasks h =
    let graph = graph_from [] tasks in
    let (w, e, f) =
      bind-some (walk graph) (λ w. some (missing_all graph tasks ++ map cycle w.cycles)) h in
    let q : missing_all graph tasks ++ map cycle w.cycles ≡ [] = cc f in
    let (a, b) = append-empty (missing_all graph tasks) (map cycle w.cycles) (rw q refl) in
    let (order, o, m) = walk-ordered graph w e (sym (map-empty cycle w.cycles) ∙ b) in
    let known = graph_from-known graph [] tasks refl (missing_all-empty graph tasks a) in
    (order, ordered-topological graph order known o, tasks-keys (λ k. mem k order) [] tasks m)
