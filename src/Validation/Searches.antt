-- ===== src/Validation/Searches.antt =====
-- scripts/pd_fleet/validation.py: proofs on the depth of the recursion of `reaches`.
use project_development_skil.Base.{
  ℕ, zero, suc, ◌+◌, ◌≤◌, ◌<◌, String, true, false, Option, none, some, List, [], ◌∷◌, ◌≡◌, ◌≢◌,
  refl, arith, eq_iff, str_eq, length, is_some, if◌then◌else◌, Option-cases, Bool-cases, inl, inr,
}
use project_development_skil.Dict
use project_development_skil.Gates.Policy.{equal}
use project_development_skil.Store.Batch.{mem}
use project_development_skil.Validation.{Graph, TaskSpec, graph_from, keys, validate_dag}
use project_development_skil.Validation.Depth.{mem-keys, validate_dag_ends}
use project_development_skil.Validation.Ownership.{
  Answer, any_reaches, look_up, reaches, search, parallel, shared_errors, pair_errors, sort_tasks,
  validate_ownership,
}

-- How many of the nodes were not seen
abbrev unseen : List String → List String → ℕ
unseen seen [] = 0
unseen seen (k ∷ ks) = if mem k seen then unseen seen ks else suc (unseen seen ks)

unseen-cons : (j : String) (seen ks : List String) → unseen (j ∷ seen) ks ≤ unseen seen ks
unseen-cons j seen [] = ground arith
unseen-cons j seen (k ∷ ks) = ground (arith, unseen-cons j seen ks)

unseen-cons_new :
    (j : String) (seen ks : List String)
    → mem j ks ≡ true
    → mem j seen ≡ false
    → unseen (j ∷ seen) ks < unseen seen ks
unseen-cons_new j seen [] h g = cc
unseen-cons_new j seen (k ∷ ks) h g =
    ground (arith, eq_iff j k, eq_iff k j, unseen-cons j seen ks, unseen-cons_new j seen ks)

module _ (graph : Graph) where
  -- An answer, with no more nodes that were not seen
  record IsAnswered (seen : List String) (o : Option Answer) : Type 0 where
    pub answer : Answer
    pub result : o ≡ some answer
    pub fewer : unseen answer.1 (keys graph) ≤ unseen seen (keys graph)

  abbrev Answers : ℕ → (String → List String → Option Answer) → Type 0
  Answers n go =
      (start : String) (seen : List String)
      → unseen seen (keys graph) < n
      → IsAnswered seen (go start seen)

  any_reaches-IsAnswered :
      (n : ℕ) (go : String → List String → Option Answer)
      → Answers n go
      → (ds seen : List String) → unseen seen (keys graph) < n
      → IsAnswered seen (any_reaches go ds seen)
  unfolding any_reaches
  any_reaches-IsAnswered n go good [] seen h = record {
    answer = (false, seen);
    result = refl;
    fewer = ground arith;
  }
  any_reaches-IsAnswered n go good (d ∷ ds) seen h =
      let one = good d seen h in
      let more = any_reaches-IsAnswered n go good ds one.answer.1 (ground (arith, one.fewer, h)) in
      elim (Bool-cases one.answer.0) [
        | inl found ↦
            rw (one.result, found)
              (record { answer = (true, one.answer.1); result = refl; fewer = one.fewer })
        | inr missed ↦
            rw (one.result, missed)
              (record {
                answer = more.answer;
                result = more.result;
                fewer = ground (arith, one.fewer, more.fewer);
              })
      ]

  reaches-IsAnswered : (target : String) (depth : ℕ) → Answers depth (reaches graph target depth)
  unfolding reaches look_up Dict.has_key
  reaches-IsAnswered target zero start seen h = absurd (ground arith)
  reaches-IsAnswered target (suc depth) start seen h = elim (Bool-cases (mem start seen)) [
    | inl again ↦ rw again (record { answer = (false, seen); result = refl; fewer = ground arith })
    | inr first ↦ elim (Bool-cases (str_eq start target)) [
      | inl there ↦
          rw (first, there)
            (record {
              answer = (true, start ∷ seen);
              result = refl;
              fewer = unseen-cons start seen (keys graph);
            })
      | inr away ↦ elim (Option-cases (Dict.get start graph)) [
        | inl e ↦
            rw (first, away, e)
              (record {
                answer = (false, start ∷ seen);
                result = refl;
                fewer = unseen-cons start seen (keys graph);
              })
        | inr (deps, e) ↦
            (let listed = mem-keys start graph (rw e refl) in
              let less = unseen-cons_new start seen (keys graph) listed first in
              let rest =
                any_reaches-IsAnswered depth (reaches graph target depth)
                  (reaches-IsAnswered target depth) deps (start ∷ seen) (ground (arith, less, h)) in
              rw (first, away, e)
                (record {
                  answer = rest.answer;
                  result = rest.result;
                  fewer = ground (arith, rest.fewer, less);
                }))
      ]
    ]
  ]

  unseen-nil : (ks : List String) → unseen [] ks ≤ length ks
  unseen-nil [] = ground arith
  unseen-nil (k ∷ ks) = ground (arith, unseen-nil ks)

  search-IsAnswered : (start target : String) → IsAnswered [] (search graph start target)
  unfolding search
  search-IsAnswered start target =
      reaches-IsAnswered target (length (keys graph) + 1) start []
        (ground (arith, unseen-nil (keys graph)))

  parallel-some : (l r : TaskSpec) → is_some (parallel graph l r) ≡ true
  unfolding parallel
  parallel-some l r =
      let there = search-IsAnswered l.id r.id in
      let back = search-IsAnswered r.id l.id in
      elim (Bool-cases (equal l.wave r.wave)) [
        | inr apart ↦ rw apart refl
        | inl same ↦ elim (Bool-cases there.answer.0) [
          | inl found ↦ rw (same, there.result, found) refl
          | inr missed ↦ rw (same, there.result, missed, back.result) refl
        ]
      ]

  some-cases : {A : Type 0} (o : Option A) → is_some o ≡ true → (a : A) × (o ≡ some a)
  some-cases none h = cc
  some-cases (some a) h = (a, refl)

  shared_errors-some :
      (l : TaskSpec) (rest : List TaskSpec) → is_some (shared_errors graph l rest) ≡ true
  unfolding shared_errors
  shared_errors-some l [] = refl
  shared_errors-some l (r ∷ rest) =
      let (b, e) = some-cases (parallel graph l r) (parallel-some l r) in
      let (es, f) = some-cases (shared_errors graph l rest) (shared_errors-some l rest) in
      rw (e, f) refl

  pair_errors-some : (tasks : List TaskSpec) → is_some (pair_errors graph tasks) ≡ true
  unfolding pair_errors
  pair_errors-some [] = refl
  pair_errors-some (l ∷ rest) =
      let (here, e) = some-cases (shared_errors graph l rest) (shared_errors-some l rest) in
      let (later, f) = some-cases (pair_errors graph rest) (pair_errors-some rest) in rw (e, f) refl

-- Both checks give a result for every plan: validate_dag with a depth of as many calls as the graph
-- has nodes, validate_ownership with one call more for each of its searches.
pub validate_ends :
    (tasks : List TaskSpec) → (validate_dag tasks ≢ none) × (validate_ownership tasks ≢ none)
unfolding validate_ownership
validate_ends tasks = (
  validate_dag_ends tasks,
  λ h.
      let graph = graph_from [] tasks in
      let (es, e) =
        some-cases graph (pair_errors graph (sort_tasks tasks))
          (pair_errors-some graph (sort_tasks tasks)) in
      let n = rw e at h in cc,
)
