-- ===== src/Validation/Serial.antt =====
-- scripts/pd_fleet/validation.py: proofs on plans without errors from `validate_ownership`.
use project_development_skil.Base.{
  ℕ, zero, suc, ◌+◌, String, Bool, true, false, not, Option, some, List, [], ◌∷◌, ◌++◌, ◌≡◌, ◌⊎◌,
  refl, arith, eq_iff, str_eq, all, is_empty, length, All, if◌then◌else◌, Option-cases, Bool-cases,
  inl, inr, ◌∙◌, sym,
}
use project_development_skil.Dict
use project_development_skil.Fallible.{◌>>=◌}
use project_development_skil.Gates.Honest.{bind-some}
use project_development_skil.Gates.Policy.{equal}
use project_development_skil.Store.Batch.{mem}
use project_development_skil.Scheduler.{sorted}
use project_development_skil.Validation.{Graph, TaskSpec, graph_from, keys, or_nil, unique}
use project_development_skil.Validation.Acyclic.{all-sorted}
use project_development_skil.Validation.Sound.{all-unique, append-empty}
use project_development_skil.Validation.Ownership.{
  path_overlap, Answer, any_reaches, look_up, reaches, search, parallel, OwnershipError,
  own_conflict, shared_conflict, against, overlaps, own_errors, errors_if, shared_errors,
  pair_errors, sort_tasks, validate_ownership,
}

-- A chain of dependencies from one task to another
pub data DependsOn (graph : Graph) : String → String → Type 0 where
  same : (k : String) → DependsOn graph k k
  via :
      (k d t : String)
      → mem d (or_nil (Dict.get k graph)) ≡ true
      → DependsOn graph d t
      → DependsOn graph k t

module _ (graph : Graph) (target : String) where
  -- What an answer of true promises
  abbrev IsHonest : (String → List String → Option Answer) → Type 0
  IsHonest go =
      (d : String) (seen : List String) (a : Answer)
      → go d seen ≡ some a
      → a.0 ≡ true
      → DependsOn graph d target

  any_reaches-DependsOn :
      (go : String → List String → Option Answer)
      → IsHonest go
      → (ds seen : List String) (a : Answer) → any_reaches go ds seen ≡ some a
      → a.0 ≡ true
      → (d : String) × (mem d ds ≡ true) × DependsOn graph d target
  unfolding any_reaches
  any_reaches-DependsOn go good [] seen a h t = (let q : a ≡ (false, seen) = cc in cc)
  any_reaches-DependsOn go good (d ∷ ds) seen a h t =
      let (b, e, f) =
        bind-some (go d seen)
          (λ answer. if answer.0 then some (true, answer.1) else any_reaches go ds answer.1) h in
      elim (Bool-cases b.0) [
        | inl found ↦ (d, ground (arith, eq_iff d d), good d seen b e found)
        | inr more ↦
            (let n : any_reaches go ds b.1 ≡ some a = rw more at f in
              let (k, m, r) = any_reaches-DependsOn go good ds b.1 a n t in
              (k, ground (arith, m), r))
      ]

  reaches-DependsOn : (depth : ℕ) → IsHonest (reaches graph target depth)
  unfolding reaches look_up
  reaches-DependsOn zero start seen a h t = cc
  reaches-DependsOn (suc depth) start seen a h t = elim (Bool-cases (mem start seen)) [
    | inl again ↦ (let n = rw again at h in let q : a ≡ (false, seen) = cc in cc)
    | inr first ↦ elim (Bool-cases (str_eq start target)) [
      | inl there ↦ (let q : start ≡ target = (eq_iff start target).0 there in rw q (same target))
      | inr away ↦ elim (Option-cases (Dict.get start graph)) [
        | inl e ↦ (let n = rw (first, away, e) at h in let q : a ≡ (false, start ∷ seen) = cc in cc)
        | inr (deps, e) ↦
            (let n : any_reaches (reaches graph target depth) deps (start ∷ seen) ≡ some a =
                rw (first, away, e) at h in
              let (d, m, r) =
                any_reaches-DependsOn (reaches graph target depth) (reaches-DependsOn depth) deps
                  (start ∷ seen) a n t in
              via start d target (rw e m) r)
      ]
    ]
  ]

-- No path of the one list overlaps with a path of the other.
abbrev pub are_apart : List String → List String → Bool
are_apart xs bs = all (λ a. all (λ b. not (path_overlap a b)) bs) xs

against-empty :
    (make : String → String → OwnershipError) (a : String) (bs : List String)
    → is_empty (against make a bs) ≡ true
    → all (λ b. not (path_overlap a b)) bs ≡ true
unfolding against
against-empty make a [] h = refl
against-empty make a (b ∷ bs) h = ground (arith, against-empty make a bs)

overlaps-empty :
    (make : String → String → OwnershipError) (xs bs : List String)
    → is_empty (overlaps make xs bs) ≡ true
    → are_apart xs bs ≡ true
unfolding overlaps
overlaps-empty make [] bs h = refl
overlaps-empty make (a ∷ xs) bs h =
    let (one, more) = append-empty (against make a bs) (overlaps make xs bs) h in
    ground (arith, against-empty make a bs one, overlaps-empty make xs bs more)

all-set :
    (p : String → Bool) (xs : List String) → all p (sorted (unique xs)) ≡ true → all p xs ≡ true
all-set p xs h = all-unique p xs (sym (all-sorted p (unique xs)) ∙ h)

inner-set :
    (xs bs : List String) → are_apart xs (sorted (unique bs)) ≡ true → are_apart xs bs ≡ true
inner-set [] bs h = refl
inner-set (a ∷ xs) bs h = ground (arith, all-set (λ b. not (path_overlap a b)) bs, inner-set xs bs)

-- The same for the paths as they are listed
set-apart :
    (make : String → String → OwnershipError) (xs bs : List String)
    → is_empty (overlaps make (sorted (unique xs)) (sorted (unique bs))) ≡ true
    → are_apart xs bs ≡ true
set-apart make xs bs h =
    let e = overlaps-empty make (sorted (unique xs)) (sorted (unique bs)) h in
    inner-set xs bs (all-set (λ a. all (λ b. not (path_overlap a b)) (sorted (unique bs))) xs e)

-- Two tasks of one wave have paths apart, or one of them depends on the other.
abbrev pub AreKept : Graph → TaskSpec → TaskSpec → Type 0
AreKept graph l r =
    equal l.wave r.wave ≡ true
    → (are_apart l.allowed_paths r.allowed_paths ≡ true)
      ⊎ (DependsOn graph l.id r.id ⊎ DependsOn graph r.id l.id)

abbrev pub AllPairs : (TaskSpec → TaskSpec → Type 0) → List TaskSpec → Type 0
AllPairs P [] = Unit
AllPairs P (t ∷ ts) = All (P t) ts × AllPairs P ts

parallel-DependsOn :
    (graph : Graph) (l r : TaskSpec)
    → parallel graph l r ≡ some false
    → equal l.wave r.wave ≡ true
    → DependsOn graph l.id r.id ⊎ DependsOn graph r.id l.id
unfolding parallel search
parallel-DependsOn graph l r h w =
    let depth = length (keys graph) + 1 in
    elim (Option-cases (search graph l.id r.id)) [
      | inl e ↦ (let n = rw (w, e) at h in cc)
      | inr (there, e) ↦ elim (Bool-cases there.0) [
        | inl yes_there ↦ inl (reaches-DependsOn graph r.id depth l.id [] there e yes_there)
        | inr not_there ↦ elim (Option-cases (search graph r.id l.id)) [
          | inl f ↦ (let n = rw (w, e, not_there, f) at h in cc)
          | inr (back, f) ↦
              (let n = rw (w, e, not_there, f) at h in
                inr (reaches-DependsOn graph l.id depth r.id [] back f (ground (arith, n))))
        ]
      ]
    ]

shared-AreKept :
    (graph : Graph) (l : TaskSpec) (rest : List TaskSpec) (es : List OwnershipError)
    → shared_errors graph l rest ≡ some es
    → is_empty es ≡ true
    → All (AreKept graph l) rest
unfolding shared_errors
shared-AreKept graph l [] es h n = tt
shared-AreKept graph l (r ∷ rest) es h n =
    let own =
      overlaps (shared_conflict l.id r.id) (sorted (unique l.allowed_paths))
        (sorted (unique r.allowed_paths)) in
    let (beside, e, f) =
      bind-some (parallel graph l r)
        (λ b. shared_errors graph l rest >>= λ later. some (errors_if b own ++ later)) h in
    let (later, g, k) =
      bind-some (shared_errors graph l rest) (λ later. some (errors_if beside own ++ later)) f in
    let q : es ≡ errors_if beside own ++ later = cc k in
    let (a, b) = append-empty (errors_if beside own) later (rw q at n) in
    (
      λ w. elim (Bool-cases beside) [
        | inl side ↦
            inl
              (set-apart (shared_conflict l.id r.id) l.allowed_paths r.allowed_paths (rw side at a))
        | inr ordered ↦ inr (parallel-DependsOn graph l r (rw ordered at e) w)
      ],
      shared-AreKept graph l rest later g b,
    )

pair-AreKept :
    (graph : Graph) (tasks : List TaskSpec) (es : List OwnershipError)
    → pair_errors graph tasks ≡ some es
    → is_empty es ≡ true
    → AllPairs (AreKept graph) tasks
unfolding pair_errors
pair-AreKept graph [] es h n = tt
pair-AreKept graph (l ∷ rest) es h n =
    let (here, e, f) =
      bind-some (shared_errors graph l rest)
        (λ here. pair_errors graph rest >>= λ later. some (here ++ later)) h in
    let (later, g, k) = bind-some (pair_errors graph rest) (λ later. some (here ++ later)) f in
    let q : es ≡ here ++ later = cc k in
    let (a, b) = append-empty here later (rw q at n) in
    (shared-AreKept graph l rest here e a, pair-AreKept graph rest later g b)

own-apart :
    (tasks : List TaskSpec)
    → is_empty (own_errors tasks) ≡ true
    → All (λ t. are_apart t.allowed_paths t.forbidden_paths ≡ true) tasks
unfolding own_errors
own-apart [] h = tt
own-apart (t ∷ ts) h =
    let own =
      overlaps (own_conflict t.id) (sorted (unique t.allowed_paths))
        (sorted (unique t.forbidden_paths)) in
    let (a, b) = append-empty own (own_errors ts) h in
    (set-apart (own_conflict t.id) t.allowed_paths t.forbidden_paths a, own-apart ts b)

-- When validate_ownership gives no errors, no task may change a path that overlaps with one it must
-- not change, and of two tasks of one wave either no allowed paths overlap or one depends on the
-- other, directly or through a chain; the pairs are those of the tasks sorted by id.
pub validate_ownership-AreKept :
    (tasks : List TaskSpec)
    → validate_ownership tasks ≡ some []
    → All (λ t. are_apart t.allowed_paths t.forbidden_paths ≡ true) (sort_tasks tasks)
      × AllPairs (AreKept (graph_from [] tasks)) (sort_tasks tasks)
unfolding validate_ownership
validate_ownership-AreKept tasks h =
    let all_tasks = sort_tasks tasks in
    let graph = graph_from [] tasks in
    let (pairs, e, f) =
      bind-some (pair_errors graph all_tasks) (λ pairs. some (own_errors all_tasks ++ pairs)) h in
    let q : own_errors all_tasks ++ pairs ≡ [] = cc f in
    let (a, b) = append-empty (own_errors all_tasks) pairs (rw q refl) in
    (own-apart all_tasks a, pair-AreKept graph all_tasks pairs e b)
