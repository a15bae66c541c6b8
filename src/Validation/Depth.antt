-- ===== src/Validation/Depth.antt =====
-- scripts/pd_fleet/validation.py: proofs on the depth of the recursion of `visit`.
use project_development_skil.Base.{
  ℕ, zero, suc, ◌≤◌, ◌<◌, String, true, false, Option, none, some, List, [], ◌∷◌, ◌≡◌, ◌≢◌, refl,
  arith, eq_iff, all, length, if◌then◌else◌, Bool-cases, inl, inr, ◌∙◌,
}
use project_development_skil.Dict
use project_development_skil.Dict.{Dict}
use project_development_skil.Store.Batch.{mem}
use project_development_skil.Scheduler.{sorted}
use project_development_skil.Validation.{
  Graph, TaskSpec, Color, Walk, grey, black, enter, leave, close, step, each, visit, visit_all,
  keys, fresh_walk, walk, or_nil, graph_from, validate_dag,
}
use project_development_skil.Validation.Acyclic.{all-sorted}

-- How many of the nodes have no color
abbrev white : Dict Color → List String → ℕ
white color [] = 0
white color (k ∷ ks) = if Dict.has_key k color then white color ks else suc (white color ks)

white-put :
    (node : String) (c : Color) (color : Dict Color) (ks : List String)
    → white (Dict.put node c color) ks ≤ white color ks
unfolding Dict.has_key
white-put node c color [] = ground arith
white-put node c color (k ∷ ks) =
    ground (arith, Dict.get-put node k c color, white-put node c color ks)

white-put_new :
    (node : String) (c : Color) (color : Dict Color) (ks : List String)
    → mem node ks ≡ true
    → Dict.has_key node color ≡ false
    → white (Dict.put node c color) ks < white color ks
unfolding Dict.has_key
white-put_new node c color [] h g = cc
white-put_new node c color (k ∷ ks) h g = ground (
  arith,
  Dict.get-put node k c color,
  eq_iff node k,
  white-put node c color ks,
  white-put_new node c color ks,
)

pub mem-keys :
    (k : String) (graph : Graph) → Dict.has_key k graph ≡ true → mem k (keys graph) ≡ true
unfolding Dict.has_key Dict.get
mem-keys k [] h = cc
mem-keys k ((i, w) ∷ graph) h = ground (arith, eq_iff i k, eq_iff k i, mem-keys k graph)

module _ (graph : Graph) where
  -- A result, with no more nodes that have no color
  record Ends (w : Walk) (o : Option Walk) : Type 0 where
    pub walked : Walk
    pub result : o ≡ some walked
    pub fewer : white walked.color (keys graph) ≤ white w.color (keys graph)

  -- The visit of a node without a color ends, as long as no more than n nodes have no color.
  abbrev EndsBelow : ℕ → (String → Walk → Option Walk) → Type 0
  EndsBelow n go =
      (node : String) (w : Walk)
      → mem node (keys graph) ≡ true
      → Dict.has_key node w.color ≡ false
      → white w.color (keys graph) ≤ n
      → Ends w (go node w)

  stays : (w : Walk) → Ends w (some w)
  stays w = record { walked = w; result = refl; fewer = ground arith }

  module _ (n : ℕ) (go : String → Walk → Option Walk) (good : EndsBelow n go) where
    step-color :
        (dep : String) (w : Walk) (c : Option Color)
        → Dict.has_key dep graph ≡ true
        → Dict.get dep w.color ≡ c
        → white w.color (keys graph) ≤ n
        → Ends w (step graph go dep w)
    unfolding step Dict.has_key close
    step-color dep w none k e h =
        let g = good dep w (mem-keys dep graph k) (rw e refl) h in rw (k, e) g
    step-color dep w (some grey) k e h =
        rw (k, e) (record { walked = close dep w; result = refl; fewer = ground arith })
    step-color dep w (some black) k e h = rw (k, e) (stays w)

    step-Ends :
        (dep : String) (w : Walk) → white w.color (keys graph) ≤ n → Ends w (step graph go dep w)
    unfolding step
    step-Ends dep w h = elim (Bool-cases (Dict.has_key dep graph)) [
      | inl known ↦ step-color dep w (Dict.get dep w.color) known refl h
      | inr foreign ↦ rw foreign (stays w)
    ]

    each-Ends :
        (deps : List String) (w : Walk)
        → white w.color (keys graph) ≤ n
        → Ends w (each graph go deps w)
    unfolding each
    each-Ends [] w h = stays w
    each-Ends (dep ∷ deps) w h =
        let one = step-Ends dep w h in
        let more = each-Ends deps one.walked (ground (arith, one.fewer, h)) in
        rw one.result (record {
          walked = more.walked;
          result = more.result;
          fewer = ground (arith, one.fewer, more.fewer);
        })

  visit-Ends : (depth : ℕ) → EndsBelow depth (visit graph depth)
  unfolding visit enter leave
  visit-Ends zero node w m u h =
      absurd (ground (arith, white-put_new node grey w.color (keys graph) m u, h))
  visit-Ends (suc depth) node w m u h =
      let less = white-put_new node grey w.color (keys graph) m u in
      let done =
        each-Ends depth (visit graph depth) (visit-Ends depth)
          (sorted (or_nil (Dict.get node graph))) (enter node w) (ground (arith, less, h)) in
      rw done.result (record {
        walked = leave node done.walked;
        result = refl;
        fewer =
            ground (arith, less, done.fewer, white-put node black done.walked.color (keys graph));
      })

  visit_all-Ends :
      (depth : ℕ) (nodes : List String) (w : Walk)
      → all (λ k. mem k (keys graph)) nodes ≡ true
      → white w.color (keys graph) ≤ depth
      → Ends w (visit_all graph depth nodes w)
  unfolding visit_all
  visit_all-Ends depth [] w a h = stays w
  visit_all-Ends depth (node ∷ nodes) w a h = elim (Bool-cases (Dict.has_key node w.color)) [
    | inl known ↦ rw known (visit_all-Ends depth nodes w (ground arith) h)
    | inr new ↦
        (let one = visit-Ends depth node w (ground arith) new h in
          let more =
            visit_all-Ends depth nodes one.walked (ground arith) (ground (arith, one.fewer, h)) in
          rw (new, one.result)
            (record {
              walked = more.walked;
              result = more.result;
              fewer = ground (arith, one.fewer, more.fewer);
            }))
  ]

white-fresh : (ks : List String) → white [] ks ≤ length ks
unfolding Dict.has_key Dict.get
white-fresh [] = ground arith
white-fresh (k ∷ ks) = ground (arith, white-fresh ks)

all-mem_self :
    (ks : List String) (more : List String)
    → ((k : String) → mem k ks ≡ true → mem k more ≡ true)
    → all (λ k. mem k more) ks ≡ true
all-mem_self [] more f = refl
all-mem_self (k ∷ ks) more f =
    ground (
      arith,
      f k (ground (arith, eq_iff k k)),
      all-mem_self ks more (λ j h. f j (ground (arith, h))),
    )

-- validate_dag gives a result for every plan: a depth of as many calls as the graph has nodes is
-- enough for its recursion.
pub validate_dag_ends : (tasks : List TaskSpec) → validate_dag tasks ≢ none
unfolding validate_dag walk
validate_dag_ends tasks h =
    let graph = graph_from [] tasks in
    let listed =
      all-sorted (λ k. mem k (keys graph)) (keys graph)
      ∙ all-mem_self (keys graph) (keys graph) (λ k i. i) in
    let e =
      visit_all-Ends graph (length (keys graph)) (sorted (keys graph)) fresh_walk listed
        (white-fresh (keys graph)) in
    let n = rw e.result at h in cc
