-- ===== src/Validation/Acyclic.antt =====
-- scripts/pd_fleet/validation.py: proofs on the colors and cycles of a walk.
use project_development_skil.Base.{
  ℕ, zero, suc, String, Bool, true, false, not, ◌&&◌, ◌||◌, Option, none, some, List, [], ◌∷◌, ◌≡◌,
  refl, arith, eq_iff, str_eq, all, is_empty, Bool-cases, inl, inr, ◌∙◌, sym,
}
use project_development_skil.Dict
use project_development_skil.Dict.{Dict}
use project_development_skil.Gates.Honest.{bind-some}
use project_development_skil.Store.Batch.{mem}
use project_development_skil.Scheduler.{sorted, insert}
use project_development_skil.Validation.{
  Graph, Color, Walk, grey, black, add_cycle, canonical, rotations, from_first, enter, leave, close,
  step, each, visit, or_nil,
}

all-insert :
    (p : String → Bool) (x : String) (ys : List String) → all p (insert x ys) ≡ (p x && all p ys)
unfolding insert
all-insert p x [] = refl
all-insert p x (y ∷ ys) = ground (arith, all-insert p x ys)

pub all-sorted : (p : String → Bool) (xs : List String) → all p (sorted xs) ≡ all p xs
unfolding sorted
all-sorted p [] = refl
all-sorted p (x ∷ xs) = ground (arith, all-insert p x (sorted xs), all-sorted p xs)

-- Every node of the order that is in the graph comes after its dependencies; the last one is first.
abbrev pub in_order : Graph → List String → String → Bool
in_order graph older d = not (Dict.has_key d graph) || mem d older

abbrev pub is_ordered : Graph → List String → Bool
is_ordered graph [] = true
is_ordered graph (k ∷ older) =
    all (in_order graph older) (or_nil (Dict.get k graph)) && is_ordered graph older

-- What is black is in the order.
pub record IsFinished (graph : Graph) (w : Walk) (order : List String) : Type 0 where
  pub listed : (k : String) → Dict.get k w.color ≡ some black → mem k order ≡ true
  pub ordered : is_ordered graph order ≡ true

-- From one walk to a later one
pub record IsLater (w t : Walk) : Type 0 where
  pub still_grey : (k : String) → Dict.get k t.color ≡ some grey → Dict.get k w.color ≡ some grey
  pub colored : (k : String) → Dict.has_key k w.color ≡ true → Dict.has_key k t.color ≡ true
  pub cycles : is_empty t.cycles ≡ true → is_empty w.cycles ≡ true

pub IsLater-refl : (w : Walk) → IsLater w w
IsLater-refl w = record { still_grey = λ k h. h; colored = λ k h. h; cycles = λ h. h }

pub IsLater-trans : (u v w : Walk) → IsLater u v → IsLater v w → IsLater u w
IsLater-trans u v w a b = record {
  still_grey = λ k h. a.still_grey k (b.still_grey k h);
  colored = λ k h. b.colored k (a.colored k h);
  cycles = λ h. a.cycles (b.cycles h);
}

-- A finished walk that goes on to another, with a longer order.
pub record Goes (graph : Graph) (order : List String) (t : Walk) : Type 0 where
  pub longer : List String
  pub finished : IsFinished graph t longer
  pub kept : (k : String) → mem k order ≡ true → mem k longer ≡ true

-- What the visit of a node promises
abbrev pub Visits : Graph → (String → Walk → Option Walk) → Type 0
Visits graph go =
    (node : String) (w t : Walk)
    → go node w ≡ some t
    → IsLater w t
      × ((order : List String)
          → IsFinished graph w order
          → is_empty t.cycles ≡ true
          → (g : Goes graph order t) × (mem node g.longer ≡ true))

filled-add_cycle : (c : List String) (cs : List (List String)) → is_empty (add_cycle c cs) ≡ false
unfolding add_cycle
filled-add_cycle c [] = refl
filled-add_cycle c (d ∷ ds) = ground arith

close-filled : (dep : String) (w : Walk) → is_empty (close dep w).cycles ≡ false
unfolding close
close-filled dep w = filled-add_cycle (canonical (rotations [] (from_first dep w.stack))) w.cycles

close-IsLater : (dep : String) (w : Walk) → IsLater w (close dep w)
unfolding close
close-IsLater dep w = record {
  still_grey = λ k h. h;
  colored = λ k h. h;
  cycles = λ h. absurd (ground (arith, h, close-filled dep w));
}

abbrev pub stay :
    (graph : Graph) (order : List String) (w : Walk) → IsFinished graph w order → Goes graph order w
stay graph order w f = record { longer = order; finished = f; kept = λ k h. h }

module _ (graph : Graph) (go : String → Walk → Option Walk) (good : Visits graph go) where
  step-color :
      (dep : String) (w t : Walk) (c : Option Color)
      → Dict.has_key dep graph ≡ true
      → Dict.get dep w.color ≡ c
      → step graph go dep w ≡ some t
      → IsLater w t
        × ((order : List String)
            → IsFinished graph w order
            → is_empty t.cycles ≡ true
            → (g : Goes graph order t) × (in_order graph g.longer dep ≡ true))
  unfolding step
  step-color dep w t none k e h =
      let n : go dep w ≡ some t = rw (k, e) at h in
      let (later, ends) = good dep w t n in
      (later, λ order f n. let (g, m) = ends order f n in (g, ground (arith, m)))
  step-color dep w t (some grey) k e h =
      let q : t ≡ close dep w = cc (rw (k, e) at h) in
      let c : is_empty t.cycles ≡ false = rw q (close-filled dep w) in
      (rw q (close-IsLater dep w), λ order f n. absurd (ground (arith, n, c)))
  step-color dep w t (some black) k e h =
      let q : t ≡ w = cc (rw (k, e) at h) in
      rw q (IsLater-refl w, λ order f n. (stay graph order w f, ground (arith, f.listed dep e)))

  step-IsLater :
      (dep : String) (w t : Walk)
      → step graph go dep w ≡ some t
      → IsLater w t
        × ((order : List String)
            → IsFinished graph w order
            → is_empty t.cycles ≡ true
            → (g : Goes graph order t) × (in_order graph g.longer dep ≡ true))
  unfolding step
  step-IsLater dep w t h = elim (Bool-cases (Dict.has_key dep graph)) [
    | inl known ↦ step-color dep w t (Dict.get dep w.color) known refl h
    | inr foreign ↦
        (let q : t ≡ w = cc (rw foreign at h) in
          rw q (IsLater-refl w, λ order f n. (stay graph order w f, ground (arith, foreign))))
  ]

  in_order-kept :
      (older longer : List String) (d : String)
      → ((k : String) → mem k older ≡ true → mem k longer ≡ true)
      → in_order graph older d ≡ true
      → in_order graph longer d ≡ true
  in_order-kept older longer d f h = ground (arith, f d)

  each-IsLater :
      (deps : List String) (w t : Walk)
      → each graph go deps w ≡ some t
      → IsLater w t
        × ((order : List String)
            → IsFinished graph w order
            → is_empty t.cycles ≡ true
            → (g : Goes graph order t) × (all (in_order graph g.longer) deps ≡ true))
  unfolding each
  each-IsLater [] w t h =
      let q : t ≡ w = cc in rw q (IsLater-refl w, λ order f n. (stay graph order w f, refl))
  each-IsLater (dep ∷ deps) w t h =
      let (u, e, f) = bind-some (step graph go dep w) (λ next. each graph go deps next) h in
      let (first, ends1) = step-IsLater dep w u e in
      let (rest, ends2) = each-IsLater deps u t f in
      (
        IsLater-trans w u t first rest,
        λ order fin n.
            let (g1, m1) = ends1 order fin (rest.cycles n) in
            let (g2, m2) = ends2 g1.longer g1.finished n in
            (
              record {
                longer = g2.longer;
                finished = g2.finished;
                kept = λ k i. g2.kept k (g1.kept k i);
              },
              ground (arith, in_order-kept g1.longer g2.longer dep g2.kept m1, m2),
            ),
      )

put-colored :
    (node : String) (c : Color) (k : String) (w : Walk)
    → Dict.has_key k w.color ≡ true
    → Dict.has_key k (Dict.put node c w.color) ≡ true
unfolding Dict.has_key
put-colored node c k w h = ground (arith, Dict.get-put node k c w.color)

enter-finished :
    (graph : Graph) (node : String) (w : Walk) (order : List String)
    → IsFinished graph w order
    → IsFinished graph (enter node w) order
unfolding enter
enter-finished graph node w order f = record {
  listed = λ k h. ground (arith, Dict.get-put node k grey w.color, f.listed k);
  ordered = f.ordered;
}

leave-finished :
    (graph : Graph) (node : String) (w : Walk) (order : List String)
    → IsFinished graph w order
    → all (in_order graph order) (or_nil (Dict.get node graph)) ≡ true
    → IsFinished graph (leave node w) (node ∷ order)
unfolding leave
leave-finished graph node w order f a = record {
  listed = λ k h.
      ground (arith, Dict.get-put node k black w.color, f.listed k, eq_iff node k, eq_iff k node);
  ordered = ground (arith, a, f.ordered);
}

around-IsLater : (node : String) (w t : Walk) → IsLater (enter node w) t → IsLater w (leave node t)
unfolding enter leave Dict.has_key
around-IsLater node w t l = record {
  still_grey = λ k h.
      let out = Dict.get-put node k black t.color in
      let back = Dict.get-put node k grey w.color in
      elim (Bool-cases (str_eq node k)) [
        | inl same ↦ (let c = rw same at out in cc)
        | inr other ↦ sym (rw other at back) ∙ l.still_grey k (sym (rw other at out) ∙ h)
      ];
  colored = λ k h. put-colored node black k t (l.colored k (put-colored node grey k w h));
  cycles = λ h. l.cycles h;
}

pub visit-good : (graph : Graph) (depth : ℕ) → Visits graph (visit graph depth)
unfolding visit
visit-good graph zero node w t h = cc
visit-good graph (suc depth) node w t h =
    let deps = or_nil (Dict.get node graph) in
    let (u, e, f) =
      bind-some (each graph (visit graph depth) (sorted deps) (enter node w))
        (λ done. some (leave node done)) h in
    let q : t ≡ leave node u = cc f in
    let (later, ends) =
      each-IsLater graph (visit graph depth) (visit-good graph depth) (sorted deps) (enter node w) u
        e in
    rw q (
      around-IsLater node w u later,
      λ order fin n.
          let (g, m) = ends order (enter-finished graph node w order fin) n in
          (
            record {
              longer = node ∷ g.longer;
              finished =
                  leave-finished graph node u g.longer g.finished
                    (sym (all-sorted (in_order graph g.longer) deps) ∙ m);
              kept = λ k i. ground (arith, g.kept k i);
            },
            ground (arith, eq_iff node node),
          ),
    )
