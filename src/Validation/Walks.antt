-- ===== src/Validation/Walks.antt =====
-- scripts/pd_fleet/validation.py: proofs on the loop of `validate_dag` over the nodes.
use project_development_skil.Base.{
  ℕ, String, true, Option, none, some, List, [], ◌∷◌, ◌≡◌, ◌≢◌, if◌then◌else◌, refl, arith, all,
  is_empty, Bool-cases, inl, inr,
}
use project_development_skil.Dict
use project_development_skil.Dict.{Dict}
use project_development_skil.Gates.Honest.{bind-some}
use project_development_skil.Store.Batch.{mem}
use project_development_skil.Validation.{Graph, Color, Walk, grey, black, visit, visit_all}
use project_development_skil.Validation.Acyclic.{
  IsFinished, IsLater, IsLater-refl, IsLater-trans, Goes, stay, visit-good,
}

unfoldable pub IsUngrey : Walk → Type 0
IsUngrey w = (k : String) → Dict.get k w.color ≢ some grey

colored-listed :
    (graph : Graph) (w : Walk) (order : List String) (k : String) (o : Option Color)
    → IsFinished graph w order
    → IsUngrey w
    → Dict.has_key k w.color ≡ true
    → Dict.get k w.color ≡ o
    → mem k order ≡ true
unfolding Dict.has_key IsUngrey
colored-listed graph w order k none f u h e = absurd (ground (arith, h, e))
colored-listed graph w order k (some grey) f u h e = absurd (u k e)
colored-listed graph w order k (some black) f u h e = f.listed k e

-- What a walk of some nodes promises, from a walk in which no node is grey
abbrev pub Walks : Graph → List String → Walk → Walk → Type 0
Walks graph nodes w t =
    (order : List String)
    → IsFinished graph w order
    → IsUngrey w
    → is_empty t.cycles ≡ true
    → (g : Goes graph order t) × (all (λ k. mem k g.longer) nodes ≡ true)

first-IsLater :
    (graph : Graph) (depth : ℕ) (node : String) (w t : Walk)
    → (if Dict.has_key node w.color then some w else visit graph depth node w) ≡ some t
    → IsLater w t × Walks graph (node ∷ []) w t
first-IsLater graph depth node w t h = elim (Bool-cases (Dict.has_key node w.color)) [
  | inl known ↦
      (let q : t ≡ w = cc (rw known at h) in
        rw q (
          IsLater-refl w,
          λ order f u n. (
            stay graph order w f,
            ground
                (arith, colored-listed graph w order node (Dict.get node w.color) f u known refl),
          ),
        ))
  | inr new ↦
      (let e : visit graph depth node w ≡ some t = rw new at h in
        let (later, ends) = visit-good graph depth node w t e in
        (later, λ order f u n. let (g, m) = ends order f n in (g, ground (arith, m))))
]

all-kept :
    (older longer nodes : List String)
    → ((k : String) → mem k older ≡ true → mem k longer ≡ true)
    → all (λ k. mem k older) nodes ≡ true
    → all (λ k. mem k longer) nodes ≡ true
all-kept older longer [] f h = refl
all-kept older longer (k ∷ ks) f h = ground (arith, f k, all-kept older longer ks f)

pub visit_all-Walks :
    (graph : Graph) (depth : ℕ) (nodes : List String) (w t : Walk)
    → visit_all graph depth nodes w ≡ some t
    → IsLater w t × Walks graph nodes w t
unfolding visit_all IsUngrey
visit_all-Walks graph depth [] w t h =
    let q : t ≡ w = cc in rw q (IsLater-refl w, λ order f u n. (stay graph order w f, refl))
visit_all-Walks graph depth (node ∷ nodes) w t h =
    let (u, e, f) =
      bind-some (if Dict.has_key node w.color then some w else visit graph depth node w)
        (λ next. visit_all graph depth nodes next) h in
    let (first, ends1) = first-IsLater graph depth node w u e in
    let (rest, ends2) = visit_all-Walks graph depth nodes u t f in
    (
      IsLater-trans w u t first rest,
      λ order fin ungrey n.
          let (g1, m1) = ends1 order fin ungrey (rest.cycles n) in
          let (g2, m2) = ends2 g1.longer g1.finished (λ k i. ungrey k (first.still_grey k i)) n in
          (
            record {
              longer = g2.longer;
              finished = g2.finished;
              kept = λ k i. g2.kept k (g1.kept k i);
            },
            ground (arith, all-kept g1.longer g2.longer (node ∷ []) g2.kept m1, m2),
          ),
    )
