-- ===== src/Gates/Verdict.antt =====
-- scripts/pd_fleet/gates.py: which results a GatePolicy lets through.
use project_development_skil.Base.{Bool, true, false, ◌≡◌, ◌↔◌, refl, arith, if◌then◌else◌}
use project_development_skil.Dict
use project_development_skil.Dict.{Dict}
use project_development_skil.Gates.{
  GateStatus, GateResult, passed, pending, running, failed, blocked, passes_gate_contract, is_given,
  has_items, any_items, open_blocker,
}
use project_development_skil.Gates.Policy.{
  GatePolicy, default_policy, required, update, demands, awaits_human, judge, evaluate,
}

-- What the demands of a policy ask of a result
pub record IsMet (req : Dict Bool) (g : GateResult) : Type 0 where
  pub owner : demands "owner" req ≡ true → is_given g.owner ≡ true
  pub decision : demands "decision" req ≡ true → is_given g.decision ≡ true
  pub evidence : demands "evidence" req ≡ true → has_items g.evidence ≡ true
  pub reports : demands "reports" req ≡ true → has_items g.reports ≡ true
  pub blockers : demands "no_blockers" req ≡ true → any_items open_blocker g.blockers ≡ false

judge-passed_iff : (req : Dict Bool) (g : GateResult) → (judge req g ≡ passed) ↔ IsMet req g
unfolding judge
judge-passed_iff req g = (
  λ h. record {
    owner = λ d. ground arith;
    decision = λ d. ground arith;
    evidence = λ d. ground arith;
    reports = λ d. ground arith;
    blockers = λ d. ground arith;
  },
  λ m. ground (arith, m.owner, m.decision, m.evidence, m.reports, m.blockers),
)

module _ (p : GatePolicy) (g : GateResult) where
  evaluate-status : (st : GateStatus) → g.status ≡ st → evaluate p g ≡ passed → st ≡ passed
  unfolding evaluate
  evaluate-status passed e h = refl
  evaluate-status pending e h = (let n = rw (e, evaluate) at h in cc)
  evaluate-status running e h = (let n = rw (e, evaluate) at h in cc)
  evaluate-status failed e h = (let n = rw (e, evaluate) at h in ground arith)
  evaluate-status blocked e h = (let n = rw (e, evaluate) at h in ground arith)

  evaluate-judge :
      g.status ≡ passed
      → evaluate p g ≡ (if awaits_human g.decision then pending else judge (required p g) g)
  unfolding evaluate
  evaluate-judge e = rw (e, evaluate) refl

-- A policy lets a result through exactly when it is passed, its decision is not left to a person,
-- and each thing that the policy requires of its type is there.
pub evaluate-passed_iff :
    (p : GatePolicy) (g : GateResult)
    → (evaluate p g ≡ passed)
      ↔ ((g.status ≡ passed) × (awaits_human g.decision ≡ false) × IsMet (required p g) g)
evaluate-passed_iff p g =
    let j = judge-passed_iff (required p g) g in
    (
      λ h.
          let s = evaluate-status p g g.status refl h in
          let e = evaluate-judge p g s in
          let a : awaits_human g.decision ≡ false = ground (arith, e, h) in
          (s, a, j.0 (ground (arith, e, h, a))),
      λ (s, a, m). ground (arith, evaluate-judge p g s, a, j.1 m),
    )

-- With the default policy a result passes exactly when it is passed, its decision is not left to a
-- person, and it has what a passed result takes.
pub default-passed_iff :
    (g : GateResult)
    → (evaluate default_policy g ≡ passed)
      ↔ ((g.status ≡ passed) × (awaits_human g.decision ≡ false) × (passes_gate_contract g ≡ true))
unfolding required update demands passes_gate_contract Dict.get
default-passed_iff g =
    let d = evaluate-passed_iff default_policy g in
    (
      λ h.
          let (s, a, m) = d.0 h in
          (
            s,
            a,
            ground (
              arith,
              m.owner refl,
              m.decision refl,
              m.evidence refl,
              m.reports refl,
              m.blockers refl,
            ),
          ),
      λ (s, a, c). d.1 (
        s,
        a,
        record {
          owner = λ _. ground arith;
          decision = λ _. ground arith;
          evidence = λ _. ground arith;
          reports = λ _. ground arith;
          blockers = λ _. ground arith;
        },
      ),
    )
