-- ===== src/Gates/Honest.antt =====
-- GateResult of scripts/pd_fleet/gates.py: proofs on its transitions.
use project_development_skil.Base.{
  String, true, false, not, ◌&&◌, ◌||◌, Option, none, some, List, [], ◌∷◌, ◌≡◌, ◌≢◌, refl, arith,
  Option-cases, Bool-cases, inl, inr, ◌⊎◌, is_blank,
}
use project_development_skil.Fallible.{◌>>=◌}
use project_development_skil.Value.{Value, Fields, null, string, obj}
use project_development_skil.Gates.{
  GateStatus, GateResult, pending, running, passed, failed, blocked, allowed, passes_gate_contract,
  is_passed, is_given, value, of_value, status_of, required_text,
}
use project_development_skil.Gates.Results.{
  Given, normalised, honest, gate_result, from_dict, given, with_reason, move, transition, returned,
  raised, Call, is_final, with_field,
}

-- The calls of `transition`, each with its target and its reason
unfoldable pub transitions : List (Value × Value) → GateResult → GateResult
unfolding transition
transitions [] g = g
transitions ((target, reason) ∷ rest) g = transitions rest (transition target reason g).gate

pub bind-some {ℓ κ} :
    {A : Type ℓ} {B : Type κ} (o : Option A) (f : A → Option B) {b : B}
    → (o >>= f) ≡ some b
    → (a : A) × (o ≡ some a) × (f a ≡ some b)
bind-some none f h = cc
bind-some (some a) f h = (a, refl, h)

pub gate_result-honest :
    (v : Given) {g : GateResult}
    → gate_result v ≡ some g
    → (normalised v ≡ some g) × (honest g ≡ true)
unfolding gate_result
gate_result-honest v {g} h =
    let (a, e, f) = bind-some (normalised v) _ h in
    elim (Bool-cases (honest a)) [
      | inl good ↦ (let q : g ≡ a = cc (rw good at f) in rw q (e, good))
      | inr bad ↦ (let n = rw bad at f in cc)
    ]

from_dict-honest : (v : Value) {g : GateResult} → from_dict v ≡ some g → honest g ≡ true
unfolding from_dict
from_dict-honest (obj fs) h = (gate_result-honest (given fs) h).1
from_dict-honest _ h = cc

-- The end of a transition changes the details, or raises for a reason that is no text.
with_reason-cases :
    (reason : Value) (g : GateResult)
    → ((d : Fields) × (with_reason reason g ≡ returned (record g { details = d })))
      ⊎ ((with_reason reason g ≡ raised g) × (required_text reason ≡ none))
unfolding with_reason required_text
with_reason-cases null g = inl (g.details, refl)
with_reason-cases (string s) g = elim (Option-cases (required_text (string s))) [
  | inl e ↦ inr (rw (e, with_reason) refl, e)
  | inr (t, e) ↦ inl (with_field "reason" (string t) g.details, rw (e, with_reason) refl)
]
with_reason-cases _ g = inr (refl, refl)

-- A transition raises with nothing changed, or gets to its end with an honest status.
move-cases :
    (t : GateStatus) (reason : Value) (g : GateResult)
    → (move t reason g ≡ raised g)
      ⊎ ((allowed g.status t ≡ true)
          × (honest (record g { status = t }) ≡ true)
          × (move t reason g ≡ with_reason reason (record g { status = t })))
unfolding move honest passes_gate_contract
move-cases t reason g = elim (Bool-cases (allowed g.status t)) [
  | inr no_edge ↦ inl (rw no_edge refl)
  | inl edge ↦
      elim (Bool-cases (is_final t && (not (is_given g.owner) || not (is_given g.decision)))) [
        | inl nobody ↦ inl (rw (edge, nobody) refl)
        | inr somebody ↦ elim (Bool-cases (is_passed t && not (passes_gate_contract g))) [
          | inl empty_handed ↦ inl (rw (edge, somebody, empty_handed) refl)
          | inr fine ↦ inr (edge, ground arith, rw (edge, somebody, fine) refl)
        ]
      ]
]

-- How a transition can end.
pub data End (target reason : Value) (g : GateResult) : Call → Type 0 where
  refused : End target reason g (raised g)
  moved :
      (t : GateStatus) (d : Fields)
      → status_of target ≡ some t
      → allowed g.status t ≡ true
      → honest (record g { status = t }) ≡ true
      → End target reason g (returned (record g { status = t; details = d }))
  half_moved :
      (t : GateStatus)
      → status_of target ≡ some t
      → allowed g.status t ≡ true
      → honest (record g { status = t }) ≡ true
      → required_text reason ≡ none
      → End target reason g (raised (record g { status = t }))

move-End :
    (t : GateStatus) (target reason : Value) (g : GateResult)
    → status_of target ≡ some t
    → End target reason g (move t reason g)
move-End t target reason g s = elim (move-cases t reason g) [
  | inl e ↦ rw e refused
  | inr (edge, fine, e) ↦ elim (with_reason-cases reason (record g { status = t })) [
    | inl (d, f) ↦ rw (e, f) (moved t d s edge fine)
    | inr (f, bad) ↦ rw (e, f) (half_moved t s edge fine bad)
  ]
]

pub transition-End :
    (target reason : Value) (g : GateResult) → End target reason g (transition target reason g)
unfolding transition
transition-End target reason g = elim (Option-cases (status_of target)) [
  | inl e ↦ rw (e, transition) refused
  | inr (t, e) ↦ rw (e, transition) (move-End t target reason g e)
]

End-honest :
    (target reason : Value) (g : GateResult) (c : Call)
    → End target reason g c
    → honest g ≡ true
    → honest c.gate ≡ true
unfolding honest passes_gate_contract
End-honest target reason g _ refused h = h
End-honest target reason g _ (moved t d s edge fine) h = fine
End-honest target reason g _ (half_moved t s edge fine bad) h = fine

transitions-honest :
    (calls : List (Value × Value)) (g : GateResult)
    → honest g ≡ true
    → honest (transitions calls g) ≡ true
unfolding transitions
transitions-honest [] g h = h
transitions-honest ((target, reason) ∷ calls) g h =
    transitions-honest calls (transition target reason g).gate
      (End-honest target reason g _ (transition-End target reason g) h)

-- A result that is read from data is, after any transitions, failing ones included, never passed
-- without an owner, a decision, evidence, reports and the absence of open blockers.
pub read-transitions-honest :
    (v : Value) (calls : List (Value × Value)) {g : GateResult}
    → from_dict v ≡ some g
    → (transitions calls g).status ≡ passed
    → passes_gate_contract (transitions calls g) ≡ true
unfolding honest
read-transitions-honest v calls {g} h p =
    let e = transitions-honest calls g (from_dict-honest v h) in ground (arith, e, p)

-- What a call leaves that raised after it had changed the status
abbrev pub HalfMoved : Value → Value → GateResult → GateResult → Type 0
HalfMoved target reason g after =
    (t : GateStatus) × (status_of target ≡ some t)
    × (allowed g.status t ≡ true)
    × (g.status ≢ t)
    × (after ≡ record g { status = t })
    × (required_text reason ≡ none)

pub status_of-value : (t : GateStatus) → status_of (string (value t)) ≡ some t
unfolding status_of of_value
status_of-value pending = refl
status_of-value running = refl
status_of-value passed = refl
status_of-value failed = refl
status_of-value blocked = refl

early-move :
    (t : GateStatus) (reason : Value) (g : GateResult)
    → allowed g.status t ≡ true
    → is_final t ≡ false
    → move t reason g ≡ with_reason reason (record g { status = t })
unfolding move
early-move pending reason g edge early = rw edge refl
early-move running reason g edge early = rw edge refl
early-move blocked reason g edge early = rw edge refl
early-move passed reason g edge early = cc
early-move failed reason g edge early = cc

blank-text : (s : String) → is_blank s ≡ true → required_text (string s) ≡ none
unfolding required_text
blank-text s h = rw h refl

-- With an allowed target that asks for nothing more, a blank reason raises after the status was set.
pub transition-half_moved :
    (t : GateStatus) (reason : String) (g : GateResult)
    → allowed g.status t ≡ true
    → is_final t ≡ false
    → is_blank reason ≡ true
    → transition (string (value t)) (string reason) g ≡ raised (record g { status = t })
unfolding transition with_reason required_text
transition-half_moved t reason g edge early blank =
    rw (status_of-value t, transition, early-move t (string reason) g edge early)
      (rw (blank-text reason blank, with_reason) refl)
