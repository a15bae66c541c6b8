-- ===== src/Gates/Roundtrip.antt =====
-- `from_dict` and `to_dict` of scripts/pd_fleet/gates.py: proofs.
use Prim.Native.Char.{code}
use project_development_skil.Base.{
  String, Bool, true, false, not, ◌&&◌, Option, none, some, ◌≡◌, refl, arith, Option-cases,
  Bool-cases, inl, inr, ◌∙◌, ap, is_nil, is_space, strip_left, strip_right, strip, is_blank,
}
use project_development_skil.Store.Batch.{mem}
use project_development_skil.Fallible.{require}
use project_development_skil.Value.{
  Value, Fields, Items, null, boolean, number, string, arr, obj, end, field, nil, cons, get,
}
use project_development_skil.Gates.{
  GateResult, gate_types, safe, safe_items, safe_fields, safe_list, references, all_items,
  is_reference, required_text, optional_text, status_of,
}
use project_development_skil.Gates.Results.{
  Given, normalised, honest, gate_result, from_dict, to_dict, given, or_null, fields,
}
use project_development_skil.Gates.Honest.{bind-some, status_of-value, gate_result-honest}

mutual
  unfolding safe safe_items safe_fields

  safe-same : (v : Value) {w : Value} → safe v ≡ some w → w ≡ v
  safe-same null h = cc
  safe-same (boolean b) h = cc
  safe-same (number n) h = cc
  safe-same (string s) h = cc
  safe-same (arr vs) h = elim (Option-cases (safe_items vs)) [
    | inl e ↦ (let n = rw e at h in cc)
    | inr (ws, e) ↦ (let q = safe_items-same vs e in let n = rw e at h in cc)
  ]
  safe-same (obj fs) h = elim (Option-cases (safe_fields fs)) [
    | inl e ↦ (let n = rw e at h in cc)
    | inr (gs, e) ↦ (let q = safe_fields-same fs e in let n = rw e at h in cc)
  ]

  safe_items-same : (vs : Items) {ws : Items} → safe_items vs ≡ some ws → ws ≡ vs
  safe_items-same nil h = cc
  safe_items-same (cons v vs) h = elim (Option-cases (safe v)) [
    | inl e ↦ (let n = rw e at h in cc)
    | inr (w, e) ↦ elim (Option-cases (safe_items vs)) [
      | inl f ↦ (let n = rw (e, f) at h in cc)
      | inr (ws, f) ↦
          (let n = rw (e, f) at h in let p = safe-same v e in let q = safe_items-same vs f in cc)
    ]
  ]

  safe_fields-same : (fs : Fields) {gs : Fields} → safe_fields fs ≡ some gs → gs ≡ fs
  safe_fields-same end h = cc
  safe_fields-same (field k v fs) h = elim (Option-cases (safe v)) [
    | inl e ↦ (let n = rw e at h in cc)
    | inr (w, e) ↦ elim (Option-cases (safe_fields fs)) [
      | inl f ↦ (let n = rw (e, f) at h in cc)
      | inr (gs, f) ↦
          (let n = rw (e, f) at h in
            let p = safe-same v e in
            let q = safe_fields-same fs f in
            elim (Bool-cases (is_nil k)) [
              | inl bad ↦ (let m = rw bad at n in cc)
              | inr good ↦ (let m = rw good at n in cc)
            ])
    ]
  ]

-- A text whose first character is no space
abbrev starts_clean : String → Bool
starts_clean String.[] = true
starts_clean (String.◌∷◌ c s) = not (is_space (code c))

strip_left-clean : (s : String) → starts_clean (strip_left s) ≡ true
unfolding strip_left
strip_left-clean String.[] = refl
strip_left-clean (String.◌∷◌ c s) = ground (arith, strip_left-clean s)

strip_right-clean : (s : String) → starts_clean s ≡ true → starts_clean (strip_right s) ≡ true
unfolding strip_right
strip_right-clean String.[] h = refl
strip_right-clean (String.◌∷◌ c s) h = let e : is_space (code c) ≡ false = ground arith in rw e h

clean-strip_left : (s : String) → starts_clean s ≡ true → strip_left s ≡ s
unfolding strip_left
clean-strip_left String.[] h = refl
clean-strip_left (String.◌∷◌ c s) h = ground arith

strip_right-strip_right : (s : String) → strip_right (strip_right s) ≡ strip_right s
unfolding strip_right
strip_right-strip_right String.[] = refl
strip_right-strip_right (String.◌∷◌ c s) =
    elim (Bool-cases (is_space (code c) && is_nil (strip_right s))) [
      | inl gone ↦ rw gone refl
      | inr kept ↦ rw kept (rw (strip_right-strip_right s, strip_right) (rw kept refl))
    ]

strip-strip : (s : String) → strip (strip s) ≡ strip s
unfolding strip
strip-strip s =
    rw
      (
        clean-strip_left (strip_right (strip_left s))
            (strip_right-clean (strip_left s) (strip_left-clean s)),
        strip_right-strip_right (strip_left s),
      )
      refl

required_text-fixed :
    (v : Value) {s : String} → required_text v ≡ some s → required_text (string s) ≡ some s
unfolding required_text is_blank
required_text-fixed (string t) {s} h = elim (Bool-cases (is_blank t)) [
  | inl bad ↦ (let n = rw bad at h in cc)
  | inr good ↦
      (let n = rw good at h in
        let q : s ≡ strip t = cc in
        let f : is_nil (strip t) ≡ false = ground arith in rw (q, strip-strip t, f) refl)
]
required_text-fixed _ h = cc

optional_text-fixed :
    (v : Value) {o : Option String} → optional_text v ≡ some o → optional_text (or_null o) ≡ some o
unfolding optional_text
optional_text-fixed null {o} h = (let q : o ≡ none = cc in rw q refl)
optional_text-fixed (string t) {o} h =
    let q : o ≡ some (strip t) = cc in rw q (rw (strip-strip t) refl)
optional_text-fixed _ h = cc

safe_items-fixed : (vs : Items) {ws : Items} → safe_items vs ≡ some ws → safe_items ws ≡ some ws
safe_items-fixed vs {ws} h = let q = safe_items-same vs h in rw q (h ∙ ap some q)

safe_list-fixed : (v : Value) {ws : Items} → safe_list v ≡ some ws → safe_list (arr ws) ≡ some ws
unfolding safe_list safe
safe_list-fixed null {ws} h = (let q : ws ≡ nil = cc in rw q refl)
safe_list-fixed (arr vs) h = safe_items-fixed vs h
safe_list-fixed _ h = cc

references-fixed : (v : Value) {ws : Items} → references v ≡ some ws → references (arr ws) ≡ some ws
unfolding references
references-fixed v {ws} h = elim (Option-cases (safe_list v)) [
  | inl e ↦ (let n = rw (e, references) at h in cc)
  | inr (us, e) ↦
      (let n = rw (e, references) at h in
        elim (Bool-cases (all_items is_reference us)) [
          | inl good ↦
              (let q : ws ≡ us = cc (rw good at n) in
                rw (q, safe_list-fixed v e, references) (rw good refl))
          | inr bad ↦ (let m = rw bad at n in cc)
        ])
]

some-same : {A : Type 0} {a b : A} → some a ≡ some b → b ≡ a
some-same h = cc

fields-fixed : (v : Value) {gs : Fields} → fields v ≡ some gs → fields (obj gs) ≡ some gs
unfolding fields
fields-fixed (obj fs) h = let q = safe_fields-same fs h in rw q (h ∙ ap some q)
fields-fixed _ h = cc

-- A result whose fields are read back as they are
record IsFixed (g : GateResult) : Type 0 where
  pub gate_id : required_text (string g.gate_id) ≡ some g.gate_id
  pub gate_type : required_text (string g.gate_type) ≡ some g.gate_type
  pub known : require (mem g.gate_type gate_types) ≡ some tt
  pub owner : optional_text (or_null g.owner) ≡ some g.owner
  pub decision : optional_text (or_null g.decision) ≡ some g.decision
  pub blockers : safe_list (arr g.blockers) ≡ some g.blockers
  pub evidence : references (arr g.evidence) ≡ some g.evidence
  pub reports : references (arr g.reports) ≡ some g.reports
  pub details : fields (obj g.details) ≡ some g.details

normalised-IsFixed : (v : Given) {g : GateResult} → normalised v ≡ some g → IsFixed g
unfolding normalised
normalised-IsFixed v {g} h =
    let (gate_id, e1, h1) = bind-some (required_text v.gate_id) _ h in
    let (gate_type, e2, h2) = bind-some (required_text v.gate_type) _ h1 in
    let (u, e3, h3) = bind-some (require (mem gate_type gate_types)) _ h2 in
    let (status, e4, h4) = bind-some (status_of v.status) _ h3 in
    let (owner, e5, h5) = bind-some (optional_text v.owner) _ h4 in
    let (decision, e6, h6) = bind-some (optional_text v.decision) _ h5 in
    let (blockers, e7, h7) = bind-some (safe_list v.blockers) _ h6 in
    let (evidence, e8, h8) = bind-some (references v.evidence) _ h7 in
    let (reports, e9, h9) = bind-some (references v.reports) _ h8 in
    let (details, e10, h10) = bind-some (fields v.details) _ h9 in
    let q : g ≡ (record {
      gate_id = gate_id;
      gate_type = gate_type;
      status = status;
      owner = owner;
      decision = decision;
      blockers = blockers;
      evidence = evidence;
      reports = reports;
      details = details;
    }) =
      some-same h10 in
    rw q (record {
      gate_id = required_text-fixed v.gate_id e1;
      gate_type = required_text-fixed v.gate_type e2;
      known = e3;
      owner = optional_text-fixed v.owner e5;
      decision = optional_text-fixed v.decision e6;
      blockers = safe_list-fixed v.blockers e7;
      evidence = references-fixed v.evidence e8;
      reports = references-fixed v.reports e9;
      details = fields-fixed v.details e10;
    })

fixed-from_dict : (g : GateResult) → IsFixed g → honest g ≡ true → from_dict (to_dict g) ≡ some g
unfolding from_dict to_dict gate_result normalised get
fixed-from_dict g f h =
    rw
      (
        f.gate_id,
        f.gate_type,
        f.known,
        status_of-value g.status,
        f.owner,
        f.decision,
        f.blockers,
        f.evidence,
        f.reports,
        f.details,
        h,
      )
      refl

-- A result that is read from data is read back, the same, from the mapping that it writes.
pub from_dict-to_dict :
    (v : Value) {g : GateResult} → from_dict v ≡ some g → from_dict (to_dict g) ≡ some g
unfolding from_dict
from_dict-to_dict (obj fs) {g} h =
    let (e, f) = gate_result-honest (given fs) h in
    fixed-from_dict g (normalised-IsFixed (given fs) e) f
from_dict-to_dict _ h = cc
