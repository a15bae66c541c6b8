-- ===== src/Lifecycle/Gates.antt =====
-- scripts/pd_fleet/lifecycle.py, GatePolicy: the gates that hold a pending task back. The gates are
-- given as a mapping from ids; a gate is a mapping, or an object read by its attributes.
use Prim.Native.Char.{Char, code}
use text.Mathlib.TextLemmas.{cons-append}
use project_development_skil.Base.{
  String, Bool, true, false, not, ◌&&◌, ◌||◌, Option, none, some, List, [], ◌∷◌, ◌≡◌, ◌↔◌, refl,
  arith, str_eq, if◌then◌else◌, all, keep, keep-All, ap, All, ◌≢◌, eq_iff, is_blank, is_nil,
  is_space, join,
}
use Prim.Native.String.{◌++◌ as append}
use project_development_skil.Value.{Value, Fields, null, string, obj, get, present, has_field}
use project_development_skil.Lifecycle.{
  TaskLifecycle, Call, mark_ready, block, pending, ready, blocked,
}

pub record GatePolicy : Type 0 where
  pub required : List String

-- `bool(x)` of an id; numbers are not used as ids
abbrev is_id : Value → Bool
is_id (string s) = not (is_nil s)
is_id _ = false

abbrev id_of : Value → String
id_of (string s) = s
id_of _ = ""

-- gate.get("id", gate.get("gate_id"))
abbrev or_else : Option Value → Option Value → Value
or_else (some v) w = v
or_else none (some w) = w
or_else none none = null

-- from_gates, for mappings whose ids are text
unfoldable pub from_gates : List Fields → List String
unfolding get
from_gates [] = []
from_gates (g ∷ gs) =
    let rest = from_gates gs in
    let gate_id : Value = or_else (get "id" g) (get "gate_id" g) in
    if is_id gate_id then id_of gate_id ∷ rest else rest

abbrev is_text : Option Value → String → Bool
is_text (some (string s)) t = str_eq s t
is_text _ t = false

-- A contract field that is supplied must not be empty.
abbrev supplied : String → Fields → Bool
supplied name g = not (present name g) || has_field name g

unfoldable pub passed : Value → Bool
passed (obj g) =
    is_text (get "status" g) "passed"
    && (supplied "evidence" g
        && (supplied "owner" g
            && (supplied "decision" g && not (present "blockers" g && has_field "blockers" g))))
passed _ = false

unfoldable pub lookup : String → List (String × Value) → Value
lookup k [] = null
lookup k ((j, v) ∷ gs) = if str_eq j k then v else lookup k gs

unfoldable pub allows : GatePolicy → List (String × Value) → Bool
allows p gates = all (λ k. passed (lookup k gates)) p.required

unfoldable pub blocked_by : GatePolicy → List (String × Value) → List String
blocked_by p gates = keep (λ k. not (passed (lookup k gates))) p.required

-- The call raises what `mark_ready` or `block` raises.
unfoldable pub require_ready : GatePolicy → TaskLifecycle → List (String × Value) → Call
unfolding mark_ready block
require_ready p s gates = elim s.state [
  | pending ↦
      if allows p gates
      then mark_ready s
      else block s (append "gate: " (join ", " (blocked_by p gates)))
  | _ ↦ (s, none)
]

keep-none {ℓ} :
    {A : Type ℓ} (p : A → Bool) (xs : List A) → (all p xs ≡ true) ↔ (keep (λ x. not (p x)) xs ≡ [])
keep-none p [] = (λ _. refl, λ _. refl)
keep-none p (x ∷ xs) = ground (arith, keep-none p xs)

is_text→ : (o : Option Value) (t : String) → is_text o t ≡ true → o ≡ some (string t)
is_text→ (some (string s)) t h = ap (λ u. some (string u)) ((eq_iff s t).0 h)
is_text→ (some null) t h = cc
is_text→ _ t h = cc

not-blank : (c : Char) (s : String) → is_space (code c) ≡ false → is_blank (String.◌∷◌ c s) ≡ false
unfolding is_blank
not-blank c s h = rw h (rw h)

gate_reason : (s : String) → is_blank (append "gate: " s) ≡ false
unfolding is_space
gate_reason s = rw (cons-append "g" "ate: " s) (not-blank "g" (append "ate: " s) refl)

-- A policy lets a task through exactly when no required gate blocks it, and every gate that it
-- names as blocking is missing or has not passed.
pub allows_iff :
    (p : GatePolicy) (gates : List (String × Value))
    → ((allows p gates ≡ true) ↔ (blocked_by p gates ≡ []))
      × All (λ k. not (passed (lookup k gates)) ≡ true) (blocked_by p gates)
unfolding allows blocked_by
allows_iff p gates = (keep-none _ p.required, keep-All _ p.required)

-- `require_ready` never raises. A pending task becomes ready when every required gate passes, and
-- is blocked, with the blocking gates in its reason, when one does not. Any other task is left
-- as it was.
pub require_ready_lem :
    (p : GatePolicy) (s : TaskLifecycle) (gates : List (String × Value))
    → ((require_ready p s gates).1 ≡ none)
      × (s.state ≡ pending → allows p gates ≡ true → (require_ready p s gates).0.state ≡ ready)
      × (s.state ≡ pending
          → allows p gates ≡ false
          → ((require_ready p s gates).0.state ≡ blocked)
            × ((require_ready p s gates).0.reason
                ≡ some (append "gate: " (join ", " (blocked_by p gates)))))
      × (s.state ≢ pending → (require_ready p s gates).0 ≡ s)
unfolding require_ready
require_ready_lem p s gates = ground (arith, gate_reason (join ", " (blocked_by p gates)))

-- A gate passes only with the status "passed"; supplied evidence, owner and decision are not
-- empty, and supplied blockers are.
pub passed_requires :
    (g : Fields)
    → passed (obj g) ≡ true
    → (get "status" g ≡ some (string "passed"))
      × (present "evidence" g ≡ true → has_field "evidence" g ≡ true)
      × (present "owner" g ≡ true → has_field "owner" g ≡ true)
      × (present "decision" g ≡ true → has_field "decision" g ≡ true)
      × (present "blockers" g ≡ true → has_field "blockers" g ≡ false)
unfolding passed
passed_requires g h = ground (arith, is_text→ (get "status" g) "passed")
