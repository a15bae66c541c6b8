-- ===== src/Store/Redact.antt =====
-- scripts/pd_fleet/run_store.py, `_redact`: the copy of a payload that is persisted. A value of the
-- model is a finite tree with text keys, so the errors on cycles, on other keys and on values that
-- are no JSON do not arise.
use project_development_skil.Base.{Bool, true, false, ◌≡◌, if◌then◌else◌}
use project_development_skil.Value.{
  Value, Items, Fields, null, boolean, number, string, arr, obj, nil, cons, end, field,
}
use project_development_skil.Store.State.{Env}

abbrev pub redacted : Value
redacted = string "[REDACTED]"

unfoldable mutual
  pub redact : Env → Value → Value
  redact env null = null
  redact env (boolean b) = boolean b
  redact env (number n) = number n
  redact env (string s) = string (env.scrub s)
  redact env (arr xs) = arr (redact_items env xs)
  redact env (obj fs) = obj (redact_fields env fs)

  pub redact_items : Env → Items → Items
  redact_items env nil = nil
  redact_items env (cons v vs) = cons (redact env v) (redact_items env vs)

  pub redact_fields : Env → Fields → Fields
  redact_fields env end = end
  redact_fields env (field k v fs) =
      field k (if env.sensitive k then redacted else redact env v) (redact_fields env fs)

-- Under a sensitive key stands the mark and nothing else, at every depth.
abbrev mutual
  pub IsClean : Env → Value → Type 0
  IsClean env (arr xs) = IsCleanItems env xs
  IsClean env (obj fs) = IsCleanFields env fs
  IsClean env _ = Unit

  pub IsCleanItems : Env → Items → Type 0
  IsCleanItems env nil = Unit
  IsCleanItems env (cons v vs) = IsClean env v × IsCleanItems env vs

  pub IsCleanFields : Env → Fields → Type 0
  IsCleanFields env end = Unit
  IsCleanFields env (field k v fs) =
      (env.sensitive k ≡ true → v ≡ redacted) × IsClean env v × IsCleanFields env fs

if-IsClean :
    (env : Env) (b : Bool) (v : Value) → IsClean env v → IsClean env (if b then redacted else v)
if-IsClean env true v h = tt
if-IsClean env false v h = h

mutual
  unfolding redact

  redact-IsClean : (env : Env) (v : Value) → IsClean env (redact env v)
  redact-IsClean env null = tt
  redact-IsClean env (boolean b) = tt
  redact-IsClean env (number n) = tt
  redact-IsClean env (string s) = tt
  redact-IsClean env (arr xs) = items-IsClean env xs
  redact-IsClean env (obj fs) = fields-IsClean env fs

  items-IsClean : (env : Env) (vs : Items) → IsCleanItems env (redact_items env vs)
  items-IsClean env nil = tt
  items-IsClean env (cons v vs) = (redact-IsClean env v, items-IsClean env vs)

  fields-IsClean : (env : Env) (fs : Fields) → IsCleanFields env (redact_fields env fs)
  fields-IsClean env end = tt
  fields-IsClean env (field k v fs) = (
    λ h. rw h,
    if-IsClean env (env.sensitive k) (redact env v) (redact-IsClean env v),
    fields-IsClean env fs,
  )

-- The copy of any mapping that is persisted has the mark, and nothing else, under every sensitive
-- key, however deep it stands.
pub redact_fields-IsClean : (env : Env) (fs : Fields) → IsCleanFields env (redact_fields env fs)
redact_fields-IsClean env fs = fields-IsClean env fs
