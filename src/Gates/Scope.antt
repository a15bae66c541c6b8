-- ===== src/Gates/Scope.antt =====
-- scripts/pd_fleet/gates.py: the canonical text of a scope, and the verdict of a HumanVerificationGate.
use Prim.Native.Char.{Char, code}
use Prim.Native.String.{◌++◌ as append}
use project_development_skil.Base.{
  ℕ, zero, suc, ◌+◌, ◌-◌, String, Bool, true, false, not, ◌&&◌, Option, none, some, List, [], ◌∷◌,
  leb, ltb, ◌==◌, str_eq, if◌then◌else◌, is_blank,
}
use project_development_skil.Scheduler.{str_leb}
use project_development_skil.Value.{
  Value, Fields, Items, null, boolean, number, string, arr, obj, end, field, nil, cons,
}
use project_development_skil.Gates.{
  GateStatus, pending, passed, blocked, safe, safe_list, open_blocker, any_items,
}
use project_development_skil.Gates.Human.{HumanGate, approved, rejected, undecided}

-- The decimal digits of a number, the last one first
increment : List ℕ → List ℕ
increment [] = 1 ∷ []
increment (d ∷ ds) = let rest = increment ds in if d == 9 then 0 ∷ rest else (d + 1) ∷ ds

digits : ℕ → List ℕ
unfolding increment
digits zero = 0 ∷ []
digits (suc n) = increment (digits n)

-- The character at a place of a text
char_at : ℕ → String → Char
char_at n String.[] = "?"
char_at zero (String.◌∷◌ c s) = c
char_at (suc n) (String.◌∷◌ c s) = char_at n s

hex_digit : ℕ → Char
unfolding char_at
hex_digit n = char_at n "0123456789abcdef"

-- The digits in reverse, before a text
spell : List ℕ → String → String
unfolding hex_digit
spell [] s = s
spell (d ∷ ds) s = spell ds (String.◌∷◌ (hex_digit d) s)

-- One character of a JSON text, without escapes of what is not ASCII
escaped : Char → String
unfolding hex_digit
escaped c =
    if code c == 34
    then "\\\""
    else if code c == 92
    then "\\\\"
    else if code c == 8
    then "\\b"
    else if code c == 9
    then "\\t"
    else if code c == 10
    then "\\n"
    else if code c == 12
    then "\\f"
    else if code c == 13
    then "\\r"
    else if ltb (code c) 16
    then append "\\u000" (String.◌∷◌ (hex_digit (code c)) "")
    else if ltb (code c) 32
    then append "\\u001" (String.◌∷◌ (hex_digit (code c - 16)) "")
    else String.◌∷◌ c ""

escape : String → String
unfolding escaped
escape String.[] = ""
escape (String.◌∷◌ c s) = append (escaped c) (escape s)

quoted : String → String
unfolding escape
quoted s = append "\"" (append (escape s) "\"")

-- json.dumps(value, separators=(",", ":"), ensure_ascii=False), of mappings whose keys are sorted
unfoldable mutual
  unfolding digits spell quoted

  pub dumps : Value → String
  dumps null = "null"
  dumps (boolean true) = "true"
  dumps (boolean false) = "false"
  dumps (number n) = spell (digits n) ""
  dumps (string s) = quoted s
  dumps (arr nil) = "[]"
  dumps (arr (cons v vs)) = append "[" (append (dumps v) (dumps_items vs))
  dumps (obj end) = "{}"
  dumps (obj (field k v fs)) =
      append "{" (append (quoted k) (append ":" (append (dumps v) (dumps_fields fs))))

  pub dumps_items : Items → String
  dumps_items nil = "]"
  dumps_items (cons v vs) = append "," (append (dumps v) (dumps_items vs))

  pub dumps_fields : Fields → String
  dumps_fields end = "}"
  dumps_fields (field k v fs) =
      append "," (append (quoted k) (append ":" (append (dumps v) (dumps_fields fs))))

-- Sorting: fields by key, items by their JSON text
unfoldable pub insert_field : String → Value → Fields → Fields
unfolding str_leb
insert_field k v end = field k v end
insert_field k v (field j w fs) =
    let rest = insert_field k v fs in
    if str_leb k j then field k v (field j w fs) else field j w rest

unfoldable pub insert_item : Value → Items → Items
unfolding str_leb dumps
insert_item v nil = cons v nil
insert_item v (cons w vs) =
    let rest = insert_item v vs in
    if str_leb (dumps v) (dumps w) then cons v (cons w vs) else cons w rest

unfoldable mutual
  unfolding insert_field insert_item

  pub normalize : Value → Value
  normalize null = null
  normalize (boolean b) = boolean b
  normalize (number n) = number n
  normalize (string s) = string s
  normalize (arr vs) = arr (normalize_items vs)
  normalize (obj fs) = obj (normalize_fields fs)

  pub normalize_items : Items → Items
  normalize_items nil = nil
  normalize_items (cons v vs) = insert_item (normalize v) (normalize_items vs)

  pub normalize_fields : Fields → Fields
  normalize_fields end = end
  normalize_fields (field k v fs) = insert_field k (normalize v) (normalize_fields fs)

-- _canonical_scope
unfoldable pub canonical_scope : Value → Option String
unfolding safe normalize dumps
canonical_scope v = elim (safe v) [ none ↦ none | some plain ↦ some (dumps (normalize plain)) ]

-- The arguments of `evaluate`, with the instant that it reads; `null` is None.
pub record Request : Type 0 where
  pub now : ℕ
  pub artifact_digest : Option String
  pub evidence_digest : Option String
  pub blockers : Value
  pub expected_run : Value
  pub expected_scope : Value

abbrev pub is_text : Value → String → Bool
is_text (string s) run = not (is_blank s) && str_eq run s
is_text _ run = false

abbrev pub is_null : Value → Bool
is_null null = true
is_null _ = false

abbrev pub texts_agree : Option String → Option String → Bool
texts_agree (some s) (some t) = str_eq s t
texts_agree _ _ = false

-- The run and the scope are those that the caller expects.
unfoldable pub in_scope : HumanGate → Request → Bool
unfolding canonical_scope is_blank
in_scope g r =
    is_text r.expected_run g.run
    && (not (is_null r.expected_scope)
        && texts_agree (canonical_scope g.scope) (canonical_scope r.expected_scope))

-- The blockers of the call, or else the gate's own
unfoldable pub current_blockers : HumanGate → Value → Option Items
unfolding safe_list
current_blockers g null = some g.blockers
current_blockers g v = safe_list v

-- A digest that is not given is the gate's own.
abbrev pub is_digest : Option String → String → Bool
is_digest none own = true
is_digest (some s) own = str_eq s own

-- datetime.max, 9999-12-31T23:59:59 in seconds from 0001-01-01
abbrev pub last_instant : ℕ
last_instant = 315537897599

-- The test of the freshness window: the sum raises OverflowError past the last instant.
abbrev pub within_window : HumanGate → Request → Option GateStatus
within_window g r =
    let expiry = g.updated_at + g.freshness_window in
    if ltb last_instant expiry then none else if leb r.now expiry then some passed else some pending

unfoldable pub decide : HumanGate → Request → Option GateStatus
decide g r = elim g.decision [
  | rejected ↦ some blocked
  | undecided ↦ some pending
  | approved ↦
      if is_digest r.artifact_digest g.artifact_digest
        && is_digest r.evidence_digest g.evidence_digest
      then within_window g r
      else some pending
]

-- HumanVerificationGate.evaluate; `none` stands for an exception
unfoldable pub evaluate : HumanGate → Request → Option GateStatus
unfolding in_scope current_blockers open_blocker decide
evaluate g r = if not (in_scope g r) then some pending else elim (current_blockers g r.blockers) [
  | none ↦ none
  | some blockers ↦ if any_items open_blocker blockers then some blocked else decide g r
]
