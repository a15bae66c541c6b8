-- ===== src/Value.antt =====
-- Decoded JSON: the `Any` payloads that scripts/pd_fleet/lifecycle.py, gates.py and run_store.py
-- inspect. A mapping is its list of items; `get` is `dict.get`. A number is a natural number.
use project_development_skil.Base.{
  ℕ, String, Bool, true, false, not, Option, none, some, str_eq, if◌then◌else◌, is_nil,
}

mutual
  pub data Value : Type 0 where
    null : Value
    boolean : Bool → Value
    number : ℕ → Value
    string : String → Value
    arr : Items → Value
    obj : Fields → Value

  pub data Fields : Type 0 where
    end : Fields
    field : String → Value → Fields → Fields

  pub data Items : Type 0 where
    nil : Items
    cons : Value → Items → Items

unfoldable pub get : String → Fields → Option Value
get k end = none
get k (field j v fs) = if str_eq j k then some v else get k fs

-- `k in mapping`, and `hasattr`
unfoldable pub present : String → Fields → Bool
present k end = false
present k (field j v fs) = if str_eq j k then true else present k fs

-- lifecycle._has: not None, and of positive length where it has a length.
unfoldable pub has : Value → Bool
has null = false
has (boolean b) = true
has (number n) = true
has (string s) = not (is_nil s)
has (arr nil) = false
has (arr (cons v vs)) = true
has (obj end) = false
has (obj (field k v fs)) = true

-- `_has(get(name))`, where a missing name reads as None.
unfoldable pub has_field : String → Fields → Bool
unfolding has get
has_field k fs = elim (get k fs) [ none ↦ false | some v ↦ has v ]
