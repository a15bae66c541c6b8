-- ===== src/Fallible.antt =====
-- Calls that give a value or raise an error of one class, which is `none`.
use project_development_skil.Base.{Bool, true, false, Option, none, some}

infixl 5 ◌>>=◌ ◌>>◌
abbrev pub ◌>>=◌ {ℓ κ} : {A : Type ℓ} {B : Type κ} → Option A → (A → Option B) → Option B
none >>= next = none
some result >>= next = next result

abbrev pub ◌>>◌ {ℓ} : {B : Type ℓ} → Option (Unit {0}) → Option B → Option B
first >> rest = first >>= λ _. rest

-- `if not test: raise error`
abbrev pub require : Bool → Option (Unit {0})
require true = some tt
require false = none
