-- ===== src/Store/Disk.antt =====
-- scripts/pd_fleet/run_store.py: the two files of a run, `_valid_snapshot`, `load`, `_write` and
-- `_mutate`. One run is modelled, under the store's lock, so the calls follow one another.
use project_development_skil.Base.{
  ℕ, ◌+◌, String, Bool, true, false, not, Option, none, some, List, [], ◌∷◌, ltb, ◌==◌, str_eq,
  if◌then◌else◌, is_some, ◌≡◌, ◌⊎◌, inl, inr, refl,
}
use project_development_skil.Store.State.{Snapshot, Env}
use project_development_skil.Store.Validate.{validate}

-- The exception classes, those of scheduler.py included. A RunStoreError with the text "bounded
-- capacity exceeded", which the scheduler looks for, is `capacity_exceeded` as well.
pub data StoreError : Type 0 where
  run_store_error run_not_found owner_mismatch generation_conflict lease_error : StoreError
  duplicate_commit path_containment corrupt_snapshot : StoreError
  capacity_exceeded ownership_conflict scheduler_error : StoreError

pub data Result {ℓ} (A : Type ℓ) : Type ℓ where
  ok : A → Result A
  err : StoreError → Result A

infixl 5 ◌>>=◌ ◌>>◌
abbrev pub ◌>>=◌ {ℓ κ} : {A : Type ℓ} {B : Type κ} → Result A → (A → Result B) → Result B
err e >>= next = err e
ok result >>= next = next result

abbrev pub ◌>>◌ {ℓ} : {B : Type ℓ} → Result (Unit {0}) → Result B → Result B
first >> rest = first >>= λ _. rest

-- `if not test: raise error`
abbrev pub require : Bool → StoreError → Result (Unit {0})
require true e = ok tt
require false e = err e

-- A file that is not there, one that cannot be read as a snapshot, or what it holds.
pub data Slot : Type 0 where
  absent corrupt : Slot
  stored : Snapshot → Slot

-- snapshot.json and snapshot.json.bak
pub record Disk : Type 0 where
  pub primary : Slot
  pub backup : Slot

unfoldable pub candidate : Env → Slot → Option Snapshot
candidate env (stored s) = if validate env s then some s else none
candidate env _ = none

-- `max(found, key=generation)`: the first of equal ones, which is the primary
unfoldable pub newer : Option Snapshot → Option Snapshot → Option Snapshot
newer none b = b
newer (some a) none = some a
newer (some a) (some b) = if ltb a.generation b.generation then some b else some a

-- _valid_snapshot
unfoldable pub current : Env → Disk → Option Snapshot
unfolding candidate newer
current env d = newer (candidate env d.primary) (candidate env d.backup)

abbrev exists : Slot → Bool
exists absent = false
exists _ = true

unfoldable pub load : Env → Disk → Result Snapshot
unfolding current
load env d = elim (current env d) [
  | some s ↦ ok s
  | none ↦
      if exists d.primary
      then err corrupt_snapshot
      else if exists d.backup
      then err corrupt_snapshot
      else err run_not_found
]

-- `_write` renames the old primary to the backup, if it is a valid snapshot, and then the new file
-- to the primary. The disks after each rename, from the first one on.
unfoldable pub backed_up : Env → Disk → Disk
unfolding candidate
backed_up env d = if is_some (candidate env d.primary) then record d { backup = d.primary } else d

unfoldable pub write : Env → Disk → Snapshot → Disk
unfolding backed_up
write env d s = record (backed_up env d) { primary = stored s }

-- What a crash at any point of `_write` can leave.
unfoldable pub write_phases : Env → Disk → Snapshot → List Disk
unfolding backed_up write
write_phases env d s = d ∷ backed_up env d ∷ write env d s ∷ []

-- `expected_generation is not None and state["generation"] != expected_generation`
abbrev pub conflicts : Option ℕ → ℕ → Bool
conflicts none generation = false
conflicts (some expected) generation = not (generation == expected)

-- The checks with which `_mutate`, `use`, `commit` and `claim_many` begin.
unfoldable pub opened : Env → Disk → String → Option ℕ → Result Snapshot
opened env d owner expected = elim (current env d) [
  | none ↦ err run_not_found
  | some s ↦
      if not (str_eq s.owner owner)
      then err owner_mismatch
      else if conflicts expected s.generation
      then err generation_conflict
      else ok s
]

unfoldable pub stamped : ℕ → Snapshot → Snapshot
stamped now s = record s { generation = s.generation + 1; updated_at = now }

-- A snapshot to be written, or an error, which leaves the disk alone.
unfoldable pub save : Env → Disk → Result Snapshot → Result Snapshot × Disk
save env d (ok s) = (ok s, write env d s)
save env d (err e) = (err e, d)

unfoldable pub mutate :
    Env → Disk → String → Option ℕ → ℕ → (Snapshot → Result Snapshot) → Result Snapshot × Disk
unfolding opened save
mutate env d owner expected now fn =
    save env d (do s ← opened env d owner expected; t ← fn s; ok (stamped now t))

pub Result-cases {ℓ} :
    {A : Type ℓ} (r : Result A) → ((a : A) × (r ≡ ok a)) ⊎ ((e : StoreError) × (r ≡ err e))
Result-cases (ok a) = inl (a, refl)
Result-cases (err e) = inr (e, refl)
