-- ===== src/Store/Batch.antt =====
-- scripts/pd_fleet/run_store.py: `claim_many`, which reclaims expired leases and installs a bounded
-- batch of new ones under the lock. `secret n` is the value of the n-th call of
-- `secrets.token_hex(16)`.
use project_development_skil.Base.{
  ℕ, zero, suc, ◌+◌, ◌-◌, String, Bool, true, not, ◌&&◌, Option, none, some, List, [], ◌∷◌, ltb,
  leb, ◌==◌, str_eq, if◌then◌else◌, any, all, keep, is_none, length, ℤ,
}
use project_development_skil.Dict
use project_development_skil.Dict.{Dict}
use project_development_skil.Store.State.{Lease, Snapshot, Env, is_id}
use project_development_skil.Store.Disk.{
  Result, ok, err, run_store_error, lease_error, capacity_exceeded, Disk, ◌>>=◌, ◌>>◌, require,
  opened, save, stamped,
}
use project_development_skil.Store.Leases.{known, is_terminal, is_positive, plus_seconds, install}

abbrev pub mem : String → List String → Bool
mem k xs = any (str_eq k) xs

-- `len(set(xs)) == len(xs)`
unfoldable pub distinct : List String → Bool
distinct [] = true
distinct (x ∷ xs) = not (mem x xs) && distinct xs

abbrev pub take {ℓ} : {A : Type ℓ} → ℕ → List A → List A
take zero xs = []
take (suc n) [] = []
take (suc n) (x ∷ xs) = x ∷ take n xs

-- The leases that are left once the expired ones are dropped.
unfoldable pub reclaimed : ℕ → Snapshot → Snapshot
reclaimed now s = record s {
  leases = keep (λ (item : String × Lease). ltb now item.1.expires_at) s.leases;
}

-- The extension code that chooses, with the snapshot, the ids on offer, the free capacity and the
-- instant; without it the first ids on offer are taken.
abbrev pub Selector : Type 0
Selector = Snapshot → List String → ℕ → ℕ → Result (List String)

abbrev pub first_come : Selector
first_come s available capacity now = ok (take capacity available)

-- The ids that have no active lease
unfoldable pub on_offer : Snapshot → List String → List String
on_offer s ids = keep (λ tid. is_none (Dict.get tid s.leases)) ids

unfoldable pub acceptable : List String → ℕ → List String → Bool
unfolding distinct
acceptable available capacity chosen =
    leb (length chosen) capacity && (all (λ tid. mem tid available) chosen && distinct chosen)

-- The loop that installs the leases; the generation is that of the old snapshot throughout.
unfoldable pub install_all : (ℕ → String) → String → ℕ → ℕ → List String → Snapshot → Snapshot
unfolding install
install_all secret owner expiry n [] s = s
install_all secret owner expiry n (tid ∷ rest) s =
    install_all secret owner expiry (n + 1) rest (install tid owner (secret n) expiry s)

-- What `claim_many` writes, if anything, and the ids that it claimed.
pub record Batch : Type 0 where
  pub next : Option Snapshot
  pub claimed : List String

abbrev pub differs : Snapshot → Snapshot → Bool
differs s t = not (length s.leases == length t.leases)

-- Nothing was chosen: a snapshot is written only if a lease was reclaimed.
unfoldable pub settle :
    (ℕ → String) → String → ℕ → ℕ → ℤ → Snapshot → Snapshot → List String → Result Batch
unfolding plus_seconds install_all stamped
settle secret owner now stamp lease_seconds s t [] =
    ok (record { next = if differs s t then some (stamped now t) else none; claimed = [] })
settle secret owner now stamp lease_seconds s t (tid ∷ rest) = do
  expiry ← plus_seconds now lease_seconds
  ok (record {
    next = some (stamped stamp (install_all secret owner expiry 0 (tid ∷ rest) t));
    claimed = tid ∷ rest;
  })

-- Everything between the read and the write of the snapshot.
unfoldable pub batch_step :
    (ℕ → String) → List String → String → ℕ → ℤ → ℕ → ℕ → Selector → Snapshot → Result Batch
batch_step secret ids owner max_parallel lease_seconds now stamp select s = do
  require (all (λ tid. known tid s) ids) run_store_error
  require (not (any (λ tid. is_terminal tid s) ids)) run_store_error
  let t = reclaimed now s
  require (ltb (length t.leases) max_parallel) capacity_exceeded
  let capacity = max_parallel - length t.leases
  let available = on_offer t ids
  chosen ← select t available capacity now
  require (acceptable available capacity chosen) run_store_error
  settle secret owner now stamp lease_seconds s t chosen

abbrev pub written_if : Env → Disk → Option Snapshot → Disk
unfolding save
written_if env d none = d
written_if env d (some t) = (save env d (ok t)).1

unfoldable pub save_batch : Env → Disk → Result Batch → Result Batch × Disk
unfolding save
save_batch env d (ok b) = (ok b, written_if env d b.next)
save_batch env d (err e) = (err e, d)

unfoldable pub claim_many :
    Env
    → Disk
    → (ℕ → String)
    → List String
    → String
    → ℕ
    → ℤ
    → ℕ
    → ℕ
    → Selector
    → Result Batch × Disk
claim_many env d secret ids owner max_parallel lease_seconds now stamp select =
    if not (leb 1 max_parallel)
    then (err run_store_error, d)
    else if not (is_positive lease_seconds)
    then (err lease_error, d)
    else if not (all is_id ids && distinct ids)
    then (err run_store_error, d)
    else save_batch env d (do
      s ← opened env d owner none
      batch_step secret ids owner max_parallel lease_seconds now stamp select s)
