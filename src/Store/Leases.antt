-- ===== src/Store/Leases.antt =====
-- scripts/pd_fleet/run_store.py: `claim`, `use`, `renew`, and the token that fences them; the
-- scheduler's `release`. `now` is the instant that the call samples under the lock, `stamp` the one
-- at which `_mutate` writes, `secret` the value of `secrets.token_hex(16)`.
use project_development_skil.Base.{
  ℕ, zero, suc, ◌+◌, String, Bool, true, false, not, ◌&&◌, ◌||◌, Option, none, some, ltb, ◌==◌,
  str_eq, any, ℤ, pos, negsuc, if◌then◌else◌,
}
use project_development_skil.Dict
use project_development_skil.Dict.{Dict}
use project_development_skil.Store.State.{
  Status, PlanTask, Lease, Token, ReportRecord, Snapshot, Env, is_id, is_terminal_task,
}
use project_development_skil.Store.Disk.{
  Result, ok, err, run_store_error, lease_error, path_containment, Disk, ◌>>=◌, ◌>>◌, require,
  opened, mutate,
}

-- _plus_seconds, for whole microseconds: a duration that is not positive is refused. The code takes
-- fractions too, and rounds them after the test.
unfoldable pub plus_seconds : ℕ → ℤ → Result ℕ
plus_seconds now (pos zero) = err lease_error
plus_seconds now (pos (suc n)) = ok (now + suc n)
plus_seconds now (negsuc n) = err lease_error

-- `task_id in {item.get("id") for item in plan["tasks"]}`
unfoldable pub known : String → Snapshot → Bool
known task_id s = any (λ (t : PlanTask). str_eq t.id task_id) s.plan

abbrev terminal_status : Option Status → Bool
terminal_status none = false
terminal_status (some status) = is_terminal_task status

abbrev terminal_report : Option ReportRecord → Bool
terminal_report none = false
terminal_report (some r) = is_terminal_task r.status

-- The task's own status or its report's is terminal.
unfoldable pub is_terminal : String → Snapshot → Bool
is_terminal task_id s =
    terminal_status (Dict.get task_id s.tasks) || terminal_report (Dict.get task_id s.reports)

abbrev pub count_or : ℕ → Option ℕ → ℕ
count_or n none = n
count_or n (some k) = k

-- A lease that has not expired at `now`
abbrev pub is_active : ℕ → Option Lease → Bool
is_active now none = false
is_active now (some lease) = ltb now lease.expires_at

-- One more lease and one more attempt
unfoldable pub install : String → String → String → ℕ → Snapshot → Snapshot
install task_id owner secret expiry s = record s {
  leases =
      Dict.put task_id
        (record {
          owner = owner;
          lease_id = secret;
          expires_at = expiry;
          generation = s.generation + 1;
        })
        s.leases;
  attempts = Dict.put task_id (count_or 0 (Dict.get task_id s.attempts) + 1) s.attempts;
}

-- The callback of `claim`.
unfoldable pub claim_step : String → String → ℕ → ℤ → String → Snapshot → Result Snapshot
unfolding known is_terminal plus_seconds install
claim_step task_id owner now lease_seconds secret s = do
  require (known task_id s) run_store_error
  require (not (is_terminal task_id s)) run_store_error
  require (not (is_active now (Dict.get task_id s.leases))) lease_error
  expiry ← plus_seconds now lease_seconds
  ok (install task_id owner secret expiry s)

unfoldable pub claim :
    Env → Disk → String → String → ℤ → Option ℕ → ℕ → ℕ → String → Result Snapshot × Disk
unfolding claim_step mutate
claim env d task_id owner lease_seconds expected now stamp secret =
    if not (is_id task_id)
    then (err path_containment, d)
    else mutate env d owner expected stamp (claim_step task_id owner now lease_seconds secret)

-- The token that `claim` and `renew` return for the lease of a task.
unfoldable pub token_of : String → Snapshot → Option Token
token_of task_id s = elim (Dict.get task_id s.leases) [
  | none ↦ none
  | some lease ↦ some (record {
    run_id = s.run_id;
    task_id = task_id;
    lease_id = lease.lease_id;
    generation = lease.generation;
    expires_at = lease.expires_at;
  })
]

-- _validate_token_shape, on a token with its five fields
unfoldable pub token_shaped : String → Token → Snapshot → Bool
token_shaped task_id token s = str_eq token.run_id s.run_id && str_eq token.task_id task_id

-- The lease is the token's, and has not expired.
abbrev pub is_lease_of : Token → ℕ → Option Lease → Bool
is_lease_of token now none = false
is_lease_of token now (some lease) =
    str_eq lease.lease_id token.lease_id
    && (lease.generation == token.generation
        && (lease.expires_at == token.expires_at && ltb now lease.expires_at))

-- _check_token; the test that raises on failure
unfoldable pub check_token : String → Token → ℕ → Snapshot → Bool
unfolding token_shaped
check_token task_id token now s =
    token_shaped task_id token s && is_lease_of token now (Dict.get task_id s.leases)

unfoldable pub use_lease : Env → Disk → String → Token → String → ℕ → Result Snapshot
unfolding opened check_token
use_lease env d task_id token owner now = do
  s ← opened env d owner none
  require (check_token task_id token now s) lease_error
  ok s

abbrev pub relet : String → String → ℕ → Option Lease → Snapshot → Snapshot
relet task_id secret expiry none s = s
relet task_id secret expiry (some lease) s = record s {
  leases =
      Dict.put task_id
        (record lease { lease_id = secret; expires_at = expiry; generation = s.generation + 1 })
        s.leases;
}

-- The callback of `renew`.
unfoldable pub renew_step : String → Token → ℕ → ℤ → String → Snapshot → Result Snapshot
unfolding check_token plus_seconds
renew_step task_id token now lease_seconds secret s = do
  require (check_token task_id token now s) lease_error
  expiry ← plus_seconds now lease_seconds
  ok (relet task_id secret expiry (Dict.get task_id s.leases) s)

abbrev pub is_positive : ℤ → Bool
is_positive (pos zero) = false
is_positive (pos (suc n)) = true
is_positive (negsuc n) = false

unfoldable pub renew :
    Env → Disk → String → Token → String → ℤ → ℕ → ℕ → String → Result Snapshot × Disk
unfolding renew_step mutate
renew env d task_id token owner lease_seconds now stamp secret =
    if not (is_positive lease_seconds)
    then (err lease_error, d)
    else mutate env d owner none stamp (renew_step task_id token now lease_seconds secret)

-- The callback of LeaseScheduler.release.
unfoldable pub release_step : String → Token → ℕ → Snapshot → Result Snapshot
unfolding check_token
release_step task_id token now s = do
  require (check_token task_id token now s) lease_error
  ok (record s { leases = Dict.pop task_id s.leases })

unfoldable pub release : Env → Disk → Token → String → ℕ → ℕ → Result Snapshot × Disk
unfolding release_step mutate
release env d token owner now stamp =
    mutate env d owner none stamp (release_step token.task_id token now)
