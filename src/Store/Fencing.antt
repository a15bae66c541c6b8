-- ===== src/Store/Fencing.antt =====
-- Leases: who gets one, what its token is good for, and what makes it useless.
use project_development_skil.Base.{
  ℕ, ◌+◌, ◌<◌, String, true, false, none, some, ◌≡◌, ◌≢◌, refl, ap, arith, eq_iff, ℤ,
}
use project_development_skil.Dict
use project_development_skil.Dict.{get-put, get-put_self, get-pop}
use project_development_skil.Value.{Fields}
use project_development_skil.Store.State.{
  Snapshot, Token, Lease, Env, Status, ReportRecord, status_name,
}
use project_development_skil.Store.Disk.{ok}
use project_development_skil.Store.Leases.{
  claim_step, renew_step, token_of, check_token, token_shaped, is_active, known, is_terminal,
  install, relet, count_or,
}
use project_development_skil.Store.Inversion.{claim_step-Claimed, renew_step-relet}
use project_development_skil.Store.Refinement.Writes.{commit_step-written}
use project_development_skil.Store.Commits.{commit_step, recorded, written, replayed}

-- The lease that `install` puts.
abbrev leased : String → String → ℕ → Snapshot → Lease
leased owner secret expiry s = record {
  owner = owner;
  lease_id = secret;
  expires_at = expiry;
  generation = s.generation + 1;
}

installed_lease :
    (task_id owner secret : String) (expiry : ℕ) (s : Snapshot)
    → Dict.get task_id (install task_id owner secret expiry s).leases
      ≡ some (leased owner secret expiry s)
unfolding install
installed_lease task_id owner secret expiry s =
    get-put_self task_id (leased owner secret expiry s) s.leases

installed_attempts :
    (task_id owner secret : String) (expiry : ℕ) (s : Snapshot)
    → Dict.get task_id (install task_id owner secret expiry s).attempts
      ≡ some (count_or 0 (Dict.get task_id s.attempts) + 1)
unfolding install
installed_attempts task_id owner secret expiry s =
    get-put_self task_id (count_or 0 (Dict.get task_id s.attempts) + 1) s.attempts

installed_others :
    (task_id owner secret : String) (expiry : ℕ) (s : Snapshot) (k : String)
    → k ≢ task_id
    → Dict.get k (install task_id owner secret expiry s).leases ≡ Dict.get k s.leases
unfolding install
installed_others task_id owner secret expiry s k ne =
    ground (arith, get-put task_id k (leased owner secret expiry s) s.leases, eq_iff task_id k)

-- A token is good as long as its lease stands and has not expired.
token_good :
    (task_id : String) (u : Snapshot) (lease : Lease) {token : Token} (n : ℕ)
    → Dict.get task_id u.leases ≡ some lease
    → token_of task_id u ≡ some token
    → (token.expires_at ≡ lease.expires_at)
      × (token.lease_id ≡ lease.lease_id)
      × (n < token.expires_at → check_token task_id token n u ≡ true)
unfolding token_of check_token
token_good task_id u lease {token} n h k = ground (
  arith,
  eq_iff token.run_id u.run_id,
  eq_iff token.task_id task_id,
  eq_iff lease.lease_id token.lease_id,
)

module _ (task_id owner : String) (now : ℕ) (seconds : ℤ) (secret : String) (s : Snapshot) where
  -- A claim that succeeds found a known task that is not terminal and has no active lease. It
  -- counts one more attempt, and the token of the new lease passes the check from then on until a
  -- time later than `now`; the leases of the other tasks are as they were.
  pub claim_exclusive :
      {u : Snapshot} {token : Token}
      → claim_step task_id owner now seconds secret s ≡ ok u
      → token_of task_id u ≡ some token
      → ((known task_id s ≡ true)
          × (is_terminal task_id s ≡ false)
          × (is_active now (Dict.get task_id s.leases) ≡ false)
          × (Dict.get task_id u.attempts ≡ some (count_or 0 (Dict.get task_id s.attempts) + 1)))
        × ((now < token.expires_at)
            × (token.lease_id ≡ secret)
            × ((n : ℕ) → n < token.expires_at → check_token task_id token n u ≡ true))
        × ((k : String) → k ≢ task_id → Dict.get k u.leases ≡ Dict.get k s.leases)
  claim_exclusive {u} {token} h k =
      let r = claim_step-Claimed task_id owner now seconds secret s h in
      let lease = leased owner secret r.expiry s in
      let stands : Dict.get task_id u.leases ≡ some lease =
        rw r.is_installed (installed_lease task_id owner secret r.expiry s) in
      let (expires, name, good) = token_good task_id u lease 0 stands k in
      (
        (
          r.was_known,
          r.was_open,
          r.was_free,
          rw r.is_installed (installed_attempts task_id owner secret r.expiry s),
        ),
        (omega (arith, r.later), name, λ n m. (token_good task_id u lease n stands k).2 m),
        λ j ne. rw r.is_installed (installed_others task_id owner secret r.expiry s j ne),
      )

relet_lease :
    (task_id secret : String) (expiry : ℕ) (lease : Lease) (s : Snapshot)
    → Dict.get task_id s.leases ≡ some lease
    → Dict.get task_id (relet task_id secret expiry (Dict.get task_id s.leases) s).leases
      ≡ some
          (record lease { lease_id = secret; expires_at = expiry; generation = s.generation + 1 })
relet_lease task_id secret expiry lease s h = rw h (get-put_self task_id _ s.leases)

-- A token whose identifier is not the lease's is refused at every time.
token_stale :
    (task_id : String) (u : Snapshot) (lease : Lease) (token : Token) (n : ℕ)
    → Dict.get task_id u.leases ≡ some lease
    → lease.lease_id ≢ token.lease_id
    → check_token task_id token n u ≡ false
unfolding check_token
token_stale task_id u lease token n h ne = ground (arith, eq_iff lease.lease_id token.lease_id)

-- A renewal succeeds only for a token that passes the check. Afterwards the old token is refused
-- at every time, provided the new secret differs from the old one, and the new token passes until
-- its lease expires, which is later than the renewal.
pub renew_fences :
    (task_id : String) (token renewed : Token) (now : ℕ) (seconds : ℤ) (secret : String)
    → (s u : Snapshot) → renew_step task_id token now seconds secret s ≡ ok u
    → token_of task_id u ≡ some renewed
    → secret ≢ token.lease_id
    → (check_token task_id token now s ≡ true)
      × ((n : ℕ) → check_token task_id token n u ≡ false)
      × (now < renewed.expires_at)
      × ((n : ℕ) → n < renewed.expires_at → check_token task_id renewed n u ≡ true)
renew_fences task_id token renewed now seconds secret s u h k ne =
    let (lease, expiry, f, e, checked, later) =
      renew_step-relet task_id token now seconds secret s h in
    let stands = rw (← e) at (relet_lease task_id secret expiry lease s f) in
    let (expires, name, good) = token_good task_id u _ 0 stands k in
    (
      checked,
      λ n. token_stale task_id u _ token n stands ne,
      omega (arith, later),
      λ n. (token_good task_id u _ n stands k).2,
    )

no_lease-refused :
    (task_id : String) (u : Snapshot) (token : Token) (n : ℕ)
    → Dict.get task_id u.leases ≡ none
    → check_token task_id token n u ≡ false
unfolding check_token
no_lease-refused task_id u token n h = ground arith

get-pop_self :
    (task_id : String) (s : Snapshot) → Dict.get task_id (Dict.pop task_id s.leases) ≡ none
get-pop_self task_id s = ground (arith, get-pop task_id task_id s.leases, eq_iff task_id task_id)

module _ (env : Env) (task_id : String) (token : Token) (safe : Fields) (status : Status) where
  recorded_report :
      (s : Snapshot)
      → Dict.get task_id (recorded env task_id token safe status s).reports
        ≡ some (record {
          status = status;
          report = safe;
          digest = env.digest safe;
          attempt = count_or 1 (Dict.get task_id s.attempts);
          lease_id = token.lease_id;
          lease_generation = token.generation;
        })
  unfolding recorded
  recorded_report s = get-put_self task_id _ s.reports

  recommit-replays :
      (u : Snapshot) (r : ReportRecord) (n : ℕ)
      → token_shaped task_id token u ≡ true
      → Dict.get task_id u.reports ≡ some r
      → r.lease_id ≡ token.lease_id
      → r.lease_generation ≡ token.generation
      → r.digest ≡ env.digest safe
      → r.status ≡ status
      → commit_step env task_id token safe status n u ≡ ok (replayed u)
  unfolding commit_step
  recommit-replays u r n sh g i l d st = ground (
    arith,
    eq_iff r.lease_id token.lease_id,
    eq_iff r.digest (env.digest safe),
    eq_iff (status_name r.status) (status_name status),
    ap status_name st,
  )

  -- No commit writes for a task that has a report.
  reported-never_writes :
      (u : Snapshot) (r : ReportRecord) (t : Token) (f : Fields) (st : Status) (n : ℕ)
      (v : Snapshot)
      → Dict.get task_id u.reports ≡ some r
      → commit_step env task_id t f st n u ≢ ok (written v)
  unfolding commit_step
  reported-never_writes u r t f st n v g h = ground arith

  -- A token that passes the check is for the run and the task.
  checked-shaped :
      (now : ℕ) (s : Snapshot)
      → check_token task_id token now s ≡ true
      → token_shaped task_id token s ≡ true
  unfolding check_token
  checked-shaped now s h = ground arith

  recorded-shaped :
      (s : Snapshot)
      → token_shaped task_id token s ≡ true
      → token_shaped task_id token (recorded env task_id token safe status s) ≡ true
  unfolding recorded token_shaped
  recorded-shaped s h = h

  recorded_lease :
      (s : Snapshot) → Dict.get task_id (recorded env task_id token safe status s).leases ≡ none
  unfolding recorded
  recorded_lease s = get-pop_self task_id s

  -- A commit that writes ends the lease and is final: the token is refused at every time, the very
  -- same commit returns the snapshot unchanged, and no commit for the task writes again.
  pub commit_final :
      (now : ℕ) (s u : Snapshot)
      → commit_step env task_id token safe status now s ≡ ok (written u)
      → ((n : ℕ) → check_token task_id token n u ≡ false)
        × ((n : ℕ) → commit_step env task_id token safe status n u ≡ ok (replayed u))
        × ((t : Token) (f : Fields) (st : Status) (n : ℕ) (v : Snapshot)
            → commit_step env task_id t f st n u ≢ ok (written v))
  commit_final now s u h =
      let (checked, empty, e) = commit_step-written env task_id token safe status now s h in
      let report = recorded_report s in
      let shaped = recorded-shaped s (checked-shaped now s checked) in
      rw e (
        λ n. no_lease-refused task_id _ token n (recorded_lease s),
        λ n. recommit-replays _ _ n shaped report refl refl refl refl,
        λ t f st n v. reported-never_writes _ _ t f st n v report,
      )
