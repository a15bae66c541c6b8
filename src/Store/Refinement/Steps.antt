-- ===== src/Store/Refinement/Steps.antt =====
-- Each call of the store, on a disk whose reader gets `s`.
use project_development_skil.Base.{ℕ, String, true, Option, none, some, ◌≡◌, refl, arith, ℤ}
use project_development_skil.Store.State.{Status, Snapshot, Env, Token, is_id, is_task_status}
use project_development_skil.Store.Validate.{validate}
use project_development_skil.Store.Disk.{Disk, current}
use project_development_skil.Store.Crash.{IsOrdered}
use project_development_skil.Store.Evolution.{
  install-Evolves, transition-Evolves, update-Evolves, release-Evolves, renew-Evolves,
}
use project_development_skil.Store.Validity.{
  install-valid, transition-valid, update-valid, release-valid, relet-valid,
}
use project_development_skil.Store.Inversion.{claim_step-Claimed, renew_step-relet}
use project_development_skil.Store.Leases.{
  claim, claim_step, renew, renew_step, release, release_step, install, is_positive,
}
use project_development_skil.Store.Commits.{
  transition, transition_step, update_task_status, update_step,
}
use project_development_skil.Store.Refinement.{After, KeepsBy, guarded-After, mutate-After}

owner-is_id : (env : Env) (s : Snapshot) → validate env s ≡ true → is_id s.owner ≡ true
unfolding validate
owner-is_id env s v = ground arith

module _ (env : Env) (s : Snapshot) where
  claim-Keeps :
      (task_id owner : String) (now : ℕ) (seconds : ℤ) (secret : String)
      → is_id secret ≡ true
      → is_id task_id ≡ true
      → KeepsBy env s owner (claim_step task_id owner now seconds secret)
  claim-Keeps task_id owner now seconds secret k i u v same e =
      let r = claim_step-Claimed task_id owner now seconds secret s e in
      rw r.is_installed (
        install-valid env s task_id owner secret r.expiry i (rw same at (owner-is_id env s v)) k v,
        unfold install in refl,
        install-Evolves s task_id owner secret r.expiry,
      )

  renew-Keeps :
      (task_id : String) (token : Token) (owner : String) (now : ℕ) (seconds : ℤ) (secret : String)
      → is_id secret ≡ true
      → KeepsBy env s owner (renew_step task_id token now seconds secret)
  renew-Keeps task_id token owner now seconds secret k u v same e =
      let (lease, expiry, f, r, checked, later) =
        renew_step-relet task_id token now seconds secret s e in
      (
        rw r (relet-valid env s task_id secret expiry lease f k v),
        rw (r, f) refl,
        renew-Evolves s task_id token now seconds secret e,
      )

  release-Keeps :
      (task_id : String) (token : Token) (owner : String) (now : ℕ)
      → KeepsBy env s owner (release_step task_id token now)
  release-Keeps task_id token owner now u v same e = (
    release-valid env s task_id token now v e,
    unfold release_step in ground arith,
    release-Evolves s task_id token now e,
  )

  transition-Keeps :
      (status : Status) (owner : String) → KeepsBy env s owner (transition_step status)
  transition-Keeps status owner u v same e = (
    transition-valid env s status v e,
    unfold transition_step in ground arith,
    transition-Evolves s status e,
  )

  update-Keeps :
      (task_id : String) (status : Status) (owner : String)
      → is_task_status status ≡ true
      → KeepsBy env s owner (update_step task_id status)
  update-Keeps task_id status owner k u v same e = (
    update-valid env s task_id status k v e,
    unfold update_step in ground arith,
    update-Evolves s task_id status e,
  )

module _ (env : Env) (d : Disk) (s : Snapshot) (c : current env d ≡ some s)
    (o : IsOrdered env d) where
  pub claim-After :
      (task_id owner : String) (seconds : ℤ) (expected : Option ℕ) (now stamp : ℕ) (secret : String)
      → is_id secret ≡ true
      → After env s (claim env d task_id owner seconds expected now stamp secret).1
  unfolding claim
  claim-After task_id owner seconds expected now stamp secret k =
      guarded-After env d s c o (is_id task_id) _ _ λ i.
        mutate-After env d s c o owner expected stamp _
          (claim-Keeps env s task_id owner now seconds secret k i)

  pub renew-After :
      (task_id : String) (token : Token) (owner : String) (seconds : ℤ) (now stamp : ℕ)
      → (secret : String) → is_id secret ≡ true
      → After env s (renew env d task_id token owner seconds now stamp secret).1
  unfolding renew
  renew-After task_id token owner seconds now stamp secret k =
      guarded-After env d s c o (is_positive seconds) _ _ λ i.
        mutate-After env d s c o owner none stamp _
          (renew-Keeps env s task_id token owner now seconds secret k)

  pub release-After :
      (token : Token) (owner : String) (now stamp : ℕ)
      → After env s (release env d token owner now stamp).1
  unfolding release
  release-After token owner now stamp =
      mutate-After env d s c o owner none stamp _
        (release-Keeps env s token.task_id token owner now)

  pub transition-After :
      (status : Status) (owner : String) (expected : Option ℕ) (stamp : ℕ)
      → After env s (transition env d status owner expected stamp).1
  unfolding transition
  transition-After status owner expected stamp =
      mutate-After env d s c o owner expected stamp _ (transition-Keeps env s status owner)

  pub update-After :
      (task_id : String) (status : Status) (owner : String) (expected : Option ℕ) (stamp : ℕ)
      → After env s (update_task_status env d task_id status owner expected stamp).1
  unfolding update_task_status
  update-After task_id status owner expected stamp =
      guarded-After env d s c o (is_id task_id) _ _ λ i.
        guarded-After env d s c o (is_task_status status) _ _ λ k.
          mutate-After env d s c o owner expected stamp _
            (update-Keeps env s task_id status owner k)
