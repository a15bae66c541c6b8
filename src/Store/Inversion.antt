-- ===== src/Store/Inversion.antt =====
-- What a callback of the store has checked when it returns a snapshot, and what the snapshot is.
use project_development_skil.Base.{
  ℕ, zero, suc, ◌<◌, String, true, false, some, ◌≡◌, inl, inr, arith, ℤ, pos, negsuc, Option-cases,
}
use project_development_skil.Dict
use project_development_skil.Store.State.{Snapshot, Token, Lease}
use project_development_skil.Store.Disk.{ok, Result-cases}
use project_development_skil.Store.Leases.{
  claim_step, renew_step, known, is_terminal, is_active, plus_seconds, install, check_token, relet,
}

pub plus_seconds-lt : (now : ℕ) (seconds : ℤ) {t : ℕ} → plus_seconds now seconds ≡ ok t → now < t
unfolding plus_seconds
plus_seconds-lt now (pos zero) h = cc
plus_seconds-lt now (pos (suc n)) h = ground arith
plus_seconds-lt now (negsuc n) h = cc

module _ (task_id owner : String) (now : ℕ) (seconds : ℤ) (secret : String) (s : Snapshot) where
  -- The lease that a claim installs, and what it found.
  pub record Claimed (u : Snapshot) : Type 0 where
    pub expiry : ℕ
    pub later : now < expiry
    pub is_installed : u ≡ install task_id owner secret expiry s
    pub was_known : known task_id s ≡ true
    pub was_open : is_terminal task_id s ≡ false
    pub was_free : is_active now (Dict.get task_id s.leases) ≡ false

  pub claim_step-Claimed :
      {u : Snapshot} → claim_step task_id owner now seconds secret s ≡ ok u → Claimed u
  unfolding claim_step
  claim_step-Claimed {u} h = elim (Result-cases (plus_seconds now seconds)) [
    | inr (e, k) ↦ absurd (ground arith)
    | inl (t, k) ↦ record {
      expiry = t;
      later = plus_seconds-lt now seconds k;
      is_installed = ground arith;
      was_known = ground arith;
      was_open = ground arith;
      was_free = ground arith;
    }
  ]

-- A renewal has checked the token, and gives the lease anew until a later time.
pub renew_step-relet :
    (task_id : String) (token : Token) (now : ℕ) (seconds : ℤ) (secret : String) (s : Snapshot)
    → {u : Snapshot} → renew_step task_id token now seconds secret s ≡ ok u
    → (lease : Lease) × (expiry : ℕ) × (Dict.get task_id s.leases ≡ some lease)
      × (u ≡ relet task_id secret expiry (Dict.get task_id s.leases) s)
      × (check_token task_id token now s ≡ true)
      × (now < expiry)
unfolding renew_step
renew_step-relet task_id token now seconds secret s h =
    elim (Result-cases (plus_seconds now seconds)) [
      | inr (e, k) ↦ absurd (ground arith)
      | inl (t, k) ↦ elim (Option-cases (Dict.get task_id s.leases)) [
        | inl n ↦ absurd (ground arith)
        | inr (lease, f) ↦ (lease, t, f, ground arith, ground arith, plus_seconds-lt now seconds k)
      ]
    ]
