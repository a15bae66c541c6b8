-- ===== src/Store/Refinement.antt =====
-- The two files refine one snapshot in memory: every call leaves a disk from which the next reader
-- gets the old snapshot or the one that the call wrote.
pub mod Steps
pub mod Writes
pub mod Batches
use project_development_skil.Base.{
  ℕ, zero, suc, ◌+◌, ◌≤◌, ◌<◌, String, Bool, true, false, not, ◌&&◌, Option, none, some, List, [],
  ◌∷◌, ◌++◌, ◌≡◌, ◌∙◌, ◌⊎◌, inl, inr, refl, arith, eq_iff, str_eq, if◌then◌else◌, all, any,
  Bool-cases, Option-cases, ℤ, pos, negsuc, keep, length, ltb,
}
use project_development_skil.Dict
use project_development_skil.Dict.{all-get, all-put, all-pop}
use project_development_skil.Value.{Fields}
use project_development_skil.Store.State.{
  Status, Snapshot, Env, Event, Token, Lease, ReportRecord, is_id, is_task_status, is_report_status,
  valid_report,
}
use project_development_skil.Store.Validate.{
  validate, valid_lease, valid_record, valid_event, valid_task, is_hex,
}
use project_development_skil.Store.Disk.{
  Result, ok, err, StoreError, owner_mismatch, generation_conflict, conflicts, Result-cases, Disk,
  current, candidate, newer, write, save, stamped, opened, mutate, ◌>>=◌, ◌>>◌,
}
use project_development_skil.Store.Crash.{IsOrdered, write_crash_safe}
use project_development_skil.Store.Evolution.{
  Evolves, Evolves-refl, Evolves-trans, stamped-Evolves, install-Evolves, recorded-Evolves,
  appended-Evolves, reclaimed-Evolves, transition-Evolves, update-Evolves, release-Evolves,
  renew-Evolves, install_all-Evolves,
}
use project_development_skil.Store.Validity.{
  validate-stamped, install-valid, recorded-valid, appended-valid, transition-valid, update-valid,
  release-valid,
}

pub current-valid :
    (env : Env) (d : Disk) {s : Snapshot} → current env d ≡ some s → validate env s ≡ true
unfolding current
current-valid env d h = ground arith

-- The next reader gets a valid snapshot that `s` may have become.
pub record After (env : Env) (s : Snapshot) (d : Disk) : Type 0 where
  pub next : Snapshot
  pub is_current : current env d ≡ some next
  pub is_ordered : IsOrdered env d
  pub evolves : Evolves s next

-- What the callback of `_mutate` has to keep.
abbrev pub KeepsBy : Env → Snapshot → String → (Snapshot → Result Snapshot) → Type 0
KeepsBy env s owner fn =
    (u : Snapshot)
    → validate env s ≡ true
    → s.owner ≡ owner
    → fn s ≡ ok u
    → (validate env u ≡ true) × (u.generation ≡ s.generation) × Evolves s u

module _ (env : Env) (d : Disk) (s : Snapshot) (c : current env d ≡ some s)
    (o : IsOrdered env d) where
  pub stay : After env s d
  stay = record { next = s; is_current = c; is_ordered = o; evolves = Evolves-refl s }

  -- A check before the lock is taken.
  pub guarded-After {ℓ} :
      {A : Type ℓ} (b : Bool) (e : StoreError) (r : Result A × Disk)
      → (b ≡ true → After env s r.1)
      → After env s (if not b then (err e, d) else r).1
  guarded-After true e r h = h refl
  guarded-After false e r h = stay

  -- A step that keeps the generation, stamped and written.
  pub written-After :
      (now : ℕ) (u : Snapshot)
      → validate env u ≡ true
      → u.generation ≡ s.generation
      → Evolves s u
      → After env s (write env d (stamped now u))
  unfolding stamped
  written-After now u v g e =
      let w = write_crash_safe env d s (stamped now u) o c (rw validate-stamped v) (omega arith) in
      record {
        next = stamped now u;
        is_current = w.1;
        is_ordered = w.2;
        evolves = Evolves-trans s u (stamped now u) e (stamped-Evolves u now);
      }

  pub opened-cases :
      (owner : String) (expected : Option ℕ)
      → ((opened env d owner expected ≡ ok s) × (s.owner ≡ owner))
        ⊎ ((e : StoreError) × (opened env d owner expected ≡ err e))
  unfolding opened
  opened-cases owner expected = elim (Bool-cases (str_eq s.owner owner)) [
    | inr h ↦ rw (c, opened) (rw h (inr (owner_mismatch, refl)))
    | inl h ↦ elim (Bool-cases (conflicts expected s.generation)) [
      | inl k ↦ rw (c, opened) (rw (h, k) (inr (generation_conflict, refl)))
      | inr k ↦ rw (c, opened) (rw (h, k) (inl (refl, (eq_iff s.owner owner).0 h)))
    ]
  ]

  pub mutate-After :
      (owner : String) (expected : Option ℕ) (now : ℕ) (fn : Snapshot → Result Snapshot)
      → KeepsBy env s owner fn
      → After env s (mutate env d owner expected now fn).1
  unfolding mutate
  mutate-After owner expected now fn keeps = elim (opened-cases owner expected) [
    | inr (e, h) ↦ rw h stay
    | inl (h, same) ↦ elim (Result-cases (fn s)) [
      | inr (e, k) ↦ rw (h, k) stay
      | inl (u, k) ↦
          (let (v, g, e) = keeps u (current-valid env d c) same k in
            rw (h, k) (written-After now u v g e))
    ]
  ]
