-- ===== src/Scheduler/Stale/Later.antt =====
-- scripts/pd_fleet/scheduler.py, `recover_stale`: what one write of the loop does to the leases.
use project_development_skil.Base.{
  ℕ, ◌<◌, String, Bool, true, false, Option, none, some, List, [], ◌∷◌, ◌≡◌, refl, arith, eq_iff,
  leb, inl, inr, Bool-cases, not, All,
}
use project_development_skil.Dict
use project_development_skil.Dict.{Dict, get-pop, all-pop}
use project_development_skil.Store.State.{Snapshot, Env, Lease}
use project_development_skil.Store.Validate.{validate, valid_lease}
use project_development_skil.Store.Disk.{
  Result, ok, Disk, current, load, mutate, save, stamped, write,
}
use project_development_skil.Store.Crash.{IsOrdered, write_crash_safe}
use project_development_skil.Store.Evolution.{Evolves, Evolves-refl, Evolves-trans, stamped-Evolves}
use project_development_skil.Store.Refinement.{current-valid, opened-cases}
use project_development_skil.Scheduler.Stale.{is_expired, drop_stale}

abbrev pub is_live : ℕ → Option Lease → Bool
is_live now none = false
is_live now (some lease) = not (leb lease.expires_at now)

-- A later snapshot: what `s` evolved into. No lease is expired at `now` where none was, and the
-- lease of a task in `held` that was active at `now` still is.
pub record Later (now : ℕ) (held : String → Bool) (s t : Snapshot) : Type 0 where
  pub evolves : Evolves s t
  pub settles :
      (k : String)
      → is_expired now (Dict.get k s.leases) ≡ false
      → is_expired now (Dict.get k t.leases) ≡ false
  pub keeps :
      (k : String)
      → held k ≡ true
      → is_live now (Dict.get k s.leases) ≡ true
      → is_live now (Dict.get k t.leases) ≡ true

-- The disk is ordered, and the next reader gets a later snapshot than `s`.
pub record Recovered (env : Env) (now : ℕ) (held : String → Bool) (s : Snapshot) (d : Disk)
    : Type 0 where
  pub next : Snapshot
  pub is_current : current env d ≡ some next
  pub is_ordered : IsOrdered env d
  pub later : Later now held s next

-- Calls of others: they keep the disk ordered and the record evolving, they put no lease that is
-- expired already, and they give up no lease of a task in `held`.
abbrev pub IsTame : Env → ℕ → (String → Bool) → (Disk → Disk) → Type 0
IsTame env now held f =
    (d : Disk) (s : Snapshot)
    → current env d ≡ some s
    → IsOrdered env d
    → Recovered env now held s (f d)

unfoldable pub AreClear : ℕ → List String → Snapshot → Type 0
AreClear now ids t = All (λ k. is_expired now (Dict.get k t.leases) ≡ false) ids

pub Later-trans :
    (now : ℕ) (held : String → Bool) (s t u : Snapshot)
    → Later now held s t
    → Later now held t u
    → Later now held s u
Later-trans now held s t u p q = record {
  evolves = Evolves-trans s t u p.evolves q.evolves;
  settles = λ k h. q.settles k (p.settles k h);
  keeps = λ k m h. q.keeps k m (p.keeps k m h);
}

unfoldable pub Recovered-trans :
    (env : Env) (now : ℕ) (held : String → Bool) (s t : Snapshot) (d : Disk)
    → Later now held s t
    → Recovered env now held t d
    → Recovered env now held s d
Recovered-trans env now held s t d p r = record {
  next = r.next;
  is_current = r.is_current;
  is_ordered = r.is_ordered;
  later = Later-trans now held s t r.next p r.later;
}

drop_stale-valid :
    (env : Env) (now stamp : ℕ) (task_id : String) (s : Snapshot)
    → validate env s ≡ true
    → validate env (stamped stamp (drop_stale now task_id s)) ≡ true
unfolding validate drop_stale stamped
drop_stale-valid env now stamp task_id s v = ground (arith, all-pop valid_lease task_id s.leases)

leases-Evolves : (s : Snapshot) (leases : Dict Lease) → Evolves s (record s { leases = leases })
leases-Evolves s leases = record {
  run_id = refl;
  plan = refl;
  owner = refl;
  generation = omega arith;
  kept = λ k r h. h;
  settled = λ h. refl;
  counted = λ k. omega arith;
  sequence = omega arith;
  positive = λ h. h;
}

drop_stale-Evolves :
    (now stamp : ℕ) (task_id : String) (s : Snapshot)
    → Evolves s (stamped stamp (drop_stale now task_id s))
unfolding drop_stale
drop_stale-Evolves now stamp task_id s =
    let dropped = record s { leases = Dict.pop task_id s.leases } in
    elim (Bool-cases (is_expired now (Dict.get task_id s.leases))) [
      | inl h ↦ rw h (
          Evolves-trans s dropped (stamped stamp dropped) (leases-Evolves s _)
            (stamped-Evolves dropped stamp))
      | inr h ↦ rw h (stamped-Evolves s stamp)
    ]

-- The dropped lease is gone, an expired one stays gone, and an active one stays.
drop_stale-Later :
    (now stamp : ℕ) (held : String → Bool) (task_id : String) (s : Snapshot)
    → Later now held s (stamped stamp (drop_stale now task_id s))
unfolding drop_stale stamped
drop_stale-Later now stamp held task_id s = record {
  evolves = drop_stale-Evolves now stamp task_id s;
  settles = λ k h. ground (arith, get-pop task_id k s.leases, eq_iff task_id k);
  keeps = λ k m h. ground (arith, get-pop task_id k s.leases, eq_iff task_id k);
}

drop_stale-clears :
    (now stamp : ℕ) (task_id : String) (s : Snapshot)
    → is_expired now (Dict.get task_id (stamped stamp (drop_stale now task_id s)).leases) ≡ false
unfolding drop_stale stamped
drop_stale-clears now stamp task_id s =
    ground (arith, get-pop task_id task_id s.leases, eq_iff task_id task_id)

pub unknown-clear :
    (now : ℕ) (task_id : String) (leases : Dict Lease)
    → Dict.has_key task_id leases ≡ false
    → is_expired now (Dict.get task_id leases) ≡ false
unfolding Dict.has_key
unknown-clear now task_id leases h = ground arith

pub load-current :
    (env : Env) (d : Disk) {s : Snapshot} → current env d ≡ some s → load env d ≡ ok s
unfolding load
load-current env d c = rw (c, load) refl

-- What a part of the loop leaves: a later snapshot, in which the ids are clear if it succeeded.
pub record Cleared {A : Type 0} (env : Env) (now : ℕ) (held : String → Bool) (s : Snapshot)
    (ids : List String) (outcome : Result A × Disk) : Type 0 where
  pub after : Recovered env now held s outcome.1
  pub clear : (a : A) → outcome.0 ≡ ok a → AreClear now ids after.next

module _ (env : Env) (now : ℕ) (held : String → Bool) (d : Disk) (s : Snapshot)
    (c : current env d ≡ some s) (o : IsOrdered env d) where
  unfoldable pub unchanged : Recovered env now held s d
  unchanged = record {
    next = s;
    is_current = c;
    is_ordered = o;
    later = record { evolves = Evolves-refl s; settles = λ k h. h; keeps = λ k m h. h };
  }

  drop_generation :
      (stamp : ℕ) (task_id : String)
      → s.generation < (stamped stamp (drop_stale now task_id s)).generation
  unfolding stamped drop_stale
  drop_generation stamp task_id = ground arith

  written-Recovered :
      (stamp : ℕ) (task_id : String)
      → Recovered env now held s (write env d (stamped stamp (drop_stale now task_id s)))
  written-Recovered stamp task_id =
      let t = stamped stamp (drop_stale now task_id s) in
      let v = drop_stale-valid env now stamp task_id s (current-valid env d c) in
      let w = write_crash_safe env d s t o c v (drop_generation stamp task_id) in
      record {
        next = t;
        is_current = w.1;
        is_ordered = w.2;
        later = drop_stale-Later now stamp held task_id s;
      }

  pub mutate-Cleared :
      (owner : String) (stamp : ℕ) (task_id : String) (expected : Option ℕ)
      → Cleared env now held s
          (task_id ∷ [])
          (mutate env d owner expected stamp (λ u. ok (drop_stale now task_id u)))
  unfolding mutate save AreClear written-Recovered stamped
  mutate-Cleared owner stamp task_id expected = elim (opened-cases env d s c o owner expected) [
    | inr (e, k) ↦ rw k (record { after = unchanged; clear = λ a h. cc })
    | inl (k, same) ↦ rw k (record {
      after = written-Recovered stamp task_id;
      clear = λ a h. (drop_stale-clears now stamp task_id s, tt);
    })
  ]

pub Cleared-trans :
    (env : Env) (now : ℕ) (held : String → Bool) (s t : Snapshot) {A : Type 0}
    → {ids : List String} {outcome : Result A × Disk} → Later now held s t
    → Cleared env now held t ids outcome
    → Cleared env now held s ids outcome
unfolding Recovered-trans
Cleared-trans env now held s t p q = record {
  after = Recovered-trans env now held s t _ p q.after;
  clear = q.clear;
}
