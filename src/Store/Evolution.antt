-- ===== src/Store/Evolution.antt =====
-- How a snapshot may change over its life: what no operation of the store undoes.
use project_development_skil.Base.{
  ℕ, ◌+◌, ◌≤◌, String, true, none, some, List, [], ◌∷◌, ◌≡◌, ◌∙◌, refl, arith, eq_iff, ℤ, all, leb,
}
use project_development_skil.Dict
use project_development_skil.Dict.{get-put, all-put}
use project_development_skil.Value.{Fields}
use project_development_skil.Store.State.{
  Status, Snapshot, Env, Event, Token, ReportRecord, is_terminal_run, completed, failed, cancelled,
}
use project_development_skil.Store.Disk.{ok, stamped}
use project_development_skil.Store.Leases.{install, count_or, renew_step, release_step}
use project_development_skil.Store.Commits.{transition_step, update_step, recorded, same_status}
use project_development_skil.Store.Events.{appended}
use project_development_skil.Store.Batch.{reclaimed, install_all}

-- Every attempt that is counted at all is counted from one.
abbrev pub IsPositive : Snapshot → Type 0
IsPositive s = all (λ (item : String × ℕ). leb 1 item.1) s.attempts ≡ true

-- From an older snapshot to a later one: the run, its plan and its owner stay; a committed report
-- stays as it is; a terminal run keeps its status; generations, attempts and the event sequence do
-- not fall, and attempts stay counted from one.
pub record Evolves (s t : Snapshot) : Type 0 where
  pub run_id : t.run_id ≡ s.run_id
  pub plan : t.plan ≡ s.plan
  pub owner : t.owner ≡ s.owner
  pub generation : s.generation ≤ t.generation
  pub kept :
      (k : String) (r : ReportRecord)
      → Dict.get k s.reports ≡ some r
      → Dict.get k t.reports ≡ some r
  pub settled : is_terminal_run s.status ≡ true → t.status ≡ s.status
  pub counted :
      (k : String) → count_or 0 (Dict.get k s.attempts) ≤ count_or 0 (Dict.get k t.attempts)
  pub sequence : s.event_sequence ≤ t.event_sequence
  pub positive : IsPositive s → IsPositive t

pub Evolves-refl : (s : Snapshot) → Evolves s s
Evolves-refl s = record {
  run_id = refl;
  plan = refl;
  owner = refl;
  generation = omega arith;
  kept = λ k r h. h;
  settled = λ h. refl;
  counted = λ k. omega arith;
  sequence = omega arith;
  positive = λ h. h;
}

pub Evolves-trans : (s t u : Snapshot) → Evolves s t → Evolves t u → Evolves s u
Evolves-trans s t u e f = record {
  run_id = f.run_id ∙ e.run_id;
  plan = f.plan ∙ e.plan;
  owner = f.owner ∙ e.owner;
  generation = omega arith;
  kept = λ k r h. f.kept k r (e.kept k r h);
  settled = λ h. f.settled (rw (e.settled h) h) ∙ e.settled h;
  counted = λ k. omega (arith, e.counted k, f.counted k);
  sequence = omega arith;
  positive = λ h. f.positive (e.positive h);
}

same_status→ : (a b : Status) → is_terminal_run a ≡ true → same_status a b ≡ true → b ≡ a
unfolding same_status
same_status→ completed completed h g = refl
same_status→ failed failed h g = refl
same_status→ cancelled cancelled h g = refl
same_status→ _ _ h g = cc

module _ (s : Snapshot) where
  pub stamped-Evolves : (now : ℕ) → Evolves s (stamped now s)
  unfolding stamped
  stamped-Evolves now = record {
    run_id = refl;
    plan = refl;
    owner = refl;
    generation = omega arith;
    kept = λ k r h. h;
    settled = λ h. refl;
    counted = λ k. omega arith;
    sequence = omega arith;
    positive = λ h. h;
  }

  pub install-Evolves :
      (task_id owner secret : String) (expiry : ℕ)
      → Evolves s (install task_id owner secret expiry s)
  unfolding install
  install-Evolves task_id owner secret expiry = record {
    run_id = refl;
    plan = refl;
    owner = refl;
    generation = omega arith;
    kept = λ k r h. h;
    settled = λ h. refl;
    counted = λ k. ground (
      arith,
      get-put task_id k (count_or 0 (Dict.get task_id s.attempts) + 1) s.attempts,
      eq_iff task_id k,
    );
    sequence = omega arith;
    positive = λ h.
        all-put (λ item. leb 1 item.1) task_id (count_or 0 (Dict.get task_id s.attempts) + 1)
          s.attempts (ground arith) h;
  }

  pub recorded-Evolves :
      (env : Env) (task_id : String) (token : Token) (safe : Fields) (status : Status)
      → Dict.get task_id s.reports ≡ none
      → Evolves s (recorded env task_id token safe status s)
  unfolding recorded
  recorded-Evolves env task_id token safe status fresh = record {
    run_id = refl;
    plan = refl;
    owner = refl;
    generation = omega arith;
    kept = λ k r h. ground (
      arith,
      get-put task_id k
          (record {
            status = status;
            report = safe;
            digest = env.digest safe;
            attempt = count_or 1 (Dict.get task_id s.attempts);
            lease_id = token.lease_id;
            lease_generation = token.generation;
          })
          s.reports,
      eq_iff task_id k,
    );
    settled = λ h. refl;
    counted = λ k. omega arith;
    sequence = omega arith;
    positive = λ h. h;
  }

  pub appended-Evolves : (e : Event) → Evolves s (appended e s)
  unfolding appended
  appended-Evolves e = record {
    run_id = refl;
    plan = refl;
    owner = refl;
    generation = omega arith;
    kept = λ k r h. h;
    settled = λ h. refl;
    counted = λ k. omega arith;
    sequence = omega arith;
    positive = λ h. h;
  }

  -- What a step that leaves the reports and the attempts alone has to show.
  Carries : Snapshot → Type 0
  Carries t =
      (t.run_id ≡ s.run_id)
      × (t.plan ≡ s.plan)
      × (t.owner ≡ s.owner)
      × (t.generation ≡ s.generation)
      × (t.reports ≡ s.reports)
      × (t.attempts ≡ s.attempts)
      × (t.event_sequence ≡ s.event_sequence)
      × (is_terminal_run s.status ≡ true → t.status ≡ s.status)

  carried : (t : Snapshot) → Carries t → Evolves s t
  unfolding Carries
  carried t c = record {
    run_id = c.0;
    plan = c.1;
    owner = c.2;
    generation = omega (arith, c.3);
    kept = λ k x h. rw c.4 h;
    settled = c.7;
    counted = λ k. rw c.5 (omega arith);
    sequence = omega (arith, c.6);
    positive = λ h. rw c.5 h;
  }

  pub reclaimed-Evolves : (now : ℕ) → Evolves s (reclaimed now s)
  unfolding reclaimed Carries
  reclaimed-Evolves now =
      carried (reclaimed now s) (refl, refl, refl, refl, refl, refl, refl, λ h. refl)

  pub transition-Evolves :
      (status : Status) {t : Snapshot} → transition_step status s ≡ ok t → Evolves s t
  unfolding transition_step Carries
  transition-Evolves status {t} h = carried t (ground (arith, same_status→ s.status status))

  pub update-Evolves :
      (task_id : String) (status : Status) {t : Snapshot}
      → update_step task_id status s ≡ ok t
      → Evolves s t
  unfolding update_step Carries
  update-Evolves task_id status {t} h = carried t (ground arith)

  pub release-Evolves :
      (task_id : String) (token : Token) (now : ℕ) {t : Snapshot}
      → release_step task_id token now s ≡ ok t
      → Evolves s t
  unfolding release_step Carries
  release-Evolves task_id token now {t} h = carried t (ground arith)

  pub renew-Evolves :
      (task_id : String) (token : Token) (now : ℕ) (lease_seconds : ℤ) (secret : String)
      → {t : Snapshot} → renew_step task_id token now lease_seconds secret s ≡ ok t
      → Evolves s t
  unfolding renew_step Carries
  renew-Evolves task_id token now lease_seconds secret {t} h = carried t (ground arith)

pub install_all-Evolves :
    (secret : ℕ → String) (owner : String) (expiry n : ℕ) (ids : List String) (s : Snapshot)
    → Evolves s (install_all secret owner expiry n ids s)
unfolding install_all
install_all-Evolves secret owner expiry n [] s = Evolves-refl s
install_all-Evolves secret owner expiry n (tid ∷ rest) s =
    Evolves-trans s (install tid owner (secret n) expiry s) _
      (install-Evolves s tid owner (secret n) expiry)
      (install_all-Evolves secret owner expiry (n + 1) rest (install tid owner (secret n) expiry s))
