-- ===== src/Store/Validity.antt =====
-- The steps of the store write only snapshots that `_validate` takes.
use project_development_skil.Base.{
  ℕ, suc, ◌+◌, String, Bool, true, ◌&&◌, some, List, [], ◌∷◌, ◌++◌, ◌≡◌, refl, arith, all, length,
  length-append, keep, ltb,
}
use project_development_skil.Dict
use project_development_skil.Dict.{all-put, all-pop, all-get}
use project_development_skil.Value.{Fields}
use project_development_skil.Store.State.{
  Status, Snapshot, Env, Lease, Event, Token, is_id, is_task_status,
}
use project_development_skil.Store.Validate.{
  validate, valid_lease, valid_record, valid_event, valid_task, numbered,
}
use project_development_skil.Store.Disk.{ok, stamped}
use project_development_skil.Store.Leases.{release_step, install, count_or, relet}
use project_development_skil.Store.Commits.{transition_step, update_step, recorded}
use project_development_skil.Store.Events.{appended}
use project_development_skil.Store.Batch.{reclaimed, install_all}

all-snoc {ℓ} :
    {A : Type ℓ} (p : A → Bool) (xs : List A) (x : A)
    → all p xs ≡ true
    → p x ≡ true
    → all p (xs ++ x ∷ []) ≡ true
all-snoc p [] x h g = ground arith
all-snoc p (y ∷ ys) x h g = ground (arith, all-snoc p ys x)

all-keep {ℓ} :
    {A : Type ℓ} (p q : A → Bool) (xs : List A) → all p xs ≡ true → all p (keep q xs) ≡ true
all-keep p q [] h = refl
all-keep p q (x ∷ xs) h = ground (arith, all-keep p q xs)

pub and-true : (a b : Bool) → (a && b) ≡ true → (a ≡ true) × (b ≡ true)
and-true a b h = ground arith

numbered-snoc :
    (n : ℕ) (es : List Event) (e : Event)
    → numbered n es ≡ true
    → e.sequence ≡ n + length es
    → numbered n (es ++ e ∷ []) ≡ true
unfolding numbered
numbered-snoc n [] e h g = ground arith
numbered-snoc n (x ∷ es) e h g = ground (arith, numbered-snoc (suc n) es e)

-- Writing the generation and the time does not touch what is validated.
pub validate-stamped :
    (env : Env) (now : ℕ) (s : Snapshot) → validate env (stamped now s) ≡ validate env s
unfolding validate stamped
validate-stamped env now s = refl

module _ (env : Env) (s : Snapshot) where
  pub install-valid :
      (task_id owner secret : String) (expiry : ℕ)
      → is_id task_id ≡ true
      → is_id owner ≡ true
      → is_id secret ≡ true
      → validate env s ≡ true
      → validate env (install task_id owner secret expiry s) ≡ true
  unfolding validate install valid_lease
  install-valid task_id owner secret expiry i o k v = ground (
    arith,
    all-put valid_lease task_id
        (record {
          owner = owner;
          lease_id = secret;
          expires_at = expiry;
          generation = s.generation + 1;
        })
        s.leases,
  )

  pub recorded-valid :
      (task_id : String) (token : Token) (safe : Fields) (status : Status)
      → valid_record env (
        task_id,
        record {
          status = status;
          report = safe;
          digest = env.digest safe;
          attempt = count_or 1 (Dict.get task_id s.attempts);
          lease_id = token.lease_id;
          lease_generation = token.generation;
        },
      )
        ≡ true
      → is_task_status status ≡ true
      → validate env s ≡ true
      → validate env (recorded env task_id token safe status s) ≡ true
  unfolding validate recorded valid_task
  recorded-valid task_id token safe status r t v = ground (
    arith,
    all-put (valid_record env) task_id
        (record {
          status = status;
          report = safe;
          digest = env.digest safe;
          attempt = count_or 1 (Dict.get task_id s.attempts);
          lease_id = token.lease_id;
          lease_generation = token.generation;
        })
        s.reports,
    all-put valid_task task_id status s.tasks,
    all-pop valid_lease task_id s.leases,
  )

  pub appended-valid :
      (e : Event)
      → valid_event e ≡ true
      → e.sequence ≡ s.event_sequence + 1
      → validate env s ≡ true
      → validate env (appended e s) ≡ true
  unfolding validate appended
  appended-valid e h n v = ground (
    arith,
    all-snoc valid_event s.events e,
    numbered-snoc 1 s.events e,
    length-append s.events (e ∷ []),
  )

  pub transition-valid :
      (status : Status) {t : Snapshot}
      → validate env s ≡ true
      → transition_step status s ≡ ok t
      → validate env t ≡ true
  unfolding validate transition_step
  transition-valid status v h = ground arith

  pub update-valid :
      (task_id : String) (status : Status) {t : Snapshot}
      → is_task_status status ≡ true
      → validate env s ≡ true
      → update_step task_id status s ≡ ok t
      → validate env t ≡ true
  unfolding validate update_step valid_task
  update-valid task_id status k v h =
      ground
        (arith, all-put valid_task task_id status s.tasks, all-pop valid_lease task_id s.leases)

  pub release-valid :
      (task_id : String) (token : Token) (now : ℕ) {t : Snapshot}
      → validate env s ≡ true
      → release_step task_id token now s ≡ ok t
      → validate env t ≡ true
  unfolding validate release_step
  release-valid task_id token now v h = ground (arith, all-pop valid_lease task_id s.leases)

  pub relet-valid :
      (task_id secret : String) (expiry : ℕ) (lease : Lease)
      → Dict.get task_id s.leases ≡ some lease
      → is_id secret ≡ true
      → validate env s ≡ true
      → validate env (relet task_id secret expiry (Dict.get task_id s.leases) s) ≡ true
  unfolding validate valid_lease
  relet-valid task_id secret expiry lease h k v = rw h (
      ground (
        arith,
        all-get valid_lease task_id lease s.leases,
        all-put valid_lease task_id
            (record lease { lease_id = secret; expires_at = expiry; generation = s.generation + 1 })
            s.leases,
      ))

  pub reclaimed-valid : (now : ℕ) → validate env s ≡ true → validate env (reclaimed now s) ≡ true
  unfolding validate reclaimed
  reclaimed-valid now v =
      ground (
        arith,
        all-keep valid_lease (λ (item : String × Lease). ltb now item.1.expires_at) s.leases,
      )

pub install_all-valid :
    (env : Env) (secret : ℕ → String) (owner : String) (expiry n : ℕ) (ids : List String)
    → (s : Snapshot) → ((i : ℕ) → is_id (secret i) ≡ true)
    → is_id owner ≡ true
    → all is_id ids ≡ true
    → validate env s ≡ true
    → validate env (install_all secret owner expiry n ids s) ≡ true
unfolding install_all
install_all-valid env secret owner expiry n [] s k o i v = v
install_all-valid env secret owner expiry n (tid ∷ rest) s k o i v =
    let (first, others) = and-true (is_id tid) (all is_id rest) i in
    install_all-valid env secret owner expiry (n + 1) rest (install tid owner (secret n) expiry s) k
      o others (install-valid env s tid owner (secret n) expiry first o (k n) v)
