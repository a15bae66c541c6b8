-- ===== src/Store/Refinement/Writes.antt =====
-- The calls of the store that do not go through `_mutate`, and `append_event`, on a disk whose
-- reader gets `s`.
use project_development_skil.Base.{
  ℕ, ◌+◌, String, true, false, Option, none, some, ◌≡◌, inl, inr, refl, arith, eq_iff, is_nil,
  Option-cases, leb,
}
use project_development_skil.Dict
use project_development_skil.Dict.{all-get}
use project_development_skil.Value.{Fields}
use project_development_skil.Store.State.{
  Status, Snapshot, Env, Event, Token, is_id, is_task_status, is_report_status, valid_report,
}
use project_development_skil.Store.Validate.{
  validate, valid_lease, valid_record, valid_event, is_hex,
}
use project_development_skil.Store.Redact.{redact_fields}
use project_development_skil.Store.Disk.{Result, ok, err, Result-cases, Disk, current}
use project_development_skil.Store.Crash.{IsOrdered}
use project_development_skil.Store.Evolution.{IsPositive, recorded-Evolves, appended-Evolves}
use project_development_skil.Store.Validity.{recorded-valid, appended-valid}
use project_development_skil.Store.Leases.{check_token, count_or}
use project_development_skil.Store.Commits.{
  Committed, replayed, written, commit, commit_step, recorded, save_commit,
}
use project_development_skil.Store.Events.{
  append_event, append_step, event_of, appended, append_terminal_event_if_absent, terminal_step,
  terminal_event, Appended, already, fresh, save_event,
}
use project_development_skil.Store.Ops.{well_named}
use project_development_skil.Store.Refinement.{
  After, KeepsBy, guarded-After, stay, mutate-After, current-valid, opened-cases, written-After,
}

-- A token that passes the check names a leased task, by an identifier.
checked-is_id :
    (env : Env) (task_id : String) (token : Token) (now : ℕ) (s : Snapshot)
    → validate env s ≡ true
    → check_token task_id token now s ≡ true
    → (is_id task_id ≡ true) × (is_id token.lease_id ≡ true)
unfolding check_token validate valid_lease
checked-is_id env task_id token now s v h = elim (Option-cases (Dict.get task_id s.leases)) [
  | inl n ↦ absurd (ground arith)
  | inr (lease, f) ↦
      ground
        (arith, all-get valid_lease task_id lease s.leases, eq_iff lease.lease_id token.lease_id)
]

attempt-positive :
    (task_id : String) (s : Snapshot)
    → IsPositive s
    → leb 1 (count_or 1 (Dict.get task_id s.attempts)) ≡ true
attempt-positive task_id s p = elim (Option-cases (Dict.get task_id s.attempts)) [
  | inl n ↦ rw n refl
  | inr (k, f) ↦ rw f (all-get (λ item. leb 1 item.1) task_id k s.attempts p f)
]

-- The record that a first commit keeps is one that `_validate` takes.
record-valid :
    (env : Env) (task_id : String) (token : Token) (safe : Fields) (status : Status) (now : ℕ)
    → (s : Snapshot) → is_hex 64 (env.digest safe) ≡ true
    → is_report_status status ≡ true
    → valid_report env safe status ≡ true
    → IsPositive s
    → validate env s ≡ true
    → check_token task_id token now s ≡ true
    → valid_record env (
      task_id,
      record {
        status = status;
        report = safe;
        digest = env.digest safe;
        attempt = count_or 1 (Dict.get task_id s.attempts);
        lease_id = token.lease_id;
        lease_generation = token.generation;
      },
    )
      ≡ true
unfolding valid_record
record-valid env task_id token safe status now s d st r p v h =
    let (i, j) = checked-is_id env task_id token now s v h in
    rw
      (
        i,
        st,
        attempt-positive task_id s p,
        j,
        d,
        (eq_iff (env.digest safe) (env.digest safe)).1 refl,
        r,
      )
      refl

report-task_status :
    (status : Status) → is_report_status status ≡ true → is_task_status status ≡ true
report-task_status status h = ground arith

-- A commit that writes has checked its token, and found no report.
pub commit_step-written :
    (env : Env) (task_id : String) (token : Token) (safe : Fields) (status : Status) (now : ℕ)
    → (s : Snapshot) {u : Snapshot}
    → commit_step env task_id token safe status now s ≡ ok (written u)
    → (check_token task_id token now s ≡ true)
      × (Dict.get task_id s.reports ≡ none)
      × (u ≡ recorded env task_id token safe status s)
unfolding commit_step
commit_step-written env task_id token safe status now s h = ground arith

commit_step-replayed :
    (env : Env) (task_id : String) (token : Token) (safe : Fields) (status : Status) (now : ℕ)
    → (s : Snapshot) {u : Snapshot}
    → commit_step env task_id token safe status now s ≡ ok (replayed u)
    → u ≡ s
unfolding commit_step
commit_step-replayed env task_id token safe status now s h = ground arith

-- A well-named mapping gives an event that `_valid_event` takes, at any place in the sequence.
event-valid :
    (env : Env) (item : Fields) (n : ℕ) {e : Event}
    → well_named env item ≡ true
    → event_of env item (n + 1) ≡ ok e
    → (valid_event e ≡ true) × (e.sequence ≡ n + 1)
unfolding well_named valid_event
event-valid env item n w h = ground arith

append-Keeps :
    (env : Env) (s : Snapshot) (item : Fields) (owner : String)
    → well_named env item ≡ true
    → KeepsBy env s owner (append_step env item)
unfolding append_step
append-Keeps env s item owner w u v same h =
    elim (Result-cases (event_of env item (s.event_sequence + 1))) [
      | inr (x, k) ↦ absurd (ground arith)
      | inl (e, k) ↦
          (let (ev, n) = event-valid env item s.event_sequence w k in
            let r : u ≡ appended e s = ground arith in
            rw r (appended-valid env s e ev n v, unfold appended in refl, appended-Evolves s e))
    ]

is_id-nonempty : (s : String) → is_id s ≡ true → is_nil s ≡ false
unfolding is_id
is_id-nonempty String.[] h = cc
is_id-nonempty (String.◌∷◌ c s) h = refl

terminal_event-valid :
    (task_id : String) (status : Status) (n : ℕ)
    → is_id task_id ≡ true
    → valid_event (terminal_event task_id status (n + 1)) ≡ true
unfolding valid_event terminal_event
terminal_event-valid task_id status n i = ground (arith, is_id-nonempty task_id)

-- A terminal event that is appended is the task's own.
terminal_step-fresh :
    (task_id : String) (s : Snapshot) {u : Snapshot}
    → terminal_step task_id s ≡ ok (fresh u)
    → (status : Status) × (u ≡ appended (terminal_event task_id status (s.event_sequence + 1)) s)
unfolding terminal_step
terminal_step-fresh task_id s h = elim (Option-cases (Dict.get task_id s.reports)) [
  | inl n ↦ absurd (ground arith)
  | inr (r, f) ↦ (r.status, ground arith)
]

module _ (env : Env) (d : Disk) (s : Snapshot) (c : current env d ≡ some s)
    (o : IsOrdered env d) where
  save_commit-After :
      (task_id : String) (token : Token) (safe : Fields) (status : Status) (now stamp : ℕ)
      → IsPositive s
      → is_hex 64 (env.digest safe) ≡ true
      → is_report_status status ≡ true
      → valid_report env safe status ≡ true
      → (r : Result Committed) → commit_step env task_id token safe status now s ≡ r
      → After env s (save_commit env d stamp r).1
  unfolding save_commit
  save_commit-After task_id token safe status now stamp p dg st vr (err e) h = stay env d s c o
  save_commit-After task_id token safe status now stamp p dg st vr (ok (replayed u)) h =
      stay env d s c o
  save_commit-After task_id token safe status now stamp p dg st vr (ok (written u)) h =
      let v = current-valid env d c in
      let (k, f, e) = commit_step-written env task_id token safe status now s h in
      let rv = record-valid env task_id token safe status now s dg st vr p v k in
      written-After env d s c o stamp u
        (rw e (recorded-valid env s task_id token safe status rv (report-task_status status st) v))
        (rw e (unfold recorded in refl)) (rw e (recorded-Evolves s env task_id token safe status f))

  pub commit-After :
      (task_id : String) (token : Token) (owner : String) (report : Fields) (status : Status)
      → (now stamp : ℕ) → IsPositive s
      → is_hex 64 (env.digest (redact_fields env report)) ≡ true
      → After env s (commit env d task_id token owner report status now stamp).1
  unfolding commit
  commit-After task_id token owner report status now stamp p dg =
      let safe = redact_fields env report in
      guarded-After env d s c o (is_report_status status) _ _ λ st.
        guarded-After env d s c o (valid_report env safe status) _ _ λ vr.
          elim (opened-cases env d s c o owner none) [
            | inr (e, h) ↦ rw h (stay env d s c o)
            | inl (h, same) ↦
                rw h (save_commit-After task_id token safe status now stamp p dg st vr _ refl)
          ]

  pub append-After :
      (event : Fields) (owner : String) (expected : Option ℕ) (stamp : ℕ)
      → well_named env (redact_fields env event) ≡ true
      → After env s (append_event env d event owner expected stamp).1
  unfolding append_event
  append-After event owner expected stamp w =
      mutate-After env d s c o owner expected stamp _
        (append-Keeps env s (redact_fields env event) owner w)

  save_event-After :
      (task_id : String) (stamp : ℕ)
      → is_id task_id ≡ true
      → (r : Result Appended) → terminal_step task_id s ≡ r
      → After env s (save_event env d stamp r).1
  unfolding save_event
  save_event-After task_id stamp i (err e) h = stay env d s c o
  save_event-After task_id stamp i (ok (already u)) h = stay env d s c o
  save_event-After task_id stamp i (ok (fresh u)) h =
      let (status, e) = terminal_step-fresh task_id s h in
      let n = s.event_sequence in
      let ev = terminal_event-valid task_id status n i in
      written-After env d s c o stamp u
        (rw e (
          appended-valid env s (terminal_event task_id status (n + 1)) ev
            (unfold terminal_event in refl) (current-valid env d c)))
        (rw e (unfold appended in refl))
        (rw e (appended-Evolves s (terminal_event task_id status (n + 1))))

  pub append_terminal-After :
      (task_id owner : String) (expected : Option ℕ) (stamp : ℕ)
      → After env s (append_terminal_event_if_absent env d task_id owner expected stamp).1
  unfolding append_terminal_event_if_absent
  append_terminal-After task_id owner expected stamp =
      guarded-After env d s c o (is_id task_id) _ _ λ i.
        elim (opened-cases env d s c o owner expected) [
          | inr (e, h) ↦ rw h (stay env d s c o)
          | inl (h, same) ↦ rw h (save_event-After task_id stamp i _ refl)
        ]
