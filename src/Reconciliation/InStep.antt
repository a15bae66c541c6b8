-- ===== src/Reconciliation/InStep.antt =====
-- scripts/pd_fleet/run_event_reconciliation.py: when a snapshot and a log are consistent.
use project_development_skil.Base.{
  ℕ, String, Bool, true, false, not, ◌&&◌, Option, none, some, List, [], ◌∷◌, ◌≡◌, ◌↔◌, refl, arith,
  eq_iff, length, is_empty, is_some, is_none, Bool-cases, inl, inr, ap,
}
use project_development_skil.Fallible.{◌>>=◌, ◌>>◌, require}
use project_development_skil.Gates.Honest.{bind-some}
use project_development_skil.Readiness.{consistent}
use project_development_skil.Store.State.{Snapshot}
use project_development_skil.Store.Disk.{Result}
use project_development_skil.Events.{Json, EventLog, Lines, limit_fits}
use project_development_skil.Reconciliation.{
  Reason, Report, loaded, replayed, is_foreign, is_disowned, last_sequence, snapshot_reasons,
  compared, all_reasons, status_of, report, reconcile_run_events, same_number, is_run_id,
}

-- A snapshot and a log that tell the same
pub record IsInStep (run : String) (log : EventLog) (o : Option Snapshot) (log_exists : Bool)
    (events : Lines) : Type 0 where
  pub snapshot : Snapshot
  pub stored : o ≡ some snapshot
  pub logged : log_exists ≡ true
  pub own : snapshot.run_id ≡ run
  pub kept : is_foreign run log events ≡ false
  pub owned : is_disowned log events ≡ false
  pub last : last_sequence true events ≡ some snapshot.event_sequence
  pub count : length events ≡ length snapshot.events

status-consistent : (rs : List Reason) → (status_of rs ≡ consistent) ↔ (is_empty rs ≡ true)
status-consistent [] = (λ h. refl, λ h. refl)
status-consistent (r ∷ rs) = (λ h. cc, λ h. cc)

same_number_iff : (n : ℕ) (o : Option ℕ) → (same_number n o ≡ true) ↔ (o ≡ some n)
same_number_iff n none = (λ h. cc, λ h. cc)
same_number_iff n (some m) =
    (λ h. ap some (ground arith), λ h. (let q : m ≡ n = cc in ground arith))

module _ (run : String) (log : EventLog) (events : Lines) where
  all_reasons-InStep :
      (o : Option Snapshot) (log_exists : Bool)
      → is_empty (all_reasons run log o log_exists events) ≡ true
      → IsInStep run log o log_exists events
  unfolding all_reasons snapshot_reasons compared
  all_reasons-InStep none log_exists h = cc
  all_reasons-InStep (some s) false h = cc
  all_reasons-InStep (some s) true h = record {
    snapshot = s;
    stored = refl;
    logged = refl;
    own = (eq_iff s.run_id run).0 (ground arith);
    kept = ground arith;
    owned = ground arith;
    last = (same_number_iff s.event_sequence (last_sequence true events)).0 (ground arith);
    count = ground arith;
  }

  InStep-all_reasons :
      (o : Option Snapshot) (log_exists : Bool)
      → IsInStep run log o log_exists events
      → is_empty (all_reasons run log o log_exists events) ≡ true
  unfolding all_reasons snapshot_reasons compared
  InStep-all_reasons o log_exists i =
      let n = (same_number_iff i.snapshot.event_sequence (last_sequence true events)).1 i.last in
      let e = (eq_iff i.snapshot.run_id run).1 i.own in
      rw (i.stored, i.logged) (ground (arith, n, e, i.kept, i.owned, i.count))

  report-consistent_iff :
      (o : Option Snapshot) (log_exists : Bool)
      → ((report run log o log_exists events).status ≡ consistent)
        ↔ IsInStep run log o log_exists events
  unfolding report
  report-consistent_iff o log_exists =
      let s = status-consistent (all_reasons run log o log_exists events) in
      let test = is_none o && (not log_exists && not (is_foreign run log events)) in
      elim (Bool-cases test) [
        | inr some_source ↦ rw some_source (
            (
              λ h. all_reasons-InStep o log_exists (s.0 h),
              λ i. s.1 (InStep-all_reasons o log_exists i),
            ))
        | inl no_source ↦
            rw no_source ((λ h. cc, λ i. absurd (ground (arith, i.stored, i.logged, no_source))))
      ]

-- A reconciliation is consistent exactly when there are a snapshot and a log, the snapshot, the log
-- and the replayed events are of the run, the events are of the log's epoch, the snapshot's event
-- sequence is that of the last replayed event, or 0 without one, and it has as many events as were
-- replayed.
pub reconcile-consistent_iff :
    (json : Json) (log : EventLog) (run : String) (limit : ℕ) (result : Result Snapshot)
    → (file : Option Lines) {r : Report} {o : Option Snapshot} {events : Lines}
    → loaded result ≡ some o
    → replayed json limit file ≡ some events
    → reconcile_run_events json log run limit result file ≡ some r
    → (r.status ≡ consistent) ↔ IsInStep run log o (is_some file) events
unfolding reconcile_run_events
reconcile-consistent_iff json log run limit result file {r} {o} {events} l p h =
    let make =
      λ (snapshot : Option Snapshot) (es : Lines). report run log snapshot (is_some file) es in
    let (u, a, f) =
      bind-some (require (is_run_id run))
        (λ _.
          require (limit_fits limit)
          >> (loaded result >>= λ snapshot.
              replayed json limit file >>= λ es. some (make snapshot es)))
        h in
    let (v, b, g) =
      bind-some (require (limit_fits limit))
        (λ _.
          loaded result >>= λ snapshot. replayed json limit file >>= λ es. some (make snapshot es))
        f in
    let n = rw (l, p) at g in
    let q : r ≡ report run log o (is_some file) events = cc n in
    rw q (report-consistent_iff run log events o (is_some file))
