-- ===== src/Store/Lost.antt =====
-- `append_event` on a mapping whose `event_id` does not have the form that `_valid_event` demands.
use project_development_skil.Base.{
  ℕ, ◌+◌, String, false, none, some, List, [], ◌∷◌, ◌++◌, ◌≡◌, refl, arith, eq_iff, all,
}
use project_development_skil.Value.{Fields}
use project_development_skil.Store.State.{Snapshot, Env, Event}
use project_development_skil.Store.Validate.{validate, valid_event}
use project_development_skil.Store.Redact.{redact_fields}
use project_development_skil.Store.Disk.{
  ok, Disk, candidate, newer, current, backed_up, write, opened, stamped, mutate,
}
use project_development_skil.Store.Events.{append_event, append_step, event_of, appended}

all-snoc-false :
    (e : Event) (es : List Event) → valid_event e ≡ false → all valid_event (es ++ e ∷ []) ≡ false
all-snoc-false e [] h = ground arith
all-snoc-false e (x ∷ xs) h = ground (arith, all-snoc-false e xs h)

appended-invalid :
    (env : Env) (e : Event) (s : Snapshot) (now : ℕ)
    → valid_event e ≡ false
    → validate env (stamped now (appended e s)) ≡ false
unfolding validate stamped appended
appended-invalid env e s now h = ground (arith, all-snoc-false e s.events h)

-- Writing what `_validate` refuses over a valid primary leaves the reader with the primary.
write-invalid :
    (env : Env) (d : Disk) (s t : Snapshot)
    → candidate env d.primary ≡ some s
    → validate env t ≡ false
    → current env (write env d t) ≡ some s
unfolding current write backed_up candidate newer
write-invalid env d s t h k = ground arith

append_step-ok :
    (env : Env) (item : Fields) (s : Snapshot) {e : Event}
    → event_of env item (s.event_sequence + 1) ≡ ok e
    → append_step env item s ≡ ok (appended e s)
unfolding append_step
append_step-ok env item s h = rw h refl

-- An event that `append_event` takes and `_valid_event` does not: the call returns the snapshot
-- with the event appended, and the next reader gets the snapshot from before the call.
pub append_event_lost :
    (env : Env) (d : Disk) (s : Snapshot) (event : Fields) (owner : String) (stamp : ℕ) {e : Event}
    → current env d ≡ some s
    → candidate env d.primary ≡ some s
    → s.owner ≡ owner
    → event_of env (redact_fields env event) (s.event_sequence + 1) ≡ ok e
    → valid_event e ≡ false
    → ((append_event env d event owner none stamp).0 ≡ ok (stamped stamp (appended e s)))
      × (current env (append_event env d event owner none stamp).1 ≡ some s)
unfolding append_event mutate
append_event_lost env d s event owner stamp {e} c p same h k =
    let t = stamped stamp (appended e s) in
    let o : opened env d owner none ≡ ok s = ground (arith, eq_iff s.owner owner) in
    let a = append_step-ok env (redact_fields env event) s h in
    rw (o, a) (refl, write-invalid env d s t p (appended-invalid env e s stamp k))
