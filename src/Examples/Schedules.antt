-- ===== src/Examples/Schedules.antt =====
-- The scheduler of scripts/pd_fleet/scheduler.py at concrete inputs, and an event that is lost.
use project_development_skil.Base.{
  ◌+◌, String, Bool, List, true, false, none, some, [], ◌∷◌, ◌≡◌, refl, All,
}
use project_development_skil.Dict
use project_development_skil.Value.{Fields, string, end, field, get}
use project_development_skil.Store.State.{Snapshot, Event, is_id, pending}
use project_development_skil.Store.Validate.{
  validate, valid_event, valid_lease, numbered, valid_task,
}
use project_development_skil.Store.Redact.{redact_fields}
use project_development_skil.Store.Disk.{
  ok, Disk, absent, stored, candidate, newer, current, stamped, mutate,
}
use project_development_skil.Store.Events.{append_event, event_of, appended}
use project_development_skil.Store.Lost.{append_event_lost}
use project_development_skil.Scheduler.{
  Posix, ready_ids, task_map, paths_of, overlap, paths_meet, starts_with, sorted, str_leb,
  status_of, is_done, open_waves, minimum, runnable,
}
use project_development_skil.Store.Crash.{IsOrdered}
use project_development_skil.Scheduler.Stale.{recover_stale, Others, drop_stale, is_expired}
use project_development_skil.Scheduler.Stale.Later.{Recovered, IsTame, mutate-Cleared, unchanged}
use project_development_skil.Scheduler.Stale.Recovery.{recover_stale-Recovered}
use project_development_skil.Scheduler.Ready.{IsReady, ready_ids-IsReady}
use project_development_skil.Scheduler.Select.{
  select, picks, pick_all, pick, occupied, clashes, task_paths,
}
use project_development_skil.Scheduler.Apart.{Selection, select-Selection}
use project_development_skil.Examples.Runs.{env, created, disk, created-current}

-- Three tasks of one wave, of which the last waits for the first, and one of the next wave.
abbrev planned : Snapshot
planned = record created {
  plan =
      record { id = "b"; depends_on = []; wave = 0; owned_paths = "src/b" ∷ []; status = pending }
      ∷ record { id = "a"; depends_on = []; wave = 0; owned_paths = "src/a" ∷ []; status = pending }
      ∷ record { id = "c"; depends_on = "b" ∷ []; wave = 0; owned_paths = []; status = pending }
      ∷ record { id = "d"; depends_on = []; wave = 1; owned_paths = []; status = pending }
      ∷ [];
}

planned-ready : ready_ids (some 5) planned ≡ "a" ∷ "b" ∷ []
unfolding ready_ids open_waves minimum runnable sorted str_leb task_map status_of is_done Dict.get
    Dict.put
planned-ready = refl

ready_ids-IsReady_example : All (IsReady (some 5) planned) (ready_ids (some 5) planned)
ready_ids-IsReady_example = ready_ids-IsReady (some 5) planned

-- A run whose only lease has expired.
abbrev stale : Snapshot
stale = record created {
  leases = ("a", record { owner = "lead"; lease_id = "s0"; expires_at = 4; generation = 1 }) ∷ [];
}

abbrev stale_disk : Disk
stale_disk = record { primary = stored stale; backup = absent }

stale-current : current env stale_disk ≡ some stale
unfolding current candidate newer validate numbered valid_task valid_lease is_id
stale-current = refl

stale-IsOrdered : IsOrdered env stale_disk
unfolding candidate validate numbered valid_task valid_lease is_id
stale-IsOrdered = tt

-- Another scheduler of the same owner drops the lease of "a" before each reading.
abbrev rivals : Others
rivals = record {
  before = λ k d. (mutate env d "lead" none 6 (λ u. ok (drop_stale 5 "a" u))).1;
  between = λ k d. d;
}

abbrev all_held : String → Bool
all_held k = true

rivals-before-IsTame : (k : String) → IsTame env 5 all_held (rivals.before k)
rivals-before-IsTame k d s c o = (mutate-Cleared env 5 all_held d s c o "lead" 6 "a" none).after

rivals-between-IsTame : (k : String) → IsTame env 5 all_held (rivals.between k)
rivals-between-IsTame k d s c o = unchanged env 5 all_held d s c o

recover_stale-Recovered_example :
    let outcome = recover_stale env rivals stale_disk "lead" (some 5) (λ k. 7) in
    (r : Recovered env 5 all_held stale outcome.1) × ((ids : List String)
      → outcome.0 ≡ ok ids
      → (k : String) → is_expired 5 (Dict.get k r.next.leases) ≡ false)
recover_stale-Recovered_example =
    recover_stale-Recovered env rivals "lead" 5 (λ k. 7) all_held stale_disk stale stale-current
      stale-IsOrdered rivals-before-IsTame rivals-between-IsTame

-- Paths with no dots in them.
abbrev posix : Posix
posix = record { parts = λ p. p ∷ []; text = λ p. p }

planned-selected : select posix 2 planned ("b" ∷ "a" ∷ []) 3 5 ≡ ok ("a" ∷ "b" ∷ [])
unfolding select picks pick_all pick occupied clashes task_paths paths_of overlap paths_meet
    starts_with ready_ids open_waves minimum runnable sorted str_leb task_map status_of is_done
    Dict.get Dict.put
planned-selected = refl

select-Selection_example : Selection posix 2 planned ("b" ∷ "a" ∷ []) 3 5 ("a" ∷ "b" ∷ [])
select-Selection_example = select-Selection posix 2 planned ("b" ∷ "a" ∷ []) 3 5 planned-selected

nested_overlap : overlap ("src" ∷ []) ("src/a" ∷ []) ≡ true
unfolding overlap paths_meet starts_with
nested_overlap = refl

sibling_apart : overlap ("src" ∷ []) ("srcs" ∷ []) ≡ false
unfolding overlap paths_meet starts_with
sibling_apart = refl

-- An event whose identifier has a blank in it.
abbrev spaced : Fields
spaced = field "event_id" (string "a b") end

abbrev spaced_event : Event
spaced_event = record { event_id = "a b"; ordering_key = "a b"; sequence = 1; payload = spaced }

spaced-taken :
    event_of env (redact_fields env spaced) (created.event_sequence + 1) ≡ ok spaced_event
unfolding event_of redact_fields get
spaced-taken = refl

disk-primary : candidate env disk.primary ≡ some created
unfolding candidate validate numbered valid_task is_id
disk-primary = refl

spaced-invalid : valid_event spaced_event ≡ false
unfolding valid_event is_id
spaced-invalid = refl

append_event_lost_example :
    ((append_event env disk spaced "lead" none 9).0
      ≡ ok (stamped 9 (appended spaced_event created)))
    × (current env (append_event env disk spaced "lead" none 9).1 ≡ some created)
append_event_lost_example =
    append_event_lost env disk created spaced "lead" 9 created-current disk-primary refl
      spaced-taken spaced-invalid
