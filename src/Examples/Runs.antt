-- ===== src/Examples/Runs.antt =====
-- A run of scripts/pd_fleet/run_store.py at concrete inputs: one task, claimed and reported on.
use project_development_skil.Base.{
  ℕ, ◌+◌, ◌≤◌, ◌<◌, String, true, false, none, some, List, [], ◌∷◌, ◌≡◌, ◌≢◌, ◌⊎◌, refl, arith,
  eq_iff, str_eq, All, all, any, length, pos,
}
use project_development_skil.Dict
use project_development_skil.Value.{Fields, string, obj, end, field}
use project_development_skil.Store.State.{
  Status, PlanTask, Lease, Token, Snapshot, Env, is_id, running, pending, blocked, completed,
}
use project_development_skil.Store.Validate.{validate, valid_task, numbered, is_hex}
use project_development_skil.Store.Redact.{redact_fields, IsCleanFields, redact_fields-IsClean}
use project_development_skil.Store.Disk.{
  ok, Disk, absent, stored, candidate, newer, current, write, write_phases, stamped,
}
use project_development_skil.Store.Leases.{
  claim_step, renew_step, token_of, check_token, token_shaped, known, is_terminal, install,
  is_active, count_or, plus_seconds,
}
use project_development_skil.Store.Commits.{commit_step, recorded, written, replayed}
use project_development_skil.Store.Batch.{
  batch_step, first_come, on_offer, reclaimed, mem, distinct, acceptable, settle, install_all,
}
use project_development_skil.Store.Ops.{
  Op, perform_all, do_claim, do_commit, do_append_terminal, AllAdmissible,
}
use project_development_skil.Store.Crash.{IsOrdered, write_crash_safe}
use project_development_skil.Store.Refinement.{After}
use project_development_skil.Store.History.{perform_all-After}
use project_development_skil.Store.Fencing.{claim_exclusive, renew_fences, commit_final}
use project_development_skil.Store.Capacity.{batch_step_bounded}

-- A digest of the right form, for every mapping.
abbrev zeros : String
zeros = "0000000000000000000000000000000000000000000000000000000000000000"

abbrev pub env : Env
env = record {
  sensitive = λ k. str_eq k "token";
  scrub = λ s. s;
  is_instant = λ v. true;
  digest = λ fs. zeros;
}

abbrev task : PlanTask
task = record { id = "a"; depends_on = []; wave = 0; owned_paths = []; status = pending }

abbrev pub created : Snapshot
created = record {
  run_id = "r";
  plan = task ∷ [];
  generation = 1;
  owner = "lead";
  status = running;
  tasks = ("a", pending) ∷ [];
  leases = [];
  attempts = [];
  reports = [];
  events = [];
  event_sequence = 0;
  updated_at = 0;
}

abbrev pub disk : Disk
disk = record { primary = stored created; backup = absent }

pub created-current : current env disk ≡ some created
unfolding current candidate newer validate numbered valid_task is_id
created-current = refl

abbrev lease : Lease
lease = record { owner = "lead"; lease_id = "s1"; expires_at = 110; generation = 2 }

abbrev leased : Snapshot
leased = record created { leases = ("a", lease) ∷ []; attempts = ("a", 1) ∷ [] }

abbrev token : Token
token = record { run_id = "r"; task_id = "a"; lease_id = "s1"; generation = 2; expires_at = 110 }

leased-claimed : claim_step "a" "lead" 10 (pos 100) "s1" created ≡ ok leased
unfolding claim_step known is_terminal plus_seconds install Dict.get Dict.put
leased-claimed = refl

leased-token : token_of "a" leased ≡ some token
unfolding token_of Dict.get
leased-token = refl

claim_exclusive_example :
    ((known "a" created ≡ true)
      × (is_terminal "a" created ≡ false)
      × (is_active 10 (Dict.get "a" created.leases) ≡ false)
      × (Dict.get "a" leased.attempts ≡ some (count_or 0 (Dict.get "a" created.attempts) + 1)))
    × ((10 < token.expires_at)
        × (token.lease_id ≡ "s1")
        × ((n : ℕ) → n < token.expires_at → check_token "a" token n leased ≡ true))
    × ((k : String) → k ≢ "a" → Dict.get k leased.leases ≡ Dict.get k created.leases)
claim_exclusive_example =
    claim_exclusive "a" "lead" 10 (pos 100) "s1" created leased-claimed leased-token

abbrev renewed : Token
renewed = record token { lease_id = "s2"; expires_at = 150 }

abbrev releted : Snapshot
releted = record leased { leases = ("a", record lease { lease_id = "s2"; expires_at = 150 }) ∷ [] }

releted-renewed : renew_step "a" token 50 (pos 100) "s2" leased ≡ ok releted
unfolding renew_step check_token token_shaped plus_seconds Dict.get Dict.put
releted-renewed = refl

releted-token : token_of "a" releted ≡ some renewed
unfolding token_of Dict.get
releted-token = refl

renew_fences_example :
    (check_token "a" token 50 leased ≡ true)
    × ((n : ℕ) → check_token "a" token n releted ≡ false)
    × (50 < renewed.expires_at)
    × ((n : ℕ) → n < renewed.expires_at → check_token "a" renewed n releted ≡ true)
renew_fences_example =
    renew_fences "a" token renewed 50 (pos 100) "s2" leased releted releted-renewed releted-token
      (ground (arith, eq_iff "s2" "s1"))

abbrev report : Fields
report =
    field "status" (string "blocked")
      (field "reason" (obj (field "token" (string "abc") (field "note" (string "wait") end))) end)

abbrev reported : Snapshot
unfolding recorded Dict.get Dict.put Dict.pop
reported = recorded env "a" token report blocked leased

reported-written : commit_step env "a" token report blocked 50 leased ≡ ok (written reported)
unfolding commit_step check_token token_shaped recorded Dict.get Dict.put Dict.pop
reported-written = refl

commit_final_example :
    ((n : ℕ) → check_token "a" token n reported ≡ false)
    × ((n : ℕ) → commit_step env "a" token report blocked n reported ≡ ok (replayed reported))
    × ((t : Token) (f : Fields) (st : Status) (n : ℕ) (v : Snapshot)
        → commit_step env "a" t f st n reported ≢ ok (written v))
commit_final_example = commit_final env "a" token report blocked 50 leased reported reported-written

redact_fields-IsClean_example : IsCleanFields env (redact_fields env report)
redact_fields-IsClean_example = redact_fields-IsClean env report

report_redacted :
    redact_fields env report
    ≡ field "status" (string "blocked") (
        field "reason"
          (obj (field "token" (string "[REDACTED]") (field "note" (string "wait") end)))
          end)
unfolding redact_fields
report_redacted = refl

disk-IsOrdered : IsOrdered env disk
unfolding candidate validate numbered valid_task is_id
disk-IsOrdered = tt

created-next-valid : validate env (stamped 5 created) ≡ true
unfolding stamped validate numbered valid_task is_id
created-next-valid = refl

created-older : created.generation < (stamped 5 created).generation
unfolding stamped
created-older = omega arith

write_crash_safe_example :
    All
      (λ x. (current env x ≡ some created) ⊎ (current env x ≡ some (stamped 5 created)))
      (write_phases env disk (stamped 5 created))
    × (current env (write env disk (stamped 5 created)) ≡ some (stamped 5 created))
    × IsOrdered env (write env disk (stamped 5 created))
write_crash_safe_example =
    write_crash_safe env disk created (stamped 5 created) disk-IsOrdered created-current
      created-next-valid created-older

-- The task is claimed, and reported on twice; the second report is refused.
abbrev ops : List Op
ops =
    do_claim "a" "lead" (pos 100) (some 1) 10 11 "s1"
    ∷ do_commit "a" token "lead" report blocked 50 51
    ∷ do_commit "a" token "lead" report completed 60 61
    ∷ do_append_terminal "a" "lead" none 70
    ∷ []

ops-AllAdmissible : AllAdmissible env ops
unfolding is_id is_hex
ops-AllAdmissible = (refl, (refl, (refl, (tt, tt))))

perform_all-After_example : After env created (perform_all env disk ops)
perform_all-After_example =
    perform_all-After env disk created ops created-current disk-IsOrdered refl ops-AllAdmissible

abbrev batched : Snapshot
batched = record leased { generation = 2; updated_at = 11 }

batched-claimed :
    batch_step (λ n. "s1") ("a" ∷ []) "lead" 2 (pos 100) 10 11 first_come created
    ≡ ok (record { next = some batched; claimed = "a" ∷ [] })
unfolding batch_step reclaimed known is_terminal on_offer acceptable distinct settle install_all
    install plus_seconds stamped Dict.get Dict.put
batched-claimed = refl

batch_step_bounded_example :
    (length batched.leases ≤ 2)
    × (distinct ("a" ∷ []) ≡ true)
    × (all (λ tid. mem tid (on_offer (reclaimed 10 created) ("a" ∷ []))) ("a" ∷ []) ≡ true)
    × (all (λ tid. known tid created) ("a" ∷ []) ≡ true)
    × (any (λ tid. is_terminal tid created) ("a" ∷ []) ≡ false)
batch_step_bounded_example =
    batch_step_bounded (λ n. "s1") ("a" ∷ []) "lead" 2 (pos 100) 10 11 first_come created
      batched-claimed refl
