-- ===== src/Store/Validate.antt =====
-- scripts/pd_fleet/run_store.py, `_validate` and its helpers: whether a snapshot read from disk is
-- taken, on the fields of the model.
use Prim.Native.Char.{code}
use project_development_skil.Base.{
  ℕ, zero, suc, String, Bool, true, false, not, ◌&&◌, ◌||◌, Option, none, some, List, [], ◌∷◌, leb,
  ◌==◌, str_eq, all, is_nil, length,
}
use project_development_skil.Value.{Value, number, obj, get}
use project_development_skil.Store.State.{
  Status, Lease, ReportRecord, Event, Snapshot, Env, is_id, is_run_status, is_task_status,
  is_report_status, valid_report,
}

-- [0-9a-f]{n}
unfoldable pub is_hex : ℕ → String → Bool
is_hex zero String.[] = true
is_hex (suc n) (String.◌∷◌ c s) =
    ((leb b'0' (code c) && leb (code c) b'9') || (leb b'a' (code c) && leb (code c) b'f'))
    && is_hex n s
is_hex _ _ = false

unfoldable pub valid_lease : String × Lease → Bool
valid_lease (task_id, lease) = is_id task_id && (is_id lease.owner && is_id lease.lease_id)

-- _valid_report_record, for an entry of the reports
unfoldable pub valid_record : Env → String × ReportRecord → Bool
valid_record env (task_id, r) =
    is_id task_id
    && (is_report_status r.status
        && (leb 1 r.attempt
            && (is_id r.lease_id
                && (is_hex 64 r.digest
                    && (str_eq (env.digest r.report) r.digest
                        && valid_report env r.report r.status)))))

-- `"generation" in event` wants a number that is not negative.
abbrev number_if_given : Option Value → Bool
number_if_given none = true
number_if_given (some (number n)) = true
number_if_given (some _) = false

-- `"metadata" in event` wants a mapping.
abbrev object_if_given : Option Value → Bool
object_if_given none = true
object_if_given (some (obj fs)) = true
object_if_given (some _) = false

-- _valid_event
unfoldable pub valid_event : Event → Bool
unfolding get
valid_event e =
    leb 1 e.sequence
    && (is_id e.event_id
        && (not (is_nil e.ordering_key)
            && (number_if_given (get "generation" e.payload)
                && object_if_given (get "metadata" e.payload))))

-- The sequences are n, n + 1, …
unfoldable pub numbered : ℕ → List Event → Bool
numbered n [] = true
numbered n (e ∷ es) = e.sequence == n && numbered (suc n) es

unfoldable pub valid_task : String × Status → Bool
valid_task (task_id, status) = is_task_status status

unfoldable pub validate : Env → Snapshot → Bool
unfolding numbered
validate env s =
    (is_id s.owner && is_run_status s.status)
    && (all valid_task s.tasks
        && (all valid_lease s.leases
            && (all (valid_record env) s.reports
                && (all valid_event s.events
                    && (numbered 1 s.events && length s.events == s.event_sequence)))))
