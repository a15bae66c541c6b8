-- ===== src/Store/Ops.antt =====
-- The calls on a run as data, for statements about every sequence of them, and what a call must
-- bring for the snapshot that it writes to be taken again.
use project_development_skil.Base.{ℕ, String, Bool, true, Option, List, [], ◌∷◌, ◌≡◌, ℤ}
use project_development_skil.Value.{Fields}
use project_development_skil.Store.State.{Status, Token, Event, Env, is_id}
use project_development_skil.Store.Validate.{valid_event, is_hex}
use project_development_skil.Store.Redact.{redact_fields}
use project_development_skil.Store.Disk.{Disk, Result, ok, err}
use project_development_skil.Store.Leases.{claim, renew, release}
use project_development_skil.Store.Commits.{transition, update_task_status, commit}
use project_development_skil.Store.Events.{append_event, append_terminal_event_if_absent, event_of}
use project_development_skil.Store.Batch.{Selector, claim_many}

pub data Op : Type 0 where
  do_claim : String → String → ℤ → Option ℕ → ℕ → ℕ → String → Op
  do_claim_many : (ℕ → String) → List String → String → ℕ → ℤ → ℕ → ℕ → Selector → Op
  do_renew : String → Token → String → ℤ → ℕ → ℕ → String → Op
  do_release : Token → String → ℕ → ℕ → Op
  do_transition : Status → String → Option ℕ → ℕ → Op
  do_update : String → Status → String → Option ℕ → ℕ → Op
  do_commit : String → Token → String → Fields → Status → ℕ → ℕ → Op
  do_append_event : Fields → String → Option ℕ → ℕ → Op
  do_append_terminal : String → String → Option ℕ → ℕ → Op

-- The disk after a call, whether it returns or raises.
unfoldable pub perform : Env → Disk → Op → Disk
perform env d (do_claim tid owner seconds expected now stamp secret) =
    (claim env d tid owner seconds expected now stamp secret).1
perform env d (do_claim_many secret ids owner bound seconds now stamp select) =
    (claim_many env d secret ids owner bound seconds now stamp select).1
perform env d (do_renew tid token owner seconds now stamp secret) =
    (renew env d tid token owner seconds now stamp secret).1
perform env d (do_release token owner now stamp) = (release env d token owner now stamp).1
perform env d (do_transition status owner expected stamp) =
    (transition env d status owner expected stamp).1
perform env d (do_update tid status owner expected stamp) =
    (update_task_status env d tid status owner expected stamp).1
perform env d (do_commit tid token owner report status now stamp) =
    (commit env d tid token owner report status now stamp).1
perform env d (do_append_event event owner expected stamp) =
    (append_event env d event owner expected stamp).1
perform env d (do_append_terminal tid owner expected stamp) =
    (append_terminal_event_if_absent env d tid owner expected stamp).1

unfoldable pub perform_all : Env → Disk → List Op → Disk
perform_all env d [] = d
perform_all env d (op ∷ ops) = perform_all env (perform env d op) ops

-- The event made of a mapping is one that `_valid_event` takes.
abbrev pub taken : Result Event → Bool
taken (ok e) = valid_event e
taken (err x) = true

unfoldable pub well_named : Env → Fields → Bool
unfolding event_of
well_named env item = taken (event_of env item 1)

-- A secret is an identifier, as a hexadecimal text is; a digest has the form of SHA-256 in
-- hexadecimal; an appended event is well named once it is redacted.
abbrev pub Admissible : Env → Op → Type 0
Admissible env (do_claim tid owner seconds expected now stamp secret) = is_id secret ≡ true
Admissible env (do_claim_many secret ids owner bound seconds now stamp select) =
    (n : ℕ) → is_id (secret n) ≡ true
Admissible env (do_renew tid token owner seconds now stamp secret) = is_id secret ≡ true
Admissible env (do_commit tid token owner report status now stamp) =
    is_hex 64 (env.digest (redact_fields env report)) ≡ true
Admissible env (do_append_event event owner expected stamp) =
    well_named env (redact_fields env event) ≡ true
Admissible env _ = Unit

abbrev pub AllAdmissible : Env → List Op → Type 0
AllAdmissible env [] = Unit
AllAdmissible env (op ∷ ops) = Admissible env op × AllAdmissible env ops
