-- ===== src/Store/History.antt =====
-- Every sequence of calls on a run.
use project_development_skil.Base.{some, List, [], ◌∷◌, ◌≡◌}
use project_development_skil.Store.State.{Snapshot, Env}
use project_development_skil.Store.Disk.{Disk, current}
use project_development_skil.Store.Crash.{IsOrdered}
use project_development_skil.Store.Evolution.{Evolves-refl, Evolves-trans, IsPositive}
use project_development_skil.Store.Ops.{
  Op, perform, perform_all, Admissible, AllAdmissible, do_claim, do_claim_many, do_renew,
  do_release, do_transition, do_update, do_commit, do_append_event, do_append_terminal,
}
use project_development_skil.Store.Refinement.{After}
use project_development_skil.Store.Refinement.Steps.{
  claim-After, renew-After, release-After, transition-After, update-After,
}
use project_development_skil.Store.Refinement.Writes.{
  commit-After, append-After, append_terminal-After,
}
use project_development_skil.Store.Refinement.Batches.{claim_many-After}

perform-After :
    (env : Env) (d : Disk) (s : Snapshot) (op : Op)
    → current env d ≡ some s
    → IsOrdered env d
    → IsPositive s
    → Admissible env op
    → After env s (perform env d op)
unfolding perform
perform-After env d s (do_claim tid owner seconds expected now stamp secret) c o p a =
    claim-After env d s c o tid owner seconds expected now stamp secret a
perform-After env d s (do_claim_many secret ids owner bound seconds now stamp select) c o p a =
    claim_many-After env d s c o secret ids owner bound seconds now stamp select a
perform-After env d s (do_renew tid token owner seconds now stamp secret) c o p a =
    renew-After env d s c o tid token owner seconds now stamp secret a
perform-After env d s (do_release token owner now stamp) c o p a =
    release-After env d s c o token owner now stamp
perform-After env d s (do_transition status owner expected stamp) c o p a =
    transition-After env d s c o status owner expected stamp
perform-After env d s (do_update tid status owner expected stamp) c o p a =
    update-After env d s c o tid status owner expected stamp
perform-After env d s (do_commit tid token owner report status now stamp) c o p a =
    commit-After env d s c o tid token owner report status now stamp p a
perform-After env d s (do_append_event event owner expected stamp) c o p a =
    append-After env d s c o event owner expected stamp a
perform-After env d s (do_append_terminal tid owner expected stamp) c o p a =
    append_terminal-After env d s c o tid owner expected stamp

-- From a disk whose reader gets `s`, whose backup is no newer than its primary (IsOrdered), and with
-- all attempts of `s` at least 1 (IsPositive): after any calls, failing ones included, whose secrets
-- are identifiers, whose digests have the form of SHA-256 and whose appended events are well named
-- (Admissible), the reader gets a valid snapshot that `s` evolved into: the run is never lost, its
-- owner, plan and committed reports stay, a terminal run keeps its status, and generations, attempts
-- and the event sequence never fall.
pub perform_all-After :
    (env : Env) (d : Disk) (s : Snapshot) (ops : List Op)
    → current env d ≡ some s
    → IsOrdered env d
    → IsPositive s
    → AllAdmissible env ops
    → After env s (perform_all env d ops)
unfolding perform_all
perform_all-After env d s [] c o p a = record {
  next = s;
  is_current = c;
  is_ordered = o;
  evolves = Evolves-refl s;
}
perform_all-After env d s (op ∷ ops) c o p (a, b) =
    let r = perform-After env d s op c o p a in
    let q =
      perform_all-After env (perform env d op) r.next ops r.is_current r.is_ordered
        (r.evolves.positive p) b in
    record {
      next = q.next;
      is_current = q.is_current;
      is_ordered = q.is_ordered;
      evolves = Evolves-trans s r.next q.next r.evolves q.evolves;
    }
