-- ===== src/Subscription/Calls.antt =====
-- scripts/pd_fleet/gateway_subscription.py: the calls of the store as data, and runs of them.
use project_development_skil.Base.{ℕ, String, List, [], ◌∷◌}
use project_development_skil.Subscription.{Store, subscribe, append, prune, heartbeat, evaluate}
use project_development_skil.Subscription.Delivery.{read, ack, detach}

-- One call, with its arguments.
pub data Op : Type 0 where
  do_subscribe : String → String → String → String → ℕ → ℕ → Op
  do_append : ℕ → String → Op
  do_prune : ℕ → Op
  do_heartbeat : String → ℕ → ℕ → Op
  do_evaluate : String → ℕ → Op
  do_read : String → String → ℕ → Op
  do_ack : String → ℕ → Op
  do_detach : String → Op

unfoldable pub perform : Store → Op → Store
perform s (do_subscribe ref association epoch boundary snapshot now) =
    (subscribe ref association epoch boundary snapshot now s).1
perform s (do_append sequence event_id) = (append sequence event_id s).1
perform s (do_prune upto) = prune upto s
perform s (do_heartbeat ref number now) = (heartbeat ref number now s).1
perform s (do_evaluate ref now) = (evaluate ref now s).1
perform s (do_read ref epoch now) = (read ref epoch now s).1
perform s (do_ack ref sequence) = (ack ref sequence s).1
perform s (do_detach ref) = (detach ref s).1

unfoldable pub perform_all : Store → List Op → Store
perform_all s [] = s
perform_all s (op ∷ ops) = perform_all (perform s op) ops
