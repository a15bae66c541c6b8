-- ===== src/Examples/Subscribers.antt =====
-- The subscription store of scripts/pd_fleet/gateway_subscription.py at concrete inputs.
use project_development_skil.Base.{
  ℕ, ◌-◌, ◌≤◌, ◌<◌, true, false, some, List, [], ◌∷◌, ◌≡◌, refl, arith,
}
use project_development_skil.Dict
use project_development_skil.Subscription.{empty, append, subscribe, live, derive_state, prune}
use project_development_skil.Subscription.Delivery.{
  read, read_live, read_on, denied, deliver, enqueue, ack, ack_on, settle, advance, remove,
  may_advance, mem_seq, detach,
}
use project_development_skil.Subscription.Calls.{
  Op, perform, perform_all, do_subscribe, do_append, do_read, do_ack,
}
use project_development_skil.Subscription.Reading.{IsExact, is_answered, read-IsExact}
use project_development_skil.Subscription.Outbox.{advance_ends}
use project_development_skil.Subscription.Owed.{IsOwed, pending-IsOwed}
use project_development_skil.Subscription.Ingestion.{prune_stalls}
use project_development_skil.Subscription.Detached.{IsRefused, detach_final}

-- Three events, a subscriber that reads them, and an acknowledgement out of order.
abbrev calls : List Op
calls =
    do_subscribe "s" "a" "e" "b" 0 0
    ∷ do_append 1 "x"
    ∷ do_append 2 "y"
    ∷ do_append 4 "gap"
    ∷ do_append 3 "z"
    ∷ do_read "s" "e" 5
    ∷ do_ack "s" 2
    ∷ do_ack "s" 1
    ∷ []

-- The cursor stands at 2, and 3 is pending.
calls-pending : Dict.get "s" (perform_all empty calls).outbox ≡ some (3 ∷ [])
unfolding perform_all perform subscribe append read read_live read_on denied deliver enqueue ack
    ack_on settle advance remove live derive_state Dict.get Dict.put Dict.has_key
calls-pending = refl

calls-read : is_answered (read "s" "e" 6 (perform_all empty calls)).0.outcome ≡ true
unfolding perform_all perform subscribe append read read_live read_on denied deliver enqueue ack
    ack_on settle advance remove live derive_state Dict.get Dict.put Dict.has_key
calls-read = refl

read-IsExact_example :
    IsExact (perform_all empty calls) "s" (read "s" "e" 6 (perform_all empty calls)).0
read-IsExact_example = read-IsExact calls "s" "e" 6 calls-read

pending-IsOwed_example : IsOwed (perform_all empty calls)
pending-IsOwed_example = pending-IsOwed calls

advance_ends_example :
    (may_advance (3 ∷ []) 3 (advance (3 - 0) (3 ∷ []) 3 0) ≡ false)
    × (0 ≤ advance (3 - 0) (3 ∷ []) 3 0)
    × (0 ≤ 3 → advance (3 - 0) (3 ∷ []) 3 0 ≤ 3)
    × ((m : ℕ) → 0 < m → m ≤ advance (3 - 0) (3 ∷ []) 3 0 → mem_seq m (3 ∷ []) ≡ false)
advance_ends_example = advance_ends (3 ∷ []) 3 0

prune_stalls_example :
    ((perform_all (prune 5 empty) calls).ingestion_cursor ≡ 0)
    × ((append 6 "w" (perform_all (prune 5 empty) calls)).0 ≡ false)
prune_stalls_example = prune_stalls 5 6 "w" calls empty (ground arith)

calls-detach : (detach "s" (perform_all empty calls)).0 ≡ true
unfolding perform_all perform subscribe append read read_live read_on denied deliver enqueue ack
    ack_on settle advance remove live derive_state detach Dict.get Dict.put Dict.has_key
calls-detach = refl

detach_final_example :
    IsRefused "s" (perform_all (detach "s" (perform_all empty calls)).1 (do_read "s" "e" 7 ∷ []))
detach_final_example =
    detach_final "s" (do_read "s" "e" 7 ∷ []) (perform_all empty calls) calls-detach
