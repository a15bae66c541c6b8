-- ===== src/Subscription/Detached.antt =====
-- `detach` of scripts/pd_fleet/gateway_subscription.py: proofs on the calls after it.
use project_development_skil.Base.{
  ℕ, String, true, false, none, List, [], ◌∷◌, ◌++◌, ◌≡◌, refl, arith, eq_iff, Option-cases, inl,
  inr,
}
use project_development_skil.Dict
use project_development_skil.Store.Batch.{mem}
use project_development_skil.Subscription.{
  Store, association_required, subscribe, heartbeat, live, prune,
}
use project_development_skil.Subscription.Delivery.{read, ack, detach, denied}
use project_development_skil.Subscription.Calls.{Op, perform, perform_all}
use project_development_skil.Subscription.History.{
  LogStep, appending, pruning, same, append-cases, perform-LogStep,
}

step-gone :
    (ref : String) (s : Store) {t : Store}
    → LogStep s t
    → mem ref s.tombstones ≡ true
    → mem ref t.tombstones ≡ true
unfolding prune
step-gone ref s (appending n id) h = elim (append-cases n id s) [
  | inl (e, a) ↦ a.gone ref h
  | inr (e, u) ↦ u.gone ref h
]
step-gone ref s (pruning n) h = h
step-gone ref s (same t u) h = u.gone ref h

all-gone :
    (ref : String) (ops : List Op) (s : Store)
    → mem ref s.tombstones ≡ true
    → mem ref (perform_all s ops).tombstones ≡ true
unfolding perform_all
all-gone ref [] s h = h
all-gone ref (op ∷ ops) s h =
    all-gone ref ops (perform s op) (step-gone ref s (perform-LogStep s op) h)

mem-last : (k : String) (xs : List String) → mem k (xs ++ k ∷ []) ≡ true
mem-last k [] = ground (arith, eq_iff k k)
mem-last k (x ∷ xs) = ground (arith, mem-last k xs)

detach-gone :
    (ref : String) (s : Store)
    → (detach ref s).0 ≡ true
    → mem ref (detach ref s).1.tombstones ≡ true
unfolding detach
detach-gone ref s h = elim (Option-cases (Dict.get ref s.subscriptions)) [
  | inl e ↦ (let g = rw (e, detach) at h in cc)
  | inr (sub, e) ↦ rw (e, detach) (mem-last ref s.tombstones)
]

-- What each call answers for a reference that is gone.
pub record IsRefused (ref : String) (s : Store) : Type 0 where
  pub no_subscribe :
      (association epoch boundary : String) (snapshot now : ℕ)
      → (subscribe ref association epoch boundary snapshot now s).0 ≡ none
  pub no_heartbeat : (number now : ℕ) → (heartbeat ref number now s).0 ≡ false
  pub no_ack : (sequence : ℕ) → (ack ref sequence s).0 ≡ false
  pub no_read :
      (epoch : String) (now : ℕ)
      → ((read ref epoch now s).0.outcome ≡ association_required)
        × ((read ref epoch now s).0.events ≡ [])

gone-IsRefused : (ref : String) (s : Store) → mem ref s.tombstones ≡ true → IsRefused ref s
unfolding subscribe heartbeat ack read live denied
gone-IsRefused ref s h =
    let e : live ref s ≡ none = rw h refl in
    record {
      no_subscribe = λ association epoch boundary snapshot now. ground arith;
      no_heartbeat = λ number now. rw (e, heartbeat) refl;
      no_ack = λ sequence. rw (e, ack) refl;
      no_read = λ epoch now. (rw (e, read) refl, rw (e, read) refl);
    }

-- After a detach that succeeds, and any calls at all after it, the reference is refused: subscribe
-- gives nothing, heartbeat and ack answer false, and a read hands over no events and asks for an
-- association.
pub detach_final :
    (ref : String) (ops : List Op) (s : Store)
    → (detach ref s).0 ≡ true
    → IsRefused ref (perform_all (detach ref s).1 ops)
detach_final ref ops s h =
    gone-IsRefused ref (perform_all (detach ref s).1 ops)
      (all-gone ref ops (detach ref s).1 (detach-gone ref s h))
