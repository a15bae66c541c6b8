-- ===== src/Subscription/Ingestion.antt =====
-- Which events `append` of scripts/pd_fleet/gateway_subscription.py takes.
use project_development_skil.Base.{
  ℕ, ◌+◌, ◌<◌, ◌≤◌, String, true, false, List, [], ◌∷◌, ◌≡◌, refl, arith, inl, inr,
}
use project_development_skil.Dict
use project_development_skil.Subscription.{Store, append, prune}
use project_development_skil.Subscription.Calls.{Op, perform, perform_all}
use project_development_skil.Subscription.History.{
  append-cases, LogStep, appending, pruning, same, perform-LogStep,
}

-- An append succeeds exactly for the number after the ingestion cursor with an identifier that is
-- new, as long as the retention floor has not passed the cursor.
pub append-true_iff :
    (n : ℕ) (id : String) (s : Store)
    → ((append n id s).0 ≡ true
        → (n ≡ s.ingestion_cursor + 1)
          × (s.retention_floor ≤ s.ingestion_cursor)
          × (Dict.has_key id s.event_ids ≡ false))
      × (s.retention_floor ≤ s.ingestion_cursor
          → Dict.has_key id s.event_ids ≡ false
          → (append (s.ingestion_cursor + 1) id s).0 ≡ true)
unfolding append
append-true_iff n id s = (λ h. (ground arith, ground arith, ground arith), λ h g. ground arith)

-- A store whose retention floor has passed the ingestion cursor, which stands at n.
record IsStalled (n : ℕ) (s : Store) : Type 0 where
  pub cursor : s.ingestion_cursor ≡ n
  pub past : n < s.retention_floor

step-IsStalled : (n : ℕ) (s : Store) {t : Store} → LogStep s t → IsStalled n s → IsStalled n t
unfolding prune
step-IsStalled n s (appending m id) h = elim (append-cases m id s) [
  | inl (e, a) ↦ absurd (ground (arith, a.room, h.cursor, h.past))
  | inr (e, u) ↦ record {
    cursor = ground (arith, u.cursor, h.cursor);
    past = ground (arith, u.floor, h.past);
  }
]
step-IsStalled n s (pruning m) h = record { cursor = h.cursor; past = ground (arith, h.past) }
step-IsStalled n s (same t u) h = record {
  cursor = ground (arith, u.cursor, h.cursor);
  past = ground (arith, u.floor, h.past);
}

all-IsStalled :
    (n : ℕ) (ops : List Op) (s : Store) → IsStalled n s → IsStalled n (perform_all s ops)
unfolding perform_all
all-IsStalled n [] s h = h
all-IsStalled n (op ∷ ops) s h =
    all-IsStalled n ops (perform s op) (step-IsStalled n s (perform-LogStep s op) h)

-- Once a prune goes past the ingestion cursor no calls, however many, bring the cursor forward, and
-- every append is refused for ever.
pub prune_stalls :
    (upto m : ℕ) (id : String) (ops : List Op) (s : Store)
    → s.ingestion_cursor < upto
    → ((perform_all (prune upto s) ops).ingestion_cursor ≡ s.ingestion_cursor)
      × ((append m id (perform_all (prune upto s) ops)).0 ≡ false)
unfolding prune
prune_stalls upto m id ops s h =
    let t = perform_all (prune upto s) ops in
    let q : IsStalled s.ingestion_cursor (prune upto s) = record {
      cursor = refl;
      past = ground arith;
    } in
    let stalled : IsStalled s.ingestion_cursor t =
      all-IsStalled s.ingestion_cursor ops (prune upto s) q in
    (
      stalled.cursor,
      elim (append-cases m id t) [
        | inl (e, a) ↦ absurd (ground (arith, a.room, stalled.cursor, stalled.past))
        | inr (e, u) ↦ e
      ],
    )
