-- ===== src/Subscription/History.antt =====
-- The history of scripts/pd_fleet/gateway_subscription.py: proofs on the sequence numbers it holds.
use project_development_skil.Base.{
  ℕ, suc, ◌≤◌, String, true, false, Option, none, some, List, [], ◌∷◌, ◌++◌, ◌≡◌, refl, arith,
  Bool-cases, Option-cases, inl, inr, ◌⊎◌, sym, ◌∙◌,
}
use project_development_skil.Dict
use project_development_skil.Store.Batch.{mem}
use project_development_skil.Subscription.{
  Store, Subscription, EventRecord, empty, append, prune, after, maximum, subscribe, heartbeat,
  beat, evaluate, with_subscription, live, derive_state,
}
use project_development_skil.Subscription.Delivery.{
  read, read_on, denied, deliver, ack, ack_on, settle, detach, read_live,
}
use project_development_skil.Subscription.Calls.{
  Op, perform, perform_all, do_subscribe, do_append, do_prune, do_heartbeat, do_evaluate, do_read,
  do_ack, do_detach,
}
use project_development_skil.Subscription.Span.{
  span, sequences, span-snoc, keep-span, sequences-after, sequences-append,
}

-- The history holds the numbers after the retention floor up to the ingestion cursor, in order.
abbrev pub IsContiguous : Store → Type 0
IsContiguous s = sequences s.history ≡ span s.retention_floor s.ingestion_cursor

-- What the calls of subscribers leave as it is.
pub record SameLog (s t : Store) : Type 0 where
  pub history : t.history ≡ s.history
  pub cursor : t.ingestion_cursor ≡ s.ingestion_cursor
  pub floor : t.retention_floor ≡ s.retention_floor
  pub ids : t.event_ids ≡ s.event_ids
  pub gone : (k : String) → mem k s.tombstones ≡ true → mem k t.tombstones ≡ true

mem-appended : (k j : String) (xs : List String) → mem k xs ≡ true → mem k (xs ++ j ∷ []) ≡ true
mem-appended k j [] h = cc
mem-appended k j (x ∷ xs) h = ground (arith, mem-appended k j xs)

module _ (ref : String) (number now : ℕ) (s : Store) where
  beat-SameLog : (sub : Subscription) → SameLog s (beat ref number now s sub).1
  unfolding beat
  beat-SameLog sub = record {
    history = ground arith;
    cursor = ground arith;
    floor = ground arith;
    ids = ground arith;
    gone = λ k h. ground arith;
  }

  heartbeat-SameLog : SameLog s (heartbeat ref number now s).1
  unfolding heartbeat
  heartbeat-SameLog = elim (Option-cases (live ref s)) [
    | inl e ↦
        rw (e, heartbeat)
          (record { history = refl; cursor = refl; floor = refl; ids = refl; gone = λ k h. h })
    | inr (sub, e) ↦ rw (e, heartbeat) (beat-SameLog (derive_state now sub))
  ]

module _ (ref : String) (now : ℕ) (s : Store) where
  evaluate-SameLog : SameLog s (evaluate ref now s).1
  unfolding evaluate
  evaluate-SameLog = elim (Option-cases (Dict.get ref s.subscriptions)) [
    | inl e ↦
        rw (e, evaluate)
          (record { history = refl; cursor = refl; floor = refl; ids = refl; gone = λ k h. h })
    | inr (sub, e) ↦
        rw (e, evaluate)
          (record { history = refl; cursor = refl; floor = refl; ids = refl; gone = λ k h. h })
  ]

  deliver-SameLog :
      (sub : Subscription) (events : List EventRecord) → SameLog s (deliver ref s sub events).1
  unfolding deliver
  deliver-SameLog sub [] = record {
    history = refl;
    cursor = refl;
    floor = refl;
    ids = refl;
    gone = λ k h. h;
  }
  deliver-SameLog sub (e ∷ es) = record {
    history = refl;
    cursor = refl;
    floor = refl;
    ids = refl;
    gone = λ k h. h;
  }

  read_on-SameLog : (sub : Subscription) → SameLog s (read_on ref now s sub).1
  unfolding read_on denied
  read_on-SameLog sub =
      let d = deliver-SameLog sub (after sub.cursor_seq s.history) in
      record {
        history = ground (arith, d.history);
        cursor = ground (arith, d.cursor);
        floor = ground (arith, d.floor);
        ids = ground (arith, d.ids);
        gone = λ k h. ground (arith, d.gone k h);
      }

  detach-SameLog : SameLog s (detach ref s).1
  unfolding detach
  detach-SameLog = elim (Option-cases (Dict.get ref s.subscriptions)) [
    | inl e ↦
        rw (e, detach)
          (record { history = refl; cursor = refl; floor = refl; ids = refl; gone = λ k h. h })
    | inr (sub, e) ↦
        rw (e, detach)
          (record {
            history = refl;
            cursor = refl;
            floor = refl;
            ids = refl;
            gone = λ k h. mem-appended k ref s.tombstones h;
          })
  ]

  ack_on-SameLog : (sub : Subscription) (o : Option (List ℕ)) → SameLog s (ack_on ref now s sub o).1
  unfolding ack_on settle
  ack_on-SameLog sub none = record {
    history = refl;
    cursor = refl;
    floor = refl;
    ids = refl;
    gone = λ k h. h;
  }
  ack_on-SameLog sub (some out) = record {
    history = ground arith;
    cursor = ground arith;
    floor = ground arith;
    ids = ground arith;
    gone = λ k h. ground arith;
  }

  ack-SameLog : SameLog s (ack ref now s).1
  unfolding ack
  ack-SameLog = elim (Option-cases (live ref s)) [
    | inl e ↦
        rw (e, ack)
          (record { history = refl; cursor = refl; floor = refl; ids = refl; gone = λ k h. h })
    | inr (sub, e) ↦ rw (e, ack) (ack_on-SameLog sub (Dict.get ref s.outbox))
  ]

read_live-SameLog :
    (ref epoch : String) (now : ℕ) (s : Store) (sub : Subscription)
    → SameLog s (read_live ref epoch now s sub).1
unfolding read_live denied
read_live-SameLog ref epoch now s sub =
    let d =
      read_on-SameLog ref now (with_subscription ref (derive_state now sub) s)
        (derive_state now sub) in
    record {
      history = ground (arith, d.history);
      cursor = ground (arith, d.cursor);
      floor = ground (arith, d.floor);
      ids = ground (arith, d.ids);
      gone = λ k h. ground (arith, d.gone k h);
    }

read-SameLog : (ref epoch : String) (now : ℕ) (s : Store) → SameLog s (read ref epoch now s).1
unfolding read denied
read-SameLog ref epoch now s = elim (Option-cases (live ref s)) [
  | inl e ↦
      rw (e, read)
        (record { history = refl; cursor = refl; floor = refl; ids = refl; gone = λ k h. h })
  | inr (sub, e) ↦ rw (e, read) (read_live-SameLog ref epoch now s sub)
]

subscribe-SameLog :
    (ref association epoch boundary : String) (snapshot now : ℕ) (s : Store)
    → SameLog s (subscribe ref association epoch boundary snapshot now s).1
unfolding subscribe
subscribe-SameLog ref association epoch boundary snapshot now s = record {
  history = ground arith;
  cursor = ground arith;
  floor = ground arith;
  ids = ground arith;
  gone = λ k h. ground arith;
}

same-IsContiguous : (s t : Store) → SameLog s t → IsContiguous s → IsContiguous t
same-IsContiguous s t h c = rw (h.history, h.cursor, h.floor) c

-- An event that was taken, and one that was not.
pub record Appended (n : ℕ) (id : String) (s t : Store) : Type 0 where
  pub next : n ≡ suc s.ingestion_cursor
  pub room : s.retention_floor ≤ s.ingestion_cursor
  pub history : t.history ≡ s.history ++ record { sequence = n; event_id = id } ∷ []
  pub cursor : t.ingestion_cursor ≡ n
  pub floor : t.retention_floor ≡ s.retention_floor
  pub gone : (k : String) → mem k s.tombstones ≡ true → mem k t.tombstones ≡ true

pub append-cases :
    (n : ℕ) (id : String) (s : Store)
    → ((append n id s).0 ≡ true × Appended n id s (append n id s).1)
      ⊎ ((append n id s).0 ≡ false × SameLog s (append n id s).1)
unfolding append
append-cases n id s = elim (Bool-cases (append n id s).0) [
  | inl y ↦ inl (
    y,
    record {
      next = ground arith;
      room = ground arith;
      history = ground arith;
      cursor = ground arith;
      floor = ground arith;
      gone = λ k h. ground arith;
    },
  )
  | inr n ↦ inr (
    n,
    record {
      history = ground arith;
      cursor = ground arith;
      floor = ground arith;
      ids = ground arith;
      gone = λ k h. ground arith;
    },
  )
]

appended-IsContiguous :
    (n : ℕ) (id : String) (s t : Store) → Appended n id s t → IsContiguous s → IsContiguous t
appended-IsContiguous n id s t a c =
    rw (a.history, a.cursor, a.floor, a.next)
      (sequences-append s.history (record { sequence = suc s.ingestion_cursor; event_id = id } ∷ [])
        ∙ rw c (sym (span-snoc s.retention_floor s.ingestion_cursor a.room)))

append-IsContiguous :
    (n : ℕ) (id : String) (s : Store) → IsContiguous s → IsContiguous (append n id s).1
append-IsContiguous n id s c = elim (append-cases n id s) [
  | inl (e, a) ↦ appended-IsContiguous n id s (append n id s).1 a c
  | inr (e, same) ↦ same-IsContiguous s (append n id s).1 same c
]

prune-IsContiguous : (n : ℕ) (s : Store) → IsContiguous s → IsContiguous (prune n s)
unfolding prune
prune-IsContiguous n s c =
    let f = maximum s.retention_floor n in
    sequences-after f s.history
    ∙ (rw c (keep-span f s.retention_floor s.ingestion_cursor (ground arith)))

-- A call is an append, a prune, or leaves the log as it was.
pub data LogStep (s : Store) : Store → Type 0 where
  appending : (n : ℕ) (id : String) → LogStep s (append n id s).1
  pruning : (n : ℕ) → LogStep s (prune n s)
  same : (t : Store) → SameLog s t → LogStep s t

pub perform-LogStep : (s : Store) (op : Op) → LogStep s (perform s op)
unfolding perform
perform-LogStep s (do_subscribe ref association epoch boundary snapshot now) =
    same _ (subscribe-SameLog ref association epoch boundary snapshot now s)
perform-LogStep s (do_append n id) = appending n id
perform-LogStep s (do_prune n) = pruning n
perform-LogStep s (do_heartbeat ref number now) = same _ (heartbeat-SameLog ref number now s)
perform-LogStep s (do_evaluate ref now) = same _ (evaluate-SameLog ref now s)
perform-LogStep s (do_read ref epoch now) = same _ (read-SameLog ref epoch now s)
perform-LogStep s (do_ack ref n) = same _ (ack-SameLog ref n s)
perform-LogStep s (do_detach ref) = same _ (detach-SameLog ref 0 s)

step-IsContiguous : (s : Store) {t : Store} → LogStep s t → IsContiguous s → IsContiguous t
step-IsContiguous s (appending n id) c = append-IsContiguous n id s c
step-IsContiguous s (pruning n) c = prune-IsContiguous n s c
step-IsContiguous s (same t h) c = same-IsContiguous s t h c

all-IsContiguous : (ops : List Op) (s : Store) → IsContiguous s → IsContiguous (perform_all s ops)
unfolding perform_all
all-IsContiguous [] s c = c
all-IsContiguous (op ∷ ops) s c =
    all-IsContiguous ops (perform s op) (step-IsContiguous s (perform-LogStep s op) c)

-- After any calls on an empty store the history holds exactly the sequence numbers after the
-- retention floor up to the ingestion cursor, in order and without a gap.
pub history-IsContiguous : (ops : List Op) → IsContiguous (perform_all empty ops)
history-IsContiguous ops = all-IsContiguous ops empty refl
