-- ===== src/Subscription/Owed.antt =====
-- Cursors and outboxes over the calls of scripts/pd_fleet/gateway_subscription.py: proofs.
use project_development_skil.Base.{
  ℕ, ◌-◌, String, true, Option, none, some, List, [], ◌∷◌, ◌≡◌, refl, arith, ltb, leb, all, ◌||◌,
  is_nil, str_eq, eq_iff, Option-cases, Bool-cases, inl, inr, ◌∙◌, sym,
}
use project_development_skil.Dict
use project_development_skil.Dict.{Dict}
use project_development_skil.Store.Batch.{mem}
use project_development_skil.Subscription.{
  Store, Subscription, EventRecord, empty, append, prune, subscribe, heartbeat, beat, evaluate,
  live, derive_state, with_subscription, after, is_attached, cursor_ttl,
}
use project_development_skil.Subscription.Delivery.{
  read, read_live, read_on, denied, deliver, ack, ack_on, settle, detach, mem_seq, remove, or_empty,
  is_stale,
}
use project_development_skil.Subscription.Calls.{
  Op, perform, perform_all, do_subscribe, do_append, do_prune, do_heartbeat, do_evaluate, do_read,
  do_ack, do_detach,
}
use project_development_skil.Subscription.Outbox.{
  is_owed, is_owed-advance, is_owed-remove, is_owed-enqueue, all-after,
}

abbrev pub IsOwedIn : Dict Subscription → Dict (List ℕ) → Type 0
IsOwedIn subs outbox =
    (k : String) (sub : Subscription) (out : List ℕ)
    → Dict.get k subs ≡ some sub
    → Dict.get k outbox ≡ some out
    → is_owed sub.cursor_seq out ≡ true

-- For every reference, its outbox lies after the cursor of its subscription.
abbrev pub IsOwed : Store → Type 0
IsOwed s = IsOwedIn s.subscriptions s.outbox

module _ (ref : String) (subs : Dict Subscription) (outbox : Dict (List ℕ)) where
  put-IsOwed :
      (sub : Subscription) (out : List ℕ)
      → IsOwedIn subs outbox
      → is_owed sub.cursor_seq out ≡ true
      → IsOwedIn (Dict.put ref sub subs) (Dict.put ref out outbox)
  put-IsOwed sub out h g k sub1 out1 e f =
      let d = Dict.get-put ref k sub subs in
      let b = Dict.get-put ref k out outbox in
      elim (Bool-cases (str_eq ref k)) [
        | inl here ↦
            (let u : sub1 ≡ sub = cc (rw here at d, e) in
              let v : out1 ≡ out = cc (rw here at b, f) in rw (u, v) g)
        | inr other ↦ h k sub1 out1 (sym (rw other at d) ∙ e) (sym (rw other at b) ∙ f)
      ]

  -- A subscription that is put back with the same cursor.
  keep-IsOwed :
      (old sub : Subscription)
      → IsOwedIn subs outbox
      → Dict.get ref subs ≡ some old
      → sub.cursor_seq ≡ old.cursor_seq
      → IsOwedIn (Dict.put ref sub subs) outbox
  keep-IsOwed old sub h g c k sub1 out1 e f =
      let d = Dict.get-put ref k sub subs in
      elim (Bool-cases (str_eq ref k)) [
        | inl here ↦
            (let u : sub1 ≡ sub = cc (rw here at d, e) in
              let v : k ≡ ref = ground (arith, eq_iff ref k) in
              rw (u, c) (h ref old out1 g (rw v at f)))
        | inr other ↦ h k sub1 out1 (sym (rw other at d) ∙ e) f
      ]

live-found :
    (ref : String) (s : Store) {sub : Subscription}
    → live ref s ≡ some sub
    → Dict.get ref s.subscriptions ≡ some sub
unfolding live
live-found ref s h = ground arith

owed-at :
    (ref : String) (s : Store) {sub : Subscription}
    → IsOwed s
    → Dict.get ref s.subscriptions ≡ some sub
    → is_owed sub.cursor_seq (or_empty (Dict.get ref s.outbox)) ≡ true
owed-at ref s {sub} h g = elim (Option-cases (Dict.get ref s.outbox)) [
  | inl e ↦ rw e refl
  | inr (out, e) ↦ rw e (h ref sub out g e)
]

module _ (ref : String) (now : ℕ) (s : Store) (h : IsOwed s) where
  beat-IsOwed :
      (number : ℕ) (old sub : Subscription)
      → Dict.get ref s.subscriptions ≡ some old
      → sub.cursor_seq ≡ old.cursor_seq
      → IsOwed (beat ref number now s sub).1
  unfolding beat
  beat-IsOwed number old sub e c = elim (Bool-cases (is_attached sub.state)) [
    | inr off ↦ rw off (keep-IsOwed ref s.subscriptions s.outbox old sub h e c)
    | inl on ↦ elim (Bool-cases (leb number sub.last_heartbeat_seq)) [
      | inl late ↦ rw (on, late) (keep-IsOwed ref s.subscriptions s.outbox old sub h e c)
      | inr new ↦ rw (on, new) (keep-IsOwed ref s.subscriptions s.outbox old _ h e c)
    ]
  ]

  deliver-IsOwed :
      (sub : Subscription) (events : List EventRecord)
      → Dict.get ref s.subscriptions ≡ some sub
      → all (λ (e : EventRecord). ltb sub.cursor_seq e.sequence) events ≡ true
      → IsOwed (deliver ref s sub events).1
  unfolding deliver
  deliver-IsOwed sub [] e a = h
  deliver-IsOwed sub (v ∷ vs) e a = put-IsOwed ref s.subscriptions s.outbox _ _ h (
      is_owed-enqueue sub.cursor_seq (or_empty (Dict.get ref s.outbox)) (v ∷ vs) (owed-at ref s h e)
        a)

  ack_on-IsOwed :
      (sub : Subscription) (o : Option (List ℕ))
      → Dict.get ref s.subscriptions ≡ some sub
      → Dict.get ref s.outbox ≡ o
      → IsOwed (ack_on ref now s sub o).1
  unfolding ack_on settle
  ack_on-IsOwed sub none e f = h
  ack_on-IsOwed sub (some out) e f = elim (Bool-cases (mem_seq now out)) [
    | inl good ↦ rw good (
        put-IsOwed ref s.subscriptions s.outbox _ _ h (
          is_owed-advance (remove now out) sub.delivered_upto (sub.delivered_upto - sub.cursor_seq)
            sub.cursor_seq (is_owed-remove sub.cursor_seq now out (h ref sub out e f))))
    | inr bad ↦ rw bad h
  ]

  read_on-IsOwed :
      (sub : Subscription)
      → Dict.get ref s.subscriptions ≡ some sub
      → IsOwed (read_on ref now s sub).1
  unfolding read_on denied
  read_on-IsOwed sub e =
      let d =
        deliver-IsOwed sub (after sub.cursor_seq s.history) e
          (all-after sub.cursor_seq s.history) in
      elim (Bool-cases (is_stale sub.state)) [
        | inl old ↦ rw old h
        | inr new ↦ elim (Bool-cases (ltb cursor_ttl (now - sub.cursor_issued_at))) [
          | inl over ↦ rw (new, over) h
          | inr good ↦ elim (Bool-cases (ltb sub.cursor_seq s.retention_floor)) [
            | inl gap ↦ rw (new, good, gap) h
            | inr none_lost ↦ rw (new, good, none_lost) d
          ]
        ]
      ]

module _ (ref : String) (now : ℕ) (s : Store) (h : IsOwed s) where
  derived-IsOwed :
      {sub : Subscription}
      → Dict.get ref s.subscriptions ≡ some sub
      → IsOwed (with_subscription ref (derive_state now sub) s)
  unfolding derive_state
  derived-IsOwed {sub} e =
      keep-IsOwed ref s.subscriptions s.outbox sub (derive_state now sub) h e refl

  read_live-IsOwed :
      (epoch : String) (sub : Subscription)
      → Dict.get ref s.subscriptions ≡ some sub
      → IsOwed (read_live ref epoch now s sub).1
  unfolding read_live denied
  read_live-IsOwed epoch sub e =
      let next = derive_state now sub in
      elim (Bool-cases (str_eq epoch sub.stream_epoch)) [
        | inr other ↦ rw other h
        | inl same ↦ rw same (
            read_on-IsOwed ref now (with_subscription ref next s) (derived-IsOwed e) next
              (Dict.get-put_self ref next s.subscriptions))
      ]

  read-IsOwed : (epoch : String) → IsOwed (read ref epoch now s).1
  unfolding read denied
  read-IsOwed epoch = elim (Option-cases (live ref s)) [
    | inl e ↦ rw (e, read) h
    | inr (sub, e) ↦ rw (e, read) (read_live-IsOwed epoch sub (live-found ref s e))
  ]

  heartbeat-IsOwed : (number : ℕ) → IsOwed (heartbeat ref number now s).1
  unfolding heartbeat derive_state
  heartbeat-IsOwed number = elim (Option-cases (live ref s)) [
    | inl e ↦ rw (e, heartbeat) h
    | inr (sub, e) ↦
        rw (e, heartbeat)
          (beat-IsOwed ref now s h number sub (derive_state now sub) (live-found ref s e) refl)
  ]

  evaluate-IsOwed : IsOwed (evaluate ref now s).1
  unfolding evaluate
  evaluate-IsOwed = elim (Option-cases (Dict.get ref s.subscriptions)) [
    | inl e ↦ rw (e, evaluate) h
    | inr (sub, e) ↦ rw (e, evaluate) (derived-IsOwed e)
  ]

  ack-IsOwed : IsOwed (ack ref now s).1
  unfolding ack
  ack-IsOwed = elim (Option-cases (live ref s)) [
    | inl e ↦ rw (e, ack) h
    | inr (sub, e) ↦
        rw (e, ack)
          (ack_on-IsOwed ref now s h sub (Dict.get ref s.outbox) (live-found ref s e) refl)
  ]

  detach-IsOwed : IsOwed (detach ref s).1
  unfolding detach
  detach-IsOwed = elim (Option-cases (Dict.get ref s.subscriptions)) [
    | inl e ↦ rw (e, detach) h
    | inr (sub, e) ↦ rw (e, detach) (put-IsOwed ref s.subscriptions s.outbox _ [] h refl)
  ]

  subscribe-IsOwed :
      (association epoch boundary : String) (snapshot : ℕ)
      → IsOwed (subscribe ref association epoch boundary snapshot now s).1
  unfolding subscribe
  subscribe-IsOwed association epoch boundary snapshot =
      elim (Bool-cases (is_nil ref || is_nil association || is_nil epoch || is_nil boundary)) [
        | inl bad ↦ rw bad h
        | inr good ↦ elim (Bool-cases (mem ref s.tombstones)) [
          | inl gone ↦ rw (good, gone) h
          | inr new ↦ rw (good, new) (put-IsOwed ref s.subscriptions s.outbox _ [] h refl)
        ]
      ]

append-IsOwed : (n : ℕ) (id : String) (s : Store) → IsOwed s → IsOwed (append n id s).1
unfolding append
append-IsOwed n id s h =
    let e : (append n id s).1.subscriptions ≡ s.subscriptions = ground arith in
    let f : (append n id s).1.outbox ≡ s.outbox = ground arith in rw (e, f) h

perform-IsOwed : (s : Store) (op : Op) → IsOwed s → IsOwed (perform s op)
unfolding perform prune
perform-IsOwed s (do_subscribe ref association epoch boundary snapshot now) h =
    subscribe-IsOwed ref now s h association epoch boundary snapshot
perform-IsOwed s (do_append n id) h = append-IsOwed n id s h
perform-IsOwed s (do_prune n) h = h
perform-IsOwed s (do_heartbeat ref number now) h = heartbeat-IsOwed ref now s h number
perform-IsOwed s (do_evaluate ref now) h = evaluate-IsOwed ref now s h
perform-IsOwed s (do_read ref epoch now) h = read-IsOwed ref now s h epoch
perform-IsOwed s (do_ack ref n) h = ack-IsOwed ref n s h
perform-IsOwed s (do_detach ref) h = detach-IsOwed ref 0 s h

all-IsOwed : (ops : List Op) (s : Store) → IsOwed s → IsOwed (perform_all s ops)
unfolding perform_all
all-IsOwed [] s h = h
all-IsOwed (op ∷ ops) s h = all-IsOwed ops (perform s op) (perform-IsOwed s op h)

-- After any calls on an empty store every pending sequence number of a reference lies after the
-- cursor of its subscription.
pub pending-IsOwed : (ops : List Op) → IsOwed (perform_all empty ops)
unfolding Dict.get
pending-IsOwed ops = all-IsOwed ops empty (λ k sub out e f. cc)
