-- ===== src/Subscription/Reading.antt =====
-- What a read of scripts/pd_fleet/gateway_subscription.py hands over, and what it refuses.
use project_development_skil.Base.{
  ℕ, ◌≤◌, String, Bool, true, false, some, List, [], ◌∷◌, ◌≡◌, refl, arith, str_eq, Bool-cases,
  Option-cases, inl, inr, ◌∙◌, ap,
}
use project_development_skil.Subscription.{
  Store, Subscription, EventRecord, ReadResult, Code, delivered, no_new_events, empty, after, live,
  derive_state, with_subscription,
}
use project_development_skil.Subscription.Delivery.{read, read_live, read_on, denied, deliver}
use project_development_skil.Subscription.Calls.{Op, perform_all}
use project_development_skil.Subscription.Span.{span, sequences, keep-span, sequences-after}
use project_development_skil.Subscription.History.{IsContiguous, history-IsContiguous}

abbrev pub is_answered : Code → Bool
is_answered delivered = true
is_answered no_new_events = true
is_answered _ = false

-- An answer holds all that came after the subscription's cursor.
pub record IsExact (s : Store) (ref : String) (r : ReadResult) : Type 0 where
  pub sub : Subscription
  pub found : live ref s ≡ some sub
  pub in_store : s.retention_floor ≤ sub.cursor_seq
  pub exact : sequences r.events ≡ span sub.cursor_seq s.ingestion_cursor

deliver-events :
    (ref : String) (s : Store) (sub : Subscription) (events : List EventRecord)
    → (deliver ref s sub events).0.events ≡ events
unfolding deliver
deliver-events ref s sub [] = refl
deliver-events ref s sub (e ∷ es) = refl

after-span :
    (s : Store) (n : ℕ)
    → IsContiguous s
    → s.retention_floor ≤ n
    → sequences (after n s.history) ≡ span n s.ingestion_cursor
after-span s n c h =
    sequences-after n s.history ∙ rw c (keep-span n s.retention_floor s.ingestion_cursor h)

read_on-answered :
    (ref : String) (now : ℕ) (s : Store) (sub : Subscription)
    → is_answered (read_on ref now s sub).0.outcome ≡ true
    → (s.retention_floor ≤ sub.cursor_seq)
      × ((read_on ref now s sub).0.events ≡ after sub.cursor_seq s.history)
unfolding read_on denied
read_on-answered ref now s sub h =
    let d = deliver-events ref s sub (after sub.cursor_seq s.history) in
    (ground arith, ground (arith, d))

read_live-answered :
    (ref epoch : String) (now : ℕ) (s : Store) (sub : Subscription)
    → is_answered (read_live ref epoch now s sub).0.outcome ≡ true
    → (s.retention_floor ≤ sub.cursor_seq)
      × ((read_live ref epoch now s sub).0.events ≡ after sub.cursor_seq s.history)
unfolding read_live denied derive_state
read_live-answered ref epoch now s sub h = elim (Bool-cases (str_eq epoch sub.stream_epoch)) [
  | inl e ↦
      (let next = derive_state now sub in
        let r =
          read_on-answered ref now (with_subscription ref next s) next (rw (e, read_live) at h) in
        rw (e, read_live) r)
  | inr e ↦ absurd (ground arith)
]

-- After any calls on an empty store a read that is not denied hands over, for the live subscription
-- of the reference, exactly the events whose sequence numbers lie after its cursor up to the
-- ingestion cursor, in order and without a gap.
pub read-IsExact :
    (ops : List Op) (ref epoch : String) (now : ℕ)
    → is_answered (read ref epoch now (perform_all empty ops)).0.outcome ≡ true
    → IsExact (perform_all empty ops) ref (read ref epoch now (perform_all empty ops)).0
unfolding read denied
read-IsExact ops ref epoch now h =
    let s = perform_all empty ops in
    elim (Option-cases (live ref s)) [
      | inl e ↦ (let g = rw (e, read) at h in cc)
      | inr (sub, e) ↦
          (let (room, es) = read_live-answered ref epoch now s sub (rw (e, read) at h) in
            record {
              sub = sub;
              found = e;
              in_store = room;
              exact =
                  rw (e, read)
                    (ap sequences es ∙ after-span s sub.cursor_seq (history-IsContiguous ops) room);
            })
    ]
