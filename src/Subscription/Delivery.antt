-- ===== src/Subscription/Delivery.antt =====
-- scripts/pd_fleet/gateway_subscription.py: `read`, `ack`, `pending` and `detach`, the delivery of the
-- history to a subscriber.
use project_development_skil.Base.{
  ℕ, zero, suc, ◌+◌, ◌-◌, String, Bool, true, false, not, ◌&&◌, Option, none, some, List, [], ◌∷◌,
  ◌++◌, ltb, ◌==◌, str_eq, if◌then◌else◌, any,
}
use project_development_skil.Dict
use project_development_skil.Dict.{Dict}
use project_development_skil.Subscription.{
  cursor_ttl, Code, invalid_request, association_required, association_stale, cursor_stale,
  cursor_expired, replay_gap, no_new_events, delivered, SubscriptionState, stale, detached,
  EventRecord, Subscription, ReadResult, Store, noted, with_subscription, maximum, after,
  derive_state, live,
}

unfoldable pub denied : String → Code → Bool → Store → ReadResult × Store
denied ref code resync s =
    (record { outcome = code; events = []; resync_required = resync }, noted ref code s)

abbrev pub is_stale : SubscriptionState → Bool
is_stale stale = true
is_stale _ = false

abbrev pub mem_seq : ℕ → List ℕ → Bool
mem_seq n xs = any (λ x. x == n) xs

abbrev pub or_empty : Option (List ℕ) → List ℕ
or_empty none = []
or_empty (some xs) = xs

-- The loop that puts what is delivered into the outbox, once.
unfoldable pub enqueue : List ℕ → List EventRecord → List ℕ
enqueue out [] = out
enqueue out (e ∷ es) = enqueue (if mem_seq e.sequence out then out else out ++ e.sequence ∷ []) es

-- events[-1].sequence
abbrev pub last_sequence : ℕ → List EventRecord → ℕ
last_sequence n [] = n
last_sequence n (e ∷ es) = last_sequence e.sequence es

-- What `read` hands over, if anything.
unfoldable pub deliver : String → Store → Subscription → List EventRecord → ReadResult × Store
unfolding enqueue
deliver ref s sub [] = (record { outcome = no_new_events; events = []; resync_required = false }, s)
deliver ref s sub (e ∷ es) = (
  record { outcome = delivered; events = e ∷ es; resync_required = false },
  record s {
    outbox = Dict.put ref (enqueue (or_empty (Dict.get ref s.outbox)) (e ∷ es)) s.outbox;
    subscriptions =
        Dict.put ref
          (record sub { delivered_upto = maximum sub.delivered_upto (last_sequence e.sequence es) })
          s.subscriptions;
  },
)

-- `read` once the epoch agrees, on the derived subscription
unfoldable pub read_on : String → ℕ → Store → Subscription → ReadResult × Store
unfolding deliver denied
read_on ref now s sub =
    if is_stale sub.state
    then denied ref association_stale false s
    else if ltb cursor_ttl (now - sub.cursor_issued_at)
    then denied ref cursor_expired true s
    else if ltb sub.cursor_seq s.retention_floor
    then denied ref replay_gap true s
    else deliver ref s sub (after sub.cursor_seq s.history)

-- `read` for a live subscription
unfoldable pub read_live : String → String → ℕ → Store → Subscription → ReadResult × Store
unfolding denied derive_state read_on
read_live ref epoch now s sub =
    if not (str_eq epoch sub.stream_epoch)
    then denied ref cursor_stale true s
    else read_on ref now (with_subscription ref (derive_state now sub) s) (derive_state now sub)

unfoldable pub read : String → String → ℕ → Store → ReadResult × Store
unfolding live denied read_live
read ref epoch now s = elim (live ref s) [
  | none ↦ denied ref association_required false s
  | some sub ↦ read_live ref epoch now s sub
]

-- outbox.remove(sequence)
unfoldable pub remove : ℕ → List ℕ → List ℕ
remove n [] = []
remove n (x ∷ xs) = let rest = remove n xs in if x == n then xs else x ∷ rest

-- The test of the loop in `ack`.
abbrev pub may_advance : List ℕ → ℕ → ℕ → Bool
may_advance out upto cursor = ltb cursor upto && not (mem_seq (cursor + 1) out)

-- The loop, with the rounds that it may take.
unfoldable pub advance : ℕ → List ℕ → ℕ → ℕ → ℕ
advance zero out upto cursor = cursor
advance (suc rounds) out upto cursor =
    let rest = advance rounds out upto (cursor + 1) in
    if may_advance out upto cursor then rest else cursor

-- `ack` of a sequence number that is in the outbox
unfoldable pub settle : String → ℕ → Store → Subscription → List ℕ → Store
unfolding advance remove
settle ref sequence s sub out =
    let rest = remove sequence out in
    let upto = sub.delivered_upto in
    record s {
      outbox = Dict.put ref rest s.outbox;
      subscriptions =
          Dict.put ref
            (record sub { cursor_seq = advance (upto - sub.cursor_seq) rest upto sub.cursor_seq })
            s.subscriptions;
    }

unfoldable pub ack_on : String → ℕ → Store → Subscription → Option (List ℕ) → Bool × Store
unfolding settle
ack_on ref sequence s sub none = (false, noted ref association_required s)
ack_on ref sequence s sub (some out) =
    if not (mem_seq sequence out)
    then (false, noted ref invalid_request s)
    else (true, settle ref sequence s sub out)

unfoldable pub ack : String → ℕ → Store → Bool × Store
unfolding live ack_on
ack ref sequence s = elim (live ref s) [
  | none ↦ (false, noted ref association_required s)
  | some sub ↦ ack_on ref sequence s sub (Dict.get ref s.outbox)
]

unfoldable pub pending : String → Store → List ℕ
pending ref s = or_empty (Dict.get ref s.outbox)

unfoldable pub detach : String → Store → Bool × Store
detach ref s = elim (Dict.get ref s.subscriptions) [
  | none ↦ (false, s)
  | some sub ↦ (
    true,
    record (with_subscription ref (record sub { state = detached }) s) {
      tombstones = s.tombstones ++ ref ∷ [];
      outbox = Dict.put ref [] s.outbox;
    },
  )
]
