-- ===== src/Subscription.antt =====
-- scripts/pd_fleet/gateway_subscription.py: the store of one association's event history, its
-- subscribers and what they have not acknowledged. An instant is a count of microseconds. Sequence
-- numbers, a subscription's snapshot sequence among them, are natural. The lock makes calls follow
-- one another.
pub mod Delivery
pub mod Calls
pub mod Span
pub mod History
pub mod Reading
pub mod Outbox
pub mod Owed
pub mod Ingestion
pub mod Detached
use project_development_skil.Base.{
  ℕ, zero, suc, ◌+◌, ◌-◌, ◌*◌, String, Bool, true, false, not, ◌&&◌, ◌||◌, Option, none, some, List,
  [], ◌∷◌, ◌++◌, ltb, leb, ◌==◌, str_eq, if◌then◌else◌, any, keep, is_nil, is_none,
}
use project_development_skil.Dict
use project_development_skil.Dict.{Dict}
use project_development_skil.Store.Batch.{mem}

abbrev pub second : ℕ
second = 1_000_000

abbrev pub idle_ttl : ℕ
idle_ttl = 90 * second

abbrev pub grace : ℕ
grace = 60 * second

abbrev pub cursor_ttl : ℕ
cursor_ttl = 900 * second

-- The canonical codes, and what the audit notes of a conflicting event id.
pub data Code : Type 0 where
  invalid_request association_required association_stale cursor_stale cursor_expired : Code
  replay_gap no_new_events delivered invalid_provenance : Code

pub data SubscriptionState : Type 0 where
  observing reconnecting stale detached : SubscriptionState

pub record EventRecord : Type 0 where
  pub sequence : ℕ
  pub event_id : String

pub record Subscription : Type 0 where
  pub subscriber_ref : String
  pub association_ref : String
  pub stream_epoch : String
  pub boundary_ref : String
  pub snapshot_sequence : ℕ
  pub cursor_seq : ℕ
  pub cursor_issued_at : ℕ
  pub last_heartbeat_at : ℕ
  pub last_heartbeat_seq : ℕ
  pub delivered_upto : ℕ
  pub state : SubscriptionState

pub record ReadResult : Type 0 where
  pub outcome : Code
  pub events : List EventRecord
  pub resync_required : Bool

pub record Store : Type 0 where
  pub history : List EventRecord
  pub event_ids : Dict ℕ
  pub ingestion_cursor : ℕ
  pub retention_floor : ℕ
  pub subscriptions : Dict Subscription
  pub outbox : Dict (List ℕ)
  pub tombstones : List String
  pub audit : List (String × Code)

abbrev pub empty : Store
empty = record {
  history = [];
  event_ids = [];
  ingestion_cursor = 0;
  retention_floor = 0;
  subscriptions = [];
  outbox = [];
  tombstones = [];
  audit = [];
}

-- One more line of the audit
abbrev pub noted : String → Code → Store → Store
noted ref code s = record s { audit = s.audit ++ (ref, code) ∷ [] }

abbrev pub with_subscription : String → Subscription → Store → Store
with_subscription ref sub s = record s { subscriptions = Dict.put ref sub s.subscriptions }

unfoldable pub subscribe :
    String → String → String → String → ℕ → ℕ → Store → Option Subscription × Store
subscribe ref association epoch boundary snapshot now s =
    let sub : Subscription = record {
      subscriber_ref = ref;
      association_ref = association;
      stream_epoch = epoch;
      boundary_ref = boundary;
      snapshot_sequence = snapshot;
      cursor_seq = snapshot;
      cursor_issued_at = now;
      last_heartbeat_at = now;
      last_heartbeat_seq = 0;
      delivered_upto = 0;
      state = observing;
    } in
    if is_nil ref || is_nil association || is_nil epoch || is_nil boundary
    then (none, s)
    else if mem ref s.tombstones
    then (none, s)
    else (some sub, record (with_subscription ref sub s) { outbox = Dict.put ref [] s.outbox })

unfoldable pub append : ℕ → String → Store → Bool × Store
append sequence event_id s =
    if not (sequence == s.ingestion_cursor + 1)
    then (false, s)
    else if leb sequence s.retention_floor
    then (false, s)
    else if Dict.has_key event_id s.event_ids
    then (false, noted event_id invalid_provenance s)
    else (
      true,
      record s {
        history = s.history ++ record { sequence = sequence; event_id = event_id } ∷ [];
        event_ids = Dict.put event_id sequence s.event_ids;
        ingestion_cursor = sequence;
      },
    )

abbrev pub maximum : ℕ → ℕ → ℕ
maximum a b = if ltb a b then b else a

-- The events after a sequence number
abbrev pub after : ℕ → List EventRecord → List EventRecord
after n events = keep (λ (e : EventRecord). ltb n e.sequence) events

unfoldable pub prune : ℕ → Store → Store
prune upto s =
    let floor = maximum s.retention_floor upto in
    record s { retention_floor = floor; history = after floor s.history }

-- _derive_state: idle, then grace; an instant before the last heartbeat counts as no time at all.
abbrev idle_state : SubscriptionState → ℕ → SubscriptionState
idle_state observing idle = if ltb idle_ttl idle then reconnecting else observing
idle_state other idle = other

abbrev grace_state : SubscriptionState → ℕ → SubscriptionState
grace_state reconnecting idle = if ltb (idle_ttl + grace) idle then stale else reconnecting
grace_state other idle = other

unfoldable pub derive_state : ℕ → Subscription → Subscription
derive_state now sub =
    let idle = now - sub.last_heartbeat_at in
    record sub { state = grace_state (idle_state sub.state idle) idle }

-- The subscription of a reference that is not a tombstone.
unfoldable pub live : String → Store → Option Subscription
live ref s = if mem ref s.tombstones then none else Dict.get ref s.subscriptions

abbrev pub is_attached : SubscriptionState → Bool
is_attached observing = true
is_attached reconnecting = true
is_attached _ = false

abbrev resumed : SubscriptionState → SubscriptionState
resumed reconnecting = observing
resumed other = other

-- `heartbeat` for a live subscription, its state derived
unfoldable pub beat : String → ℕ → ℕ → Store → Subscription → Bool × Store
beat ref number now s sub =
    let t = with_subscription ref sub s in
    if not (is_attached sub.state)
    then (false, noted ref association_stale t)
    else if leb number sub.last_heartbeat_seq
    then (false, noted ref invalid_request t)
    else (
      true,
      with_subscription ref
          (record sub {
            last_heartbeat_seq = number;
            last_heartbeat_at = now;
            state = resumed sub.state;
          })
          s,
    )

unfoldable pub heartbeat : String → ℕ → ℕ → Store → Bool × Store
unfolding live derive_state beat
heartbeat ref number now s = elim (live ref s) [
  | none ↦ (false, noted ref association_required s)
  | some sub ↦ beat ref number now s (derive_state now sub)
]

unfoldable pub evaluate : String → ℕ → Store → Option SubscriptionState × Store
unfolding derive_state
evaluate ref now s = elim (Dict.get ref s.subscriptions) [
  | none ↦ (none, s)
  | some sub ↦ (some (derive_state now sub).state, with_subscription ref (derive_state now sub) s)
]
