-- ===== src/Realtime/Hub.antt =====
-- `RealtimeHub` of realtime.py. Each method runs under the lock of the hub, so an operation is one
-- step. A subscription stands with the callbacks that were handed to its event loop and did not run
-- yet, and with what its consumer got, the oldest first.
pub mod Sequence
pub mod Change
pub mod Step
pub mod Handing
pub mod Snapshots
pub mod Ordered
pub mod Sequences
pub mod Arrival
use relaytv.Prelude.{nat_eq}
use relaytv.Prelude.{◌||◌}
use relaytv.Prelude.{
  ℕ, suc, Bool, true, false, ◌&&◌, Option, none, some, List, [], ◌∷◌, ◌++◌, leb, ◌==◌, ◌≟◌,
  if◌then◌else◌, codes_eq, Text, is_empty, strip,
}
use relaytv.Prelude.Value.{Fields}
use relaytv.Prelude.Dict.{Dict, get, put, pop}
use relaytv.Realtime.Inbox.{
  RealtimeEvent, Inbox, Got, item, is_coalesced, new_inbox, offer, close, get_turn,
}

-- What `call_soon_threadsafe` was given.
pub data Callback : Type 0 where
  offering : RealtimeEvent → Callback
  closing : Callback

pub record Subscription : Type 0 where
  pub channel : Text
  pub transport : Text
  pub loop : ℕ
  pub inbox : Inbox
  pub pending : List Callback
  pub delivered : List RealtimeEvent
  -- Whether `_subscriptions` holds it.
  pub registered : Bool

-- `subscriptions` has every object that was made, under its id.
pub record Hub : Type 0 where
  pub subscriptions : Dict ℕ Subscription
  pub sequences : Dict Text ℕ
  pub latest_snapshots : Dict Text (Dict Text RealtimeEvent)
  pub next_id : ℕ

abbrev pub new_hub : Hub
new_hub = record { subscriptions = []; sequences = []; latest_snapshots = []; next_id = 1 }

-- The event loops: which one runs the caller, and which ones still take callbacks.
pub record Loops : Type 0 where
  pub running : Option ℕ
  pub is_open : ℕ → Bool

unfoldable pub create : Text → ℕ → Fields → ℕ → Option RealtimeEvent
unfolding strip
create kind sequence fields now =
    if is_empty (strip kind)
    then none
    else some
        (record { event = strip kind; sequence = sequence; timestamp = now; data_fields = fields })

abbrev pub or_zero : Option ℕ → ℕ
or_zero none = 0
or_zero (some n) = n

abbrev pub or_nothing : Option (Dict Text RealtimeEvent) → Dict Text RealtimeEvent
or_nothing none = []
or_nothing (some m) = m

unfoldable pub current_sequence : Text → Hub → ℕ
unfolding get
current_sequence channel hub = or_zero (get hub.sequences channel)

unfoldable pub snapshots_of : Text → Hub → Dict Text RealtimeEvent
unfolding get
snapshots_of channel hub = or_nothing (get hub.latest_snapshots channel)

abbrev pub is_on : Text → Subscription → Bool
is_on channel s = s.registered && (s.channel ≟ channel)

unfoldable pub any_on : Text → Dict ℕ Subscription → Bool
any_on channel [] = false
any_on channel ((id, s) ∷ m) = let rest = any_on channel m in if is_on channel s then true else rest

abbrev pub is_asked : Option Text → Subscription → Bool
is_asked none s = true
is_asked (some transport) s = s.transport ≟ transport

unfoldable pub subscriber_count : Text → Option Text → Dict ℕ Subscription → ℕ
subscriber_count channel transport [] = 0
subscriber_count channel transport ((id, s) ∷ m) =
    let rest = subscriber_count channel transport m in
    if is_on channel s && is_asked transport s then suc rest else rest

abbrev pub is_running : Option ℕ → ℕ → Bool
is_running none loop = false
is_running (some l) loop = l == loop

-- How an inbox is closed: at once on its own loop, by a callback from another thread, and by the
-- flag alone where its loop takes no callback.
unfoldable pub retire : Loops → Subscription → Subscription
unfolding close
retire loops s =
    if is_running loops.running s.loop
    then record s { inbox = close s.inbox }
    else if loops.is_open s.loop
    then record s { pending = s.pending ++ (closing ∷ []) }
    else record s { inbox = record (s.inbox) { closed = true } }

abbrev pub forget :
    Bool → Text → Dict Text (Dict Text RealtimeEvent) → Dict Text (Dict Text RealtimeEvent)
forget true channel m = m
forget false channel m = pop m channel

unfoldable pub unregister : Loops → ℕ → Subscription → Hub → Hub
unfolding put pop retire any_on
unregister loops id s hub =
    let left = put hub.subscriptions id (record (retire loops s) { registered = false }) in
    record hub {
      subscriptions = left;
      latest_snapshots = forget (any_on s.channel left) s.channel hub.latest_snapshots;
    }

unfoldable pub unsubscribe : Loops → ℕ → Hub → Hub
unfolding get unregister
unsubscribe loops id hub = elim (get hub.subscriptions id) [
  | none ↦ hub
  | some s ↦ if s.registered then unregister loops id s hub else hub
]

-- `RealtimeSubscription.schedule`
unfoldable pub schedule_on : Loops → RealtimeEvent → ℕ → Subscription → Hub → Bool × Hub
unfolding put unsubscribe
schedule_on loops e id s hub =
    if s.inbox.closed
    then (false, hub)
    else if loops.is_open s.loop
    then (
      true,
      record hub {
        subscriptions =
            put hub.subscriptions id (record s { pending = s.pending ++ (offering e ∷ []) });
      },
    )
    else (false, unsubscribe loops id hub)

unfoldable pub schedule : Loops → RealtimeEvent → ℕ → Hub → Bool × Hub
unfolding get schedule_on
schedule loops e id hub = elim (get hub.subscriptions id) [
  | none ↦ (false, hub)
  | some s ↦ schedule_on loops e id s hub
]

abbrev pub count_if : Bool → ℕ → ℕ
count_if true n = suc n
count_if false n = n

-- The message to each target in turn, and how many it was scheduled for.
unfoldable pub schedule_each : Loops → RealtimeEvent → List ℕ → Hub → ℕ × Hub
unfolding schedule
schedule_each loops e [] hub = (0, hub)
schedule_each loops e (id ∷ ids) hub =
    let (sent, next) = schedule loops e id hub in
    let (n, last) = schedule_each loops e ids next in (count_if sent n, last)

unfoldable pub targets : Text → Dict ℕ Subscription → List ℕ
targets channel [] = []
targets channel ((id, s) ∷ m) =
    let rest = targets channel m in if is_on channel s then id ∷ rest else rest

abbrev pub keep_snapshot : Text → RealtimeEvent → Hub → Hub
keep_snapshot name e hub =
    if is_coalesced e.event
    then record hub {
      latest_snapshots = put hub.latest_snapshots name (put (snapshots_of name hub) e.event e);
    }
    else hub

abbrev pub count_publication : Text → Hub → Hub
count_publication name hub = record hub {
  sequences = put hub.sequences name (suc (current_sequence name hub));
}

-- `ValueError` leaves `none`; for a blank event its sequence is taken all the same.
unfoldable pub publish : Loops → ℕ → Text → Text → Fields → Hub → Option ℕ × Hub
unfolding put current_sequence snapshots_of create schedule_each targets is_coalesced strip
publish loops now channel event fields hub =
    let name = strip channel in
    let counted = count_publication name hub in
    if is_empty name
    then (none, hub)
    else elim (create event (suc (current_sequence name hub)) fields now) [
      | none ↦ (none, counted)
      | some e ↦
          let kept = keep_snapshot name e counted in
          let (n, last) = schedule_each loops e (targets name kept.subscriptions) kept in
          (some n, last)
    ]

-- `sorted(…, key=lambda item: item.sequence)`
unfoldable pub insert_event : RealtimeEvent → List RealtimeEvent → List RealtimeEvent
insert_event e [] = e ∷ []
insert_event e (x ∷ xs) =
    let rest = insert_event e xs in if leb e.sequence x.sequence then e ∷ x ∷ xs else x ∷ rest

unfoldable pub in_sequence : Dict Text RealtimeEvent → List RealtimeEvent
unfolding insert_event
in_sequence [] = []
in_sequence ((kind, e) ∷ m) = insert_event e (in_sequence m)

unfoldable pub replay : Loops → List RealtimeEvent → ℕ → Hub → Hub
unfolding schedule
replay loops [] id hub = hub
replay loops (e ∷ es) id hub = replay loops es id (schedule loops e id hub).1

abbrev pub subscribed : Text → Text → ℕ → ℕ → Subscription
subscribed channel transport loop maxsize = record {
  channel = channel;
  transport = transport;
  loop = loop;
  inbox = new_inbox maxsize;
  pending = [];
  delivered = [];
  registered = true;
}

abbrev pub add_subscription : Subscription → Hub → Hub
add_subscription s hub = record hub {
  subscriptions = put hub.subscriptions hub.next_id s;
  next_id = suc hub.next_id;
}

-- On the event loop `loop`. `ValueError` leaves `none`.
unfoldable pub subscribe : Loops → ℕ → Text → Text → ℕ → Bool → Hub → Option ℕ × Hub
unfolding put any_on snapshots_of in_sequence replay strip new_inbox
subscribe loops loop channel transport maxsize replay_latest hub =
    let name = strip channel in
    let transport_name = strip transport in
    let retained =
      if replay_latest && any_on name hub.subscriptions
      then in_sequence (snapshots_of name hub)
      else [] in
    if is_empty name || is_empty transport_name then (none, hub) else (
      some hub.next_id,
      replay loops retained hub.next_id
          (add_subscription (subscribed name transport_name loop maxsize) hub),
    )

-- The event loop runs the next callback of a subscription.
unfoldable pub run_callback : List Callback → Subscription → Subscription
unfolding offer close
run_callback [] s = s
run_callback (offering e ∷ rest) s = record s { inbox = offer e s.inbox; pending = rest }
run_callback (closing ∷ rest) s = record s { inbox = close s.inbox; pending = rest }

abbrev pub received : Got → List RealtimeEvent → List RealtimeEvent
received (item e) es = es ++ (e ∷ [])
received _ es = es

abbrev pub after_turn : Got × Inbox → Subscription → Subscription
after_turn (got, inbox) s = record s { inbox = inbox; delivered = received got s.delivered }

-- The consumer takes one turn of `get`.
unfoldable pub consume : Subscription → Subscription
unfolding get_turn
consume s = after_turn (get_turn s.inbox) s

unfoldable pub update : (Subscription → Subscription) → ℕ → Hub → Hub
unfolding get put
update f id hub = elim (get hub.subscriptions id) [
  | none ↦ hub
  | some s ↦ record hub { subscriptions = put hub.subscriptions id (f s) }
]

abbrev pub run_next : Subscription → Subscription
run_next s = run_callback s.pending s
