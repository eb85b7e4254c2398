-- ===== src/Realtime/Inbox.antt =====
-- `RealtimeSubscription` of realtime.py: the bounded inbox of one consumer, of which every method
-- that is modelled runs on its event loop. `available` is the `asyncio.Event` a consumer waits on.
pub mod Bounded
pub mod Room
use relaytv.Prelude.{
  ℕ, suc, ◌+◌, Bool, true, false, not, ◌&&◌, ◌||◌, Option, none, some, List, [], ◌∷◌, ◌++◌, ltb,
  leb, ◌==◌, ◌≟◌, if◌then◌else◌, length, max, codes_eq, Text, codes, is_empty, contains,
}
use relaytv.Prelude.Value.{Fields}

pub record RealtimeEvent : Type 0 where
  pub event : Text
  pub sequence : ℕ
  pub timestamp : ℕ
  pub data_fields : Fields

abbrev pub coalesced_events : List Text
coalesced_events = codes "playback" ∷ codes "status" ∷ []

unfoldable pub is_coalesced : Text → Bool
unfolding contains
is_coalesced kind = contains coalesced_events kind

pub record Inbox : Type 0 where
  pub maxsize : ℕ
  pub items : List RealtimeEvent
  pub available : Bool
  pub closed : Bool
  pub offered : ℕ
  pub dropped : ℕ
  pub coalesced : ℕ

-- `RealtimeSubscription(maxsize=…)`
unfoldable pub new_inbox : ℕ → Inbox
new_inbox maxsize = record {
  maxsize = max 1 maxsize;
  items = [];
  available = false;
  closed = false;
  offered = 0;
  dropped = 0;
  coalesced = 0;
}

-- The items less the last one of a kind; `none` where there is none.
unfoldable pub remove_last : Text → List RealtimeEvent → Option (List RealtimeEvent)
remove_last kind [] = none
remove_last kind (x ∷ xs) = elim (remove_last kind xs) [
  | some rest ↦ some (x ∷ rest)
  | none ↦ if x.event ≟ kind then some xs else none
]

abbrev pub taken_out : List RealtimeEvent → Option (List RealtimeEvent) → List RealtimeEvent × ℕ
taken_out items none = (items, 0)
taken_out items (some rest) = (rest, 1)

-- The items that are left once a newer event of a kind comes, and how many were taken out.
unfoldable pub coalesce : Text → List RealtimeEvent → List RealtimeEvent × ℕ
unfolding remove_last is_coalesced
coalesce kind items =
    if is_coalesced kind then taken_out items (remove_last kind items) else (items, 0)

-- `popleft()` where the inbox is full, and whether it was.
unfoldable pub make_room : ℕ → List RealtimeEvent → List RealtimeEvent × ℕ
make_room maxsize [] = ([], 0)
make_room maxsize (x ∷ xs) = if leb maxsize (length (x ∷ xs)) then (xs, 1) else (x ∷ xs, 0)

unfoldable pub offer : RealtimeEvent → Inbox → Inbox
unfolding coalesce make_room
offer e inbox =
    let (left, coalesced) = coalesce e.event inbox.items in
    let (room, dropped) = make_room inbox.maxsize left in
    if inbox.closed then inbox else record inbox {
      items = room ++ (e ∷ []);
      available = true;
      offered = suc inbox.offered;
      dropped = inbox.dropped + dropped;
      coalesced = inbox.coalesced + coalesced;
    }

unfoldable pub close : Inbox → Inbox
close inbox = record inbox { items = []; available = true; closed = true }

-- What `get_nowait` ends with. Where it raises `QueueEmpty`, `get` clears the event and waits.
pub data Got : Type 0 where
  item : RealtimeEvent → Got
  subscription_closed : Got
  queue_empty : Got

abbrev pub nothing_there : Bool → Got
nothing_there closed = if closed then subscription_closed else queue_empty

unfoldable pub get_from : List RealtimeEvent → Inbox → Got × Inbox
get_from [] inbox = (nothing_there inbox.closed, inbox)
get_from (x ∷ rest) inbox = (
  item x,
  record inbox { items = rest; available = if is_empty rest then false else inbox.available },
)

unfoldable pub get_nowait : Inbox → Got × Inbox
unfolding get_from
get_nowait inbox = get_from inbox.items inbox

-- `get` waits where there is nothing: it clears the event first.
unfoldable pub or_wait : Got × Inbox → Got × Inbox
or_wait (item x, inbox) = (item x, inbox)
or_wait (subscription_closed, inbox) = (subscription_closed, inbox)
or_wait (queue_empty, inbox) = (queue_empty, record inbox { available = false })

-- One turn of the loop of `get`: it returns, raises, or waits from here.
unfoldable pub get_turn : Inbox → Got × Inbox
unfolding get_nowait or_wait
get_turn inbox = or_wait (get_nowait inbox)
