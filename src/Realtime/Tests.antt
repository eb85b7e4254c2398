-- ===== src/Realtime/Tests.antt =====
-- The inbox theorem at a concrete history.
use relaytv.Prelude.{◌≟◌}
use relaytv.Prelude.{if◌then◌else◌}
use relaytv.Prelude.{Option}
use relaytv.Prelude.{strip}
use relaytv.Realtime.Metrics.{metrics}
use relaytv.UrlBoundary.{SplitResult}
use relaytv.Realtime.Origin.{websocket_origin_allowed, expected_scheme}
use relaytv.Realtime.Origin.Matching.{IsSameOrigin, websocket_origin_allowed-IsSameOrigin}
use relaytv.Prelude.{nat_eq, none, some, ◌++◌, true, false, codes_eq}
use relaytv.Prelude.Dict
use relaytv.Realtime.Hub.{Loops, Subscription, new_hub, schedule, current_sequence}
use relaytv.Realtime.Hub.Sequences.{
  subscribing, publishing, running, consuming, happen_each, happen_each-Upto,
}
use relaytv.Realtime.Hub.Arrival.{caught_up, schedule-arrives}
use relaytv.Realtime.Hub.Sequences
use relaytv.Realtime.Hub.Change.{stream}
use relaytv.Realtime.Hub.Sequence.{Upto}
use relaytv.Prelude.{ℕ, ◌≡◌, refl, List, [], ◌∷◌, codes, Text, length}
use relaytv.Realtime.Inbox.{RealtimeEvent}
use relaytv.Realtime.Inbox.Bounded.{
  Action, offering, getting, IsValid, act_all, opened, act_all-IsValid,
}

abbrev update : Text → ℕ → RealtimeEvent
update kind n = record { event = kind; sequence = n; timestamp = 0; data_fields = [] }

abbrev history : List Action
history =
    offering (update (codes "status") 1)
    ∷ offering (update (codes "toast") 2)
    ∷ offering (update (codes "status") 3)
    ∷ offering (update (codes "toast") 4)
    ∷ getting
    ∷ []

-- The older status is replaced, and the oldest toast makes room.
left_over : length (act_all history (opened 2)).inbox.items ≡ 1
unfolding act_all relaytv.Realtime.Inbox.Bounded.act relaytv.Realtime.Inbox.get_turn
    relaytv.Realtime.Inbox.offer relaytv.Realtime.Inbox.new_inbox relaytv.Prelude.codes_beq
left_over = refl

act_all-IsValid_example : IsValid (act_all history (opened 2))
act_all-IsValid_example = act_all-IsValid 2 history

abbrev loops : Loops
loops = record { running = none; is_open = λ loop. true }

-- Two browsers on the channel `ui`; the second one joins after a status and gets it replayed.
abbrev evening : List Sequences.Action
evening =
    subscribing loops 1 (codes "ui") (codes "websocket") 4 true
    ∷ publishing loops 10 (codes "ui") (codes "status") []
    ∷ publishing loops 11 (codes "ui") (codes "toast") []
    ∷ subscribing loops 2 (codes " ui ") (codes "sse") 2 true
    ∷ publishing loops 12 (codes "ui") (codes "playback") []
    ∷ running 2
    ∷ running 2
    ∷ consuming 2
    ∷ []

abbrev second : Subscription
second = record {
  channel = codes "ui";
  transport = codes "sse";
  loop = 2;
  inbox = record {
    maxsize = 2;
    items =
        record { event = codes "playback"; sequence = 3; timestamp = 12; data_fields = [] } ∷ [];
    available = true;
    closed = false;
    offered = 2;
    dropped = 0;
    coalesced = 0;
  };
  pending = [];
  delivered =
      record { event = codes "status"; sequence = 1; timestamp = 10; data_fields = [] } ∷ [];
  registered = true;
}

second_found : Dict.get (happen_each evening new_hub).subscriptions 2 ≡ some second
unfolding Dict.get happen_each relaytv.Realtime.Hub.update relaytv.Realtime.Hub.publish
    relaytv.Prelude.codes_beq relaytv.Realtime.Hub.subscribe relaytv.Realtime.Hub.consume
    relaytv.Realtime.Hub.run_callback
second_found = refl

happen_each-Upto_example :
    Upto 0 (stream second) (current_sequence (codes "ui") (happen_each evening new_hub))
happen_each-Upto_example = happen_each-Upto evening 2 second second_found

abbrev late : RealtimeEvent
late = record { event = codes "toast"; sequence = 4; timestamp = 13; data_fields = [] }

schedule-arrives_example :
    (s' : Subscription) × (older : List RealtimeEvent) × (Dict.get
        (schedule loops late 2 (happen_each evening new_hub)).1.subscriptions
        2
      ≡ some s')
    × ((caught_up s').delivered ≡ older ++ (late ∷ []))
unfolding relaytv.Realtime.Hub.Arrival.only_offers
schedule-arrives_example =
    schedule-arrives loops late 2 second (happen_each evening new_hub) second_found refl refl refl

abbrev parts_of : Text → Text → Option ℕ → SplitResult
parts_of scheme host port = record {
  scheme = scheme;
  netloc = host;
  path = [];
  query = [];
  fragment = [];
  port = port;
  hostname = some host;
  username = none;
  password = none;
}

-- `urlsplit` on the two texts of the example.
abbrev split_two : Text → Option SplitResult
split_two url =
    if url ≟ codes "https://tv.example"
    then some (parts_of (codes "https") (codes "tv.example") none)
    else if url ≟ codes "//tv.example:443"
    then some (parts_of [] (codes "tv.example") (some 443))
    else none

let_in :
    websocket_origin_allowed split_two
      (codes "https://tv.example")
      (codes "tv.example:443")
      (codes "wss")
    ≡ true
unfolding websocket_origin_allowed relaytv.Prelude.codes_beq
let_in = refl

kept_out :
    websocket_origin_allowed split_two
      (codes "https://tv.example")
      (codes "tv.example:443")
      (codes "ws")
    ≡ false
unfolding websocket_origin_allowed relaytv.Prelude.codes_beq
kept_out = refl

websocket_origin_allowed-IsSameOrigin_example :
    (from : SplitResult) × (to : SplitResult) × (split_two (strip (codes "https://tv.example"))
      ≡ some from)
    × (split_two (codes "//" ++ strip (codes "tv.example:443")) ≡ some to)
    × IsSameOrigin (expected_scheme (codes "wss")) from to
unfolding strip
websocket_origin_allowed-IsSameOrigin_example =
    websocket_origin_allowed-IsSameOrigin split_two (codes "https://tv.example")
      (codes "tv.example:443") (codes "wss") refl let_in

two_counted : (metrics (happen_each evening new_hub)).subscribers ≡ 2
unfolding metrics happen_each relaytv.Realtime.Hub.update relaytv.Realtime.Hub.publish
    relaytv.Prelude.codes_beq relaytv.Realtime.Hub.subscribe relaytv.Realtime.Hub.consume
    relaytv.Realtime.Hub.run_callback
two_counted = refl
