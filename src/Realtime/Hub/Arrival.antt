-- ===== src/Realtime/Hub/Arrival.antt =====
-- The newest event reaches every consumer that goes on reading.
use relaytv.Realtime.Hub.{after_turn}
use relaytv.Realtime.Hub.{unsubscribe}
use mathlib.Core.List.{append-nil}
use relaytv.Realtime.Hub.{closing, offering}
use relaytv.Realtime.Inbox.{get_turn, get_nowait, get_from, or_wait, offer}
use relaytv.Prelude.{length, zero, if◌then◌else◌, ≟_refl}
use relaytv.Prelude.{ap, ◌∙◌}
use relaytv.Realtime.Inbox.{or_wait}
use relaytv.Realtime.Inbox.{get_from}
use relaytv.Realtime.Hub.{Hub}
use relaytv.Realtime.Hub.{Loops}
use relaytv.Realtime.Inbox.{get_nowait}
use relaytv.Prelude.{if◌then◌else◌}
use relaytv.Realtime.Hub.{RealtimeEvent}
use relaytv.Realtime.Hub.{get_turn}
use relaytv.Realtime.Hub.{schedule_on}
use relaytv.Realtime.Inbox.{offer}
use relaytv.Realtime.Hub.{Subscription}
use relaytv.Realtime.Hub.{schedule}
use relaytv.Realtime.Hub.{consume}
use relaytv.Realtime.Hub.{run_callback}
use relaytv.Realtime.Hub.{Callback}
use relaytv.Realtime.Inbox.{Inbox}
use relaytv.Prelude.{nat_eq, refl, true, false, Bool, ◌≡◌, List, [], ◌∷◌, ◌++◌, ℕ, suc, some, sym}
use relaytv.Prelude.Dict
use mathlib.Core.List.{append_assoc}

-- The event loop runs every callback that was handed to it.
unfoldable pub run_all : List Callback → Subscription → Subscription
unfolding run_callback
run_all [] s = s
run_all (c ∷ cs) s = run_all cs (run_callback (c ∷ cs) s)

-- The consumer takes that many turns.
unfoldable pub read_turns : ℕ → Subscription → Subscription
unfolding consume
read_turns zero s = s
read_turns (suc n) s = read_turns n (consume s)

abbrev pub caught_up : Subscription → Subscription
caught_up s = let settled = run_all s.pending s in read_turns (length settled.inbox.items) settled

unfoldable pub only_offers : List Callback → Bool
only_offers [] = true
only_offers (offering e ∷ cs) = only_offers cs
only_offers (closing ∷ cs) = false

either_closed :
    (b : Bool) (x y : Inbox) → x.closed ≡ b → y.closed ≡ b → (if b then x else y).closed ≡ b
either_closed true x y h g = h
either_closed false x y h g = g

offer_closed : (e : RealtimeEvent) (inbox : Inbox) → (offer e inbox).closed ≡ inbox.closed
unfolding offer
offer_closed e inbox = either_closed inbox.closed inbox _ refl refl

open_items : (b : Bool) (x y : Inbox) → b ≡ false → (if b then x else y).items ≡ y.items
open_items true x y h = absurd cc
open_items false x y h = refl

taken_branch :
    {A : Type 0} (b c : Bool) (x y z : A)
    → b ≡ false
    → c ≡ true
    → (if b then x else if c then y else z) ≡ y
taken_branch true c x y z h g = absurd cc
taken_branch false true x y z h g = refl
taken_branch false false x y z h g = absurd cc

offer_last :
    (e : RealtimeEvent) (inbox : Inbox)
    → inbox.closed ≡ false
    → (room : List RealtimeEvent) × ((offer e inbox).items ≡ room ++ (e ∷ []))
unfolding offer
offer_last e inbox open_yet = (_, open_items inbox.closed inbox _ open_yet)

run_all_last :
    (e : RealtimeEvent) (cs : List Callback) (s : Subscription)
    → s.inbox.closed ≡ false
    → only_offers cs ≡ true
    → (room : List RealtimeEvent) × ((run_all (cs ++ (offering e ∷ [])) s).inbox.items
        ≡ room ++ (e ∷ []))
unfolding run_all only_offers run_callback
run_all_last e [] s h o = offer_last e s.inbox h
run_all_last e (offering d ∷ cs) s h o = run_all_last e cs _ (rw (offer_closed d s.inbox) h) o
run_all_last e (closing ∷ cs) s h o = absurd cc

consume_item :
    (x : RealtimeEvent) (rest : List RealtimeEvent) (s : Subscription)
    → s.inbox.items ≡ x ∷ rest
    → ((consume s).inbox.items ≡ rest) × ((consume s).delivered ≡ s.delivered ++ (x ∷ []))
unfolding consume relaytv.Realtime.Inbox.get_turn relaytv.Realtime.Inbox.get_nowait
    relaytv.Realtime.Inbox.get_from relaytv.Realtime.Inbox.or_wait
consume_item x rest s h = (
  ap (λ items. (after_turn (or_wait (get_from items s.inbox)) s).inbox.items) h,
  ap (λ items. (after_turn (or_wait (get_from items s.inbox)) s).delivered) h,
)

read_turns_all :
    (items : List RealtimeEvent) (s : Subscription)
    → s.inbox.items ≡ items
    → (read_turns (length items) s).delivered ≡ s.delivered ++ items
unfolding read_turns consume relaytv.Realtime.Inbox.get_turn relaytv.Realtime.Inbox.get_nowait
    relaytv.Realtime.Inbox.get_from relaytv.Realtime.Inbox.or_wait
read_turns_all [] s h = sym (append-nil s.delivered)
read_turns_all (x ∷ rest) s h =
    let (left, got) = consume_item x rest s h in
    read_turns_all rest (consume s) left
    ∙ (ap (λ es. es ++ rest) got ∙ append_assoc s.delivered (x ∷ []) rest)

-- Where the loop of an open subscription takes callbacks, and nothing but events was handed to it: a
-- message that is scheduled is the last thing its consumer got, once the loop ran what was handed
-- to it and the consumer took as many turns as the inbox has items.
pub schedule-arrives :
    (loops : Loops) (e : RealtimeEvent) (id : ℕ) (s : Subscription) (hub : Hub)
    → Dict.get hub.subscriptions id ≡ some s
    → s.inbox.closed ≡ false
    → loops.is_open s.loop ≡ true
    → only_offers s.pending ≡ true
    → (s' : Subscription) × (older : List RealtimeEvent) × (Dict.get
          (schedule loops e id hub).1.subscriptions
          id
        ≡ some s')
      × ((caught_up s').delivered ≡ older ++ (e ∷ []))
unfolding schedule schedule_on
schedule-arrives loops e id s hub found on taken offers =
    let s' : Subscription = record s { pending = s.pending ++ (offering e ∷ []) } in
    let (room, last) = run_all_last e s.pending s' on offers in
    let settled = run_all s'.pending s' in
    let pushed =
      taken_branch s.inbox.closed (loops.is_open s.loop) (false, hub)
        (true, record hub { subscriptions = Dict.put hub.subscriptions id s' })
        (false, unsubscribe loops id hub) on taken in
    (
      s',
      settled.delivered ++ room,
      rw (found, schedule)
          (ap (λ (r : Bool × Hub). Dict.get r.1.subscriptions id) pushed
            ∙ (Dict.get-put hub.subscriptions id id s' ∙ rw (≟_refl id) refl)),
      read_turns_all settled.inbox.items settled refl
          ∙ (ap (λ items. settled.delivered ++ items) last
              ∙ sym (append_assoc settled.delivered room (e ∷ []))),
    )
