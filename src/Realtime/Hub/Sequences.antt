-- ===== src/Realtime/Hub/Sequences.antt =====
-- Every subscriber gets the events of its channel in strictly ascending sequence.
use mathlib.Core.List.{append-nil}
use relaytv.Realtime.Hub.Snapshots.{in_sequence-Upto}
use relaytv.Realtime.Hub.Handing.{replay-Changes}
use relaytv.Realtime.Hub.Ordered.{Changes-IsOrdered}
use relaytv.Realtime.Hub.{in_sequence}
use relaytv.Prelude.{◌≟◌}
use relaytv.Prelude.{sym}
use relaytv.Prelude.{subst}
use relaytv.Realtime.Hub.Change.{only}
use relaytv.Realtime.Hub.{any_on}
use relaytv.Prelude.{◌&&◌}
use relaytv.Realtime.Hub.Ordered.{Rising}
use relaytv.Prelude.{◌++◌}
use relaytv.Realtime.Hub.{new_inbox}
use relaytv.Prelude.{arith}
use relaytv.Realtime.Hub.Step.{consume-Goes}
use relaytv.Realtime.Hub.Ordered.{handed-IsOrdered}
use relaytv.Realtime.Hub.{is_coalesced}
use relaytv.Realtime.Hub.Step.{run_callback-Goes}
use relaytv.Realtime.Hub.Ordered.{update-IsOrdered}
use relaytv.Realtime.Hub.Ordered.{Counted-Counted}
use relaytv.Realtime.Hub.Ordered.{snapshot-Counted}
use relaytv.Realtime.Hub.{consume}
use relaytv.Realtime.Hub.Change.{no_more}
use relaytv.Realtime.Hub.{count_publication}
use relaytv.Realtime.Hub.Ordered.{Counted-IsOrdered}
use relaytv.Realtime.Hub.Change.{stream}
use relaytv.Realtime.Hub.{keep_snapshot}
use relaytv.Realtime.Hub.{subscribed}
use relaytv.Realtime.Hub.{run_next}
use relaytv.Realtime.Hub.Sequence.{Upto}
use relaytv.Realtime.Hub.Step.{unsubscribe-Changes}
use relaytv.Prelude.{Option-cases}
use relaytv.Realtime.Hub.Ordered.{quiet-IsOrdered}
use relaytv.Prelude.{is_empty}
use relaytv.Realtime.Hub.{add_subscription}
use relaytv.Prelude.{strip}
use relaytv.Prelude.{Bool-cases}
use relaytv.Realtime.Hub.Ordered.{Counted}
use relaytv.Prelude.{if◌then◌else◌}
use relaytv.Realtime.Hub.{update}
use relaytv.Realtime.Hub.{new_hub}
use relaytv.Prelude.{List, [], ◌∷◌, Option, Bool, Text, ◌≡◌, ◌||◌, ℕ, suc}
use relaytv.Prelude.{nat_eq, codes_eq}
use relaytv.Realtime.Hub.{unsubscribe}
use relaytv.Prelude.{◌∷◌}
use relaytv.Realtime.Hub.{RealtimeEvent}
use relaytv.Realtime.Hub.Ordered.{IsOrdered}
use relaytv.Realtime.Hub.{Subscription}
use relaytv.Realtime.Hub.{Loops}
use relaytv.Prelude.{Bool}
use relaytv.Realtime.Hub.{create}
use relaytv.Prelude.{List}
use relaytv.Realtime.Hub.{Hub}
use relaytv.Realtime.Hub.{snapshots_of}
use relaytv.Realtime.Hub.{subscribe}
use relaytv.Realtime.Hub.{publish}
use relaytv.Realtime.Hub.{current_sequence}
use relaytv.Prelude.{Text}
use relaytv.Prelude.{true, false, inl, inr, refl, none, some}
use relaytv.Prelude.Dict
use relaytv.Prelude.Value.{Fields}

-- What happens to the hub, in the order of its lock.
pub data Action : Type 0 where
  subscribing : Loops → ℕ → Text → Text → ℕ → Bool → Action
  unsubscribing : Loops → ℕ → Action
  publishing : Loops → ℕ → Text → Text → Fields → Action
  running : ℕ → Action
  consuming : ℕ → Action

unfoldable pub happen : Action → Hub → Hub
happen (subscribing loops loop channel transport maxsize replay_latest) hub =
    (subscribe loops loop channel transport maxsize replay_latest hub).1
happen (unsubscribing loops id) hub = unsubscribe loops id hub
happen (publishing loops now channel event fields) hub =
    (publish loops now channel event fields hub).1
happen (running id) hub = update run_next id hub
happen (consuming id) hub = update consume id hub

unfoldable pub happen_each : List Action → Hub → Hub
unfolding happen
happen_each [] hub = hub
happen_each (a ∷ actions) hub = happen_each actions (happen a hub)

create_sequence :
    (kind : Text) (n : ℕ) (fields : Fields) (now : ℕ) (e : RealtimeEvent)
    → create kind n fields now ≡ some e
    → e.sequence ≡ n
unfolding create
create_sequence kind n fields now e h = elim (Bool-cases (is_empty (strip kind))) [
  | inl blank ↦ let no = rw blank at h in absurd cc
  | inr named ↦ let made = rw named at h in cc
]

published :
    (name : Text) (e : RealtimeEvent) (hub : Hub)
    → IsOrdered hub
    → e.sequence ≡ suc (current_sequence name hub)
    → Counted name hub (keep_snapshot name e (count_publication name hub))
published name e hub v h = snapshot-Counted (is_coalesced e.event) name e hub v h

either-IsOrdered :
    {A : Type 0} (b : Bool) (x y : A × Hub)
    → IsOrdered x.1
    → IsOrdered y.1
    → IsOrdered (if b then x else y).1
either-IsOrdered true x y v w = v
either-IsOrdered false x y v w = w

publish-IsOrdered :
    (loops : Loops) (now : ℕ) (channel event : Text) (fields : Fields) (hub : Hub)
    → IsOrdered hub
    → IsOrdered (publish loops now channel event fields hub).1
unfolding publish
publish-IsOrdered loops now channel event fields hub v =
    let name = strip channel in
    let n = suc (current_sequence name hub) in
    either-IsOrdered (is_empty name) (none, hub) _ v
      (elim (Option-cases (create event n fields now)) [
        | inl h ↦ rw (h, publish) (Counted-IsOrdered name hub _ (Counted-Counted name hub v) v)
        | inr (e, h) ↦
            let is = create_sequence event n fields now e h in
            rw (h, publish) (handed-IsOrdered loops name e hub _ (published name e hub v is) is v)
      ])

added_one :
    (b : Bool) (o : Option Subscription) (new t : Subscription) (es : List RealtimeEvent)
    (hub : Hub)
    → (if b then some new else o) ≡ some t
    → stream new ≡ []
    → Upto 0 es (current_sequence new.channel hub)
    → ((s : Subscription) → o ≡ some s → Upto 0 (stream s) (current_sequence s.channel hub))
    → Upto 0 (stream t ++ (if b then es else [])) (current_sequence t.channel hub)
added_one true o new t es hub h none_yet u v =
    let is : t ≡ new = cc in
    subst (λ x. Upto 0 (stream x ++ es) (current_sequence x.channel hub)) (sym is) (rw none_yet u)
added_one false o new t es hub h none_yet u v = rw (append-nil (stream t)) (v t h)

either_retained :
    (b : Bool) (n : ℕ) (xs : List RealtimeEvent) → Upto 0 xs n → Upto 0 (if b then xs else []) n
either_retained true n xs u = u
either_retained false n xs u = omega arith

added-Rising :
    (new : Subscription) (es : List RealtimeEvent) (hub : Hub)
    → stream new ≡ []
    → Upto 0 es (current_sequence new.channel hub)
    → IsOrdered hub
    → Rising (only hub.next_id es) (add_subscription new hub)
unfolding current_sequence
added-Rising new es hub none_yet u v id t h =
    added_one (hub.next_id ≟ id) (Dict.get hub.subscriptions id) new t es hub
      (rw (Dict.get-put hub.subscriptions hub.next_id id new) at h) none_yet u (v.streams id)

subscribed_nothing :
    (name transport : Text) (loop maxsize : ℕ)
    → stream (subscribed name transport loop maxsize) ≡ []
unfolding stream relaytv.Realtime.Inbox.new_inbox relaytv.Realtime.Hub.Change.offered_in
subscribed_nothing name transport loop maxsize = refl

subscribe-IsOrdered :
    (loops : Loops) (loop : ℕ) (channel transport : Text) (maxsize : ℕ) (replayed : Bool)
    (hub : Hub)
    → IsOrdered hub
    → IsOrdered (subscribe loops loop channel transport maxsize replayed hub).1
unfolding subscribe snapshots_of current_sequence
subscribe-IsOrdered loops loop channel transport maxsize replayed hub v =
    let name = strip channel in
    let new = subscribed name (strip transport) loop maxsize in
    let wanted = replayed && any_on name hub.subscriptions in
    let all = in_sequence (snapshots_of name hub) in
    let retained = if wanted then all else [] in
    either-IsOrdered (is_empty name || is_empty (strip transport)) (none, hub) _ v
      (Changes-IsOrdered (only hub.next_id retained) (add_subscription new hub) _
        (replay-Changes loops retained hub.next_id (add_subscription new hub))
        (added-Rising new retained hub (subscribed_nothing name (strip transport) loop maxsize)
          (either_retained wanted (current_sequence name hub) all
            (in_sequence-Upto _ (snapshots_of name hub) (v.snapshots name)))
          v)
        v.snapshots (Dict.KeysOnce-put hub.subscriptions hub.next_id new v.once))

happen-IsOrdered : (a : Action) (hub : Hub) → IsOrdered hub → IsOrdered (happen a hub)
unfolding happen
happen-IsOrdered (subscribing loops loop channel transport maxsize r) hub v =
    subscribe-IsOrdered loops loop channel transport maxsize r hub v
happen-IsOrdered (unsubscribing loops id) hub v =
    quiet-IsOrdered hub _ (unsubscribe-Changes loops no_more id hub) v
happen-IsOrdered (publishing loops now channel event fields) hub v =
    publish-IsOrdered loops now channel event fields hub v
happen-IsOrdered (running id) hub v =
    update-IsOrdered run_next id hub (λ s. run_callback-Goes s s.pending refl) v
happen-IsOrdered (consuming id) hub v = update-IsOrdered consume id hub consume-Goes v

happen_each_keeps :
    (actions : List Action) (hub : Hub) → IsOrdered hub → IsOrdered (happen_each actions hub)
unfolding happen_each
happen_each_keeps [] hub v = v
happen_each_keeps (a ∷ actions) hub v =
    happen_each_keeps actions (happen a hub) (happen-IsOrdered a hub v)

new_hub-IsOrdered : IsOrdered new_hub
unfolding snapshots_of current_sequence Dict.get
new_hub-IsOrdered = record { streams = λ id s h. absurd cc; snapshots = λ c. tt; once = tt }

-- Whatever consumers subscribe, unsubscribe and read, whatever is published, and whenever event
-- loops run or are closed: for each subscription, the events its consumer got, then those in its
-- inbox, then those handed to its loop have strictly ascending sequences, of which the last is at
-- most the current sequence of its channel.
pub happen_each-Upto :
    (actions : List Action) (id : ℕ) (s : Subscription)
    → Dict.get (happen_each actions new_hub).subscriptions id ≡ some s
    → Upto 0 (stream s) (current_sequence s.channel (happen_each actions new_hub))
happen_each-Upto actions id s h =
    (happen_each_keeps actions new_hub new_hub-IsOrdered).streams id s h
