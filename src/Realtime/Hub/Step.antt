-- ===== src/Realtime/Hub/Step.antt =====
-- Each operation of the hub but the publication changes the subscriptions as it should.
use relaytv.Realtime.Hub.{after_turn}
use relaytv.Realtime.Hub.{consume}
use relaytv.Realtime.Hub.{run_callback}
use relaytv.Prelude.{◌⊎◌}
use relaytv.Prelude.{nat_eq}
use relaytv.Prelude.Dict
use relaytv.Prelude.{
  ℕ, ◌≡◌, refl, sym, true, false, Bool, some, List, [], ◌∷◌, ◌++◌, arith, ◌≟◌, if◌then◌else◌,
  codes_eq, Text, Bool-cases, Option-cases, inl, inr,
}
use mathlib.Core.List.{append_assoc}
use relaytv.Realtime.Inbox.{
  RealtimeEvent, Inbox, offer, coalesce, make_room, close, get_from, or_wait, nothing_there,
}
use relaytv.Realtime.Hub.{
  snapshots_of, forget, unregister, unsubscribe, schedule, schedule_on, Hub, Subscription, Callback,
  offering, closing, Loops,
}
use relaytv.Realtime.Hub.Sequence.{
  Kept, Upto-lower, Kept_none, Kept_front, Kept-append, coalesce-Kept, make_room-Kept,
}
use relaytv.Realtime.Hub.Change.{
  offered_in, stream, Goes_less, Goes_self, Changes-self, Changes-put, retire-Goes, Goes_items,
  Goes_kept, offered_in-append, Goes, Changes, only,
}

none_either : (b : Bool) (s t : Subscription) → Goes (if b then [] else []) s t → Goes [] s t
none_either true s t g = g
none_either false s t g = g

pub Changes-less :
    (more : ℕ → List RealtimeEvent) (id : ℕ) (a b : Hub)
    → Changes (only id []) a b
    → Changes more a b
Changes-less more id a b g = record {
  sequences = g.sequences;
  snapshots = g.snapshots;
  each = λ j t h.
      let (s, found, goes) = g.each j t h in
      (s, found, Goes_less (more j) s t (none_either (id ≟ j) s t goes));
  once = g.once;
}

forgotten :
    (b : Bool) (c k : Text) (a hub : Hub)
    → (snapshots_of k hub ≡ snapshots_of k a) ⊎ (snapshots_of k hub ≡ [])
    → (snapshots_of k (record hub { latest_snapshots = forget b c hub.latest_snapshots })
        ≡ snapshots_of k a)
      ⊎ (snapshots_of k (record hub { latest_snapshots = forget b c hub.latest_snapshots }) ≡ [])
unfolding snapshots_of
forgotten true c k a hub h = h
forgotten false c k a hub h = elim (Bool-cases (c ≟ k)) [
  | inl same ↦ inr (rw (Dict.get-pop hub.latest_snapshots c k) (rw same refl))
  | inr other ↦ rw (Dict.get-pop hub.latest_snapshots c k) (rw other h)
]

Changes-forget :
    (more : ℕ → List RealtimeEvent) (b : Bool) (c : Text) (a hub : Hub)
    → Changes more a hub
    → Changes more a (record hub { latest_snapshots = forget b c hub.latest_snapshots })
Changes-forget more b c a hub g = record {
  sequences = g.sequences;
  snapshots = λ k. forgotten b c k a hub (g.snapshots k);
  each = g.each;
  once = g.once;
}

unregister-Changes :
    (loops : Loops) (more : ℕ → List RealtimeEvent) (id : ℕ) (s : Subscription) (hub : Hub)
    → Dict.get hub.subscriptions id ≡ some s
    → Changes more hub (unregister loops id s hub)
unfolding unregister
unregister-Changes loops more id s hub found = Changes-less more id hub _ (
    Changes-forget (only id []) _ s.channel hub _
      (Changes-put hub id [] s _ found (retire-Goes loops s)))

either-Changes :
    (b : Bool) (more : ℕ → List RealtimeEvent) (a x y : Hub)
    → Changes more a x
    → Changes more a y
    → Changes more a (if b then x else y)
either-Changes true more a x y g h = g
either-Changes false more a x y g h = h

either_result :
    (b : Bool) (more : ℕ → List RealtimeEvent) (a : Hub) (x y : Bool × Hub)
    → Changes more a x.1
    → Changes more a y.1
    → Changes more a (if b then x else y).1
either_result true more a x y g h = g
either_result false more a x y g h = h

pub unsubscribe-Changes :
    (loops : Loops) (more : ℕ → List RealtimeEvent) (id : ℕ) (hub : Hub)
    → Changes more hub (unsubscribe loops id hub)
unfolding unsubscribe
unsubscribe-Changes loops more id hub = elim (Option-cases (Dict.get hub.subscriptions id)) [
  | inl h ↦ rw (h, unsubscribe) (Changes-self more hub)
  | inr (s, h) ↦
      rw (h, unsubscribe)
        (either-Changes s.registered more hub _ hub (unregister-Changes loops more id s hub h)
          (Changes-self more hub))
]

Kept_tail : (e : RealtimeEvent) (xs : List RealtimeEvent) → Kept xs (e ∷ xs)
Kept_tail e xs lo hi u = Upto-lower lo e.sequence hi xs (omega (arith, u.0)) u.1

appended :
    (s : Subscription) (e : RealtimeEvent)
    → Goes (e ∷ []) s (record s { pending = s.pending ++ (offering e ∷ []) })
unfolding stream offered_in
appended s e = record {
  channel = refl;
  kept = λ lo hi u.
      rw
        (
          offered_in-append s.pending (offering e ∷ []),
          sym (append_assoc s.inbox.items (offered_in s.pending) (e ∷ [])),
          sym (append_assoc s.delivered (s.inbox.items ++ offered_in s.pending) (e ∷ [])),
        )
        u;
}

pub schedule-Changes :
    (loops : Loops) (e : RealtimeEvent) (id : ℕ) (hub : Hub)
    → Changes (only id (e ∷ [])) hub (schedule loops e id hub).1
unfolding schedule schedule_on
schedule-Changes loops e id hub = elim (Option-cases (Dict.get hub.subscriptions id)) [
  | inl h ↦ rw (h, schedule) (Changes-self _ hub)
  | inr (s, h) ↦
      rw (h, schedule)
        (either_result s.inbox.closed (only id (e ∷ [])) hub _ _ (Changes-self _ hub) (
          either_result (loops.is_open s.loop) (only id (e ∷ [])) hub _ _
            (Changes-put hub id (e ∷ []) s _ h (appended s e))
            (unsubscribe-Changes loops _ id hub)))
]

either-Kept :
    (b : Bool) (x y : Inbox) (zs : List RealtimeEvent)
    → Kept x.items zs
    → Kept y.items zs
    → Kept (if b then x else y).items zs
either-Kept true x y zs h g = h
either-Kept false x y zs h g = g

offer-Kept :
    (e : RealtimeEvent) (inbox : Inbox) → Kept (offer e inbox).items (inbox.items ++ (e ∷ []))
unfolding offer
offer-Kept e inbox =
    let left = (coalesce e.event inbox.items).0 in
    let room = (make_room inbox.maxsize left).0 in
    either-Kept inbox.closed inbox _ (inbox.items ++ (e ∷ [])) (Kept_front inbox.items (e ∷ [])) (
      Kept-append room inbox.items (e ∷ []) (e ∷ [])
        (λ lo hi u.
          make_room-Kept inbox.maxsize left lo hi (coalesce-Kept e.event inbox.items lo hi u))
        (λ lo hi u. u))

offered-Goes :
    (s : Subscription) (e : RealtimeEvent) (rest : List Callback)
    → s.pending ≡ offering e ∷ rest
    → Goes [] s (record s { inbox = offer e s.inbox; pending = rest })
unfolding offer stream offered_in
offered-Goes s e rest h = Goes_kept s _ refl (λ lo hi u.
    Kept-append s.delivered s.delivered _ _ (λ l k v. v)
      (Kept-append (offer e s.inbox).items (s.inbox.items ++ (e ∷ [])) (offered_in rest)
        (offered_in rest) (offer-Kept e s.inbox) (λ l k v. v))
      lo hi (rw (append_assoc s.inbox.items (e ∷ []) (offered_in rest)) (rw h at u)))

pub run_callback-Goes :
    (s : Subscription) (cs : List Callback) → s.pending ≡ cs → Goes [] s (run_callback cs s)
unfolding run_callback close stream offered_in
run_callback-Goes s [] h = Goes_self [] s
run_callback-Goes s (offering e ∷ rest) h = offered-Goes s e rest h
run_callback-Goes s (closing ∷ rest) h =
    Goes_items s _ refl refl (rw h refl) (Kept_none s.inbox.items)

nothing-Goes :
    (b : Bool) (s : Subscription) → Goes [] s (after_turn (or_wait (nothing_there b, s.inbox)) s)
unfolding or_wait
nothing-Goes true s = Goes_self [] s
nothing-Goes false s = Goes_items s _ refl refl refl (λ lo hi u. u)

consumed :
    (s : Subscription) (items : List RealtimeEvent)
    → s.inbox.items ≡ items
    → Goes [] s (after_turn (or_wait (get_from items s.inbox)) s)
unfolding or_wait get_from stream
consumed s [] h = nothing-Goes s.inbox.closed s
consumed s (x ∷ rest) h =
    Goes_kept s _ refl
      (λ lo hi u. rw (append_assoc s.delivered (x ∷ []) (rest ++ offered_in s.pending)) (rw h at u))

pub consume-Goes : (s : Subscription) → Goes [] s (consume s)
unfolding consume
consume-Goes s = consumed s s.inbox.items refl
