-- ===== src/Realtime/Inbox/Bounded.antt =====
-- The inbox stays bounded, wakes its consumer, and loses no event unaccounted.
use relaytv.Realtime.Inbox.Room.{
  count_kind, count_kind-append, Coalesced, coalesce-Coalesced, Roomy, make_room-Roomy,
}
use relaytv.Realtime.Inbox.{nothing_there}
use relaytv.Prelude.{Bool}
use relaytv.Realtime.Inbox.{get_from}
use relaytv.Realtime.Inbox.{or_wait}
use relaytv.Realtime.Inbox.{new_inbox}
use relaytv.Prelude.{length-append}
use relaytv.Prelude.{false}
use relaytv.Realtime.Inbox.{coalesce}
use relaytv.Realtime.Inbox.{make_room}
use relaytv.Prelude.{
  ℕ, ◌+◌, ◌≤◌, ◌<◌, ◌≡◌, refl, true, not, ◌||◌, List, [], ◌∷◌, ◌++◌, arith, ◌≟◌, if◌then◌else◌,
  length, codes_eq, Text, is_empty, ≟_iff, Bool-cases, inl, inr,
}
use relaytv.Realtime.Inbox.{
  RealtimeEvent, Inbox, is_coalesced, offer, close, Got, item, subscription_closed, queue_empty,
  get_nowait, get_turn,
}

-- What happens to one inbox, in the order of its event loop.
pub data Action : Type 0 where
  offering : RealtimeEvent → Action
  getting : Action
  polling : Action
  closing : Action

-- The inbox, the events that were delivered, the newest first, and the number that a close threw out.
pub record Scene : Type 0 where
  pub inbox : Inbox
  pub delivered : List RealtimeEvent
  pub discarded : ℕ

abbrev pub delivered_by : Got → List RealtimeEvent → List RealtimeEvent
delivered_by (item e) es = e ∷ es
delivered_by subscription_closed es = es
delivered_by queue_empty es = es

abbrev pub after_get : Got × Inbox → Scene → Scene
after_get (got, inbox) c = record c { inbox = inbox; delivered = delivered_by got c.delivered }

unfoldable pub act : Action → Scene → Scene
act (offering e) c = record c { inbox = offer e c.inbox }
act getting c = after_get (get_turn c.inbox) c
act polling c = after_get (get_nowait c.inbox) c
act closing c = record c { inbox = close c.inbox; discarded = c.discarded + length c.inbox.items }

unfoldable pub act_all : List Action → Scene → Scene
act_all [] c = c
act_all (a ∷ actions) c = act_all actions (act a c)

pub record IsValid (c : Scene) : Type 0 where
  pub room : 0 < c.inbox.maxsize
  pub bounded : length c.inbox.items ≤ c.inbox.maxsize
  pub woken : c.inbox.available ≡ (c.inbox.closed || not (is_empty c.inbox.items))
  pub emptied : c.inbox.closed ≡ true → length c.inbox.items ≡ 0
  pub newest : (kind : Text) → is_coalesced kind ≡ true → count_kind kind c.inbox.items ≤ 1
  pub accounted :
      c.inbox.offered
      ≡ length c.delivered
        + c.inbox.dropped
        + c.inbox.coalesced
        + c.discarded
        + length c.inbox.items

choose-IsValid :
    (b : Bool) (c : Scene) (x y : Inbox)
    → (b ≡ true → IsValid (record c { inbox = x }))
    → (b ≡ false → IsValid (record c { inbox = y }))
    → IsValid (record c { inbox = if b then x else y })
choose-IsValid true c x y h g = h refl
choose-IsValid false c x y h g = g refl

-- What `offer` makes of the items of an open inbox.
module _ (e : RealtimeEvent) (c : Scene) (v : IsValid c) where
  abbrev left : List RealtimeEvent
  left = (coalesce e.event c.inbox.items).0

  abbrev kept : List RealtimeEvent
  kept = (make_room c.inbox.maxsize left).0

  left-Coalesced : Coalesced e.event c.inbox.items left (coalesce e.event c.inbox.items).1
  left-Coalesced = coalesce-Coalesced e.event c.inbox.items

  kept-Roomy : Roomy c.inbox.maxsize left kept (make_room c.inbox.maxsize left).1
  kept-Roomy =
      make_room-Roomy c.inbox.maxsize left v.room (omega (arith, left-Coalesced.total, v.bounded))

  offered-newest : (k : Text) → is_coalesced k ≡ true → count_kind k (kept ++ (e ∷ [])) ≤ 1
  unfolding count_kind
  offered-newest k h = elim (Bool-cases (e.event ≟ k)) [
    | inl same ↦
        let is = (≟_iff e.event k).0 same in
        let gone = left-Coalesced.none_left (rw is h) (v.newest e.event (rw is h)) in
        let gone' = kept-Roomy.fewer e.event in
        ground (arith, gone, gone', is, count_kind-append k kept (e ∷ []))
    | inr other ↦ ground (
      arith,
      other,
      v.newest k h,
      left-Coalesced.fewer k,
      kept-Roomy.fewer k,
      count_kind-append k kept (e ∷ []),
    )
  ]

  offer-IsValid : IsValid (act (offering e) c)
  unfolding act offer
  offer-IsValid =
      choose-IsValid c.inbox.closed c c.inbox _ (λ shut. v)
        (λ on. record {
          room = v.room;
          bounded = omega (arith, length-append kept (e ∷ []), kept-Roomy.space);
          woken = rw on (ground (arith, on, length-append kept (e ∷ [])));
          emptied = λ no. absurd cc;
          newest = offered-newest;
          accounted = omega (
            arith,
            length-append kept (e ∷ []),
            kept-Roomy.total,
            left-Coalesced.total,
            v.accounted,
          );
        })

-- What a delivery does, whichever method makes it.
deliver-IsValid :
    (c : Scene) (x : RealtimeEvent) (rest : List RealtimeEvent)
    → IsValid c
    → c.inbox.items ≡ x ∷ rest
    → IsValid (record c {
      inbox = record (c.inbox) {
        items = rest;
        available = if is_empty rest then false else c.inbox.available;
      };
      delivered = x ∷ c.delivered;
    })
unfolding count_kind
deliver-IsValid c x rest v h =
    let counted = rw h at v.accounted in
    let shut = rw h at v.emptied in
    let newest = rw h at v.newest in
    let woken = rw h at v.woken in
    record {
      room = v.room;
      bounded = ground (arith, rw h at v.bounded);
      woken = ground (arith, shut, woken);
      emptied = λ no. ground (arith, shut no);
      newest = λ k i. omega (arith, newest k i);
      accounted = omega (arith, counted);
    }

nothing-IsValid :
    (b : Bool) (c : Scene)
    → c.inbox.closed ≡ b
    → c.inbox.items ≡ []
    → IsValid c
    → IsValid (after_get (nothing_there b, c.inbox) c)
      × IsValid (after_get (or_wait (nothing_there b, c.inbox)) c)
unfolding or_wait
nothing-IsValid true c h e v = (v, v)
nothing-IsValid false c h e v = (
  v,
  record {
    room = v.room;
    bounded = v.bounded;
    woken = ground (arith, h, e);
    emptied = v.emptied;
    newest = v.newest;
    accounted = v.accounted;
  },
)

get_from-IsValid :
    (items : List RealtimeEvent) (c : Scene)
    → c.inbox.items ≡ items
    → IsValid c
    → IsValid (after_get (get_from items c.inbox) c)
      × IsValid (after_get (or_wait (get_from items c.inbox)) c)
unfolding get_from or_wait
get_from-IsValid [] c h v = nothing-IsValid c.inbox.closed c refl h v
get_from-IsValid (x ∷ rest) c h v = (deliver-IsValid c x rest v h, deliver-IsValid c x rest v h)

close-IsValid : (c : Scene) → IsValid c → IsValid (act closing c)
unfolding act close count_kind
close-IsValid c v = record {
  room = v.room;
  bounded = omega arith;
  woken = refl;
  emptied = λ h. refl;
  newest = λ k h. omega arith;
  accounted = omega (arith, v.accounted);
}

act-IsValid : (a : Action) (c : Scene) → IsValid c → IsValid (act a c)
unfolding act get_nowait get_turn
act-IsValid (offering e) c v = offer-IsValid e c v
act-IsValid getting c v = (get_from-IsValid c.inbox.items c refl v).1
act-IsValid polling c v = (get_from-IsValid c.inbox.items c refl v).0
act-IsValid closing c v = close-IsValid c v

act_all_keeps : (actions : List Action) (c : Scene) → IsValid c → IsValid (act_all actions c)
unfolding act_all
act_all_keeps [] c v = v
act_all_keeps (a ∷ actions) c v = act_all_keeps actions (act a c) (act-IsValid a c v)

abbrev pub opened : ℕ → Scene
opened maxsize = record { inbox = new_inbox maxsize; delivered = []; discarded = 0 }

-- Whatever events are offered, got and polled for, and whenever the inbox is closed: it never holds
-- more than its maximum, which is at least 1, nor two events of a kind that coalesces; the event
-- that its consumer waits on is set exactly where there is an item or the inbox is closed; a closed
-- inbox is empty; and every event that was offered while it was open was delivered, dropped,
-- replaced, thrown out by the close, or is there.
pub act_all-IsValid :
    (maxsize : ℕ) (actions : List Action) → IsValid (act_all actions (opened maxsize))
unfolding new_inbox count_kind
act_all-IsValid maxsize actions = act_all_keeps actions (opened maxsize) (record {
  room = omega arith;
  bounded = omega arith;
  woken = refl;
  emptied = λ h. refl;
  newest = λ k h. omega arith;
  accounted = omega arith;
})
