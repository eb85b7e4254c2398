-- ===== src/Realtime/Hub/Change.antt =====
-- What an operation of the hub changes of each subscription, of the sequences and of the snapshots.
use relaytv.Realtime.Hub.Sequence.{Kept_none}
use relaytv.Realtime.Hub.{is_running}
use relaytv.Realtime.Hub.{Loops}
use relaytv.Realtime.Hub.{close}
use relaytv.Prelude.{≟_iff}
use relaytv.Prelude.{sym}
use relaytv.Realtime.Hub.{retire}
use relaytv.Prelude.{Bool}
use relaytv.Prelude.{◌⊎◌}
use relaytv.Realtime.Hub.{Hub, Subscription, Callback, offering, closing, snapshots_of}
use relaytv.Realtime.Hub.Sequence.{Kept, Kept_front, Kept-append}
use relaytv.Prelude.{nat_eq}
use relaytv.Prelude.Dict
use relaytv.Prelude.{
  ℕ, ◌≡◌, refl, true, false, Option, some, List, [], ◌∷◌, ◌++◌, ◌≟◌, if◌then◌else◌, codes_eq, Text,
  Bool-cases, inl, inr,
}
use mathlib.Core.List.{append_assoc, append-nil}
use relaytv.Realtime.Inbox.{RealtimeEvent}

-- The events that were handed to the event loop of a subscription.
unfoldable pub offered_in : List Callback → List RealtimeEvent
offered_in [] = []
offered_in (offering e ∷ rest) = e ∷ offered_in rest
offered_in (closing ∷ rest) = offered_in rest

pub offered_in-append :
    (xs ys : List Callback) → offered_in (xs ++ ys) ≡ offered_in xs ++ offered_in ys
unfolding offered_in
offered_in-append [] ys = refl
offered_in-append (offering e ∷ xs) ys = rw (offered_in-append xs ys)
offered_in-append (closing ∷ xs) ys = offered_in-append xs ys

-- Everything a consumer got, then what it has yet to get.
unfoldable pub stream : Subscription → List RealtimeEvent
unfolding offered_in
stream s = s.delivered ++ (s.inbox.items ++ offered_in s.pending)

-- A subscription with the same channel whose stream goes on with `more` at most.
pub record Goes (more : List RealtimeEvent) (s s' : Subscription) : Type 0 where
  pub channel : s'.channel ≡ s.channel
  pub kept : Kept (stream s') (stream s ++ more)

-- Each subscription of the second hub comes from one of the first.
pub record Changes (more : ℕ → List RealtimeEvent) (hub hub' : Hub) : Type 0 where
  pub sequences : hub'.sequences ≡ hub.sequences
  pub snapshots :
      (c : Text) → (snapshots_of c hub' ≡ snapshots_of c hub) ⊎ (snapshots_of c hub' ≡ [])
  pub each :
      (id : ℕ) (s' : Subscription)
      → Dict.get hub'.subscriptions id ≡ some s'
      → (s : Subscription) × (Dict.get hub.subscriptions id ≡ some s) × Goes (more id) s s'
  pub once : Dict.KeysOnce hub.subscriptions → Dict.KeysOnce hub'.subscriptions

abbrev pub no_more : ℕ → List RealtimeEvent
no_more id = []

pub Goes_less : (more : List RealtimeEvent) (s s' : Subscription) → Goes [] s s' → Goes more s s'
Goes_less more s s' g = record {
  channel = g.channel;
  kept = λ lo hi u. g.kept lo hi (rw (append-nil (stream s)) (Kept_front (stream s) more lo hi u));
}

pub Goes_self : (more : List RealtimeEvent) (s : Subscription) → Goes more s s
Goes_self more s = record { channel = refl; kept = Kept_front (stream s) more }

pub Goes_then :
    (m n : List RealtimeEvent) (s t r : Subscription) → Goes m s t → Goes n t r → Goes (m ++ n) s r
Goes_then m n s t r g h = record {
  channel = rw h.channel g.channel;
  kept = λ lo hi u. h.kept lo hi (
      Kept-append (stream t) (stream s ++ m) n n g.kept (λ l k v. v) lo hi
        (rw (append_assoc (stream s) m n) u));
}

pub Changes-self : (more : ℕ → List RealtimeEvent) (hub : Hub) → Changes more hub hub
Changes-self more hub = record {
  sequences = refl;
  snapshots = λ c. inl refl;
  each = λ id s h. (s, h, Goes_self (more id) s);
  once = λ o. o;
}

pub Changes-then :
    (m n : ℕ → List RealtimeEvent) (a b c : Hub)
    → Changes m a b
    → Changes n b c
    → Changes (λ id. m id ++ n id) a c
Changes-then m n a b c g h = record {
  sequences = rw h.sequences g.sequences;
  snapshots = λ k. elim (h.snapshots k) [ inl e ↦ rw e (g.snapshots k) | inr e ↦ inr e ];
  each = λ id r found.
      let (t, found', last) = h.each id r found in
      let (s, found'', first) = g.each id t found' in
      (s, found'', Goes_then (m id) (n id) s t r first last);
  once = λ o. h.once (g.once o);
}

abbrev pub only : ℕ → List RealtimeEvent → ℕ → List RealtimeEvent
only id es j = if id ≟ j then es else []

picked :
    (b : Bool) (o : Option Subscription) (es : List RealtimeEvent) (s s' t : Subscription)
    → (if b then some s' else o) ≡ some t
    → (b ≡ true → o ≡ some s)
    → Goes es s s'
    → (r : Subscription) × (o ≡ some r) × Goes (if b then es else []) r t
picked true o es s s' t h found g = let same : t ≡ s' = cc in (s, found refl, rw same g)
picked false o es s s' t h found g = (t, h, Goes_self [] t)

-- One subscription is replaced.
pub Changes-put :
    (hub : Hub) (id : ℕ) (es : List RealtimeEvent) (s s' : Subscription)
    → Dict.get hub.subscriptions id ≡ some s
    → Goes es s s'
    → Changes (only id es) hub (record hub { subscriptions = Dict.put hub.subscriptions id s' })
unfolding snapshots_of
Changes-put hub id es s s' found g = record {
  sequences = refl;
  snapshots = λ c. inl refl;
  each = λ j t h.
      picked (id ≟ j) (Dict.get hub.subscriptions j) es s s' t
        (rw (Dict.get-put hub.subscriptions id j s') at h)
        (λ same. rw (sym ((≟_iff id j).0 same)) found) g;
  once = λ o. Dict.KeysOnce-put hub.subscriptions id s' o;
}

offered_close : (xs : List Callback) → offered_in (xs ++ (closing ∷ [])) ≡ offered_in xs
unfolding offered_in
offered_close xs = rw (offered_in-append xs (closing ∷ [])) (append-nil (offered_in xs))

pub Goes_kept :
    (s s' : Subscription) → s'.channel ≡ s.channel → Kept (stream s') (stream s) → Goes [] s s'
Goes_kept s s' c k = record {
  channel = c;
  kept = λ lo hi u. k lo hi (rw (append-nil (stream s)) at u);
}

-- Fewer items in the inbox, with the same callbacks.
pub Goes_items :
    (s s' : Subscription)
    → s'.channel ≡ s.channel
    → s'.delivered ≡ s.delivered
    → offered_in s'.pending ≡ offered_in s.pending
    → Kept s'.inbox.items s.inbox.items
    → Goes [] s s'
unfolding stream
Goes_items s s' c d p k = Goes_kept s s' c (
    rw (d, p)
      (Kept-append s.delivered s.delivered (s'.inbox.items ++ offered_in s.pending)
        (s.inbox.items ++ offered_in s.pending) (λ lo hi u. u)
        (Kept-append s'.inbox.items s.inbox.items (offered_in s.pending) (offered_in s.pending) k
          (λ lo hi u. u))))

pub retire-Goes :
    (loops : Loops) (s : Subscription) → Goes [] s (record (retire loops s) { registered = false })
unfolding retire relaytv.Realtime.Inbox.close
retire-Goes loops s = elim (Bool-cases (is_running loops.running s.loop)) [
  | inl here ↦ rw (here, retire) (Goes_items s _ refl refl refl (Kept_none s.inbox.items))
  | inr away ↦ elim (Bool-cases (loops.is_open s.loop)) [
    | inl taken ↦
        rw (away, retire)
          (rw taken (Goes_items s _ refl refl (offered_close s.pending) (λ lo hi u. u)))
    | inr shut ↦ rw (away, retire) (rw shut (Goes_items s _ refl refl refl (λ lo hi u. u)))
  ]
]
