-- ===== src/Realtime/Hub/Ordered.antt =====
-- Streams that rise up to the last sequence of their channel, and what keeps them so.
use relaytv.Realtime.Hub.Sequence.{Upto-join}
use relaytv.Realtime.Hub.Snapshots.{Stored-put}
use relaytv.Prelude.{arith}
use relaytv.Realtime.Hub.{or_nothing}
use relaytv.Prelude.{≟_refl}
use relaytv.Prelude.{≟_iff}
use relaytv.Prelude.{true, false, refl}
use relaytv.Prelude.{◌≤◌}
use relaytv.Prelude.{◌≟◌}
use relaytv.Realtime.Hub.{is_on}
use relaytv.Prelude.{Bool-cases}
use relaytv.Realtime.Hub.Handing.{copies-targets}
use relaytv.Realtime.Hub.Handing.{schedule_each-Changes}
use relaytv.Realtime.Hub.Handing.{copies}
use relaytv.Prelude.{if◌then◌else◌}
use relaytv.Realtime.Hub.{targets}
use relaytv.Prelude.{sym}
use relaytv.Realtime.Hub.{schedule_each}
use relaytv.Realtime.Hub.Snapshots.{Stored-widen}
use relaytv.Realtime.Hub.{count_publication}
use relaytv.Realtime.Hub.Sequence.{Upto-widen}
use relaytv.Prelude.{suc}
use relaytv.Prelude.{◌⊎◌}
use relaytv.Prelude.{nat_eq}
use relaytv.Prelude.Dict
use relaytv.Prelude.{
  ℕ, ◌≡◌, Bool, some, List, [], ◌∷◌, ◌++◌, codes_eq, Text, Option-cases, inl, inr,
}
use mathlib.Core.List.{append-nil}
use relaytv.Realtime.Inbox.{RealtimeEvent}
use relaytv.Realtime.Hub.{Hub, Subscription, Loops, current_sequence, snapshots_of, update}
use relaytv.Realtime.Hub.Sequence.{Upto}
use relaytv.Realtime.Hub.Change.{Goes, Changes, stream, no_more, Changes-put}
use relaytv.Realtime.Hub.Step.{Changes-less}
use relaytv.Realtime.Hub.Snapshots.{Stored}

-- The stream of every subscription, with `more`, rises up to the last sequence of its channel.
abbrev pub Rising : (ℕ → List RealtimeEvent) → Hub → Type 0
Rising more hub =
    (id : ℕ) (s : Subscription)
    → Dict.get hub.subscriptions id ≡ some s
    → Upto 0 (stream s ++ more id) (current_sequence s.channel hub)

abbrev pub IsStored : Hub → Type 0
IsStored hub = (c : Text) → Stored (current_sequence c hub) (snapshots_of c hub)

pub record IsOrdered (hub : Hub) : Type 0 where
  pub streams :
      (id : ℕ) (s : Subscription)
      → Dict.get hub.subscriptions id ≡ some s
      → Upto 0 (stream s) (current_sequence s.channel hub)
  pub snapshots : IsStored hub
  pub once : Dict.KeysOnce hub.subscriptions

Stored-either :
    (n : ℕ) (m m' : Dict.Dict Text RealtimeEvent) → (m' ≡ m) ⊎ (m' ≡ []) → Stored n m → Stored n m'
Stored-either n m m' h s = elim h [ inl e ↦ rw e s | inr e ↦ rw e tt ]

pub Changes-IsOrdered :
    (more : ℕ → List RealtimeEvent) (a b : Hub)
    → Changes more a b
    → Rising more a
    → IsStored a
    → Dict.KeysOnce a.subscriptions
    → IsOrdered b
unfolding current_sequence snapshots_of stream
Changes-IsOrdered more a b g r kept once = record {
  streams = λ id t h.
      let (s, found, goes) = g.each id t h in
      rw (g.sequences, goes.channel) (goes.kept 0 _ (r id s found));
  snapshots = λ c. rw g.sequences (Stored-either _ _ _ (g.snapshots c) (kept c));
  once = g.once once;
}

pub quiet-IsOrdered : (a b : Hub) → Changes no_more a b → IsOrdered a → IsOrdered b
quiet-IsOrdered a b g v =
    Changes-IsOrdered no_more a b g (λ id s h. rw (append-nil (stream s)) (v.streams id s h))
      v.snapshots v.once

pub update-IsOrdered :
    (f : Subscription → Subscription) (id : ℕ) (hub : Hub)
    → ((s : Subscription) → Goes [] s (f s))
    → IsOrdered hub
    → IsOrdered (update f id hub)
unfolding update
update-IsOrdered f id hub goes v = elim (Option-cases (Dict.get hub.subscriptions id)) [
  | inl h ↦ rw (h, update) v
  | inr (s, h) ↦
      rw (h, update)
        (quiet-IsOrdered hub _
          (Changes-less no_more id hub _ (Changes-put hub id [] s (f s) h (goes s))) v)
]

-- What a publication looks like before the message is handed on: the sequence of its channel grew
-- by one, and the message may be a snapshot.
pub record Counted (name : Text) (hub kept : Hub) : Type 0 where
  pub same : kept.subscriptions ≡ hub.subscriptions
  pub grown :
      (c : Text)
      → current_sequence c kept
        ≡ (if name ≟ c then suc (current_sequence name hub) else current_sequence c hub)
  pub stored : IsStored kept

grown_counted :
    (name c : Text) (hub : Hub)
    → current_sequence c (count_publication name hub)
      ≡ (if name ≟ c then suc (current_sequence name hub) else current_sequence c hub)
unfolding current_sequence
grown_counted name c hub =
    rw (Dict.get-put hub.sequences name c (suc (current_sequence name hub)))
      (elim (Bool-cases (name ≟ c)) [ inl h ↦ rw h refl | inr h ↦ rw h refl ])

grown_le :
    (name c : Text) (hub : Hub) (n : ℕ)
    → n ≡ (if name ≟ c then suc (current_sequence name hub) else current_sequence c hub)
    → current_sequence c hub ≤ n
grown_le name c hub n h = elim (Bool-cases (name ≟ c)) [
  | inl same ↦
      let is = (≟_iff name c).0 same in
      let grown = rw same at h in
      let here : current_sequence c hub ≡ current_sequence name hub = rw is refl in omega arith
  | inr other ↦ let grown = rw other at h in omega arith
]

pub Counted-Counted :
    (name : Text) (hub : Hub) → IsOrdered hub → Counted name hub (count_publication name hub)
unfolding snapshots_of
Counted-Counted name hub v = record {
  same = refl;
  grown = λ c. grown_counted name c hub;
  stored = λ c.
      Stored-widen (current_sequence c hub) _ (snapshots_of c hub)
        (grown_le name c hub _ (grown_counted name c hub)) (v.snapshots c);
}

snapshot-Stored :
    (b : Bool) (name c : Text) (e : RealtimeEvent) (hub : Hub) (n : ℕ)
    → IsOrdered hub
    → e.sequence ≡ suc (current_sequence name hub)
    → n ≡ (if b then suc (current_sequence name hub) else current_sequence c hub)
    → Stored n (
        or_nothing (
          if b
          then some (Dict.put (snapshots_of name hub) e.event e)
          else Dict.get hub.latest_snapshots c))
unfolding snapshots_of
snapshot-Stored true name c e hub n v h g =
    rw g (
      Stored-put (current_sequence name hub) e e.event (snapshots_of name hub) (v.snapshots name) h)
snapshot-Stored false name c e hub n v h g = rw g (v.snapshots c)

pub snapshot-Counted :
    (b : Bool) (name : Text) (e : RealtimeEvent) (hub : Hub)
    → IsOrdered hub
    → e.sequence ≡ suc (current_sequence name hub)
    → Counted name hub (
        if b
        then record (count_publication name hub) {
          latest_snapshots =
              Dict.put hub.latest_snapshots name
                (Dict.put (snapshots_of name (count_publication name hub)) e.event e);
        }
        else count_publication name hub)
unfolding snapshots_of current_sequence
snapshot-Counted true name e hub v h = record {
  same = refl;
  grown = λ c. grown_counted name c hub;
  stored = λ c.
      rw
        (Dict.get-put hub.latest_snapshots name c
          (Dict.put (snapshots_of name (count_publication name hub)) e.event e))
        (snapshot-Stored (name ≟ c) name c e hub _ v h (grown_counted name c hub));
}
snapshot-Counted false name e hub v h = Counted-Counted name hub v

pub Counted-IsOrdered :
    (name : Text) (hub kept : Hub) → Counted name hub kept → IsOrdered hub → IsOrdered kept
Counted-IsOrdered name hub kept k v = record {
  streams = λ id s h.
      Upto-widen 0 _ _ (stream s) (v.streams id s (rw (sym k.same) h))
        (grown_le name s.channel hub _ (k.grown s.channel));
  snapshots = k.stored;
  once = rw k.same v.once;
}

rising_one :
    (b : Bool) (name : Text) (e : RealtimeEvent) (hub kept : Hub) (s : Subscription)
    → Counted name hub kept
    → e.sequence ≡ suc (current_sequence name hub)
    → Upto 0 (stream s) (current_sequence s.channel hub)
    → (b ≡ true → s.channel ≡ name)
    → Upto 0 (stream s ++ (if b then e ∷ [] else [])) (current_sequence s.channel kept)
rising_one true name e hub kept s k h u c =
    let is = c refl in
    let grown = rw (is, ≟_refl name) at (k.grown s.channel) in
    Upto-join 0 (current_sequence s.channel hub) _ (stream s) (e ∷ []) u
      (rw is (omega arith, omega arith))
rising_one false name e hub kept s k h u c =
    rw (append-nil (stream s))
      (Upto-widen 0 _ _ (stream s) u (grown_le name s.channel hub _ (k.grown s.channel)))

pub handed-IsOrdered :
    (loops : Loops) (name : Text) (e : RealtimeEvent) (hub kept : Hub)
    → Counted name hub kept
    → e.sequence ≡ suc (current_sequence name hub)
    → IsOrdered hub
    → IsOrdered (schedule_each loops e (targets name kept.subscriptions) kept).1
handed-IsOrdered loops name e hub kept k h v =
    let once : Dict.KeysOnce kept.subscriptions = rw k.same v.once in
    Changes-IsOrdered (copies (targets name kept.subscriptions) e) kept _
      (schedule_each-Changes loops e (targets name kept.subscriptions) kept)
      (λ id s found. rw (copies-targets name kept.subscriptions e id s once found) (
        rising_one (is_on name s) name e hub kept s k h (v.streams id s (rw (sym k.same) found))
          (λ on. (≟_iff s.channel name).0 (ground (arith, on)))))
      k.stored once
