-- ===== src/Realtime/Hub/Snapshots.antt =====
-- The retained snapshots of a channel have distinct sequences, so sorting them gives strict order.
use relaytv.Prelude.{
  ℕ, suc, ◌≤◌, ◌<◌, ◌≡◌, ◌≢◌, List, [], ◌∷◌, arith, ◌≟◌, leb, codes_eq, Text, Bool-cases, inl, inr,
}
use relaytv.Prelude.Dict.{Dict, put}
use relaytv.Realtime.Inbox.{RealtimeEvent}
use relaytv.Realtime.Hub.{insert_event, in_sequence}
use relaytv.Realtime.Hub.Sequence.{Upto}

-- No snapshot has the sequence of an event.
abbrev pub Differs : RealtimeEvent → Dict Text RealtimeEvent → Type 0
Differs e [] = Unit {0}
Differs e ((k, x) ∷ m) = (e.sequence ≢ x.sequence) × Differs e m

-- Their sequences are distinct, and at most the last one of the channel.
abbrev pub Stored : ℕ → Dict Text RealtimeEvent → Type 0
Stored hi [] = Unit {0}
Stored hi ((k, e) ∷ m) = (0 < e.sequence) × (e.sequence ≤ hi) × Differs e m × Stored hi m

Stored-Differs :
    (hi : ℕ) (e : RealtimeEvent) (m : Dict Text RealtimeEvent)
    → Stored hi m
    → hi < e.sequence
    → Differs e m
Stored-Differs hi e [] s h = tt
Stored-Differs hi e ((k, x) ∷ m) s h = (λ same. omega (arith, s.1), Stored-Differs hi e m s.3 h)

Differs-put :
    (e x : RealtimeEvent) (k : Text) (m : Dict Text RealtimeEvent)
    → Differs e m
    → e.sequence ≢ x.sequence
    → Differs e (put m k x)
unfolding put
Differs-put e x k [] d n = (n, tt)
Differs-put e x k ((j, y) ∷ m) d n = ground (arith, Differs-put e x k m d.1 n, d, n)

pub Stored-widen : (lo hi : ℕ) (m : Dict Text RealtimeEvent) → lo ≤ hi → Stored lo m → Stored hi m
Stored-widen lo hi [] h s = tt
Stored-widen lo hi ((k, e) ∷ m) h s = (s.0, omega (arith, s.1), s.2, Stored-widen lo hi m h s.3)

pub Stored-put :
    (hi : ℕ) (e : RealtimeEvent) (k : Text) (m : Dict Text RealtimeEvent)
    → Stored hi m
    → e.sequence ≡ suc hi
    → Stored (suc hi) (put m k e)
unfolding put
Stored-put hi e k [] s h = (omega arith, omega arith, tt, tt)
Stored-put hi e k ((j, y) ∷ m) s h = elim (Bool-cases (j ≟ k)) [
  | inl same ↦
      rw (same, put)
        (
          omega arith,
          omega arith,
          Stored-Differs hi e m s.3 (omega arith),
          Stored-widen hi (suc hi) m (omega arith) s.3,
        )
  | inr other ↦
      rw (other, put)
        (
          s.0,
          omega (arith, s.1),
          Differs-put y e k m s.2 (λ x. omega (arith, s.1)),
          Stored-put hi e k m s.3 h,
        )
]

abbrev Apart : RealtimeEvent → List RealtimeEvent → Type 0
Apart e [] = Unit {0}
Apart e (x ∷ xs) = (e.sequence ≢ x.sequence) × Apart e xs

Apart-insert_event :
    (e x : RealtimeEvent) (xs : List RealtimeEvent)
    → e.sequence ≢ x.sequence
    → Apart e xs
    → Apart e (insert_event x xs)
unfolding insert_event
Apart-insert_event e x [] n a = (n, tt)
Apart-insert_event e x (y ∷ ys) n a = ground (arith, Apart-insert_event e x ys n a.1, a, n)

Apart-in_sequence :
    (e : RealtimeEvent) (m : Dict Text RealtimeEvent) → Differs e m → Apart e (in_sequence m)
unfolding in_sequence
Apart-in_sequence e [] d = tt
Apart-in_sequence e ((k, x) ∷ m) d =
    Apart-insert_event e x (in_sequence m) d.0 (Apart-in_sequence e m d.1)

insert_event-Upto :
    (lo hi : ℕ) (e : RealtimeEvent) (xs : List RealtimeEvent)
    → lo < e.sequence
    → e.sequence ≤ hi
    → Apart e xs
    → Upto lo xs hi
    → Upto lo (insert_event e xs) hi
unfolding insert_event
insert_event-Upto lo hi e [] above below a u = (above, below)
insert_event-Upto lo hi e (x ∷ xs) above below a u = elim (Bool-cases (leb e.sequence x.sequence)) [
  | inl h ↦ rw (h, insert_event) (above, (ground (arith, h, a.0), u.1))
  | inr h ↦
      rw (h, insert_event)
        (u.0, insert_event-Upto x.sequence hi e xs (ground (arith, h)) below a.1 u.1)
]

pub in_sequence-Upto :
    (hi : ℕ) (m : Dict Text RealtimeEvent) → Stored hi m → Upto 0 (in_sequence m) hi
unfolding in_sequence
in_sequence-Upto hi [] s = omega arith
in_sequence-Upto hi ((k, e) ∷ m) s =
    insert_event-Upto 0 hi e (in_sequence m) s.0 s.1 (Apart-in_sequence e m s.2)
      (in_sequence-Upto hi m s.3)
