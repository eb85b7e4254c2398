-- ===== src/Realtime/Hub/Handing.antt =====
-- An event that is handed to several subscriptions, and several events to one.
use relaytv.Prelude.{nat_eq}
use relaytv.Prelude.Dict
use relaytv.Prelude.{
  ℕ, ◌≡◌, refl, sym, subst, true, false, Bool, some, List, [], ◌∷◌, ◌++◌, arith, ◌≟◌, ≟_iff,
  if◌then◌else◌, codes_eq, Text, Bool-cases, inl, inr,
}
use mathlib.Core.List.{append-nil}
use relaytv.Realtime.Inbox.{RealtimeEvent}
use relaytv.Realtime.Hub.{replay, schedule, schedule_each, targets, is_on, Hub, Subscription, Loops}
use relaytv.Realtime.Hub.Change.{Goes, Changes, Changes-self, Changes-then, only}
use relaytv.Realtime.Hub.Step.{schedule-Changes}

pub Changes-same :
    (m n : ℕ → List RealtimeEvent) (a b : Hub)
    → ((id : ℕ) → m id ≡ n id)
    → Changes m a b
    → Changes n a b
Changes-same m n a b e g = record {
  sequences = g.sequences;
  snapshots = g.snapshots;
  each = λ j t h.
      let (s, found, goes) = g.each j t h in (s, found, subst (λ es. Goes es s t) (e j) goes);
  once = g.once;
}

only_then :
    (id : ℕ) (xs ys : List RealtimeEvent) (j : ℕ)
    → only id xs j ++ only id ys j ≡ only id (xs ++ ys) j
only_then id xs ys j = elim (Bool-cases (id ≟ j)) [ inl h ↦ rw h refl | inr h ↦ rw h refl ]

pub replay-Changes :
    (loops : Loops) (es : List RealtimeEvent) (id : ℕ) (hub : Hub)
    → Changes (only id es) hub (replay loops es id hub)
unfolding replay
replay-Changes loops [] id hub = Changes-self _ hub
replay-Changes loops (e ∷ es) id hub =
    Changes-same _ (only id (e ∷ es)) hub _ (only_then id (e ∷ []) es) (
      Changes-then (only id (e ∷ [])) (only id es) hub _ _ (schedule-Changes loops e id hub)
        (replay-Changes loops es id (schedule loops e id hub).1))

-- One copy of an event for each place that an id has among the targets.
unfoldable pub copies : List ℕ → RealtimeEvent → ℕ → List RealtimeEvent
copies [] e j = []
copies (id ∷ ids) e j = only id (e ∷ []) j ++ copies ids e j

pub schedule_each-Changes :
    (loops : Loops) (e : RealtimeEvent) (ids : List ℕ) (hub : Hub)
    → Changes (copies ids e) hub (schedule_each loops e ids hub).1
unfolding schedule_each copies
schedule_each-Changes loops e [] hub = Changes-self _ hub
schedule_each-Changes loops e (id ∷ ids) hub =
    Changes-then (only id (e ∷ [])) (copies ids e) hub _ _ (schedule-Changes loops e id hub)
      (schedule_each-Changes loops e ids (schedule loops e id hub).1)

copies-targets-none :
    (name : Text) (m : Dict.Dict ℕ Subscription) (e : RealtimeEvent) (j : ℕ)
    → Dict.has_key m j ≡ false
    → copies (targets name m) e j ≡ []
unfolding copies targets Dict.has_key
copies-targets-none name [] e j h = refl
copies-targets-none name ((id, s) ∷ m) e j h =
    ground (arith, ≟_iff id j, copies-targets-none name m e j)

copies_head :
    (b : Bool) (id : ℕ) (ids : List ℕ) (e : RealtimeEvent) (j : ℕ)
    → copies (if b then id ∷ ids else ids) e j
      ≡ (if b then only id (e ∷ []) j else []) ++ copies ids e j
unfolding copies
copies_head true id ids e j = refl
copies_head false id ids e j = refl

either_same : (b : Bool) (xs : List RealtimeEvent) → (if b then xs else xs) ≡ xs
either_same true xs = refl
either_same false xs = refl

pub copies-targets :
    (name : Text) (m : Dict.Dict ℕ Subscription) (e : RealtimeEvent) (j : ℕ) (s : Subscription)
    → Dict.KeysOnce m
    → Dict.get m j ≡ some s
    → copies (targets name m) e j ≡ (if is_on name s then e ∷ [] else [])
unfolding targets Dict.get
copies-targets name [] e j s o h = absurd cc
copies-targets name ((id, x) ∷ m) e j s o h = elim (Bool-cases (id ≟ j)) [
  | inl same ↦
      let here : x ≡ s = (let h' = rw same at h in cc) in
      let absent : Dict.has_key m j ≡ false = rw (sym ((≟_iff id j).0 same)) o.0 in
      rw
        (
          copies_head (is_on name x) id (targets name m) e j,
          same,
          copies-targets-none name m e j absent,
          here,
        )
        (append-nil (if is_on name s then e ∷ [] else []))
  | inr other ↦
      rw (copies_head (is_on name x) id (targets name m) e j, other, either_same (is_on name x) [])
        (copies-targets name m e j s o.1 (rw other at h))
]
