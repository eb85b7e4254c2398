-- ===== src/Realtime/Hub/Sequence.antt =====
-- Events in strictly ascending sequence, and what keeps them so.
use relaytv.Prelude.{
  ℕ, ◌≤◌, ◌<◌, Option, none, some, List, [], ◌∷◌, ◌++◌, arith, ◌≟◌, leb, length, codes_eq, Text,
  Bool-cases, Option-cases, inl, inr,
}
use relaytv.Realtime.Inbox.{RealtimeEvent, remove_last, coalesce, make_room, is_coalesced}

-- The sequences rise from above `lo` up to `hi` at most.
abbrev pub Upto : ℕ → List RealtimeEvent → ℕ → Type 0
Upto lo [] hi = lo ≤ hi
Upto lo (x ∷ xs) hi = (lo < x.sequence) × Upto x.sequence xs hi

pub Upto-widen :
    (lo mid hi : ℕ) (xs : List RealtimeEvent) → Upto lo xs mid → mid ≤ hi → Upto lo xs hi
Upto-widen lo mid hi [] u h = omega arith
Upto-widen lo mid hi (x ∷ xs) u h = (u.0, Upto-widen x.sequence mid hi xs u.1 h)

pub Upto-lower :
    (lo mid hi : ℕ) (xs : List RealtimeEvent) → lo ≤ mid → Upto mid xs hi → Upto lo xs hi
Upto-lower lo mid hi [] h u = omega arith
Upto-lower lo mid hi (x ∷ xs) h u = (omega (arith, u.0), u.1)

Upto-bounds : (lo hi : ℕ) (xs : List RealtimeEvent) → Upto lo xs hi → lo ≤ hi
Upto-bounds lo hi [] u = u
Upto-bounds lo hi (x ∷ xs) u = omega (arith, u.0, Upto-bounds x.sequence hi xs u.1)

pub Upto-join :
    (lo mid hi : ℕ) (xs ys : List RealtimeEvent)
    → Upto lo xs mid
    → Upto mid ys hi
    → Upto lo (xs ++ ys) hi
Upto-join lo mid hi [] ys u v = Upto-lower lo mid hi ys u v
Upto-join lo mid hi (x ∷ xs) ys u v = (u.0, Upto-join x.sequence mid hi xs ys u.1 v)

pub Upto-split :
    (lo hi : ℕ) (xs ys : List RealtimeEvent)
    → Upto lo (xs ++ ys) hi
    → (mid : ℕ) × Upto lo xs mid × Upto mid ys hi
Upto-split lo hi [] ys u = (lo, omega arith, u)
Upto-split lo hi (x ∷ xs) ys u =
    let (mid, first, last) = Upto-split x.sequence hi xs ys u.1 in (mid, (u.0, first), last)

-- Leaving events out of `ys` gives `xs`, as far as the sequences tell.
abbrev pub Kept : List RealtimeEvent → List RealtimeEvent → Type 0
Kept xs ys = (lo hi : ℕ) → Upto lo ys hi → Upto lo xs hi

pub Kept-append :
    (xs ys zs ws : List RealtimeEvent) → Kept xs ys → Kept zs ws → Kept (xs ++ zs) (ys ++ ws)
Kept-append xs ys zs ws h g lo hi u =
    let (mid, first, last) = Upto-split lo hi ys ws u in
    Upto-join lo mid hi xs zs (h lo mid first) (g mid hi last)

pub Kept_none : (xs : List RealtimeEvent) → Kept [] xs
Kept_none xs lo hi u = Upto-bounds lo hi xs u

pub Kept_front : (xs ys : List RealtimeEvent) → Kept xs (xs ++ ys)
Kept_front xs ys lo hi u =
    let (mid, first, last) = Upto-split lo hi xs ys u in
    Upto-widen lo mid hi xs first (Upto-bounds mid hi ys last)

abbrev KeptRest : List RealtimeEvent → Option (List RealtimeEvent) → Type 0
KeptRest xs none = Unit {0}
KeptRest xs (some rest) = Kept rest xs

remove_last-Kept : (kind : Text) (xs : List RealtimeEvent) → KeptRest xs (remove_last kind xs)
unfolding remove_last
remove_last-Kept kind [] = tt
remove_last-Kept kind (x ∷ xs) = elim (Option-cases (remove_last kind xs)) [
  | inr (rest, h) ↦
      let r = rw h at (remove_last-Kept kind xs) in rw h (λ lo hi u. (u.0, r x.sequence hi u.1))
  | inl h ↦ elim (Bool-cases (x.event ≟ kind)) [
    | inl same ↦
        rw (h, remove_last)
          (rw same (λ lo hi u. Upto-lower lo x.sequence hi xs (omega (arith, u.0)) u.1))
    | inr other ↦ rw (h, remove_last) (rw other tt)
  ]
]

pub coalesce-Kept : (kind : Text) (xs : List RealtimeEvent) → Kept (coalesce kind xs).0 xs
unfolding coalesce
coalesce-Kept kind xs = elim (Bool-cases (is_coalesced kind)) [
  | inr h ↦ rw (h, coalesce) (λ lo hi u. u)
  | inl h ↦ elim (Option-cases (remove_last kind xs)) [
    | inl e ↦ rw (h, coalesce) (rw e (λ lo hi u. u))
    | inr (rest, e) ↦ rw (h, coalesce) (rw e (rw e at (remove_last-Kept kind xs)))
  ]
]

pub make_room-Kept : (maxsize : ℕ) (xs : List RealtimeEvent) → Kept (make_room maxsize xs).0 xs
unfolding make_room
make_room-Kept maxsize [] = λ lo hi u. u
make_room-Kept maxsize (x ∷ xs) = elim (Bool-cases (leb maxsize (length (x ∷ xs)))) [
  | inl h ↦ rw (h, make_room) (λ lo hi u. Upto-lower lo x.sequence hi xs (omega (arith, u.0)) u.1)
  | inr h ↦ rw (h, make_room) (λ lo hi u. u)
]
