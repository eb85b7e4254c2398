-- ===== src/Realtime/Inbox/Room.antt =====
-- What `offer` takes out of the items: an older event of a kind, and the oldest where it is full.
use relaytv.Realtime.Inbox.{coalesce}
use relaytv.Realtime.Inbox.{make_room}
use relaytv.Prelude.{
  ℕ, suc, ◌+◌, ◌≤◌, ◌<◌, ◌≡◌, refl, true, Option, none, some, List, [], ◌∷◌, ◌++◌, arith, ◌≟◌,
  if◌then◌else◌, length, codes_eq, Text, ≟_iff, ≟_refl, Bool-cases, Option-cases, inl, inr,
}
use relaytv.Realtime.Inbox.{RealtimeEvent, is_coalesced, remove_last}

-- How many items are of a kind.
unfoldable pub count_kind : Text → List RealtimeEvent → ℕ
count_kind kind [] = 0
count_kind kind (x ∷ xs) = (if x.event ≟ kind then 1 else 0) + count_kind kind xs

pub count_kind-append :
    (kind : Text) (xs ys : List RealtimeEvent)
    → count_kind kind (xs ++ ys) ≡ count_kind kind xs + count_kind kind ys
unfolding count_kind
count_kind-append kind [] ys = omega arith
count_kind-append kind (x ∷ xs) ys = omega (arith, count_kind-append kind xs ys)

-- What removing the last item of a kind leaves.
abbrev pub Removed : Text → List RealtimeEvent → Option (List RealtimeEvent) → Type 0
Removed kind xs none = count_kind kind xs ≡ 0
Removed kind xs (some rest) =
    (length xs ≡ suc (length rest))
    × ((k : Text) → count_kind k xs ≡ (if kind ≟ k then 1 else 0) + count_kind k rest)

pub remove_last-Removed :
    (kind : Text) (xs : List RealtimeEvent) → Removed kind xs (remove_last kind xs)
unfolding remove_last count_kind
remove_last-Removed kind [] = refl
remove_last-Removed kind (x ∷ xs) = elim (Option-cases (remove_last kind xs)) [
  | inr (rest, h) ↦
      let r = rw h at (remove_last-Removed kind xs) in
      rw h (omega (arith, r.0), λ k. omega (arith, r.1 k))
  | inl h ↦
      let r = rw h at (remove_last-Removed kind xs) in
      elim (Bool-cases (x.event ≟ kind)) [
        | inl same ↦
            rw (h, remove_last) (rw same (refl, λ k. ground (arith, ≟_iff x.event kind, ≟_refl k)))
        | inr other ↦ rw (h, remove_last) (rw other (ground (arith, r)))
      ]
]

pub record Coalesced (kind : Text) (xs left : List RealtimeEvent) (taken : ℕ) : Type 0 where
  pub total : length xs ≡ length left + taken
  pub fewer : (k : Text) → count_kind k left ≤ count_kind k xs
  pub none_left : is_coalesced kind ≡ true → count_kind kind xs ≤ 1 → count_kind kind left ≡ 0

pub coalesce-Coalesced :
    (kind : Text) (xs : List RealtimeEvent)
    → Coalesced kind xs (coalesce kind xs).0 (coalesce kind xs).1
unfolding coalesce
coalesce-Coalesced kind xs = elim (Bool-cases (is_coalesced kind)) [
  | inr h ↦
      rw (h, coalesce)
        (record { total = omega arith; fewer = λ k. omega arith; none_left = λ c o. absurd cc })
  | inl h ↦ elim (Option-cases (remove_last kind xs)) [
    | inl e ↦
        let r = rw e at (remove_last-Removed kind xs) in
        rw (h, coalesce)
          (rw e (record { total = omega arith; fewer = λ k. omega arith; none_left = λ c o. r }))
    | inr (rest, e) ↦
        let r = rw e at (remove_last-Removed kind xs) in
        rw (h, coalesce)
          (rw e (record {
            total = omega (arith, r.0);
            fewer = λ k. omega (arith, r.1 k);
            none_left = λ c o. ground (arith, r.1 kind, ≟_refl kind);
          }))
  ]
]

pub record Roomy (maxsize : ℕ) (xs room : List RealtimeEvent) (dropped : ℕ) : Type 0 where
  pub total : length xs ≡ length room + dropped
  pub fewer : (k : Text) → count_kind k room ≤ count_kind k xs
  pub space : length room < maxsize

pub make_room-Roomy :
    (maxsize : ℕ) (xs : List RealtimeEvent)
    → 0 < maxsize
    → length xs ≤ maxsize
    → Roomy maxsize xs (make_room maxsize xs).0 (make_room maxsize xs).1
unfolding make_room count_kind
make_room-Roomy maxsize [] h b = record {
  total = omega arith;
  fewer = λ k. omega arith;
  space = omega arith;
}
make_room-Roomy maxsize (x ∷ xs) h b = record {
  total = ground arith;
  fewer = λ k. ground arith;
  space = ground arith;
}
