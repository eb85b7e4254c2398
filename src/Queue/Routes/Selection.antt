-- ===== src/Queue/Routes/Selection.antt =====
-- A request that names an id takes the entry with that id, or nothing.
use relaytv.Prelude.{
  ℕ, zero, suc, ◌≡◌, ◌⊎◌, refl, true, false, Option, none, some, List, [], ◌∷◌, arith, Text, codes,
  ≟_iff, ≟_refl, codes_eq, Option-cases, inl, inr, is_empty,
}
use relaytv.Prelude.Http.{reply, failed}
use relaytv.Queue.Item.{Entry, id_of}
use relaytv.Queue.Ids.Unique.{count_id}
use relaytv.Queue.Store.{Store, advance, insert_at, pop_at}
use relaytv.Queue.Store.Invariant.{IsValid, settle_self, insert_at-pop_at, count_id-pop_at}
use relaytv.Queue.Routes.{
  Selector, pop_selected, queue_index, position_of, by_id, has_id, wanted_id, queue_changed,
  queue_remove,
}

position_of-none : (t : Text) (q : List Entry) → position_of t q ≡ none → count_id t q ≡ 0
unfolding position_of count_id
position_of-none t [] h = refl
position_of-none t (e ∷ q) h = ground (arith, position_of-none t q)

has_id-some : (t : Text) (o : Option Text) → has_id t o ≡ true → o ≡ some t
has_id-some t none h = cc
has_id-some t (some id) h = ground (arith, ≟_iff id t)

-- The entry at the position has the id.
pub position_of-some :
    (t : Text) (q : List Entry) (i : ℕ)
    → position_of t q ≡ some i
    → (e : Entry) × (rest : List Entry) × (pop_at i q ≡ some (e, rest)) × (id_of e ≡ some t)
unfolding position_of pop_at
position_of-some t [] i h = cc
position_of-some t (e ∷ q) zero h = (e, q, refl, has_id-some t (id_of e) (ground arith))
position_of-some t (e ∷ q) (suc i) h =
    let (x, rest, p, k) = position_of-some t q i (ground arith) in (x, e ∷ rest, rw p, k)

-- What `queue_remove` does with an id: an entry that has it leaves the queue, and no other has it;
-- or none has it, and the answer is 409.
pub record Removes (uuid : ℕ → Text) (req : Selector) (t : Text) (s : Store) : Type 0 where
  pub place : ℕ
  pub item : Entry
  pub rest : List Entry
  pub item_id : id_of item ≡ some t
  pub others_stay : s.queue ≡ insert_at place item rest
  pub gone : count_id t rest ≡ 0
  pub answer :
      queue_remove uuid req s ≡ (reply (item, rest), advance true (record s { queue = rest }))

pub queue_index-id :
    (req : Selector) (label : Text) (q : List Entry)
    → is_empty (wanted_id req.queue_id) ≡ false
    → queue_index req label q ≡ by_id (position_of (wanted_id req.queue_id) q)
unfolding queue_index
queue_index-id req label q w = rw w

count_id-one : (t : Text) (e : Entry) → id_of e ≡ some t → count_id t (e ∷ []) ≡ 1
unfolding count_id
count_id-one t e k = rw (k, ≟_refl t) (omega arith)

module _ (uuid : ℕ → Text) (req : Selector) (s : Store) (v : IsValid uuid s)
    (w : is_empty (wanted_id req.queue_id) ≡ false) where
  removes :
      (i : ℕ)
      → position_of (wanted_id req.queue_id) s.queue ≡ some i
      → Removes uuid req (wanted_id req.queue_id) s
  unfolding queue_remove pop_selected advance
  removes i h =
      let t = wanted_id req.queue_id in
      let (e, rest, p, k) = position_of-some t s.queue i h in
      record {
        place = i;
        item = e;
        rest = rest;
        item_id = k;
        others_stay = (insert_at-pop_at i s.queue p).0;
        gone = omega (arith, v.ids.once t, count_id-pop_at t i s.queue p, count_id-one t e k);
        answer =
            rw (settle_self s v, queue_remove)
              (rw (queue_index-id req (codes "index") s.queue w, pop_selected) (rw h (rw p)));
      }

  -- Where the ids of the queue are well formed and the request gives an id, `queue_remove` takes
  -- the one entry that has it, whatever has become of its position; all other entries stay, in
  -- their order. Where no entry has the id the answer is 409, and the queue and its revision do
  -- not change.
  pub queue_remove-by_id :
      Removes uuid req (wanted_id req.queue_id) s
      ⊎ ((count_id (wanted_id req.queue_id) s.queue ≡ 0)
          × (queue_remove uuid req s ≡ (failed 409 queue_changed, s)))
  unfolding queue_remove pop_selected advance
  queue_remove-by_id = elim (Option-cases (position_of (wanted_id req.queue_id) s.queue)) [
    | inr (i, h) ↦ inl (removes i h)
    | inl h ↦ inr (
      position_of-none (wanted_id req.queue_id) s.queue h,
      rw (settle_self s v, queue_remove)
          (rw (queue_index-id req (codes "index") s.queue w, pop_selected) (rw h)),
    )
  ]
