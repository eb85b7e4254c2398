-- ===== src/Queue/Routes/Moving.antt =====
-- A move takes one entry from its place to another.
use relaytv.Prelude.{
  ℕ, zero, suc, ◌+◌, ◌≤◌, ◌<◌, ◌≡◌, ◌⊎◌, refl, true, false, Option, none, some, List, [], ◌∷◌,
  arith, Text, codes, Option-cases, Bool-cases, inl, inr, length, is_empty,
}
use relaytv.Prelude.Http.{Http-cases, reply, failed}
use relaytv.Prelude.Int.{ℤ, pos, negsuc}
use relaytv.Queue.Item.{Entry}
use relaytv.Queue.Ids.Returning.{prepare_returning}
use relaytv.Queue.Store.{Store, advance, insert, insert_at, pop_at}
use relaytv.Queue.Store.Invariant.{IsValid, settle_self, count_id-pop_at, count_unnamed-pop_at}
use relaytv.Queue.Routes.{
  Selector, queue_index, position_of, by_id, by_index, wanted_id, queue_move,
}
use relaytv.Queue.Routes.Selection.{position_of-some}

pop_at-lt : (i : ℕ) (q : List Entry) {x : Entry × List Entry} → pop_at i q ≡ some x → i < length q
unfolding pop_at
pop_at-lt i [] h = cc
pop_at-lt zero (e ∷ q) h = omega arith
pop_at-lt (suc i) (e ∷ q) h = elim (Option-cases (pop_at i q)) [
  | inl p ↦ let nothing = rw p at h in cc
  | inr (x, p) ↦ omega (arith, pop_at-lt i q p)
]

length-pop_at :
    (i : ℕ) (q : List Entry) {e : Entry} {rest : List Entry}
    → pop_at i q ≡ some (e, rest)
    → length q ≡ suc (length rest)
unfolding pop_at
length-pop_at i [] h = cc
length-pop_at zero (e ∷ q) h = ground arith
length-pop_at (suc i) (x ∷ q) h = elim (Option-cases (pop_at i q)) [
  | inl p ↦ let nothing = rw p at h in cc
  | inr ((y, r), p) ↦ let same = rw p at h in ground (arith, length-pop_at i q p)
]

pop_at-total :
    (i : ℕ) (q : List Entry)
    → i < length q
    → (e : Entry) × (rest : List Entry) × (pop_at i q ≡ some (e, rest))
unfolding pop_at
pop_at-total i [] h = absurd (omega arith)
pop_at-total zero (e ∷ q) h = (e, q, refl)
pop_at-total (suc i) (e ∷ q) h =
    let (x, rest, p) = pop_at-total i q (omega arith) in (x, e ∷ rest, rw p)

-- What was inserted at a place inside the list, or at its end, is popped from there.
pop_at-insert_at :
    (i : ℕ) (e : Entry) (q : List Entry) → i ≤ length q → pop_at i (insert_at i e q) ≡ some (e, q)
unfolding pop_at
pop_at-insert_at zero e q h = refl
pop_at-insert_at (suc i) e [] h = absurd (omega arith)
pop_at-insert_at (suc i) e (x ∷ q) h = rw (pop_at-insert_at i e q (omega arith))

by_index-lt :
    (index : Option ℤ) (label : Text) (n : ℕ) {i : ℕ} → by_index index label n ≡ reply i → i < n
unfolding by_index
by_index-lt none label n h = cc
by_index-lt (some (negsuc k)) label n h = cc
by_index-lt (some (pos k)) label n h = ground arith

by_id-lt :
    (t : Text) (q : List Entry) (o : Option ℕ) {i : ℕ}
    → position_of t q ≡ o
    → by_id o ≡ reply i
    → i < length q
by_id-lt t q none p h = cc
by_id-lt t q (some k) {i} p h =
    let (e, rest, found, k_id) = position_of-some t q k p in
    let inside = pop_at-lt k q found in ground arith

-- An accepted selector names a place in the queue.
pub queue_index-lt :
    (req : Selector) (label : Text) (q : List Entry) {i : ℕ}
    → queue_index req label q ≡ reply i
    → i < length q
unfolding queue_index
queue_index-lt req label q h = elim (Bool-cases (is_empty (wanted_id req.queue_id))) [
  | inl w ↦ by_index-lt req.index label (length q) (rw (w, queue_index) at h)
  | inr w ↦ by_id-lt (wanted_id req.queue_id) q _ refl (rw (w, queue_index) at h)
]

-- A move that is made: an entry leaves one place and stands at another; the rest stay in order.
pub record Moves (uuid : ℕ → Text) (from_req to_req : Selector) (s : Store) : Type 0 where
  pub from : ℕ
  pub to : ℕ
  pub item : Entry
  pub rest : List Entry
  pub from_place : queue_index from_req (codes "from_index") s.queue ≡ reply from
  pub to_place : queue_index to_req (codes "to_index") s.queue ≡ reply to
  pub before : pop_at from s.queue ≡ some (item, rest)
  pub after : pop_at to (queue_move uuid from_req to_req s).1.queue ≡ some (item, rest)
  pub answer :
      (queue_move uuid from_req to_req s).0 ≡ reply (queue_move uuid from_req to_req s).1.queue
  pub twice : (queue_move uuid from_req to_req s).1.revision ≡ s.revision + 2

module _ (uuid : ℕ → Text) (from_req to_req : Selector) (s : Store) (v : IsValid uuid s) where
  -- The store after a move of the entry at `i` to `j`.
  moved_store : ℕ → Entry → List Entry → Store
  moved_store j e rest = insert uuid true j e (advance true (record s { queue = rest }))

  moved_queue :
      (i j : ℕ) {e : Entry} {rest : List Entry}
      → pop_at i s.queue ≡ some (e, rest)
      → (moved_store j e rest).queue ≡ insert_at j e rest
  unfolding moved_store insert advance
  moved_queue i j {e} {rest} p = rw (
      prepare_returning uuid s.drawn e rest
        (λ k. omega (arith, count_id-pop_at k i s.queue p, v.ids.once k))
        (omega (arith, count_unnamed-pop_at i s.queue p, v.ids.named)))

  move_answer :
      (i j : ℕ) {e : Entry} {rest : List Entry}
      → is_empty s.queue ≡ false
      → queue_index from_req (codes "from_index") s.queue ≡ reply i
      → queue_index to_req (codes "to_index") s.queue ≡ reply j
      → pop_at i s.queue ≡ some (e, rest)
      → queue_move uuid from_req to_req s
        ≡ (reply (moved_store j e rest).queue, moved_store j e rest)
  unfolding queue_move moved_store
  move_answer i j some_there f t p =
      rw (settle_self s v, queue_move) (rw some_there (rw (f, t) (rw p)))

  full : (i : ℕ) (q : List Entry) → i < length q → is_empty q ≡ false
  full i [] h = absurd (omega arith)
  full i (x ∷ q) h = refl

  moves :
      (i j : ℕ)
      → queue_index from_req (codes "from_index") s.queue ≡ reply i
      → queue_index to_req (codes "to_index") s.queue ≡ reply j
      → Moves uuid from_req to_req s
  moves i j f t =
      let inside = queue_index-lt from_req (codes "from_index") s.queue f in
      let (e, rest, p) = pop_at-total i s.queue inside in
      let answer = move_answer i j (full i s.queue inside) f t p in
      let placed = moved_queue i j p in
      record {
        from = i;
        to = j;
        item = e;
        rest = rest;
        from_place = f;
        to_place = t;
        before = p;
        after =
            rw (answer, placed)
              (pop_at-insert_at j e rest (
                omega (
                  arith,
                  queue_index-lt to_req (codes "to_index") s.queue t,
                  length-pop_at i s.queue p,
                )));
        answer = rw answer;
        twice = rw answer (unfold moved_store insert advance in omega arith);
      }

  refused_from :
      (status : ℕ) (detail : Text)
      → is_empty s.queue ≡ false
      → queue_index from_req (codes "from_index") s.queue ≡ failed status detail
      → queue_move uuid from_req to_req s ≡ (failed status detail, s)
  unfolding queue_move
  refused_from status detail some_there f = rw (settle_self s v, queue_move) (rw some_there (rw f))

  refused_to :
      (i status : ℕ) (detail : Text)
      → is_empty s.queue ≡ false
      → queue_index from_req (codes "from_index") s.queue ≡ reply i
      → queue_index to_req (codes "to_index") s.queue ≡ failed status detail
      → queue_move uuid from_req to_req s ≡ (failed status detail, s)
  unfolding queue_move
  refused_to i status detail some_there f t =
      rw (settle_self s v, queue_move) (rw some_there (rw (f, t)))

  -- A refusal: 400 for an empty queue, or the answer to the selector that names no entry.
  abbrev pub Refused : Type 0
  Refused =
      (status : ℕ) × (detail : Text) × (queue_move uuid from_req to_req s
        ≡ (failed status detail, s))

  refused_empty : is_empty s.queue ≡ true → Refused
  unfolding queue_move
  refused_empty e = (400, codes "queue is empty", rw (settle_self s v, queue_move) (rw e))

  -- Where the ids of the queue are well formed, `queue_move` takes one entry to the place that it
  -- names and leaves the others in order, or it refuses, and then the queue and its revision do
  -- not change.
  pub queue_move-Moves : Moves uuid from_req to_req s ⊎ Refused
  queue_move-Moves = elim (Bool-cases (is_empty s.queue)) [
    | inl e ↦ inr (refused_empty e)
    | inr e ↦ elim (Http-cases (queue_index from_req (codes "from_index") s.queue)) [
      | inr (status, detail, f) ↦ inr (status, detail, refused_from status detail e f)
      | inl (i, f) ↦ elim (Http-cases (queue_index to_req (codes "to_index") s.queue)) [
        | inr (status, detail, t) ↦ inr (status, detail, refused_to i status detail e f t)
        | inl (j, t) ↦ inl (moves i j f t)
      ]
    ]
  ]
