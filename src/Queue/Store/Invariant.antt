-- ===== src/Queue/Store/Invariant.antt =====
-- Every mutation of the queue keeps its ids well formed.
use relaytv.Queue.Ids.{prepare_from}
use relaytv.Queue.Ids.{ensure}
use relaytv.Queue.Ids.{seen_ids}
use relaytv.Prelude.{
  ℕ, zero, suc, ◌+◌, ◌≡◌, refl, Bool, some, List, [], ◌∷◌, ◌++◌, arith, Text, length, ap, ◌∙◌, ◌≤◌,
  subst, sym, Option-cases, inl, inr,
}
use relaytv.Queue.Item.{Entry}
use relaytv.Queue.Ids.{Prepared, prepare}
use relaytv.Queue.Ids.Unique.{max_draws}
use relaytv.Queue.Ids.Unique.{
  count_id, count_unnamed, count_id-append, count_unnamed-append, WellFormed, IsUuid, Unused,
  IsPrepared, prepare-IsPrepared,
}
use relaytv.Queue.Ids.Stable.{ensure_self}
use relaytv.Queue.Store.{
  Store, advance, set_item, replace_all, insert_front, extend, insert, splice, insert_at, clear,
  pop_at, settle,
}

-- Between mutations: ids are well formed, and none is one that is drawn later.
pub record IsValid (uuid : ℕ → Text) (s : Store) : Type 0 where
  pub ids : WellFormed s.queue
  pub unused : Unused uuid s.drawn s.queue

-- An insertion counts the entry once more, wherever it goes.
count_id-insert_at :
    (t : Text) (i : ℕ) (e : Entry) (q : List Entry)
    → count_id t (insert_at i e q) ≡ count_id t (e ∷ []) + count_id t q
unfolding count_id
count_id-insert_at t zero e q = omega arith
count_id-insert_at t (suc i) e [] = omega arith
count_id-insert_at t (suc i) e (x ∷ q) = omega (arith, count_id-insert_at t i e q)

count_unnamed-insert_at :
    (i : ℕ) (e : Entry) (q : List Entry)
    → count_unnamed (insert_at i e q) ≡ count_unnamed (e ∷ []) + count_unnamed q
unfolding count_unnamed
count_unnamed-insert_at zero e q = omega arith
count_unnamed-insert_at (suc i) e [] = omega arith
count_unnamed-insert_at (suc i) e (x ∷ q) = omega (arith, count_unnamed-insert_at i e q)

-- To put a popped entry back where it stood gives the queue as it was.
pub insert_at-pop_at :
    (i : ℕ) (q : List Entry) {e : Entry} {rest : List Entry}
    → pop_at i q ≡ some (e, rest)
    → (q ≡ insert_at i e rest) × (i ≤ length rest)
unfolding pop_at
insert_at-pop_at i [] h = cc
insert_at-pop_at zero (x ∷ q) h = ground arith
insert_at-pop_at (suc i) (x ∷ q) h = elim (Option-cases (pop_at i q)) [
  | inl p ↦ let no_entry = rw p at h in cc
  | inr ((y, r), p) ↦
      let back = insert_at-pop_at i q p in let same = rw p at h in ground (arith, back.0, back.1)
]

pub count_id-pop_at :
    (t : Text) (i : ℕ) (q : List Entry) {e : Entry} {rest : List Entry}
    → pop_at i q ≡ some (e, rest)
    → count_id t q ≡ count_id t (e ∷ []) + count_id t rest
count_id-pop_at t i q {e} {rest} h =
    ap (count_id t) (insert_at-pop_at i q h).0 ∙ count_id-insert_at t i e rest

pub count_unnamed-pop_at :
    (i : ℕ) (q : List Entry) {e : Entry} {rest : List Entry}
    → pop_at i q ≡ some (e, rest)
    → count_unnamed q ≡ count_unnamed (e ∷ []) + count_unnamed rest
count_unnamed-pop_at i q {e} {rest} h =
    ap count_unnamed (insert_at-pop_at i q h).0 ∙ count_unnamed-insert_at i e rest

count_id-splice :
    (t : Text) (i : ℕ) (es q : List Entry)
    → count_id t (splice i es q) ≡ count_id t q + count_id t es
unfolding count_id
count_id-splice t zero es q = omega (arith, count_id-append t es q)
count_id-splice t (suc i) es [] = omega (arith, count_id-append t es [])
count_id-splice t (suc i) es (x ∷ q) = omega (arith, count_id-splice t i es q)

count_unnamed-splice :
    (i : ℕ) (es q : List Entry) → count_unnamed (splice i es q) ≡ count_unnamed q + count_unnamed es
unfolding count_unnamed
count_unnamed-splice zero es q = omega (arith, count_unnamed-append es q)
count_unnamed-splice (suc i) es [] = omega (arith, count_unnamed-append es [])
count_unnamed-splice (suc i) es (x ∷ q) = omega (arith, count_unnamed-splice i es q)

WellFormed-nil : WellFormed []
unfolding count_id count_unnamed
WellFormed-nil = record { once = λ t. omega arith; named = refl }

Unused-nil : (uuid : ℕ → Text) (n : ℕ) → Unused uuid n []
unfolding count_id
Unused-nil uuid n k h m = refl

module _ {uuid : ℕ → Text} (u : IsUuid uuid) (mine : Bool) where
  -- The queue after values were prepared and put among the entries, given by its counts.
  joined-IsValid :
      (s : Store) (p : Prepared) (q : List Entry)
      → IsPrepared u (λ t. count_id t s.queue) s.drawn p
      → IsValid uuid s
      → ((t : Text) → count_id t q ≡ count_id t s.queue + count_id t p.items)
      → count_unnamed q ≡ count_unnamed s.queue + count_unnamed p.items
      → IsValid uuid (advance mine (record s { queue = q; drawn = p.drawn }))
  unfolding advance
  joined-IsValid s p q h v ids unnamed = record {
    ids = record {
      once = λ t. omega (arith, ids t, h.once t);
      named = omega (arith, unnamed, h.named, v.ids.named);
    };
    unused =
        λ k b m. omega (arith, ids (uuid k), h.unused k b m, v.unused k (omega (arith, h.grows)) m);
  }

  pub extend-IsValid :
      (values : List Entry) (s : Store)
      → Unused uuid s.drawn values
      → IsValid uuid s
      → (extend uuid mine values s).drawn ≤ max_draws
      → IsValid uuid (extend uuid mine values s)
  unfolding extend
  extend-IsValid values s f v m =
      let p = prepare uuid s.drawn values s.queue in
      joined-IsValid s p (s.queue ++ p.items)
        (prepare-IsPrepared u s.drawn values s.queue v.ids v.unused f m) v
        (λ t. count_id-append t s.queue p.items) (count_unnamed-append s.queue p.items)

  pub insert_front-IsValid :
      (values : List Entry) (s : Store)
      → Unused uuid s.drawn values
      → IsValid uuid s
      → (insert_front uuid mine values s).drawn ≤ max_draws
      → IsValid uuid (insert_front uuid mine values s)
  unfolding insert_front
  insert_front-IsValid values s f v m =
      let p = prepare uuid s.drawn values s.queue in
      joined-IsValid s p (p.items ++ s.queue)
        (prepare-IsPrepared u s.drawn values s.queue v.ids v.unused f m) v
        (λ t. omega (arith, count_id-append t p.items s.queue))
        (omega (arith, count_unnamed-append p.items s.queue))

  pub insert-IsValid :
      (i : ℕ) (value : Entry) (s : Store)
      → Unused uuid s.drawn (value ∷ [])
      → IsValid uuid s
      → (insert uuid mine i value s).drawn ≤ max_draws
      → IsValid uuid (insert uuid mine i value s)
  unfolding insert
  insert-IsValid i value s f v m =
      let p = prepare uuid s.drawn (value ∷ []) s.queue in
      joined-IsValid s p (splice i p.items s.queue)
        (prepare-IsPrepared u s.drawn (value ∷ []) s.queue v.ids v.unused f m) v
        (λ t. count_id-splice t i p.items s.queue) (count_unnamed-splice i p.items s.queue)

  pub replace_all-IsValid :
      (values : List Entry) (s : Store)
      → Unused uuid s.drawn values
      → (replace_all uuid mine values s).drawn ≤ max_draws
      → IsValid uuid (replace_all uuid mine values s)
  unfolding replace_all advance count_id
  replace_all-IsValid values s f m =
      let h = prepare-IsPrepared u s.drawn values [] WellFormed-nil (Unused-nil uuid s.drawn) f m in
      record {
        ids = record { once = λ t. omega (arith, h.once t); named = h.named };
        unused = h.unused;
      }

  pub clear-IsValid : (s : Store) → IsValid uuid (clear mine s)
  unfolding clear advance
  clear-IsValid s = record { ids = WellFormed-nil; unused = Unused-nil uuid s.drawn }

  pub pop-IsValid :
      (i : ℕ) (s : Store) {e : Entry} {rest : List Entry}
      → pop_at i s.queue ≡ some (e, rest)
      → IsValid uuid s
      → IsValid uuid (advance mine (record s { queue = rest }))
  unfolding advance
  pop-IsValid i s p v = record {
    ids = record {
      once = λ t. omega (arith, count_id-pop_at t i s.queue p, v.ids.once t);
      named = omega (arith, count_unnamed-pop_at i s.queue p, v.ids.named);
    };
    unused = λ k b m. omega (arith, count_id-pop_at (uuid k) i s.queue p, v.unused k b m);
  }

  -- Assigning to an entry is popping it and putting the prepared value in its place.
  pub set_item-IsValid :
      (i : ℕ) (value : Entry) (s : Store) {s' : Store}
      → Unused uuid s.drawn (value ∷ [])
      → IsValid uuid s
      → set_item uuid mine i value s ≡ some s'
      → s'.drawn ≤ max_draws
      → IsValid uuid s'
  unfolding set_item advance
  set_item-IsValid i value s {s'} f v h m = elim (Option-cases (pop_at i s.queue)) [
    | inl p ↦ let none_there = rw (p, set_item) at h in absurd cc
    | inr ((e, rest), p) ↦
        let others : Store = record s { queue = rest } in
        let w = pop-IsValid i s p v in
        let valid : IsValid uuid others = record { ids = w.ids; unused = w.unused } in
        let made = prepare uuid s.drawn (value ∷ []) rest in
        let is : advance mine (record s { queue = splice i made.items rest; drawn = made.drawn })
            ≡ s' =
          (let found = rw (p, set_item) at h in cc) in
        rw⁻¹ is (
          joined-IsValid others made (splice i made.items rest)
            (prepare-IsPrepared u s.drawn (value ∷ []) rest valid.ids valid.unused f
              (subst (λ (t : Store). t.drawn ≤ max_draws) (sym is) m))
            valid (λ t. count_id-splice t i made.items rest)
            (count_unnamed-splice i made.items rest))
  ]

-- What a handler does first changes nothing.
pub settle_self : {uuid : ℕ → Text} (s : Store) → IsValid uuid s → settle uuid s ≡ s
unfolding settle
settle_self {uuid} s v = rw (ensure_self uuid s.drawn s.queue v.ids)

-- Entries whose ids are well formed are written as they are.
pub replace_all_self :
    (uuid : ℕ → Text) (mine : Bool) (values : List Entry) (s : Store)
    → WellFormed values
    → replace_all uuid mine values s ≡ advance mine (record s { queue = values })
unfolding replace_all prepare seen_ids
replace_all_self uuid mine values s w =
    let same : prepare_from uuid [] s.drawn values ≡ record { items = values; drawn = s.drawn } =
      unfold ensure in ensure_self uuid s.drawn values w in
    rw same

-- Entries that are some of the others, in any order.
pub fewer-IsValid :
    {uuid : ℕ → Text} (mine : Bool) (values : List Entry) (s : Store)
    → ((t : Text) → count_id t values ≤ count_id t s.queue)
    → count_unnamed values ≤ count_unnamed s.queue
    → IsValid uuid s
    → IsValid uuid (advance mine (record s { queue = values }))
unfolding advance
fewer-IsValid {uuid} mine values s ids unnamed v = record {
  ids = record {
    once = λ t. omega (arith, ids t, v.ids.once t);
    named = omega (arith, unnamed, v.ids.named);
  };
  unused = λ k b m. omega (arith, ids (uuid k), v.unused k b m);
}
