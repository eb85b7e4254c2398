-- ===== src/Queue/Service/Removal.antt =====
-- `remove_queue_items_by_id` takes out the chosen entries, and keeps the others in their order.
use relaytv.Prelude.{
  ℕ, ◌+◌, ◌-◌, ◌≤◌, ◌≡◌, refl, Bool, true, false, List, [], ◌∷◌, inl, inr, arith, Bool-cases,
  length, ◌==◌, Text,
}
use relaytv.Prelude.{if◌then◌else◌}
use relaytv.Queue.Item.{Entry}
use relaytv.Queue.Ids.Unique.{count_id, count_unnamed, WellFormed}
use relaytv.Queue.Store.{Store, advance}
use relaytv.Queue.Store.Invariant.{IsValid, replace_all_self, fewer-IsValid}
use relaytv.Queue.Service.{is_chosen, kept, remove_queue_items_by_id}

count_id-kept :
    (ids : List Text) (t : Text) (q : List Entry) → count_id t (kept ids q) ≤ count_id t q
unfolding count_id kept
count_id-kept ids t [] = omega arith
count_id-kept ids t (e ∷ q) = ground (arith, count_id-kept ids t q)

count_unnamed-kept :
    (ids : List Text) (q : List Entry) → count_unnamed (kept ids q) ≤ count_unnamed q
unfolding count_unnamed kept
count_unnamed-kept ids [] = omega arith
count_unnamed-kept ids (e ∷ q) = ground (arith, count_unnamed-kept ids q)

length-kept : (ids : List Text) (q : List Entry) → length (kept ids q) ≤ length q
unfolding kept
length-kept ids [] = omega arith
length-kept ids (e ∷ q) = ground (arith, length-kept ids q)

kept_all : (ids : List Text) (q : List Entry) → length (kept ids q) ≡ length q → kept ids q ≡ q
unfolding kept
kept_all ids [] h = refl
kept_all ids (e ∷ q) h = ground (arith, length-kept ids q, kept_all ids q)

-- An independent count of the chosen entries.
unfoldable pub chosen : List Text → List Entry → ℕ
chosen ids [] = 0
chosen ids (e ∷ q) = (if is_chosen ids e then 1 else 0) + chosen ids q

-- `xs` is `ys` less its chosen entries.
pub data Sieved (ids : List Text) : List Entry → List Entry → Type 0 where
  done : Sieved ids [] []
  out :
      {e : Entry} {xs ys : List Entry}
      → is_chosen ids e ≡ true
      → Sieved ids xs ys
      → Sieved ids xs (e ∷ ys)
  stay :
      {e : Entry} {xs ys : List Entry}
      → is_chosen ids e ≡ false
      → Sieved ids xs ys
      → Sieved ids (e ∷ xs) (e ∷ ys)

kept-Sieved : (ids : List Text) (q : List Entry) → Sieved ids (kept ids q) q
unfolding kept
kept-Sieved ids [] = done
kept-Sieved ids (e ∷ q) = elim (Bool-cases (is_chosen ids e)) [
  | inl h ↦ rw h (out h (kept-Sieved ids q))
  | inr h ↦ rw h (stay h (kept-Sieved ids q))
]

chosen-kept : (ids : List Text) (q : List Entry) → chosen ids q + length (kept ids q) ≡ length q
unfolding chosen kept
chosen-kept ids [] = omega arith
chosen-kept ids (e ∷ q) = ground (arith, chosen-kept ids q)

-- The store after the removal, and the answer.
pub record Removed (uuid : ℕ → Text) (mine : Bool) (ids : List Text) (s : Store) : Type 0 where
  pub sieved : Sieved ids (remove_queue_items_by_id uuid mine ids s).1.queue s.queue
  pub valid : IsValid uuid (remove_queue_items_by_id uuid mine ids s).1
  pub answer :
      (remove_queue_items_by_id uuid mine ids s).0
      ≡ (chosen ids s.queue, (remove_queue_items_by_id uuid mine ids s).1.queue)

kept-WellFormed :
    (uuid : ℕ → Text) (ids : List Text) (s : Store) → IsValid uuid s → WellFormed (kept ids s.queue)
kept-WellFormed uuid ids s v = record {
  once = λ t. omega (arith, count_id-kept ids t s.queue, v.ids.once t);
  named = omega (arith, count_unnamed-kept ids s.queue, v.ids.named);
}

kept-IsValid :
    (uuid : ℕ → Text) (mine : Bool) (ids : List Text) (s : Store)
    → IsValid uuid s
    → IsValid uuid (advance mine (record s { queue = kept ids s.queue }))
kept-IsValid uuid mine ids s v =
    fewer-IsValid mine (kept ids s.queue) s (λ t. count_id-kept ids t s.queue)
      (count_unnamed-kept ids s.queue) v

-- Where the ids of the queue are well formed, exactly the entries whose id is chosen leave, the
-- others stay in their order, the ids stay well formed, and the answer is the number of entries
-- that left and the queue.
pub remove_queue_items_by_id-Removed :
    (uuid : ℕ → Text) (mine : Bool) (ids : List Text) (s : Store)
    → IsValid uuid s
    → Removed uuid mine ids s
unfolding remove_queue_items_by_id
remove_queue_items_by_id-Removed uuid mine ids s v =
    let sum = chosen-kept ids s.queue in
    let sieve = kept-Sieved ids s.queue in
    elim (Bool-cases (length s.queue - length (kept ids s.queue) == 0)) [
      | inl h ↦
          let all = kept_all ids s.queue (ground (arith, length-kept ids s.queue)) in
          record {
            sieved = rw h (rw all at sieve);
            valid = rw h v;
            answer = rw h (ground (arith, sum));
          }
      | inr h ↦
          let same =
            replace_all_self uuid mine (kept ids s.queue) s (kept-WellFormed uuid ids s v) in
          record {
            sieved = rw (h, same) (unfold advance in sieve);
            valid = rw (h, same) (kept-IsValid uuid mine ids s v);
            answer = rw (h, same) (unfold advance in ground (arith, sum));
          }
    ]
