-- ===== src/Queue/Dedupe/Distinct.antt =====
-- Deduplication keeps the first entry of each key, and nothing else.
use relaytv.Queue.Store.Invariant.{replace_all_self}
use relaytv.Queue.Store.Invariant.{fewer-IsValid}
use relaytv.Prelude.{inl, inr}
use relaytv.Prelude.{◌-◌, sym, ◌==◌}
use relaytv.Prelude.{Bool-cases}
use relaytv.Queue.Ids.Unique.{WellFormed}
use relaytv.Queue.Store.{advance}
use relaytv.Prelude.{
  ℕ, ◌+◌, ◌≤◌, ◌≡◌, refl, true, false, Option, none, some, List, [], ◌∷◌, arith, Text, ◌≟◌,
  if◌then◌else◌, contains, length,
}
use relaytv.Queue.Item.{Entry}
use relaytv.Queue.Ids.Unique.{count_id, count_unnamed}
use relaytv.Queue.Store.{Store}
use relaytv.Queue.Store.Invariant.{IsValid}
use relaytv.Queue.Dedupe.{Key, key_eq, key_beq_iff, first_of_each, dedupe_key, queue_dedupe}

module _ (key : Entry → Key) where
  -- The first entry of a key.
  unfoldable pub first_with : Key → List Entry → Option Entry
  first_with k [] = none
  first_with k (e ∷ q) = let later = first_with k q in if key e ≟ k then some e else later

  unfoldable pub count_key : Key → List Entry → ℕ
  count_key k [] = 0
  count_key k (e ∷ q) = (if key e ≟ k then 1 else 0) + count_key k q

  first_with-first_of_each :
      (k : Key) (seen : List Key) (q : List Entry)
      → contains seen k ≡ false
      → first_with k (first_of_each key seen q) ≡ first_with k q
  unfolding first_with first_of_each contains
  first_with-first_of_each k seen [] h = refl
  first_with-first_of_each k seen (e ∷ q) h = ground (
    arith,
    key_beq_iff (key e) k,
    first_with-first_of_each k seen q,
    first_with-first_of_each k (key e ∷ seen) q,
  )

  count_key-seen :
      (k : Key) (seen : List Key) (q : List Entry)
      → contains seen k ≡ true
      → count_key k (first_of_each key seen q) ≡ 0
  unfolding count_key first_of_each contains
  count_key-seen k seen [] h = refl
  count_key-seen k seen (e ∷ q) h =
      ground
        (arith, key_beq_iff (key e) k, count_key-seen k seen q, count_key-seen k (key e ∷ seen) q)

  count_key-first_of_each :
      (k : Key) (seen : List Key) (q : List Entry) → count_key k (first_of_each key seen q) ≤ 1
  unfolding count_key first_of_each contains
  count_key-first_of_each k seen [] = omega arith
  count_key-first_of_each k seen (e ∷ q) = ground (
    arith,
    key_beq_iff (key e) k,
    count_key-seen k (key e ∷ seen) q,
    count_key-first_of_each k seen q,
    count_key-first_of_each k (key e ∷ seen) q,
  )

  count_id-first_of_each :
      (t : Text) (seen : List Key) (q : List Entry)
      → count_id t (first_of_each key seen q) ≤ count_id t q
  unfolding count_id first_of_each
  count_id-first_of_each t seen [] = omega arith
  count_id-first_of_each t seen (e ∷ q) =
      ground (arith, count_id-first_of_each t seen q, count_id-first_of_each t (key e ∷ seen) q)

  count_unnamed-first_of_each :
      (seen : List Key) (q : List Entry)
      → count_unnamed (first_of_each key seen q) ≤ count_unnamed q
  unfolding count_unnamed first_of_each
  count_unnamed-first_of_each seen [] = omega arith
  count_unnamed-first_of_each seen (e ∷ q) =
      ground
        (arith, count_unnamed-first_of_each seen q, count_unnamed-first_of_each (key e ∷ seen) q)

  length-first_of_each :
      (seen : List Key) (q : List Entry) → length (first_of_each key seen q) ≤ length q
  unfolding first_of_each
  length-first_of_each seen [] = omega arith
  length-first_of_each seen (e ∷ q) =
      ground (arith, length-first_of_each seen q, length-first_of_each (key e ∷ seen) q)

  first_of_each_all :
      (seen : List Key) (q : List Entry)
      → length (first_of_each key seen q) ≡ length q
      → first_of_each key seen q ≡ q
  unfolding first_of_each
  first_of_each_all seen [] h = refl
  first_of_each_all seen (e ∷ q) h =
      ground (arith, length-first_of_each seen q, first_of_each_all (key e ∷ seen) q)

module _ (url_key : Text → Text) (uuid : ℕ → Text) (s : Store) where
  abbrev left : List Entry
  left = first_of_each (dedupe_key url_key) [] s.queue

  left-WellFormed : IsValid uuid s → WellFormed left
  left-WellFormed v = record {
    once =
        λ t. omega (arith, count_id-first_of_each (dedupe_key url_key) t [] s.queue, v.ids.once t);
    named = omega (arith, count_unnamed-first_of_each (dedupe_key url_key) [] s.queue, v.ids.named);
  }

  left-IsValid : IsValid uuid s → IsValid uuid (advance true (record s { queue = left }))
  left-IsValid v =
      fewer-IsValid true left s (λ t. count_id-first_of_each (dedupe_key url_key) t [] s.queue)
        (count_unnamed-first_of_each (dedupe_key url_key) [] s.queue) v

  -- What the handler leaves, whichever way its test goes.
  record Left (s' : Store) (removed : ℕ) : Type 0 where
    same : s'.queue ≡ left
    valid : IsValid uuid s'
    count : removed + length s'.queue ≡ length s.queue

  queue_dedupe-Left :
      IsValid uuid s → Left (queue_dedupe url_key uuid s).1 (queue_dedupe url_key uuid s).0.1
  unfolding queue_dedupe
  queue_dedupe-Left v =
      let fewer = length-first_of_each (dedupe_key url_key) [] s.queue in
      elim (Bool-cases (length s.queue - length left == 0)) [
        | inl h ↦ rw h (record {
          same = sym (first_of_each_all (dedupe_key url_key) [] s.queue (ground (arith, fewer)));
          valid = v;
          count = omega arith;
        })
        | inr h ↦ rw h (
            rw (replace_all_self uuid true left s (left-WellFormed v)) (record {
              same = unfold advance in refl;
              valid = left-IsValid v;
              count = unfold advance in omega (arith, fewer);
            }))
      ]

-- The queue after `queue_dedupe`, and its answer.
pub record Deduped (url_key : Text → Text) (uuid : ℕ → Text) (s : Store) : Type 0 where
  pub queue : (queue_dedupe url_key uuid s).1.queue ≡ first_of_each (dedupe_key url_key) [] s.queue
  pub first :
      (k : Key)
      → first_with (dedupe_key url_key) k (queue_dedupe url_key uuid s).1.queue
        ≡ first_with (dedupe_key url_key) k s.queue
  pub distinct :
      (k : Key) → count_key (dedupe_key url_key) k (queue_dedupe url_key uuid s).1.queue ≤ 1
  pub valid : IsValid uuid (queue_dedupe url_key uuid s).1
  pub removed :
      (queue_dedupe url_key uuid s).0.1 + length (queue_dedupe url_key uuid s).1.queue
      ≡ length s.queue

-- Where the ids of the queue are well formed, the queue after `queue_dedupe` is the first entry of
-- each key in the old order: the first entry of every key stays, no key stands twice, the ids stay
-- well formed, and the answer counts the entries that left.
pub queue_dedupe-distinct :
    (url_key : Text → Text) (uuid : ℕ → Text) (s : Store) → IsValid uuid s → Deduped url_key uuid s
queue_dedupe-distinct url_key uuid s v =
    let d = queue_dedupe-Left url_key uuid s v in
    record {
      queue = d.same;
      first = λ k.
          rw d.same
            (first_with-first_of_each (dedupe_key url_key) k [] s.queue (unfold contains in refl));
      distinct = λ k. rw d.same (count_key-first_of_each (dedupe_key url_key) k [] s.queue);
      valid = d.valid;
      removed = d.count;
    }
