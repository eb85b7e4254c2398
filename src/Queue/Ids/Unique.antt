-- ===== src/Queue/Ids/Unique.antt =====
-- The ids of prepared entries differ from one another and from those that are there.
use relaytv.Prelude.{
  ℕ, suc, ◌+◌, ◌≤◌, ◌≡◌, ◌≢◌, refl, ap, true, false, Option, none, some, List, [], ◌∷◌, ◌++◌, arith,
  ◌≟◌, ≟_iff, ≟_refl, if◌then◌else◌, contains, codes_eq, Text, Option-cases, Bool-cases, inl, inr,
}
use relaytv.Prelude.Value.{Value, Fields}
use relaytv.Prelude.{◌<◌, ◌^◌}
use relaytv.Queue.Item.{Entry, dict, raw, is_id, id_of, renamed}
use relaytv.Queue.Item.Normal.{id_of-with_id, id_of-renamed}
use relaytv.Queue.Ids.{
  Named, Prepared, placing, create_id, unseen, prepare_from, prepare, seen_ids, shown_id,
}

abbrev pub is_some_id : Option Text → Text → ℕ
is_some_id none t = 0
is_some_id (some id) t = if id ≟ t then 1 else 0

-- How many entries have the id `t`.
unfoldable pub count_id : Text → List Entry → ℕ
count_id t [] = 0
count_id t (e ∷ es) = is_some_id (id_of e) t + count_id t es

abbrev pub is_absent : Option Text → ℕ
is_absent none = 1
is_absent (some id) = 0

abbrev pub is_unnamed : Entry → ℕ
is_unnamed (raw value) = 0
is_unnamed (dict fields) = is_absent (id_of (dict fields))

pub id_of-raw : (value : Value) → id_of (raw value) ≡ none
unfolding id_of
id_of-raw value = refl

-- How many dicts have no id.
unfoldable pub count_unnamed : List Entry → ℕ
count_unnamed [] = 0
count_unnamed (e ∷ es) = is_unnamed e + count_unnamed es

pub count_id-append :
    (t : Text) (xs ys : List Entry) → count_id t (xs ++ ys) ≡ count_id t xs + count_id t ys
unfolding count_id
count_id-append t [] ys = omega arith
count_id-append t (x ∷ xs) ys = omega (arith, count_id-append t xs ys)

pub count_unnamed-append :
    (xs ys : List Entry) → count_unnamed (xs ++ ys) ≡ count_unnamed xs + count_unnamed ys
unfolding count_unnamed
count_unnamed-append [] ys = omega arith
count_unnamed-append (x ∷ xs) ys = omega (arith, count_unnamed-append xs ys)

-- Every dict has an id, and no id stands twice.
pub record WellFormed (es : List Entry) : Type 0 where
  pub once : (t : Text) → count_id t es ≤ 1
  pub named : count_unnamed es ≡ 0

-- How many ids a process may draw.
unfoldable pub max_draws : ℕ
max_draws = 2 ^ 64

-- What the program relies on of `uuid4().hex`: 32 lower-case hexadecimal digits, and no two of the
-- draws of a process are the same.
pub record IsUuid (uuid : ℕ → Text) : Type 0 where
  pub shape : (n : ℕ) → is_id (uuid n) ≡ true
  pub distinct : (m n : ℕ) → m < max_draws → n < max_draws → uuid m ≡ uuid n → m ≡ n

-- No entry has an id that is drawn after the first `n`.
abbrev pub Unused : (ℕ → Text) → ℕ → List Entry → Type 0
Unused uuid n es = (k : ℕ) → n ≤ k → k < max_draws → count_id (uuid k) es ≡ 0

-- Ids are only drawn.
unseen-grows :
    (uuid : ℕ → Text) (seen : List Text) (f : Fields) (n : ℕ)
    → n ≤ (unseen uuid seen (create_id uuid f n)).drawn
unfolding unseen create_id
unseen-grows uuid seen f n = ground arith

prepare_from-grows :
    (uuid : ℕ → Text) (seen : List Text) (n : ℕ) (es : List Entry)
    → n ≤ (prepare_from uuid seen n es).drawn
unfolding prepare_from
prepare_from-grows uuid seen n [] = omega arith
prepare_from-grows uuid seen n (raw value ∷ es) = prepare_from-grows uuid seen n es
prepare_from-grows uuid seen n (dict f ∷ es) =
    let item = unseen uuid seen (create_id uuid f n) in
    omega
      (arith, unseen-grows uuid seen f n, prepare_from-grows uuid (item.id ∷ seen) item.drawn es)

module _ {uuid : ℕ → Text} (u : IsUuid uuid) where
  -- What holds of the ids placed so far, given by their counts.
  record Placed (c : Text → ℕ) (seen : List Text) (n : ℕ) : Type 0 where
    once : (t : Text) → c t ≤ 1
    covered : (t : Text) → contains seen t ≡ false → c t ≡ 0
    unused : (k : ℕ) → n ≤ k → k < max_draws → c (uuid k) ≡ 0

  record IsNew (c : Text → ℕ) (n : ℕ) (item : Named) : Type 0 where
    same : id_of (dict item.fields) ≡ some item.id
    absent : c item.id ≡ 0
    drawn : n ≤ item.drawn
    later : (k : ℕ) → item.drawn ≤ k → k < max_draws → item.id ≢ uuid k

  uuid-later : (n k : ℕ) → suc n ≤ k → k < max_draws → uuid n ≢ uuid k
  uuid-later n k h b e = absurd (omega (arith, u.distinct n k (omega arith) b e))

  -- A name that is drawn is new.
  drawn-IsNew :
      (c : Text → ℕ) (seen : List Text) (n m : ℕ) (f : Fields)
      → Placed c seen n
      → n ≤ m
      → m < max_draws
      → id_of (dict f) ≡ some (uuid m)
      → IsNew c n (record { fields = f; id = uuid m; drawn = suc m })
  drawn-IsNew c seen n m f p h b e = record {
    same = e;
    absent = p.unused m h b;
    drawn = omega arith;
    later = λ k. uuid-later m k;
  }

  unseen-IsNew :
      (c : Text → ℕ) (seen : List Text) (n : ℕ) (item : Named)
      → Placed c seen n
      → n ≤ item.drawn
      → id_of (dict item.fields) ≡ some item.id
      → ((k : ℕ) → item.drawn ≤ k → k < max_draws → item.id ≢ uuid k)
      → (unseen uuid seen item).drawn ≤ max_draws
      → IsNew c n (unseen uuid seen item)
  unfolding unseen
  unseen-IsNew c seen n item p h e l b = elim (Bool-cases (contains seen item.id)) [
    | inl q ↦ rw q (
        drawn-IsNew c seen n item.drawn (renamed item.fields (uuid item.drawn)) p h
          (ground (arith, b, q)) (id_of-renamed item.fields (uuid item.drawn) (u.shape item.drawn)))
    | inr q ↦ rw q (record { same = e; absent = p.covered item.id q; drawn = h; later = l })
  ]

  create_id-IsNew :
      (c : Text → ℕ) (seen : List Text) (n : ℕ) (f : Fields)
      → Placed c seen n
      → ((k : ℕ) → n ≤ k → k < max_draws → is_some_id (id_of (dict f)) (uuid k) ≡ 0)
      → (unseen uuid seen (create_id uuid f n)).drawn ≤ max_draws
      → IsNew c n (unseen uuid seen (create_id uuid f n))
  unfolding create_id
  create_id-IsNew c seen n f p h b = elim (Option-cases (id_of (dict f))) [
    | inl q ↦
        rw (q, create_id)
          (unseen-IsNew c seen n _ p (omega arith) (id_of-with_id f (uuid n) (u.shape n))
            (λ k. uuid-later n k) (rw (q, create_id) at b))
    | inr (id, q) ↦
        rw (q, create_id)
          (unseen-IsNew c seen n _ p (omega arith) q
            (λ k i j same. ground (arith, h k i j, ≟_refl (uuid k))) (rw (q, create_id) at b))
  ]

  abbrev adding : Text → (Text → ℕ) → Text → ℕ
  adding id c t = (if id ≟ t then 1 else 0) + c t

  adding-Placed :
      (c : Text → ℕ) (seen : List Text) (n : ℕ) (item : Named)
      → Placed c seen n
      → IsNew c n item
      → Placed (adding item.id c) (item.id ∷ seen) item.drawn
  unfolding contains
  adding-Placed c seen n item p new = record {
    once = λ t. ground (arith, ≟_iff item.id t, ap c, p.once t, new.absent);
    covered = λ t h. ground (arith, p.covered t);
    unused =
        λ k h b. ground (arith, ≟_iff item.id (uuid k), new.later k h b, p.unused k, new.drawn);
  }

  pub record IsPrepared (c : Text → ℕ) (n : ℕ) (p : Prepared) : Type 0 where
    pub once : (t : Text) → c t + count_id t p.items ≤ 1
    pub named : count_unnamed p.items ≡ 0
    pub grows : n ≤ p.drawn
    pub unused : (k : ℕ) → p.drawn ≤ k → k < max_draws → count_id (uuid k) p.items ≡ 0

  placing-IsPrepared :
      (c : Text → ℕ) (n : ℕ) (item : Named) {p : Prepared}
      → IsNew c n item
      → IsPrepared (adding item.id c) item.drawn p
      → IsPrepared c n (placing (dict item.fields) p)
  unfolding count_id count_unnamed
  placing-IsPrepared c n item new h = record {
    once = λ t. rw new.same (omega (arith, h.once t));
    named = rw new.same (omega (arith, h.named));
    grows = omega (arith, h.grows, new.drawn);
    unused = λ k b m.
        rw new.same (ground (arith, ≟_iff item.id (uuid k), new.later k, h.unused k b m, h.grows));
  }

  prepare_from-IsPrepared :
      (c : Text → ℕ) (seen : List Text) (n : ℕ) (es : List Entry)
      → Placed c seen n
      → Unused uuid n es
      → (prepare_from uuid seen n es).drawn ≤ max_draws
      → IsPrepared c n (prepare_from uuid seen n es)
  unfolding prepare_from count_id count_unnamed
  prepare_from-IsPrepared c seen n [] p h m = record {
    once = λ t. omega (arith, p.once t);
    named = refl;
    grows = omega arith;
    unused = λ k b i. refl;
  }
  prepare_from-IsPrepared c seen n (raw value ∷ es) p h m =
      let rest =
        prepare_from-IsPrepared c seen n es p
          (λ k b i. let none_here = rw (id_of-raw value) at (h k b i) in omega arith) m in
      record {
        once = λ t. rw (id_of-raw value) (omega (arith, rest.once t));
        named = omega (arith, rest.named);
        grows = rest.grows;
        unused = λ k b i. rw (id_of-raw value) (omega (arith, rest.unused k b i));
      }
  prepare_from-IsPrepared c seen n (dict f ∷ es) p h m =
      let item = unseen uuid seen (create_id uuid f n) in
      let later = prepare_from-grows uuid (item.id ∷ seen) item.drawn es in
      let new =
        create_id-IsNew c seen n f p (λ k b i. omega (arith, h k b i)) (omega (arith, m, later)) in
      placing-IsPrepared c n item new (
        prepare_from-IsPrepared (adding item.id c) (item.id ∷ seen) item.drawn es
          (adding-Placed c seen n item p new)
          (λ k b i. omega (arith, h k (omega (arith, new.drawn)) i)) m)

-- The ids of what is there are all seen.
seen_ids-covered :
    (t : Text) (es : List Entry) → contains (seen_ids es) t ≡ false → count_id t es ≡ 0
unfolding seen_ids contains count_id
seen_ids-covered t [] h = refl
seen_ids-covered t (e ∷ es) h = elim (Option-cases (id_of e)) [
  | inl p ↦ rw p (ground (arith, seen_ids-covered t es))
  | inr (id, p) ↦ rw p (unfold shown_id in ground (arith, seen_ids-covered t es))
]

-- In front of entries that are well formed, prepared values have new ids, each its own, where the
-- process does not run out of ids and the values have none that is still to be drawn.
pub prepare-IsPrepared :
    {uuid : ℕ → Text} (u : IsUuid uuid) (n : ℕ) (values existing : List Entry)
    → WellFormed existing
    → Unused uuid n existing
    → Unused uuid n values
    → (prepare uuid n values existing).drawn ≤ max_draws
    → IsPrepared u (λ t. count_id t existing) n (prepare uuid n values existing)
unfolding prepare
prepare-IsPrepared u n values existing w fresh_existing fresh_values m =
    prepare_from-IsPrepared u (λ t. count_id t existing) (seen_ids existing) n values
      (record {
        once = w.once;
        covered = λ t. seen_ids-covered t existing;
        unused = fresh_existing;
      })
      fresh_values m
