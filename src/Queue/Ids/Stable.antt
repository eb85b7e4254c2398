-- ===== src/Queue/Ids/Stable.antt =====
-- `ensure_queue_item_ids` changes nothing where ids are well formed.
use relaytv.Prelude.{
  ℕ, ◌≤◌, ◌≡◌, refl, true, false, some, List, [], ◌∷◌, arith, ≟_refl, ≟_iff, contains, codes_eq,
  Text, Option-cases, Bool-cases, inl, inr,
}
use relaytv.Prelude.Value.{Fields}
use relaytv.Queue.Item.{Entry, dict, raw, id_of}
use relaytv.Queue.Ids.{create_id, unseen, prepare_from, ensure}
use relaytv.Queue.Ids.Unique.{count_id, count_unnamed, WellFormed}

pub named_self :
    (uuid : ℕ → Text) (seen : List Text) (n : ℕ) (f : Fields) (id : Text)
    → id_of (dict f) ≡ some id
    → contains seen id ≡ false
    → unseen uuid seen (create_id uuid f n) ≡ record { fields = f; id = id; drawn = n }
unfolding unseen create_id
named_self uuid seen n f id p h = rw (p, create_id) (rw h)

unseen_id :
    (seen : List Text) (f : Fields) (es : List Entry) (id : Text)
    → ((t : Text) → contains seen t ≡ true → count_id t (dict f ∷ es) ≡ 0)
    → id_of (dict f) ≡ some id
    → contains seen id ≡ false
unfolding count_id
unseen_id seen f es id s p = elim (Bool-cases (contains seen id)) [
  | inr h ↦ h
  | inl h ↦ let none_there = rw (p, ≟_refl id) at (s id h) in absurd (omega arith)
]

module _ (uuid : ℕ → Text) where
  prepare_from_self :
      (seen : List Text) (n : ℕ) (es : List Entry)
      → ((t : Text) → contains seen t ≡ true → count_id t es ≡ 0)
      → ((t : Text) → count_id t es ≤ 1)
      → count_unnamed es ≡ 0
      → prepare_from uuid seen n es ≡ record { items = es; drawn = n }
  unfolding prepare_from count_id count_unnamed contains
  prepare_from_self seen n [] s o e = refl
  prepare_from_self seen n (raw value ∷ es) s o e = rw (
      prepare_from_self seen n es (λ t h. omega (arith, s t h)) (λ t. omega (arith, o t))
        (omega (arith, e)))
  prepare_from_self seen n (dict f ∷ es) s o e = elim (Option-cases (id_of (dict f))) [
    | inl p ↦ let unnamed = rw p at e in absurd (omega arith)
    | inr (id, p) ↦
        let once = λ (t : Text). rw p at (o t) in
        let old = λ (t : Text) (h : contains seen t ≡ true). rw p at (s t h) in
        rw (named_self uuid seen n f id p (unseen_id seen f es id s p)) (
          rw (
            prepare_from_self (id ∷ seen) n es (λ t h. ground (arith, once t, old t, ≟_iff id t))
              (λ t. omega (arith, once t)) (omega (arith, e))))
  ]

  pub ensure_self :
      (n : ℕ) (es : List Entry)
      → WellFormed es
      → ensure uuid n es ≡ record { items = es; drawn = n }
  unfolding ensure contains
  ensure_self n es w = prepare_from_self [] n es (λ t h. cc) w.once w.named
