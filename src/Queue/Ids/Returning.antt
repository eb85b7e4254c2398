-- ===== src/Queue/Ids/Returning.antt =====
-- An entry that was taken out of a queue goes back as it is.
use relaytv.Prelude.{none}
use relaytv.Prelude.{
  ℕ, ◌+◌, ◌≤◌, ◌≡◌, ◌≢◌, refl, false, some, List, [], ◌∷◌, arith, ≟_refl, ≟_iff, contains, codes_eq,
  Text, Option-cases, inl, inr,
}
use relaytv.Prelude.Value.{Fields}
use relaytv.Queue.Item.{Entry, dict, raw, id_of, normal_id, is_id}
use relaytv.Queue.Ids.{prepare_from, prepare, seen_ids, shown_id}
use relaytv.Queue.Ids.Unique.{count_id, count_unnamed}
use relaytv.Queue.Ids.Stable.{named_self}

-- No entry has the empty id.
pub id_of-ne-nil : (e : Entry) → id_of e ≢ some []
unfolding id_of normal_id is_id
id_of-ne-nil (raw value) h = cc
id_of-ne-nil (dict fields) h = ground arith

shown_id-none : (e : Entry) → id_of e ≡ none → shown_id e ≡ []
unfolding shown_id
shown_id-none e p = rw (p, shown_id)

shown_id-some : (e : Entry) (id : Text) → id_of e ≡ some id → shown_id e ≡ id
unfolding shown_id
shown_id-some e id p = rw (p, shown_id)

seen_ids-new :
    (t : Text) (es : List Entry) → t ≢ [] → count_id t es ≡ 0 → contains (seen_ids es) t ≡ false
unfolding seen_ids contains count_id
seen_ids-new t [] n h = refl
seen_ids-new t (e ∷ es) n h = elim (Option-cases (id_of e)) [
  | inl p ↦
      let rest = rw p at h in ground (arith, shown_id-none e p, ≟_iff [] t, seen_ids-new t es n)
  | inr (id, p) ↦ let rest = rw p at h in ground (arith, shown_id-some e id p, seen_ids-new t es n)
]

-- A dict with an id that stands nowhere else is prepared as it is.
pub prepare_self :
    (uuid : ℕ → Text) (n : ℕ) (f : Fields) (es : List Entry) (id : Text)
    → id_of (dict f) ≡ some id
    → count_id id es ≡ 0
    → prepare uuid n (dict f ∷ []) es ≡ record { items = dict f ∷ []; drawn = n }
unfolding prepare prepare_from
prepare_self uuid n f es id p h = rw (
    named_self uuid (seen_ids es) n f id p
      (seen_ids-new id es (λ e. id_of-ne-nil (dict f) (rw e at p)) h))

-- What is prepared of an entry that the others do not repeat.
pub prepare_returning :
    (uuid : ℕ → Text) (n : ℕ) (e : Entry) (es : List Entry)
    → ((t : Text) → count_id t (e ∷ []) + count_id t es ≤ 1)
    → count_unnamed (e ∷ []) ≡ 0
    → prepare uuid n (e ∷ []) es ≡ record { items = e ∷ []; drawn = n }
unfolding count_id count_unnamed
prepare_returning uuid n (raw value) es o u = unfold prepare prepare_from in refl
prepare_returning uuid n (dict f) es o u = elim (Option-cases (id_of (dict f))) [
  | inl p ↦ let unnamed = rw p at u in absurd (omega arith)
  | inr (id, p) ↦
      let once = rw (p, ≟_refl id) at (o id) in prepare_self uuid n f es id p (omega arith)
]
