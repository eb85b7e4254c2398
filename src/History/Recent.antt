-- ===== src/History/Recent.antt =====
-- The history is the most recent entries.
use relaytv.Prelude.{
  ℕ, zero, suc, ◌≤◌, ◌<◌, ◌≡◌, refl, sym, ap, ◌∙◌, List, [], ◌∷◌, arith, ltb, ◌&&◌, length, take,
  Bool-cases, inl, inr,
}
use relaytv.Prelude.Value.{Fields}
use relaytv.History.{History, history_add}

-- Entries that are added one by one, the last one at the front.
unfoldable pub add_all : ℕ → List Fields → History → History
add_all limit [] h = h
add_all limit (e ∷ es) h = history_add limit e (add_all limit es h)

take_all : (n : ℕ) (xs : History) → length xs ≤ n → take n xs ≡ xs
take_all zero [] h = refl
take_all zero (x ∷ xs) h = absurd (omega (arith, h))
take_all (suc n) [] h = refl
take_all (suc n) (x ∷ xs) h = ap (λ t. x ∷ t) (take_all n xs (omega (arith, h)))

take-take : (n : ℕ) (xs : History) → take n (take (suc n) xs) ≡ take n xs
take-take zero [] = refl
take-take zero (x ∷ xs) = refl
take-take (suc n) [] = refl
take-take (suc n) (x ∷ xs) = ap (λ t. x ∷ t) (take-take n xs)

history_add-take :
    (limit : ℕ) (e : Fields) (h : History) → 0 < limit → history_add limit e h ≡ take limit (e ∷ h)
unfolding history_add
history_add-take limit e h p = elim (Bool-cases (ltb 0 limit && ltb limit (length (e ∷ h)))) [
  | inl full ↦ rw (full, history_add) refl
  | inr room ↦ rw (room, history_add) (sym (take_all limit (e ∷ h) (ground arith)))
]

-- With a limit above 0, the history after any additions, from an empty one, is the most recent entries
-- up to the limit, the last one first.
pub add_all-take : (limit : ℕ) (es : List Fields) → 0 < limit → add_all limit es [] ≡ take limit es
unfolding add_all
add_all-take zero es p = absurd (omega (arith, p))
add_all-take (suc n) [] p = refl
add_all-take (suc n) (e ∷ es) p =
    history_add-take (suc n) e (add_all (suc n) es []) p
    ∙ ap (λ h. take (suc n) (e ∷ h)) (add_all-take (suc n) es p)
    ∙ ap (λ t. e ∷ t) (take-take n es)
