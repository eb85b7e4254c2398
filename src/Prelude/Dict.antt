-- ===== src/Prelude/Dict.antt =====
-- Python's `dict`: an association list in insertion order, each key once.
use Prim.Native.Nat.{◌+◌, ◌≤◌}
use mathlib.Core.Path.{◌≡◌, refl}
use mathlib.Core.Bool.{Bool, true, false}
use mathlib.Core.Option.{Option, none, some}
use mathlib.Core.List.{List, [], ◌∷◌}
use native.Mathlib.Omega.{arith}
use relaytv.Prelude.Tests.{if◌then◌else◌}
use relaytv.Prelude.Lists.{length}
use relaytv.Prelude.Equality.{Eq, ◌≟◌}

abbrev pub Dict {ℓ κ} : Type ℓ → Type κ → Type (ℓ ⊔ κ)
Dict K V = List (K × V)

abbrev pub keep_if {ℓ} : {V : Type ℓ} → (V → Bool) → Option V → Option V
keep_if drop none = none
keep_if drop (some v) = if drop v then none else some v

module _ {ℓ κ} {K : Type ℓ} {V : Type κ} ⦃e : Eq K⦄ where
  -- d.get(k)
  unfoldable pub get : Dict K V → K → Option V
  get [] k = none
  get ((j, v) ∷ m) k = let rest = get m k in if j ≟ k then some v else rest

  -- d[k] = v: a key that is there keeps its place
  unfoldable pub put : Dict K V → K → V → Dict K V
  put [] k v = (k, v) ∷ []
  put ((j, w) ∷ m) k v = let rest = put m k v in if j ≟ k then (j, v) ∷ m else (j, w) ∷ rest

  -- d.pop(k, None), del d[k]
  unfoldable pub pop : Dict K V → K → Dict K V
  pop [] k = []
  pop ((j, v) ∷ m) k = let rest = pop m k in if j ≟ k then rest else (j, v) ∷ rest

  -- k in d
  unfoldable pub has_key : Dict K V → K → Bool
  has_key [] k = false
  has_key ((j, v) ∷ m) k = let rest = has_key m k in if j ≟ k then true else rest

  pub get-put :
      (m : Dict K V) (k j : K) (v : V) → get (put m k v) j ≡ (if k ≟ j then some v else get m j)
  unfolding get put
  get-put [] k j v = refl
  get-put ((i, w) ∷ m) k j v =
      ground (arith, e.beq_iff k j, e.beq_iff i k, e.beq_iff i j, get-put m k j v)

  pub get-pop : (m : Dict K V) (k j : K) → get (pop m k) j ≡ (if k ≟ j then none else get m j)
  unfolding get pop
  get-pop [] k j = ground arith
  get-pop ((i, w) ∷ m) k j =
      ground (arith, e.beq_iff k j, e.beq_iff i k, e.beq_iff i j, get-pop m k j)

  pub length-put_le : (m : Dict K V) (k : K) (v : V) → length (put m k v) ≤ length m + 1
  unfolding put
  length-put_le [] k v = omega arith
  length-put_le ((j, w) ∷ m) k v = ground (arith, length-put_le m k v)

  pub length-pop_le : (m : Dict K V) (k : K) → length (pop m k) ≤ length m
  unfolding pop
  length-pop_le [] k = omega arith
  length-pop_le ((j, w) ∷ m) k = ground (arith, length-pop_le m k)

  -- `for k, v in list(d.items()): if drop(v): del d[k]`
  unfoldable pub discard : (V → Bool) → Dict K V → Dict K V
  discard drop [] = []
  discard drop ((j, v) ∷ m) = let rest = discard drop m in if drop v then rest else (j, v) ∷ rest

  pub length-discard_le : (drop : V → Bool) (m : Dict K V) → length (discard drop m) ≤ length m
  unfolding discard
  length-discard_le drop [] = omega arith
  length-discard_le drop ((j, w) ∷ m) = ground (arith, length-discard_le drop m)

  -- Every key stands once.
  abbrev pub KeysOnce : Dict K V → Type 0
  KeysOnce [] = Unit {0}
  KeysOnce ((j, v) ∷ m) = (has_key m j ≡ false) × KeysOnce m

  pub has_key-put :
      (m : Dict K V) (k j : K) (v : V)
      → has_key (put m k v) j ≡ (if k ≟ j then true else has_key m j)
  unfolding has_key put
  has_key-put [] k j v = refl
  has_key-put ((i, w) ∷ m) k j v =
      ground (arith, e.beq_iff k j, e.beq_iff i k, e.beq_iff i j, has_key-put m k j v)

  pub has_key-pop :
      (m : Dict K V) (k j : K) → has_key (pop m k) j ≡ (if k ≟ j then false else has_key m j)
  unfolding has_key pop
  has_key-pop [] k j = ground arith
  has_key-pop ((i, w) ∷ m) k j =
      ground (arith, e.beq_iff k j, e.beq_iff i k, e.beq_iff i j, has_key-pop m k j)

  pub has_key-discard-false :
      (drop : V → Bool) (m : Dict K V) (j : K)
      → has_key m j ≡ false
      → has_key (discard drop m) j ≡ false
  unfolding has_key discard
  has_key-discard-false drop [] j h = refl
  has_key-discard-false drop ((i, w) ∷ m) j h = ground (arith, has_key-discard-false drop m j)

  pub KeysOnce-put : (m : Dict K V) (k : K) (v : V) → KeysOnce m → KeysOnce (put m k v)
  unfolding put has_key
  KeysOnce-put [] k v h = (refl, tt)
  KeysOnce-put ((i, w) ∷ m) k v h =
      ground (arith, e.beq_iff i k, e.beq_iff k i, has_key-put m k i v, KeysOnce-put m k v)

  pub KeysOnce-pop : (m : Dict K V) (k : K) → KeysOnce m → KeysOnce (pop m k)
  unfolding pop has_key
  KeysOnce-pop [] k h = tt
  KeysOnce-pop ((i, w) ∷ m) k h = ground (arith, e.beq_iff k i, has_key-pop m k i, KeysOnce-pop m k)

  pub KeysOnce-discard : (drop : V → Bool) (m : Dict K V) → KeysOnce m → KeysOnce (discard drop m)
  unfolding discard has_key
  KeysOnce-discard drop [] h = tt
  KeysOnce-discard drop ((i, w) ∷ m) h =
      ground (arith, has_key-discard-false drop m i, KeysOnce-discard drop m)

  pub get-has_key-false : (m : Dict K V) (j : K) → has_key m j ≡ false → get m j ≡ none
  unfolding get has_key
  get-has_key-false [] j h = refl
  get-has_key-false ((i, w) ∷ m) j h = ground (arith, get-has_key-false m j)

  pub get-discard :
      (drop : V → Bool) (m : Dict K V) (j : K)
      → KeysOnce m
      → get (discard drop m) j ≡ keep_if drop (get m j)
  unfolding get discard
  get-discard drop [] j h = refl
  get-discard drop ((i, w) ∷ m) j h = ground (
    arith,
    e.beq_iff i j,
    get-discard drop m j,
    get-has_key-false m j,
    get-has_key-false (discard drop m) j,
    has_key-discard-false drop m j,
  )
