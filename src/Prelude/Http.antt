-- ===== src/Prelude/Http.antt =====
-- A handler's answer: a result, or `HTTPException(status_code, detail)`.
use Prim.Native.Nat.{ℕ}
use mathlib.Core.Path.{◌≡◌, refl}
use mathlib.Core.Logic.{◌⊎◌, inl, inr}
use relaytv.Prelude.Strings.{Text}

pub data Http {ℓ} (A : Type ℓ) : Type ℓ where
  reply : A → Http A
  failed : ℕ → Text → Http A

infixl 5 ◌>>=◌
abbrev pub ◌>>=◌ {ℓ κ} : {A : Type ℓ} {B : Type κ} → Http A → (A → Http B) → Http B
reply a >>= f = f a
failed status detail >>= f = failed status detail

pub Http-cases {ℓ} :
    {A : Type ℓ} (r : Http A)
    → ((a : A) × (r ≡ reply a)) ⊎ ((status : ℕ) × (detail : Text) × (r ≡ failed status detail))
Http-cases (reply a) = inl (a, refl)
Http-cases (failed status detail) = inr (status, detail, refl)
