-- ===== src/Prelude/Results.antt =====
-- Rust's `Result`, and its `?` on a method that returns the new object beside its result.
use mathlib.Core.Path.{◌≡◌, refl, ap}
use mathlib.Core.Logic.{◌⊎◌, inl, inr}

pub data Result {ℓ} (A E : Type ℓ) : Type ℓ where
  ok : A → Result A E
  err : E → Result A E

pub Result-cases {ℓ} :
    {A E : Type ℓ} (r : Result A E) → ((a : A) × (r ≡ ok a)) ⊎ ((e : E) × (r ≡ err e))
Result-cases (ok a) = inl (a, refl)
Result-cases (err e) = inr (e, refl)

-- `map_err(f)`.
abbrev pub map_err {ℓ} : {A E F : Type ℓ} → (E → F) → Result A E → Result A F
map_err f (ok a) = ok a
map_err f (err e) = err (f e)

-- `m?; k`: on an error the object stays as `m` left it.
infixl 5 ◌>>=◌
abbrev pub ◌>>=◌ {ℓ} :
    {S A B E : Type ℓ} → S × Result A E → (A → S → S × Result B E) → S × Result B E
(s, ok a) >>= k = k a s
(s, err e) >>= k = (s, err e)

module _ {ℓ} {S A B E : Type ℓ} (m : S × Result A E) (k : A → S → S × Result B E) where
  pub bind-ok : (a : A) → m.1 ≡ ok a → (m >>= k) ≡ k a m.0
  bind-ok a h = ap (λ r. (m.0, r) >>= k) h

  pub bind-err : (e : E) → m.1 ≡ err e → (m >>= k) ≡ (m.0, err e)
  bind-err e h = ap (λ r. (m.0, r) >>= k) h
