-- ===== src/Base/Exec.antt =====
-- Methods that mutate their object and may fail. What was written before an error stays written.
use mathlib.Core.Path.{◌≡◌, refl}
use segstore.Base.Result.{Result, ok, err}

abbrev pub Exec {ℓ} : Type ℓ → Type ℓ → Type ℓ
Exec S A = S → Result A × S

module _ {ℓ} {S A B : Type ℓ} where
  abbrev pub continue : Result A → (A → Exec S B) → Exec S B
  continue (ok a) f s = f a s
  continue (err e) f s = (err e, s)

  infixl 5 ◌>>=◌ ◌>>◌
  abbrev pub ◌>>=◌ : Exec S A → (A → Exec S B) → Exec S B
  ◌>>=◌ m f s = let r = m s in continue r.0 f r.1

  abbrev pub ◌>>◌ : Exec S A → Exec S B → Exec S B
  ◌>>◌ m k s = let r = m s in continue r.0 (λ _. k) r.1

module _ {ℓ} {S : Type ℓ} where
  abbrev pub return : {A : Type ℓ} → A → Exec S A
  return a s = (ok a, s)

module _ {ℓ} {S A B : Type ℓ} where
  pub continue-ok :
      (r : Result A) (f : A → Exec S B) (s : S) (b : B)
      → (continue r f s).0 ≡ ok b
      → (a : A) × (r ≡ ok a) × (continue r f s ≡ f a s)
  continue-ok (ok a) f s b e = (a, refl, refl)
  continue-ok (err e) f s b h = absurd (cc)
