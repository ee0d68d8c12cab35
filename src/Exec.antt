-- ===== src/Exec.antt =====
-- Methods that change a state and may raise. What was done before a raise stays done, so the state
-- comes back beside the error too.
pub mod Raises
use stiebel_eltron_heatpump.Prelude.{◌≡◌, refl}
use stiebel_eltron_heatpump.Errors.{Exn, Result, ok, err}

abbrev pub Exec {ℓ} : Type ℓ → Type ℓ → Type ℓ
Exec S A = S → Result A × S

module _ {ℓ} {S A : Type ℓ} where
  abbrev pub pure : A → Exec S A
  pure a s = (ok a, s)

  abbrev pub raise : Exn → Exec S A
  raise e s = (err e, s)

  -- A pure computation that may raise.
  abbrev pub lift : Result A → Exec S A
  lift r s = (r, s)

  -- The end of `try: … except Exception: return a`.
  abbrev pub or_else : A → Result A × S → Result A × S
  or_else a (ok b, s) = (ok b, s)
  or_else a (err _, s) = (ok a, s)

module _ {ℓ} {S A B : Type ℓ} where
  abbrev pub next : (A → Exec S B) → Result A × S → Result B × S
  next f (ok a, s) = f a s
  next f (err e, s) = (err e, s)

  infixl 5 ◌>>=◌ ◌>>◌
  abbrev pub ◌>>=◌ : Exec S A → (A → Exec S B) → Exec S B
  ◌>>=◌ m f s = next f (m s)

  abbrev pub ◌>>◌ : Exec S A → Exec S B → Exec S B
  m >> k = m >>= λ _. k

  -- To invert a chain of statements that ended without a raise.
  pub next-ok :
      (f : A → Exec S B) (p : Result A × S) {b : B} {last : S}
      → next f p ≡ (ok b, last)
      → (a : A) × (s : S) × (p ≡ (ok a, s)) × (f a s ≡ (ok b, last))
  next-ok f (ok a, s) h = (a, s, refl, h)
  next-ok f (err e, s) h = cc
