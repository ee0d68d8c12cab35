-- ===== src/Exec/Raises.antt =====
-- Outcomes whose exception, if they have one, is of a class, how a chain keeps this, and the
-- class of those that tell that the conversation with the device failed.
use stiebel_eltron_heatpump.Prelude.{
  ◌≡◌, refl, sym, ap, subst, ◌∙◌, Bool, true, false, if◌then◌else◌,
}
use stiebel_eltron_heatpump.Errors.{Exn, Result, ok, err, protocol_error, invalid_data, ◌>>=◌}
use stiebel_eltron_heatpump.Exec.{Exec, next}

-- A ProtocolError other than WriteNotConfirmed.
unfoldable pub is_link_error : Exn → Bool
is_link_error (protocol_error _) = true
is_link_error invalid_data = true
is_link_error _ = false

-- Whether the exception is one of a class that a test decides.
module _ (test : Exn → Bool) where
  abbrev pub Only {ℓ} : {A : Type ℓ} → Result A → Type ℓ
  Only {A = A} r = (e : Exn) → r ≡ err e → test e ≡ true

  pub Only-err {ℓ} : {A : Type ℓ} (x : Exn) → test x ≡ true → Only {A = A} (err x)
  Only-err x p e h = let same : x ≡ e = cc in ap test (sym same) ∙ p

  pub Only-bind {ℓ κ} :
      {A : Type ℓ} {B : Type κ} (r : Result A) (f : A → Result B)
      → Only r
      → ((a : A) → r ≡ ok a → Only (f a))
      → Only (r >>= f)
  Only-bind (ok a) f h k = k a refl
  Only-bind (err x) f h k = λ e eq. h e (cc)

  pub Only-if {ℓ} :
      {A : Type ℓ} (b : Bool) (x y : Result A) → Only x → Only y → Only (if b then x else y)
  Only-if true x y h k = h
  Only-if false x y h k = k

  pub Only-next {ℓ} :
      {S A B : Type ℓ} (f : A → Exec S B) (p : Result A × S)
      → Only p.0
      → ((a : A) (s : S) → p ≡ (ok a, s) → Only (f a s).0)
      → Only (next f p).0
  Only-next f (ok a, s) h k = k a s refl
  Only-next f (err x, s) h k = λ e eq. h e (cc)

-- Whether the exception has a property.
module _ {μ} (P : Exn → Type μ) where
  abbrev pub Within {ℓ} : {A : Type ℓ} → Result A → Type (ℓ ⊔ μ)
  Within r = (e : Exn) → r ≡ err e → P e

  pub Within-ok {ℓ} : {A : Type ℓ} (a : A) → Within (ok a)
  Within-ok a e h = cc

  pub Within-err {ℓ} : {A : Type ℓ} (x : Exn) → P x → Within {A = A} (err x)
  Within-err x p e h = let same : x ≡ e = cc in subst P same p

  pub Within-next {ℓ} :
      {S A B : Type ℓ} (f : A → Exec S B) (p : Result A × S)
      → Within p.0
      → ((a : A) (s : S) → p ≡ (ok a, s) → Within (f a s).0)
      → Within (next f p).0
  Within-next f (ok a, s) h k = k a s refl
  Within-next f (err x, s) h k = λ e eq. h e (cc)
