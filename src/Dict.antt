-- ===== src/Dict.antt =====
-- Python's `dict` with texts as keys: an update keeps a key's place, a new key goes to the end.
use stiebel_eltron_heatpump.Prelude.{
  ◌∙◌, ℕ, List, [], ◌∷◌, Option, none, some, list_eq, list_eq_iff, if◌then◌else◌, ◌≡◌, ◌∙◌, refl,
  arith,
}

abbrev pub Dict {ℓ} : Type ℓ → Type ℓ
Dict V = List (List ℕ × V)

module _ {ℓ} {V : Type ℓ} where
  -- `d.get(key)`
  unfoldable pub lookup : List ℕ → Dict V → Option V
  lookup key [] = none
  lookup key ((k, v) ∷ d) = if list_eq k key then some v else lookup key d

  -- `d[key] = value`
  unfoldable pub insert : List ℕ → V → Dict V → Dict V
  insert key v [] = (key, v) ∷ []
  insert key v ((k, w) ∷ d) = if list_eq k key then (k, v) ∷ d else (k, w) ∷ insert key v d

  -- `d.update(e)`
  unfoldable pub update : Dict V → Dict V → Dict V
  unfolding insert
  update d [] = d
  update d ((k, v) ∷ e) = update (insert k v d) e

  pub lookup-insert :
      (key j : List ℕ) (v : V) (d : Dict V)
      → lookup j (insert key v d) ≡ (if list_eq key j then some v else lookup j d)
  unfolding lookup insert
  lookup-insert key j v [] = ground arith
  lookup-insert key j v ((k, w) ∷ d) =
      ground (arith, lookup-insert key j v d, list_eq_iff k key, list_eq_iff k j, list_eq_iff key j)

  pub lookup-insert_self :
      (key : List ℕ) (v : V) (d : Dict V) → lookup key (insert key v d) ≡ some v
  lookup-insert_self key v d = lookup-insert key key v d ∙ rw ((list_eq_iff key key).1 refl)
