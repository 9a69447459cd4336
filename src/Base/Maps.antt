-- ===== src/Base/Maps.antt =====
-- Go's maps as association lists with one entry for each key. A loop over a map visits the
-- entries in the list's order; Go's own order is arbitrary.
use mathlib.Core.Path.{◌≡◌, refl}
use mathlib.Core.List.{List, [], ◌∷◌}
use mathlib.Core.Option.{Option, none, some}
use native.Mathlib.Omega.{arith}
use go_octopi.Base.Test.{Eq, ◌==◌, if◌then◌else◌}

abbrev pub Dict {κ ℓ} : Type κ → Type ℓ → Type (κ ⊔ ℓ)
Dict K V = List (K × V)

module _ {κ ℓ} {K : Type κ} {V : Type ℓ} ⦃e : Eq K⦄ where
  unfoldable pub lookup : K → Dict K V → Option V
  lookup key [] = none
  lookup key ((other, old) ∷ rest) = if other == key then some old else lookup key rest

  -- m[key] = value
  unfoldable pub insert : K → V → Dict K V → Dict K V
  insert key value [] = (key, value) ∷ []
  insert key value ((other, old) ∷ rest) =
      if other == key then (key, value) ∷ rest else (other, old) ∷ insert key value rest

  -- delete(m, key)
  unfoldable pub delete : K → Dict K V → Dict K V
  delete key [] = []
  delete key ((other, old) ∷ m) =
      let rest = delete key m in if other == key then rest else (other, old) ∷ rest

  pub lookup-insert :
      (put asked : K) (value : V) (m : Dict K V)
      → lookup asked (insert put value m) ≡ (if put == asked then some value else lookup asked m)
  unfolding lookup insert
  lookup-insert put asked value [] = refl
  lookup-insert put asked value ((other, old) ∷ m) = ground (
    arith,
    lookup-insert put asked value m,
    e.matches_iff put asked,
    e.matches_iff other put,
    e.matches_iff other asked,
  )

  pub lookup-delete :
      (k j : K) (m : Dict K V) → lookup j (delete k m) ≡ (if k == j then none else lookup j m)
  unfolding lookup delete
  lookup-delete k j [] = ground arith
  lookup-delete k j ((i, w) ∷ m) =
      ground (arith, lookup-delete k j m, e.matches_iff k j, e.matches_iff i k, e.matches_iff i j)
