-- ===== src/Base/Sort/First.antt =====
-- `sort.Slice`: what comes first.
use mathlib.Core.Path.{◌≡◌, refl}
use mathlib.Core.Logic.{◌⊎◌, inl, inr}
use mathlib.Core.Bool.{Bool, true, false}
use mathlib.Core.List.{List, [], ◌∷◌}
use mathlib.Core.Option.{some}
use Prim.Native.Nat.{zero, suc}
use native.Mathlib.Omega.{arith}
use go_octopi.Base.Int.{ℤ, pos, negsuc, is_pos, to_ℕ}
use go_octopi.Base.Lists.{In, All, take, get_elem?}
use go_octopi.Base.Sort.{sort, insert_sorted, sort-All}

-- Sorting puts an element first that stands before all others.
module _ {A : Type 0} (less : A → A → Bool) (x : A) (irreflexive : less x x ≡ false) where
  abbrev pub Below : A → Type 0
  Below y = (y ≡ x) ⊎ ((less x y ≡ true) × (less y x ≡ false))

  Below-less : (y : A) → Below y → less y x ≡ false
  Below-less y (inl same) = rw same irreflexive
  Below-less y (inr (p, q)) = q

  insert_sorted-first : (l : List A) → All Below l → insert_sorted less x l ≡ x ∷ l
  unfolding insert_sorted
  insert_sorted-first [] h = refl
  insert_sorted-first (y ∷ l) h = rw (Below-less y h.0) refl

  insert_sorted-second :
      (y : A) (l : List A) → Below y → (rest : List A) × (insert_sorted less y (x ∷ l) ≡ x ∷ rest)
  unfolding insert_sorted
  insert_sorted-second y l (inl same) = (x ∷ l, rw (same, irreflexive) refl)
  insert_sorted-second y l (inr (p, q)) = (insert_sorted less y l, rw p refl)

  pub sort-first : (l : List A) → In x l → All Below l → (rest : List A) × (sort less l ≡ x ∷ rest)
  unfolding sort
  sort-first [] i h = absurd i
  sort-first (y ∷ l) (inl same) h =
      (sort less l, rw (← same) (insert_sorted-first (sort less l) (sort-All less Below l h.1)))
  sort-first (y ∷ l) (inr i) h =
      let (rest, e) = sort-first l i h.1 in rw e (insert_sorted-second y rest h.0)

pub take-first :
    {A : Type 0} (limit : ℤ) (x : A) (rest : List A)
    → is_pos limit ≡ true
    → get_elem? (take (to_ℕ limit) (x ∷ rest)) 0 ≡ some x
take-first (pos zero) x rest h = absurd (ground arith)
take-first (pos (suc n)) x rest h = refl
take-first (negsuc n) x rest h = absurd (ground arith)
