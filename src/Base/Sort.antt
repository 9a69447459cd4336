-- ===== src/Base/Sort.antt =====
-- `sort.Slice`, as a stable insertion sort. (Go leaves the order of equal elements open.)
pub mod First
use mathlib.Core.List.Perm
use mathlib.Core.List.{Perm}
use go_octopi.Base.Lists.{All}
use go_octopi.Base.Test.{if◌then◌else◌, Bool-cases}
use mathlib.Core.Path.{◌≡◌, refl, ap, ◌∙◌}
use mathlib.Core.Logic.{inl, inr}
use mathlib.Core.Bool.{Bool, true, false}
use mathlib.Core.List.{List, [], ◌∷◌}
use native.Mathlib.Omega.{arith}

module _ {ℓ} {A : Type ℓ} (less : A → A → Bool) where
  unfoldable pub insert_sorted : A → List A → List A
  insert_sorted x [] = x ∷ []
  insert_sorted x (y ∷ l) = let rest = insert_sorted x l in if less y x then y ∷ rest else x ∷ y ∷ l

  unfoldable pub sort : List A → List A
  unfolding insert_sorted
  sort [] = []
  sort (x ∷ l) = insert_sorted x (sort l)

  -- No element behind `x` should stand in front of it.
  abbrev pub Leads : A → List A → Type 0
  Leads x [] = Unit
  Leads x (y ∷ l) = (less y x ≡ false) × Leads x l

  abbrev pub Sorted : List A → Type 0
  Sorted [] = Unit
  Sorted (x ∷ l) = Leads x l × Sorted l

  insert_sorted-perm : (x : A) (l : List A) → Perm (insert_sorted x l) (x ∷ l)
  unfolding insert_sorted
  insert_sorted-perm x [] = Perm.refl (x ∷ [])
  insert_sorted-perm x (y ∷ l) = elim (Bool-cases (less y x)) [
    | inl below ↦ rw below (Perm.trans (Perm.cons y (insert_sorted-perm x l)) (Perm.swap x y l))
    | inr above ↦ rw above (Perm.refl (x ∷ y ∷ l))
  ]

  -- Sorting loses nothing and makes nothing up.
  pub sort-perm : (l : List A) → Perm (sort l) l
  unfolding sort
  sort-perm [] = Perm.refl []
  sort-perm (x ∷ l) = Perm.trans (insert_sorted-perm x (sort l)) (Perm.cons x (sort-perm l))

  module _ (asym : (x y : A) → less x y ≡ true → less y x ≡ false)
      (trans : (x y z : A) → less y x ≡ false → less z y ≡ false → less z x ≡ false) where
    Leads-trans : (x y : A) (l : List A) → less y x ≡ false → Leads y l → Leads x l
    Leads-trans x y [] h b = tt
    Leads-trans x y (z ∷ l) h b = (trans x y z h b.0, Leads-trans x y l h b.1)

    insert_sorted-Leads :
        (w x : A) (l : List A) → less x w ≡ false → Leads w l → Leads w (insert_sorted x l)
    unfolding insert_sorted
    insert_sorted-Leads w x [] h b = (h, tt)
    insert_sorted-Leads w x (y ∷ l) h b = ground (arith, insert_sorted-Leads w x l h b.1)

    insert_sorted-Sorted : (x : A) (l : List A) → Sorted l → Sorted (insert_sorted x l)
    unfolding insert_sorted
    insert_sorted-Sorted x [] s = (tt, tt)
    insert_sorted-Sorted x (y ∷ l) s = elim (Bool-cases (less y x)) [
      | inl below ↦
          rw below (insert_sorted-Leads y x l (asym y x below) s.0, insert_sorted-Sorted x l s.1)
      | inr above ↦ rw above ((above, Leads-trans x y l above s.0), s)
    ]

    pub sort-Sorted : (l : List A) → Sorted (sort l)
    unfolding sort
    sort-Sorted [] = tt
    sort-Sorted (x ∷ l) = insert_sorted-Sorted x (sort l) (sort-Sorted l)

  module _ {κ} (P : A → Type κ) where
    insert_sorted-All : (x : A) (l : List A) → P x → All P l → All P (insert_sorted x l)
    unfolding insert_sorted
    insert_sorted-All x [] p h = (p, tt)
    insert_sorted-All x (y ∷ l) p h = elim (Bool-cases (less y x)) [
      | inl below ↦ rw below (h.0, insert_sorted-All x l p h.1)
      | inr above ↦ rw above (p, h)
    ]

    -- What holds of all elements holds of all that are sorted.
    pub sort-All : (l : List A) → All P l → All P (sort l)
    unfolding sort
    sort-All [] h = tt
    sort-All (x ∷ l) h = insert_sorted-All x (sort l) h.0 (sort-All l h.1)

-- Two tests that agree on the elements sort them alike.
module _ {ℓ κ} {A : Type ℓ} (P : A → Type κ) (less other : A → A → Bool)
    (agree : (x y : A) → P x → P y → less x y ≡ other x y) where
  insert_sorted_cong :
      (x : A) (l : List A) → P x → All P l → insert_sorted less x l ≡ insert_sorted other x l
  unfolding insert_sorted
  insert_sorted_cong x [] p h = refl
  insert_sorted_cong x (y ∷ l) p h = rw (agree y x h.0 p, insert_sorted_cong x l p h.1) refl

  pub sort_cong : (l : List A) → All P l → sort less l ≡ sort other l
  unfolding sort
  sort_cong [] h = refl
  sort_cong (x ∷ l) h =
      ap (insert_sorted less x) (sort_cong l h.1)
      ∙ insert_sorted_cong x (sort other l) h.0 (sort-All other P l h.1)
