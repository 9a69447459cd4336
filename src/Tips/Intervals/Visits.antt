-- ===== src/Tips/Intervals/Visits.antt =====
-- jito_tips.go: the order in which `epochForSlot` visits the map of `buildEpochIntervals` does not
-- matter.
use mathlib.Core.List.{Perm, Permᴰ}
use mathlib.Core.Logic.{∥∥₁_elim}
use mathlib.Core.HLevel.{hedberg}
use native.Mathlib.Decide.{ℕ_discrete}
use go_octopi.Base.{
  ℕ, ◌≡◌, refl, sym, ◌∙◌, true, false, Option, List, [], ◌∷◌, Dict, arith, All, inl, inr,
  Bool-cases,
}
use go_octopi.Base.Sort.{sort}
use go_octopi.Solana.Types.{EpochBoundary}
use go_octopi.Tips.Intervals.{
  SlotInterval, by_epoch, fill_intervals, build_epoch_intervals, holds, epoch_for_slot,
}
use go_octopi.Tips.Intervals.Lookup.{
  owner, Increasing, Bounded, Disjoint, fill-added, found-owner, added-Disjoint,
}

true≢false : ¬ (true ≡ false)
true≢false h = cc

abbrev Entry : Type 0
Entry = ℕ × SlotInterval

module _ (slot : ℕ) where
  quiet-perm :
      {l m : Dict ℕ SlotInterval}
      → Permᴰ l m
      → All (λ (x : Entry). holds slot x ≡ false) l
      → All (λ (x : Entry). holds slot x ≡ false) m
  quiet-perm Permᴰ.nil h = tt
  quiet-perm (Permᴰ.cons e p) h = (rw (← e) h.0, quiet-perm p h.1)
  quiet-perm (Permᴰ.swap e f) h = (rw (← f) h.1.0, (rw (← e) h.0, h.1.1))
  quiet-perm (Permᴰ.trans p q) h = quiet-perm q (quiet-perm p h)

  never_both :
      (a b : Entry)
      → (holds slot a ≡ true → holds slot b ≡ false)
      → holds slot b ≡ true
      → holds slot a ≡ false
  never_both a b h hb = elim (Bool-cases (holds slot a)) [
    | inl ha ↦ absurd (true≢false (sym hb ∙ h ha))
    | inr na ↦ na
  ]

  Disjoint-swap :
      (a b : Entry) (l : Dict ℕ SlotInterval)
      → Disjoint slot (a ∷ b ∷ l)
      → Disjoint slot (b ∷ a ∷ l)
  Disjoint-swap a b l d =
      (λ hb. (never_both a b (λ ha. (d.0 ha).0) hb, d.1.0 hb), (λ ha. (d.0 ha).1, d.1.1))

  found-swap :
      (a b : Entry) (l : Dict ℕ SlotInterval)
      → Disjoint slot (a ∷ b ∷ l)
      → epoch_for_slot slot (a ∷ b ∷ l) ≡ epoch_for_slot slot (b ∷ a ∷ l)
  unfolding epoch_for_slot
  found-swap a b l d = elim (Bool-cases (holds slot a)) [
    | inl ha ↦ rw (ha, (d.0 ha).0)
    | inr na ↦ rw na
  ]

  Disjoint-perm : {l m : Dict ℕ SlotInterval} → Permᴰ l m → Disjoint slot l → Disjoint slot m
  Disjoint-perm Permᴰ.nil d = tt
  Disjoint-perm (Permᴰ.cons e p) d = (λ held. quiet-perm p (d.0 (rw e held)), Disjoint-perm p d.1)
  Disjoint-perm (Permᴰ.swap {a} {b} {a'} {b'} {l} e f) d = rw (← e, ← f) (Disjoint-swap a b l d)
  Disjoint-perm (Permᴰ.trans p q) d = Disjoint-perm q (Disjoint-perm p d)

  found-perm :
      {l m : Dict ℕ SlotInterval}
      → Permᴰ l m
      → Disjoint slot l
      → epoch_for_slot slot l ≡ epoch_for_slot slot m
  unfolding epoch_for_slot
  found-perm Permᴰ.nil d = refl
  found-perm (Permᴰ.cons e p) d = rw e (ground (arith, found-perm p d.1))
  found-perm (Permᴰ.swap {a} {b} {a'} {b'} {l} e f) d = rw (← e, ← f) (found-swap a b l d)
  found-perm (Permᴰ.trans p q) d = found-perm p d ∙ found-perm q (Disjoint-perm p d)

Option-ℕ-discrete : Discrete (Option ℕ)
Option-ℕ-discrete = hlevel ℕ_discrete

Increasing-Disjoint :
    (slot : ℕ) (bs : List EpochBoundary)
    → Increasing bs
    → Bounded bs
    → Disjoint slot (fill_intervals true 0 bs [])
      × (epoch_for_slot slot (fill_intervals true 0 bs []) ≡ owner slot bs)
unfolding fill_intervals epoch_for_slot owner
Increasing-Disjoint slot [] i k = (tt, refl)
Increasing-Disjoint slot (b ∷ bs) i k =
    rw (fill-added true 0 b bs [] i tt)
      (added-Disjoint slot true 0 b bs i k, found-owner slot true 0 b bs i (omega arith) k tt)

-- Where later epochs end at later slots below the largest uint64, `epochForSlot` on the map of
-- `buildEpochIntervals` finds, whatever the order of the iteration, the first epoch that ends at the
-- slot or behind it, and nothing exactly if every epoch ends before the slot.
pub epoch_for_slot-owner :
    (slot : ℕ) (bs : List EpochBoundary) (visited : Dict ℕ SlotInterval)
    → Increasing (sort by_epoch bs)
    → Bounded (sort by_epoch bs)
    → Perm (build_epoch_intervals bs) visited
    → epoch_for_slot slot visited ≡ owner slot (sort by_epoch bs)
unfolding build_epoch_intervals
epoch_for_slot-owner slot bs visited i k p =
    let (d, found) = Increasing-Disjoint slot (sort by_epoch bs) i k in
    ∥∥₁_elim p (hedberg Option-ℕ-discrete _ _) (λ q. sym (found-perm slot q d) ∙ found)
