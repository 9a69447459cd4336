-- ===== src/Tips/Intervals/Lookup.antt =====
-- jito_tips.go: `epochForSlot` finds the epoch that owns a slot, in whatever order the map of
-- `buildEpochIntervals` is visited.
use mathlib.Core.List.{append_assoc}
use go_octopi.Base.{
  ℕ, ◌≤◌, ◌<◌, ◌≡◌, refl, ◌∙◌, ap, Bool, true, false, Option, none, some, List, [], ◌∷◌, ◌++◌, Dict,
  insert, leb, if◌then◌else◌, ℕ-Eq, arith, All, All-append,
}
use go_octopi.Base.Word.{u64_max, add64}
use go_octopi.Solana.Types.{EpochBoundary}
use go_octopi.Tips.Intervals.{SlotInterval, fill_intervals, holds, epoch_for_slot}

-- The specification: the first boundary, by epoch, that ends at the slot or behind it.
unfoldable pub owner : ℕ → List EpochBoundary → Option ℕ
owner slot [] = none
owner slot (b ∷ bs) = if leb slot b.end_slot then some b.epoch else owner slot bs

-- Later epochs end at later slots, all below the largest uint64.
abbrev pub Behind : EpochBoundary → List EpochBoundary → Type 0
Behind b [] = Unit
Behind b (c ∷ bs) = (b.epoch < c.epoch) × (b.end_slot < c.end_slot) × Behind c bs

abbrev pub Bounded : List EpochBoundary → Type 0
Bounded = All (λ b. b.end_slot < u64_max)

abbrev pub Increasing : List EpochBoundary → Type 0
Increasing [] = Unit
Increasing (b ∷ bs) = Behind b bs

abbrev pub entry : Bool → ℕ → EpochBoundary → SlotInterval
entry first last_end b = record { start = if first then 0 else add64 last_end 1; end = b.end_slot }

-- The entries that the loop adds.
pub added : Bool → ℕ → List EpochBoundary → Dict ℕ SlotInterval
added first last_end [] = []
added first last_end (b ∷ bs) = (b.epoch, entry first last_end b) ∷ added false b.end_slot bs

abbrev pub Under : ℕ → Dict ℕ SlotInterval → Type 0
Under n = All (λ (x : ℕ × SlotInterval). x.0 < n)

insert_new :
    (n : ℕ) (iv : SlotInterval) (m : Dict ℕ SlotInterval)
    → Under n m
    → insert n iv m ≡ m ++ (n, iv) ∷ []
unfolding insert
insert_new n iv [] u = refl
insert_new n iv ((k, v) ∷ m) u = ground (arith, insert_new n iv m u.1)

Under-mono : (n k : ℕ) (m : Dict ℕ SlotInterval) → n < k → Under n m → Under k m
Under-mono n k [] h u = tt
Under-mono n k (x ∷ m) h u = (omega arith, Under-mono n k m h u.1)

pub fill-added :
    (first : Bool) (last_end : ℕ) (b : EpochBoundary) (bs : List EpochBoundary)
    (m : Dict ℕ SlotInterval)
    → Behind b bs
    → Under b.epoch m
    → fill_intervals first last_end (b ∷ bs) m ≡ m ++ added first last_end (b ∷ bs)
unfolding fill_intervals added
fill-added first last_end b [] m h u = insert_new b.epoch (entry first last_end b) m u
fill-added first last_end b (c ∷ bs) m h u =
    ap (fill_intervals false b.end_slot (c ∷ bs)) (insert_new b.epoch (entry first last_end b) m u)
    ∙ fill-added false b.end_slot c bs (m ++ (b.epoch, entry first last_end b) ∷ []) h.2 (
        All-append (λ x. x.0 < c.epoch) m ((b.epoch, entry first last_end b) ∷ [])
          (Under-mono b.epoch c.epoch m h.0 u) (h.0, tt))
    ∙ append_assoc m ((b.epoch, entry first last_end b) ∷ []) (added false b.end_slot (c ∷ bs))

-- No entry behind holds a slot that lies before their end.
quiet :
    (slot last_end : ℕ) (b : EpochBoundary) (bs : List EpochBoundary)
    → slot ≤ last_end
    → b.end_slot ≡ last_end
    → Behind b bs
    → b.end_slot < u64_max
    → Bounded bs
    → All (λ x. holds slot x ≡ false) (added false last_end bs)
unfolding added
quiet slot last_end b [] h e i l k = tt
quiet slot last_end b (c ∷ bs) h e i l k =
    (ground arith, quiet slot c.end_slot c bs (omega arith) refl i.2 k.0 k.1)

-- Every earlier epoch ended before the slot.
abbrev pub Past : Bool → ℕ → ℕ → Type 0
Past true last_end slot = Unit
Past false last_end slot = last_end < slot

starts_before :
    (slot : ℕ) (first : Bool) (last_end : ℕ) (b : EpochBoundary)
    → last_end < u64_max
    → Past first last_end slot
    → leb (entry first last_end b).start slot ≡ true
starts_before slot true last_end b k p = ground arith
starts_before slot false last_end b k p = ground arith

pub found-owner :
    (slot : ℕ) (first : Bool) (last_end : ℕ) (b : EpochBoundary) (bs : List EpochBoundary)
    → Behind b bs
    → last_end < u64_max
    → Bounded (b ∷ bs)
    → Past first last_end slot
    → epoch_for_slot slot (added first last_end (b ∷ bs)) ≡ owner slot (b ∷ bs)
unfolding epoch_for_slot owner added
found-owner slot first last_end b [] h l k p =
    ground (arith, starts_before slot first last_end b l p)
found-owner slot first last_end b (c ∷ bs) h l k p = ground (
  arith,
  starts_before slot first last_end b l p,
  found-owner slot false b.end_slot c bs h.2 k.0 k.1,
)

-- No two entries hold the slot.
abbrev pub Disjoint : ℕ → Dict ℕ SlotInterval → Type 0
Disjoint slot [] = Unit
Disjoint slot (x ∷ m) = (holds slot x ≡ true → All (λ y. holds slot y ≡ false) m) × Disjoint slot m

pub added-Disjoint :
    (slot : ℕ) (first : Bool) (last_end : ℕ) (b : EpochBoundary) (bs : List EpochBoundary)
    → Behind b bs
    → Bounded (b ∷ bs)
    → Disjoint slot (added first last_end (b ∷ bs))
unfolding added
added-Disjoint slot first last_end b [] h k = (λ _. tt, tt)
added-Disjoint slot first last_end b (c ∷ bs) h k = (
  λ held. quiet slot b.end_slot b (c ∷ bs) (ground arith) refl h k.0 k.1,
  added-Disjoint slot false b.end_slot c bs h.2 k.1,
)
