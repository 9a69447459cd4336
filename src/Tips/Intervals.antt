-- ===== src/Tips/Intervals.antt =====
-- jito_tips.go: the slots of each epoch, `buildEpochIntervals` and `epochForSlot`, and the lowest
-- slot that matters, of `collectJitoTipsWindow`.
pub mod Lookup
pub mod Visits
pub mod Lowest
pub mod Places
pub mod Schedule
use go_octopi.Base.{
  ℕ, ◌+◌, Bool, true, false, ◌&&◌, Option, none, some, List, [], ◌∷◌, Dict, insert, lookup, ltb,
  leb, if◌then◌else◌, ◌==◌, ℕ-Eq, nat_eq,
}
use go_octopi.Base.Sort.{sort, insert_sorted}
use go_octopi.Base.Word.{add64, u64_max}
use go_octopi.Solana.Types.{EpochBoundary}

pub record SlotInterval : Type 0 where
  pub start : ℕ
  pub end : ℕ

-- The order of the `sort.Slice` call.
abbrev pub by_epoch : EpochBoundary → EpochBoundary → Bool
by_epoch a b = ltb a.epoch b.epoch

-- The loop over the sorted boundaries; `first` is `i == 0`.
unfoldable pub fill_intervals :
    Bool → ℕ → List EpochBoundary → Dict ℕ SlotInterval → Dict ℕ SlotInterval
unfolding insert
fill_intervals first last_end [] m = m
fill_intervals first last_end (b ∷ bs) m =
    fill_intervals false b.end_slot bs (
      insert b.epoch (record { start = if first then 0 else add64 last_end 1; end = b.end_slot }) m)

unfoldable pub build_epoch_intervals : List EpochBoundary → Dict ℕ SlotInterval
unfolding fill_intervals sort
build_epoch_intervals boundaries = fill_intervals true 0 (sort by_epoch boundaries) []

abbrev pub holds : ℕ → ℕ × SlotInterval → Bool
holds slot (epoch, iv) = leb iv.start slot && leb slot iv.end

-- `epochForSlot`, over the map's entries in the order of the iteration.
unfoldable pub epoch_for_slot : ℕ → Dict ℕ SlotInterval → Option ℕ
epoch_for_slot slot [] = none
epoch_for_slot slot ((epoch, iv) ∷ m) =
    if holds slot (epoch, iv) then some epoch else epoch_for_slot slot m

-- The loop of `collectJitoTipsWindow` over the allowed epochs.
unfoldable pub lowest_start : List ℕ → Dict ℕ SlotInterval → ℕ → ℕ
unfolding lookup
lowest_start [] m low = low
lowest_start (e ∷ es) m low =
    lowest_start es m
      (elim (lookup e m) [ none ↦ low | some iv ↦ if ltb iv.start low then iv.start else low ])

unfoldable pub min_allowed_slot : List ℕ → Dict ℕ SlotInterval → ℕ
unfolding lowest_start
min_allowed_slot epochs m =
    let low = lowest_start epochs m u64_max in if nat_eq low u64_max then 0 else low
