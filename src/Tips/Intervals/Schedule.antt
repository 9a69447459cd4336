-- ===== src/Tips/Intervals/Schedule.antt =====
-- solana_client.go and jito_tips.go: the slots of the epochs that `getBoundaries` returns.
use mathlib.Core.List.{Perm}
use go_octopi.Base.{
  ℕ, suc, ◌-◌, ◌+◌, ◌*◌, ◌<◌, ◌≤◌, ◌≡◌, ◌∙◌, refl, some, List, [], ◌∷◌, Dict, keep, In, All-map,
  arith, inl, inr, get_elem?,
}
use go_octopi.Base.Fault.{ok, Result-cases}
use go_octopi.Base.Time.{Time}
use go_octopi.Base.Word.{u64_mod}
use go_octopi.Solana.Calls.{get_epoch_info}
use go_octopi.Solana.Epochs.{EpochCache, check_info, refresh_locked, in_window}
use go_octopi.Solana.Rpc.{Transport, State}
use go_octopi.Solana.Wire.{Codec}
use go_octopi.Solana.Epochs.Window.{Numbered, refresh_locked-Refreshed}
use go_octopi.Solana.Types.{EpochBoundary, EpochInfo}
use go_octopi.Tips.Intervals.{SlotInterval, build_epoch_intervals, epoch_for_slot}
use go_octopi.Tips.Intervals.Visits.{epoch_for_slot-owner}
use go_octopi.Tips.Intervals.Places.{
  OnSchedule, Below, Scheduled, keep-All, keep-Falling, sort-Increasing, owner-sort,
  OnSchedule-Bounded,
}

-- The boundaries at the places from `i` on.
abbrev NumberedFrom : EpochInfo → ℕ → List EpochBoundary → Type 0
NumberedFrom info i bs =
    (j : ℕ) (b : EpochBoundary)
    → get_elem? bs j ≡ some b
    → (b.epoch + suc (i + j) ≡ info.epoch)
      × (b.end_slot + (i + j) * info.slots_in_epoch + suc info.slot_index ≡ info.absolute_slot)

NumberedFrom-Scheduled :
    (info : EpochInfo) (i : ℕ) (bs : List EpochBoundary)
    → NumberedFrom info i bs
    → Scheduled info bs × Below (info.epoch - i) bs
NumberedFrom-Scheduled info i [] h = ((tt, tt), tt)
NumberedFrom-Scheduled info i (b ∷ bs) h =
    let (p, q) = h 0 b refl in
    let ((o, f), below) =
      NumberedFrom-Scheduled info (suc i) bs
        (λ j c at. let (u, v) = h (suc j) c at in (omega arith, ground arith)) in
    let here : b.epoch ≡ info.epoch - suc i = omega arith in
    (
      (
        (record { back = i; epoch_at = omega arith; slot_at = ground arith }, o),
        (rw here below, f),
      ),
      (
        omega arith,
        All-map (λ c. c.epoch < info.epoch - suc i) (λ c. c.epoch < info.epoch - i) bs
            (λ c low. omega arith) below,
      ),
    )

Numbered-Scheduled :
    (info : EpochInfo) (bs : List EpochBoundary) → Numbered info bs → Scheduled info bs
Numbered-Scheduled info bs h =
    (NumberedFrom-Scheduled info 0 bs
      (λ j b at. let (u, v) = h j b at in (omega arith, ground arith))).0

check_info-slots :
    (info : EpochInfo) (u : Unit {0}) → check_info info ≡ ok u → 0 < info.slots_in_epoch
unfolding check_info
check_info-slots info u h = ground arith

module _ (net : Transport) (codec : Codec) (fuel : ℕ) where
  -- A refresh that succeeds has seen that an epoch has slots.
  some_slots :
      (min_end : Time) (info : EpochInfo) (s s1 s2 : State net) (c : EpochCache)
      → get_epoch_info net codec fuel s ≡ some (ok info, s1)
      → refresh_locked net codec fuel min_end s ≡ some (ok c, s2)
      → 0 < info.slots_in_epoch
  unfolding refresh_locked
  some_slots min_end info s s1 s2 c asked done = elim (Result-cases (check_info info)) [
    | inl (e, bad) ↦ absurd (ground arith)
    | inr (u, checked) ↦ check_info-slots info u checked
  ]

  -- Once the epoch cache is refreshed, the map that `buildEpochIntervals` makes of its boundaries in any
  -- window gives, in whatever order it is visited, each slot at most an epoch's slots before the last
  -- slot of one of them to the epoch of that one, if the current slot is a uint64.
  pub epoch_for_slot-refresh_locked :
      (info : EpochInfo) (min_end from : Time) (s s1 s2 : State net) (c : EpochCache)
      (b : EpochBoundary) (slot : ℕ) (visited : Dict ℕ SlotInterval)
      → get_epoch_info net codec fuel s ≡ some (ok info, s1)
      → info.absolute_slot < u64_mod
      → refresh_locked net codec fuel min_end s ≡ some (ok c, s2)
      → Perm (build_epoch_intervals (keep (in_window from) c.boundaries)) visited
      → In b (keep (in_window from) c.boundaries)
      → slot ≤ b.end_slot
      → b.end_slot < slot + info.slots_in_epoch
      → epoch_for_slot slot visited ≡ some b.epoch
  epoch_for_slot-refresh_locked info min_end from s s1 s2 c b slot visited asked w done p i h k =
      let has = some_slots min_end info s s1 s2 c asked done in
      let r = refresh_locked-Refreshed net codec fuel min_end s s2 c done in
      let same : r.info ≡ info = let a = r.asked in ground arith in
      let (o, f) = Numbered-Scheduled info c.boundaries (rw (← same) r.numbered) in
      let bs = keep (in_window from) c.boundaries in
      let kept = keep-All (OnSchedule info) (in_window from) c.boundaries o in
      let fall = keep-Falling (in_window from) c.boundaries f in
      epoch_for_slot-owner slot bs visited (sort-Increasing info has bs (kept, fall))
        (OnSchedule-Bounded info has bs w kept) p
      ∙ owner-sort info has slot b bs (kept, fall) i h k
