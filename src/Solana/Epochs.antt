-- ===== src/Solana/Epochs.antt =====
-- solana_client.go: `epochCache`, the boundaries of the epochs behind the current one. The snapshot on the
-- disk is in Solana/Epochs/Disk.
pub mod Walk
pub mod Window
pub mod Returns
pub mod Disk
use go_octopi.Base.{
  ℕ, zero, suc, ◌+◌, ◌-◌, ◌*◌, Bool, true, false, ◌||◌, not, ◌&&◌, Option, none, some, List, [],
  ◌∷◌, last?, keep, length, ltb, leb, nat_eq, if◌then◌else◌,
}
use go_octopi.Base.Fault.{
  Error, plain, plain_at, wrap, wrap_at, Result, ok, err, ◌>>◌, require, wrapping,
}
use go_octopi.Base.Int.{pos}
use go_octopi.Base.Time.{
  Time, is_before, is_after, is_zero_time, unix, add_duration, minute, hour, millisecond,
}
use go_octopi.Base.Word.{mul64}
use go_octopi.Solana.Calls.{get_epoch_info, get_block_time}
use go_octopi.Solana.Rpc.{Transport, State, Rpc, continue, lift}
use go_octopi.Solana.Types.{EpochBoundary, EpochInfo}
use go_octopi.Solana.Wire.{Codec}

pub record EpochCache : Type 0 where
  pub boundaries : List EpochBoundary
  pub expires_at : Time
  pub covered_from : Time

abbrev pub approx_slot_duration : ℕ
approx_slot_duration = 400 * millisecond

-- The checks at the head of `refreshLocked`.
unfoldable pub check_info : EpochInfo → Result (Unit {0})
check_info info = do
  require (ltb 0 info.slots_in_epoch) (plain "epoch info: slotsInEpoch is zero")
  require (leb info.slot_index info.slots_in_epoch)
      (plain_at "epoch info: slotIndex" info.slot_index "exceeds" info.slots_in_epoch)
  require (leb info.slot_index info.absolute_slot)
      (plain_at "epoch info: absoluteSlot" info.absolute_slot "less than slotIndex" info.slot_index)
  require (ltb 0 (info.absolute_slot - info.slot_index))
      (plain "epoch info: current epoch start slot is zero")
  require (ltb 0 info.epoch) (plain "epoch info: current epoch is zero")

-- `estimateEpochExpiry` at the time `now`.
unfoldable pub estimate_epoch_expiry : EpochInfo → Time → Time
estimate_epoch_expiry info now =
    if nat_eq info.slots_in_epoch 0 || leb info.slots_in_epoch info.slot_index
    then add_duration now (5 * minute)
    else add_duration now (mul64 (info.slots_in_epoch - info.slot_index) approx_slot_duration)

abbrev end_time_of : Option EpochBoundary → Time
end_time_of none = 0
end_time_of (some b) = b.end_time

-- `needsRefresh`
unfoldable pub needs_refresh : Time → EpochCache → Time → Bool
needs_refresh min_end c t =
    nat_eq (length c.boundaries) 0
    || is_after t c.expires_at
    || (not (is_zero_time c.covered_from) && is_before min_end c.covered_from)

abbrev pub in_window : Time → EpochBoundary → Bool
in_window min_end b = not (is_before b.end_time min_end)

-- time.Now(), whose UnixNano the client knows.
abbrev pub now : (net : Transport) → State net → Time
now net s = unix (pos 0) + net.unix_nano s.world

module _ (net : Transport) (codec : Codec) (fuel : ℕ) where
  abbrev pub wrap_block_time : ℕ → Result Time → Result Time
  wrap_block_time slot (ok t) = ok t
  wrap_block_time slot (err e) = err (wrap_at "block time slot" slot e)

  -- A call of `getBlockTime` in the loop of `refreshLocked`.
  unfoldable pub block_time_at : ℕ → Rpc net Time
  block_time_at slot s = elim (get_block_time net codec fuel slot s) [
    | none ↦ none
    | some r ↦ some (wrap_block_time slot r.0, r.1)
  ]

  abbrev pub boundary : ℕ → ℕ → Time → EpochBoundary
  boundary epoch slot t = record { epoch = epoch; end_slot = slot; end_time = t }

  abbrev pub behind : EpochBoundary → Result (List EpochBoundary) → Result (List EpochBoundary)
  behind b (ok bs) = ok (b ∷ bs)
  behind b (err e) = err e

  -- The loop of `refreshLocked`, from an epoch and its last slot on down: it ends at the first end
  -- before the window, at epoch 0, and where no whole epoch is left.
  unfoldable pub walk : ℕ → Time → ℕ → ℕ → Rpc net (List EpochBoundary)
  walk slots min_end zero slot s = elim (block_time_at slot s) [
    | none ↦ none
    | some (err e, s') ↦ some (err e, s')
    | some (ok t, s') ↦ some (ok (boundary zero slot t ∷ []), s')
  ]
  walk slots min_end (suc epoch) slot s = elim (block_time_at slot s) [
    | none ↦ none
    | some (err e, s') ↦ some (err e, s')
    | some (ok t, s') ↦ elim (is_before t min_end || ltb slot slots) [
      | true ↦ some (ok (boundary (suc epoch) slot t ∷ []), s')
      | false ↦ elim (walk slots min_end epoch (slot - slots) s') [
        | none ↦ none
        | some (rest, s'') ↦ some (behind (boundary (suc epoch) slot t) rest, s'')
      ]
    ]
  ]

  abbrev pub refreshed :
      EpochInfo → Result (List EpochBoundary) × State net → Result EpochCache × State net
  refreshed info (err e, s) = (err e, s)
  refreshed info (ok bs, s) = (
    ok (record {
      boundaries = bs;
      expires_at = estimate_epoch_expiry info (now net s);
      covered_from = end_time_of (last? bs);
    }),
    s,
  )

  -- `refreshLocked`: the new contents of the cache. An error leaves the old ones.
  unfoldable pub refresh_locked : Time → Rpc net EpochCache
  refresh_locked min_end s = elim (get_epoch_info net codec fuel s) [
    | none ↦ none
    | some (err e, s1) ↦ some (err (wrap "epoch info" e), s1)
    | some (ok info, s1) ↦ elim (check_info info) [
      | err e ↦ some (err e, s1)
      | ok checked ↦
          let start = info.absolute_slot - info.slot_index in
          elim (walk info.slots_in_epoch min_end (info.epoch - 1) (start - 1) s1) [
            | none ↦ none
            | some r ↦ some (refreshed info r)
          ]
    ]
  ]

  -- A result, the cache and the client behind it.
  abbrev pub Cached : Type 0 → Type 0
  Cached A = Option (Result A × EpochCache × State net)

  abbrev pub with_cache :
      {A : Type 0}
      → (EpochCache → A)
      → EpochCache
      → Option (Result EpochCache × State net)
      → Cached A
  with_cache read c none = none
  with_cache read c (some (err e, s)) = some (err e, c, s)
  with_cache read c (some (ok c', s)) = some (ok (read c'), c', s)

  -- getBoundaries
  unfoldable pub get_boundaries : Time → EpochCache → State net → Cached (List EpochBoundary)
  get_boundaries min_end c s =
      with_cache (λ c'. keep (in_window min_end) c'.boundaries) c
        (elim (needs_refresh min_end c (now net s)) [
          | true ↦ refresh_locked min_end s
          | false ↦ some (ok c, s)
        ])

  -- GetEpochBoundaries: a copy of the entries.
  unfoldable pub get_epoch_boundaries : Time → EpochCache → State net → Cached (List EpochBoundary)
  unfolding get_boundaries
  get_epoch_boundaries min_end c s = get_boundaries min_end c s

  -- `getCurrentEpochEnd`, and with it GetCurrentEpochEnd.
  unfoldable pub get_current_epoch_end : EpochCache → State net → Cached Time
  get_current_epoch_end c s =
      with_cache (λ c'. c'.expires_at) c
        (elim (nat_eq (length c.boundaries) 0 || is_after (now net s) c.expires_at) [
          | true ↦ refresh_locked (now net s - 35 * 24 * hour) s
          | false ↦ some (ok c, s)
        ])
