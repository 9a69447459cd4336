-- ===== src/Solana/Epochs/Returns.antt =====
-- solana_client.go: the epoch cache answers, where no request is retried as often as the fuel allows.
use mathlib.Core.Path.{subst}
use go_octopi.Base.{
  ℕ, zero, suc, ◌-◌, ◌*◌, ◌≡◌, refl, Bool, true, false, ◌||◌, Option, none, some, [], ◌∷◌, length,
  nat_eq, ltb, inl, inr, arith, Bool-cases,
}
use go_octopi.Base.Fault.{Result, ok, err, wrap, Result-cases}
use go_octopi.Base.Time.{Time, is_before, is_after, hour}
use go_octopi.Solana.Calls.{get_epoch_info, get_block_time}
use go_octopi.Solana.Calls.Returns.{
  Patient, Answered, Returns, bind-Answered, call-Returns, get_epoch_info-Returns,
}
use go_octopi.Solana.Epochs.{
  EpochCache, check_info, block_time_at, behind, boundary, walk, refreshed, refresh_locked,
  needs_refresh, get_boundaries, get_current_epoch_end, with_cache, now,
}
use go_octopi.Solana.Rpc.{Transport, State}
use go_octopi.Solana.Types.{EpochInfo}
use go_octopi.Solana.Wire.{Codec}

module _ (net : Transport) (codec : Codec) (fuel : ℕ) (patient : Patient net fuel) where
  block_time_at-Returns : (slot : ℕ) → Returns (block_time_at net codec fuel slot)
  unfolding block_time_at get_block_time
  block_time_at-Returns slot s =
      bind-Answered _ _ (call-Returns net codec fuel patient _ _ _ _ s) (λ r. (_, refl))

  walk-told :
      (slots : ℕ) (min_end : Time) (epoch slot : ℕ) (s : State net) (r : Result Time × State net)
      → ((e' : ℕ) (l : ℕ) → suc e' ≡ epoch → Returns (walk net codec fuel slots min_end e' l))
      → block_time_at net codec fuel slot s ≡ some r
      → Answered (walk net codec fuel slots min_end epoch slot s)
  unfolding walk
  walk-told slots min_end zero slot s (err e, t) below told = ((err e, t), rw (told, walk) refl)
  walk-told slots min_end zero slot s (ok time, t) below told =
      ((ok (boundary net codec fuel zero slot time ∷ []), t), rw (told, walk) refl)
  walk-told slots min_end (suc epoch) slot s (err e, t) below told =
      ((err e, t), rw (told, walk) refl)
  walk-told slots min_end (suc epoch) slot s (ok time, t) below told =
      let b = boundary net codec fuel (suc epoch) slot time in
      elim (Bool-cases (is_before time min_end || ltb slot slots)) [
        | inl stop ↦ ((ok (b ∷ []), t), rw (told, stop, walk) refl)
        | inr on ↦
            let (rest, walked) = below epoch (slot - slots) refl t in
            ((behind net codec fuel b rest.0, rest.1), rw (told, on, walked, walk) refl)
      ]

  walk-Returns :
      (slots : ℕ) (min_end : Time) (epoch slot : ℕ)
      → Returns (walk net codec fuel slots min_end epoch slot)
  walk-Returns slots min_end zero slot s =
      let (r, told) = block_time_at-Returns slot s in
      walk-told slots min_end zero slot s r (λ e' l same. absurd (omega arith)) told
  walk-Returns slots min_end (suc epoch) slot s =
      let (r, told) = block_time_at-Returns slot s in
      walk-told slots min_end (suc epoch) slot s r
        (λ e' l same.
          subst (λ n. Returns (walk net codec fuel slots min_end n l)) (omega arith)
            (walk-Returns slots min_end epoch l))
        told

  refresh-told :
      (min_end : Time) (s : State net) (r : Result EpochInfo × State net)
      → get_epoch_info net codec fuel s ≡ some r
      → Answered (refresh_locked net codec fuel min_end s)
  unfolding refresh_locked
  refresh-told min_end s (err e, s1) told =
      ((err (wrap "epoch info" e), s1), rw (told, refresh_locked) refl)
  refresh-told min_end s (ok info, s1) told = elim (Result-cases (check_info info)) [
    | inl (e, bad) ↦ ((err e, s1), rw (told, bad, refresh_locked) refl)
    | inr (u, fine) ↦
        let (r, walked) =
          walk-Returns info.slots_in_epoch min_end (info.epoch - 1)
            (info.absolute_slot - info.slot_index - 1) s1 in
        (refreshed net codec fuel info r, rw (told, fine, walked, refresh_locked) refl)
  ]

  pub refresh_locked-Returns : (min_end : Time) → Returns (refresh_locked net codec fuel min_end)
  refresh_locked-Returns min_end s =
      let (r, told) = get_epoch_info-Returns net codec fuel patient s in
      refresh-told min_end s r told

  with_cache-Answered :
      {A : Type 0} (read : EpochCache → A) (c : EpochCache)
      (o : Option (Result EpochCache × State net))
      → Answered o
      → Answered (with_cache net codec fuel read c o)
  with_cache-Answered read c none (r, e) = absurd (ground arith)
  with_cache-Answered read c (some (err e, s)) h = ((err e, c, s), refl)
  with_cache-Answered read c (some (ok c', s)) h = ((ok (read c'), c', s), refl)

  kept_or :
      (b : Bool) (o : Option (Result EpochCache × State net)) (c : EpochCache) (s : State net)
      → Answered o
      → Answered (elim b as (λ _. Option (Result EpochCache × State net)) [
        | true ↦ o
        | false ↦ some (ok c, s)
      ])
  kept_or true o c s h = h
  kept_or false o c s h = ((ok c, s), refl)

  -- Where every request settles after fewer retries than the fuel, the epoch cache answers whatever it
  -- holds, with boundaries or with an error: the refresh has an end.
  pub get_boundaries-Answered :
      (min_end : Time) (c : EpochCache) (s : State net)
      → Answered (get_boundaries net codec fuel min_end c s)
  unfolding get_boundaries
  get_boundaries-Answered min_end c s =
      with_cache-Answered _ c _
        (kept_or (needs_refresh min_end c (now net s)) _ c s (refresh_locked-Returns min_end s))

  pub get_current_epoch_end-Answered :
      (c : EpochCache) (s : State net) → Answered (get_current_epoch_end net codec fuel c s)
  unfolding get_current_epoch_end
  get_current_epoch_end-Answered c s = with_cache-Answered _ c _ (
      kept_or (nat_eq (length c.boundaries) 0 || is_after (now net s) c.expires_at) _ c s
        (refresh_locked-Returns (now net s - 35 * 24 * hour) s))
