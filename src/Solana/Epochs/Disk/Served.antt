-- ===== src/Solana/Epochs/Disk/Served.antt =====
-- solana_client.go: what a process that starts from the snapshot on the disk answers.
use go_octopi.Base.{
  ℕ, ◌<◌, ◌≤◌, ◌≡◌, refl, false, none, some, String, keep, length, arith, inl, inr,
}
use go_octopi.Base.Fault.{ok}
use go_octopi.Base.Time.{Time}
use go_octopi.Solana.Epochs.{EpochCache, needs_refresh, in_window, get_boundaries, now}
use go_octopi.Solana.Epochs.Disk.{Disk, persist_locked, ensure_epoch_cache, refresh_persisted}
use go_octopi.Solana.Epochs.Disk.Restart.{IsLawful, filled, ensure_epoch_cache-refresh_persisted}
use go_octopi.Solana.Rpc.{Transport, State}
use go_octopi.Solana.Wire.{Codec}

module _ (net : Transport) (codec : Codec) (fuel : ℕ) where
  -- The cache is filled, has not expired, and covers the window.
  covers-needs_refresh :
      (from t : Time) (c : EpochCache)
      → 0 < length c.boundaries
      → t ≤ c.expires_at
      → c.covered_from ≤ from
      → needs_refresh from c t ≡ false
  unfolding needs_refresh
  covers-needs_refresh from t c some_left soon covered = ground arith

  get_boundaries-covered :
      (from : Time) (c : EpochCache) (s : State net)
      → 0 < length c.boundaries
      → now net s ≤ c.expires_at
      → c.covered_from ≤ from
      → get_boundaries net codec fuel from c s
        ≡ some (ok (keep (in_window from) c.boundaries), c, s)
  unfolding get_boundaries
  get_boundaries-covered from c s some_left soon covered =
      rw (covers-needs_refresh from (now net s) c some_left soon covered, get_boundaries) refl

module _ (d : Disk) (path : String) (law : IsLawful d path) (net : Transport) (codec : Codec)
    (fuel : ℕ) where
  -- After a refresh that succeeds and is written without an error, a process that starts on the files
  -- answers, until the epoch cache expires, every window that it covers as the process before would:
  -- from the refreshed boundaries, and with no request.
  pub get_boundaries-ensure_epoch_cache :
      (min_end from : Time) (s s1 later : State net) (f f1 : d.Files) (c : EpochCache)
      → refresh_persisted d path net codec fuel min_end s f ≡ some (ok c, s1, f1)
      → (persist_locked d path c f).0 ≡ none
      → now net later ≤ c.expires_at
      → c.covered_from ≤ from
      → get_boundaries net codec fuel from (ensure_epoch_cache d path none f1) later
        ≡ some (ok (keep (in_window from) c.boundaries), c, later)
  get_boundaries-ensure_epoch_cache min_end from s s1 later f f1 c done written soon covered =
      elim (ensure_epoch_cache-refresh_persisted d path law net codec fuel min_end s s1 f f1 c
        done) [
          | inl (w, same) ↦ rw same (
              get_boundaries-covered net codec fuel from c later
                (filled d path law net codec fuel min_end s s1 f f1 c done) soon covered)
          | inr (e, failed, kept) ↦ absurd (ground arith)
        ]
