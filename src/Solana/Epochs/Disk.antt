-- ===== src/Solana/Epochs/Disk.antt =====
-- solana_client.go: the snapshot of the epoch cache on the disk, which a new process starts from.
pub mod Restart
pub mod Served
use go_octopi.Base.{
  ℕ, Option, none, some, List, [], String, length, nat_eq, if◌then◌else◌, ◌==◌, String-Eq,
}
use go_octopi.Base.Fault.{Error, Result, ok, err}
use go_octopi.Base.Time.{Time}
use go_octopi.Solana.Epochs.{EpochCache, refresh_locked}
use go_octopi.Solana.Rpc.{Transport, State}
use go_octopi.Solana.Types.{EpochBoundary}
use go_octopi.Solana.Wire.{Codec}

pub record EpochCacheSnapshot : Type 0 where
  pub boundaries : List EpochBoundary
  pub expires_at : Time
  pub covered_from : Time

-- What the cache uses of os, path/filepath and encoding/gob, over the state of the file system.
pub record Disk : Type 1 where
  pub Files : Type 0
  pub Bytes : Type 0
  -- os.Executable
  pub executable : Result String
  -- filepath.Dir
  pub dir : String → String
  -- filepath.Join
  pub join : String → String → String
  -- os.Open: the bytes that the file holds
  pub open_file : String → Files → Result Bytes
  -- os.CreateTemp in a directory with a pattern: the name of the new file
  pub create_temp : String → String → Files → Result String × Files
  -- Encode of a gob.Encoder on the file
  pub encode : EpochCacheSnapshot → String → Files → Option Error × Files
  -- Decode of a gob.Decoder
  pub decode : Bytes → Result EpochCacheSnapshot
  -- Close of the file
  pub close : String → Files → Option Error × Files
  -- os.Remove, whose error is dropped
  pub remove : String → Files → Files
  -- os.Rename
  pub rename : String → String → Files → Option Error × Files

abbrev pub epoch_cache_filename : String
epoch_cache_filename = "sol-epochs.gob"

abbrev pub temp_pattern : String
temp_pattern = "sol-epochs-*.tmp"

-- An `epochCache` that holds nothing yet.
abbrev pub new_cache : EpochCache
new_cache = record { boundaries = []; expires_at = 0; covered_from = 0 }

abbrev pub snapshot_of : EpochCache → EpochCacheSnapshot
snapshot_of c = record {
  boundaries = c.boundaries;
  expires_at = c.expires_at;
  covered_from = c.covered_from;
}

abbrev pub cache_of : EpochCacheSnapshot → EpochCache
cache_of x = record {
  boundaries = x.boundaries;
  expires_at = x.expires_at;
  covered_from = x.covered_from;
}

-- `path` is the variable `epochCachePath`.
module _ (d : Disk) (path : String) where
  unfoldable pub epoch_cache_file_path : String
  epoch_cache_file_path =
      if path == ""
      then elim d.executable [
        | err e ↦ epoch_cache_filename
        | ok exe ↦ d.join (d.dir exe) epoch_cache_filename
      ]
      else path

  -- After `Close`: the rename, or the removal of the file where the close failed.
  abbrev pub renamed : String → Option Error × d.Files → Option Error × d.Files
  renamed tmp (some e, f) = (some e, d.remove tmp f)
  renamed tmp (none, f) =
      let r = d.rename tmp epoch_cache_file_path f in
      elim r.0 [ some e ↦ (some e, d.remove tmp r.1) | none ↦ (none, r.1) ]

  -- After `Encode`
  abbrev pub closed : String → Option Error × d.Files → Option Error × d.Files
  closed tmp (some e, f) = (some e, d.remove tmp (d.close tmp f).1)
  closed tmp (none, f) = renamed tmp (d.close tmp f)

  -- `persistEpochSnapshot`, with the error that it logs.
  unfoldable pub persist_epoch_snapshot : EpochCacheSnapshot → d.Files → Option Error × d.Files
  persist_epoch_snapshot x f =
      let r = d.create_temp (d.dir epoch_cache_file_path) temp_pattern f in
      elim r.0 [ err e ↦ (some e, r.1) | ok tmp ↦ closed tmp (d.encode x tmp r.1) ]

  -- `persistLocked`
  unfoldable pub persist_locked : EpochCache → d.Files → Option Error × d.Files
  persist_locked c f = persist_epoch_snapshot (snapshot_of c) f

  -- `loadFromDisk`: a file that cannot be read, or that holds no boundary, leaves the cache as it is.
  unfoldable pub load_from_disk : EpochCache → d.Files → EpochCache
  load_from_disk c f = elim (d.open_file epoch_cache_file_path f) [
    | err e ↦ c
    | ok bytes ↦ elim (d.decode bytes) [
      | err e ↦ c
      | ok x ↦ if nat_eq (length x.boundaries) 0 then c else cache_of x
    ]
  ]

  -- `ensureEpochCache`
  unfoldable pub ensure_epoch_cache : Option EpochCache → d.Files → EpochCache
  ensure_epoch_cache (some c) f = c
  ensure_epoch_cache none f = load_from_disk new_cache f

  -- `refreshLocked` with the disk: what it puts in the cache, it also persists.
  unfoldable pub refresh_persisted :
      (net : Transport)
      → Codec
      → ℕ
      → Time
      → State net
      → d.Files
      → Option (Result EpochCache × State net × d.Files)
  refresh_persisted net codec fuel min_end s f = elim (refresh_locked net codec fuel min_end s) [
    | none ↦ none
    | some (err e, s1) ↦ some (err e, s1, f)
    | some (ok c, s1) ↦ some (ok c, s1, (persist_locked c f).1)
  ]
