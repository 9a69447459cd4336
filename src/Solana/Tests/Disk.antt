-- ===== src/Solana/Tests/Disk.antt =====
-- solana_client.go: the epoch cache of a process that starts after another one.
use go_octopi.Base.{
  ◌≤◌, keep, ◌≡◌, ◌≢◌, refl, ap, eq_iff, lookup-insert, lookup-delete, Option, none, some, String,
  [], Dict, insert, lookup, delete, arith, ◌⊎◌, String-Eq,
}
use go_octopi.Base.Fault.{Error, plain, Result, ok, err}
use go_octopi.Base.Time.{unix}
use go_octopi.Solana.Epochs.{in_window, get_boundaries, now}
use go_octopi.Solana.Epochs.Disk.Served.{get_boundaries-ensure_epoch_cache}
use go_octopi.Solana.Epochs.Disk.{
  Disk, EpochCacheSnapshot, epoch_cache_file_path, persist_epoch_snapshot, persist_locked,
  ensure_epoch_cache, refresh_persisted,
}
use go_octopi.Solana.Epochs.Disk.Restart.{IsLawful, ensure_epoch_cache-refresh_persisted}
use go_octopi.Solana.Tests.Epochs.{net, codec, window, start, after, filled, refreshes}

-- Files by their names; a new file holds nothing.
abbrev bytes_of : Option (Option EpochCacheSnapshot) → Result (Option EpochCacheSnapshot)
bytes_of none = err (plain "no such file")
bytes_of (some b) = ok b

abbrev snapshot : Option EpochCacheSnapshot → Result EpochCacheSnapshot
snapshot none = err (plain "EOF")
snapshot (some x) = ok x

abbrev moved :
    Option (Option EpochCacheSnapshot)
    → String
    → String
    → Dict String (Option EpochCacheSnapshot)
    → Option Error × Dict String (Option EpochCacheSnapshot)
moved none a b f = (some (plain "no such file"), f)
moved (some x) a b f = (none, insert b x f)

abbrev temp : String
temp = "sol-epochs-1.tmp"

abbrev disk : Disk
disk = record {
  Files = Dict String (Option EpochCacheSnapshot);
  Bytes = Option EpochCacheSnapshot;
  executable = ok "/bin/octopi";
  dir = λ p. "/bin";
  join = λ a b. b;
  open_file = λ p f. bytes_of (lookup p f);
  create_temp = λ dir pattern f. (ok temp, insert temp none f);
  encode = λ x p f. (none, insert p (some x) f);
  decode = snapshot;
  close = λ p f. (none, f);
  remove = λ p f. delete p f;
  rename = λ a b f. moved (lookup a f) a b f;
}

abbrev Files : Type 0
Files = Dict String (Option EpochCacheSnapshot)

insert_same :
    (b : String) (v : Option EpochCacheSnapshot) (f : Files) → lookup b (insert b v f) ≡ some v
insert_same b v f = ground (arith, lookup-insert b b v f, eq_iff b b)

insert_other :
    (q b : String) (v : Option EpochCacheSnapshot) (f : Files)
    → q ≢ b
    → lookup q (insert b v f) ≡ lookup q f
insert_other q b v f new = ground (arith, lookup-insert b q v f, eq_iff b q)

delete_other : (q b : String) (f : Files) → q ≢ b → lookup q (delete b f) ≡ lookup q f
delete_other q b f new = ground (arith, lookup-delete b q f, eq_iff b q)

moves :
    (o : Option (Option EpochCacheSnapshot)) (f : Files) (a b : String)
    → (moved o a b f).0 ≡ none
    → lookup b (moved o a b f).1 ≡ o
moves none f a b h = absurd (ground arith)
moves (some x) f a b h = insert_same b x f

move_fails :
    (o : Option (Option EpochCacheSnapshot)) (f : Files) (a b : String) (e : Error)
    → (moved o a b f).0 ≡ some e
    → (moved o a b f).1 ≡ f
move_fails none f a b e h = refl
move_fails (some x) f a b e h = absurd (ground arith)

abbrev path : String
path = "sol-epochs.gob"

named : epoch_cache_file_path disk path ≡ path
unfolding epoch_cache_file_path
named = refl

other : path ≢ temp
other h = ground (arith, eq_iff path temp)

disk-IsLawful : IsLawful disk path
disk-IsLawful = record {
  fresh = λ f tmp made. let same : temp ≡ tmp = ground arith in rw (named, ← same) other;
  creates = λ f dir tmp q made new.
      let same : temp ≡ tmp = ground arith in
      ap bytes_of (insert_other q temp none f (rw same new));
  create_fails = λ f dir q e failed. absurd (ground arith);
  encodes = λ f x n q new. ap bytes_of (insert_other q n (some x) f new);
  encoded = λ f x n written. (some x, ap bytes_of (insert_same n (some x) f), refl);
  closes = λ f n q. refl;
  removes = λ f n q new. ap bytes_of (delete_other q n f new);
  renames = λ f a b done. ap bytes_of (moves (lookup a f) f a b done);
  rename_fails =
      λ f a b q e failed. ap (λ g. bytes_of (lookup q g)) (move_fails (lookup a f) f a b e failed);
}

persisted :
    refresh_persisted disk path net codec 1 window start []
    ≡ some (ok filled, after, (persist_locked disk path filled []).1)
unfolding refresh_persisted
persisted = rw (refreshes, refresh_persisted) refl

ensure_epoch_cache-refresh_persisted_example :
    (((persist_locked disk path filled []).0 ≡ none)
      × (ensure_epoch_cache disk path none (persist_locked disk path filled []).1 ≡ filled))
    ⊎ ((e : Error) × ((persist_locked disk path filled []).0 ≡ some e)
        × (disk.open_file (epoch_cache_file_path disk path) (persist_locked disk path filled []).1
            ≡ disk.open_file (epoch_cache_file_path disk path) []))
ensure_epoch_cache-refresh_persisted_example =
    ensure_epoch_cache-refresh_persisted disk path disk-IsLawful net codec 1 window start after []
      (persist_locked disk path filled []).1 filled persisted

written : (persist_locked disk path filled []).0 ≡ none
unfolding persist_locked persist_epoch_snapshot epoch_cache_file_path lookup insert
written = refl

in_time : now net after ≤ filled.expires_at
unfolding unix
in_time = omega arith

get_boundaries-ensure_epoch_cache_example :
    get_boundaries net codec 1 window
      (ensure_epoch_cache disk path none (persist_locked disk path filled []).1)
      after
    ≡ some (ok (keep (in_window window) filled.boundaries), filled, after)
get_boundaries-ensure_epoch_cache_example =
    get_boundaries-ensure_epoch_cache disk path disk-IsLawful net codec 1 window window start after
      after [] (persist_locked disk path filled []).1 filled persisted written in_time (omega arith)
