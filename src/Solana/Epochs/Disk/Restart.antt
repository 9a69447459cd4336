-- ===== src/Solana/Epochs/Disk/Restart.antt =====
-- solana_client.go: what a new process finds of the epoch cache of the one before.
use go_octopi.Base.{
  ℕ, ◌<◌, ◌≡◌, ◌≢◌, ◌∙◌, refl, Option, none, some, List, [], ◌∷◌, last?, String, length, arith, ◌⊎◌,
  inl, inr, Option-cases,
}
use go_octopi.Base.Fault.{Error, Result, ok, err, Result-cases}
use go_octopi.Base.Time.{Time}
use go_octopi.Solana.Epochs.{EpochCache, refresh_locked}
use go_octopi.Solana.Epochs.Disk.{
  Disk, EpochCacheSnapshot, temp_pattern, new_cache, snapshot_of, epoch_cache_file_path,
  persist_epoch_snapshot, persist_locked, load_from_disk, ensure_epoch_cache, refresh_persisted,
  closed, renamed,
}
use go_octopi.Solana.Epochs.Walk.{call_cases}
use go_octopi.Solana.Epochs.Window.{refresh_locked-Refreshed}
use go_octopi.Solana.Types.{EpochBoundary}
use go_octopi.Solana.Rpc.{Transport, State}
use go_octopi.Solana.Wire.{Codec}

last-length : (bs : List EpochBoundary) (b : EpochBoundary) → last? bs ≡ some b → 0 < length bs
last-length [] b h = absurd (ground arith)
last-length (c ∷ bs) b h = omega arith

-- What os and encoding/gob promise of the files.
pub record IsLawful (d : Disk) (path : String) : Type 0 where
  -- a new file has a name of the pattern, which the snapshot's file has not
  pub fresh :
      (f : d.Files) (tmp : String)
      → (d.create_temp (d.dir (epoch_cache_file_path d path)) temp_pattern f).0 ≡ ok tmp
      → epoch_cache_file_path d path ≢ tmp
  -- no other file changes
  pub creates :
      (f : d.Files) (dir tmp q : String)
      → (d.create_temp dir temp_pattern f).0 ≡ ok tmp
      → q ≢ tmp
      → d.open_file q (d.create_temp dir temp_pattern f).1 ≡ d.open_file q f
  pub create_fails :
      (f : d.Files) (dir q : String) (e : Error)
      → (d.create_temp dir temp_pattern f).0 ≡ err e
      → d.open_file q (d.create_temp dir temp_pattern f).1 ≡ d.open_file q f
  pub encodes :
      (f : d.Files) (x : EpochCacheSnapshot) (n q : String)
      → q ≢ n
      → d.open_file q (d.encode x n f).1 ≡ d.open_file q f
  -- what is encoded decodes
  pub encoded :
      (f : d.Files) (x : EpochCacheSnapshot) (n : String)
      → (d.encode x n f).0 ≡ none
      → (bytes : d.Bytes) × (d.open_file n (d.encode x n f).1 ≡ ok bytes) × (d.decode bytes ≡ ok x)
  pub closes : (f : d.Files) (n q : String) → d.open_file q (d.close n f).1 ≡ d.open_file q f
  pub removes :
      (f : d.Files) (n q : String) → q ≢ n → d.open_file q (d.remove n f) ≡ d.open_file q f
  pub renames :
      (f : d.Files) (a b : String)
      → (d.rename a b f).0 ≡ none
      → d.open_file b (d.rename a b f).1 ≡ d.open_file a f
  pub rename_fails :
      (f : d.Files) (a b q : String) (e : Error)
      → (d.rename a b f).0 ≡ some e
      → d.open_file q (d.rename a b f).1 ≡ d.open_file q f

module _ (d : Disk) (path : String) (law : IsLawful d path) where
  abbrev place : String
  place = epoch_cache_file_path d path

  abbrev file : d.Files → Result d.Bytes
  file f = d.open_file place f

  -- Either no error is logged and the temporary file took the place, or the file is as it was.
  abbrev Replaced : String → d.Files → Option Error × d.Files → Type 0
  Replaced tmp f r =
      ((r.0 ≡ none) × (file r.1 ≡ d.open_file tmp f))
      ⊎ ((e : Error) × (r.0 ≡ some e) × (file r.1 ≡ file f))

  renamed-Replaced :
      (f : d.Files) (tmp : String) (r : Option Error × d.Files)
      → place ≢ tmp
      → ((q : String) → d.open_file q r.1 ≡ d.open_file q f)
      → Replaced tmp f (renamed d path tmp r)
  renamed-Replaced f tmp (some e, g) new same =
      inr (e, refl, law.removes g tmp place new ∙ same place)
  renamed-Replaced f tmp (none, g) new same = elim (Option-cases (d.rename tmp place g).0) [
    | inl done ↦ rw (done, renamed) (inl (refl, law.renames g tmp place done ∙ same tmp))
    | inr (e, failed) ↦
        rw (failed, renamed)
          (inr (
            e,
            refl,
            law.removes (d.rename tmp place g).1 tmp place new
                ∙ law.rename_fails g tmp place place e failed
                ∙ same place,
          ))
  ]

  -- The temporary file holds the snapshot, or an error is logged and the file is as it was.
  closed-Replaced :
      (f : d.Files) (x : EpochCacheSnapshot) (tmp : String)
      → place ≢ tmp
      → ((bytes : d.Bytes) × ((closed d path tmp (d.encode x tmp f)).0 ≡ none)
          × (file (closed d path tmp (d.encode x tmp f)).1 ≡ ok bytes)
          × (d.decode bytes ≡ ok x))
        ⊎ ((e : Error) × ((closed d path tmp (d.encode x tmp f)).0 ≡ some e)
            × (file (closed d path tmp (d.encode x tmp f)).1 ≡ file f))
  closed-Replaced f x tmp new =
      let g = (d.encode x tmp f).1 in
      elim (Option-cases (d.encode x tmp f).0) [
        | inr (e, failed) ↦ rw failed (
            inr (
              e,
              refl,
              law.removes (d.close tmp g).1 tmp place new
                  ∙ law.closes g tmp place
                  ∙ law.encodes f x tmp place new,
            ))
        | inl written ↦
            let (bytes, there, reads) = law.encoded f x tmp written in
            elim (renamed-Replaced g tmp (d.close tmp g) new (law.closes g tmp)) [
              | inl (done, moved) ↦ rw written (inl (bytes, done, moved ∙ there, reads))
              | inr (e, failed, kept) ↦
                  rw written (inr (e, failed, kept ∙ law.encodes f x tmp place new))
            ]
      ]

  load_from_disk-ok :
      (c old : EpochCache) (f : d.Files) (bytes : d.Bytes)
      → 0 < length c.boundaries
      → file f ≡ ok bytes
      → d.decode bytes ≡ ok (snapshot_of c)
      → load_from_disk d path old f ≡ c
  unfolding load_from_disk
  load_from_disk-ok c old f bytes some_left there reads =
      rw (load_from_disk, there, reads) (ground arith)

  -- A cache with boundaries that is written without an error is what any later process loads; where an
  -- error is logged, the file holds what it held before.
  pub load_from_disk-persist_locked :
      (c old : EpochCache) (f : d.Files)
      → 0 < length c.boundaries
      → (((persist_locked d path c f).0 ≡ none)
          × (load_from_disk d path old (persist_locked d path c f).1 ≡ c))
        ⊎ ((e : Error) × ((persist_locked d path c f).0 ≡ some e)
            × (d.open_file (epoch_cache_file_path d path) (persist_locked d path c f).1
                ≡ d.open_file (epoch_cache_file_path d path) f))
  unfolding persist_locked persist_epoch_snapshot
  load_from_disk-persist_locked c old f some_left =
      let dir = d.dir place in
      let g = (d.create_temp dir temp_pattern f).1 in
      elim (Result-cases (d.create_temp dir temp_pattern f).0) [
        | inl (e, failed) ↦
            rw (failed, persist_locked, persist_epoch_snapshot)
              (inr (e, refl, law.create_fails f dir place e failed))
        | inr (tmp, made) ↦
            let new = law.fresh f tmp made in
            elim (closed-Replaced g (snapshot_of c) tmp new) [
              | inl (bytes, done, there, reads) ↦
                  rw (made, persist_locked, persist_epoch_snapshot)
                    (inl (done, load_from_disk-ok c old _ bytes some_left there reads))
              | inr (e, failed, kept) ↦
                  rw (made, persist_locked, persist_epoch_snapshot)
                    (inr (e, failed, kept ∙ law.creates f dir tmp place made new))
            ]
      ]

  module _ (net : Transport) (codec : Codec) (fuel : ℕ) where
    refresh-boundaries :
        (min_end : Time) (s s1 : State net) (c : EpochCache)
        → refresh_locked net codec fuel min_end s ≡ some (ok c, s1)
        → 0 < length c.boundaries
    refresh-boundaries min_end s s1 c done =
        let r = refresh_locked-Refreshed net codec fuel min_end s s1 c done in
        last-length c.boundaries r.last r.has_last

    -- What is refreshed and persisted has boundaries.
    pub filled :
        (min_end : Time) (s s1 : State net) (f f1 : d.Files) (c : EpochCache)
        → refresh_persisted d path net codec fuel min_end s f ≡ some (ok c, s1, f1)
        → 0 < length c.boundaries
    unfolding refresh_persisted
    filled min_end s s1 f f1 c h = elim (call_cases (refresh_locked net codec fuel min_end s)) [
      | inl stuck ↦ absurd (ground arith)
      | inr (inl (e, s2, failed)) ↦ absurd (ground arith)
      | inr (inr (c2, s2, done)) ↦
          let same : c2 ≡ c = ground arith in rw (← same) (refresh-boundaries min_end s s2 c2 done)
    ]

    -- After a refresh that succeeds, a process that starts on the files that it leaves has the
    -- refreshed cache, if writing it logged no error; if one was logged, the snapshot's file holds what
    -- it held before.
    pub ensure_epoch_cache-refresh_persisted :
        (min_end : Time) (s s1 : State net) (f f1 : d.Files) (c : EpochCache)
        → refresh_persisted d path net codec fuel min_end s f ≡ some (ok c, s1, f1)
        → (((persist_locked d path c f).0 ≡ none) × (ensure_epoch_cache d path none f1 ≡ c))
          ⊎ ((e : Error) × ((persist_locked d path c f).0 ≡ some e)
              × (d.open_file (epoch_cache_file_path d path) f1
                  ≡ d.open_file (epoch_cache_file_path d path) f))
    unfolding refresh_persisted ensure_epoch_cache
    ensure_epoch_cache-refresh_persisted min_end s s1 f f1 c h =
        elim (call_cases (refresh_locked net codec fuel min_end s)) [
          | inl stuck ↦ absurd (ground arith)
          | inr (inl (e, s2, failed)) ↦ absurd (ground arith)
          | inr (inr (c2, s2, done)) ↦
              let same : c2 ≡ c = ground arith in
              let left : (persist_locked d path c2 f).1 ≡ f1 = ground arith in
              rw (← left, ← same)
                (load_from_disk-persist_locked c2 new_cache f
                  (refresh-boundaries min_end s s2 c2 done))
        ]
