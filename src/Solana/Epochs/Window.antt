-- ===== src/Solana/Epochs/Window.antt =====
-- solana_client.go: what `getBoundaries` returns for a window of time.
use go_octopi.Base.{
  ℕ, suc, ◌+◌, ◌-◌, ◌*◌, ◌<◌, ◌≤◌, ◌≡◌, ◌≢◌, sym, Bool, true, false, some, List, [], ◌∷◌, last?,
  keep, In, arith, inl, inr, ◌⊎◌, ◌↔◌, get_elem?, Bool-cases,
}
use go_octopi.Base.Fault.{Error, ok, err, Result-cases}
use go_octopi.Base.Time.{Time}
use go_octopi.Solana.Calls.{get_epoch_info}
use go_octopi.Solana.Epochs.{
  end_time_of, EpochCache, check_info, walk, refresh_locked, needs_refresh, in_window,
  get_boundaries, now,
}
use go_octopi.Solana.Epochs.Walk.{Ends, Walked, walk-Walked, call_cases}
use go_octopi.Solana.Rpc.{Transport, State}
use go_octopi.Solana.Types.{EpochBoundary, EpochInfo}
use go_octopi.Solana.Wire.{Codec}

-- The i-th boundary is that of the epoch `i + 1` before the current one, with its last slot.
abbrev pub Numbered : EpochInfo → List EpochBoundary → Type 0
Numbered info bs =
    (i : ℕ) (b : EpochBoundary)
    → get_elem? bs i ≡ some b
    → (b.epoch + suc i ≡ info.epoch)
      × (b.end_slot + i * info.slots_in_epoch + suc info.slot_index ≡ info.absolute_slot)

check_info-ok :
    (info : EpochInfo) (u : Unit {0})
    → check_info info ≡ ok u
    → (0 < info.epoch) × (info.slot_index < info.absolute_slot)
unfolding check_info
check_info-ok info u h = (ground arith, ground arith)

Numbered-of :
    (info : EpochInfo) (min_end : Time) (bs : List EpochBoundary)
    → (0 < info.epoch) × (info.slot_index < info.absolute_slot)
    → Walked info.slots_in_epoch min_end
        (info.epoch - 1)
        (info.absolute_slot - info.slot_index - 1)
        bs
    → Numbered info bs
Numbered-of info min_end bs (e, f) w i b at =
    let (p, q) = w.steps i b at in (omega arith, omega arith)

module _ (net : Transport) (codec : Codec) (fuel : ℕ) where
  -- A cache that a refresh for a window filled, with the last of its boundaries.
  pub record Refreshed (min_end : Time) (s : State net) (c : EpochCache) : Type 0 where
    pub info : EpochInfo
    pub informed : State net
    pub asked : get_epoch_info net codec fuel s ≡ some (ok info, informed)
    pub numbered : Numbered info c.boundaries
    pub last : EpochBoundary
    pub has_last : last? c.boundaries ≡ some last
    pub ends : Ends info.slots_in_epoch min_end last
    pub covers : c.covered_from ≡ last.end_time

  -- A refresh that succeeds leaves the epochs before the current one, newest first and none left out,
  -- each with its last slot, and goes down to an epoch that ended before the window, to epoch 0, or to
  -- the first whole epoch.
  pub refresh_locked-Refreshed :
      (min_end : Time) (s s' : State net) (c : EpochCache)
      → refresh_locked net codec fuel min_end s ≡ some (ok c, s')
      → Refreshed min_end s c
  unfolding refresh_locked
  refresh_locked-Refreshed min_end s s' c h = elim (call_cases (get_epoch_info net codec fuel s)) [
    | inl stuck ↦ absurd (ground arith)
    | inr (inl (e, s1, failed)) ↦ absurd (ground arith)
    | inr (inr (info, s1, asked)) ↦ elim (Result-cases (check_info info)) [
      | inl (e, bad) ↦ absurd (ground arith)
      | inr (u, checked) ↦
          let slot = info.absolute_slot - info.slot_index - 1 in
          elim (call_cases
            (walk net codec fuel info.slots_in_epoch min_end (info.epoch - 1) slot s1)) [
              | inl stuck ↦ absurd (ground arith)
              | inr (inl (e, s2, failed)) ↦ absurd (ground arith)
              | inr (inr (bs, s2, walked)) ↦
                  let w =
                    walk-Walked net codec fuel info.slots_in_epoch min_end (info.epoch - 1) slot s1
                      s2 bs walked in
                  let stored : bs ≡ c.boundaries = ground arith in
                  let covered : c.covered_from ≡ end_time_of (last? bs) = ground arith in
                  record {
                    info = info;
                    informed = s1;
                    asked = asked;
                    numbered =
                        rw (← stored)
                          (Numbered-of info min_end bs (check_info-ok info u checked) w);
                    last = w.last;
                    has_last = rw (← stored) w.has_last;
                    ends = w.ends;
                    covers = rw (covered, w.has_last);
                  }
            ]
    ]
  ]

clash : (p : EpochBoundary → Bool) (b c : EpochBoundary) → b ≡ c → p b ≡ true → p c ≢ false
clash p b c e h k = cc

keep-In :
    (p : EpochBoundary → Bool) (b : EpochBoundary) (bs : List EpochBoundary)
    → In b (keep p bs) ↔ (In b bs × (p b ≡ true))
unfolding keep
keep-In p b [] = ((λ i. absurd i), (λ h. h.0))
keep-In p b (c ∷ bs) = elim (Bool-cases (p c)) [
  | inl held ↦ rw held (
    (λ i. elim i [
      | inl e ↦ (inl e, rw e held)
      | inr j ↦ let (a, q) = (keep-In p b bs).0 j in (inr a, q)
    ]),
    (λ h. elim h.0 [ inl e ↦ inl e | inr a ↦ inr ((keep-In p b bs).1 (a, h.1)) ]),
  )
  | inr not_held ↦ rw not_held (
    (λ i. let (a, q) = (keep-In p b bs).0 i in (inr a, q)),
    (λ h. elim h.0 [
      | inl e ↦ absurd (clash p b c e h.1 not_held)
      | inr a ↦ (keep-In p b bs).1 (a, h.1)
    ]),
  )
]

in_window_iff :
    (min_end : Time) (b : EpochBoundary) → (in_window min_end b ≡ true) ↔ (min_end ≤ b.end_time)
in_window_iff min_end b = ground arith

in_window-In :
    (min_end : Time) (b : EpochBoundary) (bs : List EpochBoundary)
    → In b (keep (in_window min_end) bs) ↔ (In b bs × (min_end ≤ b.end_time))
in_window-In min_end b bs =
    let (to, from) = keep-In (in_window min_end) b bs in
    let (there, back) = in_window_iff min_end b in
    ((λ i. let (j, w) = to i in (j, there w)), (λ h. from (h.0, back h.1)))

module _ (net : Transport) (codec : Codec) (fuel : ℕ) where
  -- `getBoundaries` returns exactly the boundaries of the cache that do not end before the window, and
  -- the cache is the old one, with no request made, or one that a refresh for the window filled.
  pub get_boundaries-In :
      (min_end : Time) (c c' : EpochCache) (s s' : State net) (bs : List EpochBoundary)
      → get_boundaries net codec fuel min_end c s ≡ some (ok bs, c', s')
      → ((b : EpochBoundary) → In b bs ↔ (In b c'.boundaries × (min_end ≤ b.end_time)))
        × (((c' ≡ c) × (s' ≡ s)) ⊎ Refreshed net codec fuel min_end s c')
  unfolding get_boundaries
  get_boundaries-In min_end c c' s s' bs h =
      elim (Bool-cases (needs_refresh min_end c (now net s))) [
        | inr fresh ↦
            let same : c ≡ c' = ground arith in
            let kept : keep (in_window min_end) c.boundaries ≡ bs = ground arith in
            (
              (λ b. rw (← kept, ← same) (in_window-In min_end b c.boundaries)),
              inl (sym same, ground arith),
            )
        | inl stale ↦ elim (call_cases (refresh_locked net codec fuel min_end s)) [
          | inl stuck ↦ absurd (ground arith)
          | inr (inl (e, s1, failed)) ↦ absurd (ground arith)
          | inr (inr (c1, s1, done)) ↦
              let same : c1 ≡ c' = ground arith in
              let kept : keep (in_window min_end) c1.boundaries ≡ bs = ground arith in
              (
                (λ b. rw (← kept, ← same) (in_window-In min_end b c1.boundaries)),
                inr (rw (← same) (refresh_locked-Refreshed net codec fuel min_end s s1 c1 done)),
              )
        ]
      ]

  -- Where `getBoundaries` fails, the cache needed a refresh, and is left as it was.
  pub get_boundaries-err :
      (min_end : Time) (c c' : EpochCache) (s s' : State net) (e : Error)
      → get_boundaries net codec fuel min_end c s ≡ some (err e, c', s')
      → (c' ≡ c) × (needs_refresh min_end c (now net s) ≡ true)
  unfolding get_boundaries
  get_boundaries-err min_end c c' s s' e h =
      elim (Bool-cases (needs_refresh min_end c (now net s))) [
        | inr fresh ↦ absurd (ground arith)
        | inl stale ↦ elim (call_cases (refresh_locked net codec fuel min_end s)) [
          | inl stuck ↦ absurd (ground arith)
          | inr (inl (e', s1, failed)) ↦ (ground arith, stale)
          | inr (inr (c1, s1, done)) ↦ absurd (ground arith)
        ]
      ]
