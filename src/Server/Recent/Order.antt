-- ===== src/Server/Recent/Order.antt =====
-- server.go: the rows that `collectRecentRewards` shows lie in the window, newest first.
use go_octopi.Base.{
  ◌+◌, ◌*◌, ◌≤◌, ◌<◌, ◌≡◌, refl, Bool, true, false, ◌||◌, some, List, [], ◌∷◌, ◌++◌, map, String,
  Dict, lookup, inl, inr, arith, All, All-map, ltb, nat_eq, if◌then◌else◌, ◌==◌, String-Eq, keep,
  Bool-cases, Option-cases, length,
}
use go_octopi.Base.Fault.{ok}
use go_octopi.Base.Int.{ℤ}
use go_octopi.Base.Sort.{sort, sort_cong, sort-All, sort-Sorted, Sorted, Leads}
use go_octopi.Base.Time.{Time, day}
use go_octopi.Rewards.{Formats, RewardRow}
use go_octopi.Server.Floats.{Floats}
use go_octopi.Server.Network.{Network}
use go_octopi.Server.Recent.{
  World, Row, is_newer, in_window, int_lt, named, validator_id, decorate_reward_validators, arrange,
  collect_epochs, collect_recent_rewards, inflation_rows, is_relevant, newer_epoch, epoch_dates_of,
}
use go_octopi.Server.Weeks.{week_floor, reward_window_start}
use go_octopi.Solana.Types.{StakeAccount, EpochBoundary}
use go_octopi.Solana.Epochs.Walk.{call_cases}
use go_octopi.Tips.Collect.{collect_jito_tips}
use go_octopi.Tips.Select.{Processed}

int_lt_asym : (a b : ℤ) → int_lt a b ≡ true → int_lt b a ≡ false
int_lt_asym a b h = ground arith

int_lt_trans : (a b c : ℤ) → int_lt b a ≡ false → int_lt c b ≡ false → int_lt c a ≡ false
int_lt_trans a b c h k = ground arith

module _ {F : Type 0} where
  -- The row stands in front: it is later, or of the same time and of a later epoch.
  abbrev pub comes_before : RewardRow F → RewardRow F → Bool
  comes_before a b =
      if nat_eq a.timestamp b.timestamp then int_lt b.epoch a.epoch else ltb b.timestamp a.timestamp

  abbrev pub Timed : RewardRow F → Type 0
  Timed r = 0 < r.timestamp

  is_newer-Timed : (x y : RewardRow F) → Timed x → Timed y → is_newer x y ≡ comes_before x y
  is_newer-Timed x y p q = ground arith

  comes_before_asym : (x y : RewardRow F) → comes_before x y ≡ true → comes_before y x ≡ false
  comes_before_asym x y h = ground (arith, int_lt_asym y.epoch x.epoch)

  comes_before_trans :
      (x y z : RewardRow F)
      → comes_before y x ≡ false
      → comes_before z y ≡ false
      → comes_before z x ≡ false
  comes_before_trans x y z h k = ground (arith, int_lt_trans z.epoch y.epoch x.epoch)

  -- The same rows in the same order, but for the names of the validators.
  abbrev pub Renamed : List (RewardRow F) → List (RewardRow F) → Type 0
  Renamed [] [] = Unit
  Renamed [] (y ∷ ys) = ⊥
  Renamed (x ∷ xs) [] = ⊥
  Renamed (x ∷ xs) (y ∷ ys) =
      ((name : String) × (y ≡ record x { validator = name })) × Renamed xs ys

  -- The rows lie in the window, and no row stands behind one that should be behind it.
  abbrev pub Shown : Time → Time → List (RewardRow F) → Type 0
  Shown start end rows =
      All (λ r. (0 < r.timestamp) × (start ≤ r.timestamp) × (r.timestamp < end)) rows
      × Sorted comes_before rows

  Renamed-Leads :
      (x : RewardRow F) (name : String) (xs ys : List (RewardRow F))
      → Renamed xs ys
      → Leads comes_before x xs
      → Leads comes_before (record x { validator = name }) ys
  Renamed-Leads x name [] [] r l = tt
  Renamed-Leads x name [] (y ∷ ys) r l = absurd r
  Renamed-Leads x name (z ∷ xs) [] r l = absurd r
  Renamed-Leads x name (z ∷ xs) (y ∷ ys) ((n, e), r) l =
      (rw e l.0, Renamed-Leads x name xs ys r l.1)

  Renamed-Shown :
      (start end : Time) (xs ys : List (RewardRow F))
      → Renamed xs ys
      → Shown start end xs
      → Shown start end ys
  Renamed-Shown start end [] [] r h = h
  Renamed-Shown start end [] (y ∷ ys) r h = absurd r
  Renamed-Shown start end (x ∷ xs) [] r h = absurd r
  Renamed-Shown start end (x ∷ xs) (y ∷ ys) ((n, e), r) (inside, sorted) =
      let (rest, behind) = Renamed-Shown start end xs ys r (inside.1, sorted.1) in
      ((rw e inside.0, rest), (rw e (Renamed-Leads x n xs ys r sorted.0), behind))

  map-Leads :
      (f : RewardRow F → RewardRow F) (x : RewardRow F) (rows : List (RewardRow F))
      → ((r : RewardRow F) → ((f r).timestamp ≡ r.timestamp) × ((f r).epoch ≡ r.epoch))
      → Leads comes_before x rows
      → Leads comes_before (f x) (map f rows)
  map-Leads f x [] keeps h = tt
  map-Leads f x (y ∷ rows) keeps h =
      (ground (arith, h.0, keeps x, keeps y), map-Leads f x rows keeps h.1)

  -- What keeps the times and the epochs keeps what is shown.
  pub map-Shown :
      (start end : Time) (f : RewardRow F → RewardRow F) (rows : List (RewardRow F))
      → ((r : RewardRow F) → ((f r).timestamp ≡ r.timestamp) × ((f r).epoch ≡ r.epoch))
      → Shown start end rows
      → Shown start end (map f rows)
  map-Shown start end f [] keeps h = h
  map-Shown start end f (x ∷ rows) keeps (inside, sorted) =
      let (rest, behind) = map-Shown start end f rows keeps (inside.1, sorted.1) in
      ((rw (keeps x).0 inside.0, rest), (map-Leads f x rows keeps sorted.0, behind))

  keep-All :
      (p : RewardRow F → Bool) (rows : List (RewardRow F)) → All (λ r. p r ≡ true) (keep p rows)
  unfolding keep
  keep-All p [] = tt
  keep-All p (r ∷ rows) = elim (Bool-cases (p r)) [
    | inl held ↦ rw held (held, keep-All p rows)
    | inr out ↦ rw out (keep-All p rows)
  ]

  in_window_bounds :
      (start end : Time) (r : RewardRow F)
      → in_window start end r ≡ true
      → (0 < r.timestamp) × (start ≤ r.timestamp) × (r.timestamp < end)
  in_window_bounds start end r h = (ground arith, ground arith, ground arith)

  sorted-Shown :
      (start end : Time) (rows : List (RewardRow F))
      → Shown start end (sort is_newer (keep (in_window start end) rows))
  sorted-Shown start end rows =
      let inside =
        All-map (λ r. in_window start end r ≡ true)
          (λ r. (0 < r.timestamp) × (start ≤ r.timestamp) × (r.timestamp < end))
          (keep (in_window start end) rows) (in_window_bounds start end)
          (keep-All (in_window start end) rows) in
      let timed = All-map _ Timed (keep (in_window start end) rows) (λ r h. h.0) inside in
      (
        sort-All is_newer _ (keep (in_window start end) rows) inside,
        rw
            (sort_cong Timed is_newer comes_before is_newer-Timed (keep (in_window start end) rows)
              timed)
            (sort-Sorted comes_before comes_before_asym comes_before_trans
              (keep (in_window start end) rows)),
      )

module _ (fmt : Formats) (floats : Floats (Formats.Float64 fmt))
    (net : Network (Formats.Float64 fmt)) where
  rename_of :
      (name : String) (r : Row fmt floats net)
      → (n : String) × (named fmt floats net name r ≡ record r { validator = n })
  rename_of name r = elim (Bool-cases (name == "")) [
    | inl empty ↦ (r.validator, rw empty refl)
    | inr given ↦ (name, rw given refl)
  ]

  -- Looking up the names changes nothing else, and loses no row.
  decorate-Renamed :
      (rows : List (Row fmt floats net)) (names : Dict String String) (w : World fmt floats net)
      → Renamed rows (decorate_reward_validators fmt floats net rows names w).0
  unfolding decorate_reward_validators
  decorate-Renamed [] names w = tt
  decorate-Renamed (r ∷ rows) names w = elim (Bool-cases (validator_id fmt floats net r == "")) [
    | inl nameless ↦
        rw (nameless, decorate_reward_validators, Renamed)
          ((r.validator, refl), decorate-Renamed rows names w)
    | inr id ↦ elim (Option-cases (lookup (validator_id fmt floats net r) names)) [
      | inr (name, known) ↦
          rw (id, known, decorate_reward_validators, Renamed)
            (rename_of name r, decorate-Renamed rows names w)
      | inl unknown ↦
          rw (id, unknown, decorate_reward_validators, Renamed)
            (rename_of _ r, decorate-Renamed rows _ _)
    ]
  ]

  arrange-Shown :
      (now : Time) (rows : List (Row fmt floats net)) (w : World fmt floats net)
      → Shown
          (reward_window_start now)
          (week_floor now + 7 * day)
          (arrange fmt floats net now rows w).0
  unfolding arrange
  arrange-Shown now rows w =
      Renamed-Shown (reward_window_start now) (week_floor now + 7 * day) _ _
        (decorate-Renamed _ [] w)
        (sorted-Shown (reward_window_start now) (week_floor now + 7 * day) rows)

  collect_epochs-Shown :
      (now : Time) (accounts : List StakeAccount) (sorted : List EpochBoundary) (c c' : Processed)
      (w w' : World fmt floats net) (rows : List (Row fmt floats net))
      → collect_epochs fmt floats net now accounts sorted c w ≡ some (ok rows, c', w')
      → Shown (reward_window_start now) (week_floor now + 7 * day) rows
  unfolding collect_epochs
  collect_epochs-Shown now accounts sorted c c' w w' rows h =
      let targets = map (λ (b : EpochBoundary). b.epoch) sorted in
      let dates = epoch_dates_of sorted [] in
      elim (call_cases (inflation_rows fmt floats net dates accounts targets [] w)) [
        | inl panic ↦ absurd (ground arith)
        | inr (inl (e, w1, failed)) ↦ absurd (ground arith)
        | inr (inr (found, w1, paid)) ↦
            let t = collect_jito_tips fmt net.tips accounts dates targets sorted c w1 in
            elim (Option-cases t.failure) [
              | inr (e, broken) ↦ absurd (ground arith)
              | inl fine ↦
                  let shown : (arrange fmt floats net now (found ++ t.rows) t.world).0 ≡ rows =
                    ground arith in
                  rw (← shown) (arrange-Shown now (found ++ t.rows) t.world)
            ]
      ]

  -- The rows that `collectRecentRewards` returns lie in the window, from the Monday four weeks before this
  -- week's to the end of this week, none has the zero time, and they stand newest first, those of one
  -- time by their epochs.
  pub collect_recent_rewards-Shown :
      (now : Time) (accounts : List StakeAccount) (boundaries : List EpochBoundary)
      (c c' : Processed) (w w' : World fmt floats net) (rows : List (Row fmt floats net))
      → collect_recent_rewards fmt floats net now accounts boundaries c w ≡ some (ok rows, c', w')
      → Shown (reward_window_start now) (week_floor now + 7 * day) rows
  unfolding collect_recent_rewards
  collect_recent_rewards-Shown now accounts boundaries c c' w w' rows h =
      elim (Bool-cases (
        nat_eq (length accounts) 0
        || nat_eq (length (keep (is_relevant (reward_window_start now)) boundaries)) 0)) [
          | inl idle ↦ let none_shown : [] ≡ rows = ground arith in rw (← none_shown) (tt, tt)
          | inr busy ↦
              collect_epochs-Shown now accounts
                (sort newer_epoch (keep (is_relevant (reward_window_start now)) boundaries)) c c' w
                w' rows (ground arith)
        ]
