-- ===== src/Server/Flows/Earliest.antt =====
-- server.go: which row is the earliest, and when its epoch began.
use go_octopi.Base.{
  ℕ, ◌-◌, ◌≤◌, ◌<◌, ◌≡◌, ◌≢◌, refl, sym, true, false, ◌&&◌, ◌||◌, none, some, List, [], ◌∷◌, In,
  inl, inr, ◌⊎◌, arith, All, nat_eq, Bool-cases, Option-cases,
}
use go_octopi.Base.Time.{Time, is_zero_time, is_before, is_after}
use go_octopi.Rewards.{RewardRow}
use go_octopi.Server.Flows.{is_dated, earliest_from, earliest_reward, latest_end, epoch_start_time}
use go_octopi.Solana.Types.{EpochBoundary}

module _ {F : Type 0} where
  -- The row is not later than any dated row of the list.
  abbrev pub Earliest : RewardRow F → List (RewardRow F) → Type 0
  Earliest e rewards = All (λ r. is_dated r ≡ true → e.timestamp ≤ r.timestamp) rewards

  earliest_from-Earliest :
      (s e : RewardRow F) (rewards : List (RewardRow F))
      → is_dated s ≡ true
      → earliest_from (some s) rewards ≡ some e
      → (e.timestamp ≤ s.timestamp)
        × ((e ≡ s) ⊎ In e rewards)
        × (is_dated e ≡ true)
        × Earliest e rewards
  unfolding earliest_from
  earliest_from-Earliest s e [] d h =
      let same : e ≡ s = ground arith in (ground arith, inl same, rw same d, tt)
  earliest_from-Earliest s e (r ∷ rewards) d h = elim (Bool-cases (is_dated r)) [
    | inr undated ↦
        let (below, source, dated, rest) = earliest_from-Earliest s e rewards d (rw undated at h) in
        (
          below,
          elim source [ inl a ↦ inl a | inr i ↦ inr (inr i) ],
          dated,
          ((λ q. absurd (ground arith)), rest),
        )
    | inl now_dated ↦ elim (Bool-cases (is_before r.timestamp s.timestamp)) [
      | inl sooner ↦
          let (below, source, dated, rest) =
            earliest_from-Earliest r e rewards now_dated (rw (now_dated, sooner) at h) in
          (ground arith, inr source, dated, ((λ q. below), rest))
      | inr later ↦
          let (below, source, dated, rest) =
            earliest_from-Earliest s e rewards d (rw (now_dated, later) at h) in
          (
            below,
            elim source [ inl a ↦ inl a | inr i ↦ inr (inr i) ],
            dated,
            ((λ q. ground arith), rest),
          )
    ]
  ]

  earliest_from-none :
      (rewards : List (RewardRow F))
      → earliest_from none rewards ≡ none
      → All (λ r. is_dated r ≡ false) rewards
  unfolding earliest_from
  earliest_from-none [] h = tt
  earliest_from-none (r ∷ rewards) h = elim (Bool-cases (is_dated r)) [
    | inr undated ↦ (undated, earliest_from-none rewards (rw undated at h))
    | inl dated ↦ absurd (stays r rewards (rw dated at h))
  ]
    where
      stays : (s : RewardRow F) (rs : List (RewardRow F)) → earliest_from (some s) rs ≢ none
      stays s [] q = ground arith
      stays s (x ∷ rs) q = elim (Bool-cases (is_dated x)) [
        | inr undated ↦ stays s rs (rw undated at q)
        | inl dated ↦ elim (Bool-cases (is_before x.timestamp s.timestamp)) [
          | inl sooner ↦ stays x rs (rw (dated, sooner) at q)
          | inr later ↦ stays s rs (rw (dated, later) at q)
        ]
      ]

  earliest_from-some :
      (e : RewardRow F) (rewards : List (RewardRow F))
      → earliest_from none rewards ≡ some e
      → In e rewards × (is_dated e ≡ true) × Earliest e rewards
  unfolding earliest_from
  earliest_from-some e [] h = absurd (ground arith)
  earliest_from-some e (r ∷ rewards) h = elim (Bool-cases (is_dated r)) [
    | inr undated ↦
        let (i, dated, rest) = earliest_from-some e rewards (rw undated at h) in
        (inr i, dated, ((λ q. absurd (ground arith)), rest))
    | inl now_dated ↦
        let (below, source, dated, rest) =
          earliest_from-Earliest r e rewards now_dated (rw now_dated at h) in
        (source, dated, ((λ q. below), rest))
  ]

  -- `earliestReward` finds a row with a time and an epoch above 0, and one that no other such row is
  -- earlier than; it finds nothing only if there is no such row.
  pub earliest_reward-Earliest :
      (rewards : List (RewardRow F))
      → ((e : RewardRow F) × (earliest_reward rewards ≡ some e)
          × In e rewards
          × (is_dated e ≡ true)
          × Earliest e rewards)
        ⊎ ((earliest_reward rewards ≡ none) × All (λ r. is_dated r ≡ false) rewards)
  unfolding earliest_reward
  earliest_reward-Earliest rewards = elim (Option-cases (earliest_from none rewards)) [
    | inl nothing ↦ inr (nothing, earliest_from-none rewards nothing)
    | inr (e, found) ↦
        let (i, dated, least) = earliest_from-some e rewards found in
        inl (e, found, i, dated, least)
  ]

-- A boundary of the epoch ended at the time, and none of the epoch ended later.
abbrev pub LatestOf : ℕ → List EpochBoundary → Time → Type 0
LatestOf target bs t =
    ((b : EpochBoundary) × In b bs × (b.epoch ≡ target) × (b.end_time ≡ t))
    × All (λ (b : EpochBoundary). b.epoch ≡ target → b.end_time ≤ t) bs

-- What the loop gives from a first value on.
record Latest (target start : ℕ) (bs : List EpochBoundary) (t : Time) : Type 0 where
  above : start ≤ t
  source : (t ≡ start) ⊎ ((b : EpochBoundary) × In b bs × (b.epoch ≡ target) × (b.end_time ≡ t))
  most : All (λ (b : EpochBoundary). b.epoch ≡ target → b.end_time ≤ t) bs

latest_end-Latest :
    (target start : ℕ) (bs : List EpochBoundary)
    → Latest target start bs (latest_end target start bs)
unfolding latest_end
latest_end-Latest target start [] = record { above = omega arith; source = inl refl; most = tt }
latest_end-Latest target start (b ∷ bs) =
    elim (Bool-cases (nat_eq b.epoch target && (is_zero_time start || is_after b.end_time start))) [
      | inl later ↦
          let rest = latest_end-Latest target b.end_time bs in
          rw later (record {
            above = ground (arith, rest.above);
            source = inr (elim rest.source [
              | inl at_b ↦ (b, inl refl, ground arith, sym at_b)
              | inr (c, i, e, t) ↦ (c, inr i, e, t)
            ]);
            most = ((λ q. rest.above), rest.most);
          })
      | inr kept ↦
          let rest = latest_end-Latest target start bs in
          rw kept (record {
            above = rest.above;
            source = elim rest.source [
              | inl still ↦ inl still
              | inr (c, i, e, t) ↦ inr (c, inr i, e, t)
            ];
            most = ((λ q. ground (arith, rest.above)), rest.most);
          })
    ]

-- `epochStartTime` gives the latest time at which the epoch before ended, by the boundaries, and that is
-- not the zero time.
pub epoch_start_time-LatestOf :
    (epoch t : ℕ) (bs : List EpochBoundary)
    → epoch_start_time epoch bs ≡ some t
    → (0 < t) × (0 < epoch) × LatestOf (epoch - 1) bs t
unfolding epoch_start_time
epoch_start_time-LatestOf epoch t bs h =
    let last = latest_end-Latest (epoch - 1) 0 bs in
    let same : latest_end (epoch - 1) 0 bs ≡ t = ground arith in
    let found : Latest (epoch - 1) 0 bs t = rw (← same) last in
    (
      ground arith,
      ground arith,
      (elim found.source [ inl nothing ↦ absurd (ground arith) | inr b ↦ b ], found.most),
    )
