-- ===== src/Tips/Transaction/Paying.antt =====
-- jito_tips.go: what a transaction must be to give a row, and what the row shows of it.
use go_octopi.Base.{
  ℕ, zero, suc, ◌+◌, ◌*◌, ◌≤◌, ◌<◌, ◌≡◌, ◌⊎◌, refl, true, false, Bool-cases, Option-cases, inl, inr,
  Option, none, some, List, [], ◌∷◌, Dict, lookup, length, arith, In, leb, ◌&&◌, ◌==◌, String-Eq,
  ℕ-Eq, Eq,
}
use go_octopi.Base.Int.{ℤ, pos, negsuc, is_pos, int_of_word}
use go_octopi.Base.Time.{Time, second, unix}
use go_octopi.Rewards.{Formats, RewardRow, format_reward_date}
use go_octopi.Solana.Types.{TransactionDetail}
use go_octopi.Tips.Intervals.{SlotInterval, epoch_for_slot}
use go_octopi.Tips.Transaction.{
  TrackedStakeAccount, Window, tip_of, tip_in_epoch, tip_row, includes, compute_tip_lamports,
  timestamp_from_detail, date_or,
}
use go_octopi.Tips.Transaction.Gains.{
  CallsJito, Gains, has_jito-CallsJito, compute_tip_lamports-Gains,
}

-- The time that a row shows: that of the block, where it is after 1970, else that of the end of the
-- epoch, else the zero time.
abbrev Undated : Option ℤ → Type 0
Undated block = (block ≡ none) ⊎ ((z : ℤ) × (block ≡ some z) × (is_pos z ≡ false))

abbrev pub TimeOf : Option ℤ → Option Time → Time → Type 0
TimeOf block date t =
    ((s : ℕ) × (block ≡ some (pos s)) × (0 < s) × (t ≡ (s + 62135596800) * second))
    ⊎ (Undated block × ((date ≡ some t) ⊎ ((date ≡ none) × (t ≡ 0))))

date_or-TimeOf :
    (block : Option ℤ) (date : Option Time) → Undated block → TimeOf block date (date_or 0 date)
unfolding date_or
date_or-TimeOf block none u = inr (u, inr (refl, refl))
date_or-TimeOf block (some t) u = inr (u, inl refl)

timestamp-TimeOf :
    (d : TransactionDetail) (block : Option ℤ) (date : Option Time)
    → d.block_time ≡ block
    → TimeOf block date (date_or (timestamp_from_detail d) date)
unfolding timestamp_from_detail date_or unix
timestamp-TimeOf d none date e = rw e (date_or-TimeOf none date (inl refl))
timestamp-TimeOf d (some (pos zero)) date e =
    rw e (date_or-TimeOf (some (pos 0)) date (inr (pos 0, refl, refl)))
timestamp-TimeOf d (some (negsuc n)) date e =
    rw e (date_or-TimeOf (some (negsuc n)) date (inr (negsuc n, refl, refl)))
timestamp-TimeOf d (some (pos (suc n))) date e = rw e (inl (suc n, refl, omega arith, dated n date))
  where
    dated :
        (n : ℕ) (date : Option Time)
        → date_or (unix (pos (suc n))) date ≡ (suc n + 62135596800) * second
    dated n none = refl
    dated n (some t) = ground arith

includes-In : (n : ℕ) (l : List ℕ) → includes n l ≡ true → In n l
unfolding includes
includes-In n [] h = absurd (ground arith)
includes-In n (x ∷ l) h = elim (Bool-cases (x == n)) [
  | inl same ↦ inl (ground (arith, Eq.matches_iff ℕ-Eq x n))
  | inr other ↦ inr (includes-In n l (ground arith))
]

-- An epoch of the intervals that has the slot.
abbrev pub Located : ℕ → ℕ → Dict ℕ SlotInterval → Type 0
Located slot epoch intervals =
    (iv : SlotInterval) × In (epoch, iv) intervals × (iv.start ≤ slot) × (slot ≤ iv.end)

epoch_for_slot-Located :
    (slot epoch : ℕ) (m : Dict ℕ SlotInterval)
    → epoch_for_slot slot m ≡ some epoch
    → Located slot epoch m
unfolding epoch_for_slot
epoch_for_slot-Located slot epoch [] h = absurd (ground arith)
epoch_for_slot-Located slot epoch ((e, iv) ∷ m) h =
    elim (Bool-cases (leb iv.start slot && leb slot iv.end)) [
      | inl here ↦
          let same : e ≡ epoch = ground arith in
          (iv, inl (rw same refl), ground arith, ground arith)
      | inr other ↦
          let (jv, there, from, to) = epoch_for_slot-Located slot epoch m (ground arith) in
          (jv, inr there, from, to)
    ]

module _ (fmt : Formats) where
  open fmt use {Float64, in_sol, format_number}

  -- A row that shows a transaction for an account: a transaction that succeeded, in a slot from the first
  -- allowed one on, of an allowed epoch, that calls a program of Jito and behind which the account has
  -- more lamports. The row shows these lamports in SOL, as a number and as a text, with the epoch, the
  -- time and the account's validator.
  pub record Pays (win : Window) (account : TrackedStakeAccount) (d : TransactionDetail)
      (row : RewardRow Float64) : Type 0 where
    pub epoch : ℕ
    pub lamports : ℕ
    pub succeeded : d.meta.failure ≡ []
    pub recent : win.min_slot ≤ d.slot
    pub jito : CallsJito d
    pub located : Located d.slot epoch win.intervals
    pub allowed : In epoch win.allowed
    pub gained :
        Gains d.account_keys d.meta.pre_balances d.meta.post_balances account.address lamports
    pub kind : row.row_type ≡ "Jito Tip"
    pub amount : row.amount_sol_value ≡ in_sol lamports
    pub amount_text : row.amount_sol ≡ format_number (in_sol lamports)
    pub of_epoch : row.epoch ≡ int_of_word epoch
    pub at : TimeOf d.block_time (lookup epoch win.epoch_dates) row.timestamp
    pub date_text : row.date ≡ format_reward_date fmt row.timestamp epoch
    pub validator : row.validator_vote_account ≡ account.validator

  no_failure : (bs : List ℕ) → length bs ≡ 0 → bs ≡ []
  no_failure [] h = refl
  no_failure (b ∷ bs) h = absurd (omega arith)

  -- The row that the loop's body makes of a transaction shows it.
  pub tip_of-Pays :
      (win : Window) (account : TrackedStakeAccount) (d : TransactionDetail)
      (row : RewardRow Float64)
      → tip_of fmt win account (some d) ≡ some row
      → Pays win account d row
  unfolding tip_of tip_in_epoch tip_row
  tip_of-Pays win account d row h = elim (Option-cases (epoch_for_slot d.slot win.intervals)) [
    | inl nowhere ↦ absurd (ground (arith))
    | inr (e, located) ↦
        let n = compute_tip_lamports d account.address in
        let same : tip_row fmt win account d e n ≡ row = ground arith in
        rw (← same) (record {
          epoch = e;
          lamports = n;
          succeeded = no_failure d.meta.failure (ground arith);
          recent = ground arith;
          jito = has_jito-CallsJito d (ground arith);
          located = epoch_for_slot-Located d.slot e win.intervals located;
          allowed = includes-In e win.allowed (ground arith);
          gained = compute_tip_lamports-Gains d account.address (ground arith);
          kind = refl;
          amount = refl;
          amount_text = refl;
          of_epoch = refl;
          at = timestamp-TimeOf d d.block_time (lookup e win.epoch_dates) refl;
          date_text = refl;
          validator = refl;
        })
  ]
