-- ===== src/Server/Recent/Paid.antt =====
-- server.go: the rows that `collectRecentRewards` makes of the inflation rewards.
use go_octopi.Base.{
  ℕ, suc, ◌≤◌, ◌≡◌, ◌≢◌, refl, ap, ◌⊎◌, Option, none, some, List, [], ◌∷◌, ◌++◌, map, String, Dict,
  In, inl, inr, arith, All, All-map, All-append, Option-cases, length, get_elem?, drop, lookup,
  ℕ-Eq,
}
use go_octopi.Base.Fault.{Result, ok, err, wrap_at, Result-cases}
use go_octopi.Base.Int.{ℤ, pos, negsuc, int_of_word}
use go_octopi.Base.Time.{Time}
use go_octopi.Rewards.{Formats, format_reward_date}
use go_octopi.Server.Floats.{Floats}
use go_octopi.Server.Network.{Network}
use go_octopi.Server.Recent.{World, Row, paid, date_of, to_sol, reward_row, rows_of, inflation_rows}
use go_octopi.Solana.Types.{StakeAccount, InflationReward}

paid-some :
    (o : Option InflationReward) (r : InflationReward)
    → paid o ≡ some r
    → (o ≡ some r) × (r.amount ≢ pos 0)
paid-some none r h = absurd (ground arith)
paid-some (some s) r h = elim (amount_cases s.amount) [
  | inl (n, positive) ↦ (ground arith, λ e. ground arith)
  | inr (n, negative) ↦ (ground arith, λ e. ground arith)
]
  where
    amount_cases : (z : ℤ) → ((n : ℕ) × (z ≡ pos n)) ⊎ ((n : ℕ) × (z ≡ negsuc n))
    amount_cases (pos n) = inl (n, refl)
    amount_cases (negsuc n) = inr (n, refl)

get_elem?-drop : {A : Type 0} (i : ℕ) (xs : List A) → get_elem? (drop 1 xs) i ≡ get_elem? xs (suc i)
get_elem?-drop i [] = refl
get_elem?-drop i (x ∷ xs) = refl

module _ (fmt : Formats) (floats : Floats (Formats.Float64 fmt))
    (net : Network (Formats.Float64 fmt)) (dates : Dict ℕ Time) where
  -- The date of an epoch, or the zero time.
  abbrev pub Dated : ℕ → Time → Type 0
  Dated epoch t = (lookup epoch dates ≡ some t) ⊎ ((lookup epoch dates ≡ none) × (t ≡ 0))

  -- A row of a staking reward: its amount in SOL, a billionth of the lamports, as a number and as a text,
  -- its epoch with the date, and the validator of the account.
  pub record Shows (account : StakeAccount) (reward : InflationReward) (row : Row fmt floats net)
      : Type 0 where
    pub kind : row.row_type ≡ "Staking Reward"
    pub amount :
        row.amount_sol_value
        ≡ floats.div (floats.of_int reward.amount) (floats.of_int (pos 1000000000))
    pub amount_text : row.amount_sol ≡ fmt.format_number row.amount_sol_value
    pub of_epoch : row.epoch ≡ int_of_word reward.epoch
    pub at : Dated reward.epoch row.timestamp
    pub date_text : row.date ≡ format_reward_date fmt row.timestamp reward.epoch
    pub vote_account : row.validator_vote_account ≡ account.vote_account
    pub validator : row.validator ≡ account.vote_account

  date_of-Dated : (epoch : ℕ) → Dated epoch (date_of (lookup epoch dates))
  date_of-Dated epoch = elim (Option-cases (lookup epoch dates)) [
    | inl missing ↦ rw missing (inr (refl, refl))
    | inr (t, there) ↦ rw there (inl refl)
  ]

  reward_row-Shows :
      (account : StakeAccount) (reward : InflationReward)
      → Shows account reward (reward_row fmt floats net dates account reward)
  unfolding reward_row to_sol
  reward_row-Shows account reward = record {
    kind = refl;
    amount = refl;
    amount_text = refl;
    of_epoch = refl;
    at = date_of-Dated reward.epoch;
    date_text = refl;
    vote_account = refl;
    validator = refl;
  }

  -- A row that shows a reward, not 0, of the account at the reward's place.
  pub record Placed (accounts : List StakeAccount) (rewards : List (Option InflationReward))
      (row : Row fmt floats net) : Type 0 where
    pub place : ℕ
    pub account : StakeAccount
    pub reward : InflationReward
    pub has_account : get_elem? accounts place ≡ some account
    pub has_reward : get_elem? rewards place ≡ some (some reward)
    pub nonzero : reward.amount ≢ pos 0
    pub shown : Shows account reward row

  Placed-cons :
      (accounts : List StakeAccount) (o : Option InflationReward)
      (rewards : List (Option InflationReward)) (row : Row fmt floats net)
      → Placed (drop 1 accounts) rewards row
      → Placed accounts (o ∷ rewards) row
  Placed-cons accounts o rewards row p = record {
    place = suc p.place;
    account = p.account;
    reward = p.reward;
    has_account = ground (arith, p.has_account, get_elem?-drop p.place accounts);
    has_reward = p.has_reward;
    nonzero = p.nonzero;
    shown = p.shown;
  }

  rows_of-Placed :
      (accounts : List StakeAccount) (rewards : List (Option InflationReward))
      (rows : List (Row fmt floats net))
      → rows_of fmt floats net dates accounts rewards ≡ some rows
      → All (Placed accounts rewards) rows
  unfolding rows_of
  rows_of-Placed accounts [] rows h = let same : [] ≡ rows = ground arith in rw (← same) tt
  rows_of-Placed accounts (o ∷ rewards) rows h = elim (Option-cases (paid o)) [
    | inl unpaid ↦
        All-map _ _ rows (Placed-cons accounts o rewards)
          (rows_of-Placed (drop 1 accounts) rewards rows (ground arith))
    | inr (r, due) ↦ elim (Option-cases (get_elem? accounts 0)) [
      | inl missing ↦ absurd (ground arith)
      | inr (account, there) ↦
          elim (Option-cases (rows_of fmt floats net dates (drop 1 accounts) rewards)) [
            | inl panic ↦ absurd (ground arith)
            | inr (rest, found) ↦
                let same : reward_row fmt floats net dates account r ∷ rest ≡ rows = ground arith in
                let (is_reward, nonzero) = paid-some o r due in
                rw (← same) (
                  record {
                    place = 0;
                    account = account;
                    reward = r;
                    has_account = there;
                    has_reward = ap some is_reward;
                    nonzero = nonzero;
                    shown = reward_row-Shows account r;
                  },
                  All-map _ _ rest (Placed-cons accounts o rewards)
                      (rows_of-Placed (drop 1 accounts) rewards rest found),
                )
          ]
    ]
  ]

  abbrev addresses : List StakeAccount → List String
  addresses accounts = map (λ a. a.address) accounts

  -- A row that shows a reward of a reply of the network for a target epoch.
  pub record Paid (accounts : List StakeAccount) (epochs : List ℕ) (row : Row fmt floats net)
      : Type 0 where
    pub target : ℕ
    pub asked_at : World fmt floats net
    pub rewards : List (Option InflationReward)
    pub is_target : In target epochs
    pub replied :
        (Network.get_inflation_reward net (addresses accounts) target asked_at).0 ≡ ok rewards
    pub placed : Placed accounts rewards row

  Paid-later :
      (accounts : List StakeAccount) (epoch : ℕ) (epochs : List ℕ) (row : Row fmt floats net)
      → Paid accounts epochs row
      → Paid accounts (epoch ∷ epochs) row
  Paid-later accounts epoch epochs row p = record {
    target = p.target;
    asked_at = p.asked_at;
    rewards = p.rewards;
    is_target = inr p.is_target;
    replied = p.replied;
    placed = p.placed;
  }

  inflation_rows-from :
      (P : Row fmt floats net → Type 0) (accounts : List StakeAccount) (epochs : List ℕ)
      (rows all : List (Row fmt floats net)) (w w' : World fmt floats net)
      → ((row : Row fmt floats net) → Paid accounts epochs row → P row)
      → All P rows
      → inflation_rows fmt floats net dates accounts epochs rows w ≡ some (ok all, w')
      → All P all
  unfolding inflation_rows
  inflation_rows-from P accounts [] rows all w w' f h e =
      let same : rows ≡ all = ground arith in rw (← same) h
  inflation_rows-from P accounts (epoch ∷ epochs) rows all w w' f h e =
      let reply = net.get_inflation_reward (addresses accounts) epoch w in
      elim (Result-cases reply.0) [
        | inl (broken, failed) ↦ absurd (ground arith)
        | inr (rewards, replied) ↦
            elim (Option-cases (rows_of fmt floats net dates accounts rewards)) [
              | inl panic ↦ absurd (ground arith)
              | inr (new, made) ↦
                  inflation_rows-from P accounts epochs (rows ++ new) all reply.1 w'
                    (λ row p. f row (Paid-later accounts epoch epochs row p))
                    (All-append P rows new h (
                      All-map (Placed accounts rewards) P new
                        (λ row p. f row (record {
                          target = epoch;
                          asked_at = w;
                          rewards = rewards;
                          is_target = inl refl;
                          replied = replied;
                          placed = p;
                        }))
                        (rows_of-Placed accounts rewards new made)))
                    (ground arith)
            ]
      ]

  -- Every inflation row shows the amount in SOL, the epoch, the epoch's date and the validator of a reward,
  -- not 0, of one of the stake accounts: the one at the reward's place in a reply of the network for one of
  -- the target epochs.
  pub inflation_rows-Paid :
      (accounts : List StakeAccount) (epochs : List ℕ) (rows : List (Row fmt floats net))
      (w w' : World fmt floats net)
      → inflation_rows fmt floats net dates accounts epochs [] w ≡ some (ok rows, w')
      → All (Paid accounts epochs) rows
  inflation_rows-Paid accounts epochs rows w w' e =
      inflation_rows-from (Paid accounts epochs) accounts epochs [] rows w w' (λ row p. p) tt e

  rows_of-some :
      (accounts : List StakeAccount) (rewards : List (Option InflationReward))
      → length rewards ≤ length accounts
      → (rows : List (Row fmt floats net)) × (rows_of fmt floats net dates accounts rewards
          ≡ some rows)
  unfolding rows_of
  rows_of-some accounts [] l = ([], refl)
  rows_of-some [] (o ∷ rewards) l = absurd (omega arith)
  rows_of-some (a ∷ accounts) (o ∷ rewards) l =
      let (rest, made) = rows_of-some accounts rewards (omega arith) in
      elim (Option-cases (paid o)) [
        | inl unpaid ↦ (rest, rw (unpaid, rows_of) made)
        | inr (r, due) ↦ (reward_row fmt floats net dates a r ∷ rest, rw (due, made, rows_of) refl)
      ]

  -- Where the network never replies with more rewards than it was asked for, the loop over the epochs
  -- does not panic: it returns rows or an error.
  pub inflation_rows-returns :
      (accounts : List StakeAccount) (epochs : List ℕ) (rows : List (Row fmt floats net))
      (w : World fmt floats net)
      → ((epoch : ℕ) (v : World fmt floats net) (rewards : List (Option InflationReward))
          → (net.get_inflation_reward (addresses accounts) epoch v).0 ≡ ok rewards
          → length rewards ≤ length accounts)
      → (r : Result (List (Row fmt floats net)) × World fmt floats net) × (inflation_rows fmt floats
            net dates accounts epochs rows w
          ≡ some r)
  unfolding inflation_rows
  inflation_rows-returns accounts [] rows w fits = ((ok rows, w), refl)
  inflation_rows-returns accounts (epoch ∷ epochs) rows w fits =
      let reply = net.get_inflation_reward (addresses accounts) epoch w in
      elim (Result-cases reply.0) [
        | inl (e, failed) ↦ (
          (err (wrap_at "inflation reward fetch epoch" epoch e), reply.1),
          rw (failed, inflation_rows) refl,
        )
        | inr (rewards, replied) ↦
            let (new, made) = rows_of-some accounts rewards (fits epoch w rewards replied) in
            let (r, done) = inflation_rows-returns accounts epochs (rows ++ new) reply.1 fits in
            (r, rw (replied, made, inflation_rows) done)
      ]
