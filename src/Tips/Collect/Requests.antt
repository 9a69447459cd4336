-- ===== src/Tips/Collect/Requests.antt =====
-- jito_tips.go: how many pages of signatures the collection asks for, and that the loop over the
-- chunks of epochs ends.
use go_octopi.Base.{
  ℕ, zero, suc, ◌+◌, ◌*◌, ◌≤◌, ◌<◌, ◌≡◌, refl, false, List, [], ◌∷◌, ◌++◌, String, length, arith,
  take, drop, Bool-cases, Option-cases, inl, inr, Dict, insert, nat_eq, ◌||◌, String-Eq, leb,
  length-take, length-drop,
}
use go_octopi.Base.Fault.{Result-cases}
use go_octopi.Base.Time.{Time, second}
use go_octopi.Rewards.{Formats}
use go_octopi.Solana.Types.{StakeAccount, EpochBoundary}
use go_octopi.Tips.Client.{
  Client, Details, fetch_each, fetch_transactions, is_batch_unavailable_error,
}
use go_octopi.Tips.Collect.{
  Row, collect_stake_account_tips, collect_accounts, window_of, is_idle, collect_jito_tips_window,
  collect_chunks, collect_jito_tips, jito_max_pages_per_stake, jito_epoch_lookback,
}
use go_octopi.Tips.Collect.Rule.{Survives, collect_pages_inv}
use go_octopi.Tips.Select.{Processed, build_stake_account_index}
use go_octopi.Tips.Transaction.{TrackedStakeAccount, Window}

-- A count of the calls of `GetSignaturesForAddress`.
pub record CountsPages (client : Client) (pages : Client.World client → ℕ) : Type 0 where
  pub asked :
      (address : String) (limit : ℕ) (before : String) (w : Client.World client)
      → pages (Client.get_signatures_for_address client address limit before w).1 ≡ pages w + 1
  pub batch_keeps :
      (sigs : List String) (w : Client.World client)
      → pages (Client.get_transactions client sigs w).1 ≡ pages w
  pub single_keeps :
      (sig : String) (w : Client.World client)
      → pages (Client.get_transaction client sig w).1 ≡ pages w
  pub sleep_keeps : (d : ℕ) (w : Client.World client) → pages (Client.sleep client d w) ≡ pages w

module _ (fmt : Formats) (client : Client) (pages : Client.World client → ℕ)
    (counts : CountsPages client pages) where
  open client use {World, cancelled, sleep, get_transaction, get_transactions}

  fetch_each-pages :
      (sigs : List String) (found : Details client) (w : World)
      → pages (fetch_each client sigs found w).1 ≡ pages w
  unfolding fetch_each
  fetch_each-pages [] found w = refl
  fetch_each-pages (sig ∷ sigs) found w = elim (Result-cases (get_transaction sig w).0) [
    | inl (e, failed) ↦ rw (failed, fetch_each) (counts.single_keeps sig w)
    | inr (d, found_it) ↦
        rw (found_it, fetch_each)
          (omega (
            arith,
            fetch_each-pages sigs (insert sig d found) (get_transaction sig w).1,
            counts.single_keeps sig w,
          ))
  ]

  fetch-pages :
      (sigs : List String) (w : World) → pages (fetch_transactions client sigs w).1 ≡ pages w
  unfolding fetch_transactions
  fetch-pages [] w = refl
  fetch-pages (sig ∷ sigs) w =
      let all = sig ∷ sigs in
      let w' = (get_transactions all w).1 in
      elim (Result-cases (get_transactions all w).0) [
        | inr (txs, replied) ↦ rw (replied, fetch_transactions) (counts.batch_keeps all w)
        | inl (e, failed) ↦ elim (Bool-cases (is_batch_unavailable_error e)) [
          | inr other ↦ rw (failed, other, fetch_transactions) (counts.batch_keeps all w)
          | inl unavailable ↦
              rw (failed, unavailable, fetch_transactions)
                (omega (arith, fetch_each-pages all [] w', counts.batch_keeps all w))
        ]
      ]

  Bounded-Survives :
      (win : Window) (account : TrackedStakeAccount) (limit : ℕ)
      → Survives fmt client win account (λ n rows c w. pages w + n ≤ limit)
  Bounded-Survives win account limit = record {
    drops = λ n rows c w h. h;
    weakens = λ n rows c w h. omega arith;
    asks = λ n before rows c w h. omega (arith, counts.asked account.address 25 before w);
    selects = λ n sigs rows c w h. h;
    fetches = λ n sigs rows c w h. omega (arith, fetch-pages sigs w);
    adds = λ n before sigs txs rows c w0 w1 w asked fetched h. h;
  }

  -- One stake account costs at most ten pages.
  account-pages :
      (win : Window) (account : TrackedStakeAccount) (c : Processed) (w : World)
      → pages (collect_stake_account_tips fmt client win account c w).world
        ≤ pages w + jito_max_pages_per_stake
  unfolding collect_stake_account_tips
  account-pages win account c w = omega (
    arith,
    collect_pages_inv fmt client win account
        (λ n rows c' w'. pages w' + n ≤ pages w + jito_max_pages_per_stake)
        (Bounded-Survives win account (pages w + jito_max_pages_per_stake)) jito_max_pages_per_stake
        "" [] c w (omega arith),
  )

  accounts-pages :
      (win : Window) (accounts : List TrackedStakeAccount) (rows : List (Row fmt client))
      (c : Processed) (w : World)
      → pages (collect_accounts fmt client win accounts rows c w).world
        ≤ pages w + jito_max_pages_per_stake * length accounts
  unfolding collect_accounts
  accounts-pages win [] rows c w = omega arith
  accounts-pages win (a ∷ accounts) rows c w =
      let r = collect_stake_account_tips fmt client win a c w in
      elim (Option-cases r.failure) [
        | inr (e, failed) ↦ rw (failed, collect_accounts) (omega (arith, account-pages win a c w))
        | inl fine ↦
            rw (fine, collect_accounts)
              (omega (
                arith,
                account-pages win a c w,
                accounts-pages win accounts (rows ++ r.rows) r.processed r.world,
              ))
      ]

  abbrev tracked : List StakeAccount → ℕ
  tracked accounts = length (build_stake_account_index accounts)

  window-pages :
      (accounts : List StakeAccount) (dates : Dict ℕ Time) (targets : List ℕ)
      (boundaries : List EpochBoundary) (c : Processed) (w : World)
      → pages (collect_jito_tips_window fmt client accounts dates targets boundaries c w).world
        ≤ pages w + jito_max_pages_per_stake * tracked accounts
  unfolding collect_jito_tips_window
  window-pages accounts dates targets boundaries c w =
      let infos = build_stake_account_index accounts in
      let win = window_of fmt client dates targets boundaries in
      elim (Bool-cases (is_idle fmt client win targets infos)) [
        | inl idle ↦ rw idle (omega arith)
        | inr busy ↦ rw busy (accounts-pages win infos [] c w)
      ]

  left : (targets : List ℕ) → leb (length targets) 3 ≡ false → 0 < length (drop 3 targets)
  left targets more = ground (arith, length-drop 3 targets)

  some_targets :
      (accounts : List StakeAccount) (targets : List ℕ)
      → (nat_eq (length accounts) 0 || nat_eq (length targets) 0) ≡ false
      → 0 < length (take 12 targets)
  some_targets accounts targets busy = ground (arith, length-take 12 targets)

  shorter :
      (rounds : ℕ) (targets : List ℕ)
      → length targets ≤ 3 * suc rounds
      → length (drop 3 targets) ≤ 3 * rounds
  shorter rounds targets b = omega (arith, length-drop 3 targets)

  -- Each round takes three epochs.
  chunks-pages :
      (accounts : List StakeAccount) (dates : Dict ℕ Time) (boundaries : List EpochBoundary)
      (rounds fuel : ℕ) (targets : List ℕ) (rows : List (Row fmt client)) (c : Processed)
      (w : World)
      → 0 < length targets
      → length targets ≤ 3 * rounds
      → pages (collect_chunks fmt client accounts dates boundaries fuel targets rows c w).world
        ≤ pages w + rounds * (jito_max_pages_per_stake * tracked accounts)
  unfolding collect_chunks
  chunks-pages accounts dates boundaries rounds zero targets rows c w p b = omega arith
  chunks-pages accounts dates boundaries zero (suc fuel) targets rows c w p b = absurd (omega arith)
  chunks-pages accounts dates boundaries (suc rounds) (suc fuel) targets rows c w p b =
      let chunk = take jito_epoch_lookback targets in
      let rest = drop jito_epoch_lookback targets in
      let r = collect_jito_tips_window fmt client accounts dates chunk boundaries c w in
      let here = window-pages accounts dates chunk boundaries c w in
      let cost = jito_max_pages_per_stake * tracked accounts in
      let within : pages r.world ≤ pages w + suc rounds * cost = omega (arith, here) in
      elim (Option-cases r.failure) [
        | inr (e, failed) ↦ rw (failed, collect_chunks) within
        | inl fine ↦ elim (Bool-cases (leb (length targets) jito_epoch_lookback)) [
          | inl last ↦ rw (fine, last, collect_chunks) within
          | inr more ↦ elim (Option-cases (cancelled r.world)) [
            | inr (e, done) ↦ rw (fine, more, done, collect_chunks) within
            | inl running ↦
                rw (fine, more, running, collect_chunks)
                  (omega (
                    arith,
                    here,
                    counts.sleep_keeps second r.world,
                    chunks-pages accounts dates boundaries rounds fuel rest (rows ++ r.rows)
                        r.processed (sleep second r.world) (left targets more)
                        (shorter rounds targets b),
                  ))
          ]
        ]
      ]

  -- A collection of tips asks for at most forty pages of signatures for each tracked stake account:
  -- ten pages in each of at most four rounds. It does so however the network replies.
  pub collect_jito_tips-pages :
      (accounts : List StakeAccount) (dates : Dict ℕ Time) (targets : List ℕ)
      (boundaries : List EpochBoundary) (c : Processed) (w : World)
      → pages (collect_jito_tips fmt client accounts dates targets boundaries c w).world
        ≤ pages w + 40 * length (build_stake_account_index accounts)
  unfolding collect_jito_tips
  collect_jito_tips-pages accounts dates targets boundaries c w =
      elim (Bool-cases (nat_eq (length accounts) 0 || nat_eq (length targets) 0)) [
        | inl idle ↦ rw idle (omega arith)
        | inr busy ↦ rw busy (
            omega (
              arith,
              chunks-pages accounts dates boundaries 4 (length (take 12 targets)) (take 12 targets)
                  [] c w (some_targets accounts targets busy)
                  (omega (arith, length-take 12 targets)),
            ))
      ]
