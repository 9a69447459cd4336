-- ===== src/Tips/Collect/Memory.antt =====
-- jito_tips.go: the cache of processed signatures stays sound and within its bound during a
-- collection.
use go_octopi.Base.{
  ℕ, zero, suc, ◌≡◌, ◌∙◌, List, [], ◌∷◌, ◌++◌, String, take, drop, length, Bool-cases, Option-cases,
  inl, inr, Dict, leb, ltb, lookup, String-Eq, nat_eq, ◌||◌,
}
use go_octopi.Base.Time.{Time, second}
use go_octopi.Lru
use go_octopi.Lru.{StringLru}
use go_octopi.Lru.Invariant.{IsValid, get-IsValid, add-IsValid}
use go_octopi.Rewards.{Formats}
use go_octopi.Solana.Types.{StakeAccount, EpochBoundary, SignatureInfo}
use go_octopi.Tips.Client.{Client, Details}
use go_octopi.Tips.Collect.{
  Row, detail_of, add_tips, collect_stake_account_tips, collect_accounts, window_of, is_idle,
  collect_jito_tips_window, collect_chunks, collect_jito_tips, jito_max_pages_per_stake,
  jito_epoch_lookback,
}
use go_octopi.Tips.Collect.Rule.{Survives, collect_pages_inv}
use go_octopi.Tips.Select.{
  Processed, is_signature_processed, mark_signature_processed, select_new,
  build_stake_account_index,
}
use go_octopi.Tips.Transaction.{TrackedStakeAccount, Window, tip_of}

-- A valid cache of at most 256 signatures, the `jitoProcessedCacheSize` of the collector.
pub record Fits (c : Processed) : Type 0 where
  pub valid : IsValid c
  pub capacity : c.capacity ≡ 256

get-Fits : (c : Processed) (sig : String) → Fits c → Fits (is_signature_processed c sig).0
unfolding is_signature_processed
get-Fits c sig f = record {
  valid = get-IsValid c sig f.valid;
  capacity = Lru.get-capacity c sig ∙ f.capacity;
}

mark-Fits : (c : Processed) (sig : String) → Fits c → Fits (mark_signature_processed c sig)
unfolding mark_signature_processed
mark-Fits c sig f = record {
  valid = add-IsValid c sig tt f.valid;
  capacity = Lru.add-capacity c sig tt ∙ f.capacity;
}

select-Fits :
    (min_slot : ℕ) (sigs : List SignatureInfo) (c : Processed)
    → Fits c
    → Fits (select_new min_slot sigs c).processed
unfolding select_new
select-Fits min_slot [] c f = f
select-Fits min_slot (sig ∷ sigs) c f = elim (Bool-cases (ltb sig.slot min_slot)) [
  | inl old ↦ rw old (select-Fits min_slot sigs c f)
  | inr new ↦
      let (c', seen) = is_signature_processed c sig.signature in
      let rest = select-Fits min_slot sigs c' (get-Fits c sig.signature f) in
      elim (Bool-cases seen) [
        | inl known ↦ rw (new, known) rest
        | inr unknown ↦ rw (new, unknown) rest
      ]
]

module _ (fmt : Formats) (client : Client) where
  open client use {World, cancelled, sleep}

  add_tips-Fits :
      (win : Window) (account : TrackedStakeAccount) (sigs : List String) (txs : Details client)
      (rows : List (Row fmt client)) (c : Processed)
      → Fits c
      → Fits (add_tips fmt client win account sigs txs rows c).1
  unfolding add_tips
  add_tips-Fits win account [] txs rows c f = f
  add_tips-Fits win account (sig ∷ sigs) txs rows c f =
      elim (Option-cases (tip_of fmt win account (detail_of (lookup sig txs)))) [
        | inl skip ↦ rw (skip, add_tips) (add_tips-Fits win account sigs txs rows c f)
        | inr (row, found) ↦
            rw (found, add_tips)
              (add_tips-Fits win account sigs txs (rows ++ row ∷ [])
                (mark_signature_processed c sig) (mark-Fits c sig f))
      ]

  Fits-Survives :
      (win : Window) (account : TrackedStakeAccount)
      → Survives fmt client win account (λ n rows c w. Fits c)
  Fits-Survives win account = record {
    drops = λ n rows c w f. f;
    weakens = λ n rows c w f. f;
    asks = λ n before rows c w f. f;
    selects = λ n sigs rows c w f. select-Fits win.min_slot sigs c f;
    fetches = λ n sigs rows c w f. f;
    adds = λ n before sigs txs rows c w0 w1 w asked fetched f.
        let sel = select_new win.min_slot sigs c in
        add_tips-Fits win account sel.fresh txs rows sel.processed f;
  }

  account-Fits :
      (win : Window) (account : TrackedStakeAccount) (c : Processed) (w : World)
      → Fits c
      → Fits (collect_stake_account_tips fmt client win account c w).processed
  unfolding collect_stake_account_tips
  account-Fits win account c w f =
      collect_pages_inv fmt client win account (λ n rows c' w'. Fits c') (Fits-Survives win account)
        jito_max_pages_per_stake "" [] c w f

  accounts-Fits :
      (win : Window) (accounts : List TrackedStakeAccount) (rows : List (Row fmt client))
      (c : Processed) (w : World)
      → Fits c
      → Fits (collect_accounts fmt client win accounts rows c w).processed
  unfolding collect_accounts
  accounts-Fits win [] rows c w f = f
  accounts-Fits win (a ∷ accounts) rows c w f =
      let r = collect_stake_account_tips fmt client win a c w in
      let f' = account-Fits win a c w f in
      elim (Option-cases r.failure) [
        | inr (e, failed) ↦ rw (failed, collect_accounts) f'
        | inl fine ↦
            rw (fine, collect_accounts)
              (accounts-Fits win accounts (rows ++ r.rows) r.processed r.world f')
      ]

  window-Fits :
      (accounts : List StakeAccount) (dates : Dict ℕ Time) (targets : List ℕ)
      (boundaries : List EpochBoundary) (c : Processed) (w : World)
      → Fits c
      → Fits (collect_jito_tips_window fmt client accounts dates targets boundaries c w).processed
  unfolding collect_jito_tips_window
  window-Fits accounts dates targets boundaries c w f =
      let infos = build_stake_account_index accounts in
      let win = window_of fmt client dates targets boundaries in
      elim (Bool-cases (is_idle fmt client win targets infos)) [
        | inl idle ↦ rw idle f
        | inr busy ↦ rw busy (accounts-Fits win infos [] c w f)
      ]

  chunks-Fits :
      (accounts : List StakeAccount) (dates : Dict ℕ Time) (boundaries : List EpochBoundary)
      (fuel : ℕ) (targets : List ℕ) (rows : List (Row fmt client)) (c : Processed) (w : World)
      → Fits c
      → Fits (collect_chunks fmt client accounts dates boundaries fuel targets rows c w).processed
  unfolding collect_chunks
  chunks-Fits accounts dates boundaries zero targets rows c w f = f
  chunks-Fits accounts dates boundaries (suc fuel) targets rows c w f =
      let chunk = take jito_epoch_lookback targets in
      let r = collect_jito_tips_window fmt client accounts dates chunk boundaries c w in
      let f' = window-Fits accounts dates chunk boundaries c w f in
      elim (Option-cases r.failure) [
        | inr (e, failed) ↦ rw (failed, collect_chunks) f'
        | inl fine ↦ elim (Bool-cases (leb (length targets) jito_epoch_lookback)) [
          | inl last ↦ rw (fine, last, collect_chunks) f'
          | inr more ↦ elim (Option-cases (cancelled r.world)) [
            | inr (e, done) ↦ rw (fine, more, done, collect_chunks) f'
            | inl running ↦
                rw (fine, more, running, collect_chunks)
                  (chunks-Fits accounts dates boundaries fuel (drop jito_epoch_lookback targets)
                    (rows ++ r.rows) r.processed (sleep second r.world) f')
          ]
        ]
      ]

  -- A collection of tips that begins with a valid cache for 256 signatures leaves a valid cache for
  -- 256 signatures, whatever the network replies and on every error path.
  pub collect_jito_tips-Fits :
      (accounts : List StakeAccount) (dates : Dict ℕ Time) (targets : List ℕ)
      (boundaries : List EpochBoundary) (c : Processed) (w : World)
      → Fits c
      → Fits (collect_jito_tips fmt client accounts dates targets boundaries c w).processed
  unfolding collect_jito_tips
  collect_jito_tips-Fits accounts dates targets boundaries c w f =
      elim (Bool-cases (nat_eq (length accounts) 0 || nat_eq (length targets) 0)) [
        | inl idle ↦ rw idle f
        | inr busy ↦ rw busy (
            chunks-Fits accounts dates boundaries (length (take 12 targets)) (take 12 targets) [] c
              w f)
      ]
