-- ===== src/Tips/Collect.antt =====
-- jito_tips.go: the collection of the tips of one stake account page by page, of a window of epochs
-- and of all target epochs. The collector's state is the cache of processed signatures.
pub mod Rule
pub mod Supply
pub mod Backing
pub mod Requests
pub mod Memory
pub mod Chunks
use Prim.Native.String.{◌++◌ as join}
use go_octopi.Base.{
  ℕ, zero, suc, ◌*◌, nat_eq, Bool, true, false, ◌||◌, Option, none, some, List, [], ◌∷◌, ◌++◌,
  String, Dict, lookup, insert, length, take, drop, last?, ltb, leb, if◌then◌else◌, ◌==◌, String-Eq,
}
use go_octopi.Base.Fault.{Error, wrap, Result, ok, err}
use go_octopi.Base.Time.{Time, second}
use go_octopi.Rewards.{Formats, RewardRow}
use go_octopi.Solana.Types.{SignatureInfo, StakeAccount, TransactionDetail, EpochBoundary}
use go_octopi.Tips.Client.{Client, Details, fetch_transactions}
use go_octopi.Tips.Intervals.{build_epoch_intervals, min_allowed_slot}
use go_octopi.Tips.Select.{
  Processed, Selection, select_new, mark_signature_processed, build_stake_account_index,
}
use go_octopi.Tips.Transaction.{TrackedStakeAccount, Window, tip_of, includes}

abbrev pub jito_signature_page_size : ℕ
jito_signature_page_size = 25

abbrev pub jito_max_pages_per_stake : ℕ
jito_max_pages_per_stake = 10

abbrev pub jito_epoch_lookback : ℕ
jito_epoch_lookback = 3

abbrev pub jito_epoch_chunk_runs : ℕ
jito_epoch_chunk_runs = 4

-- txs[signature]: a missing key reads as nil.
abbrev pub detail_of : Option (Option TransactionDetail) → Option TransactionDetail
detail_of none = none
detail_of (some d) = d

module _ (fmt : Formats) (client : Client) where
  open fmt use {Float64}
  open client use {World, cancelled, sleep, get_signatures_for_address}

  abbrev pub Row : Type 0
  Row = RewardRow Float64

  -- What a Go function returns besides the new state: rows, and an error that may be nil.
  pub record Collected : Type 0 where
    pub rows : List Row
    pub failure : Option Error
    pub processed : Processed
    pub world : World

  -- The loop over the fetched transactions of a page: a row is appended and its signature marked.
  unfoldable pub add_tips :
      Window
      → TrackedStakeAccount
      → List String
      → Details client
      → List Row
      → Processed
      → List Row × Processed
  add_tips win account [] txs rows c = (rows, c)
  add_tips win account (sig ∷ sigs) txs rows c =
      elim (tip_of fmt win account (detail_of (lookup sig txs))) [
        | none ↦ add_tips win account sigs txs rows c
        | some row ↦
            add_tips win account sigs txs (rows ++ row ∷ []) (mark_signature_processed c sig)
      ]

  -- The end of a page: more pages are asked for only behind a full page with no old slot.
  abbrev pub is_last_page : List SignatureInfo → Bool → Bool
  is_last_page sigs old = ltb (length sigs) jito_signature_page_size || old

  abbrev pub signature_of : Option SignatureInfo → String
  signature_of none = ""
  signature_of (some s) = s.signature

  -- The loop of `collectStakeAccountTips`, with the pages that it may still ask for.
  unfoldable pub collect_pages :
      Window → TrackedStakeAccount → ℕ → String → List Row → Processed → World → Collected
  collect_pages win account zero before rows c w = record {
    rows = rows;
    failure = none;
    processed = c;
    world = w;
  }
  collect_pages win account (suc pages) before rows c w =
      let (reply, w1) =
        get_signatures_for_address account.address jito_signature_page_size before w in
      elim reply [
        | err e ↦ record {
          rows = [];
          failure = some (wrap (join "signatures for " account.address) e);
          processed = c;
          world = w1;
        }
        | ok sigs ↦ elim (ltb 0 (length sigs)) [
          | false ↦ record { rows = rows; failure = none; processed = c; world = w1 }
          | true ↦ elim (cancelled w1) [
            | some e ↦ record { rows = rows; failure = some e; processed = c; world = w1 }
            | none ↦
                let sel = select_new win.min_slot sigs c in
                let (fetched, w2) = fetch_transactions client sel.fresh w1 in
                elim fetched [
                  | err e ↦ record {
                    rows = rows;
                    failure = none;
                    processed = sel.processed;
                    world = w2;
                  }
                  | ok txs ↦
                      let (rows', c') = add_tips win account sel.fresh txs rows sel.processed in
                      elim (is_last_page sigs sel.reached_old_slot) [
                        | true ↦ record { rows = rows'; failure = none; processed = c'; world = w2 }
                        | false ↦
                            collect_pages win account pages (signature_of (last? sigs)) rows' c' w2
                      ]
                ]
          ]
        ]
      ]

  -- collectStakeAccountTips
  unfoldable pub collect_stake_account_tips :
      Window → TrackedStakeAccount → Processed → World → Collected
  collect_stake_account_tips win account c w =
      collect_pages win account jito_max_pages_per_stake "" [] c w

  -- The loop of `collectJitoTipsWindow` over the stake accounts; a failure drops all rows.
  unfoldable pub collect_accounts :
      Window → List TrackedStakeAccount → List Row → Processed → World → Collected
  collect_accounts win [] rows c w = record {
    rows = rows;
    failure = none;
    processed = c;
    world = w;
  }
  collect_accounts win (account ∷ accounts) rows c w =
      let r = collect_stake_account_tips win account c w in
      elim r.failure [
        | some e ↦ record r { rows = [] }
        | none ↦ collect_accounts win accounts (rows ++ r.rows) r.processed r.world
      ]

  -- What `collectJitoTipsWindow` fixes for the accounts: the first epochs of the targets, the slots
  -- of all epochs, and the first slot of an allowed epoch.
  abbrev pub window_of : Dict ℕ Time → List ℕ → List EpochBoundary → Window
  window_of dates targets boundaries =
      let allowed = take jito_epoch_lookback targets in
      let intervals = build_epoch_intervals boundaries in
      record {
        allowed = allowed;
        intervals = intervals;
        epoch_dates = dates;
        min_slot = min_allowed_slot allowed intervals;
      }

  abbrev pub nothing : Processed → World → Collected
  nothing c w = record { rows = []; failure = none; processed = c; world = w }

  abbrev pub is_idle : Window → List ℕ → List TrackedStakeAccount → Bool
  is_idle win targets infos =
      nat_eq (length targets) 0 || nat_eq (length infos) 0 || nat_eq (length win.intervals) 0

  -- collectJitoTipsWindow, for a collector that is there.
  unfoldable pub collect_jito_tips_window :
      List StakeAccount → Dict ℕ Time → List ℕ → List EpochBoundary → Processed → World → Collected
  collect_jito_tips_window accounts dates targets boundaries c w =
      let infos = build_stake_account_index accounts in
      let win = window_of dates targets boundaries in
      if is_idle win targets infos then nothing c w else collect_accounts win infos [] c w

  -- The loop of `collectJitoTips` over the chunks of the target epochs, on fuel. The epochs fall by
  -- three in a round, so as many rounds as there are epochs are enough.
  unfoldable pub collect_chunks :
      List StakeAccount
      → Dict ℕ Time
      → List EpochBoundary
      → ℕ
      → List ℕ
      → List Row
      → Processed
      → World
      → Collected
  collect_chunks accounts dates boundaries zero targets rows c w = record {
    rows = rows;
    failure = none;
    processed = c;
    world = w;
  }
  collect_chunks accounts dates boundaries (suc fuel) targets rows c w =
      let r =
        collect_jito_tips_window accounts dates (take jito_epoch_lookback targets) boundaries c w in
      elim r.failure [
        | some e ↦ record r { rows = [] }
        | none ↦
            let rows' = rows ++ r.rows in
            elim (leb (length targets) jito_epoch_lookback) [
              | true ↦ record r { rows = rows' }
              | false ↦ elim (cancelled r.world) [
                | some e ↦ record r { rows = rows'; failure = some e }
                | none ↦
                    collect_chunks accounts dates boundaries fuel (drop jito_epoch_lookback targets)
                      rows' r.processed (sleep second r.world)
              ]
            ]
      ]

  -- collectJitoTips, for a collector that is there.
  unfoldable pub collect_jito_tips :
      List StakeAccount → Dict ℕ Time → List ℕ → List EpochBoundary → Processed → World → Collected
  collect_jito_tips accounts dates targets boundaries c w =
      if nat_eq (length accounts) 0 || nat_eq (length targets) 0
      then nothing c w
      else (let targets' = take (jito_epoch_lookback * jito_epoch_chunk_runs) targets in
          collect_chunks accounts dates boundaries (length targets') targets' [] c w)
