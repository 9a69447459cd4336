-- ===== src/Tips/Collect/Chunks.antt =====
-- jito_tips.go: the fuel of the loop of `collectJitoTips`.
use go_octopi.Base.{
  ℕ, zero, suc, ◌<◌, ◌≤◌, ◌≡◌, refl, ◌++◌, List, Dict, length, take, drop, leb, length-drop, arith,
  inl, inr, Bool-cases, Option-cases,
}
use go_octopi.Base.Time.{Time, second}
use go_octopi.Rewards.{Formats}
use go_octopi.Solana.Types.{StakeAccount, EpochBoundary}
use go_octopi.Tips.Client.{Client}
use go_octopi.Tips.Collect.{Row, collect_jito_tips_window, collect_chunks}
use go_octopi.Tips.Select.{Processed}

module _ (fmt : Formats) (client : Client) where
  open client use {World, cancelled, sleep}

  -- For any target epochs, at least one, as many rounds as there are epochs are enough: the loop of `collectJitoTips`
  -- has ended by then, and more fuel changes nothing of what it returns.
  pub collect_chunks-enough :
      (accounts : List StakeAccount) (dates : Dict ℕ Time) (boundaries : List EpochBoundary) (n : ℕ)
      (targets : List ℕ) (rows : List (Row fmt client)) (c : Processed) (w : World)
      → 0 < length targets
      → length targets ≤ n
      → collect_chunks fmt client accounts dates boundaries n targets rows c w
        ≡ collect_chunks fmt client accounts dates boundaries (suc n) targets rows c w
  unfolding collect_chunks
  collect_chunks-enough accounts dates boundaries zero targets rows c w some_left fits =
      absurd (omega arith)
  collect_chunks-enough accounts dates boundaries (suc n) targets rows c w some_left fits =
      let r = collect_jito_tips_window fmt client accounts dates (take 3 targets) boundaries c w in
      elim (Option-cases r.failure) [
        | inr (e, failed) ↦ rw (failed, collect_chunks) refl
        | inl fine ↦ elim (Bool-cases (leb (length targets) 3)) [
          | inl last ↦ rw (fine, last, collect_chunks) refl
          | inr more ↦ elim (Option-cases (cancelled r.world)) [
            | inr (e, done) ↦ rw (fine, more, done, collect_chunks) refl
            | inl going ↦
                rw (fine, more, going, collect_chunks)
                  (collect_chunks-enough accounts dates boundaries n (drop 3 targets)
                    (rows ++ r.rows) r.processed (sleep second r.world)
                    (ground (arith, length-drop 3 targets)) (ground (arith, length-drop 3 targets)))
          ]
        ]
      ]
