-- ===== src/Tips/Collect/Rule.antt =====
-- jito_tips.go: the invariant rules of the loops of `collectStakeAccountTips` and of
-- `collectJitoTipsWindow`.
use go_octopi.Base.{
  ℕ, zero, suc, ◌≡◌, List, [], String, length, ltb, Option-cases, Bool-cases, inl, inr, last?,
}
use go_octopi.Base.Fault.{ok, Result-cases}
use go_octopi.Rewards.{Formats}
use go_octopi.Solana.Types.{SignatureInfo}
use go_octopi.Tips.Client.{Client, Details, fetch_transactions}
use go_octopi.Tips.Collect.{
  Row, add_tips, collect_pages, jito_signature_page_size, is_last_page, signature_of,
}
use go_octopi.Tips.Select.{Processed, select_new}
use go_octopi.Tips.Transaction.{TrackedStakeAccount, Window}

module _ {ℓ} (fmt : Formats) (client : Client) (win : Window) (account : TrackedStakeAccount) where
  open client use {World, cancelled, get_signatures_for_address}

  -- What an invariant over the pages left, the rows and the state must survive.
  pub record Survives (I : ℕ → List (Row fmt client) → Processed → World → Type ℓ) : Type ℓ where
    pub drops :
        (n : ℕ) (rows : List (Row fmt client)) (c : Processed) (w : World)
        → I n rows c w
        → I n [] c w
    pub weakens :
        (n : ℕ) (rows : List (Row fmt client)) (c : Processed) (w : World)
        → I (suc n) rows c w
        → I n rows c w
    pub asks :
        (n : ℕ) (before : String) (rows : List (Row fmt client)) (c : Processed) (w : World)
        → I (suc n) rows c w
        → I n rows c
            (get_signatures_for_address account.address jito_signature_page_size before w).1
    pub selects :
        (n : ℕ) (sigs : List SignatureInfo) (rows : List (Row fmt client)) (c : Processed)
        (w : World)
        → I n rows c w
        → I n rows (select_new win.min_slot sigs c).processed w
    pub fetches :
        (n : ℕ) (sigs : List String) (rows : List (Row fmt client)) (c : Processed) (w : World)
        → I n rows c w
        → I n rows c (fetch_transactions client sigs w).1
    -- The transactions are those of a reply for the new signatures of a page that was asked for.
    pub adds :
        (n : ℕ) (before : String) (sigs : List SignatureInfo) (txs : Details client)
        (rows : List (Row fmt client)) (c : Processed) (asked_at fetched_at w : World)
        → (get_signatures_for_address account.address jito_signature_page_size before asked_at).0
          ≡ ok sigs
        → (fetch_transactions client (select_new win.min_slot sigs c).fresh fetched_at).0 ≡ ok txs
        → let sel = select_new win.min_slot sigs c in
          I n rows sel.processed w
          → let t = add_tips fmt client win account sel.fresh txs rows sel.processed in
            I n t.0 t.1 w

  module _ (I : ℕ → List (Row fmt client) → Processed → World → Type ℓ) (s : Survives I) where
    all_pages :
        (n : ℕ) (rows : List (Row fmt client)) (c : Processed) (w : World)
        → I n rows c w
        → I 0 rows c w
    all_pages zero rows c w h = h
    all_pages (suc n) rows c w h = all_pages n rows c w (s.weakens n rows c w h)

    -- An invariant that holds before the loop over the pages holds behind it.
    pub collect_pages_inv :
        (n : ℕ) (before : String) (rows : List (Row fmt client)) (c : Processed) (w : World)
        → I n rows c w
        → let r = collect_pages fmt client win account n before rows c w in
          I 0 r.rows r.processed r.world
    unfolding collect_pages
    collect_pages_inv zero before rows c w h = h
    collect_pages_inv (suc n) before rows c w h =
        let a = get_signatures_for_address account.address jito_signature_page_size before w in
        let h1 = s.asks n before rows c w h in
        elim (Result-cases a.0) [
          | inl (e, failed) ↦
              rw (failed, collect_pages) (all_pages n [] c a.1 (s.drops n rows c a.1 h1))
          | inr (sigs, replied) ↦ elim (Bool-cases (ltb 0 (length sigs))) [
            | inr nothing ↦ rw (replied, nothing, collect_pages) (all_pages n rows c a.1 h1)
            | inl some_sigs ↦ elim (Option-cases (cancelled a.1)) [
              | inr (e, done) ↦
                  rw (replied, some_sigs, done, collect_pages) (all_pages n rows c a.1 h1)
              | inl running ↦
                  let sel = select_new win.min_slot sigs c in
                  let f = fetch_transactions client sel.fresh a.1 in
                  let h2 =
                    s.fetches n sel.fresh rows sel.processed a.1 (s.selects n sigs rows c a.1 h1) in
                  elim (Result-cases f.0) [
                    | inl (e, failed) ↦
                        rw (replied, some_sigs, running, failed, collect_pages)
                          (all_pages n rows sel.processed f.1 h2)
                    | inr (txs, fetched) ↦
                        let t = add_tips fmt client win account sel.fresh txs rows sel.processed in
                        let h3 = s.adds n before sigs txs rows c w a.1 f.1 replied fetched h2 in
                        elim (Bool-cases (is_last_page fmt client sigs sel.reached_old_slot)) [
                          | inl last ↦
                              rw (replied, some_sigs, running, fetched, last, collect_pages)
                                (all_pages n t.0 t.1 f.1 h3)
                          | inr more ↦
                              rw (replied, some_sigs, running, fetched, more, collect_pages)
                                (collect_pages_inv n (signature_of fmt client (last? sigs)) t.0 t.1
                                  f.1 h3)
                        ]
                  ]
            ]
          ]
        ]
