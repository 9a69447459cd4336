-- ===== src/Tips/Collect/Supply.antt =====
-- jito_tips.go: which accounts, signatures and transactions a collection works on.
use go_octopi.Base.{
  ℕ, ◌≤◌, ◌≡◌, refl, Option, none, some, List, [], ◌∷◌, String, arith, All, All-map, In, Bool-cases,
  inl, inr, lookup, insert, lookup-insert, String-Eq, Eq, if◌then◌else◌, ◌==◌, ltb,
}
use go_octopi.Base.Fault.{ok, Result-cases}
use go_octopi.Solana.Types.{SignatureInfo, TransactionDetail, StakeAccount}
use go_octopi.Tips.Client.{
  Client, Details, fetch_each, fetch_transactions, is_batch_unavailable_error,
}
use go_octopi.Tips.Collect.{jito_signature_page_size}
use go_octopi.Tips.Select.{Processed, select_new, is_signature_processed, is_seen, index_accounts}
use go_octopi.Tips.Transaction.{TrackedStakeAccount}

-- A stake account of a list, of which the address and the validator are known.
abbrev pub Indexed : List StakeAccount → TrackedStakeAccount → Type 0
Indexed accounts a =
    (s : StakeAccount) × In s accounts × (a.address ≡ s.address) × (a.validator ≡ s.vote_account)

Indexed-later :
    (s : StakeAccount) (accounts : List StakeAccount) (a : TrackedStakeAccount)
    → Indexed accounts a
    → Indexed (s ∷ accounts) a
Indexed-later s accounts a (t, i, address, validator) = (t, inr i, address, validator)

pub index_accounts-Indexed :
    (seen : List String) (accounts : List StakeAccount)
    → All (Indexed accounts) (index_accounts seen accounts)
unfolding index_accounts
index_accounts-Indexed seen [] = tt
index_accounts-Indexed seen (s ∷ accounts) =
    let later = λ (seen' : List String).
      All-map _ (Indexed (s ∷ accounts)) (index_accounts seen' accounts) (Indexed-later s accounts)
        (index_accounts-Indexed seen' accounts) in
    elim (Bool-cases (s.address == "")) [
      | inl blank ↦ rw (blank, index_accounts) (later seen)
      | inr given ↦ elim (Bool-cases (is_seen s.address seen)) [
        | inl again ↦ rw (given, again, index_accounts) (later seen)
        | inr new ↦
            rw (given, new, index_accounts) ((s, inl refl, refl, refl), later (s.address ∷ seen))
      ]
    ]

-- A new signature of a page is one of the page, of a slot that is recent enough.
abbrev pub Listed : ℕ → List SignatureInfo → String → Type 0
Listed min_slot page sig =
    (s : SignatureInfo) × In s page × (s.signature ≡ sig) × (min_slot ≤ s.slot)

Listed-later :
    (min_slot : ℕ) (s : SignatureInfo) (page : List SignatureInfo) (sig : String)
    → Listed min_slot page sig
    → Listed min_slot (s ∷ page) sig
Listed-later min_slot s page sig (t, i, same, recent) = (t, inr i, same, recent)

pub select_new-Listed :
    (min_slot : ℕ) (page : List SignatureInfo) (c : Processed)
    → All (Listed min_slot page) (select_new min_slot page c).fresh
unfolding select_new
select_new-Listed min_slot [] c = tt
select_new-Listed min_slot (s ∷ page) c =
    let seen = is_signature_processed c s.signature in
    let later = λ (c' : Processed).
      All-map _ (Listed min_slot (s ∷ page)) (select_new min_slot page c').fresh
        (Listed-later min_slot s page) (select_new-Listed min_slot page c') in
    elim (Bool-cases (ltb s.slot min_slot)) [
      | inl old ↦ rw (old, select_new) (later c)
      | inr recent ↦ elim (Bool-cases seen.1) [
        | inl again ↦ rw (recent, again, select_new) (later seen.0)
        | inr new ↦ rw (recent, new, select_new) ((s, inl refl, refl, ground arith), later seen.0)
      ]
    ]

module _ (client : Client) where
  open client use {World, get_signatures_for_address, get_transactions, get_transaction}

  -- The network gave the transaction for the signature: in a batch for several, or alone.
  pub data Fetched (sig : String) (d : TransactionDetail) : Type 0 where
    in_batch :
        (sigs : List String) (found : Details client) (w : World)
        → (get_transactions sigs w).0 ≡ ok found
        → lookup sig found ≡ some (some d)
        → Fetched sig d
    alone : (w : World) → (get_transaction sig w).0 ≡ ok (some d) → Fetched sig d

  insert-Fetched :
      (s sig : String) (detail : Option TransactionDetail) (found : Details client)
      (d : TransactionDetail) (w : World)
      → (get_transaction s w).0 ≡ ok detail
      → (lookup sig found ≡ some (some d) → Fetched sig d)
      → lookup sig (insert s detail found) ≡ some (some d)
      → Fetched sig d
  insert-Fetched s sig detail found d w replied f h =
      let put : (if s == sig then some detail else lookup sig found) ≡ some (some d) =
        rw (lookup-insert s sig detail found) at h in
      elim (Bool-cases (s == sig)) [
        | inl same ↦
            let key : s ≡ sig = ground (arith, Eq.matches_iff String-Eq s sig) in
            let value : detail ≡ some d = ground arith in alone w (rw (← key, ← value) replied)
        | inr other ↦ f (ground arith)
      ]

  fetch_each-Fetched :
      (sigs : List String) (found all : Details client) (w : World) (sig : String)
      (d : TransactionDetail)
      → (lookup sig found ≡ some (some d) → Fetched sig d)
      → (fetch_each client sigs found w).0 ≡ ok all
      → lookup sig all ≡ some (some d)
      → Fetched sig d
  unfolding fetch_each
  fetch_each-Fetched [] found all w sig d f h l =
      let same : found ≡ all = ground arith in f (rw same l)
  fetch_each-Fetched (s ∷ sigs) found all w sig d f h l =
      let reply = get_transaction s w in
      elim (Result-cases reply.0) [
        | inl (e, failed) ↦ absurd (ground arith)
        | inr (detail, replied) ↦
            fetch_each-Fetched sigs (insert s detail found) all reply.1 sig d
              (insert-Fetched s sig detail found d w replied f) (rw (replied, fetch_each) at h) l
      ]

  pub fetch_transactions-Fetched :
      (sigs : List String) (all : Details client) (w : World) (sig : String) (d : TransactionDetail)
      → (fetch_transactions client sigs w).0 ≡ ok all
      → lookup sig all ≡ some (some d)
      → Fetched sig d
  unfolding fetch_transactions lookup
  fetch_transactions-Fetched [] all w sig d h l =
      let same : [] ≡ all = ground arith in
      let found : none ≡ some (some d) = rw (← same) at l in absurd (ground arith)
  fetch_transactions-Fetched (s ∷ sigs) all w sig d h l =
      let reply = get_transactions (s ∷ sigs) w in
      elim (Result-cases reply.0) [
        | inr (found, replied) ↦
            let same : found ≡ all = ground arith in
            in_batch (s ∷ sigs) all w (rw (← same) replied) l
        | inl (e, failed) ↦ elim (Bool-cases (is_batch_unavailable_error e)) [
          | inr other ↦ absurd (ground arith)
          | inl unavailable ↦
              fetch_each-Fetched (s ∷ sigs) [] all reply.1 sig d (λ none_yet. absurd (ground arith))
                (rw (failed, unavailable, fetch_transactions) at h) l
        ]
      ]

  -- The network listed the signature for the address, in a slot that is recent enough, and gave the
  -- transaction for it.
  pub record Supplied (min_slot : ℕ) (address : String) (d : TransactionDetail) : Type 0 where
    pub before : String
    pub asked_at : World
    pub page : List SignatureInfo
    pub sig : String
    pub replied :
        (get_signatures_for_address address jito_signature_page_size before asked_at).0 ≡ ok page
    pub listed : Listed min_slot page sig
    pub fetched : Fetched sig d
