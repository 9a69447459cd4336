-- ===== src/Solana/Batch/Answers.antt =====
-- solana_client.go: under which signatures `fetchTransactionBatch` files the replies of a batch.
use go_octopi.Base.{
  ℕ, ◌≡◌, refl, ◌≢◌, Option, none, some, List, [], ◌∷◌, String, Dict, lookup, insert, All, In,
  arith, inl, inr, ◌==◌, eq_iff, String-Eq, Bool-cases, Option-cases, lookup-insert,
}
use go_octopi.Base.Fault.{ok}
use go_octopi.Base.Text.{Bytes-Eq}
use go_octopi.Solana.Batch.{Lookup, Details, id_to_signature, text_of, note_reply, collect_replies}
use go_octopi.Solana.Convert.{convert_transaction_result}
use go_octopi.Solana.Types.{TransactionDetail}
use go_octopi.Solana.Wire.{RpcResponse, RpcTransactionResult}

abbrev pub Reply : Type 0
Reply = RpcResponse (Option RpcTransactionResult)

-- An entry of the results: the conversion of a reply, filed under the signature of the request whose
-- identity the reply carries.
pub record Answers (ls : List Lookup) (items : List Reply) (entry : String × TransactionDetail)
    : Type 0 where
  pub item : Reply
  pub result : RpcTransactionResult
  pub replied : In item items
  pub succeeded : item.failure ≡ none
  pub has_result : item.result ≡ some result
  pub requested : In (item.id, entry.0) ls
  pub converted : entry.1 ≡ convert_transaction_result result

All-insert :
    (P : String × TransactionDetail → Type 0) (k : String) (d : TransactionDetail) (m : Details)
    → P (k, d)
    → All P m
    → All P (insert k d m)
unfolding insert
All-insert P k d [] p h = (p, tt)
All-insert P k d ((j, e) ∷ m) p h = elim (Bool-cases (j == k)) [
  | inl same ↦ rw same (p, h.1)
  | inr other ↦ rw other (h.0, All-insert P k d m p h.1)
]

-- What the map of identities holds came from a request, or was there before.
id_to_signature-In :
    (ls : List Lookup) (m : Dict (List ℕ) String) (id : List ℕ) (sig : String)
    → lookup id (id_to_signature ls m) ≡ some sig
    → lookup id m ≢ some sig
    → In (id, sig) ls
unfolding id_to_signature
id_to_signature-In [] m id sig h n = absurd (n h)
id_to_signature-In ((i, s) ∷ ls) m id sig h n = elim (dec (lookup id (insert i s m)) sig) [
  | yes now ↦ inl (ground (arith, lookup-insert i id s m, eq_iff i id))
  | no still ↦ inr (id_to_signature-In ls (insert i s m) id sig h still)
]
  where
    dec : (o : Option String) (t : String) → Dec (o ≡ some t)
    dec none t = no (λ e. cc)
    dec (some u) t = elim (Bool-cases (u == t)) [
      | inl same ↦ yes (ground (arith, eq_iff u t))
      | inr other ↦ no (λ e. ground (arith, eq_iff u t))
    ]

nothing-found : (id : List ℕ) (sig : String) → lookup {V = String} id [] ≢ some sig
unfolding lookup
nothing-found id sig e = cc

note_reply-Answers :
    (ls : List Lookup) (items : List Reply) (item : Reply) (found : Details)
    → In item items
    → item.failure ≡ none
    → All (Answers ls items) found
    → All
        (Answers ls items)
        (note_reply (text_of (lookup item.id (id_to_signature ls []))) item.result found)
unfolding note_reply
note_reply-Answers ls items item found i fine h = elim (Option-cases item.result) [
  | inl missing ↦ rw (missing, note_reply) h
  | inr (r, has_result) ↦ elim (Option-cases (lookup item.id (id_to_signature ls []))) [
    | inl unknown ↦ rw (has_result, unknown, note_reply) h
    | inr (sig, known) ↦ elim (Bool-cases (sig == "")) [
      | inl empty ↦ rw (has_result, known, empty, note_reply) h
      | inr named ↦
          rw (has_result, known, named, note_reply)
            (All-insert (Answers ls items) sig (convert_transaction_result r) found
              (record {
                item = item;
                result = r;
                replied = i;
                succeeded = fine;
                has_result = has_result;
                requested = id_to_signature-In ls [] item.id sig known (nothing-found item.id sig);
                converted = refl;
              })
              h)
    ]
  ]
]

collect_replies-from :
    (ls : List Lookup) (all items : List Reply) (found details : Details)
    → ((x : Reply) → In x items → In x all)
    → All (Answers ls all) found
    → collect_replies (id_to_signature ls []) items found ≡ ok details
    → All (Answers ls all) details
unfolding collect_replies
collect_replies-from ls all [] found details inside h e =
    let same : found ≡ details = ground arith in rw (← same) h
collect_replies-from ls all (item ∷ items) found details inside h e =
    elim (Option-cases item.failure) [
      | inr (f, failed) ↦ absurd (ground arith)
      | inl fine ↦
          collect_replies-from ls all items
            (note_reply (text_of (lookup item.id (id_to_signature ls []))) item.result found)
            details (λ x i. inside x (inr i))
            (note_reply-Answers ls all item found (inside item (inl refl)) fine h)
            (rw (fine, collect_replies) at e)
    ]

no_failure :
    (ls : List Lookup) (items : List Reply) (found details : Details)
    → collect_replies (id_to_signature ls []) items found ≡ ok details
    → All (λ (item : Reply). item.failure ≡ none) items
unfolding collect_replies
no_failure ls [] found details h = tt
no_failure ls (item ∷ items) found details h = elim (Option-cases item.failure) [
  | inr (f, failed) ↦ absurd (ground arith)
  | inl fine ↦ (
    fine,
    no_failure ls items
        (note_reply (text_of (lookup item.id (id_to_signature ls []))) item.result found) details
        (rw (fine, collect_replies) at h),
  )
]

-- A batch succeeds only if none of the replies it reads carries an error. Each of its results is the
-- conversion of a reply that has a result, filed under the signature of the request whose identity the
-- reply carries: replies may come in any order, and what answers no request is dropped.
pub collect_replies-Answers :
    (ls : List Lookup) (items : List Reply) (details : Details)
    → collect_replies (id_to_signature ls []) items [] ≡ ok details
    → All (Answers ls items) details × All (λ (item : Reply). item.failure ≡ none) items
collect_replies-Answers ls items details h = (
  collect_replies-from ls items items [] details (λ x i. i) tt h,
  no_failure ls items [] details h,
)
