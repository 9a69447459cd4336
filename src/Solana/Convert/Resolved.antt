-- ===== src/Solana/Convert/Resolved.antt =====
-- solana_client.go: what a converted transaction refers to.
use go_octopi.Base.{
  ℕ, ◌≡◌, ◌≢◌, refl, true, false, inl, inr, Option, none, some, List, [], ◌∷◌, ◌++◌, String, map,
  get_elem?, arith, Option-cases, ◌==◌, Eq, String-Eq, Bool-cases,
}
use go_octopi.Base.Int.{int_of_word}
use go_octopi.Solana.Types.{TransactionInstruction, InnerInstruction}
use go_octopi.Solana.Wire.{
  RpcAccountReference, RpcMessageInstruction, RpcInstruction, RpcInnerInstruction,
  RpcLoadedAddresses, RpcTransactionMeta, RpcTransactionMessage, RpcTransactionResult,
}
use go_octopi.Solana.Convert.{
  text_or_empty, key_at, cons_key, resolve_program_id, resolve_accounts,
  convert_message_instruction, convert_instruction, convert_inner, convert_meta, account_keys_of,
  message_keys, meta_keys, loaded_keys, convert_transaction_result, message_instructions,
}

-- What an index of a list of keys stands for: the key at its place, or nothing where it is missing or
-- out of range.
pub data Names (keys : List String) : Option ℕ → Option String → Type 0 where
  key : (i : ℕ) (k : String) → get_elem? keys i ≡ some k → Names keys (some i) (some k)
  out_of_range : (i : ℕ) → get_elem? keys i ≡ none → Names keys (some i) none
  missing : Names keys none none

-- The program of an instruction: the one that is spelled out, else the one that the index names, else
-- the empty text.
pub data Program (keys : List String) (explicit : String) (index : Option ℕ) : String → Type 0 where
  spelled : explicit ≢ "" → Program keys explicit index explicit
  named : (k : String) → explicit ≡ "" → Names keys index (some k) → Program keys explicit index k
  unknown : explicit ≡ "" → Names keys index none → Program keys explicit index ""

-- The accounts of an instruction, one for each reference, in order: the one that is spelled out, else
-- the one that the index names; a reference to nothing is passed over.
pub data Accounts (keys : List String) : List RpcAccountReference → List String → Type 0 where
  done : Accounts keys [] []
  spelled :
      (ref : RpcAccountReference) (refs : List RpcAccountReference) (rest : List String)
      → ref.address ≢ ""
      → Accounts keys refs rest
      → Accounts keys (ref ∷ refs) (ref.address ∷ rest)
  named :
      (ref : RpcAccountReference) (refs : List RpcAccountReference) (rest : List String)
      (k : String)
      → ref.address ≡ ""
      → Names keys ref.index (some k)
      → Accounts keys refs rest
      → Accounts keys (ref ∷ refs) (k ∷ rest)
  passed :
      (ref : RpcAccountReference) (refs : List RpcAccountReference) (rest : List String)
      → ref.address ≡ ""
      → Names keys ref.index none
      → Accounts keys refs rest
      → Accounts keys (ref ∷ refs) rest

-- The keys of the message, and those that the lookup tables loaded: the writable ones before the others.
pub data Static : Option RpcTransactionMessage → List String → Type 0 where
  no_message : Static none []
  message : (m : RpcTransactionMessage) → Static (some m) m.account_keys

pub data Loaded : Option RpcTransactionMeta → List String → Type 0 where
  no_meta : Loaded none []
  not_loaded : (m : RpcTransactionMeta) → m.loaded_addresses ≡ none → Loaded (some m) []
  loaded :
      (m : RpcTransactionMeta) (l : RpcLoadedAddresses)
      → m.loaded_addresses ≡ some l
      → Loaded (some m) (l.writable ++ l.readonly)

-- All keys of a transaction: those of its message, then the loaded ones.
pub record Keys (r : RpcTransactionResult) (keys : List String) : Type 0 where
  pub static_keys : List String
  pub dynamic_keys : List String
  pub is_static : Static r.transaction static_keys
  pub is_loaded : Loaded r.meta dynamic_keys
  pub in_order : keys ≡ static_keys ++ dynamic_keys

-- The two lists have one length, and what stands at one place is related.
abbrev pub All2 : {A B : Type 0} → (A → B → Type 0) → List A → List B → Type 0
All2 R [] [] = Unit
All2 R (x ∷ xs) (y ∷ ys) = R x y × All2 R xs ys
All2 R [] (y ∷ ys) = ⊥
All2 R (x ∷ xs) [] = ⊥

All2-map :
    {A B : Type 0} (R : A → B → Type 0) (f : A → B) (xs : List A)
    → ((x : A) → R x (f x))
    → All2 R xs (map f xs)
All2-map R f [] h = tt
All2-map R f (x ∷ xs) h = (h x, All2-map R f xs h)

blank_text : (s : String) → (s == "") ≡ true → s ≡ ""
blank_text s h = ground (arith, Eq.matches_iff String-Eq s "")

not_blank : (s : String) → (s == "") ≡ false → s ≢ ""
not_blank s h = ground (arith, Eq.matches_iff String-Eq s "")

module _ (keys : List String) where
  -- An instruction whose references to the keys are resolved.
  abbrev pub Resolves : RpcMessageInstruction → TransactionInstruction → Type 0
  Resolves raw inst =
      Program keys raw.program_id raw.program_id_index inst.program_id
      × Accounts keys raw.accounts inst.accounts
      × (inst.payload ≡ raw.payload)

  abbrev pub ResolvesInner : RpcInstruction → TransactionInstruction → Type 0
  ResolvesInner raw inst =
      Program keys raw.program_id raw.program_id_index inst.program_id
      × Accounts keys raw.accounts inst.accounts
      × (inst.payload ≡ raw.payload)

  -- The inner instructions of one instruction, one for one.
  abbrev pub ResolvesGroup : RpcInnerInstruction → InnerInstruction → Type 0
  ResolvesGroup raw group =
      (group.index ≡ int_of_word raw.index) × All2 ResolvesInner raw.instructions group.instructions

  key_at-Names : (index : Option ℕ) → Names keys index (key_at index keys)
  key_at-Names none = missing
  key_at-Names (some i) = elim (Option-cases (get_elem? keys i)) [
    | inl nowhere ↦ rw nowhere (out_of_range i nowhere)
    | inr (k, found) ↦ rw found (key i k found)
  ]

  indexed-Program :
      (explicit : String) (index : Option ℕ) (found : Option String)
      → explicit ≡ ""
      → Names keys index found
      → Program keys explicit index (text_or_empty found)
  indexed-Program explicit index none blank h = unknown blank h
  indexed-Program explicit index (some k) blank h = Program.named k blank h

  resolve_program_id-Program :
      (explicit : String) (index : Option ℕ)
      → Program keys explicit index (resolve_program_id explicit index keys)
  unfolding resolve_program_id
  resolve_program_id-Program explicit index = elim (Bool-cases (explicit == "")) [
    | inr other ↦ rw other (Program.spelled (not_blank explicit other))
    | inl blank ↦ rw blank (
        indexed-Program explicit index (key_at index keys) (blank_text explicit blank)
          (key_at-Names index))
  ]

  indexed-Accounts :
      (ref : RpcAccountReference) (refs : List RpcAccountReference) (rest : List String)
      (found : Option String)
      → ref.address ≡ ""
      → Names keys ref.index found
      → Accounts keys refs rest
      → Accounts keys (ref ∷ refs) (cons_key found rest)
  indexed-Accounts ref refs rest none blank h more = passed ref refs rest blank h more
  indexed-Accounts ref refs rest (some k) blank h more = Accounts.named ref refs rest k blank h more

  resolve_accounts-Accounts :
      (refs : List RpcAccountReference) → Accounts keys refs (resolve_accounts refs keys)
  unfolding resolve_accounts
  resolve_accounts-Accounts [] = done
  resolve_accounts-Accounts (ref ∷ refs) =
      let more = resolve_accounts-Accounts refs in
      let rest = resolve_accounts refs keys in
      elim (Bool-cases (ref.address == "")) [
        | inr other ↦ rw other (Accounts.spelled ref refs rest (not_blank ref.address other) more)
        | inl blank ↦ simp blank (
            indexed-Accounts ref refs rest (key_at ref.index keys) (blank_text ref.address blank)
              (key_at-Names ref.index) more)
      ]

  convert_message_instruction-Resolves :
      (raw : RpcMessageInstruction) → Resolves raw (convert_message_instruction keys raw)
  unfolding convert_message_instruction
  convert_message_instruction-Resolves raw = (
    resolve_program_id-Program raw.program_id raw.program_id_index,
    resolve_accounts-Accounts raw.accounts,
    refl,
  )

  convert_instruction-ResolvesInner :
      (raw : RpcInstruction) → ResolvesInner raw (convert_instruction keys raw)
  unfolding convert_instruction
  convert_instruction-ResolvesInner raw = (
    resolve_program_id-Program raw.program_id raw.program_id_index,
    resolve_accounts-Accounts raw.accounts,
    refl,
  )

  convert_inner-ResolvesGroup :
      (raw : RpcInnerInstruction) → ResolvesGroup raw (convert_inner keys raw)
  unfolding convert_inner
  convert_inner-ResolvesGroup raw = (
    refl,
    All2-map ResolvesInner (convert_instruction keys) raw.instructions
        convert_instruction-ResolvesInner,
  )

-- The inner instructions of a reply.
abbrev pub inner_instructions_of : Option RpcTransactionMeta → List RpcInnerInstruction
inner_instructions_of none = []
inner_instructions_of (some m) = m.inner_instructions

message_keys-Static : (m : Option RpcTransactionMessage) → Static m (message_keys m)
message_keys-Static none = no_message
message_keys-Static (some m) = message m

loaded_keys-Loaded :
    (m : RpcTransactionMeta) (l : Option RpcLoadedAddresses)
    → m.loaded_addresses ≡ l
    → Loaded (some m) (loaded_keys l)
loaded_keys-Loaded m none e = not_loaded m e
loaded_keys-Loaded m (some l) e = loaded m l e

meta_keys-Loaded : (m : Option RpcTransactionMeta) → Loaded m (meta_keys m)
meta_keys-Loaded none = no_meta
meta_keys-Loaded (some m) = loaded_keys-Loaded m m.loaded_addresses refl

account_keys_of-Keys : (r : RpcTransactionResult) → Keys r (account_keys_of r)
unfolding account_keys_of
account_keys_of-Keys r = record {
  static_keys = message_keys r.transaction;
  dynamic_keys = meta_keys r.meta;
  is_static = message_keys-Static r.transaction;
  is_loaded = meta_keys-Loaded r.meta;
  in_order = refl;
}

convert_meta-ResolvesGroup :
    (keys : List String) (m : Option RpcTransactionMeta)
    → All2 (ResolvesGroup keys) (inner_instructions_of m) (convert_meta keys m).inner_instructions
unfolding convert_meta
convert_meta-ResolvesGroup keys none = tt
convert_meta-ResolvesGroup keys (some m) =
    All2-map (ResolvesGroup keys) (convert_inner keys) m.inner_instructions
      (convert_inner-ResolvesGroup keys)

-- The keys of a converted transaction are those of its message, then the loaded ones, the writable
-- before the others. Its instructions, and its groups of inner instructions with theirs, are the
-- reply's, one for one and in order, with their data. The program and the accounts of each are those
-- that the reply spells out, or else the keys at the places that it names; without such a key a program
-- is empty, and an account is passed over.
pub convert_transaction_result-Resolves :
    (r : RpcTransactionResult)
    → let d = convert_transaction_result r in
      Keys r d.account_keys
      × All2 (Resolves d.account_keys) (message_instructions r.transaction) d.instructions
      × All2 (ResolvesGroup d.account_keys) (inner_instructions_of r.meta) d.meta.inner_instructions
unfolding convert_transaction_result
convert_transaction_result-Resolves r =
    let keys = account_keys_of r in
    (
      account_keys_of-Keys r,
      All2-map (Resolves keys) (convert_message_instruction keys)
          (message_instructions r.transaction) (convert_message_instruction-Resolves keys),
      convert_meta-ResolvesGroup keys r.meta,
    )
