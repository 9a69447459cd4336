-- ===== src/Tips/Transaction/Gains.antt =====
-- jito_tips.go: the call of a Jito program and the gain that a transaction must have.
use go_octopi.Base.{
  ℕ, suc, ◌+◌, ◌<◌, ◌≡◌, ◌⊎◌, refl, true, Bool-cases, inl, inr, Option, none, some, List, [], ◌∷◌,
  String, get_elem?, arith, In, ltb, ◌==◌, String-Eq, ℕ-Eq, Eq,
}
use go_octopi.Solana.Types.{TransactionDetail, TransactionInstruction, InnerInstruction}
use go_octopi.Tips.Transaction.{
  compute_tip_lamports, first_gain, gain, is_jito_program, runs_jito, inner_runs_jito,
  transaction_has_jito_instruction,
}

-- The three programs of Jito.
abbrev pub IsJito : String → Type 0
IsJito id =
    (id ≡ "JitoTipDistribution11111111111111111111111111111")
    ⊎ ((id ≡ "RouterBmuRBkPUbgEDMtdvTZ75GBdSREZR5uGUxxxpb")
        ⊎ (id ≡ "4R3gSG8BpU4t19KYj8CfnbtRpnT8gtk4dvTHxVRwc2r7"))

abbrev pub Runs : List TransactionInstruction → Type 0
Runs insts = (i : TransactionInstruction) × In i insts × IsJito i.program_id

abbrev pub RunsInner : List InnerInstruction → Type 0
RunsInner groups = (g : InnerInstruction) × In g groups × Runs g.instructions

-- An instruction of the transaction, or an inner one, calls a program of Jito.
abbrev pub CallsJito : TransactionDetail → Type 0
CallsJito d = Runs d.instructions ⊎ RunsInner d.meta.inner_instructions

text_eq : (a b : String) → (a == b) ≡ true → a ≡ b
text_eq a b h = ground (arith, Eq.matches_iff String-Eq a b)

is_jito_program-IsJito : (id : String) → is_jito_program id ≡ true → IsJito id
unfolding is_jito_program
is_jito_program-IsJito id h = ground (
  arith,
  text_eq id "JitoTipDistribution11111111111111111111111111111",
  text_eq id "RouterBmuRBkPUbgEDMtdvTZ75GBdSREZR5uGUxxxpb",
  text_eq id "4R3gSG8BpU4t19KYj8CfnbtRpnT8gtk4dvTHxVRwc2r7",
)

runs_jito-Runs : (insts : List TransactionInstruction) → runs_jito insts ≡ true → Runs insts
unfolding runs_jito
runs_jito-Runs [] h = absurd (ground arith)
runs_jito-Runs (i ∷ insts) h = elim (Bool-cases (is_jito_program i.program_id)) [
  | inl here ↦ (i, inl refl, is_jito_program-IsJito i.program_id here)
  | inr other ↦ let (j, there, jito) = runs_jito-Runs insts (ground arith) in (j, inr there, jito)
]

inner_runs_jito-RunsInner :
    (groups : List InnerInstruction) → inner_runs_jito groups ≡ true → RunsInner groups
unfolding inner_runs_jito
inner_runs_jito-RunsInner [] h = absurd (ground arith)
inner_runs_jito-RunsInner (g ∷ groups) h = elim (Bool-cases (runs_jito g.instructions)) [
  | inl here ↦ (g, inl refl, runs_jito-Runs g.instructions here)
  | inr other ↦
      let (k, there, runs) = inner_runs_jito-RunsInner groups (ground arith) in (k, inr there, runs)
]

pub has_jito-CallsJito :
    (d : TransactionDetail) → transaction_has_jito_instruction d ≡ true → CallsJito d
unfolding transaction_has_jito_instruction
has_jito-CallsJito d h = elim (Bool-cases (runs_jito d.instructions)) [
  | inl runs ↦ inl (runs_jito-Runs d.instructions runs)
  | inr other ↦ inr (inner_runs_jito-RunsInner d.meta.inner_instructions (ground arith))
]

-- The balance of an account is higher behind the transaction, by so many lamports.
pub record Gains (keys : List String) (pre post : List ℕ) (address : String) (lamports : ℕ)
    : Type 0 where
  pub place : ℕ
  pub before : ℕ
  pub behind : ℕ
  pub key : get_elem? keys place ≡ some address
  pub had : get_elem? pre place ≡ some before
  pub has : get_elem? post place ≡ some behind
  pub more : behind ≡ before + lamports
  pub nonzero : 0 < lamports

gain-positive :
    (post pre : Option ℕ)
    → 0 < gain post pre
    → (b : ℕ) × (a : ℕ) × (post ≡ some b) × (pre ≡ some a) × (b ≡ a + gain post pre)
unfolding gain
gain-positive none pre h = absurd (ground arith)
gain-positive (some b) none h = absurd (ground arith)
gain-positive (some b) (some a) h = (b, a, refl, refl, ground arith)

first_gain-found :
    (idx : ℕ) (keys : List String) (post pre : List ℕ) (address : String)
    → 0 < first_gain idx keys post pre address
    → (p : ℕ) × (get_elem? keys p ≡ some address)
      × (first_gain idx keys post pre address
          ≡ gain (get_elem? post (p + idx)) (get_elem? pre (p + idx)))
unfolding first_gain
first_gain-found idx [] post pre address h = absurd (omega arith)
first_gain-found idx (key ∷ keys) post pre address h =
    let here = gain (get_elem? post idx) (get_elem? pre idx) in
    elim (Bool-cases (key == address)) [
      | inl same ↦ elim (Bool-cases (ltb 0 here)) [
        | inl more ↦ (0, ground (arith, text_eq key address same), ground arith)
        | inr nothing ↦
            let (p, found, value) =
              first_gain-found (suc idx) keys post pre address (ground arith) in
            let shift : p + suc idx ≡ suc p + idx = omega arith in
            (suc p, found, rw (same, nothing, ← shift) value)
      ]
      | inr other ↦
          let (p, found, value) = first_gain-found (suc idx) keys post pre address (ground arith) in
          let shift : p + suc idx ≡ suc p + idx = omega arith in
          (suc p, found, rw (other, ← shift) value)
    ]

pub compute_tip_lamports-Gains :
    (d : TransactionDetail) (address : String)
    → 0 < compute_tip_lamports d address
    → Gains d.account_keys d.meta.pre_balances d.meta.post_balances address
        (compute_tip_lamports d address)
unfolding compute_tip_lamports
compute_tip_lamports-Gains d address h =
    let post = d.meta.post_balances in
    let pre = d.meta.pre_balances in
    let (p, found, value) = first_gain-found 0 d.account_keys post pre address h in
    let at : p + 0 ≡ p = omega arith in
    let value' : compute_tip_lamports d address ≡ gain (get_elem? post p) (get_elem? pre p) =
      rw at at value in
    let (b, a, has, had, more) =
      gain-positive (get_elem? post p) (get_elem? pre p) (omega (arith, h, value')) in
    record {
      place = p;
      before = a;
      behind = b;
      key = found;
      had = had;
      has = has;
      more = omega (arith, more, value');
      nonzero = h;
    }
