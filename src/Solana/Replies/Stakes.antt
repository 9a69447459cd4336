-- ===== src/Solana/Replies/Stakes.antt =====
-- solana_client.go: which stake accounts `ListStakeAccounts` reports.
use go_octopi.Base.{
  ℕ, ◌≡◌, refl, ◌⊎◌, inl, inr, Option, none, some, List, [], ◌∷◌, String, arith, All, All-map, In,
  eq_iff, String-Eq, Option-cases,
}
use go_octopi.Base.Fault.{ok}
use go_octopi.Solana.Number.{json_number_to_uint64}
use go_octopi.Solana.Replies.{stake_account_of, read_parsed, cons_some, stake_accounts_of}
use go_octopi.Solana.Types.{StakeAccount}
use go_octopi.Solana.Wire.{RpcProgramAccount, RpcStakeAccountParsed}

-- The account shows an entry of the reply in which the owner may stake or withdraw.
pub record Reports (owner : String) (entries : List RpcProgramAccount) (a : StakeAccount)
    : Type 0 where
  pub entry : RpcProgramAccount
  pub parsed : RpcStakeAccountParsed
  pub listed : In entry entries
  pub has_parsed : entry.parsed ≡ some parsed
  pub authorized : (parsed.staker ≡ owner) ⊎ (parsed.withdrawer ≡ owner)
  pub stake : json_number_to_uint64 parsed.stake ≡ ok a.delegated_lamports
  pub address : a.address ≡ entry.pubkey
  pub vote_account : a.vote_account ≡ parsed.voter

authorized_of :
    (owner pubkey : String) (p : RpcStakeAccountParsed) (a : StakeAccount)
    → stake_account_of owner pubkey p ≡ ok a
    → ((p.staker ≡ owner) ⊎ (p.withdrawer ≡ owner))
      × (json_number_to_uint64 p.stake ≡ ok a.delegated_lamports)
      × (a.address ≡ pubkey)
      × (a.vote_account ≡ p.voter)
unfolding stake_account_of
authorized_of owner pubkey p a h = (
  ground (arith, eq_iff p.staker owner, eq_iff p.withdrawer owner),
  ground arith,
  ground arith,
  ground arith,
)

read_parsed-Reports :
    (owner : String) (e : RpcProgramAccount) (rest : List RpcProgramAccount) (a : StakeAccount)
    → read_parsed owner e ≡ some a
    → Reports owner (e ∷ rest) a
read_parsed-Reports owner e rest a h = elim (Option-cases e.parsed) [
  | inl missing ↦ absurd (ground (arith))
  | inr (p, parsed) ↦
      let made : stake_account_of owner e.pubkey p ≡ ok a = ground arith in
      let facts = authorized_of owner e.pubkey p a made in
      record {
        entry = e;
        parsed = p;
        listed = inl refl;
        has_parsed = parsed;
        authorized = facts.0;
        stake = facts.1;
        address = facts.2;
        vote_account = facts.3;
      }
]

Reports-weaken :
    (owner : String) (e : RpcProgramAccount) (rest : List RpcProgramAccount) (a : StakeAccount)
    → Reports owner rest a
    → Reports owner (e ∷ rest) a
Reports-weaken owner e rest a r = record {
  entry = r.entry;
  parsed = r.parsed;
  listed = inr r.listed;
  has_parsed = r.has_parsed;
  authorized = r.authorized;
  stake = r.stake;
  address = r.address;
  vote_account = r.vote_account;
}

-- Every account that `ListStakeAccounts` reports stands in the reply, parsed, names the owner as
-- staker or as withdrawer, and carries the entry's address, vote account and stake.
pub stake_accounts_of-Reports :
    (owner : String) (entries : List RpcProgramAccount)
    → All (Reports owner entries) (stake_accounts_of owner entries)
unfolding stake_accounts_of
stake_accounts_of-Reports owner [] = tt
stake_accounts_of-Reports owner (e ∷ entries) =
    let rest =
      All-map (Reports owner entries) (Reports owner (e ∷ entries))
        (stake_accounts_of owner entries) (Reports-weaken owner e entries)
        (stake_accounts_of-Reports owner entries) in
    elim (Option-cases (read_parsed owner e)) [
      | inl skipped ↦ rw skipped rest
      | inr (a, kept) ↦ rw kept (read_parsed-Reports owner e entries a kept, rest)
    ]

In-cons_some :
    (o : Option StakeAccount) (a : StakeAccount) (l : List StakeAccount)
    → In a l
    → In a (cons_some o l)
In-cons_some none a l i = i
In-cons_some (some b) a l i = inr i

stake_account_of_authorized :
    (owner pubkey : String) (p : RpcStakeAccountParsed) (lamports : ℕ)
    → (p.staker ≡ owner) ⊎ (p.withdrawer ≡ owner)
    → json_number_to_uint64 p.stake ≡ ok lamports
    → (a : StakeAccount) × (stake_account_of owner pubkey p ≡ ok a)
      × (a.address ≡ pubkey)
      × (a.delegated_lamports ≡ lamports)
unfolding stake_account_of
stake_account_of_authorized owner pubkey p lamports auth stake = (
  record {
    address = pubkey;
    delegated_lamports = lamports;
    state = p.account_type;
    vote_account = p.voter;
    withdraw_authority = p.withdrawer;
  },
  ground (arith, eq_iff p.staker owner, eq_iff p.withdrawer owner),
  refl,
  refl,
)

-- No entry of the owner is lost: if an entry of the reply is parsed, names the owner and has a stake
-- that is a number, an account with its address and stake is reported.
pub stake_accounts_of_complete :
    (owner : String) (entries : List RpcProgramAccount) (e : RpcProgramAccount)
    (p : RpcStakeAccountParsed) (lamports : ℕ)
    → In e entries
    → e.parsed ≡ some p
    → (p.staker ≡ owner) ⊎ (p.withdrawer ≡ owner)
    → json_number_to_uint64 p.stake ≡ ok lamports
    → (a : StakeAccount) × In a (stake_accounts_of owner entries)
      × (a.address ≡ e.pubkey)
      × (a.delegated_lamports ≡ lamports)
unfolding stake_accounts_of
stake_accounts_of_complete owner [] e p lamports i parsed auth stake = absurd i
stake_accounts_of_complete owner (x ∷ entries) e p lamports (inl same) parsed auth stake =
    let (a, made, address, amount) =
      stake_account_of_authorized owner e.pubkey p lamports auth stake in
    let kept : read_parsed owner x ≡ some a = ground arith in
    (a, rw kept (inl refl), address, amount)
stake_accounts_of_complete owner (x ∷ entries) e p lamports (inr later) parsed auth stake =
    let (a, i, address, amount) =
      stake_accounts_of_complete owner entries e p lamports later parsed auth stake in
    (a, In-cons_some (read_parsed owner x) a (stake_accounts_of owner entries) i, address, amount)
