-- ===== src/Tips/Select.antt =====
-- jito_tips.go: the signatures that a collector has processed, the choice of the new ones of a page,
-- and the stake accounts to look at, `buildStakeAccountIndex`.
use go_octopi.Base.{
  ℕ, Bool, true, false, ◌||◌, Option, none, some, List, [], ◌∷◌, String, ltb, if◌then◌else◌, ◌==◌,
  String-Eq,
}
use go_octopi.Base.Int.{ℤ, pos}
use go_octopi.Lru.{StringLru}
use go_octopi.Lru
use go_octopi.Solana.Types.{SignatureInfo, StakeAccount}
use go_octopi.Tips.Transaction.{TrackedStakeAccount}

-- A set of signatures that may forget its oldest.
abbrev pub Processed : Type 0
Processed = StringLru (Unit {0})

-- jitoProcessedCacheSize
abbrev pub jito_processed_cache_size : ℤ
jito_processed_cache_size = pos 256

-- newJitoTipCollector: nil, or a collector that has processed nothing; its client and logger are those
-- that it is given.
unfoldable pub new_jito_tip_collector : {C : Type 0} → Option C → Option Processed
new_jito_tip_collector none = none
new_jito_tip_collector (some client) = some (Lru.new jito_processed_cache_size)

-- `ensureTipCollector` of a server with a collector, which may be nil, and a client
unfoldable pub ensure_tip_collector : {C : Type 0} → Option C → Option Processed → Option Processed
unfolding new_jito_tip_collector
ensure_tip_collector client (some processed) = some processed
ensure_tip_collector client none = new_jito_tip_collector client

abbrev is_hit : Option (Unit {0}) → Bool
is_hit none = false
is_hit (some u) = true

-- isSignatureProcessed: a hit becomes the most recent.
unfoldable pub is_signature_processed : Processed → String → Processed × Bool
is_signature_processed c sig = let (c', found) = Lru.get c sig in (c', is_hit found)

-- markSignatureProcessed
unfoldable pub mark_signature_processed : Processed → String → Processed
mark_signature_processed c sig = Lru.add c sig tt

pub record Selection : Type 0 where
  pub processed : Processed
  pub fresh : List String
  pub reached_old_slot : Bool

-- The loop over a page's signatures: those that are new, and whether an old slot was met.
unfoldable pub select_new : ℕ → List SignatureInfo → Processed → Selection
unfolding is_signature_processed
select_new min_slot [] c = record { processed = c; fresh = []; reached_old_slot = false }
select_new min_slot (sig ∷ sigs) c =
    let (c', seen) = is_signature_processed c sig.signature in
    let rest = select_new min_slot sigs (if ltb sig.slot min_slot then c else c') in
    if ltb sig.slot min_slot
    then record rest { reached_old_slot = true }
    else if seen
    then rest
    else record rest { fresh = sig.signature ∷ rest.fresh }

unfoldable pub is_seen : String → List String → Bool
is_seen s [] = false
is_seen s (t ∷ ts) = (t == s) || is_seen s ts

-- buildStakeAccountIndex, past the addresses that were seen.
unfoldable pub index_accounts : List String → List StakeAccount → List TrackedStakeAccount
index_accounts seen [] = []
index_accounts seen (a ∷ accounts) = elim (a.address == "") [
  | true ↦ index_accounts seen accounts
  | false ↦ elim (is_seen a.address seen) [
    | true ↦ index_accounts seen accounts
    | false ↦
        record { address = a.address; validator = a.vote_account }
        ∷ index_accounts (a.address ∷ seen) accounts
  ]
]

unfoldable pub build_stake_account_index : List StakeAccount → List TrackedStakeAccount
unfolding index_accounts
build_stake_account_index accounts = index_accounts [] accounts
