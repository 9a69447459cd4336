-- ===== src/Solana/Names/Lookup.antt =====
-- solana_client.go: `LookupName`, with the request for a name and the node of a validator.
use go_octopi.Base.{
  ◌+◌, not, ◌&&◌, Option, none, some, List, [], ◌∷◌, String, String-Eq, lookup, insert, delete,
  take, leb, nat_eq, if◌then◌else◌, ◌==◌,
}
use go_octopi.Base.Fault.{plain, wrap, bad_status, Result, ok, err, wrapping, ◌>>=◌}
use go_octopi.Base.Text.{trim_space}
use go_octopi.Base.Time.{Time, is_after}
use go_octopi.Server.Floats.{Floats}
use go_octopi.Solana.Rpc.{HttpResponse}
use go_octopi.Solana.Types.{VoteAccount}
use go_octopi.Solana.Names.{NameSource, Repository, equal_fold, validator_cache_ttl, cached, store}

module _ {F : Type 0} (floats : Floats F) (source : NameSource) where
  open source use {World, get_vote_accounts, build, send, read_all, decode, trim_body}

  -- `fetchName` behind the reply; a validator that is not found has no name.
  unfoldable pub read_name : HttpResponse → Result String
  read_name resp =
      if nat_eq resp.status 404
      then ok ""
      else if leb 300 resp.status
      then err (bad_status "validators status" resp.status (trim_body (take 2048 resp.body)))
      else (wrapping "read validators response" (read_all resp) >>= λ body.
          wrapping "decode validators response" (decode body))

  -- fetchName
  unfoldable pub fetch_name : String → World → Result String × World
  fetch_name id w = elim (build id) [
    | some e ↦ (err (wrap "build validators request" e), w)
    | none ↦ let (reply, w') = send id w in (wrapping "validators request" reply >>= read_name, w')
  ]

  -- nodeCached
  unfoldable pub node_cached : String → Time → Repository floats → Option String × Repository floats
  node_cached vote now r = elim (lookup vote r.node_cache) [
    | none ↦ (none, r)
    | some e ↦
        if is_after now e.expires_at
        then (none, record r { node_cache = delete vote r.node_cache })
        else (some e.value, r)
  ]

  -- storeNode
  unfoldable pub store_node : String → String → Time → Repository floats → Repository floats
  store_node vote node now r = record r {
    node_cache =
        insert vote (record { value = node; expires_at = now + validator_cache_ttl }) r.node_cache;
  }

  -- The loop over the accounts, with the node so far.
  unfoldable pub pick_node : String → String → List VoteAccount → String
  pick_node vote node [] = node
  pick_node vote node (a ∷ accounts) =
      let rest = pick_node vote node accounts in
      let first = pick_node vote a.node_pubkey accounts in
      if equal_fold a.vote_pubkey vote && not (a.node_pubkey == "")
      then a.node_pubkey
      else if (node == "") && not (a.node_pubkey == "")
      then first
      else rest

  -- lookupNodePubkey, of a repository with a client
  unfoldable pub lookup_node_pubkey :
      String → Repository floats → World → Result String × Repository floats × World
  lookup_node_pubkey vote r w =
      if vote == ""
      then (ok "", r, w)
      else (let (found, r1) = node_cached vote (source.now w) r in
          elim found [
            | some node ↦ (ok node, r1, w)
            | none ↦
                let (reply, w1) = get_vote_accounts vote w in
                elim reply [
                  | err e ↦ (err e, r1, w1)
                  | ok accounts ↦
                      let node = pick_node vote "" accounts in
                      (ok node, store_node vote node (source.now w1) r1, w1)
                ]
          ])

  abbrev identity_of : String → Result String → String
  identity_of account (err e) = account
  identity_of account (ok node) = if node == "" then account else node

  -- `LookupName` behind the caches.
  abbrev store_both : String → String → String → Time → Repository floats → Repository floats
  store_both account identity name now r =
      let r1 = store floats account name now r in
      if identity == account then r1 else store floats identity name now r1

  unfoldable pub fetch_and_store :
      String → String → Repository floats → World → Result String × Repository floats × World
  fetch_and_store account identity r w =
      let (reply, w1) = fetch_name identity w in
      elim reply [
        | err e ↦ (err e, r, w1)
        | ok name ↦ (ok name, store_both account identity name (source.now w1) r, w1)
      ]

  -- `LookupName` behind the resolution of the node.
  unfoldable pub lookup_identity :
      String → String → Repository floats → World → Result String × Repository floats × World
  lookup_identity account identity r w =
      if identity == account
      then fetch_and_store account identity r w
      else (let (found, r1) = cached floats identity (source.now w) r in
          elim found [
            | some name ↦ (ok name, store floats account name (source.now w) r1, w)
            | none ↦ fetch_and_store account identity r1 w
          ])

  -- LookupName, of a repository that is there
  unfoldable pub lookup_name :
      String → Repository floats → World → Result String × Repository floats × World
  lookup_name asked r w =
      let account = trim_space asked in
      if account == ""
      then (err (plain "account id is required"), r, w)
      else (let (found, r1) = cached floats account (source.now w) r in
          elim found [
            | some name ↦ (ok name, r1, w)
            | none ↦
                let (node, r2, w2) = lookup_node_pubkey account r1 w in
                lookup_identity account (identity_of account node) r2 w2
          ])
