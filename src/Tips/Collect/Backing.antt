-- ===== src/Tips/Collect/Backing.antt =====
-- jito_tips.go: the transaction that backs each collected row.
use go_octopi.Base.{List, All, In, String-Eq}
use go_octopi.Base.Time.{Time}
use go_octopi.Rewards.{Formats}
use go_octopi.Solana.Types.{TransactionDetail, StakeAccount}
use go_octopi.Tips.Client.{Client}
use go_octopi.Tips.Collect.{Row}
use go_octopi.Tips.Transaction.{TrackedStakeAccount, Window}
use go_octopi.Tips.Transaction.Paying.{Pays}
use go_octopi.Tips.Collect.Supply.{Indexed, Supplied}

module _ (client : Client) where
  open client use {World}

  module _ (fmt : Formats) where
    -- A row that shows a transaction that the network gave for a signature of the account.
    pub record Backed (win : Window) (account : TrackedStakeAccount) (row : Row fmt client)
        : Type 0 where
      pub detail : TransactionDetail
      pub supplied : Supplied client win.min_slot account.address detail
      pub shown : Pays fmt win account detail row

    abbrev AllBacked : Window → TrackedStakeAccount → List (Row fmt client) → Type 0
    AllBacked win account = All (Backed win account)

    -- A row that some account of the list accounts for.
    abbrev Accounted : Window → List TrackedStakeAccount → Row fmt client → Type 0
    Accounted win accounts row = (a : TrackedStakeAccount) × In a accounts × Backed win a row

    -- A row that is backed for a stake account of the list.
    abbrev pub BackedBy : List StakeAccount → Window → Row fmt client → Type 0
    BackedBy accounts win row = (a : TrackedStakeAccount) × Indexed accounts a × Backed win a row
