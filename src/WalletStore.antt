-- ===== src/WalletStore.antt =====
-- wallet/wallets.go: the wallets of a node by their addresses, and the file that keeps them.
pub mod Reload
use golang_blockchain.Prelude.{
  Bool, true, false, Option, none, some, List, [], ◌++◌, Bytes, Map, lookup, insert, keys, codes,
}
use golang_blockchain.Types.{Wallet}
use golang_blockchain.Platform.{Platform, Codec, decode_or_panic}
use golang_blockchain.Run.{Run, ok, panic, or_panic, nil_pointer, ◌>>=◌}
use golang_blockchain.Wallet.{address, make_wallet}

-- the field `Wallets`, and the files on the disk by their paths
abbrev pub Wallets : Type 0
Wallets = Map Wallet

abbrev pub Files : Type 0
Files = Map Bytes

-- `fmt.Sprintf(walletFile, nodeId)`
unfoldable pub wallet_file : Bytes → Bytes
wallet_file node_id = codes "./tmp/wallets_" ++ node_id ++ codes ".data"

-- `GetAllAddress`, in the order in which Go ranges over the map
unfoldable pub get_all_address : (Wallets → Wallets) → Wallets → List Bytes
get_all_address range ws = keys (range ws)

-- `GetWallet`: a missing key gives a nil pointer
unfoldable pub get_wallet : Wallets → Bytes → Run Wallet
get_wallet ws addr = or_panic nil_pointer (lookup addr ws)

-- `AddWallet`, with the bytes that the key draws; the address, and the wallets with the new one
unfoldable pub add_wallet : Platform → Bytes → Wallets → Run (Bytes × Wallets)
add_wallet p rand ws = do w ← make_wallet p rand; ok (address p w, insert (address p w) w ws)

-- the wallets after `LoadFile`, and whether there was a file
pub record Loaded : Type 0 where
  pub wallets : Wallets
  pub found : Bool

module _ (c : Codec Wallets) where
  -- `LoadFile`; without a file it returns an error and the wallets stay
  unfoldable pub load_file : Files → Bytes → Wallets → Run Loaded
  load_file files node_id ws = elim (lookup (wallet_file node_id) files) [
    | none ↦ ok (record { wallets = ws; found = false })
    | some content ↦ do
      read ← decode_or_panic c content
      ok (record { wallets = read; found = true })
  ]

  -- `CreateWallets`
  unfoldable pub create_wallets : Files → Bytes → Run Loaded
  create_wallets files node_id = load_file files node_id []

  -- `SaveFile`: the files after it
  unfoldable pub save_file : Wallets → Bytes → Files → Files
  save_file ws node_id files = insert (wallet_file node_id) (c.encode ws) files
