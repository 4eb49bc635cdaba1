-- ===== src/Cli/Balance.antt =====
-- "createblockchain" and then "getbalance".
use golang_blockchain.Prelude.{
  ◌≤◌, ◌≡◌, ◌≢◌, refl, ap, ◌∙◌, Bool, true, false, none, some, [], ◌∷◌, ◌++◌, Bytes, pos, lookup,
  has_prefix, bytes_equal, if◌then◌else◌, arith, ◌+ℤ◌, pos-+ℤ, lookup-insert_self,
}
use golang_blockchain.Types.{Transaction, TxOutput, Block, Wallet}
use golang_blockchain.Platform.{Platform, txn_get}
use golang_blockchain.Run.{Run, ok, ◌>>=◌, Returns, >>=-assoc}
use golang_blockchain.Pow.{genesis}
use golang_blockchain.Wallet.{address, public_key_hash, base58_decode, payload}
use golang_blockchain.Wallet.Address.{payload-address}
use golang_blockchain.Tx.{coinbase_tx, is_locked_with_key}
use golang_blockchain.Tx.Locking.{pays, coinbase_tx-Ensures}
use golang_blockchain.Chain.{lh, genesis_data, continue_block_chain}
use golang_blockchain.Utxo.{utxo_prefix, find_unspent_transactions}
use golang_blockchain.Utxo.Scanned.{find_unspent_transactions_one}
use golang_blockchain.Cli.State.{Shell, Disk, Report, balance_is, chain_created}
use golang_blockchain.Cli.Commands.{create_block_chain, get_balance, sum_values, stored}
use golang_blockchain.Cli.Sending.{check_address-address}
use golang_blockchain.Chain.Beginning.{genesis-FirstWith, init_block_chain-born}
use golang_blockchain.Utxo.Beginning.{entries, entry, Indexed, reindex-Indexed}

module _ (p : Platform) where
  open p.badger use {DB, get, put, scan, empty_db, accepts, get-put, get-empty_db}

  sum_one :
      (b : Bool) (out : TxOutput)
      → sum_values (pos 0) (if b then out ∷ [] else []) ≡ (if b then pos 0 +ℤ out.value else pos 0)
  unfolding sum_values
  sum_one true out = refl
  sum_one false out = refl

  -- the end of `getBalance`, from the key hash on
  listed : DB → Disk p → Bytes → Run (Report p × Disk p)
  listed d disk pub_key_hash = do
    utxos ← find_unspent_transactions p d pub_key_hash
    ok (balance_is (sum_values (pos 0) utxos), disk)

  listed-one :
      (w u : Wallet) (cb : Transaction) (d : DB) (disk : Disk p)
      → scan d utxo_prefix ≡ entry p w cb ∷ []
      → listed d disk (public_key_hash p u.public_key)
        ≡ ok (
          balance_is (
              if bytes_equal (public_key_hash p w.public_key) (public_key_hash p u.public_key)
              then pos 100
              else pos 0),
          disk,
        )
  unfolding listed is_locked_with_key
  listed-one w u cb d disk scanned =
      let h = public_key_hash p u.public_key in
      let found =
        find_unspent_transactions_one p d (utxo_prefix ++ cb.id) h (pays p (pos 100) w) scanned in
      let b = bytes_equal (public_key_hash p w.public_key) h in
      rw (found, ◌>>=◌)
        (ap (λ v. ok (balance_is v, disk))
          (sum_one b (pays p (pos 100) w)
            ∙ ap (λ v. if b then v else pos 0) (pos-+ℤ 0 100 (omega arith))))

  get_balance-Indexed :
      (shell : Shell) (w u : Wallet) (cb : Transaction) (first : Block) (node_id : Bytes)
      (disk : Disk p) (d : DB)
      → lookup node_id disk.databases ≡ some d
      → Indexed p w cb first d
      → get_balance p shell (address p u) node_id disk
        ≡ ok (
          balance_is (
              if bytes_equal (public_key_hash p w.public_key) (public_key_hash p u.public_key)
              then pos 100
              else pos 0),
          disk,
        )
  unfolding get_balance continue_block_chain txn_get Indexed listed
  get_balance-Indexed shell w u cb first node_id disk d here (at_lh, scanned) =
      rw (check_address-address p u, ◌>>=◌)
        (rw (here, ◌>>=◌)
          (rw (at_lh, ◌>>=◌)
            (>>=-assoc (base58_decode p (address p u)) payload (listed d disk)
              ∙ ap (λ r. r >>= listed d disk) (payload-address p u)
              ∙ listed-one w u cb d disk scanned)))

  module _ (cb : Transaction) (first : Block) (fits : accepts first.hash ≡ true)
      (fits_lh : accepts lh ≡ true) (fits_utxo : accepts (utxo_prefix ++ cb.id) ≡ true)
      (ne : first.hash ≢ lh) (outside : has_prefix utxo_prefix first.hash ≡ false) where
    -- Let a node have no database, let the first block for the address of a wallet be mined, let
    -- Badger take the keys, and let the hash of that block be neither "lh" nor under the prefix of
    -- the unspent outputs. With fuel for one block or more, and an order of maps that leaves the one
    -- entry as it is, "createblockchain" for that address returns, and "getbalance"
    -- reports 100 for this wallet, and for every wallet with the same key hash, and 0 for every
    -- other one, and leaves the disk as it is.
    pub get_balance-create_block_chain :
        (shell : Shell) (w u : Wallet) (node_id : Bytes) (disk : Disk p)
        → lookup node_id disk.databases ≡ none
        → coinbase_tx p (address p w) genesis_data ≡ ok cb
        → genesis p (shell.env.now 0) cb ≡ ok first
        → 1 ≤ shell.env.walk
        → shell.env.utxo_order 0 (entries p w cb) ≡ entries p w cb
        → Returns (create_block_chain p shell (address p w) node_id disk) (λ r.
          get_balance p shell (address p u) node_id r.1
          ≡ ok (
            balance_is (
                if bytes_equal (public_key_hash p w.public_key) (public_key_hash p u.public_key)
                then pos 100
                else pos 0),
            r.1,
          ))
    unfolding create_block_chain stored
    get_balance-create_block_chain shell w u node_id disk free paid mined walks order =
        let (outs, id_bytes, _) = coinbase_tx-Ensures p w genesis_data cb paid in
        let only = genesis-FirstWith p (shell.env.now 0) cb first mined in
        let begun =
          init_block_chain-born p first fits fits_lh ne (shell.env.now 0) (address p w) cb paid
            mined in
        let (after, e, indexed) =
          reindex-Indexed p cb first fits fits_lh fits_utxo ne outside shell.env.walk
            (shell.env.utxo_order 0) w only outs id_bytes walks order in
        let disk' = stored p node_id after.database disk in
        (
          (chain_created, disk'),
          rw (check_address-address p w, ◌>>=◌) (rw (free, begun, ◌>>=◌) (rw (e, ◌>>=◌) refl)),
          get_balance-Indexed shell w u cb first node_id disk' after.database
              (lookup-insert_self node_id after.database disk.databases) indexed,
        )
