-- ===== src/Cli/Commands.antt =====
-- The commands of cli/cli.go, each on the wallet files and the databases that are on the
-- disk. A command that panics gives no disk: what it had committed before is not in the model.
-- Closing a database does nothing to its value.
use golang_blockchain.Prelude.{
  ℕ, zero, suc, Bool, true, false, ◌||◌, List, [], ◌∷◌, Bytes, lookup, insert, ℤ, pos, ◌+ℤ◌, ltb_ℤ,
  not,
}
use golang_blockchain.Types.{TxOutput, Transaction, Block, is_nil}
use golang_blockchain.Platform.{Platform}
use golang_blockchain.Run.{
  Run, ok, panic, goexit, spins, panic_unless, invalid_address, invalid_miner_address,
  no_wallet_file, ◌>>=◌,
}
use golang_blockchain.Pow.{new_proof, validate}
use golang_blockchain.Wallet.{base58_decode, payload, validate_address}
use golang_blockchain.Tx.{coinbase_tx}
use golang_blockchain.Chain.{BlockChain, next, mine_block, continue_block_chain, init_block_chain}
use golang_blockchain.Utxo.{reindex, count_transactions, find_unspent_transactions}
use golang_blockchain.Utxo.Updating.{update}
use golang_blockchain.Transfer.{new_transaction}
use golang_blockchain.WalletStore.{
  create_wallets, save_file, add_wallet, get_wallet, get_all_address,
}
use golang_blockchain.Network.State.{Node, first_node}
use golang_blockchain.Network.Send.{send_tx}
use golang_blockchain.Network.Handle.{first_of}
use golang_blockchain.Network.Serve.{start_server, serve}
use golang_blockchain.Cli.State.{
  SendFlags, Command, get_balance_cmd, create_block_chain_cmd, start_node_cmd, send_cmd,
  print_chain_cmd, create_wallet_cmd, list_addresses_cmd, reindex_utxo_cmd, Shell, Disk, Report,
  balance_is, addresses_are, new_address_is, transactions_counted, blocks_are, chain_created,
  block_mined, transaction_sent, served, handler_panicked,
}

-- `balance += out.Value`
unfoldable pub sum_values : ℤ → List TxOutput → ℤ
sum_values balance [] = balance
sum_values balance (out ∷ outs) = sum_values (balance +ℤ out.value) outs

module _ (p : Platform) where
  open p.badger use {DB}

  -- the variables of package network where `StartServer` has not run
  unfoldable pub unstarted : BlockChain p → Node p
  unstarted chain = record {
    node_address = [];
    mine_address = [];
    known_nodes = first_node ∷ [];
    blocks_in_transit = [];
    memory_pool = [];
    chain = chain;
    outbox = [];
    moment = 0;
  }

  -- the database of a node after a command
  unfoldable pub stored : Bytes → DB → Disk p → Disk p
  stored node_id db disk = record disk { databases = insert node_id db disk.databases }

  -- `if !wallet.ValidateAddress(address) { log.Panic(…) }`
  unfoldable pub check_address : Bytes → Run (Unit {0})
  check_address address = do valid ← validate_address p address; panic_unless valid invalid_address

  -- the loop of `printChain`: each block, with what `Validate` says of it
  unfoldable pub print_blocks : ℕ → DB → Bytes → Run (List (Block × Bool))
  print_blocks zero db current = spins
  print_blocks (suc fuel) db current = do
    (block, before) ← next p db current
    valid ← validate p (new_proof block)
    elim (is_nil block.prev_hash) [
      | true ↦ ok ((block, valid) ∷ [])
      | false ↦ do more ← print_blocks fuel db before; ok ((block, valid) ∷ more)
    ]

  -- How the goroutines of the handlers end: a panic in one of them ends the process, past the
  -- deferred calls of `main`. No handler calls `runtime.Goexit`.
  unfoldable pub handlers_end : Bytes → Disk p → Run (Node p) → Run (Report p × Disk p)
  handlers_end node_id disk (ok node) = ok (served node, stored node_id node.chain.database disk)
  handlers_end node_id disk (panic fault) = ok (handler_panicked fault, disk)
  handlers_end node_id disk goexit = goexit
  handlers_end node_id disk spins = spins

  module _ (shell : Shell) where
    -- `StartNode`, with the connections that are served
    unfoldable pub start_node : Bytes → Bytes → Disk p → Run (Report p × Disk p)
    start_node node_id miner_address disk = do
      _ ← elim (is_nil miner_address) [
        | true ↦ ok tt
        | false ↦ do
          valid ← validate_address p miner_address
          panic_unless valid invalid_miner_address
      ]
      node ←
          start_server p shell.gob shell.env shell.listens (lookup node_id disk.databases) node_id
            miner_address
      handlers_end node_id disk (serve p shell.gob shell.env shell.connections node)

    -- `reindexUTXO`
    unfoldable pub reindex_utxo : Bytes → Disk p → Run (Report p × Disk p)
    reindex_utxo node_id disk = do
      chain ← continue_block_chain p (lookup node_id disk.databases)
      indexed ← reindex p shell.env.walk (shell.env.utxo_order 0) chain
      ok (
        transactions_counted (count_transactions p indexed.database),
        stored node_id indexed.database disk,
      )

    -- `listAddresses`
    unfoldable pub list_addresses : Bytes → Disk p → Run (Report p × Disk p)
    list_addresses node_id disk = do
      loaded ← create_wallets shell.wallets_codec disk.files node_id
      ok (addresses_are (get_all_address shell.wallet_order loaded.wallets), disk)

    -- `createWallet`
    unfoldable pub create_wallet : Bytes → Disk p → Run (Report p × Disk p)
    create_wallet node_id disk = do
      loaded ← create_wallets shell.wallets_codec disk.files node_id
      (address, wallets) ← add_wallet p shell.key_rand loaded.wallets
      ok (
        new_address_is address,
        record disk { files = save_file shell.wallets_codec wallets node_id disk.files },
      )

    -- `printChain`
    unfoldable pub print_chain : Bytes → Disk p → Run (Report p × Disk p)
    print_chain node_id disk = do
      chain ← continue_block_chain p (lookup node_id disk.databases)
      blocks ← print_blocks shell.env.walk chain.database chain.last_hash
      ok (blocks_are blocks, disk)

    -- `createBlockChain`
    unfoldable pub create_block_chain : Bytes → Bytes → Disk p → Run (Report p × Disk p)
    create_block_chain address node_id disk = do
      _ ← check_address address
      chain ← init_block_chain p (shell.env.now 0) (lookup node_id disk.databases) address
      indexed ← reindex p shell.env.walk (shell.env.utxo_order 0) chain
      ok (chain_created, stored node_id indexed.database disk)

    -- `getBalance`
    unfoldable pub get_balance : Bytes → Bytes → Disk p → Run (Report p × Disk p)
    get_balance address node_id disk = do
      _ ← check_address address
      chain ← continue_block_chain p (lookup node_id disk.databases)
      full ← base58_decode p address
      pub_key_hash ← payload full
      utxos ← find_unspent_transactions p chain.database pub_key_hash
      ok (balance_is (sum_values (pos 0) utxos), disk)

    -- the end of `send`, once the transaction is made
    unfoldable pub hand_in :
        SendFlags → Bytes → Disk p → BlockChain p → Transaction → Run (Report p × Disk p)
    hand_in flags node_id disk chain tx = elim flags.mine [
      | true ↦ do
        cb_tx ← coinbase_tx p flags.from []
        (block, mined) ← mine_block p (shell.env.now 0) chain (cb_tx ∷ tx ∷ [])
        updated ← update p mined block
        ok (block_mined block, stored node_id updated.database disk)
      | false ↦ do
        let node = unstarted chain
        central ← first_of node.known_nodes
        node' ← send_tx p shell.gob shell.env central tx node
        ok (transaction_sent node'.outbox, disk)
    ]

    -- `send`
    unfoldable pub send_coins : SendFlags → Bytes → Disk p → Run (Report p × Disk p)
    send_coins flags node_id disk = do
      _ ← check_address flags.to
      _ ← check_address flags.from
      chain ← continue_block_chain p (lookup node_id disk.databases)
      loaded ← create_wallets shell.wallets_codec disk.files node_id
      _ ← panic_unless loaded.found no_wallet_file
      wallet ← get_wallet loaded.wallets flags.from
      tx ←
          new_transaction p shell.env.walk shell.sign_rand shell.picked_order wallet flags.to
            flags.amount chain
      hand_in flags node_id disk chain tx

    -- the last part of `Run`: the command that has been parsed
    unfoldable pub execute : Command → Bytes → Disk p → Run (Report p × Disk p)
    execute (get_balance_cmd address) node_id disk = elim (is_nil address) [
      | true ↦ goexit
      | false ↦ get_balance address node_id disk
    ]
    execute (create_block_chain_cmd address) node_id disk = elim (is_nil address) [
      | true ↦ goexit
      | false ↦ create_block_chain address node_id disk
    ]
    execute (start_node_cmd miner) node_id disk = start_node node_id miner disk
    execute (send_cmd flags) node_id disk =
        elim (is_nil flags.from || is_nil flags.to || not (ltb_ℤ (pos 0) flags.amount)) [
          | true ↦ goexit
          | false ↦ send_coins flags node_id disk
        ]
    execute print_chain_cmd node_id disk = print_chain node_id disk
    execute create_wallet_cmd node_id disk = create_wallet node_id disk
    execute list_addresses_cmd node_id disk = list_addresses node_id disk
    execute reindex_utxo_cmd node_id disk = reindex_utxo node_id disk
