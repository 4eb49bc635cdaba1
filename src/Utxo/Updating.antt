-- ===== src/Utxo/Updating.antt =====
-- `Update` of blockchain/utxo.go.
use golang_blockchain.Prelude.{ℕ, ◌+◌, List, [], ◌∷◌, ◌++◌, Bytes, ℤ, pos, eq_ℤ, if◌then◌else◌}
use golang_blockchain.Types.{Transaction, TxInput, TxOutput, Block}
use golang_blockchain.Platform.{Platform, txn_get, txn_set, txn_delete, decode_or_panic}
use golang_blockchain.Run.{Run, ok, ◌>>=◌}
use golang_blockchain.Tx.{is_coinbase}
use golang_blockchain.Chain.{BlockChain}
use golang_blockchain.Utxo.{utxo_prefix}

-- the outputs whose index is not the one that an input names
unfoldable pub outputs_without : ℤ → ℕ → List TxOutput → List TxOutput
outputs_without used out_idx [] = []
outputs_without used out_idx (out ∷ outs) =
    let rest = outputs_without used (out_idx + 1) outs in
    if eq_ℤ (pos out_idx) used then rest else out ∷ rest

module _ (p : Platform) where
  open p.badger use {DB}

  -- what `Update` writes for the outputs that are left of a transaction
  unfoldable pub write_rest : Bytes → List TxOutput → DB → Run DB
  write_rest in_id [] db = txn_delete p.badger db in_id
  write_rest in_id (out ∷ outs) db =
      txn_set p.badger db in_id (p.outputs_codec.encode (record { outputs = out ∷ outs }))

  -- the loop of `Update` over the inputs of a transaction
  unfoldable pub update_inputs : List TxInput → DB → Run DB
  update_inputs [] db = ok db
  update_inputs (i ∷ is) db = do
    let in_id = utxo_prefix ++ i.id
    raw ← txn_get p.badger db in_id
    outs ← decode_or_panic p.outputs_codec raw
    db' ← write_rest in_id (outputs_without i.out 0 outs.outputs) db
    update_inputs is db'

  -- the loop of `Update` over the transactions of the block
  unfoldable pub update_transactions : List Transaction → DB → Run DB
  update_transactions [] db = ok db
  update_transactions (tx ∷ txs) db = do
    used ← if is_coinbase tx then ok db else update_inputs tx.inputs db
    db' ←
        txn_set p.badger used (utxo_prefix ++ tx.id)
          (p.outputs_codec.encode (record { outputs = tx.outputs }))
    update_transactions txs db'

  -- `Update`
  unfoldable pub update : BlockChain p → Block → Run (BlockChain p)
  update chain block = do
    db ← update_transactions block.transactions chain.database
    ok (record chain { database = db })
