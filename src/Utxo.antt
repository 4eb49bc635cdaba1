-- ===== src/Utxo.antt =====
-- The unspent outputs: `FindUTXO` of blockchain/blockchain.go, which reads them off the blocks, and
-- blockchain/utxo.go, which keeps them in the database under the prefix "utxo-".
pub mod Unspent
pub mod Spent
pub mod Found
pub mod Spending
pub mod Clearing
pub mod Reindexed
pub mod Scanned
pub mod Updating
pub mod Ledger
pub mod Shifted
pub mod Totals
pub mod Picked
pub mod Kept
pub mod Updated
pub mod Beginning
use golang_blockchain.Prelude.{
  ℕ, zero, suc, ◌+◌, Bool, true, false, ◌&&◌, ◌||◌, inl, inr, Option, none, some, List, [], ◌∷◌,
  ◌++◌, map, Bytes, Map, lookup, insert, keys, length, ℤ, pos, ◌+ℤ◌, eq_ℤ, ltb_ℤ, ltb, ◌==◌,
  trim_prefix, codes, if◌then◌else◌,
}
use golang_blockchain.Words.Hex.{hex_encode, hex_decode}
use golang_blockchain.Types.{Transaction, TxInput, TxOutput, TxOutputs, Block, is_nil}
use golang_blockchain.Platform.{Platform, txn_get, txn_set, txn_delete, decode_or_panic}
use golang_blockchain.Run.{Run, ok, or_panic, decode_failed, ◌>>=◌}
use golang_blockchain.Tx.{is_coinbase, is_locked_with_key}
use golang_blockchain.Chain.{BlockChain, Pass, continue, for_blocks, no_return}

-- `utxoPrefix`, `collectSize`
abbrev pub utxo_prefix : Bytes
utxo_prefix = codes "utxo-"

abbrev pub collect_size : ℕ
collect_size = 100000

-- the maps `UTXO` and `spentTXOs` of `FindUTXO`
pub record Scan : Type 0 where
  pub utxo : Map (List TxOutput)
  pub spent : Map (List ℤ)

-- the zero value of a slice, for a missing key
abbrev pub or_empty : {V : Type 0} → Option (List V) → List V
or_empty none = []
or_empty (some vs) = vs

-- `m[k]`
unfoldable pub slice_at : {V : Type 0} → Map (List V) → Bytes → List V
slice_at m k = or_empty (lookup k m)

-- `m[k] = append(m[k], v)`
unfoldable pub append_at : {V : Type 0} → Map (List V) → Bytes → V → Map (List V)
append_at m k v = insert k (slice_at m k ++ v ∷ []) m

-- the inner loop `for _, spentOut := range spentTXOs[txID]`
unfoldable pub is_spent : List ℤ → ℤ → Bool
is_spent [] out_idx = false
is_spent (o ∷ os) out_idx = if eq_ℤ o out_idx then true else is_spent os out_idx

-- the loop over the outputs of a transaction
unfoldable pub scan_outputs :
    Bytes → List ℤ → ℕ → List TxOutput → Map (List TxOutput) → Map (List TxOutput)
scan_outputs tx_id spent out_idx [] utxo = utxo
scan_outputs tx_id spent out_idx (out ∷ outs) utxo =
    scan_outputs tx_id spent (out_idx + 1) outs
      (if is_spent spent (pos out_idx) then utxo else append_at utxo tx_id out)

-- the loop over the inputs that marks what they spend
unfoldable pub scan_inputs : List TxInput → Map (List ℤ) → Map (List ℤ)
scan_inputs [] spent = spent
scan_inputs (i ∷ is) spent = scan_inputs is (append_at spent (hex_encode i.id) i.out)

unfoldable pub scan_transaction : Scan → Transaction → Scan
scan_transaction s tx =
    let tx_id = hex_encode tx.id in
    record {
      utxo = scan_outputs tx_id (slice_at s.spent tx_id) 0 tx.outputs s.utxo;
      spent = if is_coinbase tx then s.spent else scan_inputs tx.inputs s.spent;
    }

unfoldable pub scan_transactions : Scan → List Transaction → Scan
scan_transactions s [] = s
scan_transactions s (tx ∷ txs) = scan_transactions (scan_transaction s tx) txs

unfoldable pub scan_block : Scan → Block → Pass Scan ⊥
scan_block s block = continue (scan_transactions s block.transactions)

abbrev pub no_scan : Scan
no_scan = record { utxo = []; spent = [] }

-- the loop of `FindSpendableOutputs` over the outputs of one entry
pub record Spendable : Type 0 where
  pub accumulated : ℤ
  pub unspent_outs : Map (List ℤ)

unfoldable pub spend_outputs : Bytes → ℤ → Bytes → ℕ → List TxOutput → Spendable → Spendable
spend_outputs pub_key_hash amount tx_id out_idx [] s = s
spend_outputs pub_key_hash amount tx_id out_idx (out ∷ outs) s =
    spend_outputs pub_key_hash amount tx_id (out_idx + 1) outs (
      if is_locked_with_key out pub_key_hash && ltb_ℤ s.accumulated amount
      then record {
        accumulated = s.accumulated +ℤ out.value;
        unspent_outs = append_at s.unspent_outs tx_id (pos out_idx);
      }
      else s)

-- the outputs that are locked with a key
unfoldable pub locked_outputs : Bytes → List TxOutput → List TxOutput
locked_outputs pub_key_hash [] = []
locked_outputs pub_key_hash (out ∷ outs) =
    let rest = locked_outputs pub_key_hash outs in
    if is_locked_with_key out pub_key_hash then out ∷ rest else rest

module _ (p : Platform) where
  open p.badger use {DB, scan}

  -- `FindUTXO`
  unfoldable pub find_utxo : ℕ → BlockChain p → Run (Map (List TxOutput))
  find_utxo fuel chain = do
    end ← for_blocks p fuel chain.database chain.last_hash scan_block no_scan
    ok (no_return end).utxo

  -- `FindSpendableOutputs`, over the entries under the prefix
  unfoldable pub spend_entries : Bytes → ℤ → List (Bytes × Bytes) → Spendable → Run Spendable
  spend_entries pub_key_hash amount [] s = ok s
  spend_entries pub_key_hash amount ((k, v) ∷ rest) s = do
    outs ← decode_or_panic p.outputs_codec v
    spend_entries pub_key_hash amount rest (
        spend_outputs pub_key_hash amount (hex_encode (trim_prefix utxo_prefix k)) 0 outs.outputs s)

  unfoldable pub find_spendable_outputs : DB → Bytes → ℤ → Run Spendable
  find_spendable_outputs db pub_key_hash amount =
      spend_entries pub_key_hash amount (scan db utxo_prefix)
        (record { accumulated = pos 0; unspent_outs = [] })

  -- `FindUnspentTransactions`
  unfoldable pub unspent_entries : Bytes → List (Bytes × Bytes) → Run (List TxOutput)
  unspent_entries pub_key_hash [] = ok []
  unspent_entries pub_key_hash ((k, v) ∷ rest) = do
    outs ← decode_or_panic p.outputs_codec v
    more ← unspent_entries pub_key_hash rest
    ok (locked_outputs pub_key_hash outs.outputs ++ more)

  unfoldable pub find_unspent_transactions : DB → Bytes → Run (List TxOutput)
  find_unspent_transactions db pub_key_hash = unspent_entries pub_key_hash (scan db utxo_prefix)

  -- `CountTransactions`
  unfoldable pub count_transactions : DB → ℕ
  count_transactions db = length (scan db utxo_prefix)

  -- `deleteKeys` of `DeleteByPrefix`: one transaction
  unfoldable pub delete_keys : List Bytes → DB → Run DB
  delete_keys [] db = ok db
  delete_keys (k ∷ ks) db = do db' ← txn_delete p.badger db k; delete_keys ks db'

  -- The loop over the keys: a full batch is deleted at once, and what is left at the end.
  unfoldable pub delete_batches : ℕ → List Bytes → List Bytes → DB → Run DB
  delete_batches collected batch [] db = if ltb 0 collected then delete_keys batch db else ok db
  delete_batches collected batch (k ∷ ks) db = elim ((collected + 1) == collect_size) [
    | true ↦ delete_keys (batch ++ k ∷ []) db >>= delete_batches 0 [] ks
    | false ↦ delete_batches (collected + 1) (batch ++ k ∷ []) ks db
  ]

  -- `DeleteByPrefix`; the iterator reads the database as it was at the beginning
  unfoldable pub delete_by_prefix : Bytes → DB → Run DB
  delete_by_prefix prefix db = delete_batches 0 [] (keys (scan db prefix)) db

  -- the loop of `Reindex` over the map, in the order in which Go ranges over it
  unfoldable pub store_utxo : Map (List TxOutput) → DB → Run DB
  store_utxo [] db = ok db
  store_utxo ((tx_id, outs) ∷ rest) db = do
    key ← or_panic decode_failed (hex_decode tx_id)
    db' ←
        txn_set p.badger db (utxo_prefix ++ key)
          (p.outputs_codec.encode (record { outputs = outs }))
    store_utxo rest db'

  -- `Reindex`
  unfoldable pub reindex :
      ℕ → (Map (List TxOutput) → Map (List TxOutput)) → BlockChain p → Run (BlockChain p)
  reindex fuel range chain = do
    cleared ← delete_by_prefix utxo_prefix chain.database
    utxo ← find_utxo fuel (record chain { database = cleared })
    db ← store_utxo (range utxo) cleared
    ok (record chain { database = db })
