-- ===== src/Tests/Reindexing.antt =====
-- The theorem on `Reindex`, on the chain whose one block has one coinbase transaction.
use golang_blockchain.Prelude.{
  ◌≡◌, refl, false, none, List, [], ◌∷◌, ◌++◌, Bytes, Map, lookup, insert, has_prefix, arith,
}
use golang_blockchain.Words.Hex.{hex_encode, hex_decode}
use golang_blockchain.Types.{TxOutput}
use golang_blockchain.Run.{ok, Returns}
use golang_blockchain.Tx.{is_coinbase}
use golang_blockchain.Utxo.{
  utxo_prefix, find_utxo, reindex, scan_transactions, scan_transaction, scan_outputs, append_at,
  slice_at, is_spent,
}
use golang_blockchain.Utxo.Found.{find_utxo-scan}
use golang_blockchain.Utxo.Reindexed.{Storable, Outside, stored_or, reindex-find_utxo}
use golang_blockchain.Tests.Store.{non_empty}
use golang_blockchain.Tests.Toy.{toy}
use golang_blockchain.Tests.Examples.{first, paid}
use golang_blockchain.Tests.Payments.{purse, purse-IsChain, stored_accepted}

abbrev entries : Map (List TxOutput)
entries = (hex_encode (9 ∷ []), paid.outputs) ∷ []

entries_found : find_utxo toy 1 purse ≡ ok entries
unfolding scan_transactions scan_transaction scan_outputs append_at slice_at is_spent lookup insert
    is_coinbase
entries_found = find_utxo-scan toy 1 purse (first ∷ []) purse-IsChain (omega arith)

entries-Storable : Storable toy entries
unfolding hex_encode hex_decode non_empty lookup
entries-Storable = (9 ∷ [], refl, refl, refl, refl, tt)

purse-Outside : Outside toy purse.last_hash (first ∷ [])
unfolding has_prefix
purse-Outside = (refl, (refl, tt))

reindex-find_utxo_example : Returns (reindex toy 1 (λ m. m) purse) (λ after.
    (after.last_hash ≡ 1 ∷ [])
    × ((id : Bytes)
        → toy.badger.get after.database (utxo_prefix ++ id)
          ≡ stored_or toy (lookup (hex_encode id) entries) none)
    × ((j : Bytes)
        → has_prefix utxo_prefix j ≡ false
        → toy.badger.get after.database j ≡ toy.badger.get purse.database j))
reindex-find_utxo_example =
    reindex-find_utxo toy 1 (λ m. m) purse (first ∷ []) entries purse-IsChain (omega arith)
      purse-Outside stored_accepted entries_found entries-Storable

pub reindex-purse : Returns (reindex toy 1 (λ m. m) purse) (λ _. Unit {0})
reindex-purse =
    let (after, e, _) =
      reindex-find_utxo toy 1 (λ m. m) purse (first ∷ []) entries purse-IsChain (omega arith)
        purse-Outside stored_accepted entries_found entries-Storable in
    (after, e, tt)
