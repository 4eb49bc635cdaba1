-- ===== src/Tests/Ledgers.antt =====
-- The theorem on `Update`, for a block that spends the one coin.
use golang_blockchain.Prelude.{
  refl, inl, inr, none, some, [], ◌∷◌, Bool-cases, bytes_equal, lookup, if◌then◌else◌,
}
use golang_blockchain.Types.{Block}
use golang_blockchain.Utxo.Updating.{update}
use golang_blockchain.Utxo.Reindexed.{stored_or}
use golang_blockchain.Utxo.Updated.{Holds, Updates, update-Agrees}
use golang_blockchain.Utxo.Ledger.{Ledger, apply_all}
use golang_blockchain.Tests.Store.{non_empty}
use golang_blockchain.Tests.Toy.{toy}
use golang_blockchain.Tests.Examples.{first, transfer}
use golang_blockchain.Tests.Payments.{coin, purse}

abbrev coins : Ledger
coins id = if bytes_equal (9 ∷ []) id then some (coin ∷ []) else none

purse-Holds : Holds toy purse.database coins
unfolding Holds stored_or lookup bytes_equal
purse-Holds id = elim (Bool-cases (bytes_equal (9 ∷ []) id)) [
  | inl same ↦ rw same refl
  | inr other ↦ rw other refl
]

abbrev spends_coin : Block
spends_coin = record first { transactions = transfer ∷ [] }

update-Agrees_example :
    Updates toy purse (update toy purse spends_coin) (apply_all (transfer ∷ []) coins)
unfolding non_empty
update-Agrees_example =
    update-Agrees toy purse spends_coin coins purse-Holds ((refl, (refl, tt)), tt)
