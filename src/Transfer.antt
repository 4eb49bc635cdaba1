-- ===== src/Transfer.antt =====
-- `NewTransaction` of blockchain/transaction.go: a payment out of a wallet's unspent outputs.
pub mod Payment
pub mod Funded
pub mod Acceptance
use golang_blockchain.Prelude.{
  ℕ, Bool, true, false, List, [], ◌∷◌, ◌++◌, map, Bytes, Map, ℤ, ltb_ℤ, ◌-ℤ◌,
}
use golang_blockchain.Words.Hex.{hex_decode}
use golang_blockchain.Types.{TxInput, TxOutput, Transaction, Wallet}
use golang_blockchain.Platform.{Platform}
use golang_blockchain.Run.{Run, ok, panic, or_panic, decode_failed, not_enough_funds, ◌>>=◌}
use golang_blockchain.Wallet.{address, public_key_hash, deserialize_private_key}
use golang_blockchain.Tx.{hash, new_tx_output}
use golang_blockchain.Chain.{BlockChain, sign_transaction}
use golang_blockchain.Utxo.{Spendable, find_spendable_outputs}

-- the inner loop: an input for each index picked from one transaction
unfoldable pub inputs_of : Bytes → Bytes → List ℤ → List TxInput
inputs_of pub_key tx_id outs =
    map (λ out. record { id = tx_id; out = out; signature = []; pub_key = pub_key }) outs

-- the loop over the picked outputs, in the order in which Go ranges over the map
unfoldable pub new_inputs : Bytes → Map (List ℤ) → Run (List TxInput)
new_inputs pub_key [] = ok []
new_inputs pub_key ((txid, outs) ∷ rest) = do
  tx_id ← or_panic decode_failed (hex_decode txid)
  more ← new_inputs pub_key rest
  ok (inputs_of pub_key tx_id outs ++ more)

module _ (p : Platform) where
  -- the outputs: the payment, and the change if there is some
  unfoldable pub new_outputs : ℤ → ℤ → Bytes → Bytes → Run (List TxOutput)
  new_outputs acc amount to from = do
    payment ← new_tx_output p amount to
    elim (ltb_ℤ amount acc) [
      | false ↦ ok (payment ∷ [])
      | true ↦ do change ← new_tx_output p (acc -ℤ amount) from; ok (payment ∷ change ∷ [])
    ]

  -- the transaction before it is signed, out of what `FindSpendableOutputs` has picked
  unfoldable pub unsigned_transaction :
      (Map (List ℤ) → Map (List ℤ)) → Wallet → Bytes → ℤ → Spendable → Run Transaction
  unsigned_transaction range w to amount picked = elim (ltb_ℤ picked.accumulated amount) [
    | true ↦ panic not_enough_funds
    | false ↦ do
      inputs ← new_inputs w.public_key (range picked.unspent_outs)
      outputs ← new_outputs picked.accumulated amount to (address p w)
      let tx : Transaction = record { id = []; inputs = inputs; outputs = outputs }
      ok (record tx { id = hash p tx })
  ]

  -- `NewTransaction`, with the bytes that signing draws and the order of the map
  unfoldable pub new_transaction :
      ℕ
      → (ℕ → Bytes)
      → (Map (List ℤ) → Map (List ℤ))
      → Wallet
      → Bytes
      → ℤ
      → BlockChain p
      → Run Transaction
  new_transaction fuel rand range w to amount chain = do
    picked ← find_spendable_outputs p chain.database (public_key_hash p w.public_key) amount
    tx ← unsigned_transaction range w to amount picked
    sign_transaction p fuel chain rand (deserialize_private_key p w.private_key) tx
