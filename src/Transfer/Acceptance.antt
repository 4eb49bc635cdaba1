-- ===== src/Transfer/Acceptance.antt =====
-- `VerifyTransaction` on what `NewTransaction` returns.
use golang_blockchain.Prelude.{
  ℕ, ◌≡◌, refl, sym, ap, ◌∙◌, true, List, [], ◌∷◌, Bytes, Map, ℤ, Bool-cases, insert, inl, inr,
}
use golang_blockchain.Words.Hex.{hex_encode}
use golang_blockchain.Types.{TxInput, Transaction, Wallet}
use golang_blockchain.Platform.{Platform}
use golang_blockchain.Run.{
  ok, or_panic, transaction_does_not_exist, ◌>>=◌, Returns, returns_through, ok_injective,
}
use golang_blockchain.Wallet.{PrivateKey, public_key_hash, deserialize_private_key}
use golang_blockchain.Tx.{
  is_coinbase, set_signatures, sign, sign_from, check_previous, trimmed_copy,
}
use golang_blockchain.Tx.Signing.{CanSign, verify-sign}
use golang_blockchain.Chain.{
  find_transaction, BlockChain, previous_transactions, sign_transaction, verify_transaction,
}
use golang_blockchain.Utxo.{Spendable, find_spendable_outputs}
use golang_blockchain.Transfer.{unsigned_transaction, new_transaction}

-- `tx` with signatures
abbrev with_signatures : Transaction → List Bytes → Transaction
with_signatures tx sigs = record tx { inputs = set_signatures tx.inputs sigs }

set_signatures_none : (is : List TxInput) → is ≡ set_signatures is []
unfolding set_signatures
set_signatures_none [] = refl
set_signatures_none (i ∷ is) = refl

module _ (p : Platform) where
  -- What `Sign` returns differs from its argument in the signatures alone.
  sign-with_signatures :
      (rand : ℕ → Bytes) (key : PrivateKey) (prev_txs : Map Transaction) (tx signed : Transaction)
      → sign p rand key prev_txs tx ≡ ok signed
      → (sigs : List Bytes) × (signed ≡ with_signatures tx sigs)
  unfolding sign set_signatures
  sign-with_signatures rand key prev_txs tx signed e = elim (Bool-cases (is_coinbase tx)) [
    | inl yes' ↦ (
      [],
      sym (ok_injective (rw yes' at e))
          ∙ ap (λ l. record tx { inputs = l }) (set_signatures_none tx.inputs),
    )
    | inr no' ↦
        let (u, known, e') =
          returns_through (check_previous prev_txs tx.inputs) _ signed (rw no' at e) in
        let (sigs, made, e'') =
          returns_through
            (sign_from p rand key prev_txs (trimmed_copy tx) 0 [] (trimmed_copy tx).inputs) _ signed
            e' in
        (sigs, sym (ok_injective e''))
  ]

  previous_transactions-set_signatures :
      (fuel : ℕ) (chain : BlockChain p) (is : List TxInput) (sigs : List Bytes)
      (m : Map Transaction)
      → previous_transactions p fuel chain (set_signatures is sigs) m
        ≡ previous_transactions p fuel chain is m
  unfolding previous_transactions set_signatures
  previous_transactions-set_signatures fuel chain [] sigs m = refl
  previous_transactions-set_signatures fuel chain (i ∷ is) [] m = refl
  previous_transactions-set_signatures fuel chain (i ∷ is) (s ∷ sigs) m = λ t.
      find_transaction p fuel chain i.id >>= λ found.
      or_panic transaction_does_not_exist found >>= λ tx.
      previous_transactions-set_signatures fuel chain is sigs (insert (hex_encode tx.id) tx m) t

  -- Take what `FindSpendableOutputs` picks, the transaction made of it, and the previous
  -- transactions that the chain has for its inputs. If the wallet can sign that transaction with
  -- them, `NewTransaction` returns it signed, with the same ID and outputs, and
  -- `VerifyTransaction` on the same chain accepts it.
  pub verify_transaction-new_transaction :
      (fuel : ℕ) (rand : ℕ → Bytes) (range : Map (List ℤ) → Map (List ℤ)) (w : Wallet) (to : Bytes)
      (amount : ℤ) (chain : BlockChain p) (picked : Spendable) (tx : Transaction)
      (prev_txs : Map Transaction)
      → find_spendable_outputs p chain.database (public_key_hash p w.public_key) amount ≡ ok picked
      → unsigned_transaction p range w to amount picked ≡ ok tx
      → previous_transactions p fuel chain tx.inputs [] ≡ ok prev_txs
      → CanSign p rand w.private_key prev_txs tx
      → Returns (new_transaction p fuel rand range w to amount chain) (λ signed.
        (verify_transaction p fuel chain signed ≡ ok true)
        × (signed.id ≡ tx.id)
        × (signed.outputs ≡ tx.outputs))
  unfolding new_transaction sign_transaction verify_transaction
  verify_transaction-new_transaction fuel rand range w to amount chain picked tx prev_txs spendable
        made gathered can =
      let key = deserialize_private_key p w.private_key in
      let (signed, e, v) = verify-sign p rand w.private_key prev_txs tx can in
      let (sigs, same) = sign-with_signatures rand key prev_txs tx signed e in
      let gathered' : previous_transactions p fuel chain signed.inputs [] ≡ ok prev_txs =
        ap (λ (t : Transaction). previous_transactions p fuel chain t.inputs []) same
        ∙ previous_transactions-set_signatures fuel chain tx.inputs sigs []
        ∙ gathered in
      (
        signed,
        rw (spendable, made, gathered, ◌>>=◌) e,
        (
          rw (gathered', ◌>>=◌) v,
          ap (λ (t : Transaction). t.id) same,
          ap (λ (t : Transaction). t.outputs) same,
        ),
      )
