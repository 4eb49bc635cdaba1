-- ===== src/Transfer/Payment.antt =====
-- What a payment by `NewTransaction` holds, and when there is none.
use golang_blockchain.Prelude.{
  ℕ, ◌-◌, ◌≤◌, ◌<◌, ◌^◌, ◌≡◌, refl, ap, true, false, List, [], ◌∷◌, Bytes, Map, ℤ, pos, ltb_ℤ,
  arith, pos--ℤ, get_elem?, some, Bool-cases, inl, inr, if◌then◌else◌,
}
use golang_blockchain.Types.{TxInput, TxOutput, Transaction, Wallet}
use golang_blockchain.Platform.{Platform}
use golang_blockchain.Run.{ok, panic, not_enough_funds, ◌>>=◌, Returns}
use golang_blockchain.Wallet.{address, public_key_hash}
use golang_blockchain.Tx.{hash, new_tx_output}
use golang_blockchain.Tx.Locking.{pays, new_tx_output-address}
use golang_blockchain.Chain.{BlockChain}
use golang_blockchain.Utxo.{Spendable, find_unspent_transactions}
use golang_blockchain.Utxo.Spending.{Worth, find_spendable_outputs_enough}
use golang_blockchain.Transfer.{new_inputs, new_outputs, unsigned_transaction, new_transaction}

module _ (p : Platform) where
  -- If what `FindUnspentTransactions` lists for the wallet is worth less than the amount, which
  -- is below 2 ^ 63, then `NewTransaction` panics with "not enough funds".
  pub new_transaction_poor :
      (fuel : ℕ) (rand : ℕ → Bytes) (range : Map (List ℤ) → Map (List ℤ)) (w : Wallet) (to : Bytes)
      (n total : ℕ) (chain : BlockChain p) (outs : List TxOutput)
      → find_unspent_transactions p chain.database (public_key_hash p w.public_key) ≡ ok outs
      → Worth outs total
      → total < n
      → n < 2 ^ 63
      → new_transaction p fuel rand range w to (pos n) chain ≡ panic not_enough_funds
  unfolding new_transaction unsigned_transaction
  new_transaction_poor fuel rand range w to n total chain outs listed worth poor bound =
      let (s, e, (b, acc, low, iff)) =
        find_spendable_outputs_enough p chain.database (public_key_hash p w.public_key) n total outs
          listed worth (omega (arith, poor, bound)) in
      let short : ltb_ℤ (pos b) (pos n) ≡ true = ground (arith, low, poor) in
      rw (e, ◌>>=◌, acc) (rw short refl)

  -- the outputs of a payment of `n` out of `b`
  unfoldable pub payment : ℕ → ℕ → Wallet → Wallet → List TxOutput
  payment n b from to =
      if ltb_ℤ (pos n) (pos b)
      then pays p (pos n) to ∷ pays p (pos (b - n)) from ∷ []
      else pays p (pos n) to ∷ []

  pays-address : (v : ℤ) (w : Wallet) → new_tx_output p v (address p w) ≡ ok (pays p v w)
  pays-address v w =
      (new_tx_output-address p v w [] (record { id = []; out = v; signature = []; pub_key = [] })).0

  pub new_outputs-address :
      (n b : ℕ) (from to : Wallet)
      → n ≤ b
      → b < 2 ^ 63
      → new_outputs p (pos b) (pos n) (address p to) (address p from) ≡ ok (payment n b from to)
  unfolding new_outputs payment
  new_outputs-address n b from to h bound = elim (Bool-cases (ltb_ℤ (pos n) (pos b))) [
    | inl more ↦
        rw
          (
            pays-address (pos n) to,
            ◌>>=◌,
            more,
            pos--ℤ b n h bound,
            pays-address (pos (b - n)) from,
          )
          refl
    | inr enough ↦ rw (pays-address (pos n) to, ◌>>=◌, enough) refl
  ]

  Worth-payment : (n b : ℕ) (from to : Wallet) → n ≤ b → Worth (payment n b from to) b
  unfolding payment
  Worth-payment n b from to h = elim (Bool-cases (ltb_ℤ (pos n) (pos b))) [
    | inl more ↦ rw more (n, b - n, refl, (b - n, 0, refl, refl, omega arith), omega (arith, h))
    | inr enough ↦ rw enough (n, 0, refl, refl, ground (arith, h, enough))
  ]

  first-payment :
      (n b : ℕ) (from to : Wallet) → get_elem? (payment n b from to) 0 ≡ some (pays p (pos n) to)
  unfolding payment
  first-payment n b from to = elim (Bool-cases (ltb_ℤ (pos n) (pos b))) [
    | inl more ↦ rw more refl
    | inr enough ↦ rw enough refl
  ]

  -- `NewTransaction` before it signs: if the picked outputs are worth `b` below 2 ^ 63, at least
  -- the amount `n`, and their IDs are hex, it returns a transaction to the recipient's address
  -- whose inputs are the picked outputs, whose first output pays `n` to the recipient, whose
  -- outputs are worth `b` in all, and whose ID is its hash.
  pub unsigned_transaction-Worth :
      (range : Map (List ℤ) → Map (List ℤ)) (from to : Wallet) (n b : ℕ) (picked : Spendable)
      (inputs : List TxInput)
      → picked.accumulated ≡ pos b
      → n ≤ b
      → b < 2 ^ 63
      → new_inputs from.public_key (range picked.unspent_outs) ≡ ok inputs
      → Returns (unsigned_transaction p range from (address p to) (pos n) picked) (λ tx.
        (tx.inputs ≡ inputs)
        × (get_elem? tx.outputs 0 ≡ some (pays p (pos n) to))
        × Worth tx.outputs b
        × (tx.id ≡ hash p tx))
  unfolding unsigned_transaction hash
  unsigned_transaction-Worth range from to n b picked inputs acc h bound ins =
      let bare : Transaction = record { id = []; inputs = inputs; outputs = payment n b from to } in
      (
        record bare { id = hash p bare },
        rw (unsigned_transaction, acc)
            (rw (enough, ins, ◌>>=◌)
              (rw
                (
                  ap (λ a. new_outputs p a (pos n) (address p to) (address p from)) acc,
                  new_outputs-address n b from to h bound,
                  ◌>>=◌,
                )
                refl)),
        (refl, first-payment n b from to, Worth-payment n b from to h, refl),
      )
    where
      enough : ltb_ℤ (pos b) (pos n) ≡ false
      enough = ground (arith, h)
