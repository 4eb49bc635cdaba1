-- ===== src/Tx/Locking.antt =====
-- Outputs to the address of a wallet, and coinbase transactions.
use golang_blockchain.Prelude.{
  ◌≡◌, refl, sym, ap, ◌∙◌, true, [], ◌∷◌, Bytes, All, ◌<◌, bytes_equal_refl, bytes_equal_iff,
  bytes_equal→eq, ℤ, pos, ◌↔◌,
}
use golang_blockchain.Types.{TxOutput, TxInput, Wallet}
use golang_blockchain.Platform.{Platform}
use golang_blockchain.Run.{ok, ◌>>=◌, >>=-assoc, Returns, Ensures, ok_injective}
use golang_blockchain.Wallet.{address, public_key_hash, base58_decode, payload}
use golang_blockchain.Wallet.Address.{payload-address}
use golang_blockchain.Tx.{
  is_locked_with_key, is_coinbase, uses_key, lock, new_tx_output, hash, coinbase_note,
  unnamed_coinbase, coinbase_tx,
}

module _ (p : Platform) where
  -- the output that pays to a wallet
  abbrev pub pays : ℤ → Wallet → TxOutput
  pays value w = record { value = value; pub_key_hash = public_key_hash p w.public_key }

  -- The decoded address and its payload, with the rest of the call behind them.
  lock-address :
      (out : TxOutput) (w : Wallet)
      → lock p out (address p w) ≡ ok (record out { pub_key_hash = public_key_hash p w.public_key })
  unfolding lock
  lock-address out w =
      >>=-assoc (base58_decode p (address p w)) payload _
      ∙ ap (λ r. r >>= λ h. ok (record out { pub_key_hash = h })) (payload-address p w)

  -- `NewTXOutput` to the address of a wallet returns an output of that value; a key hash unlocks
  -- it exactly if it is the hash of the wallet's key, and an input with that key uses it.
  pub new_tx_output-address :
      (value : ℤ) (w : Wallet) (pub_key_hash : Bytes) (i : TxInput)
      → (new_tx_output p value (address p w) ≡ ok (pays value w))
        × ((is_locked_with_key (pays value w) pub_key_hash ≡ true)
            ↔ (pub_key_hash ≡ public_key_hash p w.public_key))
        × (i.pub_key ≡ w.public_key → uses_key p i (pays value w).pub_key_hash ≡ true)
  unfolding new_tx_output is_locked_with_key uses_key
  new_tx_output-address value w pub_key_hash i = (
    lock-address (record { value = value; pub_key_hash = [] }) w,
    (
      (λ e. sym (bytes_equal→eq _ pub_key_hash e)),
      (λ e. (bytes_equal_iff (public_key_hash p w.public_key) pub_key_hash).1 (sym e)),
    ),
    λ e. rw e (bytes_equal_refl (public_key_hash p w.public_key)),
  )

  -- `CoinbaseTx` to the address of a wallet returns a transaction that `IsCoinbase` accepts, that
  -- pays 100 to the wallet and nothing else, and whose ID is its hash.
  pub coinbase_tx-address :
      (w : Wallet) (note : Bytes)
      → Returns (coinbase_tx p (address p w) note) (λ tx.
        (is_coinbase tx ≡ true) × (tx.outputs ≡ pays (pos 100) w ∷ []) × (tx.id ≡ hash p tx))
  unfolding coinbase_tx is_coinbase hash new_tx_output
  coinbase_tx-address w note =
      let tx = unnamed_coinbase (coinbase_note (address p w) note) (pays (pos 100) w) in
      (
        record tx { id = hash p tx },
        rw (lock-address (record { value = pos 100; pub_key_hash = [] }) w, ◌>>=◌) refl,
        (refl, refl, refl),
      )

  -- the same of what it returns
  pub coinbase_tx-Ensures :
      (w : Wallet) (note : Bytes)
      → Ensures
          (λ cb.
            (cb.outputs ≡ pays (pos 100) w ∷ [])
            × All (λ x. x < 256) cb.id
            × (is_coinbase cb ≡ true))
          (coinbase_tx p (address p w) note)
  unfolding hash
  coinbase_tx-Ensures w note cb e =
      let (tx, e', (coinbase, outs, id)) = coinbase_tx-address w note in
      let same : tx ≡ cb = ok_injective (sym e' ∙ e) in
      rw (sym same) (outs, rw id (p.crypto.sha256_bytes _), coinbase)
