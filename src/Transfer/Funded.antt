-- ===== src/Transfer/Funded.antt =====
-- What a payment by `NewTransaction` of blockchain/transaction.go spends.
use golang_blockchain.Prelude.{
  ℕ, ◌≤◌, ◌<◌, ◌^◌, ◌≡◌, refl, sym, ap, ◌∙◌, subst, some, List, [], ◌∷◌, ◌++◌, All, Bytes, Map, ℤ,
  pos, arith, get_elem?,
}
use mathlib.Core.List.{Permᴰ}
use golang_blockchain.Words.Hex.{hex_decode, hex_decode-hex_encode}
use golang_blockchain.Types.{TxInput, TxOutput, Wallet}
use golang_blockchain.Platform.{Platform}
use golang_blockchain.Run.{ok, ◌>>=◌, Returns, ok_injective}
use golang_blockchain.Wallet.{address, public_key_hash}
use golang_blockchain.Tx.{hash}
use golang_blockchain.Tx.Locking.{pays}
use golang_blockchain.Utxo.{
  Spendable, find_spendable_outputs, find_unspent_transactions, utxo_prefix,
}
use golang_blockchain.Utxo.Spending.{Worth, find_spendable_outputs_enough}
use golang_blockchain.Utxo.Totals.{Totals, Totals-append, Totals-Perm}
use golang_blockchain.Utxo.Picked.{Stored, Picked, find_spendable_outputs-Holding}
use golang_blockchain.Transfer.{inputs_of, new_inputs, unsigned_transaction}
use golang_blockchain.Transfer.Payment.{unsigned_transaction-Worth}

pos_injective : {x y : ℕ} → ◌≡◌ {A = ℤ} (pos x) (pos y) → x ≡ y
pos_injective e = cc

module _ (p : Platform) where
  open p.badger use {DB, get}

  -- The input names a stored output that is locked with the key hash and worth `v`, and carries the
  -- public key.
  abbrev pub Names : DB → Bytes → Bytes → TxInput → ℕ → Type 0
  Names d h pub_key i v = (i.pub_key ≡ pub_key) × Stored p d h i.id i.out v

  same_sum :
      (s s' : Spendable) (b b' : ℕ) (d : DB) (h : Bytes)
      → s' ≡ s
      → s.accumulated ≡ pos b
      → s'.accumulated ≡ pos b'
      → Totals (Picked p d h) s'.unspent_outs b'
      → Totals (Picked p d h) s.unspent_outs b
  same_sum s s' b b' d h same acc acc' t =
      let sum : b' ≡ b = pos_injective (sym acc' ∙ ap (λ x. x.accumulated) same ∙ acc) in
      subst (λ x. Totals (Picked p d h) x.unspent_outs b) same
        (subst (Totals (Picked p d h) s'.unspent_outs) sum t)

  inputs_of-Names :
      (d : DB) (h pub_key id : Bytes) (is : List ℤ) (n : ℕ)
      → Totals (Stored p d h id) is n
      → Totals (Names d h pub_key) (inputs_of pub_key id is) n
  unfolding inputs_of
  inputs_of-Names d h pub_key id [] n t = t
  inputs_of-Names d h pub_key id (i ∷ is) n (v, rest, here, t, sum) =
      (v, rest, (refl, here), inputs_of-Names d h pub_key id is rest t, sum)

  new_inputs-Names :
      (d : DB) (h pub_key : Bytes) (m : Map (List ℤ)) (b : ℕ)
      → Totals (Picked p d h) m b
      → Returns (new_inputs pub_key m) (λ inputs. Totals (Names d h pub_key) inputs b)
  unfolding new_inputs
  new_inputs-Names d h pub_key [] b t = ([], refl, t)
  new_inputs-Names d h pub_key ((txid, is) ∷ m) b (v, rest, (id, e, bytes, t), ts, sum) =
      let (more, run, post) = new_inputs-Names d h pub_key m rest ts in
      let decoded = ap hex_decode e ∙ hex_decode-hex_encode id bytes in
      (
        inputs_of pub_key id is ++ more,
        rw (decoded, ◌>>=◌) (rw (run, ◌>>=◌) refl),
        subst (Totals (Names d h pub_key) (inputs_of pub_key id is ++ more)) sum (
            Totals-append (Names d h pub_key) (inputs_of pub_key id is) more v rest
              (inputs_of-Names d h pub_key id is v t) post),
      )

  -- `NewTransaction` before it signs, with `FindSpendableOutputs` on the database: let what
  -- `FindUnspentTransactions` lists for the sender's key be worth `total` in all, below 2 ^ 63 and
  -- at least the amount `n`, let the IDs of the stored transactions consist of bytes, and let Go
  -- range over a map in some order. Then a transaction is returned, and there is a sum `b`, at
  -- least `n`, for which it keeps what it spends: each input carries the sender's key and names an
  -- output in the database that is locked with that key, and these outputs, one for each input,
  -- are worth `b` in all; the first output pays `n` to the recipient, and the outputs are worth
  -- `b` in all. The ID is the hash.
  pub unsigned_transaction-find_spendable_outputs :
      (range : Map (List ℤ) → Map (List ℤ)) (from to : Wallet) (d : DB) (n total : ℕ)
      (outs : List TxOutput)
      → find_unspent_transactions p d (public_key_hash p from.public_key) ≡ ok outs
      → Worth outs total
      → total < 2 ^ 63
      → n ≤ total
      → ((id raw : Bytes) → get d (utxo_prefix ++ id) ≡ some raw → All (λ x. x < 256) id)
      → ((m : Map (List ℤ)) → Permᴰ m (range m))
      → Returns
          (find_spendable_outputs p d (public_key_hash p from.public_key) (pos n)
            >>= unsigned_transaction p range from (address p to) (pos n))
          (λ tx.
            (b : ℕ) × (n ≤ b)
            × Totals (Names d (public_key_hash p from.public_key) from.public_key) tx.inputs b
            × (get_elem? tx.outputs 0 ≡ some (pays p (pos n) to))
            × Worth tx.outputs b
            × (tx.id ≡ hash p tx))
  unsigned_transaction-find_spendable_outputs range from to d n total outs listed worth bound funds
        bytes shuffled =
      let h = public_key_hash p from.public_key in
      let (s, e, (b, acc, low, iff)) =
        find_spendable_outputs_enough p d h n total outs listed worth bound in
      let (s', e', (b', (acc', t'))) =
        find_spendable_outputs-Holding p d h n total outs bytes listed worth bound in
      let same : s' ≡ s = ok_injective (sym e' ∙ e) in
      let t : Totals (Picked p d h) s.unspent_outs b = same_sum s s' b b' d h same acc acc' t' in
      let (inputs, ins, names) = new_inputs-Names d h from.public_key (range s.unspent_outs) b (
        Totals-Perm (Picked p d h) s.unspent_outs (range s.unspent_outs) b (shuffled s.unspent_outs)
          t) in
      let (tx, made, (are, first, outs_worth, id)) =
        unsigned_transaction-Worth p range from to n b s inputs acc (iff.1 funds)
          (omega (arith, low, bound)) ins in
      (
        tx,
        ap (λ call. call >>= unsigned_transaction p range from (address p to) (pos n)) e ∙ made,
        (
          b,
          iff.1 funds,
          subst (λ is. Totals (Names d h from.public_key) is b) (sym are) names,
          first,
          outs_worth,
          id,
        ),
      )
