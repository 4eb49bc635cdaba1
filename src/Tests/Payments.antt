-- ===== src/Tests/Payments.antt =====
-- The theorems on the stored outputs and on payments, on a chain with one stored output.
use golang_blockchain.Prelude.{
  List, Option, sym, subst, All, ◌<◌, Bool-cases, inr, bytes_equal→eq, inl, ◌≡◌, ◌≤◌, ◌↔◌, refl,
  true, none, some, [], ◌∷◌, ◌++◌, Bytes, lookup, bytes_equal, pos, arith, has_prefix,
  if◌then◌else◌, ◌+ℤ◌, pos-+ℤ, get_elem?, ℕ, bytes_equal_refl, insert, trim_prefix, insert,
  trim_prefix,
}
use golang_blockchain.Words.Hex.{hex_encode, hex_decode}
use golang_blockchain.Types.{TxOutput, Transaction, Wallet}
use golang_blockchain.Run.{ok, ◌>>=◌, panic, not_enough_funds, Returns}
use golang_blockchain.Wallet.{address, public_key_hash}
use golang_blockchain.Tx.{hash, output_at, is_locked_with_key}
use golang_blockchain.Tx.Locking.{pays}
use golang_blockchain.Tx.Signing.{CanSign}
use golang_blockchain.Chain.{BlockChain, lh, verify_transaction, previous_transactions, find_in}
use golang_blockchain.Chain.Walk.{IsChain, find_transaction-find_in}
use golang_blockchain.Utxo.{
  utxo_prefix, Spendable, find_spendable_outputs, find_unspent_transactions, delete_by_prefix,
  spend_outputs, unspent_entries, locked_outputs, spend_entries, append_at, slice_at,
}
use golang_blockchain.Utxo.Updating.{update_inputs}
use golang_blockchain.Utxo.Spending.{Worth, find_spendable_outputs_enough}
use golang_blockchain.Utxo.Shifted.{find_spendable_outputs_shifted}
use golang_blockchain.Utxo.Clearing.{delete_by_prefix-get}
use golang_blockchain.Transfer.{new_inputs, inputs_of, unsigned_transaction, new_transaction}
use golang_blockchain.Transfer.Payment.{payment, new_outputs-address, new_transaction_poor}
use golang_blockchain.Transfer.Funded.{Names, unsigned_transaction-find_spendable_outputs}
use golang_blockchain.Utxo.Totals.{Totals}
use mathlib.Core.List.Permᴰ
use golang_blockchain.Transfer.Acceptance.{verify_transaction-new_transaction}
use golang_blockchain.Tests.Store.{non_empty, scan_entries, drop_key}
use golang_blockchain.Platform.{decode_or_panic}
use golang_blockchain.Tests.Toy.{toy}
use golang_blockchain.Tests.Examples.{first, alice, spending, transfer-CanSign, known_txs}

abbrev pub bob : Wallet
bob = record { private_key = 2 ∷ []; public_key = 2 ∷ 2 ∷ [] }

-- a coin of alice's
abbrev pub coin : TxOutput
coin = record { value = pos 100; pub_key_hash = public_key_hash toy alice.public_key }

abbrev pub purse : BlockChain toy
purse = record {
  last_hash = 1 ∷ [];
  database =
      (utxo_prefix ++ 9 ∷ [], toy.outputs_codec.encode (record { outputs = coin ∷ [] }))
      ∷ (lh, 1 ∷ [])
      ∷ (1 ∷ [], toy.block_codec.encode first)
      ∷ [];
}

pub stored_accepted :
    (k v : Bytes) → toy.badger.get purse.database k ≡ some v → toy.badger.accepts k ≡ true
unfolding lookup bytes_equal non_empty
stored_accepted [] v h = cc
stored_accepted (x ∷ k) v h = refl

delete_by_prefix-get_example : Returns (delete_by_prefix toy utxo_prefix purse.database) (λ after.
    (j : Bytes)
    → toy.badger.get after j
      ≡ (if has_prefix utxo_prefix j then none else toy.badger.get purse.database j))
delete_by_prefix-get_example = delete_by_prefix-get toy utxo_prefix purse.database stored_accepted

purse_scanned :
    toy.badger.scan purse.database utxo_prefix
    ≡ (utxo_prefix ++ 9 ∷ [], toy.outputs_codec.encode (record { outputs = coin ∷ [] })) ∷ []
unfolding scan_entries drop_key has_prefix bytes_equal
purse_scanned = refl

coin_locked : is_locked_with_key coin (public_key_hash toy alice.public_key) ≡ true
unfolding is_locked_with_key
coin_locked = bytes_equal_refl (public_key_hash toy alice.public_key)

coin_listed :
    find_unspent_transactions toy purse.database (public_key_hash toy alice.public_key)
    ≡ ok (coin ∷ [])
unfolding find_unspent_transactions unspent_entries locked_outputs decode_or_panic
coin_listed =
    rw purse_scanned
      (rw (toy.outputs_codec.decode-encode (record { outputs = coin ∷ [] })) (rw coin_locked refl))

coin-Worth : Worth (coin ∷ []) 100
coin-Worth = (100, 0, refl, refl, refl)

find_spendable_outputs_enough_example :
    Returns
      (find_spendable_outputs toy purse.database (public_key_hash toy alice.public_key) (pos 60))
      (λ s. (b : ℕ) × (s.accumulated ≡ pos b) × (b ≤ 100) × ((60 ≤ b) ↔ (60 ≤ 100)))
find_spendable_outputs_enough_example =
    find_spendable_outputs_enough toy purse.database (public_key_hash toy alice.public_key) 60 100
      (coin ∷ []) coin_listed coin-Worth (omega arith)

new_transaction_poor_example :
    new_transaction toy 1 (λ n. []) (λ m. m) alice (address toy bob) (pos 101) purse
    ≡ panic not_enough_funds
new_transaction_poor_example =
    new_transaction_poor toy 1 (λ n. []) (λ m. m) alice (address toy bob) 101 100 purse (coin ∷ [])
      coin_listed coin-Worth (omega arith) (omega arith)

abbrev picked : Spendable
picked = record { accumulated = pos 100; unspent_outs = (hex_encode (9 ∷ []), pos 0 ∷ []) ∷ [] }

picked_inputs : new_inputs alice.public_key picked.unspent_outs ≡ ok (spending ∷ [])
unfolding new_inputs inputs_of hex_decode hex_encode
picked_inputs = refl

purse_bytes :
    (id raw : Bytes)
    → toy.badger.get purse.database (utxo_prefix ++ id) ≡ some raw
    → All (λ x. x < 256) id
unfolding lookup bytes_equal
purse_bytes id raw at = elim (Bool-cases (bytes_equal (9 ∷ []) id)) [
  | inl e ↦ subst (All (λ x. x < 256)) (bytes_equal→eq (9 ∷ []) id e) (omega arith, tt)
  | inr other ↦ let gone : ◌≡◌ {A = Option Bytes} none (some raw) = rw other at at in cc
]

unsigned_transaction-find_spendable_outputs_example :
    Returns
      (find_spendable_outputs toy purse.database (public_key_hash toy alice.public_key) (pos 60)
        >>= unsigned_transaction toy (λ m. m) alice (address toy bob) (pos 60))
      (λ tx.
        (b : ℕ) × (60 ≤ b)
        × Totals
            (Names toy purse.database (public_key_hash toy alice.public_key) alice.public_key)
            tx.inputs
            b
        × (get_elem? tx.outputs 0 ≡ some (pays toy (pos 60) bob))
        × Worth tx.outputs b
        × (tx.id ≡ hash toy tx))
unsigned_transaction-find_spendable_outputs_example =
    unsigned_transaction-find_spendable_outputs toy (λ m. m) alice bob purse.database 60 100
      (coin ∷ []) coin_listed coin-Worth (omega arith) (omega arith) purse_bytes (λ m. Permᴰ.refl m)

abbrev kept : TxOutput
kept = record { value = pos 7; pub_key_hash = 1 ∷ [] }

locked_kept : is_locked_with_key kept (1 ∷ []) ≡ true
unfolding is_locked_with_key
locked_kept = bytes_equal_refl (1 ∷ [])

-- a database with two unspent outputs of one transaction
abbrev two_coins : List (Bytes × Bytes)
two_coins =
    (utxo_prefix ++ 9 ∷ [], toy.outputs_codec.encode (record { outputs = coin ∷ kept ∷ [] })) ∷ []

two_coins_alone :
    (j v : Bytes)
    → lookup j two_coins ≡ some v
    → has_prefix utxo_prefix j ≡ true
    → j ≡ utxo_prefix ++ 9 ∷ []
unfolding lookup
two_coins_alone j v at under = elim (Bool-cases (bytes_equal (utxo_prefix ++ 9 ∷ []) j)) [
  | inl e ↦ sym (bytes_equal→eq (utxo_prefix ++ 9 ∷ []) j e)
  | inr other ↦ let gone : ◌≡◌ {A = Option Bytes} none (some v) = rw other at at in cc
]

find_spendable_outputs_shifted_example :
    Returns (update_inputs toy (spending ∷ []) two_coins) (λ after.
      find_spendable_outputs toy after (1 ∷ []) (pos 5)
      ≡ ok (record {
        accumulated = pos 0 +ℤ pos 7;
        unspent_outs = (hex_encode (9 ∷ []), pos 0 ∷ []) ∷ [];
      }))
    × (output_at (coin ∷ kept ∷ []) (pos 0) ≡ ok coin)
unfolding lookup bytes_equal non_empty
find_spendable_outputs_shifted_example =
    find_spendable_outputs_shifted toy two_coins (1 ∷ []) spending 5 coin kept refl two_coins_alone
      refl refl locked_kept (omega arith)

coin_picked :
    find_spendable_outputs toy purse.database (public_key_hash toy alice.public_key) (pos 60)
    ≡ ok picked
unfolding find_spendable_outputs spend_entries spend_outputs append_at slice_at insert lookup
    decode_or_panic trim_prefix has_prefix
coin_picked = rw purse_scanned (
    rw (toy.outputs_codec.decode-encode (record { outputs = coin ∷ [] }))
      (rw (coin_locked, pos-+ℤ 0 100 (omega arith)) refl))

-- the payment of 60 before it is signed
abbrev unnamed : Transaction
unnamed = record { id = []; inputs = spending ∷ []; outputs = payment toy 60 100 alice bob }

abbrev named : Transaction
named = record unnamed { id = hash toy unnamed }

named_made : unsigned_transaction toy (λ m. m) alice (address toy bob) (pos 60) picked ≡ ok named
unfolding unsigned_transaction
named_made =
    rw (picked_inputs, ◌>>=◌)
      (rw (new_outputs-address toy 60 100 alice bob (omega arith) (omega arith), ◌>>=◌) refl)

pub purse-IsChain : IsChain toy purse.database purse.last_hash (first ∷ [])
unfolding lookup bytes_equal
purse-IsChain = ((_, refl, toy.block_codec.decode-encode first), refl)

paid_gathered : previous_transactions toy 1 purse (spending ∷ []) [] ≡ ok known_txs
unfolding previous_transactions find_in insert bytes_equal
paid_gathered =
    rw (find_transaction-find_in toy 1 purse (first ∷ []) (9 ∷ []) purse-IsChain (omega arith)) refl

named-CanSign : CanSign toy (λ n. []) alice.private_key known_txs named
named-CanSign = record {
  known = transfer-CanSign.known;
  outputs_exist = transfer-CanSign.outputs_exist;
  own = transfer-CanSign.own;
  key_splits = transfer-CanSign.key_splits;
  signs = ((λ digest made. (1, 1, refl, inl refl)), tt);
}

verify_transaction-new_transaction_example :
    Returns
      (new_transaction toy 1 (λ n. []) (λ m. m) alice (address toy bob) (pos 60) purse)
      (λ signed.
        (verify_transaction toy 1 purse signed ≡ ok true)
        × (signed.id ≡ named.id)
        × (signed.outputs ≡ named.outputs))
verify_transaction-new_transaction_example =
    verify_transaction-new_transaction toy 1 (λ n. []) (λ m. m) alice (address toy bob) (pos 60)
      purse picked named known_txs coin_picked named_made paid_gathered named-CanSign

pub purse_pays :
    Returns
      (new_transaction toy 1 (λ n. []) (λ m. m) alice (address toy bob) (pos 60) purse)
      (λ _. Unit {0})
purse_pays =
    let (signed, e, _) =
      verify_transaction-new_transaction toy 1 (λ n. []) (λ m. m) alice (address toy bob) (pos 60)
        purse picked named known_txs coin_picked named_made paid_gathered named-CanSign in
    (signed, e, tt)
