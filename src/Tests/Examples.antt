-- ===== src/Tests/Examples.antt =====
-- Each theorem that has conditions, at an input that meets them.
use golang_blockchain.Prelude.{
  ◌^◌, ◌<◌, ◌≡◌, ◌≢◌, ◌↔◌, refl, true, inl, inr, some, List, [], ◌∷◌, ◌++◌, map, Bytes, Map, lookup,
  bytes_equal, pos, negsuc, arith,
}
use golang_blockchain.Words.Hex.{hex_encode, hex_decode, hex_decode-hex_encode}
use golang_blockchain.Words.Big.{set_bytes, big_bytes, be_int64}
use golang_blockchain.Types.{TxInput, Transaction, Block, Wallet}
use golang_blockchain.Run.{ok, panic, index_out_of_range, Returns}
use golang_blockchain.Merkle.{node_data, new_merkle_tree}
use golang_blockchain.Merkle.Shape.{root_of, new_merkle_tree-root, new_merkle_tree_overrun}
use golang_blockchain.Pow.{serialize_transaction, create_block, new_proof, validate}
use golang_blockchain.Pow.Mining.{
  IsMined, create_block-IsMined, create_block_overrun, validate_ignores,
}
use golang_blockchain.Wallet.{
  base58_decode, halves, address, validate_address, public_key_hash, deserialize_private_key,
}
use golang_blockchain.Wallet.Address.{validate_address-address, validate_address_short}
use golang_blockchain.Wallet.Halves.{halves-Splits, halves_misread}
use golang_blockchain.Tx.{
  is_locked_with_key, uses_key, is_coinbase, hash, new_tx_output, coinbase_tx, check_previous,
  previous, output_at, sign, verify,
}
use golang_blockchain.Tx.Signing.{CanSign, verify-sign}
use golang_blockchain.Tx.Locking.{pays, new_tx_output-address, coinbase_tx-address}
use golang_blockchain.Tests.Toy.{toy, toy_crypto, toy_hash}

abbrev pub spending : TxInput
spending = record { id = 9 ∷ []; out = pos 0; signature = []; pub_key = 1 ∷ 1 ∷ [] }

abbrev three : List Bytes
three = (1 ∷ []) ∷ (2 ∷ []) ∷ (3 ∷ []) ∷ []

new_merkle_tree-root_example :
    Returns (new_merkle_tree toy_crypto three) (λ t. node_data t ≡ ok (root_of toy_hash three))
new_merkle_tree-root_example = new_merkle_tree-root toy_crypto three (omega arith) (omega arith)

abbrev five : List Bytes
five = (4 ∷ []) ∷ (5 ∷ []) ∷ three

new_merkle_tree_overrun_example : new_merkle_tree toy_crypto five ≡ panic index_out_of_range
new_merkle_tree_overrun_example = new_merkle_tree_overrun toy_crypto five (inr (omega arith))

abbrev pub alice : Wallet
alice = record { private_key = 1 ∷ []; public_key = 1 ∷ 1 ∷ [] }

abbrev pub paid : Transaction
paid = record {
  id = 9 ∷ [];
  inputs = record { id = []; out = negsuc 0; signature = []; pub_key = [] } ∷ [];
  outputs = record { value = pos 100; pub_key_hash = 1 ∷ 1 ∷ [] } ∷ [];
}

-- the toy hash stands for a number below 256
pub tiny : (m : Bytes) → set_bytes (toy_hash m) < 2 ^ 238
unfolding set_bytes
tiny m = omega arith

abbrev root : Bytes
root = root_of toy_hash (map (serialize_transaction toy) (paid ∷ []))

create_block-IsMined_example :
    Returns
      (create_block toy (pos 7) (paid ∷ []) [] (pos 0))
      (IsMined toy (paid ∷ []) [] root (pos 0))
create_block-IsMined_example =
    create_block-IsMined toy (pos 7) (pos 0) (paid ∷ []) [] 0 (omega arith) (omega arith)
      (omega arith) (tiny ([] ++ root ++ be_int64 (pos 0) ++ be_int64 (pos 18)))

abbrev many : List Transaction
many = paid ∷ paid ∷ paid ∷ paid ∷ paid ∷ []

create_block_overrun_example : create_block toy (pos 7) many [] (pos 0) ≡ panic index_out_of_range
create_block_overrun_example = create_block_overrun toy (pos 7) (pos 0) many [] (inr (omega arith))

abbrev pub first : Block
first = record {
  timestamp = pos 7;
  hash = 1 ∷ [];
  transactions = paid ∷ [];
  prev_hash = [];
  nonce = pos 0;
  height = pos 0;
}

validate_ignores_example :
    validate toy (new_proof (record first { hash = []; timestamp = pos 0; height = pos 5 }))
    ≡ validate toy (new_proof first)
validate_ignores_example = validate_ignores toy first [] (pos 0) (pos 5)

validate_address-address_example : validate_address toy (address toy alice) ≡ ok true
validate_address-address_example = validate_address-address toy alice

validate_address_short_example : validate_address toy (1 ∷ 2 ∷ []) ≡ panic index_out_of_range
unfolding base58_decode
validate_address_short_example =
    validate_address_short toy (1 ∷ 2 ∷ []) (1 ∷ 2 ∷ []) refl (omega arith)

halves-Splits_example : halves (big_bytes 7 ++ big_bytes 300) ≡ (7, 300)
unfolding big_bytes
halves-Splits_example = halves-Splits 7 300 (inr refl)

halves_misread_example : (halves (big_bytes 300 ++ big_bytes 7)).0 ≢ 300
unfolding big_bytes
halves_misread_example = halves_misread 300 7 (omega arith)

hex_decode-hex_encode_example : hex_decode (hex_encode (10 ∷ 255 ∷ [])) ≡ some (10 ∷ 255 ∷ [])
hex_decode-hex_encode_example = hex_decode-hex_encode (10 ∷ 255 ∷ []) (omega arith)

new_tx_output-address_example :
    (new_tx_output toy (pos 5) (address toy alice) ≡ ok (pays toy (pos 5) alice))
    × ((is_locked_with_key (pays toy (pos 5) alice) (1 ∷ 1 ∷ []) ≡ true)
        ↔ ((1 ∷ 1 ∷ []) ≡ public_key_hash toy alice.public_key))
    × (spending.pub_key ≡ alice.public_key
        → uses_key toy spending (pays toy (pos 5) alice).pub_key_hash ≡ true)
new_tx_output-address_example = new_tx_output-address toy (pos 5) alice (1 ∷ 1 ∷ []) spending

coinbase_tx-address_example : Returns (coinbase_tx toy (address toy alice) []) (λ tx.
    (is_coinbase tx ≡ true) × (tx.outputs ≡ pays toy (pos 100) alice ∷ []) × (tx.id ≡ hash toy tx))
coinbase_tx-address_example = coinbase_tx-address toy alice []

-- a transaction that spends the output of `paid`
abbrev pub transfer : Transaction
transfer = record {
  id = 8 ∷ [];
  inputs = spending ∷ [];
  outputs = record { value = pos 100; pub_key_hash = 2 ∷ [] } ∷ [];
}

abbrev pub known_txs : Map Transaction
known_txs = (hex_encode (9 ∷ []), paid) ∷ []

pub transfer-CanSign : CanSign toy (λ n. []) (1 ∷ []) known_txs transfer
unfolding check_previous previous lookup bytes_equal hex_encode output_at deserialize_private_key
    big_bytes set_bytes
transfer-CanSign = record {
  known = refl;
  outputs_exist = ((_, refl, tt), tt);
  own = (refl, tt);
  key_splits = inl refl;
  signs = ((λ digest made. (1, 1, refl, inl refl)), tt);
}

verify-sign_example :
    Returns
      (sign toy (λ n. []) (deserialize_private_key toy (1 ∷ [])) known_txs transfer)
      (λ signed. verify toy known_txs signed ≡ ok true)
verify-sign_example = verify-sign toy (λ n. []) (1 ∷ []) known_txs transfer transfer-CanSign
