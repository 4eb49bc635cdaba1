-- ===== src/Tests/Toy.antt =====
-- The test platform: a sum for the hash functions, signatures that are always (1, 1), no change
-- for Base58, the plain coder for gob, and the small store.
use golang_blockchain.Prelude.{ℕ, ◌+◌, ◌%◌, ◌<◌, refl, true, some, [], ◌∷◌, Bytes, All, arith}
use golang_blockchain.Types.{TxOutput, TxOutputs, TxInput, Transaction, Block}
use golang_blockchain.Platform.{Crypto, Base58, Platform}
use golang_blockchain.Tests.Coder.{
  Coder, nat_coder, int_coder, pair_coder, list_coder, iso_coder, codec_of,
}
use golang_blockchain.Tests.Store.{small_store}

abbrev sum : Bytes → ℕ
sum [] = 0
sum (x ∷ xs) = x + sum xs

abbrev pub toy_hash : Bytes → Bytes
toy_hash m =
    0
    ∷ 0
    ∷ 0
    ∷ 0
    ∷ 0
    ∷ 0
    ∷ 0
    ∷ 0
    ∷ 0
    ∷ 0
    ∷ 0
    ∷ 0
    ∷ 0
    ∷ 0
    ∷ 0
    ∷ 0
    ∷ 0
    ∷ 0
    ∷ 0
    ∷ 0
    ∷ 0
    ∷ 0
    ∷ 0
    ∷ 0
    ∷ 0
    ∷ 0
    ∷ 0
    ∷ 0
    ∷ 0
    ∷ 0
    ∷ 0
    ∷ (sum m % 256)
    ∷ []

pub toy_hash_bytes : (m : Bytes) → All (λ x. x < 256) (toy_hash m)
toy_hash_bytes m = omega arith

abbrev pub toy_crypto : Crypto
toy_crypto = record {
  sha256 = toy_hash;
  ripemd160 = λ m. m;
  length-sha256 = λ m. refl;
  sha256_bytes = toy_hash_bytes;
  scalar_base_mult = λ k. (1, 1);
  generate_key = λ rand. some 1;
  ecdsa_sign = λ rand d digest. some (1, 1);
  ecdsa_verify = λ x y digest r s. true;
  ecdsa_verify-ecdsa_sign = λ rand k digest r s e. refl;
}

abbrev pub toy_base58 : Base58
toy_base58 = record {
  base58_encode = λ b. b;
  base58_decode = λ b. some b;
  base58_decode-base58_encode = λ b. refl;
}

unfoldable pub output_coder : Coder TxOutput
output_coder =
    iso_coder (pair_coder int_coder (list_coder nat_coder))
      (λ q. record { value = q.0; pub_key_hash = q.1 }) (λ o. (o.value, o.pub_key_hash)) (λ o. refl)

unfoldable pub outputs_coder : Coder TxOutputs
outputs_coder =
    iso_coder (list_coder output_coder) (λ l. record { outputs = l }) (λ o. o.outputs) (λ o. refl)

unfoldable pub input_coder : Coder TxInput
input_coder =
    iso_coder
      (pair_coder (pair_coder (list_coder nat_coder) int_coder)
        (pair_coder (list_coder nat_coder) (list_coder nat_coder)))
      (λ q. record { id = q.0.0; out = q.0.1; signature = q.1.0; pub_key = q.1.1 })
      (λ i. ((i.id, i.out), (i.signature, i.pub_key))) (λ i. refl)

unfoldable pub transaction_coder : Coder Transaction
transaction_coder =
    iso_coder
      (pair_coder (list_coder nat_coder)
        (pair_coder (list_coder input_coder) (list_coder output_coder)))
      (λ q. record { id = q.0; inputs = q.1.0; outputs = q.1.1 })
      (λ t. (t.id, (t.inputs, t.outputs))) (λ t. refl)

unfoldable pub block_coder : Coder Block
block_coder =
    iso_coder
      (pair_coder (pair_coder (pair_coder int_coder int_coder) int_coder) (
        pair_coder (pair_coder (list_coder nat_coder) (list_coder nat_coder))
          (list_coder transaction_coder)))
      (λ q. record {
        timestamp = q.0.0.0;
        nonce = q.0.0.1;
        height = q.0.1;
        hash = q.1.0.0;
        prev_hash = q.1.0.1;
        transactions = q.1.1;
      })
      (λ b. (((b.timestamp, b.nonce), b.height), ((b.hash, b.prev_hash), b.transactions)))
      (λ b. refl)

abbrev pub toy : Platform
toy = record {
  crypto = toy_crypto;
  base58 = toy_base58;
  badger = small_store;
  transaction_codec = codec_of transaction_coder;
  outputs_codec = codec_of outputs_coder;
  block_codec = codec_of block_coder;
}
