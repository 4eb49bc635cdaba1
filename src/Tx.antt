-- ===== src/Tx.antt =====
-- blockchain/tx.go and blockchain/transaction.go: outputs and their locks, coinbase
-- transactions, trimmed copies, signing and verifying.
pub mod Signing
pub mod Locking
use golang_blockchain.Prelude.{
  ℕ, zero, suc, ◌+◌, Bool, true, false, ◌&&◌, Option, none, some, List, [], ◌∷◌, ◌++◌, map, Bytes,
  Map, length, get_elem?, set, ℤ, pos, negsuc, eq_ℤ, ◌==◌, bytes_equal, lookup, codes,
  if◌then◌else◌,
}
use golang_blockchain.Words.Hex.{hex_encode}
use golang_blockchain.Words.Big.{big_bytes}
use golang_blockchain.Types.{TxOutput, TxInput, Transaction, is_nil, no_transaction}
use golang_blockchain.Platform.{Platform}
use golang_blockchain.Run.{
  Run, ok, panic, or_panic, panic_unless, index_out_of_range, sign_failed,
  previous_transaction_not_correct, ◌>>=◌, ◌>>◌,
}
use golang_blockchain.Wallet.{PrivateKey, base58_decode, payload, public_key_hash, halves}
use golang_blockchain.Pow.{serialize_transaction}

-- `TxOutput.IsLockedWithKey`
unfoldable pub is_locked_with_key : TxOutput → Bytes → Bool
is_locked_with_key out pub_key_hash = bytes_equal out.pub_key_hash pub_key_hash

-- the only input has no ID and the index -1
one_empty_input : List TxInput → Bool
one_empty_input [] = false
one_empty_input (i ∷ []) = is_nil i.id && eq_ℤ i.out (negsuc 0)
one_empty_input (i ∷ j ∷ r) = false

-- `Transaction.IsCoinbase`
unfoldable pub is_coinbase : Transaction → Bool
unfolding one_empty_input
is_coinbase tx = one_empty_input tx.inputs

-- `Transaction.TrimmedCopy`
unfoldable pub trim_input : TxInput → TxInput
trim_input i = record { id = i.id; out = i.out; signature = []; pub_key = [] }

copy_output : TxOutput → TxOutput
copy_output o = record { value = o.value; pub_key_hash = o.pub_key_hash }

unfoldable pub trimmed_copy : Transaction → Transaction
unfolding trim_input copy_output
trimmed_copy tx = record {
  id = tx.id;
  inputs = map trim_input tx.inputs;
  outputs = map copy_output tx.outputs;
}

-- `prevTXs[k]`, the zero value if the key is missing
unfoldable pub previous : Map Transaction → Bytes → Transaction
previous prev_txs id = elim (lookup (hex_encode id) prev_txs) [ none ↦ no_transaction | some t ↦ t ]

-- `prevTX.Outputs[in.Out]`, with Go's check of the index
unfoldable pub output_at : List TxOutput → ℤ → Run TxOutput
output_at outs (pos i) = or_panic index_out_of_range (get_elem? outs i)
output_at outs (negsuc i) = panic index_out_of_range

-- the loop over the inputs that looks for a missing previous transaction
unfoldable pub check_previous : Map Transaction → List TxInput → Run (Unit {0})
unfolding previous
check_previous prev_txs [] = ok tt
check_previous prev_txs (i ∷ is) =
    if is_nil (previous prev_txs i.id).id
    then panic previous_transaction_not_correct
    else check_previous prev_txs is

-- `txCopy.Inputs[inId].PubKey = …`, and `= nil`
unfoldable pub with_pub_key : TxInput → Bytes → TxInput
with_pub_key i k = record i { pub_key = k; signature = [] }

-- `tx.Inputs[inId].Signature = signature` for each input
unfoldable pub set_signatures : List TxInput → List Bytes → List TxInput
set_signatures (i ∷ is) (sig ∷ sigs) = record i { signature = sig } ∷ set_signatures is sigs
set_signatures is _ = is

-- the `data` of `CoinbaseTx`; for an empty one random bytes are drawn, and not used
abbrev pub coinbase_note : Bytes → Bytes → Bytes
coinbase_note to note = if is_nil note then codes "Coins to " ++ to else note

-- the coinbase transaction before it has its ID
abbrev pub unnamed_coinbase : Bytes → TxOutput → Transaction
unnamed_coinbase note txout = record {
  id = [];
  inputs = record { id = []; out = negsuc 0; signature = []; pub_key = note } ∷ [];
  outputs = txout ∷ [];
}

module _ (p : Platform) where
  -- `TxInput.UsesKey`
  unfoldable pub uses_key : TxInput → Bytes → Bool
  uses_key i pub_key_hash = bytes_equal (public_key_hash p i.pub_key) pub_key_hash

  -- `TxOutput.Lock`
  unfoldable pub lock : TxOutput → Bytes → Run TxOutput
  lock out address = do
    full ← base58_decode p address
    pub_key_hash ← payload full
    ok (record out { pub_key_hash = pub_key_hash })

  -- `NewTXOutput`
  unfoldable pub new_tx_output : ℤ → Bytes → Run TxOutput
  unfolding lock
  new_tx_output value address = lock (record { value = value; pub_key_hash = [] }) address

  -- `Transaction.Hash`
  unfoldable pub hash : Transaction → Bytes
  unfolding serialize_transaction
  hash tx = p.crypto.sha256 (serialize_transaction p (record tx { id = [] }))

  -- `CoinbaseTx`
  unfoldable pub coinbase_tx : Bytes → Bytes → Run Transaction
  unfolding new_tx_output
  coinbase_tx to note = do
    txout ← new_tx_output (pos 100) to
    let tx = unnamed_coinbase (coinbase_note to note) txout
    ok (record tx { id = hash tx })

  -- What is signed for the input that stands between `done` and `rest` in the trimmed copy: the
  -- hash of the copy in which this input alone has a key, the one that locks the output it spends.
  unfoldable pub signed_data :
      Map Transaction → Transaction → List TxInput → TxInput → List TxInput → Run Bytes
  unfolding hash output_at previous with_pub_key
  signed_data prev_txs copy done i rest = do
    prev ← output_at (previous prev_txs i.id).outputs i.out
    ok (hash (record copy { inputs = done ++ with_pub_key i prev.pub_key_hash ∷ rest }))

  -- The loop of `Sign` over the inputs of the trimmed copy, with `rand` the bytes that the n-th
  -- call of `ecdsa.Sign` draws. It returns the signatures.
  unfoldable pub sign_from :
      (ℕ → Bytes)
      → PrivateKey
      → Map Transaction
      → Transaction
      → ℕ
      → List TxInput
      → List TxInput
      → Run (List Bytes)
  unfolding signed_data
  sign_from rand key prev_txs copy n done [] = ok []
  sign_from rand key prev_txs copy n done (i ∷ rest) = do
    digest ← signed_data prev_txs copy done i rest
    (r, s) ← or_panic sign_failed (p.crypto.ecdsa_sign (rand n) key.d digest)
    sigs ← sign_from rand key prev_txs copy (n + 1) (done ++ i ∷ []) rest
    ok ((big_bytes r ++ big_bytes s) ∷ sigs)

  -- `Transaction.Sign`
  unfoldable pub sign : (ℕ → Bytes) → PrivateKey → Map Transaction → Transaction → Run Transaction
  unfolding set_signatures trimmed_copy
  sign rand key prev_txs tx = if is_coinbase tx then ok tx else do
    check_previous prev_txs tx.inputs
    let copy = trimmed_copy tx
    sigs ← sign_from rand key prev_txs copy 0 [] copy.inputs
    ok (record tx { inputs = set_signatures tx.inputs sigs })

  -- The loop of `Verify` over the inputs, with the trimmed ones that it has passed.
  unfoldable pub verify_from :
      Map Transaction → Transaction → List TxInput → List TxInput → Run Bool
  unfolding signed_data trim_input
  verify_from prev_txs copy done [] = ok true
  verify_from prev_txs copy done (i ∷ rest) = do
    digest ← signed_data prev_txs copy done (trim_input i) (map trim_input rest)
    let (r, s) = halves i.signature
    let (x, y) = halves i.pub_key
    elim (p.crypto.ecdsa_verify x y digest r s) [
      | false ↦ ok false
      | true ↦ verify_from prev_txs copy (done ++ trim_input i ∷ []) rest
    ]

  -- `Transaction.Verify`
  unfoldable pub verify : Map Transaction → Transaction → Run Bool
  unfolding trimmed_copy
  verify prev_txs tx =
      if is_coinbase tx
      then ok true
      else do check_previous prev_txs tx.inputs; verify_from prev_txs (trimmed_copy tx) [] tx.inputs
