-- ===== src/Tests/Chains.antt =====
-- The theorems on the chain and the unspent outputs, on a chain of one block and its successors.
use golang_blockchain.Prelude.{
  inl, inr, ◌≡◌, ◌≢◌, refl, false, none, [], ◌∷◌, Bytes, lookup, bytes_equal, pos, arith,
  false≢true, bytes_equal_iff, ◌∙◌, sym,
}
use golang_blockchain.Words.Hex.{hex_encode}
use golang_blockchain.Types.{Block}
use golang_blockchain.Run.{ok, panic, key_not_found, decode_failed, Returns}
use golang_blockchain.Tx.{is_coinbase}
use golang_blockchain.Chain.{
  BlockChain, lh, get_block_hashes, find_transaction, add_block, mine_block,
}
use golang_blockchain.Chain.Walk.{
  IsChain, IsFirst, all_transactions, get_block_hashes-IsChain, find_transaction-IsChain,
}
use golang_blockchain.Chain.Growth.{HasTip, Added, add_block-Added}
use golang_blockchain.Chain.Extend.{
  AvoidsLh, add_block-IsChain, add_block_extends, add_block_orphan, mine_block_panics,
}
use golang_blockchain.Utxo.{find_utxo, slice_at}
use golang_blockchain.Utxo.Unspent.{spends_of}
use golang_blockchain.Utxo.Spent.{Spent, Remains}
use golang_blockchain.Utxo.Found.{find_utxo_exact, find_utxo_late_spend}
use golang_blockchain.Tests.Store.{non_empty}
use golang_blockchain.Tests.Coder.{
  codec_of, whole, iso_coder, map_read, pair_coder, pair_read, int_coder, read_int,
}
use golang_blockchain.Tests.Toy.{toy, block_coder}
use golang_blockchain.Tests.Examples.{first, paid, transfer}

abbrev pub ledger : BlockChain toy
ledger = record {
  last_hash = 1 ∷ [];
  database = (lh, 1 ∷ []) ∷ (1 ∷ [], toy.block_codec.encode first) ∷ [];
}

pub ne_of : (a b : Bytes) → bytes_equal a b ≡ false → a ≢ b
ne_of a b h e = false≢true (sym h ∙ (bytes_equal_iff a b).1 e)

ledger-IsChain : IsChain toy ledger.database ledger.last_hash (first ∷ [])
unfolding lookup bytes_equal
ledger-IsChain = ((_, refl, toy.block_codec.decode-encode first), refl)

get_block_hashes-IsChain_example : get_block_hashes toy 3 ledger ≡ ok ((1 ∷ []) ∷ [])
get_block_hashes-IsChain_example =
    get_block_hashes-IsChain toy 3 ledger (first ∷ []) ledger-IsChain (omega arith)

find_transaction-IsChain_example :
    Returns
      (find_transaction toy 1 ledger (9 ∷ []))
      (IsFirst (9 ∷ []) (all_transactions (first ∷ [])))
find_transaction-IsChain_example =
    find_transaction-IsChain toy 1 ledger (first ∷ []) (9 ∷ []) ledger-IsChain (omega arith)

pub ledger-HasTip : HasTip toy ledger first
unfolding lookup bytes_equal
ledger-HasTip = record { at_lh = refl; at_tip = ledger-IsChain.0 }

-- the next block, and one whose previous block is missing
abbrev pub second : Block
second = record {
  timestamp = pos 8;
  hash = 2 ∷ [];
  transactions = transfer ∷ [];
  prev_hash = 1 ∷ [];
  nonce = pos 0;
  height = pos 1;
}

abbrev orphan : Block
orphan = record second { prev_hash = 3 ∷ [] }

pub fresh : lookup (2 ∷ []) ledger.database ≡ none
unfolding lookup bytes_equal
fresh = refl

pub two-ne-lh : (2 ∷ []) ≢ lh
unfolding bytes_equal
two-ne-lh = ne_of (2 ∷ []) lh refl

add_block-Added_example : Returns (add_block toy ledger second) (Added toy ledger first second)
unfolding non_empty
add_block-Added_example =
    add_block-Added toy ledger first second ledger-HasTip fresh two-ne-lh refl refl

ledger-AvoidsLh : AvoidsLh toy ledger.last_hash (first ∷ [])
unfolding bytes_equal
ledger-AvoidsLh = (ne_of (1 ∷ []) lh refl, (ne_of [] lh refl, tt))

add_block-IsChain_example :
    Returns
      (add_block toy ledger second)
      (λ after. IsChain toy after.database ledger.last_hash (first ∷ []))
unfolding non_empty
add_block-IsChain_example =
    add_block-IsChain toy ledger first second (first ∷ []) ledger-HasTip fresh two-ne-lh refl refl
      ledger-IsChain ledger-AvoidsLh

add_block_extends_example :
    Returns
      (add_block toy ledger second)
      (λ after. IsChain toy after.database after.last_hash (second ∷ first ∷ []))
unfolding non_empty
add_block_extends_example =
    add_block_extends toy ledger first second (first ∷ []) ledger-HasTip fresh two-ne-lh refl refl
      ledger-IsChain ledger-AvoidsLh refl refl refl

add_block_orphan_example : Returns (add_block toy ledger orphan) (λ after.
    (after.last_hash ≡ 2 ∷ [])
    × (get_block_hashes toy 5 after ≡ panic key_not_found)
    × (find_transaction toy 5 after (9 ∷ []) ≡ panic key_not_found)
    × (find_utxo toy 5 after ≡ panic key_not_found))
unfolding non_empty lookup bytes_equal
add_block_orphan_example =
    add_block_orphan toy ledger first orphan (first ∷ []) ledger-HasTip fresh two-ne-lh refl refl
      ledger-IsChain ledger-AvoidsLh 3 (9 ∷ []) refl (ne_of (3 ∷ []) (2 ∷ []) refl)
      (ne_of (3 ∷ []) lh refl) refl refl (ne_of (8 ∷ []) (9 ∷ []) refl, tt)

mine_block_panics_example : mine_block toy (pos 9) ledger (paid ∷ []) ≡ panic decode_failed
unfolding codec_of whole block_coder iso_coder map_read pair_coder pair_read int_coder read_int
mine_block_panics_example =
    mine_block_panics toy ledger first (pos 9) (paid ∷ []) ledger-HasTip refl

-- two blocks, the second of which spends the output of the first
abbrev long_ledger : BlockChain toy
long_ledger = record {
  last_hash = 2 ∷ [];
  database =
      (lh, 2 ∷ [])
      ∷ (2 ∷ [], toy.block_codec.encode second)
      ∷ (1 ∷ [], toy.block_codec.encode first)
      ∷ [];
}

long_ledger-IsChain : IsChain toy long_ledger.database long_ledger.last_hash (second ∷ first ∷ [])
unfolding lookup bytes_equal
long_ledger-IsChain = (
  (_, refl, toy.block_codec.decode-encode second),
  refl,
  ((_, refl, toy.block_codec.decode-encode first), refl),
)

find_utxo_exact_example : Returns (find_utxo toy 2 long_ledger) (λ m.
    Remains
      (λ out. Spent (9 ∷ []) out (transfer ∷ paid ∷ []))
      0
      paid.outputs
      (slice_at m (hex_encode (9 ∷ []))))
unfolding bytes_equal is_coinbase
find_utxo_exact_example =
    find_utxo_exact toy 2 long_ledger (second ∷ first ∷ []) long_ledger-IsChain (omega arith)
      (transfer ∷ []) [] paid refl (ne_of (8 ∷ []) (9 ∷ []) refl, tt) tt
      (λ out spent. elim spent [ inl s ↦ false≢true (sym s.0) | inr none_left ↦ none_left ])

-- a chain whose only block holds a transaction and the one that spends its output
abbrev same_block : Block
same_block = record first { transactions = paid ∷ transfer ∷ [] }

abbrev short_ledger : BlockChain toy
short_ledger = record {
  last_hash = 1 ∷ [];
  database = (1 ∷ [], toy.block_codec.encode same_block) ∷ [];
}

short_ledger-IsChain : IsChain toy short_ledger.database short_ledger.last_hash (same_block ∷ [])
unfolding lookup bytes_equal
short_ledger-IsChain = ((_, refl, toy.block_codec.decode-encode same_block), refl)

find_utxo_late_spend_example :
    Returns (find_utxo toy 1 short_ledger) (λ m. slice_at m (hex_encode (9 ∷ [])) ≡ paid.outputs)
unfolding spends_of bytes_equal
find_utxo_late_spend_example =
    find_utxo_late_spend toy 1 short_ledger (same_block ∷ []) short_ledger-IsChain (omega arith) []
      (transfer ∷ []) paid refl tt (ne_of (8 ∷ []) (9 ∷ []) refl, tt) refl
