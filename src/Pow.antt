-- ===== src/Pow.antt =====
-- blockchain/proof.go, and the parts of blockchain/block.go that mine a block: the data that is
-- hashed, the search for a nonce, its validation, and the creation of a block.
pub mod Search
pub mod Mining
use golang_blockchain.Prelude.{
  ℕ, zero, suc, ◌+◌, ◌-◌, ◌^◌, Bool, true, false, List, [], ◌∷◌, ◌++◌, map, Bytes, ℤ, pos, ltb,
}
use golang_blockchain.Words.Big.{set_bytes, be_int64}
use golang_blockchain.Types.{Transaction, Block}
use golang_blockchain.Platform.{Platform}
use golang_blockchain.Run.{Run, ok, ◌>>=◌}
use golang_blockchain.Merkle.{new_merkle_tree, node_data}

-- `Difficulty`
abbrev pub difficulty : ℕ
difficulty = 18

-- `math.MaxInt64`
abbrev pub max_int64 : ℕ
max_int64 = 2 ^ 63 - 1

pub record ProofOfWork : Type 0 where
  pub block : Block
  pub target : ℕ

-- `NewProof`: one, shifted left by 256 - Difficulty bits
unfoldable pub new_proof : Block → ProofOfWork
new_proof b = record { block = b; target = 2 ^ (256 - difficulty) }

-- `[32]byte`
abbrev pub no_hash : Bytes
no_hash = zeros 32
  where
    zeros : ℕ → Bytes
    zeros zero = []
    zeros (suc n) = 0 ∷ zeros n

module _ (p : Platform) where
  -- `Transaction.Serialize`
  unfoldable pub serialize_transaction : Transaction → Bytes
  serialize_transaction tx = p.transaction_codec.encode tx

  -- `Block.HashTransactions`
  unfoldable pub hash_transactions : Block → Run Bytes
  unfolding serialize_transaction
  hash_transactions b = do
    tree ← new_merkle_tree p.crypto (map serialize_transaction b.transactions)
    node_data tree

  -- `ProofOfWork.InitData`
  unfoldable pub init_data : ProofOfWork → ℤ → Run Bytes
  init_data pow nonce = do
    root ← hash_transactions pow.block
    ok (pow.block.prev_hash ++ root ++ be_int64 nonce ++ be_int64 (pos difficulty))

  -- `intHash.Cmp(pow.Target) == -1`
  unfoldable pub below_target : ProofOfWork → Bytes → Bool
  below_target pow hash = ltb (set_bytes hash) pow.target

  -- the loop of `Run`, with the rounds that are left until `math.MaxInt64`, the nonce, and the
  -- last hash
  unfoldable pub run_from : ProofOfWork → ℕ → ℕ → Bytes → Run (ℤ × Bytes)
  run_from pow zero nonce hash = ok (pos nonce, hash)
  run_from pow (suc rounds) nonce hash = do
    msg ← init_data pow (pos nonce)
    elim (below_target pow (p.crypto.sha256 msg)) [
      | true ↦ ok (pos nonce, p.crypto.sha256 msg)
      | false ↦ run_from pow rounds (nonce + 1) (p.crypto.sha256 msg)
    ]

  -- `ProofOfWork.Run`
  pub run : ProofOfWork → Run (ℤ × Bytes)
  run pow = run_from pow max_int64 0 no_hash

  -- `ProofOfWork.Validate`
  unfoldable pub validate : ProofOfWork → Run Bool
  validate pow = do msg ← init_data pow pow.block.nonce; ok (below_target pow (p.crypto.sha256 msg))

  -- `CreateBlock`, at the time `now`
  unfoldable pub create_block : ℤ → List Transaction → Bytes → ℤ → Run Block
  unfolding new_proof
  create_block now txs prev_hash height = do
    let block : Block = record {
      timestamp = now;
      hash = [];
      transactions = txs;
      prev_hash = prev_hash;
      nonce = pos 0;
      height = height;
    }
    (nonce, hash) ← run (new_proof block)
    ok (record block { hash = hash; nonce = nonce })

  -- `Genesis`
  unfoldable pub genesis : ℤ → Transaction → Run Block
  genesis now coinbase = create_block now (coinbase ∷ []) [] (pos 0)

  -- `Block.Serialize`, and `Deserialize` behind `Handle(err)`
  unfoldable pub serialize : Block → Bytes
  serialize b = p.block_codec.encode b
