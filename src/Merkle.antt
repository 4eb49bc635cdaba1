-- ===== src/Merkle.antt =====
-- blockchain/merkle.go: the tree over the serialized transactions of a block.
pub mod Shape
use golang_blockchain.Prelude.{
  ℕ, zero, suc, ◌+◌, ◌/◌, ◌%◌, ◌≡◌, Bool, Option, none, some, List, [], ◌∷◌, ◌++◌, Bytes, length,
  ◌==◌, if◌then◌else◌,
}
use golang_blockchain.Platform.{Crypto}
use golang_blockchain.Run.{Run, ok, panic, index_out_of_range, nil_pointer, ◌>>=◌}

-- `*MerkleNode`: `nil`, or a node with its two children and its data
pub data MerkleNode : Type 0 where
  nil : MerkleNode
  node : MerkleNode → MerkleNode → Bytes → MerkleNode

-- `left.Data`, on a pointer that may be nil
unfoldable pub node_data : MerkleNode → Run Bytes
node_data nil = panic nil_pointer
node_data (node l r d) = ok d

-- `data = append(data, data[len(data)-1])` if the length is odd
last_or : Bytes → List Bytes → Bytes
last_or d [] = d
last_or d (x ∷ xs) = last_or x xs

unfoldable pub pad_odd : List Bytes → List Bytes
unfolding last_or
pad_odd data' = if length data' % 2 == 0 then data' else data' ++ last_or [] data' ∷ []

-- `&nodes[0]`
unfoldable pub first_node : List MerkleNode → Run MerkleNode
first_node [] = panic index_out_of_range
first_node (n ∷ ns) = ok n

module _ (c : Crypto) where
  open c use {sha256}

  unfoldable pub new_merkle_node : MerkleNode → MerkleNode → Bytes → Run MerkleNode
  unfolding node_data
  new_merkle_node nil nil d = ok (node nil nil (sha256 d))
  new_merkle_node left right d = do
    l ← node_data left
    r ← node_data right
    ok (node left right (sha256 (l ++ r)))

  -- the leaves
  unfoldable pub leaves : List Bytes → Run (List MerkleNode)
  unfolding new_merkle_node
  leaves [] = ok []
  leaves (datum ∷ rest) = do n ← new_merkle_node nil nil datum; ns ← leaves rest; ok (n ∷ ns)

  -- `for j := 0; j < len(nodes); j += 2`: a last node without a partner is `nodes[j+1]`
  -- out of range
  unfoldable pub new_level : List MerkleNode → Run (List MerkleNode)
  unfolding new_merkle_node
  new_level [] = ok []
  new_level (a ∷ []) = panic index_out_of_range
  new_level (a ∷ b ∷ rest) = do n ← new_merkle_node a b []; ns ← new_level rest; ok (n ∷ ns)

  -- `for i := 0; i < len(data)/2; i++`
  unfoldable pub levels : ℕ → List MerkleNode → Run (List MerkleNode)
  unfolding new_level
  levels zero nodes = ok nodes
  levels (suc i) nodes = new_level nodes >>= levels i

  unfoldable pub new_merkle_tree : List Bytes → Run MerkleNode
  unfolding pad_odd leaves levels first_node
  new_merkle_tree data' = do
    let padded = pad_odd data'
    nodes ← leaves padded
    top ← levels (length padded / 2) nodes
    first_node top
