-- ===== src/Merkle/Shape.antt =====
-- For how many transactions the tree can be built, and what its root is.
use golang_blockchain.Prelude.{
  ℕ, zero, suc, ◌+◌, ◌*◌, ◌/◌, ◌%◌, ◌≤◌, ◌<◌, ◌≡◌, refl, ◌⊎◌, inl, inr, List, [], ◌∷◌, ◌++◌, Bytes,
  All, length, length-append, arith, Bool-cases, ◌==◌,
}
use golang_blockchain.Platform.{Crypto}
use golang_blockchain.Run.{Run, ok, panic, index_out_of_range, ◌>>=◌, Returns}
use golang_blockchain.Merkle.{
  MerkleNode, nil, node, node_data, new_merkle_node, new_level, levels, first_node, leaves, pad_odd,
  new_merkle_tree,
}

-- `2 ^ i * n`
abbrev doubled : ℕ → ℕ → ℕ
doubled zero n = n
doubled (suc i) n = 2 * doubled i n

doubled-gt : (i n : ℕ) → 0 < n → 2 * (i + 3) < doubled (suc (suc (suc i))) n
doubled-gt zero n h = omega arith
doubled-gt (suc i) n h = omega (arith, doubled-gt i n h)

abbrev IsNode : MerkleNode → Type 0
IsNode nil = ⊥
IsNode (node l r d) = Unit

-- How a step ends that hands on nodes: with a list of nodes, or by an index out of range.
abbrev Ends : Run (List MerkleNode) → (List MerkleNode → Type 0) → Type 0
Ends r P = (r ≡ panic index_out_of_range) ⊎ (Returns r P)

module _ (c : Crypto) where
  open c use {sha256}

  join_nodes : (a b : MerkleNode) → IsNode a → IsNode b → Returns (new_merkle_node c a b []) IsNode
  unfolding new_merkle_node
  join_nodes nil b ha hb = elim ha [ ]
  join_nodes (node l r d) nil ha hb = elim hb [ ]
  join_nodes (node l r d) (node l' r' d') ha hb = (_, refl, tt)

  -- One round halves the level; it ends by a panic exactly when a node has no partner.
  new_level-Ends :
      (ns : List MerkleNode)
      → All IsNode ns
      → Ends (new_level c ns) (λ up. All IsNode up × (length ns ≡ 2 * length up))
  unfolding new_level
  new_level-Ends [] h = inr ([], refl, (tt, omega arith))
  new_level-Ends (a ∷ []) h = inl refl
  new_level-Ends (a ∷ b ∷ rest) h =
      let (n, e, hn) = join_nodes a b h.0 h.1.0 in
      elim (new_level-Ends rest h.1.1) [
        | inl bad ↦ inl (rw (e, bad) refl)
        | inr (up, e', (hu, len)) ↦ inr (n ∷ up, rw (e, e') refl, ((hn, hu), omega arith))
      ]

  levels-Ends :
      (i : ℕ) (ns : List MerkleNode)
      → All IsNode ns
      → Ends (levels c i ns) (λ top. All IsNode top × (length ns ≡ doubled i (length top)))
  unfolding levels
  levels-Ends zero ns h = inr (ns, refl, (h, refl))
  levels-Ends (suc i) ns h = elim (new_level-Ends ns h) [
    | inl bad ↦ inl (rw bad refl)
    | inr (up, e, (hu, len)) ↦ elim (levels-Ends i up hu) [
      | inl bad ↦ inl (rw (e, bad) refl)
      | inr (top, e', (ht, len')) ↦ inr (top, rw (e, e') refl, (ht, omega arith))
    ]
  ]

  leaves-Returns :
      (ds : List Bytes) → Returns (leaves c ds) (λ ns. All IsNode ns × (length ns ≡ length ds))
  unfolding leaves
  leaves-Returns [] = ([], refl, (tt, refl))
  leaves-Returns (d ∷ ds) =
      let (ns, e, (h, len)) = leaves-Returns ds in
      (node nil nil (sha256 d) ∷ ns, rw e refl, ((tt, h), omega arith))

  -- Unless the padded number of leaves is two or four, the loop runs on past the root.
  levels_overrun :
      (n : ℕ) (ns : List MerkleNode)
      → All IsNode ns
      → length ns ≡ 2 * n
      → (n ≡ 0) ⊎ (2 < n)
      → levels c n ns >>= first_node ≡ panic index_out_of_range
  unfolding first_node levels
  levels_overrun zero [] h len out = refl
  levels_overrun zero (x ∷ ns) h len out = absurd (omega arith)
  levels_overrun (suc zero) ns h len out = absurd (omega arith)
  levels_overrun (suc (suc zero)) ns h len out = absurd (omega arith)
  levels_overrun (suc (suc (suc i))) ns h len out = elim (levels-Ends (suc (suc (suc i))) ns h) [
    | inl bad ↦ rw (bad, ◌>>=◌)
    | inr ([], e, (hu, d)) ↦ rw (e, ◌>>=◌)
    | inr (x ∷ top, e, (hu, d)) ↦
        absurd (omega (arith, doubled-gt i (length (x ∷ top)) (omega arith)))
  ]

pad_odd-even :
    (ds : List Bytes)
    → (length (pad_odd ds) % 2 ≡ 0)
      × (length ds ≤ length (pad_odd ds))
      × (length (pad_odd ds) ≤ length ds + length ds % 2)
unfolding pad_odd
pad_odd-even ds = elim (Bool-cases (length ds % 2 == 0)) [
  | inl e ↦ rw e (ground arith)
  | inr e ↦ rw (e, length-append {0}) (ground arith)
]

-- The root that the tree has for one to four transactions, from the bottom up; an odd last one
-- counts twice.
abbrev pub root_of : (Bytes → Bytes) → List Bytes → Bytes
root_of h (a ∷ []) = h (h a ++ h a)
root_of h (a ∷ b ∷ []) = h (h a ++ h b)
root_of h (a ∷ b ∷ d ∷ []) = h (h (h a ++ h b) ++ h (h d ++ h d))
root_of h (a ∷ b ∷ d ∷ e ∷ []) = h (h (h a ++ h b) ++ h (h d ++ h e))
root_of h _ = []

module _ (c : Crypto) where
  open c use {sha256}

  -- For one to four serialized transactions `NewMerkleTree` returns a tree, and its root is the
  -- hash of the paired hashes, an odd last transaction counted twice.
  pub new_merkle_tree-root :
      (ds : List Bytes)
      → 1 ≤ length ds
      → length ds ≤ 4
      → Returns (new_merkle_tree c ds) (λ t. node_data t ≡ ok (root_of sha256 ds))
  unfolding new_merkle_tree
  new_merkle_tree-root [] lo hi = elim lo [ ]
  new_merkle_tree-root (a ∷ []) lo hi = (_, refl, refl)
  new_merkle_tree-root (a ∷ b ∷ []) lo hi = (_, refl, refl)
  new_merkle_tree-root (a ∷ b ∷ d ∷ []) lo hi = (_, refl, refl)
  new_merkle_tree-root (a ∷ b ∷ d ∷ e ∷ []) lo hi = (_, refl, refl)
  new_merkle_tree-root (a ∷ b ∷ d ∷ e ∷ f ∷ ds) lo hi = absurd (omega arith)

  -- For no transaction, and for any number above four, `NewMerkleTree` panics with an index out
  -- of range: its loop runs len(data)/2 times, and not once for each level.
  pub new_merkle_tree_overrun :
      (ds : List Bytes)
      → (length ds ≡ 0) ⊎ (4 < length ds)
      → new_merkle_tree c ds ≡ panic index_out_of_range
  unfolding new_merkle_tree
  new_merkle_tree_overrun ds out =
      let (ns, e, (h, len)) = leaves-Returns c (pad_odd ds) in
      let even = pad_odd-even ds in
      rw (e, ◌>>=◌) (levels_overrun c (length (pad_odd ds) / 2) ns h (omega arith) (omega arith))
