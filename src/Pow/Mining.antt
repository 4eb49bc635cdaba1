-- ===== src/Pow/Mining.antt =====
-- The blocks that `CreateBlock` makes, and what `Validate` says of them.
use golang_blockchain.Prelude.{
  ℕ, zero, suc, ◌^◌, ◌≤◌, ◌<◌, ◌≡◌, refl, ap, ◌⊎◌, true, false, List, [], map, Bytes, ℤ, pos, ltb,
  ◌∙◌, lt→ltb, arith, length, length-map,
}
use golang_blockchain.Words.Big.{set_bytes}
use golang_blockchain.Types.{Transaction, Block}
use golang_blockchain.Platform.{Platform}
use golang_blockchain.Run.{ok, panic, index_out_of_range, ◌>>=◌, Returns}
use golang_blockchain.Merkle.Shape.{root_of, new_merkle_tree-root, new_merkle_tree_overrun}
use golang_blockchain.Pow.{
  ProofOfWork, max_int64, new_proof, no_hash, hash_transactions, serialize_transaction, init_data,
  below_target, run_from, run, validate, create_block,
}
use golang_blockchain.Pow.Search.{hashed, run_from-Found, init_data_known}

module _ (p : Platform) where
  -- the block that `CreateBlock` hands to the search
  abbrev pub unmined : ℤ → List Transaction → Bytes → ℤ → Block
  unmined now txs prev_hash height = record {
    timestamp = now;
    hash = [];
    transactions = txs;
    prev_hash = prev_hash;
    nonce = pos 0;
    height = height;
  }

  -- `CreateBlock` has mined `b` with the first good nonce.
  pub record IsMined (txs : List Transaction) (prev_hash root : Bytes) (height : ℤ) (b : Block)
      : Type 0 where
    pub mined_transactions : b.transactions ≡ txs
    pub mined_prev_hash : b.prev_hash ≡ prev_hash
    pub mined_height : b.height ≡ height
    pub found : ℕ
    pub mined_nonce : b.nonce ≡ pos found
    pub mined_hash : b.hash ≡ hashed p prev_hash root found
    pub first_good :
        (j : ℕ) → j < found → ltb (set_bytes (hashed p prev_hash root j)) (2 ^ 238) ≡ false
    pub passes : validate p (new_proof b) ≡ ok true

  validate_known :
      (b : Block) (root : Bytes) (n : ℕ)
      → hash_transactions p b ≡ ok root
      → b.nonce ≡ pos n
      → validate p (new_proof b) ≡ ok (ltb (set_bytes (hashed p b.prev_hash root n)) (2 ^ 238))
  unfolding validate new_proof below_target
  validate_known b root n known e =
      simp e (rw (init_data_known p (new_proof b) root known n, ◌>>=◌))

  root_known :
      (b : Block)
      → 1 ≤ length b.transactions
      → length b.transactions ≤ 4
      → hash_transactions p b
        ≡ ok (root_of p.crypto.sha256 (map (serialize_transaction p) b.transactions))
  unfolding hash_transactions
  root_known b lo hi =
      let raw = map (serialize_transaction p) b.transactions in
      let len = length-map b.transactions (serialize_transaction p) in
      let (t, e, d) = new_merkle_tree-root p.crypto raw (omega arith) (omega arith) in
      rw (e, ◌>>=◌) d

  -- the last lines of `CreateBlock`, once the search has ended
  filled_in :
      (now height : ℤ) (txs : List Transaction) (prev_hash root : Bytes) (n : ℕ) (r : ℤ × Bytes)
      → hash_transactions p (unmined now txs prev_hash height) ≡ ok root
      → run_from p (new_proof (unmined now txs prev_hash height)) max_int64 0 no_hash ≡ ok r
      → r ≡ (pos n, hashed p prev_hash root n)
      → ltb (set_bytes (hashed p prev_hash root n)) (2 ^ 238) ≡ true
      → ((j : ℕ) → j < n → ltb (set_bytes (hashed p prev_hash root j)) (2 ^ 238) ≡ false)
      → Returns (create_block p now txs prev_hash height) (IsMined txs prev_hash root height)
  unfolding create_block run
  filled_in now height txs prev_hash root n r known e is g first =
      let b = record (unmined now txs prev_hash height) {
        hash = hashed p prev_hash root n;
        nonce = pos n;
      } in
      (
        b,
        rw (e, ◌>>=◌, is),
        record {
          mined_transactions = refl;
          mined_prev_hash = refl;
          mined_height = refl;
          found = n;
          mined_nonce = refl;
          mined_hash = refl;
          first_good = first;
          passes = validate_known b root n (unfold hash_transactions in known) refl ∙ ap ok g;
        },
      )

  -- With one to four transactions, and some nonce below MaxInt64 whose hash is below the target,
  -- `CreateBlock` returns a block with these transactions, this previous hash and this height,
  -- whose nonce is the first that is good, whose hash is the hash for that nonce, and which
  -- passes `Validate`.
  pub create_block-IsMined :
      (now height : ℤ) (txs : List Transaction) (prev_hash : Bytes) (k : ℕ)
      → 1 ≤ length txs
      → length txs ≤ 4
      → k < max_int64
      → let root = root_of p.crypto.sha256 (map (serialize_transaction p) txs) in
        set_bytes (hashed p prev_hash root k) < 2 ^ 238
        → Returns (create_block p now txs prev_hash height) (IsMined txs prev_hash root height)
  unfolding new_proof below_target
  create_block-IsMined now height txs prev_hash k lo hi kb good =
      let root = root_of p.crypto.sha256 (map (serialize_transaction p) txs) in
      let b = unmined now txs prev_hash height in
      let known = root_known b lo hi in
      let (r, e, (n, is, g, le, first)) =
        run_from-Found p (new_proof b) root known max_int64 0 k no_hash (omega arith) (omega arith)
          (lt→ltb _ _ good) in
      filled_in now height txs prev_hash root n r known e is g
        (λ j h. ground (arith, first j (omega arith) h))

  hash_transactions_overrun :
      (b : Block)
      → (length b.transactions ≡ 0) ⊎ (4 < length b.transactions)
      → hash_transactions p b ≡ panic index_out_of_range
  unfolding hash_transactions
  hash_transactions_overrun b out =
      let raw = map (serialize_transaction p) b.transactions in
      let len = length-map b.transactions (serialize_transaction p) in
      rw (new_merkle_tree_overrun p.crypto raw (omega arith), ◌>>=◌)

  run_from_overrun :
      (pow : ProofOfWork) (rounds nonce : ℕ) (hash : Bytes)
      → 0 < rounds
      → hash_transactions p pow.block ≡ panic index_out_of_range
      → run_from p pow rounds nonce hash ≡ panic index_out_of_range
  unfolding run_from init_data
  run_from_overrun pow zero nonce hash h bad = absurd (omega arith)
  run_from_overrun pow (suc rounds) nonce hash h bad = rw (bad, ◌>>=◌)

  -- For no transaction, and for any number above four, `CreateBlock` panics: the tree of the
  -- transactions cannot be built.
  pub create_block_overrun :
      (now height : ℤ) (txs : List Transaction) (prev_hash : Bytes)
      → (length txs ≡ 0) ⊎ (4 < length txs)
      → create_block p now txs prev_hash height ≡ panic index_out_of_range
  unfolding create_block run
  create_block_overrun now height txs prev_hash out =
      let b = unmined now txs prev_hash height in
      let bad = hash_transactions_overrun b out in
      rw (run_from_overrun (new_proof b) max_int64 0 no_hash (omega arith) bad, ◌>>=◌)

  -- `Validate` says the same of two blocks that differ in their stored hash, their time and their
  -- height: none of these is checked.
  pub validate_ignores :
      (b : Block) (hash : Bytes) (timestamp height : ℤ)
      → validate p (new_proof (record b { hash = hash; timestamp = timestamp; height = height }))
        ≡ validate p (new_proof b)
  unfolding validate new_proof init_data hash_transactions below_target
  validate_ignores b hash timestamp height = refl
