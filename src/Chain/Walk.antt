-- ===== src/Chain/Walk.antt =====
-- The walk from the last block to the first: on a chain it ends within as many passes as there
-- are blocks, and has seen each of them.
use golang_blockchain.Prelude.{
  ℕ, zero, suc, ◌≤◌, ◌≡◌, ◌≢◌, refl, sym, ap, ◌∙◌, true, false, Bool-cases, bytes_equal,
  bytes_equal→eq, bytes_equal_ne, bytes_equal_iff, false≢true, All, Option, ◌⊎◌, inl, inr, none,
  some, List, [], ◌∷◌, ◌++◌, map, Bytes, length, arith, append_assoc, append-nil,
}
use golang_blockchain.Types.{Transaction, Block, is_nil}
use golang_blockchain.Platform.{Platform}
use golang_blockchain.Run.{ok, ◌>>=◌, Returns}
use golang_blockchain.Chain.{
  BlockChain, Pass, continue, return, next, for_blocks, push_hash, no_return, get_block_hashes,
  find_in, look_in_block, found_or_not, find_transaction,
}

module _ (p : Platform) where
  open p.badger use {DB, get}

  -- the database holds the block under this hash
  abbrev pub Stored : DB → Bytes → Block → Type 0
  Stored db h b = (raw : Bytes) × (get db h ≡ some raw) × (p.block_codec.decode raw ≡ some b)

  -- The blocks from a hash down to the first one, which has no previous hash.
  abbrev pub IsChain : DB → Bytes → List Block → Type 0
  IsChain db h [] = ⊥
  IsChain db h (b ∷ []) = Stored db h b × (is_nil b.prev_hash ≡ true)
  IsChain db h (b ∷ c ∷ bs) =
      Stored db h b × (is_nil b.prev_hash ≡ false) × IsChain db b.prev_hash (c ∷ bs)

  pub next-Stored :
      (db : DB) (h : Bytes) (b : Block) → Stored db h b → next p db h ≡ ok (b, b.prev_hash)
  unfolding next
  next-Stored db h b (raw, e, d) = rw (e, ◌>>=◌, d)

Pass-cases :
    {S R : Type 0} (r : Pass S R) → ((s : S) × (r ≡ continue s)) ⊎ ((t : R) × (r ≡ return t))
Pass-cases (continue s) = inl (s, refl)
Pass-cases (return t) = inr (t, refl)

-- the passes over a list of blocks
abbrev pub passes : {S R : Type 0} → (S → Block → Pass S R) → S → List Block → S ⊎ R
passes body s [] = inl s
passes body s (b ∷ bs) = elim (body s b) [ return r ↦ inr r | continue s' ↦ passes body s' bs ]

module _ (p : Platform) {S R : Type 0} (body : S → Block → Pass S R) where
  open p.badger use {DB}

  for_blocks_return :
      (fuel : ℕ) (db : DB) (h : Bytes) (b : Block) (s : S) (t : R)
      → Stored p db h b
      → body s b ≡ return t
      → for_blocks p (suc fuel) db h body s ≡ ok (inr t)
  unfolding for_blocks
  for_blocks_return fuel db h b s t st e = rw (next-Stored p db h b st, ◌>>=◌) (rw e)

  for_blocks_last :
      (fuel : ℕ) (db : DB) (h : Bytes) (b : Block) (s s' : S)
      → Stored p db h b
      → body s b ≡ continue s'
      → is_nil b.prev_hash ≡ true
      → for_blocks p (suc fuel) db h body s ≡ ok (inl s')
  unfolding for_blocks
  for_blocks_last fuel db h b s s' st e l = rw (next-Stored p db h b st, ◌>>=◌) (rw (e, l))

  for_blocks_next :
      (fuel : ℕ) (db : DB) (h : Bytes) (b : Block) (s s' : S)
      → Stored p db h b
      → body s b ≡ continue s'
      → is_nil b.prev_hash ≡ false
      → for_blocks p (suc fuel) db h body s ≡ for_blocks p fuel db b.prev_hash body s'
  unfolding for_blocks
  for_blocks_next fuel db h b s s' st e l = rw (next-Stored p db h b st, ◌>>=◌) (rw (e, l))

  -- On a chain the loop ends within as many passes as there are blocks, with what the passes over
  -- these blocks give.
  pub for_blocks-IsChain :
      (fuel : ℕ) (db : DB) (h : Bytes) (s : S) (bs : List Block)
      → IsChain p db h bs
      → length bs ≤ fuel
      → for_blocks p fuel db h body s ≡ ok (passes body s bs)
  for_blocks-IsChain fuel db h s [] c f = absurd c
  for_blocks-IsChain zero db h s (b ∷ bs) c f = absurd (omega arith)
  for_blocks-IsChain (suc fuel) db h s (b ∷ []) c f = elim (Pass-cases (body s b)) [
    | inl (s', e) ↦ for_blocks_last fuel db h b s s' c.0 e c.1 ∙ rw (e, passes)
    | inr (t, e) ↦ for_blocks_return fuel db h b s t c.0 e ∙ rw (e, passes)
  ]
  for_blocks-IsChain (suc fuel) db h s (b ∷ d ∷ bs) c f = elim (Pass-cases (body s b)) [
    | inl (s', e) ↦
        for_blocks_next fuel db h b s s' c.0 e c.1
        ∙ for_blocks-IsChain fuel db b.prev_hash s' (d ∷ bs) c.2 (omega arith)
        ∙ rw (e, passes)
    | inr (t, e) ↦ for_blocks_return fuel db h b s t c.0 e ∙ rw (e, passes)
  ]

-- all transactions of a list of blocks, in the order of the loops
abbrev pub all_transactions : List Block → List Transaction
all_transactions [] = []
all_transactions (b ∷ bs) = b.transactions ++ all_transactions bs

push_hash-passes :
    (acc : List Bytes) (bs : List Block)
    → no_return (passes push_hash acc bs) ≡ acc ++ map (λ b. b.hash) bs
unfolding push_hash no_return
push_hash-passes acc [] = rw append-nil
push_hash-passes acc (b ∷ bs) =
    push_hash-passes (acc ++ b.hash ∷ []) bs ∙ append_assoc acc (b.hash ∷ []) (map (λ b. b.hash) bs)

find_in-append :
    (id : Bytes) (xs ys : List Transaction)
    → find_in id (xs ++ ys) ≡ (elim (find_in id xs) [ none ↦ find_in id ys | some t ↦ some t ])
unfolding find_in
find_in-append id [] ys = refl
find_in-append id (x ∷ xs) ys = ground (arith, find_in-append id xs ys)

look_in_block-passes :
    (id : Bytes) (bs : List Block)
    → found_or_not (passes (look_in_block id) tt bs) ≡ find_in id (all_transactions bs)
unfolding look_in_block found_or_not find_in
look_in_block-passes id [] = refl
look_in_block-passes id (b ∷ bs) = rw find_in-append (ground (arith, look_in_block-passes id bs))

-- What a search for an ID among transactions finds: the first that has it, or `none` where no
-- transaction has it.
abbrev pub IsFirst : Bytes → List Transaction → Option Transaction → Type 0
IsFirst id txs none = All (λ t. t.id ≢ id) txs
IsFirst id txs (some tx) =
    (before : List Transaction) × (after : List Transaction) × (txs ≡ before ++ tx ∷ after)
    × All (λ t. t.id ≢ id) before
    × (tx.id ≡ id)

IsFirst-cons :
    (id : Bytes) (t : Transaction) (txs : List Transaction) (found : Option Transaction)
    → t.id ≢ id
    → IsFirst id txs found
    → IsFirst id (t ∷ txs) found
IsFirst-cons id t txs none ne h = (ne, h)
IsFirst-cons id t txs (some tx) ne (before, after, e, hs, same) =
    (t ∷ before, after, ap (λ l. t ∷ l) e, (ne, hs), same)

pub find_in_missing :
    (id : Bytes) (txs : List Transaction) → All (λ t. t.id ≢ id) txs → find_in id txs ≡ none
unfolding find_in
find_in_missing id [] h = refl
find_in_missing id (t ∷ txs) (ne, h) = rw (bytes_equal_ne t.id id ne) (find_in_missing id txs h)

find_in-IsFirst : (id : Bytes) (txs : List Transaction) → IsFirst id txs (find_in id txs)
unfolding find_in
find_in-IsFirst id [] = tt
find_in-IsFirst id (t ∷ txs) = elim (Bool-cases (bytes_equal t.id id)) [
  | inl same ↦ rw same ([], txs, refl, tt, bytes_equal→eq t.id id same)
  | inr other ↦ rw other (
      IsFirst-cons id t txs (find_in id txs)
        (λ e. false≢true (sym other ∙ (bytes_equal_iff t.id id).1 e)) (find_in-IsFirst id txs))
]

module _ (p : Platform) where
  -- On a chain with as much fuel as blocks, `GetBlockHashes` returns the hashes of the blocks, the
  -- last block's first.
  pub get_block_hashes-IsChain :
      (fuel : ℕ) (chain : BlockChain p) (bs : List Block)
      → IsChain p chain.database chain.last_hash bs
      → length bs ≤ fuel
      → get_block_hashes p fuel chain ≡ ok (map (λ b. b.hash) bs)
  unfolding get_block_hashes
  get_block_hashes-IsChain fuel chain bs c f =
      rw (for_blocks-IsChain p push_hash fuel chain.database chain.last_hash [] bs c f, ◌>>=◌)
        (ap ok (push_hash-passes [] bs))

  pub find_transaction-find_in :
      (fuel : ℕ) (chain : BlockChain p) (bs : List Block) (id : Bytes)
      → IsChain p chain.database chain.last_hash bs
      → length bs ≤ fuel
      → find_transaction p fuel chain id ≡ ok (find_in id (all_transactions bs))
  unfolding find_transaction
  find_transaction-find_in fuel chain bs id c f =
      rw
        (
          for_blocks-IsChain p (look_in_block id) fuel chain.database chain.last_hash tt bs c f,
          ◌>>=◌,
        )
        (ap ok (look_in_block-passes id bs))

  -- On a chain with as much fuel as blocks, `FindTransaction` returns: the first transaction
  -- with the ID, in the order from the last block on, or its error if no block holds one.
  pub find_transaction-IsChain :
      (fuel : ℕ) (chain : BlockChain p) (bs : List Block) (id : Bytes)
      → IsChain p chain.database chain.last_hash bs
      → length bs ≤ fuel
      → Returns (find_transaction p fuel chain id) (IsFirst id (all_transactions bs))
  find_transaction-IsChain fuel chain bs id c f =
      (_, find_transaction-find_in fuel chain bs id c f, find_in-IsFirst id (all_transactions bs))
