-- ===== src/Chain.antt =====
-- blockchain/blockchain.go and blockchain/chain_iter.go: the chain of blocks in the database.
-- A call of `Update` works on the database as a value, and a panic inside it returns none: nothing
-- of it is committed.
pub mod Walk
pub mod Growth
pub mod Extend
pub mod Beginning
pub mod Opening
use golang_blockchain.Prelude.{
  ℕ, zero, suc, ◌+◌, Bool, true, false, ◌⊎◌, inl, inr, Option, none, some, List, [], ◌∷◌, ◌++◌,
  Bytes, Map, lookup, insert, ℤ, pos, ◌+ℤ◌, ltb_ℤ, bytes_equal, codes, if◌then◌else◌,
}
use golang_blockchain.Words.Hex.{hex_encode}
use golang_blockchain.Types.{Transaction, TxInput, Block, is_nil}
use golang_blockchain.Platform.{Platform, txn_get, txn_set, decode_or_panic}
use golang_blockchain.Run.{
  Run, ok, panic, goexit, spins, or_panic, key_not_found, decode_failed, transaction_does_not_exist,
  ◌>>=◌,
}
use golang_blockchain.Pow.{serialize, create_block, genesis}
use golang_blockchain.Tx.{coinbase_tx, sign, verify}
use golang_blockchain.Wallet.{PrivateKey}

-- the key of the last block's hash
abbrev pub lh : Bytes
lh = codes "lh"

-- `genesisData`
abbrev pub genesis_data : Bytes
genesis_data = codes "First Transaction from Genesis"

-- What a pass of a loop over the blocks does: it goes on, or it returns from the function.
pub data Pass (S R : Type 0) : Type 0 where
  continue : S → Pass S R
  return : R → Pass S R

-- the passes of the loops of `GetBlockHashes` and `FindTransaction`, and their ends
push_hash : List Bytes → Block → Pass (List Bytes) ⊥
push_hash blocks block = continue (blocks ++ block.hash ∷ [])

unfoldable pub no_return : {S : Type 0} → S ⊎ ⊥ → S
no_return (inl s) = s
no_return (inr r) = absurd r

unfoldable pub find_in : Bytes → List Transaction → Option Transaction
find_in id [] = none
find_in id (tx ∷ txs) = if bytes_equal tx.id id then some tx else find_in id txs

pub look_in_block : Bytes → Unit {0} → Block → Pass (Unit {0}) Transaction
unfolding find_in
look_in_block id _ block = elim (find_in id block.transactions) [
  | none ↦ continue tt
  | some tx ↦ return tx
]

found_or_not : Unit {0} ⊎ Transaction → Option Transaction
found_or_not (inl _) = none
found_or_not (inr tx) = some tx

module _ (p : Platform) where
  open p.badger use {DB, empty_db, get}

  pub record BlockChain : Type 0 where
    pub last_hash : Bytes
    pub database : DB

  -- `BlockChainIterator.Next` from the current hash: the block, and the hash of the block before
  unfoldable pub next : DB → Bytes → Run (Block × Bytes)
  unfolding txn_get decode_or_panic
  next db current_hash = do
    raw ← txn_get p.badger db current_hash
    block ← decode_or_panic p.block_codec raw
    ok (block, block.prev_hash)

  -- `for { block := iter.Next(); …; if len(block.PrevHash) == 0 { break } }`
  unfoldable pub for_blocks :
      {S R : Type 0} → ℕ → DB → Bytes → (S → Block → Pass S R) → S → Run (S ⊎ R)
  unfolding next
  for_blocks zero db current body s = spins
  for_blocks (suc fuel) db current body s = do
    (block, before) ← next db current
    elim (body s block) [
      | return r ↦ ok (inr r)
      | continue s' ↦ elim (is_nil block.prev_hash) [
        | true ↦ ok (inl s')
        | false ↦ for_blocks fuel db before body s'
      ]
    ]

  -- `GetBlock`; `none` is the error "Block is not found"
  unfoldable pub get_block : BlockChain → Bytes → Run (Option Block)
  unfolding decode_or_panic
  get_block chain block_hash = elim (get chain.database block_hash) [
    | none ↦ ok none
    | some raw ↦ do block ← decode_or_panic p.block_codec raw; ok (some block)
  ]

  -- the last block, as `AddBlock` and `GetBestHeight` read it
  unfoldable pub last_block : DB → Run Block
  unfolding txn_get decode_or_panic
  last_block db = do
    last_hash ← txn_get p.badger db lh
    raw ← txn_get p.badger db last_hash
    decode_or_panic p.block_codec raw

  -- `GetBestHeight`
  unfoldable pub get_best_height : BlockChain → Run ℤ
  unfolding last_block
  get_best_height chain = do last ← last_block chain.database; ok last.height

  -- `AddBlock`. The last block is encoded and decoded once more on the way.
  unfoldable pub add_block : BlockChain → Block → Run BlockChain
  unfolding txn_set last_block serialize
  add_block chain block = elim (get chain.database block.hash) [
    | some raw ↦ ok chain
    | none ↦ do
      db ← txn_set p.badger chain.database block.hash (serialize p block)
      read ← last_block db
      last ← decode_or_panic p.block_codec (serialize p read)
      elim (ltb_ℤ last.height block.height) [
        | true ↦ do
          db' ← txn_set p.badger db lh block.hash
          ok (record { last_hash = block.hash; database = db' })
        | false ↦ ok (record { last_hash = chain.last_hash; database = db })
      ]
  ]

  -- `MineBlock`, at the time `now`. The value that is decoded as the last block is read from the
  -- same item as the last hash, the one under "lh".
  unfoldable pub mine_block : ℤ → BlockChain → List Transaction → Run (Block × BlockChain)
  unfolding txn_get txn_set decode_or_panic serialize
  mine_block now chain txs = do
    last_hash ← txn_get p.badger chain.database lh
    last ← decode_or_panic p.block_codec last_hash
    block ← create_block p now txs last_hash (last.height +ℤ pos 1)
    db ← txn_set p.badger chain.database block.hash (serialize p block)
    db' ← txn_set p.badger db lh block.hash
    ok (block, record { last_hash = block.hash; database = db' })

  -- `GetBlockHashes`
  unfoldable pub get_block_hashes : ℕ → BlockChain → Run (List Bytes)
  unfolding push_hash no_return
  get_block_hashes fuel chain = do
    end ← for_blocks fuel chain.database chain.last_hash push_hash []
    ok (no_return end)

  -- `FindTransaction`; `none` is the error "Transaction does not exist"
  unfoldable pub find_transaction : ℕ → BlockChain → Bytes → Run (Option Transaction)
  unfolding look_in_block found_or_not
  find_transaction fuel chain id = do
    end ← for_blocks fuel chain.database chain.last_hash (look_in_block id) tt
    ok (found_or_not end)

  -- the loop of `SignTransaction` and `VerifyTransaction` that gathers the previous transactions
  unfoldable pub previous_transactions :
      ℕ → BlockChain → List TxInput → Map Transaction → Run (Map Transaction)
  previous_transactions fuel chain [] prev_txs = ok prev_txs
  previous_transactions fuel chain (i ∷ is) prev_txs = do
    found ← find_transaction fuel chain i.id
    tx ← or_panic transaction_does_not_exist found
    previous_transactions fuel chain is (insert (hex_encode tx.id) tx prev_txs)

  unfoldable pub sign_transaction :
      ℕ → BlockChain → (ℕ → Bytes) → PrivateKey → Transaction → Run Transaction
  unfolding previous_transactions
  sign_transaction fuel chain rand key tx = do
    prev_txs ← previous_transactions fuel chain tx.inputs []
    sign p rand key prev_txs tx

  unfoldable pub verify_transaction : ℕ → BlockChain → Transaction → Run Bool
  unfolding previous_transactions
  verify_transaction fuel chain tx = do
    prev_txs ← previous_transactions fuel chain tx.inputs []
    verify p prev_txs tx

  -- `ContinueBlockChain` on the database of the node's directory, if there is one
  unfoldable pub continue_block_chain : Option DB → Run BlockChain
  unfolding txn_get
  continue_block_chain none = goexit
  continue_block_chain (some db) = do
    last_hash ← txn_get p.badger db lh
    ok (record { last_hash = last_hash; database = db })

  -- `InitBlockChain`, at the time `now`
  unfoldable pub init_block_chain : ℤ → Option DB → Bytes → Run BlockChain
  unfolding txn_set serialize
  init_block_chain now (some db) address = goexit
  init_block_chain now none address = do
    cbtx ← coinbase_tx p address genesis_data
    first ← genesis p now cbtx
    db ← txn_set p.badger empty_db first.hash (serialize p first)
    db' ← txn_set p.badger db lh first.hash
    ok (record { last_hash = first.hash; database = db' })
