-- ===== src/Network/Mine.antt =====
-- `MineTx` of network/network.go: a block out of the valid transactions of the memory pool, until
-- the pool is empty.
use golang_blockchain.Prelude.{
  ℕ, zero, suc, ◌+◌, List, [], ◌∷◌, ◌++◌, Map, erase, bytes_equal, codes, if◌then◌else◌,
}
use golang_blockchain.Words.Hex.{hex_encode}
use golang_blockchain.Types.{Transaction}
use golang_blockchain.Platform.{Platform}
use golang_blockchain.Run.{Run, ok, spins, ◌>>=◌}
use golang_blockchain.Tx.{coinbase_tx}
use golang_blockchain.Chain.{BlockChain, verify_transaction, mine_block}
use golang_blockchain.Utxo.{reindex}
use golang_blockchain.Network.State.{Gob, Env, Node}
use golang_blockchain.Network.Send.{announce}

-- the loop that deletes the mined transactions from the pool
unfoldable pub delete_all : List Transaction → Map Transaction → Map Transaction
delete_all [] pool = pool
delete_all (tx ∷ txs) pool = delete_all txs (erase (hex_encode tx.id) pool)

module _ (p : Platform) (g : Gob) (e : Env) where
  -- the loop that collects the valid transactions of the pool
  unfoldable pub verified : BlockChain p → Map Transaction → Run (List Transaction)
  verified chain [] = ok []
  verified chain ((id, tx) ∷ pool) = do
    valid ← verify_transaction p e.walk chain tx
    txs ← verified chain pool
    ok (if valid then tx ∷ txs else txs)

  -- What a round does with the valid transactions: it mines them with a reward, rebuilds the
  -- unspent outputs, deletes them from the pool, and announces the block.
  unfoldable pub mine_round : List Transaction → Node p → Run (Node p)
  unfolding delete_all
  mine_round txs s = do
    cb_tx ← coinbase_tx p s.mine_address []
    let block_txs = txs ++ cb_tx ∷ []
    (new_block, mined) ← mine_block p (e.now s.moment) s.chain block_txs
    indexed ← reindex p e.walk (e.utxo_order s.moment) mined
    announce p g e (λ node. bytes_equal node s.node_address) (codes "block") new_block.hash
        s.known_nodes
        (record s {
          chain = indexed;
          memory_pool = delete_all block_txs s.memory_pool;
          moment = s.moment + 1;
        })

  -- `MineTx`; each call that it makes of itself takes one unit of fuel
  unfoldable pub mine_tx : ℕ → Node p → Run (Node p)
  unfolding mine_round
  mine_tx zero s = spins
  mine_tx (suc rounds) s = do
    txs ← verified s.chain (e.pool_order s.moment s.memory_pool)
    elim txs [
      | [] ↦ ok (record s { moment = s.moment + 1 })
      | tx ∷ more ↦ do
        s' ← mine_round (tx ∷ more) s
        elim s'.memory_pool [ [] ↦ ok s' | entry ∷ pool ↦ mine_tx rounds s' ]
    ]
