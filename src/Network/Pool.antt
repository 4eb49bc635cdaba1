-- ===== src/Network/Pool.antt =====
-- What every handler of a node keeps: the key of each transaction in the memory pool is the hex
-- form of its ID, and the node's own addresses stay.
use golang_blockchain.Prelude.{
  ℕ, zero, suc, ◌+◌, ◌≡◌, refl, List, [], ◌∷◌, ◌++◌, Bytes, Map, All, insert, erase, bytes_equal,
  bytes_equal→eq, Bool-cases, inl, inr,
}
use golang_blockchain.Words.Hex.{hex_encode}
use golang_blockchain.Types.{Transaction}
use golang_blockchain.Platform.{Platform}
use golang_blockchain.Run.{Run, ok, ◌>>=◌, Ensures, Ensures-ok, Ensures->>=, Ensures-after}
use golang_blockchain.Tx.{coinbase_tx}
use golang_blockchain.Chain.{mine_block}
use golang_blockchain.Utxo.{reindex}
use golang_blockchain.Network.State.{Gob, Env, Node}
use golang_blockchain.Network.Sent.{IsLasting, announce-keeps}
use golang_blockchain.Network.Mine.{delete_all, verified, mine_round, mine_tx}

abbrev pub Keyed : Map Transaction → Type 0
Keyed pool = All (λ (entry : Bytes × Transaction). entry.0 ≡ hex_encode entry.1.id) pool

pub insert-Keyed :
    (tx : Transaction) (pool : Map Transaction)
    → Keyed pool
    → Keyed (insert (hex_encode tx.id) tx pool)
unfolding insert
insert-Keyed tx [] h = (refl, tt)
insert-Keyed tx ((k, old) ∷ pool) (h, hs) = elim (Bool-cases (bytes_equal k (hex_encode tx.id))) [
  | inl same ↦ rw same (bytes_equal→eq k (hex_encode tx.id) same, hs)
  | inr other ↦ rw other (h, insert-Keyed tx pool hs)
]

erase-Keyed : (k : Bytes) (pool : Map Transaction) → Keyed pool → Keyed (erase k pool)
unfolding erase
erase-Keyed k [] h = h
erase-Keyed k ((j, tx) ∷ pool) (h, hs) = elim (Bool-cases (bytes_equal j k)) [
  | inl same ↦ rw same hs
  | inr other ↦ rw other (h, erase-Keyed k pool hs)
]

pub delete_all-Keyed :
    (txs : List Transaction) (pool : Map Transaction) → Keyed pool → Keyed (delete_all txs pool)
unfolding delete_all
delete_all-Keyed [] pool h = h
delete_all-Keyed (tx ∷ txs) pool h =
    delete_all-Keyed txs (erase (hex_encode tx.id) pool) (erase-Keyed (hex_encode tx.id) pool h)

-- a node with these addresses and a pool with the right keys
pub record IsSound (p : Platform) (own miner : Bytes) (s : Node p) : Type 0 where
  pub keyed : Keyed s.memory_pool
  pub own_address : s.node_address ≡ own
  pub mine_address : s.mine_address ≡ miner

pub IsSound-IsLasting : (p : Platform) (own miner : Bytes) → IsLasting p (IsSound p own miner)
IsSound-IsLasting p own miner s nodes outbox n h = record {
  keyed = h.keyed;
  own_address = h.own_address;
  mine_address = h.mine_address;
}

module _ (p : Platform) (g : Gob) (e : Env) (own miner : Bytes) where
  abbrev Sound : Node p → Type 0
  Sound = IsSound p own miner

  abbrev Keeps : Run (Node p) → Type 0
  Keeps = Ensures Sound

  mine_round-IsSound :
      (txs : List Transaction) (s : Node p) → Sound s → Keeps (mine_round p g e txs s)
  unfolding mine_round
  mine_round-IsSound txs s h = Ensures-after Sound (coinbase_tx p s.mine_address []) _ (λ cb_tx.
      Ensures-after Sound (mine_block p (e.now s.moment) s.chain (txs ++ cb_tx ∷ [])) _ (λ mined.
        Ensures-after Sound (reindex p e.walk (e.utxo_order s.moment) mined.1) _ (λ indexed.
          announce-keeps p g e Sound (IsSound-IsLasting p own miner) _ _ _ _ _ (record {
            keyed = delete_all-Keyed (txs ++ cb_tx ∷ []) s.memory_pool h.keyed;
            own_address = h.own_address;
            mine_address = h.mine_address;
          }))))

  if_more-IsSound :
      (pool : Map Transaction) (s : Node p) (rounds : ℕ)
      → Sound s
      → Keeps (mine_tx p g e rounds s)
      → Keeps (elim pool [ [] ↦ ok s | entry ∷ rest ↦ mine_tx p g e rounds s ])
  if_more-IsSound [] s rounds h more = Ensures-ok Sound s h
  if_more-IsSound (entry ∷ rest) s rounds h more = more

  pub mine_tx-IsSound : (rounds : ℕ) (s : Node p) → Sound s → Keeps (mine_tx p g e rounds s)
  unfolding mine_tx
  mine_tx-IsSound zero s h = λ t q. cc
  mine_tx-IsSound (suc rounds) s h =
      Ensures-after Sound (verified p g e s.chain (e.pool_order s.moment s.memory_pool)) _ (λ txs.
        elim txs
          as (λ l. Keeps (elim l [
            | [] ↦ ok (record s { moment = s.moment + 1 })
            | tx ∷ more ↦ do
              s' ← mine_round p g e (tx ∷ more) s
              elim s'.memory_pool [ [] ↦ ok s' | entry ∷ pool ↦ mine_tx p g e rounds s' ]
          ])) [
            | [] ↦ Ensures-ok Sound _ (record {
              keyed = h.keyed;
              own_address = h.own_address;
              mine_address = h.mine_address;
            })
            | tx ∷ more ↦
                Ensures->>= Sound Sound (mine_round p g e (tx ∷ more) s) _
                  (mine_round-IsSound (tx ∷ more) s h)
                  (λ s' h'.
                    if_more-IsSound s'.memory_pool s' rounds h' (mine_tx-IsSound rounds s' h'))
          ])
