-- ===== src/Network/State.antt =====
-- The messages of network/network.go, a node's variables, and what its surroundings decide.
use golang_blockchain.Prelude.{
  ℕ, Bool, true, false, List, [], ◌∷◌, Bytes, Map, ℤ, bytes_equal, if◌then◌else◌, codes,
}
use golang_blockchain.Types.{Transaction, TxOutput}
use golang_blockchain.Platform.{Platform, Codec}
use golang_blockchain.Chain.{BlockChain}

-- the payloads
pub record Addr : Type 0 where
  pub addr_list : List Bytes

pub record BlockMessage : Type 0 where
  pub addr_from : Bytes
  pub block : Bytes

pub record GetBlocks : Type 0 where
  pub addr_from : Bytes

pub record GetData : Type 0 where
  pub addr_from : Bytes
  pub kind : Bytes
  pub id : Bytes

pub record Inv : Type 0 where
  pub addr_from : Bytes
  pub kind : Bytes
  pub items : List Bytes

pub record TxMessage : Type 0 where
  pub addr_from : Bytes
  pub transaction : Bytes

pub record Version : Type 0 where
  pub version : ℤ
  pub best_height : ℤ
  pub addr_from : Bytes

-- gob at the payloads: `GobEncode`, and the decoder of each handler
pub record Gob : Type 0 where
  pub addr : Codec Addr
  pub block : Codec BlockMessage
  pub get_blocks : Codec GetBlocks
  pub get_data : Codec GetData
  pub inv : Codec Inv
  pub tx : Codec TxMessage
  pub version : Codec Version

-- the initial `KnownNodes`
abbrev pub first_node : Bytes
first_node = codes "localhost:3000"

-- how a connection to another node goes
pub data Dial : Type 0 where
  delivered refused broken : Dial

-- What the surroundings decide, at each moment: connections, the orders in which Go ranges over
-- maps, and the clock. `walk` is the fuel of a walk over the blocks, `rounds` that of `MineTx`.
pub record Env : Type 0 where
  pub dial : ℕ → Bytes → Dial
  pub pool_order : ℕ → Map Transaction → Map Transaction
  pub utxo_order : ℕ → Map (List TxOutput) → Map (List TxOutput)
  pub now : ℕ → ℤ
  pub walk : ℕ
  pub rounds : ℕ

-- The variables of a node, with the chain that its handlers are given, the requests that it has
-- sent, the oldest first, and the number of moments that have passed.
pub record Node (p : Platform) : Type 0 where
  pub node_address : Bytes
  pub mine_address : Bytes
  pub known_nodes : List Bytes
  pub blocks_in_transit : List Bytes
  pub memory_pool : Map Transaction
  pub chain : BlockChain p
  pub outbox : List (Bytes × Bytes)
  pub moment : ℕ

-- the members that are not `addr`, as `SendData` and `HandleInv` collect them
unfoldable pub without : Bytes → List Bytes → List Bytes
without addr [] = []
without addr (node ∷ nodes) =
    let rest = without addr nodes in if bytes_equal node addr then rest else node ∷ rest

-- the search of `NodeIsKnown`
unfoldable pub node_is_known : Bytes → List Bytes → Bool
node_is_known addr [] = false
node_is_known addr (node ∷ nodes) = if bytes_equal node addr then true else node_is_known addr nodes
