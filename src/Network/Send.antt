-- ===== src/Network/Send.antt =====
-- The functions of network/network.go that send: each frames one message and calls `SendData`.
use golang_blockchain.Prelude.{◌+◌, Bool, List, [], ◌∷◌, ◌++◌, Bytes, ℤ, pos, codes, if◌then◌else◌}
use golang_blockchain.Types.{Transaction, Block}
use golang_blockchain.Platform.{Platform, Codec}
use golang_blockchain.Run.{Run, ok, panic, send_failed, ◌>>=◌}
use golang_blockchain.Pow.{serialize, serialize_transaction}
use golang_blockchain.Chain.{get_best_height}
use golang_blockchain.Wire.{cmd_to_bytes}
use golang_blockchain.Network.State.{Gob, Env, Node, Dial, delivered, refused, broken, without}

-- `append(CmdToBytes(cmd), GobEncode(payload)...)`
unfoldable pub request : {A : Type 0} → Bytes → Codec A → A → Run Bytes
request cmd c payload = do head ← cmd_to_bytes cmd; ok (head ++ c.encode payload)

-- `version`
abbrev pub protocol_version : ℤ
protocol_version = pos 1

module _ (p : Platform) (g : Gob) (e : Env) where
  -- what `SendData` does, by the way in which the connection goes: a node that refuses it is no
  -- longer known
  unfoldable pub dialled : Dial → Bytes → Bytes → Node p → Run (Node p)
  dialled delivered addr message s =
      ok (record s { outbox = s.outbox ++ (addr, message) ∷ []; moment = s.moment + 1 })
  dialled refused addr message s =
      ok (record s { known_nodes = without addr s.known_nodes; moment = s.moment + 1 })
  dialled broken addr message s = panic send_failed

  -- `SendData`
  unfoldable pub send_data : Bytes → Bytes → Node p → Run (Node p)
  unfolding dialled
  send_data addr message s = dialled (e.dial s.moment addr) addr message s

  -- a message, framed and sent
  unfoldable pub send : {A : Type 0} → Bytes → Codec A → A → Bytes → Node p → Run (Node p)
  unfolding request send_data
  send cmd c payload addr s = do message ← request cmd c payload; send_data addr message s

  unfoldable pub send_addr : Bytes → Node p → Run (Node p)
  unfolding send
  send_addr address s =
      send (codes "addr") g.addr (record { addr_list = s.known_nodes ++ s.node_address ∷ [] })
        address s

  unfoldable pub send_block : Bytes → Block → Node p → Run (Node p)
  unfolding send serialize
  send_block addr b s =
      send (codes "block") g.block (record { addr_from = s.node_address; block = serialize p b })
        addr s

  unfoldable pub send_inv : Bytes → Bytes → List Bytes → Node p → Run (Node p)
  unfolding send
  send_inv address kind items s =
      send (codes "inv") g.inv (record { addr_from = s.node_address; kind = kind; items = items })
        address s

  unfoldable pub send_get_blocks : Bytes → Node p → Run (Node p)
  unfolding send
  send_get_blocks address s =
      send (codes "getblocks") g.get_blocks (record { addr_from = s.node_address }) address s

  unfoldable pub send_get_data : Bytes → Bytes → Bytes → Node p → Run (Node p)
  unfolding send
  send_get_data address kind id s =
      send (codes "getdata") g.get_data
        (record { addr_from = s.node_address; kind = kind; id = id }) address s

  unfoldable pub send_tx : Bytes → Transaction → Node p → Run (Node p)
  unfolding send serialize_transaction
  send_tx addr tnx s =
      send (codes "tx") g.tx
        (record { addr_from = s.node_address; transaction = serialize_transaction p tnx }) addr s

  unfoldable pub send_version : Bytes → Node p → Run (Node p)
  unfolding send
  send_version addr s = do
    best_height ← get_best_height p s.chain
    send (codes "version") g.version
        (record {
          version = protocol_version;
          best_height = best_height;
          addr_from = s.node_address;
        })
        addr s

  -- the loop of `RequestBlocks`, over the nodes that are known when it begins
  unfoldable pub request_blocks_from : List Bytes → Node p → Run (Node p)
  unfolding send_get_blocks
  request_blocks_from [] s = ok s
  request_blocks_from (node ∷ nodes) s = do
    s' ← send_get_blocks node s
    request_blocks_from nodes s'

  unfoldable pub request_blocks : Node p → Run (Node p)
  unfolding request_blocks_from
  request_blocks s = request_blocks_from s.known_nodes s

  -- the loops that announce one item to all known nodes but those to skip
  unfoldable pub announce : (Bytes → Bool) → Bytes → Bytes → List Bytes → Node p → Run (Node p)
  unfolding send_inv
  announce skip kind id [] s = ok s
  announce skip kind id (node ∷ nodes) s = do
    s' ← if skip node then ok s else send_inv node kind (id ∷ []) s
    announce skip kind id nodes s'
