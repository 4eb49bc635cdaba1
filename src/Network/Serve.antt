-- ===== src/Network/Serve.antt =====
-- `HandleConnection` and `StartServer` of network/network.go.
pub mod Framed
use golang_blockchain.Prelude.{
  ℕ, Bool, true, false, Option, none, some, List, [], ◌∷◌, ◌++◌, Bytes, Map, take, bytes_equal,
  codes, if◌then◌else◌,
}
use golang_blockchain.Platform.{Platform}
use golang_blockchain.Run.{Run, ok, panic, or_panic, listen_failed, receive_failed, ◌>>=◌}
use golang_blockchain.Chain.{BlockChain, continue_block_chain}
use golang_blockchain.Wire.{command_length, no_command, bytes_to_cmd}
use golang_blockchain.Network.State.{Gob, Env, Node, first_node}
use golang_blockchain.Network.Send.{send_version}
use golang_blockchain.Network.Handle.{
  handle_addr, handle_block, handle_inv, handle_get_blocks, handle_get_data, handle_tx,
  handle_version, first_of,
}

-- `req[:commandLength]`. The slice that `ioutil.ReadAll` returns has room for 512 bytes or more,
-- and zeros behind its end, so a shorter request is read with zeros.
unfoldable pub command_bytes : Bytes → Bytes
command_bytes req = take command_length (req ++ no_command)

module _ (p : Platform) (g : Gob) (e : Env) where
  -- the `switch` over the commands
  unfoldable pub dispatch : Bytes → Bytes → Node p → Run (Node p)
  dispatch command req s =
      if bytes_equal command (codes "addr")
      then handle_addr p g e req s
      else if bytes_equal command (codes "block")
      then handle_block p g e req s
      else if bytes_equal command (codes "inv")
      then handle_inv p g e req s
      else if bytes_equal command (codes "getblocks")
      then handle_get_blocks p g e req s
      else if bytes_equal command (codes "getdata")
      then handle_get_data p g e req s
      else if bytes_equal command (codes "tx")
      then handle_tx p g e req s
      else if bytes_equal command (codes "version")
      then handle_version p g e req s
      else ok s

  -- `HandleConnection`, with what is read from the connection; `none` is an error of reading
  unfoldable pub handle_connection : Option Bytes → Node p → Run (Node p)
  unfolding command_bytes dispatch
  handle_connection none s = panic receive_failed
  handle_connection (some req) s = dispatch (bytes_to_cmd (command_bytes req)) req s

  -- the loop of `StartServer` over the connections that it accepts
  unfoldable pub serve : List (Option Bytes) → Node p → Run (Node p)
  unfolding handle_connection
  serve [] s = ok s
  serve (conn ∷ conns) s = do s' ← handle_connection conn s; serve conns s'

  -- the variables of a node that starts
  unfoldable pub new_node : Bytes → Bytes → BlockChain p → Node p
  new_node node_id miner_address chain = record {
    node_address = codes "localhost:" ++ node_id;
    mine_address = miner_address;
    known_nodes = first_node ∷ [];
    blocks_in_transit = [];
    memory_pool = [];
    chain = chain;
    outbox = [];
    moment = 0;
  }

  -- `StartServer` up to that loop: `listens` tells whether `net.Listen` succeeds, and the
  -- database is the one in the node's directory, if there is one
  unfoldable pub start_server : Bool → Option p.badger.DB → Bytes → Bytes → Run (Node p)
  unfolding first_of new_node
  start_server listens db node_id miner_address = elim listens [
    | false ↦ panic listen_failed
    | true ↦ do
      chain ← continue_block_chain p db
      let s : Node p = new_node node_id miner_address chain
      central ← first_of s.known_nodes
      if bytes_equal s.node_address central then ok s else send_version p g e central s
  ]
