-- ===== src/Network/Alone.antt =====
-- A node that knows no other node, not even the first one.
use golang_blockchain.Prelude.{
  ◌≡◌, refl, true, false, some, [], ◌∷◌, ◌++◌, Bytes, ℤ, bytes_equal, bytes_equal_refl, codes,
}
use golang_blockchain.Types.{Transaction}
use golang_blockchain.Platform.{Platform, decode_or_panic}
use golang_blockchain.Run.{ok, panic, index_out_of_range, ◌>>=◌, Returns}
use golang_blockchain.Chain.{BlockChain, continue_block_chain, get_best_height}
use golang_blockchain.Network.State.{TxMessage, Gob, Env, Node, first_node, refused, without}
use golang_blockchain.Network.Send.{send, send_data, dialled, send_version, protocol_version}
use golang_blockchain.Network.Handle.{first_of, after_tx, on_tx}
use golang_blockchain.Network.Serve.{new_node, start_server}
use golang_blockchain.Network.Serve.Framed.{version, framed, handle_connection-framed}

without_only : (addr : Bytes) → without addr (addr ∷ []) ≡ []
unfolding without
without_only addr = rw bytes_equal_refl refl

module _ (p : Platform) (g : Gob) (e : Env) where
  open p.badger use {DB}

  on_tx_alone :
      (m : TxMessage) (s : Node p) (tx : Transaction)
      → s.known_nodes ≡ []
      → p.transaction_codec.decode m.transaction ≡ some tx
      → on_tx p g e m s ≡ panic index_out_of_range
  unfolding on_tx after_tx first_of decode_or_panic
  on_tx_alone m s tx none_known decoded = rw (decoded, ◌>>=◌) (rw (none_known, ◌>>=◌) refl)

  -- A node other than the first one, which starts while the first one refuses its connection,
  -- starts all the same; but whatever transaction it is then sent, `HandleTx` panics, because no
  -- known node is left for it to compare with.
  pub start_server_alone :
      (db : DB) (node_id miner : Bytes) (chain : BlockChain p) (own : ℤ)
      → continue_block_chain p (some db) ≡ ok chain
      → get_best_height p chain ≡ ok own
      → bytes_equal (codes "localhost:" ++ node_id) first_node ≡ false
      → e.dial 0 first_node ≡ refused
      → Returns (start_server p g e true (some db) node_id miner) (λ t.
        (m : TxMessage) (tx : Transaction)
        → p.transaction_codec.decode m.transaction ≡ some tx
        → on_tx p g e m t ≡ panic index_out_of_range)
  unfolding start_server new_node first_of send_version send send_data dialled framed
  start_server_alone db node_id miner chain own opened best other down =
      let s = new_node p g e node_id miner chain in
      let tell = version (record {
        version = protocol_version;
        best_height = own;
        addr_from = codes "localhost:" ++ node_id;
      }) in
      let (req, made, _) = handle_connection-framed p g e tell s in
      (
        record s { known_nodes = []; moment = 1 },
        rw (opened, ◌>>=◌)
            (rw other (rw (best, ◌>>=◌) (rw (made, ◌>>=◌) (rw (down, without_only) refl)))),
        λ m tx decoded. on_tx_alone m _ tx refl decoded,
      )
