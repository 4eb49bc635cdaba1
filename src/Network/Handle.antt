-- ===== src/Network/Handle.antt =====
-- The handlers of network/network.go. Each reads its payload behind the
-- command; what it does with the payload is a definition of its own, on_addr for HandleAddr.
use golang_blockchain.Prelude.{
  ◌+◌, ◌&&◌, ◌||◌, none, some, List, [], ◌∷◌, ◌++◌, Bytes, Map, lookup, insert, length, drop, leb,
  ltb_ℤ, bytes_equal, codes, not, if◌then◌else◌,
}
use golang_blockchain.Words.Hex.{hex_encode}
use golang_blockchain.Types.{Transaction, is_nil, no_transaction}
use golang_blockchain.Platform.{Platform, Codec, decode_or_panic}
use golang_blockchain.Run.{Run, ok, panic, index_out_of_range, ◌>>=◌}
use golang_blockchain.Chain.{add_block, get_block, get_block_hashes, get_best_height}
use golang_blockchain.Utxo.{reindex}
use golang_blockchain.Wire.{command_length}
use golang_blockchain.Network.State.{
  Addr, BlockMessage, GetBlocks, GetData, Inv, TxMessage, Version, Gob, Env, Node, without,
  node_is_known,
}
use golang_blockchain.Network.Send.{
  send_get_data, send_get_blocks, send_inv, send_block, send_tx, send_version, request_blocks,
  announce,
}
use golang_blockchain.Network.Mine.{mine_tx}

-- the payload of a request: `request[commandLength:]`, with Go's check of the bounds, decoded
unfoldable pub payload_of : {A : Type 0} → Codec A → Bytes → Run A
unfolding decode_or_panic
payload_of c request =
    if leb command_length (length request)
    then decode_or_panic c (drop command_length request)
    else panic index_out_of_range

-- `l[0]`
unfoldable pub first_of : List Bytes → Run Bytes
first_of [] = panic index_out_of_range
first_of (x ∷ xs) = ok x

-- `memoryPool[id]`, the zero value if there is none
unfoldable pub pooled : Map Transaction → Bytes → Transaction
pooled pool id = elim (lookup id pool) [ none ↦ no_transaction | some tx ↦ tx ]

module _ (p : Platform) (g : Gob) (e : Env) where
  unfoldable pub on_addr : Addr → Node p → Run (Node p)
  on_addr payload s =
      request_blocks p g e (record s { known_nodes = s.known_nodes ++ payload.addr_list })

  unfoldable pub handle_addr : Bytes → Node p → Run (Node p)
  unfolding payload_of
  handle_addr request s = do payload ← payload_of g.addr request; on_addr payload s

  -- what follows in `HandleBlock` when the block has been added: the next block in transit is
  -- requested, or the unspent outputs are rebuilt
  unfoldable pub after_block : Bytes → Node p → Run (Node p)
  after_block addr_from s = elim s.blocks_in_transit [
    | block_hash ∷ rest ↦ do
      s' ← send_get_data p g e addr_from (codes "block") block_hash s
      ok (record s' { blocks_in_transit = rest })
    | [] ↦ do
      indexed ← reindex p e.walk (e.utxo_order s.moment) s.chain
      ok (record s { chain = indexed; moment = s.moment + 1 })
  ]

  unfoldable pub on_block : BlockMessage → Node p → Run (Node p)
  unfolding decode_or_panic after_block
  on_block payload s = do
    block ← decode_or_panic p.block_codec payload.block
    longer ← add_block p s.chain block
    after_block payload.addr_from (record s { chain = longer })

  unfoldable pub handle_block : Bytes → Node p → Run (Node p)
  unfolding payload_of
  handle_block request s = do payload ← payload_of g.block request; on_block payload s

  -- the two branches of `HandleInv`
  unfoldable pub inv_blocks : Inv → Node p → Run (Node p)
  unfolding first_of
  inv_blocks payload s = do
    block_hash ← first_of payload.items
    s' ←
        send_get_data p g e payload.addr_from (codes "block") block_hash
          (record s { blocks_in_transit = payload.items })
    ok (record s' { blocks_in_transit = without block_hash s'.blocks_in_transit })

  unfoldable pub inv_tx : Inv → Node p → Run (Node p)
  unfolding first_of pooled
  inv_tx payload s = do
    tx_id ← first_of payload.items
    if is_nil (pooled s.memory_pool (hex_encode tx_id)).id
        then send_get_data p g e payload.addr_from (codes "tx") tx_id s
        else ok s

  unfoldable pub on_inv : Inv → Node p → Run (Node p)
  unfolding inv_blocks inv_tx
  on_inv payload s = do
    s' ← if bytes_equal payload.kind (codes "block") then inv_blocks payload s else ok s
    if bytes_equal payload.kind (codes "tx") then inv_tx payload s' else ok s'

  unfoldable pub handle_inv : Bytes → Node p → Run (Node p)
  unfolding payload_of
  handle_inv request s = do payload ← payload_of g.inv request; on_inv payload s

  unfoldable pub on_get_blocks : GetBlocks → Node p → Run (Node p)
  on_get_blocks payload s = do
    blocks ← get_block_hashes p e.walk s.chain
    send_inv p g e payload.addr_from (codes "block") blocks s

  unfoldable pub handle_get_blocks : Bytes → Node p → Run (Node p)
  unfolding payload_of
  handle_get_blocks request s = do
    payload ← payload_of g.get_blocks request
    on_get_blocks payload s

  -- the first branch of `HandleGetData`: without the block, nothing is sent
  unfoldable pub get_data_block : GetData → Node p → Run (Node p)
  get_data_block payload s = do
    found ← get_block p s.chain payload.id
    elim found [ none ↦ ok s | some block ↦ send_block p g e payload.addr_from block s ]

  unfoldable pub on_get_data : GetData → Node p → Run (Node p)
  unfolding get_data_block pooled
  on_get_data payload s = do
    s' ← if bytes_equal payload.kind (codes "block") then get_data_block payload s else ok s
    if bytes_equal payload.kind (codes "tx")
        then send_tx p g e payload.addr_from (pooled s'.memory_pool (hex_encode payload.id)) s'
        else ok s'

  unfoldable pub handle_get_data : Bytes → Node p → Run (Node p)
  unfolding payload_of
  handle_get_data request s = do payload ← payload_of g.get_data request; on_get_data payload s

  -- what `HandleTx` does when the transaction is in the pool: the first known node announces it,
  -- any other mines if it can
  unfoldable pub after_tx : Bytes → Bytes → Node p → Run (Node p)
  unfolding first_of
  after_tx addr_from tx_id s = do
    central ← first_of s.known_nodes
    if bytes_equal s.node_address central
        then announce p g e (λ node. bytes_equal node s.node_address || bytes_equal node addr_from)
            (codes "tx") tx_id s.known_nodes s
        else if leb 2 (length s.memory_pool) && not (is_nil s.mine_address)
        then mine_tx p g e e.rounds s
        else ok s

  unfoldable pub on_tx : TxMessage → Node p → Run (Node p)
  unfolding decode_or_panic after_tx
  on_tx payload s = do
    tx ← decode_or_panic p.transaction_codec payload.transaction
    after_tx payload.addr_from tx.id
        (record s { memory_pool = insert (hex_encode tx.id) tx s.memory_pool })

  unfoldable pub handle_tx : Bytes → Node p → Run (Node p)
  unfolding payload_of
  handle_tx request s = do payload ← payload_of g.tx request; on_tx payload s

  unfoldable pub on_version : Version → Node p → Run (Node p)
  unfolding node_is_known
  on_version payload s = do
    best_height ← get_best_height p s.chain
    s' ←
        if ltb_ℤ best_height payload.best_height
        then send_get_blocks p g e payload.addr_from s
        else if ltb_ℤ payload.best_height best_height
        then send_version p g e payload.addr_from s
        else ok s
    ok (
        if node_is_known payload.addr_from s'.known_nodes
        then s'
        else record s' { known_nodes = s'.known_nodes ++ payload.addr_from ∷ [] })

  unfoldable pub handle_version : Bytes → Node p → Run (Node p)
  unfolding payload_of
  handle_version request s = do payload ← payload_of g.version request; on_version payload s
