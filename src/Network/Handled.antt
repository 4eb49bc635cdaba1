-- ===== src/Network/Handled.antt =====
-- Each handler of a node keeps what `IsSound` says.
use golang_blockchain.Prelude.{
  ℕ, ◌+◌, Option, none, some, List, [], ◌∷◌, ◌++◌, Bytes, ltb_ℤ, bytes_equal, codes, Bool-cases,
  inl, inr, if◌then◌else◌,
}
use golang_blockchain.Words.Hex.{hex_encode}
use golang_blockchain.Types.{Block, is_nil}
use golang_blockchain.Platform.{Platform, decode_or_panic}
use golang_blockchain.Run.{
  Run, ok, ◌>>=◌, Ensures, Ensures-ok, Ensures->>=, Ensures-after, Ensures-if,
}
use golang_blockchain.Chain.{BlockChain, add_block, get_block, get_block_hashes, get_best_height}
use golang_blockchain.Utxo.{reindex}
use golang_blockchain.Network.State.{
  Addr, BlockMessage, GetBlocks, GetData, Inv, TxMessage, Version, Gob, Env, Node, node_is_known,
}
use golang_blockchain.Network.Send.{
  send_inv, send_get_data, send_get_blocks, send_block, send_tx, send_version, request_blocks,
}
use golang_blockchain.Network.Handle.{
  first_of, pooled, after_block, inv_blocks, inv_tx, get_data_block, after_tx, on_addr, on_block,
  on_inv, on_get_blocks, on_get_data, on_tx, on_version,
}
use golang_blockchain.Network.Sent.{send-keeps, announce-keeps, request_blocks_from-keeps}
use golang_blockchain.Network.Pool.{IsSound, insert-Keyed, IsSound-IsLasting, mine_tx-IsSound}

module _ (p : Platform) (g : Gob) (e : Env) (own miner : Bytes) where
  abbrev Sound : Node p → Type 0
  Sound = IsSound p own miner

  abbrev Holds : Run (Node p) → Type 0
  Holds = Ensures Sound

  -- Variables other than the pool and the addresses may change.
  moved :
      (s : Node p) (nodes transit : List Bytes) (chain : BlockChain p)
      (outbox : List (Bytes × Bytes)) (n : ℕ)
      → Sound s
      → Sound (record s {
        known_nodes = nodes;
        blocks_in_transit = transit;
        chain = chain;
        outbox = outbox;
        moment = n;
      })
  moved s nodes transit chain outbox n h = record {
    keyed = h.keyed;
    own_address = h.own_address;
    mine_address = h.mine_address;
  }

  pub on_addr-IsSound : (m : Addr) (s : Node p) → Sound s → Holds (on_addr p g e m s)
  unfolding on_addr request_blocks
  on_addr-IsSound m s h =
      request_blocks_from-keeps p g e Sound (IsSound-IsLasting p own miner) _ _
        (moved s _ _ _ _ _ h)

  request_data-IsSound :
      (addr kind id : Bytes) (s : Node p) → Sound s → Holds (send_get_data p g e addr kind id s)
  unfolding send_get_data
  request_data-IsSound addr kind id s h =
      send-keeps p g e Sound (IsSound-IsLasting p own miner) (codes "getdata") g.get_data _ addr s h

  after_block-IsSound : (addr : Bytes) (s : Node p) → Sound s → Holds (after_block p g e addr s)
  unfolding after_block
  after_block-IsSound addr s h = go s.blocks_in_transit
    where
      go :
          (transit : List Bytes)
          → Holds (elim transit [
            | block_hash ∷ rest ↦ do
              s' ← send_get_data p g e addr (codes "block") block_hash s
              ok (record s' { blocks_in_transit = rest })
            | [] ↦ do
              indexed ← reindex p e.walk (e.utxo_order s.moment) s.chain
              ok (record s { chain = indexed; moment = s.moment + 1 })
          ])
      go (block_hash ∷ rest) =
          Ensures->>= Sound Sound (send_get_data p g e addr (codes "block") block_hash s) _
            (request_data-IsSound addr (codes "block") block_hash s h)
            (λ s' h'. Ensures-ok Sound _ (moved s' _ _ _ _ _ h'))
      go [] =
          Ensures-after Sound (reindex p e.walk (e.utxo_order s.moment) s.chain) _
            (λ indexed. Ensures-ok Sound _ (moved s _ _ _ _ _ h))

  pub on_block-IsSound : (m : BlockMessage) (s : Node p) → Sound s → Holds (on_block p g e m s)
  unfolding on_block
  on_block-IsSound m s h = Ensures-after Sound (decode_or_panic p.block_codec m.block) _ (λ block.
      Ensures-after Sound (add_block p s.chain block) _
        (λ longer. after_block-IsSound m.addr_from _ (moved s _ _ _ _ _ h)))

  inv_blocks-IsSound : (m : Inv) (s : Node p) → Sound s → Holds (inv_blocks p g e m s)
  unfolding inv_blocks
  inv_blocks-IsSound m s h = Ensures-after Sound (first_of m.items) _ (λ block_hash.
      Ensures->>= Sound Sound
        (send_get_data p g e m.addr_from (codes "block") block_hash
          (record s { blocks_in_transit = m.items }))
        _ (request_data-IsSound m.addr_from (codes "block") block_hash _ (moved s _ _ _ _ _ h))
        (λ s' h'. Ensures-ok Sound _ (moved s' _ _ _ _ _ h')))

  inv_tx-IsSound : (m : Inv) (s : Node p) → Sound s → Holds (inv_tx p g e m s)
  unfolding inv_tx
  inv_tx-IsSound m s h = Ensures-after Sound (first_of m.items) _ (λ tx_id.
      Ensures-if Sound (is_nil (pooled s.memory_pool (hex_encode tx_id)).id) _ _
        (request_data-IsSound m.addr_from (codes "tx") tx_id s h) (Ensures-ok Sound s h))

  pub on_inv-IsSound : (m : Inv) (s : Node p) → Sound s → Holds (on_inv p g e m s)
  unfolding on_inv
  on_inv-IsSound m s h =
      Ensures->>= Sound Sound
        (if bytes_equal m.kind (codes "block") then inv_blocks p g e m s else ok s) _
        (Ensures-if Sound (bytes_equal m.kind (codes "block")) _ _ (inv_blocks-IsSound m s h)
          (Ensures-ok Sound s h))
        (λ s' h'.
          Ensures-if Sound (bytes_equal m.kind (codes "tx")) _ _ (inv_tx-IsSound m s' h')
            (Ensures-ok Sound s' h'))

  pub on_get_blocks-IsSound :
      (m : GetBlocks) (s : Node p) → Sound s → Holds (on_get_blocks p g e m s)
  unfolding on_get_blocks send_inv
  on_get_blocks-IsSound m s h = Ensures-after Sound (get_block_hashes p e.walk s.chain) _ (λ blocks.
      send-keeps p g e Sound (IsSound-IsLasting p own miner) (codes "inv") g.inv _ m.addr_from s h)

  get_data_block-IsSound : (m : GetData) (s : Node p) → Sound s → Holds (get_data_block p g e m s)
  unfolding get_data_block send_block
  get_data_block-IsSound m s h =
      Ensures-after Sound (get_block p s.chain m.id) _ (λ found. go found)
    where
      go :
          (found : Option Block)
          → Holds (elim found [ none ↦ ok s | some block ↦ send_block p g e m.addr_from block s ])
      go none = Ensures-ok Sound s h
      go (some block) =
          send-keeps p g e Sound (IsSound-IsLasting p own miner) (codes "block") g.block _
            m.addr_from s h

  pub on_get_data-IsSound : (m : GetData) (s : Node p) → Sound s → Holds (on_get_data p g e m s)
  unfolding on_get_data send_tx
  on_get_data-IsSound m s h =
      Ensures->>= Sound Sound
        (if bytes_equal m.kind (codes "block") then get_data_block p g e m s else ok s) _
        (Ensures-if Sound (bytes_equal m.kind (codes "block")) _ _ (get_data_block-IsSound m s h)
          (Ensures-ok Sound s h))
        (λ s' h'.
          Ensures-if Sound (bytes_equal m.kind (codes "tx")) _ _
            (send-keeps p g e Sound (IsSound-IsLasting p own miner) (codes "tx") g.tx _ m.addr_from
              s' h')
            (Ensures-ok Sound s' h'))

  after_tx-IsSound : (addr id : Bytes) (s : Node p) → Sound s → Holds (after_tx p g e addr id s)
  unfolding after_tx
  after_tx-IsSound addr id s h = Ensures-after Sound (first_of s.known_nodes) _ (λ central.
      Ensures-if Sound (bytes_equal s.node_address central) _ _
        (announce-keeps p g e Sound (IsSound-IsLasting p own miner) _ _ _ _ s h)
        (Ensures-if Sound _ _ _ (mine_tx-IsSound p g e own miner e.rounds s h)
          (Ensures-ok Sound s h)))

  pub on_tx-IsSound : (m : TxMessage) (s : Node p) → Sound s → Holds (on_tx p g e m s)
  unfolding on_tx
  on_tx-IsSound m s h =
      Ensures-after Sound (decode_or_panic p.transaction_codec m.transaction) _ (λ tx.
        after_tx-IsSound m.addr_from tx.id _ (record {
          keyed = insert-Keyed tx s.memory_pool h.keyed;
          own_address = h.own_address;
          mine_address = h.mine_address;
        }))

  learn-IsSound :
      (addr : Bytes) (s : Node p)
      → Sound s
      → Sound (
          if node_is_known addr s.known_nodes
          then s
          else record s { known_nodes = s.known_nodes ++ addr ∷ [] })
  learn-IsSound addr s h = elim (Bool-cases (node_is_known addr s.known_nodes)) [
    | inl old ↦ rw old h
    | inr new ↦ rw new (moved s _ _ _ _ _ h)
  ]

  pub on_version-IsSound : (m : Version) (s : Node p) → Sound s → Holds (on_version p g e m s)
  unfolding on_version send_get_blocks send_version
  on_version-IsSound m s h = Ensures-after Sound (get_best_height p s.chain) _ (λ best.
      Ensures->>= Sound Sound _ _
        (Ensures-if Sound (ltb_ℤ best m.best_height) _ _
          (send-keeps p g e Sound (IsSound-IsLasting p own miner) (codes "getblocks") g.get_blocks _
            m.addr_from s h)
          (Ensures-if Sound (ltb_ℤ m.best_height best) _ _
            (Ensures-after Sound (get_best_height p s.chain) _ (λ again.
              send-keeps p g e Sound (IsSound-IsLasting p own miner) (codes "version") g.version _
                m.addr_from s h))
            (Ensures-ok Sound s h)))
        (λ s' h'. Ensures-ok Sound _ (learn-IsSound m.addr_from s' h')))
