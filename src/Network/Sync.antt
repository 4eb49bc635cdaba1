-- ===== src/Network/Sync.antt =====
-- A node that is told of another node's blocks requests and adds them one by one.
use golang_blockchain.Prelude.{
  ℕ, suc, ◌+◌, ◌≡◌, refl, sym, ap, subst, ◌∙◌, some, List, [], ◌∷◌, ◌++◌, map, append_assoc,
  append-nil, Bytes, All, length, bytes_equal, bytes_equal_refl, bytes_equal_ne, ◌≢◌, codes, arith,
}
use golang_blockchain.Types.{Block}
use golang_blockchain.Platform.{Platform, decode_or_panic}
use golang_blockchain.Run.{Run, ok, ◌>>=◌, Returns, returns_through, ok_injective}
use golang_blockchain.Pow.{serialize}
use golang_blockchain.Chain.{BlockChain, add_block}
use golang_blockchain.Utxo.{reindex}
use golang_blockchain.Network.State.{Gob, Env, Node, delivered, without}
use golang_blockchain.Network.Send.{send_get_data}
use golang_blockchain.Network.Handle.{first_of, after_block, on_block, inv_blocks, on_inv}
use golang_blockchain.Network.Serve.{handle_connection, serve}
use golang_blockchain.Network.Serve.Framed.{
  Message, get_data, block, inv, framed, react, handle_connection-framed,
}
use golang_blockchain.Network.Handshake.{Carried, with_sent, send_delivered}

-- the calls of `AddBlock` for blocks in their order of arrival
unfoldable pub add_all : (p : Platform) → BlockChain p → List Block → Run (BlockChain p)
add_all p chain [] = ok chain
add_all p chain (b ∷ bs) = do longer ← add_block p chain b; add_all p longer bs

-- the message that brings a block, the one that lists blocks, and the one that asks for a block
abbrev pub brings : (p : Platform) → Bytes → Block → Message
brings p peer b = block (record { addr_from = peer; block = serialize p b })

abbrev pub lists : Bytes → List Bytes → Message
lists peer items = inv (record { addr_from = peer; kind = codes "block"; items = items })

abbrev pub asks : Bytes → Bytes → Message
asks own h = get_data (record { addr_from = own; kind = codes "block"; id = h })

without_none : (h : Bytes) (hs : List Bytes) → All (λ x. x ≢ h) hs → without h hs ≡ hs
unfolding without
without_none h [] d = refl
without_none h (x ∷ hs) (ne, d) = rw (bytes_equal_ne x h ne) (ap (λ l. x ∷ l) (without_none h hs d))

without-cons : (h : Bytes) (hs : List Bytes) → All (λ x. x ≢ h) hs → without h (h ∷ hs) ≡ hs
unfolding without
without-cons h hs d = rw bytes_equal_refl (without_none h hs d)

module _ (p : Platform) (g : Gob) (e : Env) (peer : Bytes)
    (up : (n : ℕ) → e.dial n peer ≡ delivered) where
  handle_framed :
      (m : Message) (req : Bytes) (s : Node p)
      → framed p g e m ≡ ok req
      → handle_connection p g e (some req) s ≡ react p g e m s
  handle_framed m req s made =
      let (req', made', h) = handle_connection-framed p g e m s in
      ap (λ r. handle_connection p g e (some r) s) (ok_injective (sym made ∙ made')) ∙ h

  -- What has happened when the node is up to date: nothing is in transit, the blocks in `asked`
  -- have been requested in this order, and the unspent outputs were rebuilt for `chain`.
  pub record IsSynced (s : Node p) (asked : List Bytes) (chain : BlockChain p) (t : Node p)
      : Type 0 where
    pub none_in_transit : t.blocks_in_transit ≡ []
    pub requests :
        (reqs : List Bytes) × Carried p g e (map (asks s.node_address) asked) reqs
        × (t.outbox ≡ s.outbox ++ map (λ req. (peer, req)) reqs)
    pub indexed : (n : ℕ) × (reindex p e.walk (e.utxo_order n) chain ≡ ok t.chain)

  ask_next :
      (h : Bytes) (s : Node p)
      → (req : Bytes) × (framed p g e (asks s.node_address h) ≡ ok req)
        × (send_get_data p g e peer (codes "block") h s ≡ ok (with_sent p g e s peer req))
  unfolding send_get_data framed
  ask_next h s =
      let (req, made, _) = handle_connection-framed p g e (asks s.node_address h) s in
      (req, made, send_delivered p g e (codes "getdata") g.get_data _ peer req s made (up s.moment))

  on_block_next :
      (b : Block) (s : Node p) (longer : BlockChain p) (h req : Bytes) (rest : List Bytes)
      → add_block p s.chain b ≡ ok longer
      → s.blocks_in_transit ≡ h ∷ rest
      → send_get_data p g e peer (codes "block") h (record s { chain = longer })
        ≡ ok (with_sent p g e (record s { chain = longer }) peer req)
      → react p g e (brings p peer b) s
        ≡ ok (record (with_sent p g e (record s { chain = longer }) peer req) {
          blocks_in_transit = rest;
        })
  unfolding react on_block after_block serialize decode_or_panic
  on_block_next b s longer h req rest added transit asked =
      rw (p.block_codec.decode-encode b, ◌>>=◌, added) (rw transit (rw (asked, ◌>>=◌) refl))

  on_block_last :
      (b : Block) (s : Node p) (longer indexed : BlockChain p)
      → add_block p s.chain b ≡ ok longer
      → s.blocks_in_transit ≡ []
      → reindex p e.walk (e.utxo_order s.moment) longer ≡ ok indexed
      → react p g e (brings p peer b) s
        ≡ ok (record s { blocks_in_transit = []; chain = indexed; moment = s.moment + 1 })
  unfolding react on_block after_block serialize decode_or_panic
  on_block_last b s longer indexed added transit rebuilt =
      rw (p.block_codec.decode-encode b, ◌>>=◌, added)
        (rw transit (
          rw (rebuilt, ◌>>=◌)
            (ap
              (λ (hs : List Bytes).
                ok (record s { blocks_in_transit = hs; chain = indexed; moment = s.moment + 1 }))
              transit)))

  -- one more request in front of those that followed it
  after_ask :
      (h : Bytes) (hs : List Bytes) (s : Node p) (ask : Bytes) (t end : Node p)
      (chain : BlockChain p)
      → framed p g e (asks s.node_address h) ≡ ok ask
      → t.node_address ≡ s.node_address
      → t.outbox ≡ s.outbox ++ (peer, ask) ∷ []
      → IsSynced t hs chain end
      → IsSynced s (h ∷ hs) chain end
  after_ask h hs s ask t end chain made own out synced =
      let (reqs, carried, outbox) = synced.requests in
      record {
        none_in_transit = synced.none_in_transit;
        requests = (
          ask ∷ reqs,
          (made, subst (λ a. Carried p g e (map (asks a) hs) reqs) own carried),
          outbox
              ∙ ap (λ l. l ++ map (λ req. (peer, req)) reqs) out
              ∙ append_assoc s.outbox ((peer, ask) ∷ []) (map (λ req. (peer, req)) reqs),
        );
        indexed = synced.indexed;
      }

  arrive :
      (hs : List Bytes) (bs : List Block) (reqs : List Bytes) (s : Node p) (chain : BlockChain p)
      → s.blocks_in_transit ≡ hs
      → length bs ≡ suc (length hs)
      → Carried p g e (map (brings p peer) bs) reqs
      → add_all p s.chain bs ≡ ok chain
      → ((n : ℕ) → Returns (reindex p e.walk (e.utxo_order n) chain) (λ _. Unit {0}))
      → Returns (serve p g e (map some reqs) s) (IsSynced s hs chain)
  unfolding serve add_all
  arrive hs [] reqs s chain transit size carried added rebuilds = absurd (omega (arith, size))
  arrive hs (b ∷ bs) [] s chain transit size carried added rebuilds = absurd carried
  arrive [] (b ∷ []) (req ∷ []) s chain transit size carried added rebuilds =
      let (longer, one, e') =
        returns_through (add_block p s.chain b) (λ c. add_all p c []) chain added in
      let same : longer ≡ chain = ok_injective e' in
      let (indexed, rebuilt, _) = rebuilds s.moment in
      let handled =
        handle_framed (brings p peer b) req s carried.0
        ∙ on_block_last b s chain indexed (one ∙ ap ok same) transit rebuilt in
      (
        record s { blocks_in_transit = []; chain = indexed; moment = s.moment + 1 },
        ap (λ r. r >>= serve p g e []) handled,
        record {
          none_in_transit = refl;
          requests = ([], tt, sym (append-nil s.outbox));
          indexed = (s.moment, rebuilt);
        },
      )
  arrive [] (b ∷ []) (req ∷ r ∷ reqs) s chain transit size carried added rebuilds = absurd carried.1
  arrive [] (b ∷ c ∷ bs) (req ∷ reqs) s chain transit size carried added rebuilds =
      absurd (omega (arith, size))
  arrive (h ∷ hs) (b ∷ bs) (req ∷ reqs) s chain transit size carried added rebuilds =
      let (longer, one, e') =
        returns_through (add_block p s.chain b) (λ c. add_all p c bs) chain added in
      let s' : Node p = record s { chain = longer } in
      let (ask, made, sent) = ask_next h s' in
      let t : Node p = record (with_sent p g e s' peer ask) { blocks_in_transit = hs } in
      let handled =
        handle_framed (brings p peer b) req s carried.0
        ∙ on_block_next b s longer h ask hs one transit sent in
      let (end, served, synced) =
        arrive hs bs reqs t chain refl (omega (arith, size)) carried.1 e' rebuilds in
      (
        end,
        ap (λ r. r >>= serve p g e (map some reqs)) handled ∙ served,
        after_ask h hs s ask t end chain made refl refl synced,
      )

  on_inv_blocks :
      (h req : Bytes) (hs : List Bytes) (s : Node p)
      → All (λ x. x ≢ h) hs
      → send_get_data p g e peer (codes "block") h (record s { blocks_in_transit = h ∷ hs })
        ≡ ok (with_sent p g e (record s { blocks_in_transit = h ∷ hs }) peer req)
      → react p g e (lists peer (h ∷ hs)) s
        ≡ ok (record (with_sent p g e s peer req) { blocks_in_transit = hs })
  unfolding react on_inv inv_blocks first_of bytes_equal
  on_inv_blocks h req hs s distinct asked =
      rw (asked, ◌>>=◌)
        (ap (λ (l : List Bytes). ok (record (with_sent p g e s peer req) { blocks_in_transit = l }))
          (without-cons h hs distinct))

  -- Let a node be told of the blocks with the hashes `h ∷ hs`, none of them twice the first, and
  -- then be sent as many blocks as it was told of. If `AddBlock` takes each of them in turn, and
  -- the unspent outputs of the chain that results can be rebuilt, then the node handles all these
  -- requests. It has requested each listed block once, in the order of the list; in the end
  -- nothing is in transit, and it has rebuilt the unspent outputs of the chain with all blocks.
  pub serve-IsSynced :
      (h : Bytes) (hs : List Bytes) (bs : List Block) (told : Bytes) (reqs : List Bytes)
      (s : Node p) (chain : BlockChain p)
      → All (λ x. x ≢ h) hs
      → length bs ≡ length (h ∷ hs)
      → framed p g e (lists peer (h ∷ hs)) ≡ ok told
      → Carried p g e (map (brings p peer) bs) reqs
      → add_all p s.chain bs ≡ ok chain
      → ((n : ℕ) → Returns (reindex p e.walk (e.utxo_order n) chain) (λ _. Unit {0}))
      → Returns (serve p g e (map some (told ∷ reqs)) s) (IsSynced s (h ∷ hs) chain)
  unfolding serve
  serve-IsSynced h hs bs told reqs s chain distinct size lists_all carried added rebuilds =
      let (ask, made, sent) = ask_next h (record s { blocks_in_transit = h ∷ hs }) in
      let t : Node p = record (with_sent p g e s peer ask) { blocks_in_transit = hs } in
      let (end, served, synced) =
        arrive hs bs reqs t chain refl (omega (arith, size)) carried added rebuilds in
      (
        end,
        ap (λ r. r >>= serve p g e (map some reqs))
              (handle_framed (lists peer (h ∷ hs)) told s lists_all
                ∙ on_inv_blocks h ask hs s distinct sent)
            ∙ served,
        after_ask h hs s ask t end chain made refl refl synced,
      )
