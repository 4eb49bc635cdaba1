-- ===== src/Network/Joined.antt =====
-- A node that is told of the chain of another node ends with that chain.
use golang_blockchain.Prelude.{
  ℕ, ◌≡◌, ◌≢◌, sym, subst, ◌∙◌, true, some, none, List, [], ◌∷◌, ◌++◌, map, All, Bytes, length-map,
  ltb_ℤ,
}
use golang_blockchain.Types.{Block}
use golang_blockchain.Platform.{Platform}
use golang_blockchain.Run.{ok, Returns}
use golang_blockchain.Chain.{BlockChain, lh}
use golang_blockchain.Chain.Walk.{IsChain}
use golang_blockchain.Chain.Growth.{HasTip}
use golang_blockchain.Utxo.{reindex}
use golang_blockchain.Utxo.Kept.{reindex-Kept}
use golang_blockchain.Utxo.Reindexed.{Outside, IsChain-cleared}
use golang_blockchain.Network.State.{Gob, Env, Node, delivered}
use golang_blockchain.Network.Serve.{serve}
use golang_blockchain.Network.Serve.Framed.{framed}
use golang_blockchain.Network.Handshake.{Carried}
use golang_blockchain.Network.Sync.{add_all, brings, lists, asks, serve-IsSynced}
use golang_blockchain.Network.Copied.{AreApart, IsLinked, IsReady, add_all-IsChain}

abbrev pub hashes : List Block → List Bytes
hashes bs = map (λ b. b.hash) bs

All-hashes : (h : Bytes) (bs : List Block) → All (λ c. c.hash ≢ h) bs → All (λ x. x ≢ h) (hashes bs)
All-hashes h [] a = tt
All-hashes h (b ∷ bs) (ne, a) = (ne, All-hashes h bs a)

module _ (p : Platform) (g : Gob) (e : Env) (peer : Bytes)
    (up : (n : ℕ) → e.dial n peer ≡ delivered) where
  open p.badger use {get, accepts}

  -- What a node has done that has taken over the blocks of its peer's chain: it has requested each
  -- of them once, in their order, and none is in transit; its last hash is that of their first,
  -- and from there its database holds all of them.
  pub record HasJoined (s : Node p) (b : Block) (bs : List Block) (t : Node p) : Type 0 where
    pub requests :
        (reqs : List Bytes) × Carried p g e (map (asks s.node_address) (hashes (b ∷ bs))) reqs
        × (t.outbox ≡ s.outbox ++ map (λ req. (peer, req)) reqs)
    pub none_in_transit : t.blocks_in_transit ≡ []
    pub last_hash_is : t.chain.last_hash ≡ b.hash
    pub holds : IsChain p t.chain.database b.hash (b ∷ bs)

  -- Let a node have a last block, and let its peer have a higher chain of linked blocks with
  -- different hashes, none of them under the prefix of the unspent outputs. Let the peer's last
  -- block be new, and each of the others no higher, and new or stored already. When the peer lists
  -- the hashes of these blocks, and then sends the blocks in this order, over connections that go
  -- through, and the unspent outputs of the chain that results can be rebuilt, then the node
  -- handles all of these requests, has requested each block once, and ends with the peer's chain
  -- as its own.
  pub serve-HasJoined :
      (s : Node p) (tip b : Block) (bs : List Block) (told : Bytes) (reqs : List Bytes)
      → HasTip p s.chain tip
      → accepts lh ≡ true
      → b.hash ≢ lh
      → get s.chain.database b.hash ≡ none
      → accepts b.hash ≡ true
      → ltb_ℤ tip.height b.height ≡ true
      → All (IsReady p s.chain.database b) bs
      → AreApart (b ∷ bs)
      → IsLinked (b ∷ bs)
      → Outside p b.hash (b ∷ bs)
      → framed p g e (lists peer (hashes (b ∷ bs))) ≡ ok told
      → Carried p g e (map (brings p peer) (b ∷ bs)) reqs
      → ((chain : BlockChain p) (n : ℕ)
          → add_all p s.chain (b ∷ bs) ≡ ok chain
          → Returns (reindex p e.walk (e.utxo_order n) chain) (λ _. Unit {0}))
      → Returns (serve p g e (map some (told ∷ reqs)) s) (HasJoined s b bs)
  serve-HasJoined s tip b bs told reqs h fits_lh ne fresh fits high ready apart linked outside
        listed carried rebuilds =
      let (chain, added, (last, _, whole)) =
        add_all-IsChain p s.chain tip b bs h fits_lh ne fresh fits high ready apart linked in
      let (t, served, synced) =
        serve-IsSynced p g e peer up b.hash (hashes bs) (b ∷ bs) told reqs s chain
          (All-hashes b.hash bs apart.0) (sym (length-map (b ∷ bs) (λ (c : Block). c.hash))) listed
          carried added (λ n. rebuilds chain n added) in
      let (n, rebuilt) = synced.indexed in
      let (same_last, kept) = reindex-Kept p e.walk (e.utxo_order n) chain t.chain rebuilt in
      (
        t,
        served,
        record {
          requests = synced.requests;
          none_in_transit = synced.none_in_transit;
          last_hash_is = same_last ∙ last;
          holds =
              IsChain-cleared p chain.database t.chain.database b.hash (b ∷ bs) kept outside
                (subst (λ k. IsChain p chain.database k (b ∷ bs)) last whole);
        },
      )
