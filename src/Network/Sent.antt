-- ===== src/Network/Sent.antt =====
-- Sending changes the known nodes, the outbox and the moment of a node, and nothing else: what
-- does not depend on these still holds.
use golang_blockchain.Prelude.{ℕ, Bool, List, [], ◌∷◌, Bytes, codes, if◌then◌else◌}
use golang_blockchain.Platform.{Platform, Codec}
use golang_blockchain.Run.{ok, Ensures, Ensures-ok, Ensures->>=, Ensures-after, Ensures-if}
use golang_blockchain.Network.State.{Gob, Env, Node, Dial, delivered, refused, broken}
use golang_blockchain.Network.Send.{
  request, dialled, send_data, send, send_inv, send_get_blocks, announce, request_blocks_from,
}

-- `P` does not depend on the known nodes, the outbox and the moment
abbrev pub IsLasting : (p : Platform) → (Node p → Type 0) → Type 0
IsLasting p P =
    (s : Node p) (nodes : List Bytes) (outbox : List (Bytes × Bytes)) (n : ℕ)
    → P s
    → P (record s { known_nodes = nodes; outbox = outbox; moment = n })

module _ (p : Platform) (g : Gob) (e : Env) (P : Node p → Type 0) (lasting : IsLasting p P) where
  dialled-keeps :
      (d : Dial) (addr message : Bytes) (s : Node p)
      → P s
      → Ensures P (dialled p g e d addr message s)
  unfolding dialled
  dialled-keeps delivered addr message s h = Ensures-ok P _ (lasting s s.known_nodes _ _ h)
  dialled-keeps refused addr message s h = Ensures-ok P _ (lasting s _ s.outbox _ h)
  dialled-keeps broken addr message s h = λ t q. cc

  pub send-keeps :
      {A : Type 0} (cmd : Bytes) (c : Codec A) (payload : A) (addr : Bytes) (s : Node p)
      → P s
      → Ensures P (send p g e cmd c payload addr s)
  unfolding send
  send-keeps cmd c payload addr s h =
      Ensures-after P (request cmd c payload) (λ message. send_data p g e addr message s)
        (λ message. unfold send_data in dialled-keeps (e.dial s.moment addr) addr message s h)

  pub announce-keeps :
      (skip : Bytes → Bool) (kind id : Bytes) (nodes : List Bytes) (s : Node p)
      → P s
      → Ensures P (announce p g e skip kind id nodes s)
  unfolding announce send_inv
  announce-keeps skip kind id [] s h = Ensures-ok P s h
  announce-keeps skip kind id (node ∷ nodes) s h =
      Ensures->>= P P (if skip node then ok s else send_inv p g e node kind (id ∷ []) s)
        (announce p g e skip kind id nodes)
        (Ensures-if P (skip node) _ _ (Ensures-ok P s h)
          (send-keeps (codes "inv") g.inv _ node s h))
        (λ s'. announce-keeps skip kind id nodes s')

  pub request_blocks_from-keeps :
      (nodes : List Bytes) (s : Node p) → P s → Ensures P (request_blocks_from p g e nodes s)
  unfolding request_blocks_from send_get_blocks
  request_blocks_from-keeps [] s h = Ensures-ok P s h
  request_blocks_from-keeps (node ∷ nodes) s h =
      Ensures->>= P P (send_get_blocks p g e node s) (request_blocks_from p g e nodes)
        (send-keeps (codes "getblocks") g.get_blocks _ node s h)
        (λ s'. request_blocks_from-keeps nodes s')
