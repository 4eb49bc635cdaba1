-- ===== src/Network/Handshake.antt =====
-- The messages about versions, and nodes that are no longer known.
use golang_blockchain.Prelude.{
  In, bytes_equal, bytes_equal→eq, map, append-nil, ◌+◌, ◌≡◌, refl, sym, ◌∙◌, true, List, [], ◌∷◌,
  ◌++◌, Bytes, ℤ, ltb_ℤ, bytes_equal, Bool-cases, inl, inr, codes, if◌then◌else◌,
}
use golang_blockchain.Platform.{Platform, Codec}
use golang_blockchain.Run.{ok, ◌>>=◌, Returns}
use golang_blockchain.Chain.{get_best_height}
use golang_blockchain.Network.State.{Version, Gob, Env, Node, delivered, node_is_known}
use golang_blockchain.Network.Send.{
  request, dialled, send_data, send, send_get_blocks, send_version, protocol_version,
}
use golang_blockchain.Network.Handle.{on_version}
use golang_blockchain.Network.Serve.Framed.{
  Message, get_blocks, version, framed, handle_connection-framed,
}

node_is_known-In :
    (addr : Bytes) (nodes : List Bytes) → node_is_known addr nodes ≡ true → In addr nodes
unfolding node_is_known
node_is_known-In addr [] h = cc
node_is_known-In addr (node ∷ nodes) h = elim (Bool-cases (bytes_equal node addr)) [
  | inl same ↦ inl (bytes_equal→eq node addr same)
  | inr other ↦ inr (node_is_known-In addr nodes (rw other at h))
]

In-last : (addr : Bytes) (nodes : List Bytes) → In addr (nodes ++ addr ∷ [])
In-last addr [] = inl refl
In-last addr (node ∷ nodes) = inr (In-last addr nodes)

module _ (p : Platform) (g : Gob) (e : Env) where
  -- what a node with best height `own` sends to one that has announced `theirs`
  unfoldable pub answer : Bytes → ℤ → ℤ → List Message
  answer addr own theirs =
      if ltb_ℤ own theirs
      then get_blocks (record { addr_from = addr }) ∷ []
      else if ltb_ℤ theirs own
      then version (record { version = protocol_version; best_height = own; addr_from = addr }) ∷ []
      else []

  abbrev pub Carried : List Message → List Bytes → Type 0
  Carried [] [] = Unit
  Carried [] (req ∷ reqs) = ⊥
  Carried (m ∷ ms) [] = ⊥
  Carried (m ∷ ms) (req ∷ reqs) = (framed p g e m ≡ ok req) × Carried ms reqs

  -- `s` after one more request
  abbrev pub with_sent : Node p → Bytes → Bytes → Node p
  with_sent s addr req = record s { outbox = s.outbox ++ (addr, req) ∷ []; moment = s.moment + 1 }

  pub send_delivered :
      {A : Type 0} (cmd : Bytes) (c : Codec A) (payload : A) (addr req : Bytes) (s : Node p)
      → request cmd c payload ≡ ok req
      → e.dial s.moment addr ≡ delivered
      → send p g e cmd c payload addr s ≡ ok (with_sent s addr req)
  unfolding send send_data dialled
  send_delivered cmd c payload addr req s made up = rw (made, ◌>>=◌, up) refl

  send_version_delivered :
      (addr req : Bytes) (s : Node p) (own : ℤ)
      → get_best_height p s.chain ≡ ok own
      → request
          (codes "version")
          g.version
          (record { version = protocol_version; best_height = own; addr_from = s.node_address })
        ≡ ok req
      → e.dial s.moment addr ≡ delivered
      → send_version p g e addr s ≡ ok (with_sent s addr req)
  unfolding send_version
  send_version_delivered addr req s own best made up =
      rw (best, ◌>>=◌) (send_delivered (codes "version") g.version _ addr req s made up)

  -- the node `addr` is known
  abbrev learnt : Bytes → Node p → Node p
  learnt addr s =
      if node_is_known addr s.known_nodes
      then s
      else record s { known_nodes = s.known_nodes ++ addr ∷ [] }

  learnt-In : (addr : Bytes) (s : Node p) → In addr (learnt addr s).known_nodes
  learnt-In addr s = elim (Bool-cases (node_is_known addr s.known_nodes)) [
    | inl old ↦ rw old (node_is_known-In addr s.known_nodes old)
    | inr new ↦ rw new (In-last addr s.known_nodes)
  ]

  learnt-same :
      (addr : Bytes) (s : Node p)
      → ((learnt addr s).outbox ≡ s.outbox) × ((learnt addr s).chain ≡ s.chain)
  learnt-same addr s = elim (Bool-cases (node_is_known addr s.known_nodes)) [
    | inl old ↦ rw old (refl, refl)
    | inr new ↦ rw new (refl, refl)
  ]

  -- `HandleVersion`, where the best height of the node is known and a connection to the other node
  -- goes through, returns. It requests the blocks of a node that is higher, sends its own version
  -- to one that is lower, and sends nothing to one of the same height. Afterwards the
  -- other node is among those it knows, and its chain is as it was.
  pub on_version-answer :
      (m : Version) (s : Node p) (own : ℤ)
      → get_best_height p s.chain ≡ ok own
      → e.dial s.moment m.addr_from ≡ delivered
      → Returns (on_version p g e m s) (λ t.
        In m.addr_from t.known_nodes
        × (t.chain ≡ s.chain)
        × ((reqs : List Bytes) × Carried (answer s.node_address own m.best_height) reqs
            × (t.outbox ≡ s.outbox ++ map (λ req. (m.addr_from, req)) reqs)))
  unfolding on_version answer send_get_blocks framed
  on_version-answer m s own best up = elim (Bool-cases (ltb_ℤ own m.best_height)) [
    | inl lower ↦
        let ask = get_blocks (record { addr_from = s.node_address }) in
        let (req, made, _) = handle_connection-framed p g e ask s in
        let t = with_sent s m.addr_from req in
        (
          learnt m.addr_from t,
          rw (best, ◌>>=◌)
              (rw lower (
                rw
                  (
                    send_delivered (codes "getblocks") g.get_blocks _ m.addr_from req s made up,
                    ◌>>=◌,
                  )
                  refl)),
          (
            learnt-In m.addr_from t,
            (learnt-same m.addr_from t).1,
            (req ∷ [], rw lower (made, tt), (learnt-same m.addr_from t).0),
          ),
        )
    | inr not_lower ↦ elim (Bool-cases (ltb_ℤ m.best_height own)) [
      | inl higher ↦
          let tell = version (record {
            version = protocol_version;
            best_height = own;
            addr_from = s.node_address;
          }) in
          let (req, made, _) = handle_connection-framed p g e tell s in
          let t = with_sent s m.addr_from req in
          (
            learnt m.addr_from t,
            rw (best, ◌>>=◌)
                (rw (not_lower, higher)
                  (rw (send_version_delivered m.addr_from req s own best made up, ◌>>=◌) refl)),
            (
              learnt-In m.addr_from t,
              (learnt-same m.addr_from t).1,
              (req ∷ [], rw (not_lower, higher) (made, tt), (learnt-same m.addr_from t).0),
            ),
          )
      | inr equal ↦ (
        learnt m.addr_from s,
        rw (best, ◌>>=◌) (rw (not_lower, equal) refl),
        (
          learnt-In m.addr_from s,
          (learnt-same m.addr_from s).1,
          ([], rw (not_lower, equal) tt, (learnt-same m.addr_from s).0 ∙ sym (append-nil s.outbox)),
        ),
      )
    ]
  ]
