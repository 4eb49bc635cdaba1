-- ===== src/Network/Serve/Framed.antt =====
-- The messages as the sending functions frame them, handed to `HandleConnection`.
use golang_blockchain.Prelude.{
  ℕ, ◌≤◌, ◌<◌, ltb, ◌≡◌, ◌≢◌, refl, sym, ap, ◌∙◌, Bool, true, not, ◌&&◌, ◌==◌, some, [], ◌∷◌, ◌++◌,
  Bytes, All, length, take, drop, length-append, take-append_self, drop-append_self, append_assoc,
  leb, codes, bytes_equal, arith,
}
use golang_blockchain.Platform.{Platform, Codec, decode_or_panic}
use golang_blockchain.Run.{Run, ok, or_panic, decode_failed, ◌>>=◌, Returns}
use golang_blockchain.Wire.{command_length, no_command, bytes_to_cmd}
use golang_blockchain.Wire.Framing.{bytes_to_cmd-cmd_to_bytes}
use golang_blockchain.Network.State.{
  Addr, BlockMessage, GetBlocks, GetData, Inv, TxMessage, Version, Gob, Env, Node,
}
use golang_blockchain.Network.Send.{request}
use golang_blockchain.Network.Handle.{
  payload_of, on_addr, on_block, on_inv, on_get_blocks, on_get_data, on_tx, on_version, handle_addr,
  handle_block, handle_inv, handle_get_blocks, handle_get_data, handle_tx, handle_version,
}
use golang_blockchain.Network.Serve.{command_bytes, dispatch, handle_connection}

-- a command of ASCII characters, none of them 0
is_plain : Bytes → Bool
is_plain [] = true
is_plain (b ∷ bs) = not (b == 0) && ltb b 128 && is_plain bs

is_plain→All : (bs : Bytes) → is_plain bs ≡ true → All (λ b. b ≢ 0) bs
unfolding is_plain
is_plain→All [] h = tt
is_plain→All (b ∷ bs) h = (ground (arith, h), is_plain→All bs (ground (arith, h)))

is_plain-ascii : (bs : Bytes) → is_plain bs ≡ true → All (λ b. b < 128) bs
unfolding is_plain
is_plain-ascii [] h = tt
is_plain-ascii (b ∷ bs) h = (ground (arith, h), is_plain-ascii bs (ground (arith, h)))

-- a message of the protocol
pub data Message : Type 0 where
  addr : Addr → Message
  block : BlockMessage → Message
  inv : Inv → Message
  get_blocks : GetBlocks → Message
  get_data : GetData → Message
  tx : TxMessage → Message
  version : Version → Message

-- A framed request: `payload_of` finds the payload, and the command is read back.
pub request-Returns :
    {A : Type 0} (cmd : Bytes) (c : Codec A) (payload : A)
    → length cmd ≤ command_length
    → All (λ b. b ≢ 0) cmd
    → All (λ b. b < 128) cmd
    → Returns
        (request cmd c payload)
        (λ req. (payload_of c req ≡ ok payload) × (bytes_to_cmd (command_bytes req) ≡ cmd))
unfolding request payload_of decode_or_panic command_bytes
request-Returns cmd c payload short nonzero ascii =
    let raw = c.encode payload in
    let (head, e, (size, _, back)) = bytes_to_cmd-cmd_to_bytes cmd raw [] short nonzero ascii in
    let fits : leb command_length (length (head ++ raw)) ≡ true =
      ground (arith, size, length-append head raw) in
    let behind : drop command_length (head ++ raw) ≡ raw =
      ap (λ (n : ℕ). drop n (head ++ raw)) (sym size) ∙ drop-append_self head raw in
    let front : take command_length ((head ++ raw) ++ no_command) ≡ head =
      ap (take command_length) (append_assoc head raw no_command)
      ∙ ap (λ (n : ℕ). take n (head ++ (raw ++ no_command))) (sym size)
      ∙ take-append_self head (raw ++ no_command) in
    (
      head ++ raw,
      rw (e, ◌>>=◌) refl,
      (
        rw (fits, behind) (ap (λ o. or_panic decode_failed o) (c.decode-encode payload)),
        ap bytes_to_cmd front ∙ back,
      ),
    )

module _ (p : Platform) (g : Gob) (e : Env) where
  -- the request that carries a message
  unfoldable pub framed : Message → Run Bytes
  framed (addr m) = request (codes "addr") g.addr m
  framed (block m) = request (codes "block") g.block m
  framed (inv m) = request (codes "inv") g.inv m
  framed (get_blocks m) = request (codes "getblocks") g.get_blocks m
  framed (get_data m) = request (codes "getdata") g.get_data m
  framed (tx m) = request (codes "tx") g.tx m
  framed (version m) = request (codes "version") g.version m

  -- what the protocol answers to a message
  unfoldable pub react : Message → Node p → Run (Node p)
  react (addr m) = on_addr p g e m
  react (block m) = on_block p g e m
  react (inv m) = on_inv p g e m
  react (get_blocks m) = on_get_blocks p g e m
  react (get_data m) = on_get_data p g e m
  react (tx m) = on_tx p g e m
  react (version m) = on_version p g e m

  carried :
      {A : Type 0} (cmd : Bytes) (c : Codec A) (payload : A) (s : Node p)
      (on : A → Node p → Run (Node p))
      → length cmd ≤ command_length
      → is_plain cmd ≡ true
      → ((req : Bytes) → dispatch p g e cmd req s ≡ (payload_of c req >>= λ x. on x s))
      → Returns (request cmd c payload) (λ req. handle_connection p g e (some req) s ≡ on payload s)
  unfolding handle_connection
  carried cmd c payload s on short plain branch =
      let (req, framed_as, (at, back)) =
        request-Returns cmd c payload short (is_plain→All cmd plain) (is_plain-ascii cmd plain) in
      (
        req,
        framed_as,
        ap (λ x. dispatch p g e x req s) back ∙ branch req ∙ ap (λ r. r >>= λ x. on x s) at,
      )

  -- Every message has a request that carries it, and `HandleConnection` on that request does what
  -- the handler of that kind of message does with the payload that was sent.
  pub handle_connection-framed :
      (m : Message) (s : Node p)
      → Returns (framed m) (λ req. handle_connection p g e (some req) s ≡ react m s)
  unfolding framed react dispatch bytes_equal is_plain handle_addr handle_block handle_inv
      handle_get_blocks handle_get_data handle_tx handle_version
  handle_connection-framed (addr m) s =
      carried (codes "addr") g.addr m s (on_addr p g e) (omega arith) refl (λ req. refl)
  handle_connection-framed (block m) s =
      carried (codes "block") g.block m s (on_block p g e) (omega arith) refl (λ req. refl)
  handle_connection-framed (inv m) s =
      carried (codes "inv") g.inv m s (on_inv p g e) (omega arith) refl (λ req. refl)
  handle_connection-framed (get_blocks m) s =
      carried (codes "getblocks") g.get_blocks m s (on_get_blocks p g e) (omega arith) refl
        (λ req. refl)
  handle_connection-framed (get_data m) s =
      carried (codes "getdata") g.get_data m s (on_get_data p g e) (omega arith) refl (λ req. refl)
  handle_connection-framed (tx m) s =
      carried (codes "tx") g.tx m s (on_tx p g e) (omega arith) refl (λ req. refl)
  handle_connection-framed (version m) s =
      carried (codes "version") g.version m s (on_version p g e) (omega arith) refl (λ req. refl)
