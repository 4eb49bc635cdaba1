-- ===== src/Network/Steps.antt =====
-- The states that a node reaches by handling requests, whatever its surroundings decide.
use golang_blockchain.Prelude.{◌≡◌, Option, none, some, Bytes, bytes_equal, codes, if◌then◌else◌}
use golang_blockchain.Platform.{Platform, Codec}
use golang_blockchain.Run.{Run, ok, ◌>>=◌, Ensures, Ensures-ok, Ensures-after, Ensures-if}
use golang_blockchain.Wire.{bytes_to_cmd}
use golang_blockchain.Network.State.{Gob, Env, Node}
use golang_blockchain.Network.Handle.{
  payload_of, on_addr, on_block, on_inv, on_get_blocks, on_get_data, on_tx, on_version, handle_addr,
  handle_block, handle_inv, handle_get_blocks, handle_get_data, handle_tx, handle_version,
}
use golang_blockchain.Network.Serve.{command_bytes, dispatch, handle_connection}
use golang_blockchain.Network.Pool.{IsSound}
use golang_blockchain.Network.Handled.{
  on_addr-IsSound, on_block-IsSound, on_inv-IsSound, on_get_blocks-IsSound, on_get_data-IsSound,
  on_tx-IsSound, on_version-IsSound,
}

module _ (p : Platform) (g : Gob) where
  -- One request, handled under some behaviour of the surroundings.
  pub data Step (s t : Node p) : Type 0 where
    handled : (e : Env) (conn : Option Bytes) → handle_connection p g e conn s ≡ ok t → Step s t

  pub data Reach (s : Node p) : Node p → Type 0 where
    start : Reach s s
    later : {t u : Node p} → Reach s t → Step t u → Reach s u

  module _ (e : Env) (own miner : Bytes) where
    abbrev Holds : Run (Node p) → Type 0
    Holds = Ensures (IsSound p own miner)

    behind :
        {A : Type 0} (c : Codec A) (on : A → Node p → Run (Node p)) (req : Bytes) (s : Node p)
        → ((m : A) → Holds (on m s))
        → Holds (payload_of c req >>= λ m. on m s)
    behind c on req s h = Ensures-after (IsSound p own miner) (payload_of c req) (λ m. on m s) h

    dispatch-IsSound :
        (command req : Bytes) (s : Node p)
        → IsSound p own miner s
        → Holds (dispatch p g e command req s)
    unfolding dispatch handle_addr handle_block handle_inv handle_get_blocks handle_get_data
        handle_tx handle_version
    dispatch-IsSound command req s h =
        either (codes "addr")
          (behind g.addr (on_addr p g e) req s (λ m. on_addr-IsSound p g e own miner m s h))
          (either (codes "block")
            (behind g.block (on_block p g e) req s (λ m. on_block-IsSound p g e own miner m s h))
            (either (codes "inv")
              (behind g.inv (on_inv p g e) req s (λ m. on_inv-IsSound p g e own miner m s h))
              (either (codes "getblocks")
                (behind g.get_blocks (on_get_blocks p g e) req s
                  (λ m. on_get_blocks-IsSound p g e own miner m s h))
                (either (codes "getdata")
                  (behind g.get_data (on_get_data p g e) req s
                    (λ m. on_get_data-IsSound p g e own miner m s h))
                  (either (codes "tx")
                    (behind g.tx (on_tx p g e) req s (λ m. on_tx-IsSound p g e own miner m s h))
                    (either (codes "version")
                      (behind g.version (on_version p g e) req s
                        (λ m. on_version-IsSound p g e own miner m s h))
                      (Ensures-ok (IsSound p own miner) s h)))))))
      where
        either :
            (name : Bytes) {x y : Run (Node p)}
            → Holds x
            → Holds y
            → Holds (if bytes_equal command name then x else y)
        either name {x} {y} hx hy =
            Ensures-if (IsSound p own miner) (bytes_equal command name) x y hx hy

  Step-IsSound :
      {s t : Node p} (own miner : Bytes) → Step s t → IsSound p own miner s → IsSound p own miner t
  unfolding handle_connection
  Step-IsSound {s} {t} own miner (handled e none done) h = cc
  Step-IsSound {s} {t} own miner (handled e (some req) done) h =
      dispatch-IsSound e own miner (bytes_to_cmd (command_bytes req)) req s h t done

  -- In every state that a node reaches by handling any requests, each transaction of the memory
  -- pool stands under the hex form of its ID, if this is so in the first state; and the node's
  -- own address and its reward address are those of the first state.
  pub Reach-IsSound :
      {s t : Node p} (own miner : Bytes) → IsSound p own miner s → Reach s t → IsSound p own miner t
  Reach-IsSound own miner h start = h
  Reach-IsSound own miner h (later r st) = Step-IsSound own miner st (Reach-IsSound own miner h r)
