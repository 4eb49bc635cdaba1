-- ===== src/Tests/Nodes.antt =====
-- The theorems on nodes, for a node on the test platform.
use golang_blockchain.Prelude.{
  In, ◌≡◌, refl, ◌∙◌, true, false, some, List, [], ◌∷◌, ◌++◌, map, Bytes, lookup, insert,
  bytes_equal, pos, codes, inl,
}
use golang_blockchain.Words.Hex.{hex_encode}
use golang_blockchain.Types.{Transaction}
use golang_blockchain.Platform.{txn_get, decode_or_panic}
use golang_blockchain.Run.{ok, panic, index_out_of_range, ◌>>=◌, Returns}
use golang_blockchain.Chain.{BlockChain, lh, continue_block_chain}
use golang_blockchain.Chain.Walk.{IsChain, Stored}
use golang_blockchain.Chain.Growth.{HasTip, best_height-HasTip}
use golang_blockchain.Network.State.{
  TxMessage, Version, Gob, Env, Node, delivered, refused, first_node,
}
use golang_blockchain.Network.Handle.{on_tx, on_version, after_tx, first_of}
use golang_blockchain.Network.Serve.{handle_connection, start_server}
use golang_blockchain.Network.Serve.Framed.{
  Message, tx, get_data, framed, react, handle_connection-framed,
}
use golang_blockchain.Network.Pool.{IsSound}
use golang_blockchain.Network.Steps.{Reach, handled, start, later, Reach-IsSound}
use golang_blockchain.Network.Handshake.{Carried, answer, on_version-answer}
use golang_blockchain.Network.Alone.{start_server_alone}
use golang_blockchain.Network.Sync.{add_all}
use golang_blockchain.Network.Copied.{add_all-IsChain}
use golang_blockchain.Tests.Coder.{
  Coder, nat_coder, int_coder, pair_coder, list_coder, iso_coder, codec_of,
}
use golang_blockchain.Tests.Store.{non_empty}
use golang_blockchain.Tests.Toy.{toy}
use golang_blockchain.Tests.Examples.{first, transfer}
use golang_blockchain.Tests.Chains.{ledger, ledger-HasTip, second, fresh, two-ne-lh, ne_of}
use golang_blockchain.Tests.Payments.{purse, purse-IsChain}

pub bytes_coder : Coder Bytes
bytes_coder = list_coder nat_coder

abbrev pub gob : Gob
gob = record {
  addr = codec_of (
      iso_coder (list_coder bytes_coder) (λ l. record { addr_list = l }) (λ m. m.addr_list)
        (λ m. refl));
  block = codec_of (
      iso_coder (pair_coder bytes_coder bytes_coder) (λ q. record { addr_from = q.0; block = q.1 })
        (λ m. (m.addr_from, m.block)) (λ m. refl));
  get_blocks =
      codec_of
        (iso_coder bytes_coder (λ a. record { addr_from = a }) (λ m. m.addr_from) (λ m. refl));
  get_data = codec_of (
      iso_coder (pair_coder bytes_coder (pair_coder bytes_coder bytes_coder))
        (λ q. record { addr_from = q.0; kind = q.1.0; id = q.1.1 })
        (λ m. (m.addr_from, (m.kind, m.id))) (λ m. refl));
  inv = codec_of (
      iso_coder (pair_coder bytes_coder (pair_coder bytes_coder (list_coder bytes_coder)))
        (λ q. record { addr_from = q.0; kind = q.1.0; items = q.1.1 })
        (λ m. (m.addr_from, (m.kind, m.items))) (λ m. refl));
  tx = codec_of (
      iso_coder (pair_coder bytes_coder bytes_coder)
        (λ q. record { addr_from = q.0; transaction = q.1 }) (λ m. (m.addr_from, m.transaction))
        (λ m. refl));
  version = codec_of (
      iso_coder (pair_coder (pair_coder int_coder int_coder) bytes_coder)
        (λ q. record { version = q.0.0; best_height = q.0.1; addr_from = q.1 })
        (λ m. ((m.version, m.best_height), m.addr_from)) (λ m. refl));
}

-- surroundings in which every connection goes through, and in which none does
abbrev pub open_air : Env
open_air = record {
  dial = λ n addr. delivered;
  pool_order = λ n pool. pool;
  utxo_order = λ n m. m;
  now = λ n. pos n;
  walk = 1;
  rounds = 3;
}

abbrev pub cut_off : Env
cut_off = record open_air { dial = λ n addr. refused }

abbrev pub peer : Bytes
peer = codes "localhost:3000"

abbrev pub home : BlockChain toy → Node toy
home chain = record {
  node_address = codes "localhost:4000";
  mine_address = [];
  known_nodes = peer ∷ [];
  blocks_in_transit = [];
  memory_pool = [];
  chain = chain;
  outbox = [];
  moment = 0;
}

abbrev wants : Message
wants = get_data (record { addr_from = peer; kind = codes "block"; id = 1 ∷ [] })

handle_connection-framed_example : Returns (framed toy gob open_air wants) (λ req.
    handle_connection toy gob open_air (some req) (home ledger)
    ≡ react toy gob open_air wants (home ledger))
handle_connection-framed_example = handle_connection-framed toy gob open_air wants (home ledger)

abbrev with_transfer : Node toy
with_transfer = record (home ledger) { memory_pool = (hex_encode (8 ∷ []), transfer) ∷ [] }

with_transfer-IsSound : IsSound toy (codes "localhost:4000") [] with_transfer
with_transfer-IsSound = record { keyed = (refl, tt); own_address = refl; mine_address = refl }

abbrev ahead : Version
ahead = record { version = pos 1; best_height = pos 5; addr_from = peer }

on_version-answer_example : Returns (on_version toy gob open_air ahead (home ledger)) (λ t.
    In peer t.known_nodes
    × (t.chain ≡ ledger)
    × ((reqs : List Bytes) × Carried toy gob open_air
          (answer toy gob open_air (codes "localhost:4000") (pos 0) (pos 5))
          reqs
        × (t.outbox ≡ [] ++ map (λ req. (peer, req)) reqs)))
on_version-answer_example =
    on_version-answer toy gob open_air ahead (home ledger) (pos 0)
      (best_height-HasTip toy ledger first ledger-HasTip) refl

-- a transaction arrives at a node that does not mine
arrives : TxMessage
arrives = record { addr_from = peer; transaction = toy.transaction_codec.encode transfer }

transfer_pooled : on_tx toy gob open_air arrives (home ledger) ≡ ok with_transfer
unfolding arrives on_tx after_tx first_of decode_or_panic insert bytes_equal
transfer_pooled = rw (toy.transaction_codec.decode-encode transfer, ◌>>=◌) refl

with_transfer_reached : Reach toy gob (home ledger) with_transfer
unfolding react
with_transfer_reached =
    let (req, _, h) = handle_connection-framed toy gob open_air (tx arrives) (home ledger) in
    later start (handled open_air (some req) (h ∙ transfer_pooled))

Reach-IsSound_example : IsSound toy (codes "localhost:4000") [] with_transfer
Reach-IsSound_example =
    Reach-IsSound toy gob (codes "localhost:4000") []
      (record { keyed = tt; own_address = refl; mine_address = refl }) with_transfer_reached

ledger_opened : continue_block_chain toy (some ledger.database) ≡ ok ledger
unfolding continue_block_chain txn_get lookup bytes_equal
ledger_opened = refl

not_first : bytes_equal (codes "localhost:" ++ codes "4000") first_node ≡ false
unfolding bytes_equal
not_first = refl

start_server_alone_example :
    Returns (start_server toy gob cut_off true (some ledger.database) (codes "4000") []) (λ t.
      (m : TxMessage) (u : Transaction)
      → toy.transaction_codec.decode m.transaction ≡ some u
      → on_tx toy gob cut_off m t ≡ panic index_out_of_range)
start_server_alone_example =
    start_server_alone toy gob cut_off ledger.database (codes "4000") [] ledger (pos 0)
      ledger_opened (best_height-HasTip toy ledger first ledger-HasTip) not_first refl

pub first-Stored : Stored toy ledger.database (1 ∷ []) first
first-Stored = ledger-HasTip.at_tip

add_all-IsChain_example : Returns (add_all toy ledger (second ∷ first ∷ [])) (λ after.
    (after.last_hash ≡ 2 ∷ [])
    × HasTip toy after second
    × IsChain toy after.database after.last_hash (second ∷ first ∷ []))
unfolding non_empty bytes_equal
add_all-IsChain_example =
    add_all-IsChain toy ledger first second (first ∷ []) ledger-HasTip refl two-ne-lh fresh refl
      refl ((ne_of (1 ∷ []) lh refl, refl, inl first-Stored), tt)
      ((ne_of (1 ∷ []) (2 ∷ []) refl, tt), (tt, tt)) (refl, refl, refl)

pub purse-HasTip : HasTip toy purse first
unfolding lookup bytes_equal
purse-HasTip = record { at_lh = refl; at_tip = purse-IsChain.0 }
