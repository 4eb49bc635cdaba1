-- ===== src/Tests/Joining.antt =====
-- The theorem on a node that takes over its peer's chain, where the peer is one block ahead.
use golang_blockchain.Prelude.{
  ℕ, zero, suc, ◌≡◌, refl, sym, ap, subst, ◌∙◌, true, none, some, List, [], ◌∷◌, ◌++◌, map, Bytes,
  Map, lookup, insert, inl, has_prefix, bytes_equal, arith, codes, Option,
}
use golang_blockchain.Words.Hex.{hex_encode, hex_decode}
use golang_blockchain.Types.{Block, TxOutput}
use golang_blockchain.Run.{ok, ◌>>=◌, Returns, ok_injective}
use golang_blockchain.Pow.{serialize}
use golang_blockchain.Tx.{is_coinbase}
use golang_blockchain.Chain.{BlockChain, lh, add_block}
use golang_blockchain.Chain.Walk.{IsChain}
use golang_blockchain.Chain.Growth.{HasTip, add_block_known, add_block-Added}
use golang_blockchain.Utxo.{
  utxo_prefix, find_utxo, reindex, scan_transactions, scan_transaction, scan_outputs, scan_inputs,
  append_at, slice_at, is_spent,
}
use golang_blockchain.Utxo.Found.{find_utxo-scan}
use golang_blockchain.Utxo.Reindexed.{Storable, reindex-find_utxo}
use golang_blockchain.Wire.{cmd_to_bytes, put_chars, decode_rune}
use golang_blockchain.Network.State.{Env}
use golang_blockchain.Network.Send.{request}
use golang_blockchain.Network.Serve.{serve}
use golang_blockchain.Network.Serve.Framed.{framed}
use golang_blockchain.Network.Sync.{add_all, brings, lists}
use golang_blockchain.Network.Copied.{add_all-IsChain}
use golang_blockchain.Network.Joined.{HasJoined, serve-HasJoined}
use golang_blockchain.Tests.Store.{non_empty}
use golang_blockchain.Tests.Toy.{toy}
use golang_blockchain.Tests.Examples.{first, transfer}
use golang_blockchain.Tests.Chains.{ledger, ledger-HasTip, second, fresh, two-ne-lh, ne_of}
use golang_blockchain.Tests.Nodes.{gob, open_air, peer, home, first-Stored}

abbrev walking : Env
walking = record open_air { walk = 2 }

abbrev peers : List Block
peers = second ∷ first ∷ []

abbrev pub zeros : ℕ → Bytes
zeros zero = []
zeros (suc n) = 0 ∷ zeros n

abbrev told : Bytes
told =
    (codes "inv" ++ zeros 9)
    ++ gob.inv.encode
        (record { addr_from = peer; kind = codes "block"; items = (2 ∷ []) ∷ (1 ∷ []) ∷ [] })

abbrev bringing : Block → Bytes
bringing b =
    (codes "block" ++ zeros 7)
    ++ gob.block.encode (record { addr_from = peer; block = serialize toy b })

told-framed : framed toy gob walking (lists peer ((2 ∷ []) ∷ (1 ∷ []) ∷ [])) ≡ ok told
unfolding framed request cmd_to_bytes put_chars decode_rune
told-framed = refl

bringing-framed : (b : Block) → framed toy gob walking (brings toy peer b) ≡ ok (bringing b)
unfolding framed request cmd_to_bytes put_chars decode_rune
bringing-framed b = refl

-- the chain that the two calls of `AddBlock` give has no entry under the empty key
joined : Returns (add_all toy ledger peers) (λ after. lookup [] after.database ≡ none)
unfolding add_all non_empty lookup bytes_equal
joined =
    let (mid, e, added) =
      add_block-Added toy ledger first second ledger-HasTip fresh two-ne-lh refl refl in
    let (raw, at, read) = first-Stored in
    let here =
      added.elsewhere (1 ∷ []) (ne_of (1 ∷ []) (2 ∷ []) refl) (ne_of (1 ∷ []) lh refl) ∙ at in
    let known : add_block toy mid first ≡ ok mid =
      add_block_known toy mid second first added.has_tip raw here in
    (
      mid,
      rw (e, ◌>>=◌) (rw (known, ◌>>=◌) refl),
      added.elsewhere [] (ne_of [] (2 ∷ []) refl) (ne_of [] lh refl),
    )

joined-IsChain : Returns (add_all toy ledger peers) (λ after.
    (after.last_hash ≡ 2 ∷ [])
    × HasTip toy after second
    × IsChain toy after.database after.last_hash peers)
unfolding non_empty bytes_equal
joined-IsChain =
    add_all-IsChain toy ledger first second (first ∷ []) ledger-HasTip refl two-ne-lh fresh refl
      refl ((ne_of (1 ∷ []) lh refl, refl, inl first-Stored), tt)
      ((ne_of (1 ∷ []) (2 ∷ []) refl, tt), (tt, tt)) (refl, refl, refl)

abbrev entries : Map (List TxOutput)
entries = (hex_encode (8 ∷ []), transfer.outputs) ∷ []

found :
    (chain : BlockChain toy)
    → IsChain toy chain.database chain.last_hash peers
    → find_utxo toy 2 chain ≡ ok entries
unfolding scan_transactions scan_transaction scan_outputs scan_inputs append_at slice_at is_spent
    lookup insert is_coinbase hex_encode bytes_equal
found chain c = find_utxo-scan toy 2 chain peers c (omega arith)

entries-Storable : Storable toy entries
unfolding hex_encode hex_decode non_empty lookup
entries-Storable = (8 ∷ [], refl, refl, refl, refl, tt)

rebuilds :
    (chain : BlockChain toy) (n : ℕ)
    → add_all toy ledger peers ≡ ok chain
    → Returns (reindex toy 2 (walking.utxo_order n) chain) (λ _. Unit {0})
unfolding has_prefix
rebuilds chain n added =
    let (mid, e, empty) = joined in
    let (end, e', (last, _, c)) = joined-IsChain in
    let same : mid ≡ chain = ok_injective (sym e ∙ added) in
    let same' : end ≡ chain = ok_injective (sym e' ∙ added) in
    let whole = subst (λ (x : BlockChain toy). IsChain toy x.database x.last_hash peers) same' c in
    let none_empty = subst (λ (x : BlockChain toy). lookup [] x.database ≡ none) same empty in
    let top : chain.last_hash ≡ 2 ∷ [] =
      ap (λ (x : BlockChain toy). x.last_hash) (sym same') ∙ last in
    let (after, done, _) =
      reindex-find_utxo toy 2 (λ m. m) chain peers entries whole (omega arith)
        (ap (has_prefix utxo_prefix) top, (refl, (refl, tt))) (accepted chain none_empty)
        (found chain whole) entries-Storable in
    (after, done, tt)
  where
    accepted :
        (x : BlockChain toy)
        → lookup [] x.database ≡ none
        → (k v : Bytes) → lookup k x.database ≡ some v
        → non_empty k ≡ true
    accepted x h [] v at = let gone : ◌≡◌ {A = Option Bytes} none (some v) = sym h ∙ at in cc
    accepted x h (c ∷ k) v at = unfold non_empty in refl

serve-HasJoined_example :
    Returns
      (serve toy gob walking
        (map some (told ∷ bringing second ∷ bringing first ∷ []))
        (home ledger))
      (HasJoined toy gob walking peer (λ n. refl) (home ledger) second (first ∷ []))
unfolding non_empty bytes_equal has_prefix
serve-HasJoined_example =
    serve-HasJoined toy gob walking peer (λ n. refl) (home ledger) first second (first ∷ []) told
      (bringing second ∷ bringing first ∷ []) ledger-HasTip refl two-ne-lh fresh refl refl
      ((ne_of (1 ∷ []) lh refl, refl, inl first-Stored), tt)
      ((ne_of (1 ∷ []) (2 ∷ []) refl, tt), (tt, tt)) (refl, refl, refl) (refl, (refl, (refl, tt)))
      told-framed (bringing-framed second, (bringing-framed first, tt)) rebuilds
