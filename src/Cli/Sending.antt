-- ===== src/Cli/Sending.antt =====
-- What the command "send" comes to, with and without "-mine".
use golang_blockchain.Prelude.{
  ◌≡◌, refl, ◌∙◌, Bool, Bool-cases, sym, ap, inl, inr, pos, none, true, false, List, [], ◌∷◌, Bytes,
  lookup,
}
use golang_blockchain.Types.{Transaction, Block, Wallet}
use golang_blockchain.Platform.{Platform}
use golang_blockchain.Run.{
  Run, ok, panic, decode_failed, send_failed, ◌>>=◌, Returns, returns_through,
}
use golang_blockchain.Wallet.{
  address, base58_decode, payload, last_bytes, first_byte, checksum_length, validate_address,
}
use golang_blockchain.Wallet.Address.{validate_address-address}
use golang_blockchain.Pow.{serialize_transaction}
use golang_blockchain.Tx.{coinbase_tx, new_tx_output, lock, coinbase_note, unnamed_coinbase, hash}
use golang_blockchain.Chain.{BlockChain, continue_block_chain}
use golang_blockchain.Chain.Growth.{HasTip}
use golang_blockchain.Chain.Extend.{mine_block_panics}
use golang_blockchain.Transfer.{new_transaction}
use golang_blockchain.WalletStore.{Wallets, create_wallets, get_wallet}
use golang_blockchain.Network.State.{Dial, delivered, refused, broken, first_node}
use golang_blockchain.Network.Send.{send_tx, send, send_data, dialled}
use golang_blockchain.Network.Handle.{first_of}
use golang_blockchain.Network.Serve.Framed.{Message, framed, tx, handle_connection-framed}
use golang_blockchain.Cli.State.{SendFlags, Shell, Disk, Report, transaction_sent}
use golang_blockchain.Cli.Commands.{check_address, unstarted, hand_in, send_coins}

-- what has reached the first node, by the way in which the connection goes
unfoldable pub reached : Dial → Bytes → Run (List (Bytes × Bytes))
reached delivered req = ok ((first_node, req) ∷ [])
reached refused req = ok []
reached broken req = panic send_failed

module _ (p : Platform) where
  -- the message that `SendTx` makes where `StartServer` has not run
  abbrev pub carried : Transaction → Message
  carried made = tx (record { addr_from = []; transaction = serialize_transaction p made })

  unfoldable pub announced : Shell → Transaction → Run Bytes
  announced shell made = framed p shell.gob shell.env (carried made)

  -- the address of a wallet passes the check
  pub check_address-address : (w : Wallet) → check_address p (address p w) ≡ ok tt
  unfolding check_address
  check_address-address w = rw (validate_address-address p w, ◌>>=◌) refl

  -- An address that passes the check decodes, to bytes that are long enough.
  pub check_address-payload :
      (addr : Bytes)
      → check_address p addr ≡ ok tt
      → (full : Bytes) × (base58_decode p addr ≡ ok full) × Returns (payload full) (λ _. Unit {0})
  unfolding check_address validate_address
  check_address-payload addr e =
      let (_, valid, _) = returns_through (validate_address p addr) _ _ e in
      let (full, decoded, e1) = returns_through (base58_decode p addr) _ _ valid in
      let (_, _, e2) = returns_through (last_bytes full checksum_length) _ _ e1 in
      let (_, _, e3) = returns_through (first_byte full) _ _ e2 in
      let (pub_key_hash, cut, _) = returns_through (payload full) _ _ e3 in
      (full, decoded, (pub_key_hash, cut, tt))

  -- a reward to such an address can be made
  coinbase_tx-payload :
      (addr note full pub_key_hash : Bytes)
      → base58_decode p addr ≡ ok full
      → payload full ≡ ok pub_key_hash
      → Returns (coinbase_tx p addr note) (λ _. Unit {0})
  unfolding coinbase_tx new_tx_output lock
  coinbase_tx-payload addr note full pub_key_hash decoded cut =
      let cb =
        unnamed_coinbase (coinbase_note addr note)
          (record { value = pos 100; pub_key_hash = pub_key_hash }) in
      (record cb { id = hash p cb }, rw (decoded, ◌>>=◌) (rw (cut, ◌>>=◌) refl), tt)

  -- how "send" ends, with and without "-mine"
  unfoldable pub outcome : Bool → Dial → Bytes → Disk p → Run (Report p × Disk p)
  outcome true d req disk = panic decode_failed
  outcome false d req disk = do sent ← reached d req; ok (transaction_sent sent, disk)

  module _ (shell : Shell) where
    -- what `SendTx` leads to, by the way in which the connection goes
    dialled-reached :
        (d : Dial) (req : Bytes) (disk : Disk p) (chain : BlockChain p)
        → ◌>>=◌ {Out = Report p × Disk p}
            (dialled p shell.gob shell.env d first_node req (unstarted p chain))
            (λ node. ok (transaction_sent node.outbox, disk))
          ≡ outcome false d req disk
    unfolding dialled reached unstarted outcome
    dialled-reached delivered req disk chain = refl
    dialled-reached refused req disk chain = refl
    dialled-reached broken req disk chain = refl

    hand_in_sent :
        (flags : SendFlags) (node_id : Bytes) (disk : Disk p) (chain : BlockChain p)
        (made : Transaction) (req : Bytes)
        → flags.mine ≡ false
        → announced shell made ≡ ok req
        → hand_in p shell flags node_id disk chain made
          ≡ outcome false (shell.env.dial 0 first_node) req disk
    unfolding hand_in announced framed first_of unstarted send_tx send send_data
    hand_in_sent flags node_id disk chain made req later e =
        rw later (rw (e, ◌>>=◌) (dialled-reached (shell.env.dial 0 first_node) req disk chain))

    hand_in_mined :
        (flags : SendFlags) (node_id : Bytes) (disk : Disk p) (chain : BlockChain p)
        (made : Transaction) (tip : Block)
        → flags.mine ≡ true
        → check_address p flags.from ≡ ok tt
        → HasTip p chain tip
        → p.block_codec.decode chain.last_hash ≡ none
        → hand_in p shell flags node_id disk chain made ≡ panic decode_failed
    unfolding hand_in
    hand_in_mined flags node_id disk chain made tip now valid h bad =
        let (full, decoded, (pub_key_hash, cut, _)) = check_address-payload flags.from valid in
        let (cb, paid, _) = coinbase_tx-payload flags.from [] full pub_key_hash decoded cut in
        rw now (
          rw (paid, ◌>>=◌)
            (rw (mine_block_panics p chain tip (shell.env.now 0) (cb ∷ made ∷ []) h bad, ◌>>=◌)))

    module _ (flags : SendFlags) (node_id : Bytes) (disk : Disk p) (chain : BlockChain p)
        (wallets : Wallets) (wallet : Wallet) (made : Transaction)
        (to_ok : check_address p flags.to ≡ ok tt) (from_ok : check_address p flags.from ≡ ok tt)
        (opened : continue_block_chain p (lookup node_id disk.databases) ≡ ok chain)
        (loaded : create_wallets shell.wallets_codec disk.files node_id
          ≡ ok (record { wallets = wallets; found = true }))
        (owned : get_wallet wallets flags.from ≡ ok wallet)
        (new : new_transaction p shell.env.walk shell.sign_rand shell.picked_order wallet flags.to
            flags.amount chain
          ≡ ok made) where
      send_coins-hand_in :
          send_coins p shell flags node_id disk ≡ hand_in p shell flags node_id disk chain made
      unfolding send_coins
      send_coins-hand_in =
          rw (to_ok, ◌>>=◌)
            (rw (from_ok, ◌>>=◌)
              (rw (opened, ◌>>=◌) (rw (loaded, ◌>>=◌) (rw (owned, ◌>>=◌) (rw (new, ◌>>=◌) refl)))))

      -- If both addresses pass the check, the node has a chain and a wallet at the sender's
      -- address, and `NewTransaction` returns a transaction, then "send" with "-mine" panics, as
      -- long as the hash of the last block is not itself an encoded block. Without "-mine" it
      -- leaves the disk as it is, and succeeds unless the connection breaks: to a first node that
      -- refuses the connection it sends nothing, and succeeds all the same.
      pub send_coins-outcome :
          (tip : Block)
          → HasTip p chain tip
          → p.block_codec.decode chain.last_hash ≡ none
          → Returns (announced shell made) (λ req.
            send_coins p shell flags node_id disk
            ≡ outcome flags.mine (shell.env.dial 0 first_node) req disk)
      unfolding announced outcome
      send_coins-outcome tip h bad =
          let (req, e, _) =
            handle_connection-framed p shell.gob shell.env (carried made) (unstarted p chain) in
          (
            req,
            e,
            send_coins-hand_in ∙ elim (Bool-cases flags.mine) [
              | inl yes' ↦
                  hand_in_mined flags node_id disk chain made tip yes' from_ok h bad
                  ∙ ap (λ m. outcome m (shell.env.dial 0 first_node) req disk) (sym yes')
              | inr no' ↦
                  hand_in_sent flags node_id disk chain made req no' e
                  ∙ ap (λ m. outcome m (shell.env.dial 0 first_node) req disk) (sym no')
            ],
          )
