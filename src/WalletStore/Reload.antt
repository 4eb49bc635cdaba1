-- ===== src/WalletStore/Reload.antt =====
-- A wallet that is added, saved, and loaded again.
use golang_blockchain.Prelude.{
  [], ◌≡◌, ◌≢◌, refl, sym, ap, ◌∙◌, true, ◌++◌, Bytes, insert, codes, length, take, drop,
  length-append, take-append_self, lookup-insert_self, lookup-insert_ne, arith, ℕ,
}
use golang_blockchain.Types.{Wallet}
use golang_blockchain.Platform.{Platform, Codec, decode_or_panic}
use golang_blockchain.Run.{ok, ◌>>=◌, Returns}
use golang_blockchain.Wallet.{address, make_wallet}
use golang_blockchain.WalletStore.{
  Wallets, Files, wallet_file, get_wallet, add_wallet, load_file, create_wallets, save_file,
}

append_cancel : (a b s : Bytes) → a ++ s ≡ b ++ s → a ≡ b
append_cancel a b s e =
    let same : length a ≡ length b =
      omega (arith, length-append a s, length-append b s, ap length e) in
    sym (take-append_self a s)
    ∙ ap (λ (n : ℕ). take n (a ++ s)) same
    ∙ ap (take (length b)) e
    ∙ take-append_self b s

-- Two nodes have two files.
wallet_file_injective : (m n : Bytes) → wallet_file m ≡ wallet_file n → m ≡ n
unfolding wallet_file
wallet_file_injective m n e = append_cancel m n (codes ".data") (ap (drop 14) e)

module _ (p : Platform) (c : Codec Wallets) where
  -- what is saved for a node is read back
  pub load_file-save_file :
      (ws old : Wallets) (node : Bytes) (files : Files)
      → load_file c (save_file c ws node files) node old
        ≡ ok (record { wallets = ws; found = true })
  unfolding load_file save_file decode_or_panic
  load_file-save_file ws old node files =
      rw (load_file, save_file, lookup-insert_self (wallet_file node) (c.encode ws) files)
        (rw (c.decode-encode ws) refl)

  -- If `MakeWallet` gives a wallet, `AddWallet` returns its address, under which `GetWallet` then
  -- finds it, and leaves the wallets at other addresses. After `SaveFile` for a node,
  -- `CreateWallets` for this node reads back all the wallets that were saved, and for any other
  -- node what it read before.
  pub create_wallets-save_file :
      (rand node : Bytes) (w : Wallet) (ws : Wallets) (files : Files)
      → make_wallet p rand ≡ ok w
      → Returns (add_wallet p rand ws) (λ r.
        (r.0 ≡ address p w)
        × (get_wallet r.1 r.0 ≡ ok w)
        × ((a : Bytes) → r.0 ≢ a → get_wallet r.1 a ≡ get_wallet ws a)
        × (create_wallets c (save_file c r.1 node files) node
            ≡ ok (record { wallets = r.1; found = true }))
        × ((other : Bytes)
            → node ≢ other
            → create_wallets c (save_file c r.1 node files) other ≡ create_wallets c files other))
  unfolding add_wallet get_wallet create_wallets load_file save_file decode_or_panic
  create_wallets-save_file rand node w ws files made =
      let ws' = insert (address p w) w ws in
      (
        (address p w, ws'),
        rw (made, ◌>>=◌) refl,
        (
          refl,
          rw (lookup-insert_self (address p w) w ws) refl,
          (λ a ne. rw (lookup-insert_ne (address p w) a w ws ne) refl),
          load_file-save_file ws' [] node files,
          (λ other ne.
              rw
                (
                  create_wallets,
                  load_file,
                  save_file,
                  lookup-insert_ne (wallet_file node) (wallet_file other) (c.encode ws') files
                      (λ e. ne (wallet_file_injective node other e)),
                )
                refl),
        ),
      )
