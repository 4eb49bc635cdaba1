-- ===== src/Tests/WalletFiles.antt =====
-- The theorem on the wallet file, for a first wallet.
use golang_blockchain.Prelude.{◌≡◌, ◌≢◌, refl, true, [], ◌∷◌, Bytes}
use golang_blockchain.Types.{Wallet}
use golang_blockchain.Platform.{Codec}
use golang_blockchain.Run.{ok, Returns}
use golang_blockchain.Words.Big.{big_bytes}
use golang_blockchain.Wallet.{address, make_wallet}
use golang_blockchain.WalletStore.{Wallets, get_wallet, add_wallet, create_wallets, save_file}
use golang_blockchain.WalletStore.Reload.{create_wallets-save_file}
use golang_blockchain.Tests.Coder.{nat_coder, pair_coder, list_coder, iso_coder, codec_of, Coder}
use golang_blockchain.Tests.Toy.{toy}
use golang_blockchain.Tests.Examples.{alice}

pub wallet_coder : Coder Wallet
wallet_coder =
    iso_coder (pair_coder (list_coder nat_coder) (list_coder nat_coder))
      (λ q. record { private_key = q.0; public_key = q.1 }) (λ w. (w.private_key, w.public_key))
      (λ w. refl)

abbrev pub wallets_codec : Codec Wallets
wallets_codec = codec_of (list_coder (pair_coder (list_coder nat_coder) wallet_coder))

alice_made : make_wallet toy (5 ∷ []) ≡ ok alice
unfolding make_wallet big_bytes
alice_made = refl

create_wallets-save_file_example : Returns (add_wallet toy (5 ∷ []) []) (λ r.
    (r.0 ≡ address toy alice)
    × (get_wallet r.1 r.0 ≡ ok alice)
    × ((a : Bytes) → r.0 ≢ a → get_wallet r.1 a ≡ get_wallet [] a)
    × (create_wallets wallets_codec (save_file wallets_codec r.1 (3 ∷ []) []) (3 ∷ [])
        ≡ ok (record { wallets = r.1; found = true }))
    × ((other : Bytes)
        → (3 ∷ []) ≢ other
        → create_wallets wallets_codec (save_file wallets_codec r.1 (3 ∷ []) []) other
          ≡ create_wallets wallets_codec [] other))
create_wallets-save_file_example =
    create_wallets-save_file toy wallets_codec (5 ∷ []) (3 ∷ []) alice [] [] alice_made
