-- ===== src/Tests/CommandLine.antt =====
-- The theorems on commands, for a node with a wallet and one coin.
use golang_blockchain.Types.{Transaction}
use golang_blockchain.Prelude.{
  false≢true, bytes_equal_refl, ap, sym, ◌∙◌, Bytes, ℕ, map, ◌++◌, has_prefix, if◌then◌else◌, arith,
  ◌≡◌, refl, true, none, [], ◌∷◌, Bytes, lookup, bytes_equal, pos, codes, lookup-insert_self,
  insert, some,
}
use golang_blockchain.Platform.{txn_get}
use golang_blockchain.Run.{ok, Returns, ◌>>=◌}
use golang_blockchain.Wallet.{address, public_key_hash}
use golang_blockchain.Chain.{continue_block_chain}
use golang_blockchain.WalletStore.{Wallets, create_wallets, save_file, get_wallet}
use golang_blockchain.WalletStore.Reload.{load_file-save_file}
use golang_blockchain.Cli.State.{SendFlags, Shell, Disk, balance_is}
use golang_blockchain.Cli.Commands.{send_coins, create_block_chain, get_balance}
use golang_blockchain.Cli.Sending.{check_address-address, announced, outcome, send_coins-outcome}
use golang_blockchain.Cli.Balance.{get_balance-create_block_chain}
use golang_blockchain.Merkle.Shape.{root_of}
use golang_blockchain.Words.Big.{be_int64}
use golang_blockchain.Pow.{genesis, serialize_transaction}
use golang_blockchain.Pow.Search.{hashed}
use golang_blockchain.Pow.Mining.{create_block-IsMined}
use golang_blockchain.Tx.{coinbase_tx, unnamed_coinbase, coinbase_note, hash}
use golang_blockchain.Tx.Locking.{pays, new_tx_output-address}
use golang_blockchain.Chain.{genesis_data, lh}
use golang_blockchain.Utxo.{utxo_prefix}
use golang_blockchain.Tests.Store.{non_empty}
use golang_blockchain.Tests.Coder.{
  codec_of, whole, iso_coder, pair_coder, int_coder, map_read, pair_read, read_int,
}
use golang_blockchain.Tests.Toy.{toy, toy_hash, block_coder}
use golang_blockchain.Tests.Examples.{spending, first, alice, tiny}
use golang_blockchain.Tests.Payments.{bob, purse, purse_pays}
use golang_blockchain.Tests.Nodes.{gob, cut_off, purse-HasTip}
use golang_blockchain.Tests.WalletFiles.{wallets_codec}

-- a shell whose node cannot reach the first one
abbrev shell : Shell
shell = record {
  gob = gob;
  env = cut_off;
  wallets_codec = wallets_codec;
  key_rand = [];
  sign_rand = λ n. [];
  wallet_order = λ m. m;
  picked_order = λ m. m;
  listens = true;
  connections = [];
}

abbrev node_id : Bytes
node_id = codes "4000"

abbrev wallets : Wallets
wallets = (address toy alice, alice) ∷ []

abbrev disk : Disk toy
disk = record {
  files = save_file wallets_codec wallets node_id [];
  databases = (node_id, purse.database) ∷ [];
}

abbrev to_bob : SendFlags
to_bob = record { from = address toy alice; to = address toy bob; amount = pos 60; mine = true }

purse_opened : continue_block_chain toy (lookup node_id disk.databases) ≡ ok purse
unfolding continue_block_chain txn_get lookup bytes_equal
purse_opened = refl

wallets_loaded :
    create_wallets wallets_codec disk.files node_id
    ≡ ok (record { wallets = wallets; found = true })
unfolding create_wallets
wallets_loaded = load_file-save_file toy wallets_codec wallets [] node_id []

alice_listed : get_wallet wallets (address toy alice) ≡ ok alice
unfolding get_wallet insert
alice_listed =
    let found : lookup (address toy alice) wallets ≡ some alice =
      lookup-insert_self (address toy alice) alice [] in
    rw found refl

no_block : toy.block_codec.decode purse.last_hash ≡ none
unfolding codec_of whole block_coder iso_coder map_read pair_coder pair_read int_coder read_int
no_block = refl

send_coins-outcome_example : Returns (announced toy shell purse_pays.0) (λ req.
    send_coins toy shell to_bob node_id disk
    ≡ outcome toy true (shell.env.dial 0 (codes "localhost:3000")) req disk)
send_coins-outcome_example =
    send_coins-outcome toy shell to_bob node_id disk purse wallets alice purse_pays.0
      (check_address-address toy bob) (check_address-address toy alice) purse_opened wallets_loaded
      alice_listed purse_pays.1 first purse-HasTip no_block

-- the first block for alice, mined on the test platform
abbrev reward : Transaction
reward =
    let cb =
      unnamed_coinbase (coinbase_note (address toy alice) genesis_data)
        (pays toy (pos 100) alice) in
    record cb { id = hash toy cb }

reward_made : coinbase_tx toy (address toy alice) genesis_data ≡ ok reward
unfolding coinbase_tx
reward_made = rw ((new_tx_output-address toy (pos 100) alice [] spending).0, ◌>>=◌) refl

first_mined : Returns (genesis toy (pos 0) reward) (λ b.
    (n : ℕ) × (b.hash
      ≡ hashed toy [] (root_of toy_hash (map (serialize_transaction toy) (reward ∷ []))) n))
unfolding genesis
first_mined =
    let (b, e, mined) =
      create_block-IsMined toy (pos 0) (pos 0) (reward ∷ []) [] 0 (omega arith) (omega arith)
        (omega arith)
        (tiny (
          []
          ++ root_of toy_hash (map (serialize_transaction toy) (reward ∷ []))
          ++ be_int64 (pos 0)
          ++ be_int64 (pos 18))) in
    (b, e, (mined.found, mined.mined_hash))

abbrev new_disk : Disk toy
new_disk = record { files = []; databases = [] }

get_balance-create_block_chain_example :
    Returns (create_block_chain toy shell (address toy alice) node_id new_disk) (λ r.
      get_balance toy shell (address toy bob) node_id r.1
      ≡ ok (
        balance_is (
            if bytes_equal
              (public_key_hash toy alice.public_key)
              (public_key_hash toy bob.public_key)
            then pos 100
            else pos 0),
        r.1,
      ))
unfolding non_empty bytes_equal has_prefix lookup
get_balance-create_block_chain_example =
    let (b, e, (n, is)) = first_mined in
    get_balance-create_block_chain toy reward b (ap non_empty is) refl refl
      (λ q.
        false≢true (
          sym (ap (λ h. bytes_equal h lh) is) ∙ ap (λ h. bytes_equal h lh) q ∙ bytes_equal_refl lh))
      (ap (has_prefix utxo_prefix) is) shell alice bob node_id new_disk refl reward_made e
      (omega arith) refl
