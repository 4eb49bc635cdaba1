-- ===== src/Cli/State.antt =====
-- What the commands of cli/cli.go work on: flags, the disk, the surroundings, and what is printed.
use golang_blockchain.Prelude.{ℕ, Bool, Option, List, Bytes, Map, ℤ}
use golang_blockchain.Types.{Block}
use golang_blockchain.Platform.{Platform, Codec}
use golang_blockchain.Run.{Fault}
use golang_blockchain.WalletStore.{Wallets, Files}
use golang_blockchain.Network.State.{Gob, Env, Node}

-- the values of the flags of "send"
pub record SendFlags : Type 0 where
  pub from : Bytes
  pub to : Bytes
  pub amount : ℤ
  pub mine : Bool

-- Package `flag`: how each `FlagSet` of `Run` parses its arguments. With `flag.ExitOnError` the
-- package ends the process on an error, which is `none`.
pub record Flags : Type 0 where
  pub get_balance_flags : List Bytes → Option Bytes
  pub create_block_chain_flags : List Bytes → Option Bytes
  pub send_flags : List Bytes → Option SendFlags
  pub print_chain_flags : List Bytes → Option (Unit {0})
  pub create_wallet_flags : List Bytes → Option (Unit {0})
  pub list_addresses_flags : List Bytes → Option (Unit {0})
  pub reindex_utxo_flags : List Bytes → Option (Unit {0})
  pub start_node_flags : List Bytes → Option Bytes

-- a `FlagSet` that has been parsed, with the values of its flags
pub data Command : Type 0 where
  get_balance_cmd create_block_chain_cmd start_node_cmd : Bytes → Command
  send_cmd : SendFlags → Command
  print_chain_cmd create_wallet_cmd list_addresses_cmd reindex_utxo_cmd : Command

-- What the surroundings decide while a command runs: those of the network, gob at the wallets, the
-- bytes that keys and signatures draw, the orders in which Go ranges over maps, whether a node can
-- listen, and what is read from the connections that it accepts.
pub record Shell : Type 0 where
  pub gob : Gob
  pub env : Env
  pub wallets_codec : Codec Wallets
  pub key_rand : Bytes
  pub sign_rand : ℕ → Bytes
  pub wallet_order : Wallets → Wallets
  pub picked_order : Map (List ℤ) → Map (List ℤ)
  pub listens : Bool
  pub connections : List (Option Bytes)

module _ (p : Platform) where
  open p.badger use {DB}

  -- the disk: the wallet files by their paths, the databases by the node IDs of their directories
  pub record Disk : Type 0 where
    pub files : Files
    pub databases : Map DB

  -- what a command prints at its end, or the node that it has become
  pub data Report : Type 0 where
    balance_is : ℤ → Report
    addresses_are : List Bytes → Report
    new_address_is : Bytes → Report
    transactions_counted : ℕ → Report
    blocks_are : List (Block × Bool) → Report
    chain_created : Report
    block_mined : Block → Report
    -- the requests that have reached another node
    transaction_sent : List (Bytes × Bytes) → Report
    served : Node p → Report
    -- a handler has panicked, in a goroutine of its own
    handler_panicked : Fault → Report
