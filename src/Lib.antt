-- ===== src/Lib.antt =====
-- A verification library for golang-blockchain, a small blockchain in Go: wallets with
-- Base58 addresses, transactions signed with ECDSA, blocks mined with a proof of work, a chain of
-- blocks and a set of unspent outputs in a Badger database, a peer-to-peer node, a command line.
--
-- The parts and their files (paths from the repository's root):
--   Types      the structs of blockchain/tx.go, transaction.go, block.go and wallet/wallet.go
--   Merkle     blockchain/merkle.go: NewMerkleNode, NewMerkleTree
--   Pow        blockchain/proof.go, and HashTransactions, CreateBlock, Genesis of block.go
--   Wallet     wallet/wallet.go, wallet/utils.go: keys, addresses, checksums
--   Tx         blockchain/tx.go, blockchain/transaction.go: locks, coinbase, Sign, Verify
--   Chain      blockchain/blockchain.go, blockchain/chain_iter.go: the blocks in the database
--   Utxo       FindUTXO of blockchain/blockchain.go, and blockchain/utxo.go
--   Transfer   NewTransaction of blockchain/transaction.go
--   WalletStore  wallet/wallets.go: the wallets of a node and their file
--   Wire       the commands in front of requests, of network/network.go
--   Network    network/network.go: State (a node's variables, the messages), Send, Mine (MineTx),
--              Handle (the handlers), Serve (HandleConnection, StartServer)
--   Cli        cli/cli.go and main.go: State (flags, the disk), Commands, Process (Run, main),
--              Sending (the command "send"), Balance ("createblockchain", then "getbalance")
--   Words      the calls of encoding/hex, encoding/binary and math/big
--   Run        how a call ends: a value, a panic, runtime.Goexit, or fuel that ran out
--   Platform   what the program calls and does not implement, as operations with laws
--   Prelude    shared names, 64-bit integers, lists, byte strings, maps
--   Tests      the theorems at concrete inputs, on a small platform that meets the laws
-- A function of the source is one definition, in snake case: AddBlock is add_block. Each child
-- module proves what its name says: Merkle/Shape, Pow/Search, Pow/Mining, Wallet/Address,
-- Wallet/Halves, Tx/Signing, Tx/Locking, Chain/Walk, Chain/Growth, Chain/Extend, Chain/Beginning
-- (a chain of one block), Utxo/Unspent, Utxo/Spent, Utxo/Found, Utxo/Spending, Utxo/Totals,
-- Utxo/Picked, Utxo/Clearing, Utxo/Reindexed, Utxo/Scanned, Utxo/Ledger, Utxo/Updated, Utxo/Kept,
-- Utxo/Shifted, Utxo/Beginning, Transfer/Payment, Transfer/Funded, Transfer/Acceptance,
-- WalletStore/Reload, Wire/Framing; and in Network: Serve/Framed (messages as they are framed),
-- Sent, Pool, Handled, Steps (states that a node reaches), Rounds (MineTx ends), Handshake, Alone,
-- Sync, Copied, Joined. Utxo/Updating models Update, and Chain/Opening openDB and retry; the
-- commands and the node take a database that opens.
--
-- Representation. A []byte or a string is a list of numbers; where the range of a byte matters it
-- is a condition. An int is an integer with the wrap-around of 64 bits. A nil slice and an empty
-- one are the same list: gob reads an empty slice back as nil, and the code's tests `ID == nil`
-- are on decoded transactions. A Go map is an association list; where the order in which Go
-- ranges over a map shows, it is an argument. The database is a value that an operation returns
-- anew; a panic returns none, so what a panic leaves on disk is not modelled. Badger's limit on
-- the size of one transaction, and failures of the disk, are not modelled. The wallet files are
-- a map from paths to contents. The time and the random bytes that a call draws are arguments.
--
-- Fuel and bounds. A walk over the blocks takes fuel, one unit for a block; a chain of as many
-- blocks or fewer is walked to its end (Chain/Walk), and a cycle of previous hashes is a loop
-- in the source as well. The search for a nonce has the bound of the source, math.MaxInt64.
--
-- A node handles one request after another: the goroutines of the source, which share its variables
-- without a lock, are not interleaved within a handler. A connection that is refused, or breaks, is
-- decided by the surroundings (Network/State, Env), as are the clock and the orders of maps. MineTx
-- takes fuel for the calls that it makes of itself; Network/Rounds shows how much is enough.
--
-- A command of the command line works on the disk as a value. A panic of a handler ends the real
-- process with status 2; in the model it ends the run of the node, and no request is handled after
-- it.
--
-- Not modelled: the text that is printed; CloseDB of network/network.go, which waits for a signal
-- and closes the database; what package flag and Badger do inside.
pub mod Prelude
pub mod Run
pub mod Words
pub mod Types
pub mod Platform
pub mod Merkle
pub mod Pow
pub mod Wallet
pub mod Tx
pub mod Chain
pub mod Utxo
pub mod Transfer
pub mod WalletStore
pub mod Wire
pub mod Network
pub mod Cli
mod Tests
