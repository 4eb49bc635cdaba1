-- ===== src/Cli/Process.antt =====
-- `Run` of cli/cli.go, and main.go: from the arguments of the process to its end.
use golang_blockchain.Prelude.{
  ℕ, true, false, Option, none, some, List, [], ◌∷◌, Bytes, bytes_equal, codes, if◌then◌else◌,
}
use golang_blockchain.Types.{is_nil}
use golang_blockchain.Platform.{Platform}
use golang_blockchain.Run.{Run, ok, panic, goexit, spins}
use golang_blockchain.Cli.State.{
  Flags, Command, get_balance_cmd, create_block_chain_cmd, start_node_cmd, send_cmd,
  print_chain_cmd, create_wallet_cmd, list_addresses_cmd, reindex_utxo_cmd, Shell, Disk, Report,
  served, handler_panicked,
}
use golang_blockchain.Cli.Commands.{execute}

-- What parsing gives: a command, an unknown word (`printUsage` and `runtime.Goexit`), or the end
-- of the process by package `flag`.
pub data Parsed : Type 0 where
  parsed : Command → Parsed
  unknown ended : Parsed

unfoldable pub parsed_or_ended : {A : Type 0} → (A → Command) → Option A → Parsed
parsed_or_ended command none = ended
parsed_or_ended command (some values) = parsed (command values)

-- the `switch` over `os.Args[1]`
unfoldable pub parse_command : Flags → Bytes → List Bytes → Parsed
unfolding parsed_or_ended
parse_command flags word args =
    if bytes_equal word (codes "reindexutxo")
    then parsed_or_ended (λ _. reindex_utxo_cmd) (flags.reindex_utxo_flags args)
    else if bytes_equal word (codes "getbalance")
    then parsed_or_ended get_balance_cmd (flags.get_balance_flags args)
    else if bytes_equal word (codes "startnode")
    then parsed_or_ended start_node_cmd (flags.start_node_flags args)
    else if bytes_equal word (codes "createblockchain")
    then parsed_or_ended create_block_chain_cmd (flags.create_block_chain_flags args)
    else if bytes_equal word (codes "listaddresses")
    then parsed_or_ended (λ _. list_addresses_cmd) (flags.list_addresses_flags args)
    else if bytes_equal word (codes "createwallet")
    then parsed_or_ended (λ _. create_wallet_cmd) (flags.create_wallet_flags args)
    else if bytes_equal word (codes "printchain")
    then parsed_or_ended (λ _. print_chain_cmd) (flags.print_chain_flags args)
    else if bytes_equal word (codes "send")
    then parsed_or_ended send_cmd (flags.send_flags args)
    else unknown

module _ (p : Platform) where
  -- a process that package `flag` has ended, or how `Run` ends
  pub data Process : Type 0 where
    flags_ended : Process
    ran : Run (Report p × Disk p) → Process

  -- how the process ends: by package `flag`, with an exit status, or not at all
  pub data Ending : Type 0 where
    by_flags runs_on : Ending
    exited : ℕ → Ending

  -- `defer os.Exit(0)` in `main`: it runs at a return, in a panic of the main goroutine, and at
  -- `runtime.Goexit`; a panic in the goroutine of a handler ends the process with status 2
  unfoldable pub main : Process → Ending
  main flags_ended = by_flags
  main (ran (ok (served node, disk))) = runs_on
  main (ran (ok (handler_panicked fault, disk))) = exited 2
  main (ran (ok (report, disk))) = exited 0
  main (ran (panic fault)) = exited 0
  main (ran goexit) = exited 0
  main (ran spins) = runs_on

  module _ (flags : Flags) (shell : Shell) where
    unfoldable pub run_parsed : Parsed → Bytes → Disk p → Process
    run_parsed (parsed command) node_id disk = ran (execute p shell command node_id disk)
    run_parsed unknown node_id disk = ran goexit
    run_parsed ended node_id disk = flags_ended

    -- `Run`, on `os.Args` and the value of NODE_ID; `validateArgs` wants two arguments or more
    unfoldable pub run_command_line : List Bytes → Bytes → Disk p → Process
    unfolding parse_command run_parsed
    run_command_line [] node_id disk = ran goexit
    run_command_line (program ∷ []) node_id disk = ran goexit
    run_command_line (program ∷ word ∷ args) node_id disk = elim (is_nil node_id) [
      | true ↦ ran goexit
      | false ↦ run_parsed (parse_command flags word args) node_id disk
    ]
