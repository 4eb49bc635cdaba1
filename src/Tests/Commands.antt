-- ===== src/Tests/Commands.antt =====
-- The theorem on commands, for "getdata".
use golang_blockchain.Prelude.{◌<◌, ◌≡◌, ◌++◌, [], ◌∷◌, codes, length, arith, All, ◌≢◌}
use golang_blockchain.Run.{ok, Returns}
use golang_blockchain.Wire.{command_length, cmd_to_bytes, extract_cmd, bytes_to_cmd}
use golang_blockchain.Wire.Framing.{bytes_to_cmd-cmd_to_bytes}

get_data_chars : All (λ c. c ≢ 0) (codes "getdata")
get_data_chars = (
  omega arith,
  (omega arith, (omega arith, (omega arith, (omega arith, (omega arith, (omega arith, tt)))))),
)

get_data_ascii : All (λ c. c < 128) (codes "getdata")
get_data_ascii = (
  omega arith,
  (omega arith, (omega arith, (omega arith, (omega arith, (omega arith, (omega arith, tt)))))),
)

bytes_to_cmd-cmd_to_bytes_example : Returns (cmd_to_bytes (codes "getdata")) (λ head.
    (length head ≡ command_length)
    × (extract_cmd (head ++ 7 ∷ []) (5 ∷ []) ≡ ok head)
    × (bytes_to_cmd head ≡ codes "getdata"))
bytes_to_cmd-cmd_to_bytes_example =
    bytes_to_cmd-cmd_to_bytes (codes "getdata") (7 ∷ []) (5 ∷ []) (omega arith) get_data_chars
      get_data_ascii
