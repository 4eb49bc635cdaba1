-- ===== src/Wire.antt =====
-- The command at the front of a request: `CmdToBytes`, `BytesToCmd` and `ExtractCmd` of
-- network/network.go. A string is a list of its bytes, in UTF-8.
pub mod Framing
use golang_blockchain.Prelude.{
  ℕ, zero, suc, ◌+◌, ◌-◌, ◌*◌, ◌%◌, Bool, ◌&&◌, leb, List, [], ◌∷◌, ◌++◌, Bytes, length, set, ltb,
  ◌==◌, if◌then◌else◌,
}
use golang_blockchain.Run.{Run, ok, panic, index_out_of_range}
use golang_blockchain.Wallet.{slice}

-- `commandLength`
abbrev pub command_length : ℕ
command_length = 12

-- `var bytes [commandLength]byte`
abbrev pub no_command : Bytes
no_command = 0 ∷ 0 ∷ 0 ∷ 0 ∷ 0 ∷ 0 ∷ 0 ∷ 0 ∷ 0 ∷ 0 ∷ 0 ∷ 0 ∷ []

-- The first rune of a string, and how many bytes it has: what `range` over a string decodes. Bytes
-- that are not UTF-8 give the rune 0xFFFD, one byte at a time.
between : ℕ → ℕ → ℕ → Bool
between lo hi b = leb lo b && leb b hi

rune_2 : ℕ → Bytes → ℕ × ℕ
rune_2 a [] = (65533, 1)
rune_2 a (b ∷ rest) = if between 128 191 b then ((a - 192) * 64 + (b - 128), 2) else (65533, 1)

rune_3 : ℕ → ℕ → ℕ → Bytes → ℕ × ℕ
rune_3 lo hi a (b ∷ c ∷ rest) =
    if between lo hi b && between 128 191 c
    then ((a - 224) * 4096 + (b - 128) * 64 + (c - 128), 3)
    else (65533, 1)
rune_3 lo hi a rest = (65533, 1)

rune_4 : ℕ → ℕ → ℕ → Bytes → ℕ × ℕ
rune_4 lo hi a (b ∷ c ∷ d ∷ rest) =
    if between lo hi b && between 128 191 c && between 128 191 d
    then ((a - 240) * 262144 + (b - 128) * 4096 + (c - 128) * 64 + (d - 128), 4)
    else (65533, 1)
rune_4 lo hi a rest = (65533, 1)

unfoldable pub decode_rune : ℕ → Bytes → ℕ × ℕ
unfolding between rune_2 rune_3 rune_4
decode_rune a rest =
    if ltb a 128
    then (a, 1)
    else if between 194 223 a
    then rune_2 a rest
    else if between 224 239 a
    then rune_3 (if a == 224 then 160 else 128) (if a == 237 then 159 else 191) a rest
    else if between 240 244 a
    then rune_4 (if a == 240 then 144 else 128) (if a == 244 then 143 else 191) a rest
    else (65533, 1)

-- The loop of `CmdToBytes`, with Go's check of the index: at the offset of each rune its lowest
-- byte is written. `within` counts the bytes that still belong to the rune before.
unfoldable pub put_chars : ℕ → ℕ → Bytes → Bytes → Run Bytes
unfolding decode_rune
put_chars i within [] bytes = ok bytes
put_chars i (suc within) (c ∷ cs) bytes = put_chars (i + 1) within cs bytes
put_chars i zero (c ∷ cs) bytes =
    let first = decode_rune c cs in
    let rest = put_chars (i + 1) (first.1 - 1) cs (set bytes i (first.0 % 256)) in
    if ltb i (length bytes) then rest else panic index_out_of_range

-- `CmdToBytes`
unfoldable pub cmd_to_bytes : Bytes → Run Bytes
cmd_to_bytes cmd = put_chars 0 0 cmd no_command

-- `BytesToCmd`
unfoldable pub bytes_to_cmd : Bytes → Bytes
bytes_to_cmd [] = []
bytes_to_cmd (b ∷ bs) = let rest = bytes_to_cmd bs in if b == 0 then rest else b ∷ rest

-- `ExtractCmd`; the slice reaches into what stands behind the end of the request, as far as its
-- capacity goes
unfoldable pub extract_cmd : Bytes → Bytes → Run Bytes
extract_cmd request behind = slice (request ++ behind) 0 command_length
