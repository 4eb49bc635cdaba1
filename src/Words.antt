-- ===== src/Words.antt =====
-- Go's standard library on bytes, as far as the program calls it: `hex.EncodeToString` and
-- `hex.DecodeString`, `binary.Write` of an `int64` in big-endian order, `big.Int` to and from bytes.
pub mod Hex
pub mod Big
