-- ===== src/Wallet.antt =====
-- wallet/wallet.go, wallet/utils.go: keys, addresses and their checksum.
pub mod Address
pub mod Halves
use golang_blockchain.Prelude.{
  ℕ, ◌+◌, ◌-◌, ◌/◌, Bool, true, false, Option, List, [], ◌∷◌, ◌++◌, Bytes, length, take, drop, leb,
  bytes_equal, if◌then◌else◌,
}
use golang_blockchain.Words.Big.{set_bytes, big_bytes}
use golang_blockchain.Types.{Wallet}
use golang_blockchain.Platform.{Platform}
use golang_blockchain.Run.{
  Run, ok, panic, or_panic, decode_failed, index_out_of_range, sign_failed, ◌>>=◌,
}

-- `checksumLength`, `version`
abbrev pub checksum_length : ℕ
checksum_length = 4

abbrev pub version : ℕ
version = 0

-- `b[lo:hi]`, with Go's check of the bounds
unfoldable pub slice : Bytes → ℕ → ℕ → Run Bytes
slice b lo hi =
    if leb lo hi
    then if leb hi (length b) then ok (drop lo (take hi b)) else panic index_out_of_range
    else panic index_out_of_range

-- `b[len(b)-n:]`: the index is negative if `b` is shorter than `n`
unfoldable pub last_bytes : Bytes → ℕ → Run Bytes
last_bytes b n = if leb n (length b) then ok (drop (length b - n) b) else panic index_out_of_range

-- `b[1 : len(b)-checksumLength]`
unfoldable pub payload : Bytes → Run Bytes
unfolding slice
payload b =
    if leb checksum_length (length b)
    then slice b 1 (length b - checksum_length)
    else panic index_out_of_range

-- `b[0]`
unfoldable pub first_byte : Bytes → Run ℕ
first_byte [] = panic index_out_of_range
first_byte (x ∷ xs) = ok x

-- the two halves of a point or a signature, `b[:len(b)/2]` and `b[len(b)/2:]`, as numbers
unfoldable pub halves : Bytes → ℕ × ℕ
halves b = (set_bytes (take (length b / 2) b), set_bytes (drop (length b / 2) b))

-- `*ecdsa.PrivateKey`: the number and its point
pub record PrivateKey : Type 0 where
  pub d : ℕ
  pub x : ℕ
  pub y : ℕ

module _ (p : Platform) where
  -- `Base58Encode`, `Base58Decode`
  unfoldable pub base58_encode : Bytes → Bytes
  base58_encode input = p.base58.base58_encode input

  unfoldable pub base58_decode : Bytes → Run Bytes
  base58_decode input = or_panic decode_failed (p.base58.base58_decode input)

  unfoldable pub deserialize_private_key : Bytes → PrivateKey
  deserialize_private_key raw =
      let point = p.crypto.scalar_base_mult raw in
      record { d = set_bytes raw; x = point.0; y = point.1 }

  unfoldable pub public_key_hash : Bytes → Bytes
  public_key_hash pub_key = p.crypto.ripemd160 (p.crypto.sha256 pub_key)

  unfoldable pub checksum : Bytes → Bytes
  checksum payload = take checksum_length (p.crypto.sha256 (p.crypto.sha256 payload))

  unfoldable pub address : Wallet → Bytes
  address w =
      let versioned_hash = version ∷ public_key_hash w.public_key in
      base58_encode (versioned_hash ++ checksum versioned_hash)

  unfoldable pub validate_address : Bytes → Run Bool
  validate_address addr = do
    full ← base58_decode addr
    actual ← last_bytes full checksum_length
    v ← first_byte full
    hash ← payload full
    ok (bytes_equal actual (checksum (v ∷ hash)))

  -- `NewKeyPair`, with what it draws from `rand.Reader`
  unfoldable pub new_key_pair : Bytes → Run (Bytes × Bytes)
  new_key_pair rand = do
    d ← or_panic sign_failed (p.crypto.generate_key rand)
    let point = p.crypto.scalar_base_mult (big_bytes d)
    ok (big_bytes d, big_bytes point.0 ++ big_bytes point.1)

  unfoldable pub make_wallet : Bytes → Run Wallet
  unfolding new_key_pair
  make_wallet rand = do
    (private, public) ← new_key_pair rand
    ok (record { private_key = private; public_key = public })
