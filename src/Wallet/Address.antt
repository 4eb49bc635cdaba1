-- ===== src/Wallet/Address.antt =====
-- Addresses: what `Address` prints is valid and carries the hash of the key.
use golang_blockchain.Prelude.{
  ℕ, suc, ◌-◌, ◌≤◌, ◌<◌, ◌≡◌, refl, ap, ◌∙◌, true, [], ◌∷◌, ◌++◌, Bytes, length, leb, bytes_equal,
  bytes_equal_refl, length-append, length-take, take-append_self, drop-append_self, arith,
}
use golang_blockchain.Types.{Wallet}
use golang_blockchain.Platform.{Platform}
use golang_blockchain.Run.{ok, panic, index_out_of_range, ◌>>=◌}
use golang_blockchain.Wallet.{
  version, slice, last_bytes, payload, first_byte, base58_encode, base58_decode, public_key_hash,
  checksum, address, validate_address,
}

le→leb : (a b : ℕ) → a ≤ b → leb a b ≡ true
le→leb a b h = ground arith

-- The parts of a payload with a version byte and four bytes of checksum behind it.
last_four : (a b : Bytes) → length b ≡ 4 → last_bytes (a ++ b) 4 ≡ ok b
unfolding last_bytes
last_four a b four =
    let len = length-append a b in
    let e : length (a ++ b) - 4 ≡ length a = omega arith in
    rw (le→leb 4 (length (a ++ b)) (omega arith), e) (ap ok (drop-append_self a b))

pub payload-append : (v : ℕ) (a b : Bytes) → length b ≡ 4 → payload (v ∷ a ++ b) ≡ ok a
unfolding payload slice
payload-append v a b four =
    let len = length-append a b in
    let e : suc (length (a ++ b)) - 4 ≡ suc (length a) = omega arith in
    rw (le→leb 4 (suc (length (a ++ b))) (omega arith), e)
      (rw (
        le→leb 1 (suc (length a)) (omega arith),
        le→leb (suc (length a)) (suc (length (a ++ b))) (omega arith),
        take-append_self a b,
      ))

-- In the section, a key is given by its bytes.
module _ (p : Platform) where
  length-checksum : (m : Bytes) → length (checksum p m) ≡ 4
  unfolding checksum
  length-checksum m =
      let len = p.crypto.length-sha256 (p.crypto.sha256 m) in
      length-take 4 (p.crypto.sha256 (p.crypto.sha256 m)) ∙ omega arith

  -- what `Address` encodes
  full_hash : Wallet → Bytes
  full_hash w =
      let versioned_hash = version ∷ public_key_hash p w.public_key in
      versioned_hash ++ checksum p versioned_hash

  base58_decode-address : (w : Wallet) → base58_decode p (address p w) ≡ ok (full_hash w)
  unfolding base58_decode address full_hash base58_encode
  base58_decode-address w = rw p.base58.base58_decode-base58_encode

  -- The address of a wallet is valid.
  pub validate_address-address : (w : Wallet) → validate_address p (address p w) ≡ ok true
  unfolding validate_address full_hash first_byte
  validate_address-address w =
      let m = version ∷ public_key_hash p w.public_key in
      let four = length-checksum m in
      rw (base58_decode-address w, ◌>>=◌)
        (rw (
          last_four m (checksum p m) four,
          payload-append version (public_key_hash p w.public_key) (checksum p m) four,
          bytes_equal_refl,
        ))

  -- The hash of the key is cut out of an address again.
  pub payload-address :
      (w : Wallet) → base58_decode p (address p w) >>= payload ≡ ok (public_key_hash p w.public_key)
  unfolding full_hash
  payload-address w =
      let m = version ∷ public_key_hash p w.public_key in
      rw (base58_decode-address w, ◌>>=◌)
        (payload-append version (public_key_hash p w.public_key) (checksum p m) (length-checksum m))

  -- An address whose decoded form has fewer than five bytes makes `ValidateAddress` panic.
  pub validate_address_short :
      (addr full : Bytes)
      → base58_decode p addr ≡ ok full
      → length full < 5
      → validate_address p addr ≡ panic index_out_of_range
  unfolding validate_address last_bytes first_byte payload slice
  validate_address_short addr full e h = rw (e, ◌>>=◌) (short full h)
    where
      short :
          (full : Bytes)
          → length full < 5
          → (last_bytes full 4 >>= λ actual. first_byte full >>= λ v.
              payload full >>= λ hash. ok (bytes_equal actual (checksum p (v ∷ hash))))
            ≡ panic index_out_of_range
      short [] h = refl
      short (a ∷ []) h = refl
      short (a ∷ b ∷ []) h = refl
      short (a ∷ b ∷ c ∷ []) h = refl
      short (a ∷ b ∷ c ∷ d ∷ []) h = refl
      short (a ∷ b ∷ c ∷ d ∷ e ∷ r) h = absurd (omega arith)
