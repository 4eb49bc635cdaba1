-- ===== src/Wallet/Halves.antt =====
-- A signature is r.Bytes() and s.Bytes() in one string, and a key is X.Bytes() and Y.Bytes(); both
-- are cut in the middle when they are read. The cut is right only for certain lengths.
use golang_blockchain.Prelude.{
  ℕ, suc, ◌/◌, ◌<◌, ◌≡◌, ◌≢◌, ◌⊎◌, ◌++◌, length, length-append, take-append_self, drop-append_self,
  take-append_left, arith,
}
use golang_blockchain.Words.Big.{big_bytes, set_bytes-big_bytes, prefix-ne}
use golang_blockchain.Wallet.{halves}

-- the lengths at which the cut falls between the two numbers
abbrev pub Splits : ℕ → ℕ → Type 0
Splits a b =
    (length (big_bytes b) ≡ length (big_bytes a))
    ⊎ (length (big_bytes b) ≡ suc (length (big_bytes a)))

-- If the second number has as many bytes as the first, or one more, both are read back.
pub halves-Splits : (a b : ℕ) → Splits a b → halves (big_bytes a ++ big_bytes b) ≡ (a, b)
unfolding halves
halves-Splits a b h =
    let len = length-append (big_bytes a) (big_bytes b) in
    let e : length (big_bytes a ++ big_bytes b) / 2 ≡ length (big_bytes a) = omega arith in
    rw (
      e,
      take-append_self (big_bytes a) (big_bytes b),
      drop-append_self (big_bytes a) (big_bytes b),
      set_bytes-big_bytes,
      set_bytes-big_bytes b,
    )

-- If the second number has fewer bytes than the first, another first number is read.
pub halves_misread :
    (a b : ℕ)
    → length (big_bytes b) < length (big_bytes a)
    → (halves (big_bytes a ++ big_bytes b)).0 ≢ a
unfolding halves
halves_misread a b h =
    let len = length-append (big_bytes a) (big_bytes b) in
    let k = length (big_bytes a ++ big_bytes b) / 2 in
    rw (take-append_left k (big_bytes a) (big_bytes b) (omega arith)) (prefix-ne a k (omega arith))
