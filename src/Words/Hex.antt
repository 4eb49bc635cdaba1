-- ===== src/Words/Hex.antt =====
-- `encoding/hex`: two lower-case digits for a byte, and back.
use golang_blockchain.Prelude.{
  ℕ, ◌+◌, ◌-◌, ◌*◌, ◌/◌, ◌%◌, ◌<◌, ◌≡◌, refl, ap, ◌&&◌, Option, none, some, [], ◌∷◌, arith, Bytes,
  All, leb, if◌then◌else◌,
}

digit : ℕ → ℕ
digit n = if leb n 9 then 48 + n else 87 + n

-- `hex.EncodeToString`
unfoldable pub hex_encode : Bytes → Bytes
unfolding digit
hex_encode [] = []
hex_encode (b ∷ bs) = digit (b / 16) ∷ digit (b % 16) ∷ hex_encode bs

-- `fromHexChar`, upper-case digits included
from_digit : ℕ → Option ℕ
from_digit c =
    if leb 48 c && leb c 57
    then some (c - 48)
    else if leb 97 c && leb c 102
    then some (c - 87)
    else if leb 65 c && leb c 70
    then some (c - 55)
    else none

join_digits : Option ℕ → Option ℕ → Option Bytes → Option Bytes
join_digits (some h) (some l) (some bs) = some ((h * 16 + l) ∷ bs)
join_digits _ _ _ = none

-- `hex.DecodeString`; `none` is its error
unfoldable pub hex_decode : Bytes → Option Bytes
unfolding from_digit join_digits
hex_decode [] = some []
hex_decode (c ∷ []) = none
hex_decode (c ∷ d ∷ rest) = join_digits (from_digit c) (from_digit d) (hex_decode rest)

from_digit-digit : (n : ℕ) → n < 16 → from_digit (digit n) ≡ some n
unfolding digit from_digit
from_digit-digit n h = ground arith

-- Every string of bytes is read back from its hex form.
pub hex_decode-hex_encode : (b : Bytes) → All (λ x. x < 256) b → hex_decode (hex_encode b) ≡ some b
unfolding hex_decode hex_encode
hex_decode-hex_encode [] h = refl
hex_decode-hex_encode (b ∷ bs) h =
    rw
      (
        from_digit-digit (b / 16) (omega arith),
        from_digit-digit (b % 16) (omega arith),
        hex_decode-hex_encode bs h.1,
      )
      (ap (λ (x : ℕ). some (x ∷ bs)) (omega arith))

digit_injective : (m n : ℕ) → digit m ≡ digit n → m ≡ n
unfolding digit
digit_injective m n h = ground arith

-- Two strings with the same hex form are the same.
pub hex_encode_injective : (a b : Bytes) → hex_encode a ≡ hex_encode b → a ≡ b
unfolding hex_encode
hex_encode_injective [] [] h = refl
hex_encode_injective [] (y ∷ ys) h = cc
hex_encode_injective (x ∷ xs) [] h = cc
hex_encode_injective (x ∷ xs) (y ∷ ys) h = ground (
  arith,
  digit_injective (x / 16) (y / 16),
  digit_injective (x % 16) (y % 16),
  hex_encode_injective xs ys,
)
