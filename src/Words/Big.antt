-- ===== src/Words/Big.antt =====
-- `math/big`: `Int.SetBytes` and `Int.Bytes` of a number that is not negative, and
-- `binary.Write(…, binary.BigEndian, num)` for an `int64`.
use golang_blockchain.Prelude.{
  ℕ, zero, suc, ◌+◌, ◌*◌, ◌/◌, ◌%◌, ◌≤◌, ◌<◌, ◌≡◌, refl, ◌∙◌, [], ◌∷◌, ◌++◌, arith, Bytes, length,
  length-append, take, ◌≢◌, ℤ, to_bits,
}

-- the number so far, times 256, plus the next byte
big_from : ℕ → Bytes → ℕ
big_from acc [] = acc
big_from acc (b ∷ bs) = big_from (acc * 256 + b) bs

-- `z.SetBytes(buf)`
unfoldable pub set_bytes : Bytes → ℕ
unfolding big_from
set_bytes = big_from 0

-- the digits of `n`, the last one first taken off; `n` rounds are enough
big_digits : ℕ → ℕ → Bytes
big_digits zero n = []
big_digits (suc f) zero = []
big_digits (suc f) (suc n) = big_digits f (suc n / 256) ++ (suc n % 256) ∷ []

-- `x.Bytes()`: big-endian, with no leading zero
unfoldable pub big_bytes : ℕ → Bytes
unfolding big_digits
big_bytes n = big_digits n n

-- the `k` low bytes of `n`, the highest first
be_digits : ℕ → ℕ → Bytes
be_digits zero n = []
be_digits (suc k) n = be_digits k (n / 256) ++ (n % 256) ∷ []

-- `binary.Write` of an `int64`
unfoldable pub be_int64 : ℤ → Bytes
unfolding be_digits
be_int64 num = be_digits 8 (to_bits num)

big_from-append : (acc : ℕ) (a b : Bytes) → big_from acc (a ++ b) ≡ big_from (big_from acc a) b
unfolding big_from
big_from-append acc [] b = refl
big_from-append acc (x ∷ a) b = big_from-append (acc * 256 + x) a b

set_bytes-snoc : (a : Bytes) (x : ℕ) → set_bytes (a ++ x ∷ []) ≡ set_bytes a * 256 + x
unfolding set_bytes
set_bytes-snoc a x = big_from-append 0 a (x ∷ [])

set_bytes-big_digits : (f n : ℕ) → n ≤ f → set_bytes (big_digits f n) ≡ n
unfolding big_digits
set_bytes-big_digits zero n h = unfold set_bytes in omega arith
set_bytes-big_digits (suc f) zero h = unfold set_bytes in refl
set_bytes-big_digits (suc f) (suc n) h =
    set_bytes-snoc (big_digits f (suc n / 256)) (suc n % 256)
    ∙ omega (arith, set_bytes-big_digits f (suc n / 256) (omega arith))

-- A number is read back from its bytes.
pub set_bytes-big_bytes : (n : ℕ) → set_bytes (big_bytes n) ≡ n
unfolding big_bytes
set_bytes-big_bytes n = set_bytes-big_digits n n (omega arith)

length-be_digits : (k n : ℕ) → length (be_digits k n) ≡ k
unfolding be_digits
length-be_digits zero n = refl
length-be_digits (suc k) n =
    length-append (be_digits k (n / 256)) _ ∙ omega (arith, length-be_digits k (n / 256))

pub length-be_int64 : (num : ℤ) → length (be_int64 num) ≡ 8
unfolding be_int64
length-be_int64 num = length-be_digits 8 (to_bits num)

big_from-le : (acc : ℕ) (bs : Bytes) → acc ≤ big_from acc bs
unfolding big_from
big_from-le acc [] = omega arith
big_from-le acc (b ∷ bs) = omega (arith, big_from-le (acc * 256 + b) bs)

-- A proper prefix stands for less, by a factor of 256 at least.
set_bytes-take : (n : ℕ) (bs : Bytes) → n < length bs → set_bytes (take n bs) * 256 ≤ set_bytes bs
unfolding set_bytes
set_bytes-take n bs h = go 0 n bs h
  where
    go : (acc n : ℕ) (bs : Bytes) → n < length bs → big_from acc (take n bs) * 256 ≤ big_from acc bs
    go acc n [] h = absurd (omega arith)
    go acc zero (b ∷ bs) h = omega (arith, big_from-le (acc * 256 + b) bs)
    go acc (suc n) (b ∷ bs) h = go (acc * 256 + b) n bs (omega arith)

-- So a proper prefix of the bytes of a number is another number.
pub prefix-ne : (n k : ℕ) → k < length (big_bytes n) → set_bytes (take k (big_bytes n)) ≢ n
prefix-ne zero k h e = absurd (unfold big_bytes in omega arith)
prefix-ne (suc n) k h e =
    omega (arith, set_bytes-take k (big_bytes (suc n)) h, set_bytes-big_bytes (suc n))
