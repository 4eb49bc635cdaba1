-- ===== src/Platform.antt =====
-- What the program calls and does not implement: the hash functions, ECDSA on P-256, Base58, gob,
-- and the Badger database, each as operations with the laws that their documents state.
use golang_blockchain.Prelude.{
  ℕ, ◌<◌, ◌≡◌, ◌≢◌, Bool, true, Option, none, some, List, [], ◌∷◌, Bytes, All, In, length,
  has_prefix, bytes_equal, if◌then◌else◌,
}
use golang_blockchain.Words.Big.{set_bytes}
use golang_blockchain.Types.{Transaction, TxOutputs, Block}
use golang_blockchain.Run.{Run, ok, panic, or_panic, key_not_found, bad_key, decode_failed}

-- `crypto/sha256`, `ripemd160`, and `crypto/ecdsa` over `elliptic.P256()`. Randomness is the
-- byte string that a call draws from `rand.Reader`.
pub record Crypto : Type 0 where
  pub sha256 : Bytes → Bytes
  pub ripemd160 : Bytes → Bytes
  pub length-sha256 : (msg : Bytes) → length (sha256 msg) ≡ 32
  pub sha256_bytes : (msg : Bytes) → All (λ x. x < 256) (sha256 msg)
  -- `curve.ScalarBaseMult(k)`: the point of a private number in big-endian bytes
  pub scalar_base_mult : Bytes → ℕ × ℕ
  -- `ecdsa.GenerateKey`: the number D; `none` is its error
  pub generate_key : Bytes → Option ℕ
  -- `ecdsa.Sign` with the private number; `none` is its error
  pub ecdsa_sign : Bytes → ℕ → Bytes → Option (ℕ × ℕ)
  -- `ecdsa.Verify` with the point, the digest, and the two numbers of a signature
  pub ecdsa_verify : ℕ → ℕ → Bytes → ℕ → ℕ → Bool
  pub ecdsa_verify-ecdsa_sign :
      (rand k digest : Bytes) (r s : ℕ)
      → ecdsa_sign rand (set_bytes k) digest ≡ some (r, s)
      → ecdsa_verify (scalar_base_mult k).0 (scalar_base_mult k).1 digest r s ≡ true

-- `github.com/mr-tron/base58`
pub record Base58 : Type 0 where
  pub base58_encode : Bytes → Bytes
  pub base58_decode : Bytes → Option Bytes
  pub base58_decode-base58_encode : (b : Bytes) → base58_decode (base58_encode b) ≡ some b

-- `encoding/gob` at one type; decoding reads back what was encoded.
pub record Codec (A : Type 0) : Type 0 where
  pub encode : A → Bytes
  pub decode : Bytes → Option A
  pub decode-encode : (a : A) → decode (encode a) ≡ some a

-- no key stands in two entries
abbrev pub Once : List (Bytes × Bytes) → Type 0
Once [] = Unit
Once ((k, v) ∷ es) = All (λ (e : Bytes × Bytes). e.0 ≢ k) es × Once es

-- The keys on which an iterator stops that seeks a prefix: `it.Seek(p)` and `it.Next()` while
-- `it.ValidForPrefix(p)`.
pub record Badger : Type 1 where
  pub DB : Type 0
  -- `badger.Open` on an empty directory
  pub empty_db : DB
  pub get : DB → Bytes → Option Bytes
  pub put : DB → Bytes → Bytes → DB
  pub delete : DB → Bytes → DB
  pub scan : DB → Bytes → List (Bytes × Bytes)
  -- the keys that `Set` and `Delete` take: not empty, not too long, not Badger's own
  pub accepts : Bytes → Bool
  pub get-empty_db : (k : Bytes) → get empty_db k ≡ none
  pub get-put :
      (d : DB) (k j v : Bytes) → get (put d k v) j ≡ (if bytes_equal k j then some v else get d j)
  pub get-delete :
      (d : DB) (k j : Bytes) → get (delete d k) j ≡ (if bytes_equal k j then none else get d j)
  -- an iterator yields exactly the entries under the prefix
  pub scan_sound :
      (d : DB) (p k v : Bytes) → In (k, v) (scan d p) → (get d k ≡ some v) × (has_prefix p k ≡ true)
  pub scan_complete :
      (d : DB) (p k v : Bytes) → get d k ≡ some v → has_prefix p k ≡ true → In (k, v) (scan d p)
  -- each of them once
  pub scan_once : (d : DB) (p : Bytes) → Once (scan d p)

pub record Platform : Type 1 where
  pub crypto : Crypto
  pub base58 : Base58
  pub badger : Badger
  pub transaction_codec : Codec Transaction
  pub outputs_codec : Codec TxOutputs
  pub block_codec : Codec Block

-- `txn.Get(key)` with `Handle(err)` behind it.
module _ (b : Badger) where
  open b use {DB, get, put, delete, accepts}

  unfoldable pub txn_get : DB → Bytes → Run Bytes
  txn_get d k = or_panic key_not_found (get d k)

  -- `txn.Set(key, value)` with `Handle(err)`
  unfoldable pub txn_set : DB → Bytes → Bytes → Run DB
  txn_set d k v = if accepts k then ok (put d k v) else panic bad_key

  -- `txn.Delete(key)` with `log.Panic(err)`
  unfoldable pub txn_delete : DB → Bytes → Run DB
  txn_delete d k = if accepts k then ok (delete d k) else panic bad_key

-- a decoder with `Handle(err)` behind it
unfoldable pub decode_or_panic : {A : Type 0} → Codec A → Bytes → Run A
decode_or_panic c raw = or_panic decode_failed (c.decode raw)
