-- ===== src/Tx/Signing.antt =====
-- What `Sign` signs, `Verify` accepts.
use golang_blockchain.Prelude.{
  ℕ, ◌+◌, ◌≡◌, refl, ap, ◌∙◌, true, some, List, [], ◌∷◌, ◌++◌, map, Bytes, Map, All, Bool-cases,
  inl, inr,
}
use golang_blockchain.Words.Big.{big_bytes}
use golang_blockchain.Types.{TxInput, Transaction}
use golang_blockchain.Platform.{Platform}
use golang_blockchain.Run.{ok, ◌>>=◌, Returns}
use golang_blockchain.Wallet.{PrivateKey, deserialize_private_key}
use golang_blockchain.Wallet.Halves.{Splits, halves-Splits}
use golang_blockchain.Tx.{
  one_empty_input, is_coinbase, trim_input, trimmed_copy, previous, output_at, check_previous,
  signed_data, sign_from, set_signatures, with_pub_key, hash, sign, verify_from, verify,
}

map-trim_input-set_signatures :
    (is : List TxInput) (sigs : List Bytes)
    → map trim_input (set_signatures is sigs) ≡ map trim_input is
unfolding set_signatures trim_input
map-trim_input-set_signatures [] sigs = refl
map-trim_input-set_signatures (i ∷ is) [] = refl
map-trim_input-set_signatures (i ∷ is) (g ∷ sigs) =
    ap (λ l. trim_input i ∷ l) (map-trim_input-set_signatures is sigs)

check_previous-set_signatures :
    (prev_txs : Map Transaction) (is : List TxInput) (sigs : List Bytes)
    → check_previous prev_txs (set_signatures is sigs) ≡ check_previous prev_txs is
unfolding set_signatures check_previous
check_previous-set_signatures prev_txs [] sigs = refl
check_previous-set_signatures prev_txs (i ∷ is) [] = refl
check_previous-set_signatures prev_txs (i ∷ is) (g ∷ sigs) =
    rw (check_previous-set_signatures prev_txs is sigs)

one_empty_input-set_signatures :
    (is : List TxInput) (sigs : List Bytes)
    → one_empty_input (set_signatures is sigs) ≡ one_empty_input is
unfolding set_signatures one_empty_input
one_empty_input-set_signatures [] sigs = refl
one_empty_input-set_signatures (i ∷ is) [] = refl
one_empty_input-set_signatures (i ∷ []) (g ∷ sigs) = refl
one_empty_input-set_signatures (i ∷ j ∷ is) (g ∷ []) = refl
one_empty_input-set_signatures (i ∷ j ∷ is) (g ∷ h ∷ sigs) = refl

is_coinbase-set_signatures :
    (tx : Transaction) (sigs : List Bytes)
    → is_coinbase (record tx { inputs = set_signatures tx.inputs sigs }) ≡ is_coinbase tx
unfolding is_coinbase
is_coinbase-set_signatures tx sigs = one_empty_input-set_signatures tx.inputs sigs

module _ (p : Platform) where
  open p.crypto use {ecdsa_sign, ecdsa_verify-ecdsa_sign}

  -- the output that an input names exists
  abbrev pub HasOutput : Map Transaction → TxInput → Type 0
  HasOutput prev_txs i = Returns (output_at (previous prev_txs i.id).outputs i.out) (λ _. Unit {0})

  abbrev pub HasKey : PrivateKey → TxInput → Type 0
  HasKey key i = i.pub_key ≡ big_bytes key.x ++ big_bytes key.y

  -- The calls of `ecdsa.Sign` for the inputs from the n-th on, each for the digest that is signed
  -- for its input, give signatures that are cut right when they are read.
  abbrev pub Signs :
      (ℕ → Bytes)
      → PrivateKey
      → Map Transaction
      → Transaction
      → ℕ
      → List TxInput
      → List TxInput
      → Type 0
  Signs rand key prev_txs copy n done [] = Unit
  Signs rand key prev_txs copy n done (i ∷ rest) =
      ((digest : Bytes)
        → signed_data p prev_txs copy done (trim_input i) (map trim_input rest) ≡ ok digest
        → (r : ℕ) × (s : ℕ) × (ecdsa_sign (rand n) key.d digest ≡ some (r, s)) × Splits r s)
      × Signs rand key prev_txs copy (n + 1) (done ++ trim_input i ∷ []) rest

  signed_data-Returns :
      (prev_txs : Map Transaction) (copy : Transaction) (done : List TxInput) (i : TxInput)
      (rest : List TxInput)
      → HasOutput prev_txs i
      → Returns (signed_data p prev_txs copy done (trim_input i) rest) (λ _. Unit {0})
  unfolding signed_data trim_input
  signed_data-Returns prev_txs copy done i rest (o, e, _) = (
    hash p (record copy { inputs = done ++ with_pub_key (trim_input i) o.pub_key_hash ∷ rest }),
    rw (e, ◌>>=◌) refl,
    tt,
  )

  module _ (rand : ℕ → Bytes) (raw : Bytes) (prev_txs : Map Transaction) (copy : Transaction)
      (split : Splits (deserialize_private_key p raw).x (deserialize_private_key p raw).y) where
    verify_step :
        (done rest : List TxInput) (i : TxInput) (sigs : List Bytes) (digest : Bytes) (n r s : ℕ)
        → HasKey (deserialize_private_key p raw) i
        → signed_data p prev_txs copy done (trim_input i) (map trim_input rest) ≡ ok digest
        → ecdsa_sign (rand n) (deserialize_private_key p raw).d digest ≡ some (r, s)
        → Splits r s
        → verify_from p prev_txs copy done
            (record i { signature = big_bytes r ++ big_bytes s } ∷ set_signatures rest sigs)
          ≡ verify_from p prev_txs copy (done ++ trim_input i ∷ []) (set_signatures rest sigs)
    unfolding verify_from deserialize_private_key
    verify_step done rest i sigs digest n r s own e es cut =
        rw (map-trim_input-set_signatures rest sigs, e, ◌>>=◌)
          (rw (
            halves-Splits r s cut,
            own,
            halves-Splits _ _ split,
            ecdsa_verify-ecdsa_sign (rand n) raw digest r s es,
          ))

    sign_from-Returns :
        (n : ℕ) (done rest : List TxInput)
        → All (HasOutput prev_txs) rest
        → All (HasKey (deserialize_private_key p raw)) rest
        → Signs rand (deserialize_private_key p raw) prev_txs copy n done rest
        → Returns
            (sign_from p rand
              (deserialize_private_key p raw)
              prev_txs
              copy
              n
              done
              (map trim_input rest))
            (λ sigs. verify_from p prev_txs copy done (set_signatures rest sigs) ≡ ok true)
    unfolding sign_from set_signatures
    sign_from-Returns n done [] within own signs = ([], refl, unfold verify_from in refl)
    sign_from-Returns n done (i ∷ rest) within own signs =
        let (digest, e, _) =
          signed_data-Returns prev_txs copy done i (map trim_input rest) within.0 in
        let (r, s, es, cut) = signs.0 digest e in
        let (sigs, e', v) =
          sign_from-Returns (n + 1) (done ++ trim_input i ∷ []) rest within.1 own.1 signs.1 in
        (
          (big_bytes r ++ big_bytes s) ∷ sigs,
          rw (e, ◌>>=◌, es, e') refl,
          verify_step done rest i sigs digest n r s own.0 e es cut ∙ v,
        )

  -- The conditions of a call of `Sign` that can succeed: every input names an output of a known
  -- transaction and carries the signer's key, the key's numbers have lengths at which they are cut
  -- right, and so have the signatures of the digests that are signed.
  pub record CanSign (rand : ℕ → Bytes) (raw : Bytes) (prev_txs : Map Transaction)
      (tx : Transaction) : Type 0 where
    pub known : check_previous prev_txs tx.inputs ≡ ok tt
    pub outputs_exist : All (HasOutput prev_txs) tx.inputs
    pub own : All (HasKey (deserialize_private_key p raw)) tx.inputs
    pub key_splits : Splits (deserialize_private_key p raw).x (deserialize_private_key p raw).y
    pub signs : Signs rand (deserialize_private_key p raw) prev_txs (trimmed_copy tx) 0 [] tx.inputs

  -- If every input names an output of a known transaction and carries the signer's key, the two
  -- numbers of the key are cut right when they are read, and `ecdsa.Sign` succeeds for the digest
  -- of each input with numbers that are cut right, then `Sign` returns, and `Verify` with the same previous transactions accepts the
  -- transaction that it returns.
  pub verify-sign :
      (rand : ℕ → Bytes) (raw : Bytes) (prev_txs : Map Transaction) (tx : Transaction)
      → CanSign rand raw prev_txs tx
      → Returns
          (sign p rand (deserialize_private_key p raw) prev_txs tx)
          (λ signed. verify p prev_txs signed ≡ ok true)
  unfolding sign verify trimmed_copy
  verify-sign rand raw prev_txs tx can = elim (Bool-cases (is_coinbase tx)) [
    | inl yes' ↦ (tx, rw yes' refl, rw yes' refl)
    | inr no' ↦
        let (sigs, e, v) =
          sign_from-Returns rand raw prev_txs (trimmed_copy tx) can.key_splits 0 [] tx.inputs
            can.outputs_exist can.own can.signs in
        (
          record tx { inputs = set_signatures tx.inputs sigs },
          rw (no', can.known, ◌>>=◌, e) refl,
          rw
              (
                is_coinbase-set_signatures tx sigs,
                no',
                check_previous-set_signatures prev_txs tx.inputs sigs,
                can.known,
                map-trim_input-set_signatures tx.inputs sigs,
              )
              v,
        )
  ]
