-- ===== src/Utxo/Shifted.antt =====
-- The index under which `FindSpendableOutputs` reports an output, after `Update` has removed the one
-- before it.
use golang_blockchain.Prelude.{
  ℕ, ◌<◌, ◌≡◌, refl, sym, ◌∙◌, true, some, List, [], ◌∷◌, ◌++◌, Bytes, pos, ◌+ℤ◌, ltb_ℤ, lookup,
  insert, trim_prefix, has_prefix, bytes_equal, bytes_equal_refl, bytes_equal→eq, Bool-cases, inl,
  inr, arith,
}
use golang_blockchain.Words.Hex.{hex_encode}
use golang_blockchain.Types.{TxInput, TxOutput}
use golang_blockchain.Platform.{Platform, txn_get, txn_set, decode_or_panic}
use golang_blockchain.Run.{ok, ◌>>=◌, Returns}
use golang_blockchain.Tx.{is_locked_with_key, output_at}
use golang_blockchain.Utxo.{
  append_at, slice_at, spend_outputs, spend_entries, find_spendable_outputs, utxo_prefix,
}
use golang_blockchain.Utxo.Updating.{outputs_without, write_rest, update_inputs}
use golang_blockchain.Utxo.Scanned.{scan_one}

module _ (p : Platform) where
  open p.badger use {DB, get, put, scan, accepts, get-put}

  -- the stored form of a transaction's unspent outputs
  abbrev pub stored : List TxOutput → Bytes
  stored outs = p.outputs_codec.encode (record { outputs = outs })

  -- the loop of `Update` over the one input that spends the first of two outputs
  update_first :
      (d : DB) (i : TxInput) (gone out : TxOutput)
      → get d (utxo_prefix ++ i.id) ≡ some (stored (gone ∷ out ∷ []))
      → accepts (utxo_prefix ++ i.id) ≡ true
      → i.out ≡ pos 0
      → update_inputs p (i ∷ []) d ≡ ok (put d (utxo_prefix ++ i.id) (stored (out ∷ [])))
  unfolding update_inputs txn_get txn_set decode_or_panic write_rest outputs_without
  update_first d i gone out here fits first =
      rw (here, ◌>>=◌)
        (rw (p.outputs_codec.decode-encode (record { outputs = gone ∷ out ∷ [] }), ◌>>=◌)
          (rw (first, fits, ◌>>=◌) refl))

  find_one :
      (d : DB) (h id : Bytes) (n : ℕ) (out : TxOutput)
      → scan d utxo_prefix ≡ (utxo_prefix ++ id, stored (out ∷ [])) ∷ []
      → is_locked_with_key out h ≡ true
      → 0 < n
      → find_spendable_outputs p d h (pos n)
        ≡ ok (record {
          accumulated = pos 0 +ℤ out.value;
          unspent_outs = (hex_encode id, pos 0 ∷ []) ∷ [];
        })
  unfolding find_spendable_outputs spend_entries spend_outputs append_at slice_at insert lookup
      decode_or_panic trim_prefix has_prefix
  find_one d h id n out scanned ours some_amount = rw scanned (
      rw (p.outputs_codec.decode-encode (record { outputs = out ∷ [] }), ◌>>=◌)
        (rw ours (rw below refl)))
    where
      below : ltb_ℤ (pos 0) (pos n) ≡ true
      below = ground arith

  -- Let a database hold the unspent outputs of one transaction only, which has two of them, and let
  -- the second be locked with the key. When the loop of `Update` over the inputs of a transaction
  -- has taken off the first as spent, `FindSpendableOutputs` for an amount above 0 accumulates the
  -- value of the second, but reports it under the index 0, at which the transaction has the output
  -- that is spent.
  pub find_spendable_outputs_shifted :
      (d : DB) (h : Bytes) (i : TxInput) (n : ℕ) (gone out : TxOutput)
      → get d (utxo_prefix ++ i.id) ≡ some (stored (gone ∷ out ∷ []))
      → ((j v : Bytes)
          → get d j ≡ some v
          → has_prefix utxo_prefix j ≡ true
          → j ≡ utxo_prefix ++ i.id)
      → accepts (utxo_prefix ++ i.id) ≡ true
      → i.out ≡ pos 0
      → is_locked_with_key out h ≡ true
      → 0 < n
      → Returns (update_inputs p (i ∷ []) d) (λ after.
        find_spendable_outputs p after h (pos n)
        ≡ ok (record {
          accumulated = pos 0 +ℤ out.value;
          unspent_outs = (hex_encode i.id, pos 0 ∷ []) ∷ [];
        }))
        × (output_at (gone ∷ out ∷ []) (pos 0) ≡ ok gone)
  unfolding output_at
  find_spendable_outputs_shifted d h i n gone out here alone fits first ours some_amount =
      let k = utxo_prefix ++ i.id in
      let after = put d k (stored (out ∷ [])) in
      let scanned =
        scan_one p after utxo_prefix k (stored (out ∷ []))
          (get-put d k k (stored (out ∷ [])) ∙ rw (bytes_equal_refl k) refl)
          (unfold has_prefix in refl)
          (λ j v at under. elim (Bool-cases (bytes_equal k j)) [
            | inl e ↦ sym (bytes_equal→eq k j e)
            | inr other ↦
                let before : get d j ≡ some v = sym (get-put d k j _ ∙ rw other refl) ∙ at in
                alone j v before under
          ]) in
      (
        (
          after,
          update_first d i gone out here fits first,
          find_one after h i.id n out scanned ours some_amount,
        ),
        refl,
      )
