-- ===== src/Utxo/Scanned.antt =====
-- A scan of the database, where one entry only stands under the prefix, and what the functions of
-- blockchain/utxo.go that scan read off it.
use golang_blockchain.Prelude.{
  ◌≡◌, refl, sym, ap, ◌∙◌, true, inl, inr, some, some-injective, List, [], ◌∷◌, ◌++◌, In, Bytes,
  length, drop, has_prefix, append-nil, if◌then◌else◌, arith,
}
use golang_blockchain.Types.{TxOutput}
use golang_blockchain.Platform.{Platform, Once, decode_or_panic}
use golang_blockchain.Run.{ok}
use golang_blockchain.Tx.{is_locked_with_key}
use golang_blockchain.Utxo.{utxo_prefix, find_unspent_transactions, unspent_entries, locked_outputs}

pub has_prefix-append : (p k : Bytes) → has_prefix p k ≡ true → k ≡ p ++ drop (length p) k
unfolding has_prefix
has_prefix-append [] k h = refl
has_prefix-append (c ∷ p) [] h = cc
has_prefix-append (c ∷ p) (d ∷ k) h =
    let same : c ≡ d = ground (arith, h) in
    let rest : has_prefix p k ≡ true = ground (arith, h) in
    rw (sym same) (ap (λ l. c ∷ l) (has_prefix-append p k rest))

-- a list of entries with keys of their own whose keys are all the same
only_entry :
    (es : List (Bytes × Bytes)) (k v : Bytes)
    → In (k, v) es
    → ((j u : Bytes) → In (j, u) es → (j ≡ k) × (u ≡ v))
    → Once es
    → es ≡ (k, v) ∷ []
only_entry [] k v m all once = absurd m
only_entry ((i, w) ∷ []) k v m all once = let (a, b) = all i w (inl refl) in λ t. (a t, b t) ∷ []
only_entry ((i, w) ∷ (j, u) ∷ es) k v m all ((differ, _), _) =
    let (a, _) = all i w (inl refl) in
    let (b, _) = all j u (inr (inl refl)) in absurd (differ (b ∙ sym a))

module _ (p : Platform) where
  open p.badger use {DB, get, scan, scan_sound, scan_complete, scan_once}

  pub scan_one :
      (d : DB) (prefix k v : Bytes)
      → get d k ≡ some v
      → has_prefix prefix k ≡ true
      → ((j u : Bytes) → get d j ≡ some u → has_prefix prefix j ≡ true → j ≡ k)
      → scan d prefix ≡ (k, v) ∷ []
  scan_one d prefix k v e under alone =
      only_entry (scan d prefix) k v (scan_complete d prefix k v e under)
        (λ j u m.
          let (at, q) = scan_sound d prefix j u m in
          let same = alone j u at q in (same, some-injective u v (sym at ∙ ap (get d) same ∙ e)))
        (scan_once d prefix)

  -- the unspent outputs of a key, where one transaction with one unspent output is stored
  pub find_unspent_transactions_one :
      (d : DB) (k pub_key_hash : Bytes) (out : TxOutput)
      → scan d utxo_prefix ≡ (k, p.outputs_codec.encode (record { outputs = out ∷ [] })) ∷ []
      → find_unspent_transactions p d pub_key_hash
        ≡ ok (if is_locked_with_key out pub_key_hash then out ∷ [] else [])
  unfolding find_unspent_transactions unspent_entries locked_outputs decode_or_panic
  find_unspent_transactions_one d k pub_key_hash out e =
      rw e
        (rw (p.outputs_codec.decode-encode (record { outputs = out ∷ [] })) (ap ok (append-nil _)))
