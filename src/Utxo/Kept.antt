-- ===== src/Utxo/Kept.antt =====
-- `Reindex` of blockchain/utxo.go changes nothing outside its prefix, whenever it returns.
use golang_blockchain.Prelude.{
  ℕ, ◌+◌, ◌≡◌, ◌≢◌, refl, sym, ap, ◌∙◌, true, false, inl, inr, List, [], ◌∷◌, ◌++◌, All, In, Bytes,
  Map, keys, ltb, ◌==◌, has_prefix, bytes_equal_ne, false≢true, Bool-cases,
}
use golang_blockchain.Words.Hex.{hex_decode}
use golang_blockchain.Types.{TxOutput}
use golang_blockchain.Platform.{Platform, txn_set, txn_delete}
use golang_blockchain.Run.{
  Run, ok, panic, or_panic, bad_key, decode_failed, Ensures, Ensures-ok, Ensures->>=, Ensures-after,
  Ensures-if,
}
use golang_blockchain.Chain.{BlockChain}
use golang_blockchain.Utxo.{
  utxo_prefix, collect_size, delete_keys, delete_batches, delete_by_prefix, find_utxo, store_utxo,
  reindex,
}

abbrev Under : Bytes → Type 0
Under k = has_prefix utxo_prefix k ≡ true

prefixed_ne : (k j : Bytes) → Under k → has_prefix utxo_prefix j ≡ false → k ≢ j
prefixed_ne k j h n e = false≢true (sym n ∙ ap (has_prefix utxo_prefix) (sym e) ∙ h)

All-keys :
    (es : List (Bytes × Bytes)) → ((k v : Bytes) → In (k, v) es → Under k) → All Under (keys es)
unfolding keys
All-keys [] h = tt
All-keys ((k, v) ∷ es) h = (h k v (inl refl), All-keys es (λ j w m. h j w (inr m)))

All-snoc : (ks : List Bytes) (k : Bytes) → All Under ks → Under k → All Under (ks ++ k ∷ [])
All-snoc [] k hs h = (h, tt)
All-snoc (j ∷ ks) k hs h = (hs.0, All-snoc ks k hs.1 h)

module _ (p : Platform) where
  open p.badger use {DB, get, put, delete, accepts, scan, scan_sound, get-put, get-delete}

  -- every key outside the prefix is as it was
  abbrev pub Kept : DB → DB → Type 0
  Kept db after = (j : Bytes) → has_prefix utxo_prefix j ≡ false → get after j ≡ get db j

  later :
      (db mid : DB) (call : Run DB) → Kept db mid → Ensures (Kept mid) call → Ensures (Kept db) call
  later db mid call s h out e j n = h out e j n ∙ s j n

  txn_delete-Kept : (db : DB) (k : Bytes) → Under k → Ensures (Kept db) (txn_delete p.badger db k)
  unfolding txn_delete
  txn_delete-Kept db k h =
      Ensures-if (Kept db) (accepts k) (ok (delete db k)) (panic bad_key)
        (Ensures-ok (Kept db) (delete db k)
          (λ j n. get-delete db k j ∙ rw (bytes_equal_ne k j (prefixed_ne k j h n)) refl))
        (λ out e. cc)

  txn_set-Kept : (db : DB) (k v : Bytes) → Under k → Ensures (Kept db) (txn_set p.badger db k v)
  unfolding txn_set
  txn_set-Kept db k v h =
      Ensures-if (Kept db) (accepts k) (ok (put db k v)) (panic bad_key)
        (Ensures-ok (Kept db) (put db k v)
          (λ j n. get-put db k j v ∙ rw (bytes_equal_ne k j (prefixed_ne k j h n)) refl))
        (λ out e. cc)

  delete_keys-Kept :
      (ks : List Bytes) (db : DB) → All Under ks → Ensures (Kept db) (delete_keys p ks db)
  unfolding delete_keys
  delete_keys-Kept [] db h = Ensures-ok (Kept db) db (λ j n. refl)
  delete_keys-Kept (k ∷ ks) db (h, hs) =
      Ensures->>= (Kept db) (Kept db) (txn_delete p.badger db k) (delete_keys p ks)
        (txn_delete-Kept db k h) (λ mid s. later db mid _ s (delete_keys-Kept ks mid hs))

  delete_batches-Kept :
      (collected : ℕ) (batch ks : List Bytes) (db : DB)
      → All Under batch
      → All Under ks
      → Ensures (Kept db) (delete_batches p collected batch ks db)
  unfolding delete_batches
  delete_batches-Kept collected batch [] db hb hs =
      Ensures-if (Kept db) (ltb 0 collected) (delete_keys p batch db) (ok db)
        (delete_keys-Kept batch db hb) (Ensures-ok (Kept db) db (λ j n. refl))
  delete_batches-Kept collected batch (k ∷ ks) db hb (h, hs) =
      elim (Bool-cases ((collected + 1) == collect_size)) [
        | inl full ↦
            rw (delete_batches, full)
              (Ensures->>= (Kept db) (Kept db) (delete_keys p (batch ++ k ∷ []) db)
                (delete_batches p 0 [] ks)
                (delete_keys-Kept (batch ++ k ∷ []) db (All-snoc batch k hb h))
                (λ mid s. later db mid _ s (delete_batches-Kept 0 [] ks mid tt hs)))
        | inr room ↦
            rw (delete_batches, room)
              (delete_batches-Kept (collected + 1) (batch ++ k ∷ []) ks db (All-snoc batch k hb h)
                hs)
      ]

  store_utxo-Kept : (es : Map (List TxOutput)) (db : DB) → Ensures (Kept db) (store_utxo p es db)
  unfolding store_utxo has_prefix
  store_utxo-Kept [] db = Ensures-ok (Kept db) db (λ j n. refl)
  store_utxo-Kept ((k, outs) ∷ es) db =
      Ensures-after (Kept db) (or_panic decode_failed (hex_decode k)) _ (λ key.
        Ensures->>= (Kept db) (Kept db)
          (txn_set p.badger db (utxo_prefix ++ key)
            (p.outputs_codec.encode (record { outputs = outs })))
          (store_utxo p es) (txn_set-Kept db (utxo_prefix ++ key) _ refl)
          (λ mid s. later db mid _ s (store_utxo-Kept es mid)))

  pub reindex-Kept :
      (fuel : ℕ) (range : Map (List TxOutput) → Map (List TxOutput)) (chain : BlockChain p)
      → Ensures
          (λ after. (after.last_hash ≡ chain.last_hash) × Kept chain.database after.database)
          (reindex p fuel range chain)
  unfolding reindex delete_by_prefix
  reindex-Kept fuel range chain =
      let db = chain.database in
      let Post : BlockChain p → Type 0 =
        λ after. (after.last_hash ≡ chain.last_hash) × Kept db after.database in
      Ensures->>= (Kept db) Post (delete_batches p 0 [] (keys (scan db utxo_prefix)) db) _
        (delete_batches-Kept 0 [] (keys (scan db utxo_prefix)) db tt
          (All-keys (scan db utxo_prefix) (λ k v m. (scan_sound db utxo_prefix k v m).1)))
        (λ cleared s.
          Ensures-after Post (find_utxo p fuel (record chain { database = cleared })) _ (λ utxo.
            Ensures->>= (Kept db) Post (store_utxo p (range utxo) cleared) _
              (later db cleared _ s (store_utxo-Kept (range utxo) cleared))
              (λ after kept. Ensures-ok Post (record chain { database = after }) (refl, kept))))
