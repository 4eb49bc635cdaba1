-- ===== src/Utxo/Updated.antt =====
-- `Update` of blockchain/utxo.go, against a ledger: for each transaction its unspent outputs.
use golang_blockchain.Prelude.{
  ◌≡◌, refl, sym, subst, ◌∙◌, true, false, inl, inr, Option, none, some, List, [], ◌∷◌, ◌++◌, All,
  Bytes, has_prefix, bytes_equal, bytes_equal_ne, Bool-cases, if◌then◌else◌,
}
use golang_blockchain.Types.{Transaction, TxInput, TxOutput, Block}
use golang_blockchain.Platform.{Platform, txn_get, txn_set, txn_delete, decode_or_panic}
use golang_blockchain.Run.{Run, ok, panic, key_not_found, ◌>>=◌, Returns}
use golang_blockchain.Tx.{is_coinbase}
use golang_blockchain.Chain.{BlockChain}
use golang_blockchain.Utxo.{utxo_prefix}
use golang_blockchain.Utxo.Updating.{write_rest, update_inputs, update_transactions, update}
use golang_blockchain.Utxo.Reindexed.{stored_or, outside}
use golang_blockchain.Utxo.Ledger.{
  Ledger, set_at, without_at, if_any, spend_all, apply_all, without_at-is,
}

module _ (p : Platform) where
  open p.badger use {DB, get, put, delete, accepts, get-put, get-delete}

  -- the database holds the ledger under the prefix
  unfoldable pub Holds : DB → Ledger → Type 0
  Holds db m = (id : Bytes) → get db (utxo_prefix ++ id) ≡ stored_or p (m id) none

  -- nothing else has changed
  unfoldable pub Same : DB → DB → Type 0
  Same db after = (j : Bytes) → has_prefix utxo_prefix j ≡ false → get after j ≡ get db j

  under_equal :
      (id j : Bytes) → bytes_equal (utxo_prefix ++ id) (utxo_prefix ++ j) ≡ bytes_equal id j
  unfolding bytes_equal
  under_equal id j = refl

  put-Holds :
      (db : DB) (m : Ledger) (id : Bytes) (outs : List TxOutput)
      → Holds db m
      → let after =
          put db (utxo_prefix ++ id) (p.outputs_codec.encode (record { outputs = outs })) in
        Holds after (set_at m id (some outs)) × Same db after
  unfolding Holds Same set_at stored_or
  put-Holds db m id outs h = (
    (λ j.
        get-put _ _ _ _
        ∙ rw (under_equal id j) (elim (Bool-cases (bytes_equal id j)) [
          | inl same ↦ rw same refl
          | inr other ↦ rw other (h j)
        ])),
    λ j n. get-put _ _ j _ ∙ rw (bytes_equal_ne _ j (outside p id j n)) refl,
  )

  delete-Holds :
      (db : DB) (m : Ledger) (id : Bytes)
      → Holds db m
      → Holds (delete db (utxo_prefix ++ id)) (set_at m id none)
        × Same db (delete db (utxo_prefix ++ id))
  unfolding Holds Same set_at stored_or
  delete-Holds db m id h = (
    (λ j.
        get-delete _ _ _
        ∙ rw (under_equal id j) (elim (Bool-cases (bytes_equal id j)) [
          | inl same ↦ rw same refl
          | inr other ↦ rw other (h j)
        ])),
    λ j n. get-delete _ _ j ∙ rw (bytes_equal_ne _ j (outside p id j n)) refl,
  )

  -- A call on the database does what the ledger says: it panics where the ledger has nothing to
  -- spend, and else returns a database that holds the new ledger, and is the same elsewhere.
  unfoldable pub Agrees : DB → Run DB → Option Ledger → Type 0
  Agrees db call none = call ≡ panic key_not_found
  Agrees db call (some m) = Returns call (λ after. Holds after m × Same db after)

  Agrees-later :
      (db mid : DB) (call : Run DB) (end : Option Ledger)
      → Same db mid
      → Agrees mid call end
      → Agrees db call end
  unfolding Agrees Same
  Agrees-later db mid call none s h = h
  Agrees-later db mid call (some m) s (after, e, (holds, same)) =
      (after, e, (holds, λ j n. same j n ∙ s j n))

  write_rest-Returns :
      (id : Bytes) (rest : List TxOutput) (db : DB) (m : Ledger)
      → Holds db m
      → accepts (utxo_prefix ++ id) ≡ true
      → Returns
          (write_rest p (utxo_prefix ++ id) rest db)
          (λ after. Holds after (set_at m id (if_any rest)) × Same db after)
  unfolding write_rest txn_delete txn_set
  write_rest-Returns id [] db m h fits = (_, rw fits refl, delete-Holds db m id h)
  write_rest-Returns id (out ∷ outs) db m h fits =
      (_, rw fits refl, put-Holds db m id (out ∷ outs) h)

  update_inputs-Agrees :
      (is : List TxInput) (db : DB) (m : Ledger)
      → Holds db m
      → All (λ i. accepts (utxo_prefix ++ i.id) ≡ true) is
      → Agrees db (update_inputs p is db) (spend_all is m)
  unfolding update_inputs spend_all Agrees Same Holds stored_or txn_get decode_or_panic
  update_inputs-Agrees [] db m h fits = (db, refl, (h, λ j n. refl))
  update_inputs-Agrees (i ∷ is) db m h (fits, more) =
      by_entry (m i.id) refl (λ mid m' h'. update_inputs-Agrees is mid m' h' more)
    where
      by_entry :
          (entry : Option (List TxOutput))
          → m i.id ≡ entry
          → ((mid : DB) (m' : Ledger)
              → Holds mid m'
              → Agrees mid (update_inputs p is mid) (spend_all is m'))
          → Agrees db (update_inputs p (i ∷ is) db) (spend_all (i ∷ is) m)
      by_entry none e ih =
          let gone : get db (utxo_prefix ++ i.id) ≡ none = h i.id ∙ rw e refl in
          rw (Agrees, e) (rw (gone, ◌>>=◌))
      by_entry (some outs) e ih =
          let here : get db (utxo_prefix ++ i.id)
              ≡ some (p.outputs_codec.encode (record { outputs = outs })) =
            h i.id ∙ rw e refl in
          let (mid, e1, (holds, same)) =
            write_rest-Returns i.id (without_at i.out outs) db m h fits in
          let later = Agrees-later db mid _ _ same (ih mid _ holds) in
          let computed : update_inputs p (i ∷ is) db ≡ update_inputs p is mid =
            rw (here, ◌>>=◌)
              (rw (p.outputs_codec.decode-encode (record { outputs = outs }), ◌>>=◌)
                (rw (without_at-is i.out outs) (rw (e1, ◌>>=◌) refl))) in
          let ends : Agrees db (update_inputs p is mid) (spend_all (i ∷ is) m) =
            rw (spend_all, e) later in
          subst (λ call. Agrees db call (spend_all (i ∷ is) m)) (sym computed) ends

  -- the keys that `Update` writes are taken
  abbrev pub Fits : Transaction → Type 0
  Fits tx =
      (accepts (utxo_prefix ++ tx.id) ≡ true)
      × All (λ i. accepts (utxo_prefix ++ i.id) ≡ true) tx.inputs

  spent-Agrees :
      (tx : Transaction) (db : DB) (m : Ledger)
      → Holds db m
      → Fits tx
      → Agrees db
          (if is_coinbase tx then ok db else update_inputs p tx.inputs db)
          (if is_coinbase tx then some m else spend_all tx.inputs m)
  unfolding Agrees Same
  spent-Agrees tx db m h (_, fits) = elim (Bool-cases (is_coinbase tx)) [
    | inl yes' ↦ rw yes' (db, refl, (h, λ j n. refl))
    | inr no' ↦ rw no' (update_inputs-Agrees tx.inputs db m h fits)
  ]

  update_transactions-Agrees :
      (txs : List Transaction) (db : DB) (m : Ledger)
      → Holds db m
      → All Fits txs
      → Agrees db (update_transactions p txs db) (apply_all txs m)
  unfolding update_transactions apply_all Agrees Same txn_set
  update_transactions-Agrees [] db m h fits = (db, refl, (h, λ j n. refl))
  update_transactions-Agrees (tx ∷ txs) db m h (fits, more) =
      by_ledger (if is_coinbase tx then some m else spend_all tx.inputs m) refl
        (spent-Agrees tx db m h fits) (λ mid m' h'. update_transactions-Agrees txs mid m' h' more)
    where
      by_ledger :
          (end : Option Ledger)
          → (if is_coinbase tx then some m else spend_all tx.inputs m) ≡ end
          → Agrees db (if is_coinbase tx then ok db else update_inputs p tx.inputs db) end
          → ((mid : DB) (m' : Ledger)
              → Holds mid m'
              → Agrees mid (update_transactions p txs mid) (apply_all txs m'))
          → Agrees db (update_transactions p (tx ∷ txs) db) (apply_all (tx ∷ txs) m)
      by_ledger none e bad ih =
          let ends : apply_all (tx ∷ txs) m ≡ none = rw (apply_all, e) refl in
          let fails : update_transactions p (tx ∷ txs) db ≡ panic key_not_found = rw (bad, ◌>>=◌) in
          subst (λ end. Agrees db (update_transactions p (tx ∷ txs) db) end) (sym ends) fails
      by_ledger (some spent) e (used, returns, (holds, same)) ih =
          let db' =
            put used (utxo_prefix ++ tx.id)
              (p.outputs_codec.encode (record { outputs = tx.outputs })) in
          let m' = set_at spent tx.id (some tx.outputs) in
          let (holds', same') = put-Holds used spent tx.id tx.outputs holds in
          let later = Agrees-later db db' _ _ (λ j n. same' j n ∙ same j n) (ih db' m' holds') in
          let ends : apply_all (tx ∷ txs) m ≡ apply_all txs m' = rw (apply_all, e) refl in
          let computed : update_transactions p (tx ∷ txs) db ≡ update_transactions p txs db' =
            rw (returns, ◌>>=◌) (rw (fits.0, ◌>>=◌) refl) in
          subst (λ end. Agrees db (update_transactions p (tx ∷ txs) db) end) (sym ends)
            (subst (λ call. Agrees db call (apply_all txs m')) (sym computed) later)

  -- the same of `Update`, on the chain
  unfoldable pub Updates : BlockChain p → Run (BlockChain p) → Option Ledger → Type 0
  Updates chain call none = call ≡ panic key_not_found
  Updates chain call (some m) = Returns call (λ after.
      (after.last_hash ≡ chain.last_hash)
      × Holds after.database m
      × Same chain.database after.database)

  Updates-Agrees :
      (chain : BlockChain p) (call : Run DB) (end : Option Ledger)
      → Agrees chain.database call end
      → Updates chain (call >>= λ db. ok (record chain { database = db })) end
  unfolding Updates Agrees
  Updates-Agrees chain call none bad = rw (bad, ◌>>=◌)
  Updates-Agrees chain call (some m) (db, e, (holds, same)) =
      (record chain { database = db }, rw (e, ◌>>=◌) refl, (refl, holds, same))

  module _ (chain : BlockChain p) (block : Block) (m : Ledger) where
    -- Where the database holds a ledger under the prefix, and Badger takes the keys, `Update`
    -- does to the database what the transactions of the block do to the ledger. It panics where an
    -- input names a transaction that has no unspent output left; else it returns, the database
    -- holds the new ledger, and every other key and the last hash are as they were.
    pub update-Agrees :
        Holds chain.database m
        → All Fits block.transactions
        → Updates chain (update p chain block) (apply_all block.transactions m)
    unfolding update
    update-Agrees h fits =
        Updates-Agrees chain _ _
          (update_transactions-Agrees block.transactions chain.database m h fits)
