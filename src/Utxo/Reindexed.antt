-- ===== src/Utxo/Reindexed.antt =====
-- What `Reindex` of blockchain/utxo.go leaves in the database.
use golang_blockchain.Prelude.{
  ℕ, ◌≤◌, ◌≡◌, ◌≢◌, refl, sym, ap, ◌∙◌, true, false, inl, inr, Option, none, some, List, [], ◌∷◌,
  ◌++◌, All, Bytes, Map, lookup, has_prefix, bytes_equal, bytes_equal_refl, bytes_equal_ne,
  bytes_equal→eq, bytes_equal_iff, Bool-cases, length, drop, false≢true,
}
use golang_blockchain.Words.Hex.{hex_encode, hex_decode, hex_encode_injective}
use golang_blockchain.Types.{TxOutput, Block}
use golang_blockchain.Platform.{Platform, txn_set}
use golang_blockchain.Run.{ok, ◌>>=◌, Returns}
use golang_blockchain.Chain.{BlockChain}
use golang_blockchain.Chain.Walk.{IsChain}
use golang_blockchain.Utxo.{utxo_prefix, store_utxo, reindex, find_utxo}
use golang_blockchain.Utxo.Found.{find_utxo-scan}
use golang_blockchain.Utxo.Clearing.{delete_by_prefix-get}

module _ (p : Platform) where
  open p.badger use {DB, get, put, get-put, accepts}

  -- Entries that can be stored: keys that are the hex form of IDs, each key once, under database
  -- keys that Badger takes.
  abbrev pub Storable : Map (List TxOutput) → Type 0
  Storable [] = Unit
  Storable ((k, outs) ∷ es) =
      (id : Bytes) × (k ≡ hex_encode id)
      × (hex_decode k ≡ some id)
      × (accepts (utxo_prefix ++ id) ≡ true)
      × (lookup k es ≡ none)
      × Storable es

  -- the stored form of an entry, or what stood there before
  unfoldable pub stored_or : Option (List TxOutput) → Option Bytes → Option Bytes
  stored_or none before = before
  stored_or (some outs) before = some (p.outputs_codec.encode (record { outputs = outs }))

  Stores : Map (List TxOutput) → DB → DB → Type 0
  Stores es db after =
      ((id : Bytes)
        → get after (utxo_prefix ++ id)
          ≡ stored_or (lookup (hex_encode id) es) (get db (utxo_prefix ++ id)))
      × ((j : Bytes) → has_prefix utxo_prefix j ≡ false → get after j ≡ get db j)

  pub outside : (id j : Bytes) → has_prefix utxo_prefix j ≡ false → (utxo_prefix ++ id) ≢ j
  unfolding has_prefix
  outside id j h e = false≢true (sym h ∙ ap (has_prefix utxo_prefix) (sym e))

  under : (id : Bytes) → has_prefix utxo_prefix (utxo_prefix ++ id) ≡ true
  unfolding has_prefix
  under id = refl

  stored_step :
      (k : Bytes) (outs : List TxOutput) (es : Map (List TxOutput)) (db : DB) (id0 id : Bytes)
      → k ≡ hex_encode id0
      → lookup k es ≡ none
      → stored_or (lookup (hex_encode id) es) (
          get
            (put db (utxo_prefix ++ id0) (p.outputs_codec.encode (record { outputs = outs })))
            (utxo_prefix ++ id))
        ≡ stored_or (lookup (hex_encode id) ((k, outs) ∷ es)) (get db (utxo_prefix ++ id))
  unfolding lookup stored_or
  stored_step k outs es db id0 id hex once = elim (Bool-cases (bytes_equal k (hex_encode id))) [
    | inl same ↦
        let k-id : k ≡ hex_encode id = bytes_equal→eq k (hex_encode id) same in
        let id-id : id0 ≡ id = hex_encode_injective id0 id (sym hex ∙ k-id) in
        rw
          (
            same,
            sym (ap (λ x. lookup x es) k-id) ∙ once,
            get-put,
            ap (λ x. utxo_prefix ++ x) id-id,
            bytes_equal_refl,
          )
          refl
    | inr other ↦
        let ne : (utxo_prefix ++ id0) ≢ (utxo_prefix ++ id) = λ e. false≢true (
          sym other
          ∙ (bytes_equal_iff k (hex_encode id)).1 (hex ∙ ap (λ x. hex_encode (drop 5 x)) e)) in
        rw (other, get-put, bytes_equal_ne _ _ ne) refl
  ]

  store_utxo-Stores :
      (es : Map (List TxOutput)) (db : DB)
      → Storable es
      → Returns (store_utxo p es db) (Stores es db)
  unfolding store_utxo txn_set Stores stored_or lookup
  store_utxo-Stores [] db h = (db, refl, ((λ id. refl), λ j n. refl))
  store_utxo-Stores ((k, outs) ∷ es) db (id0, hex, decoded, fits, once, rest) =
      let db' = put db (utxo_prefix ++ id0) (p.outputs_codec.encode (record { outputs = outs })) in
      let (after, e, (at, elsewhere)) = store_utxo-Stores es db' rest in
      (
        after,
        rw (decoded, ◌>>=◌, fits) e,
        (
          (λ id. at id ∙ stored_step k outs es db id0 id hex once),
          λ j n.
              elsewhere j n
              ∙ get-put db (utxo_prefix ++ id0) j _
              ∙ rw (bytes_equal_ne (utxo_prefix ++ id0) j (outside id0 j n)) refl,
        ),
      )

  -- no block of the chain stands under the prefix
  abbrev pub Outside : Bytes → List Block → Type 0
  Outside h bs =
      (has_prefix utxo_prefix h ≡ false) × All (λ b. has_prefix utxo_prefix b.prev_hash ≡ false) bs

  pub IsChain-cleared :
      (db after : DB) (h : Bytes) (bs : List Block)
      → ((j : Bytes) → has_prefix utxo_prefix j ≡ false → get after j ≡ get db j)
      → Outside h bs
      → IsChain p db h bs
      → IsChain p after h bs
  IsChain-cleared db after h [] same out c = c
  IsChain-cleared db after h (b ∷ []) same out ((raw, e, dec), last) =
      ((raw, same h out.0 ∙ e, dec), last)
  IsChain-cleared db after h (b ∷ d ∷ bs) same out ((raw, e, dec), more, c) = (
    (raw, same h out.0 ∙ e, dec),
    more,
    IsChain-cleared db after b.prev_hash (d ∷ bs) same (out.1.0, out.1.1) c,
  )

  -- On a chain of at most `fuel` blocks, none of them under the prefix, in a database whose keys
  -- Badger takes, `Reindex` returns if the entries that `FindUTXO` returns can be stored. Under
  -- the prefix the database then holds exactly these entries, those from before are gone, and
  -- every other key and the last hash are as they were.
  pub reindex-find_utxo :
      (fuel : ℕ) (range : Map (List TxOutput) → Map (List TxOutput)) (chain : BlockChain p)
      (bs : List Block) (utxo : Map (List TxOutput))
      → IsChain p chain.database chain.last_hash bs
      → length bs ≤ fuel
      → Outside chain.last_hash bs
      → ((k v : Bytes) → get chain.database k ≡ some v → accepts k ≡ true)
      → find_utxo p fuel chain ≡ ok utxo
      → Storable (range utxo)
      → Returns (reindex p fuel range chain) (λ after.
        (after.last_hash ≡ chain.last_hash)
        × ((id : Bytes)
            → get after.database (utxo_prefix ++ id)
              ≡ stored_or (lookup (hex_encode id) (range utxo)) none)
        × ((j : Bytes)
            → has_prefix utxo_prefix j ≡ false
            → get after.database j ≡ get chain.database j))
  unfolding reindex Stores
  reindex-find_utxo fuel range chain bs utxo c enough out stored found storable =
      let (cleared, e, holds) = delete_by_prefix-get p utxo_prefix chain.database stored in
      let same : (j : Bytes)
          → has_prefix utxo_prefix j ≡ false
          → get cleared j ≡ get chain.database j =
        λ j n. holds j ∙ rw n refl in
      let chain' : BlockChain p = record chain { database = cleared } in
      let c' = IsChain-cleared chain.database cleared chain.last_hash bs same out c in
      let again : find_utxo p fuel chain' ≡ ok utxo =
        find_utxo-scan p fuel chain' bs c' enough
        ∙ sym (find_utxo-scan p fuel chain bs c enough)
        ∙ found in
      let (after, e', (at, elsewhere)) = store_utxo-Stores (range utxo) cleared storable in
      (
        record chain { database = after },
        rw (e, ◌>>=◌, again, e') refl,
        (
          refl,
          (λ id.
              at id
              ∙ ap (stored_or (lookup (hex_encode id) (range utxo)))
                  (holds (utxo_prefix ++ id) ∙ rw (under id) refl)),
          λ j n. elsewhere j n ∙ same j n,
        ),
      )
