-- ===== src/Utxo/Beginning.antt =====
-- The unspent outputs of a chain of one block, which `Reindex` of blockchain/utxo.go stores.
use golang_blockchain.Prelude.{
  ℕ, ◌≤◌, ◌<◌, ◌≡◌, ◌≢◌, refl, sym, ap, ◌∙◌, true, false, inl, inr, none, some, List, [], ◌∷◌, ◌++◌,
  All, Bytes, Map, pos, lookup, insert, has_prefix, bytes_equal, bytes_equal_refl, bytes_equal→eq,
  Bool-cases, drop, length,
}
use golang_blockchain.Words.Hex.{hex_encode, hex_decode-hex_encode, hex_encode_injective}
use golang_blockchain.Types.{Transaction, TxOutput, Block, Wallet}
use golang_blockchain.Platform.{Platform}
use golang_blockchain.Run.{ok, Returns}
use golang_blockchain.Tx.Locking.{pays}
use golang_blockchain.Chain.{lh}
use golang_blockchain.Chain.Walk.{IsChain}
use golang_blockchain.Utxo.{
  utxo_prefix, find_utxo, reindex, scan_transactions, scan_transaction, scan_outputs, append_at,
  slice_at, is_spent, no_scan,
}
use golang_blockchain.Utxo.Found.{find_utxo-scan}
use golang_blockchain.Utxo.Reindexed.{Storable, stored_or, reindex-find_utxo}
use golang_blockchain.Utxo.Scanned.{has_prefix-append, scan_one}
use golang_blockchain.Chain.Beginning.{FirstWith, born, born-lh, born-IsChain, born-accepted}

module _ (p : Platform) where
  open p.badger use {DB, get, put, scan, empty_db, accepts, get-put, get-empty_db}

  -- the entry that `Reindex` makes of the first block
  abbrev pub entries : Wallet → Transaction → Map (List TxOutput)
  entries w cb = (hex_encode cb.id, pays p (pos 100) w ∷ []) ∷ []

  abbrev pub entry : Wallet → Transaction → Bytes × Bytes
  entry w cb =
      (utxo_prefix ++ cb.id, p.outputs_codec.encode (record { outputs = pays p (pos 100) w ∷ [] }))

  find_utxo-born :
      (fuel : ℕ) (w : Wallet) (cb : Transaction) (first : Block)
      → IsChain p (born p first).database first.hash (first ∷ [])
      → 1 ≤ fuel
      → FirstWith p cb first
      → cb.outputs ≡ pays p (pos 100) w ∷ []
      → find_utxo p fuel (born p first) ≡ ok (entries w cb)
  unfolding FirstWith scan_transactions scan_transaction scan_outputs append_at slice_at is_spent
      lookup insert
  find_utxo-born fuel w cb first c enough (only, _) outs =
      find_utxo-scan p fuel (born p first) (first ∷ []) c enough
      ∙ ap (λ txs. ok (scan_transactions no_scan (txs ++ [])).utxo) only
      ∙ ap (λ os. ok (scan_outputs (hex_encode cb.id) [] 0 os [])) outs

  -- one entry is stored, and nothing else under the prefix
  scan_stored :
      (w : Wallet) (cb : Transaction) (d : DB)
      → ((id : Bytes)
          → get d (utxo_prefix ++ id) ≡ stored_or p (lookup (hex_encode id) (entries w cb)) none)
      → scan d utxo_prefix ≡ entry w cb ∷ []
  unfolding stored_or lookup has_prefix
  scan_stored w cb d at =
      scan_one p d utxo_prefix (utxo_prefix ++ cb.id) (entry w cb).1
        (at cb.id ∙ rw (bytes_equal_refl (hex_encode cb.id)) refl) refl
        (λ j u e q.
          let id = drop (length utxo_prefix) j in
          let split = has_prefix-append utxo_prefix j q in
          elim (Bool-cases (bytes_equal (hex_encode cb.id) (hex_encode id))) [
            | inl same ↦
                split
                ∙ ap (λ x. utxo_prefix ++ x)
                    (sym (
                      hex_encode_injective cb.id id
                        (bytes_equal→eq (hex_encode cb.id) (hex_encode id) same)))
            | inr other ↦
                let gone : get d (utxo_prefix ++ id) ≡ none = at id ∙ rw other refl in
                let here : get d (utxo_prefix ++ id) ≡ some u = ap (get d) (sym split) ∙ e in cc
          ])

  -- what a new chain leaves in its database
  unfoldable pub Indexed : Wallet → Transaction → Block → DB → Type 0
  Indexed w cb first d = (get d lh ≡ some first.hash) × (scan d utxo_prefix ≡ entry w cb ∷ [])

  module _ (cb : Transaction) (first : Block) (fits : accepts first.hash ≡ true)
      (fits_lh : accepts lh ≡ true) (fits_utxo : accepts (utxo_prefix ++ cb.id) ≡ true)
      (ne : first.hash ≢ lh) (outside : has_prefix utxo_prefix first.hash ≡ false) where
    -- `Reindex` on the new chain
    pub reindex-Indexed :
        (fuel : ℕ) (range : Map (List TxOutput) → Map (List TxOutput)) (w : Wallet)
        → FirstWith p cb first
        → cb.outputs ≡ pays p (pos 100) w ∷ []
        → All (λ x. x < 256) cb.id
        → 1 ≤ fuel
        → range (entries w cb) ≡ entries w cb
        → Returns (reindex p fuel range (born p first)) (λ after. Indexed w cb first after.database)
    unfolding Indexed FirstWith has_prefix lookup
    reindex-Indexed fuel range w only outs id_bytes enough order =
        let c = born-IsChain p first fits fits_lh ne cb only in
        let found = find_utxo-born fuel w cb first c enough only outs in
        let storable : Storable p (entries w cb) =
          (cb.id, refl, hex_decode-hex_encode cb.id id_bytes, fits_utxo, refl, tt) in
        let (after, e, (_, at, elsewhere)) =
          reindex-find_utxo p fuel range (born p first) (first ∷ []) (entries w cb) c enough
            (outside, (ap (has_prefix utxo_prefix) only.1, tt))
            (born-accepted p first fits fits_lh ne) found (rw order storable) in
        (
          after,
          e,
          (
            elsewhere lh refl ∙ born-lh p first fits fits_lh ne,
            scan_stored w cb after.database
                (λ id. at id ∙ ap (λ es. stored_or p (lookup (hex_encode id) es) none) order),
          ),
        )
