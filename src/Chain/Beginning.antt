-- ===== src/Chain/Beginning.antt =====
-- What `Genesis` and `InitBlockChain` make: a chain of one block.
use golang_blockchain.Prelude.{
  ◌≡◌, ◌≢◌, refl, sym, ap, ◌∙◌, true, inl, inr, none, some, [], ◌∷◌, Bytes, ℤ, pos, bytes_equal,
  bytes_equal_refl, bytes_equal_ne, bytes_equal→eq, Bool-cases,
}
use golang_blockchain.Types.{Transaction, Block, is_nil}
use golang_blockchain.Platform.{Platform, txn_set}
use golang_blockchain.Run.{ok, ◌>>=◌, Ensures, Ensures-after, Ensures-ok}
use golang_blockchain.Pow.{genesis, create_block, new_proof, run, serialize}
use golang_blockchain.Tx.{coinbase_tx}
use golang_blockchain.Chain.{BlockChain, lh, genesis_data, init_block_chain}
use golang_blockchain.Chain.Walk.{IsChain}

module _ (p : Platform) where
  open p.badger use {DB, get, put, scan, empty_db, accepts, get-put, get-empty_db}

  -- the first block has the one transaction, and no previous block
  unfoldable pub FirstWith : Transaction → Block → Type 0
  FirstWith cb b = (b.transactions ≡ cb ∷ []) × (b.prev_hash ≡ [])

  pub genesis-FirstWith : (now : ℤ) (cb : Transaction) → Ensures (FirstWith cb) (genesis p now cb)
  unfolding genesis create_block FirstWith
  genesis-FirstWith now cb =
      Ensures-after (FirstWith cb)
        (run p (
          new_proof (record {
            timestamp = now;
            hash = [];
            transactions = cb ∷ [];
            prev_hash = [];
            nonce = pos 0;
            height = pos 0;
          })))
        _ (λ found. Ensures-ok (FirstWith cb) _ (refl, refl))

  -- the chain that `InitBlockChain` leaves
  abbrev pub born : Block → BlockChain p
  born first = record {
    last_hash = first.hash;
    database = put (put empty_db first.hash (serialize p first)) lh first.hash;
  }

  module _ (first : Block) (fits : accepts first.hash ≡ true) (fits_lh : accepts lh ≡ true)
      (ne : first.hash ≢ lh) where
    pub init_block_chain-born :
        (now : ℤ) (addr : Bytes) (cb : Transaction)
        → coinbase_tx p addr genesis_data ≡ ok cb
        → genesis p now cb ≡ ok first
        → init_block_chain p now none addr ≡ ok (born first)
    unfolding init_block_chain txn_set
    init_block_chain-born now addr cb paid mined =
        rw (paid, ◌>>=◌) (rw (mined, ◌>>=◌) (rw (fits, ◌>>=◌) (rw (fits_lh, ◌>>=◌) refl)))

    pub born-lh : get (born first).database lh ≡ some first.hash
    born-lh = get-put _ lh lh first.hash ∙ rw (bytes_equal_refl lh) refl

    pub born-IsChain :
        (cb : Transaction)
        → FirstWith cb first
        → IsChain p (born first).database first.hash (first ∷ [])
    unfolding serialize FirstWith
    born-IsChain cb (_, none_before) = (
      (
        serialize p first,
        get-put _ lh first.hash first.hash
            ∙ rw (bytes_equal_ne lh first.hash (λ e. ne (sym e)))
                (get-put _ first.hash first.hash _ ∙ rw (bytes_equal_refl first.hash) refl),
        p.block_codec.decode-encode first,
      ),
      ap is_nil none_before,
    )

    pub born-accepted : (k v : Bytes) → get (born first).database k ≡ some v → accepts k ≡ true
    born-accepted k v e = elim (Bool-cases (bytes_equal lh k)) [
      | inl same ↦ ap accepts (sym (bytes_equal→eq lh k same)) ∙ fits_lh
      | inr other ↦ elim (Bool-cases (bytes_equal first.hash k)) [
        | inl same ↦ ap accepts (sym (bytes_equal→eq first.hash k same)) ∙ fits
        | inr other' ↦
            let gone : get (born first).database k ≡ none =
              get-put _ lh k _ ∙ rw other (get-put _ first.hash k _ ∙ rw other' (get-empty_db k)) in
            cc
      ]
    ]
