-- ===== src/Chain/Extend.antt =====
-- A chain of blocks grows at its end, and is never rewritten; where `MineBlock` fails.
use golang_blockchain.Prelude.{
  ℕ, suc, none, ◌≡◌, ◌≢◌, refl, subst, sym, ap, ◌∙◌, true, false, List, [], ◌∷◌, Bytes, ℤ, ltb_ℤ,
  All,
}
use golang_blockchain.Types.{Transaction, Block, is_nil}
use golang_blockchain.Platform.{Platform, txn_get, decode_or_panic}
use golang_blockchain.Run.{panic, decode_failed, key_not_found, ◌>>=◌, Returns}
use golang_blockchain.Chain.{
  BlockChain, Pass, continue, find_transaction, look_in_block, lh, add_block, mine_block, push_hash,
  next, for_blocks, get_block_hashes,
}
use golang_blockchain.Chain.Walk.{Stored, IsChain, find_in_missing}
use golang_blockchain.Utxo.{find_utxo, scan_block, no_scan}
use golang_blockchain.Chain.Growth.{HasTip, SameElsewhere, add_block-Added}

module _ (p : Platform) where
  open p.badger use {DB, get, accepts}

  -- no block of the chain stands under the key "lh"
  abbrev pub AvoidsLh : Bytes → List Block → Type 0
  AvoidsLh h bs = (h ≢ lh) × All (λ b. b.prev_hash ≢ lh) bs

  Stored-elsewhere :
      (d d' : DB) (k h : Bytes) (b : Block)
      → SameElsewhere p d d' k
      → get d k ≡ none
      → h ≢ lh
      → Stored p d h b
      → Stored p d' h b
  Stored-elsewhere d d' k h b same fresh nl (raw, e, dec) =
      (raw, same h (λ q. cc (fresh, e, ap (get d) q)) nl ∙ e, dec)

  -- New keys leave a chain as it is.
  pub IsChain-elsewhere :
      (d d' : DB) (k h : Bytes) (bs : List Block)
      → SameElsewhere p d d' k
      → get d k ≡ none
      → AvoidsLh h bs
      → IsChain p d h bs
      → IsChain p d' h bs
  IsChain-elsewhere d d' k h [] same fresh av c = c
  IsChain-elsewhere d d' k h (b ∷ []) same fresh av c =
      (Stored-elsewhere d d' k h b same fresh av.0 c.0, c.1)
  IsChain-elsewhere d d' k h (b ∷ e ∷ bs) same fresh av c = (
    Stored-elsewhere d d' k h b same fresh av.0 c.0,
    c.1,
    IsChain-elsewhere d d' k b.prev_hash (e ∷ bs) same fresh (av.1.0, av.1.1) c.2,
  )

  IsChain-cons :
      (d : DB) (h : Bytes) (b : Block) (bs : List Block)
      → Stored p d h b
      → is_nil b.prev_hash ≡ false
      → IsChain p d b.prev_hash bs
      → IsChain p d h (b ∷ bs)
  IsChain-cons d h b [] st ne c = absurd c
  IsChain-cons d h b (e ∷ bs) st ne c = (st, ne, c)

  -- The walk over one stored block whose previous block is missing, where the pass over that
  -- block goes on.
  pub walk_gone :
      {S R : Type 0} (body : S → Block → Pass S R) (s s' : S) (fuel : ℕ) (d : DB) (b : Block)
      → body s b ≡ continue s'
      → Stored p d b.hash b
      → is_nil b.prev_hash ≡ false
      → get d b.prev_hash ≡ none
      → for_blocks p (suc (suc fuel)) d b.hash body s ≡ panic key_not_found
  unfolding for_blocks next txn_get
  walk_gone body s s' fuel d b goes (raw, e, dec) more gone =
      rw (e, ◌>>=◌, dec, goes) (rw more (rw (gone, ◌>>=◌)))

  -- the pass of `FindTransaction` over a block without the ID goes on
  look_in_block_on :
      (id : Bytes) (b : Block)
      → All (λ t. t.id ≢ id) b.transactions
      → look_in_block id tt b ≡ continue tt
  unfolding look_in_block
  look_in_block_on id b h = rw (look_in_block, find_in_missing id b.transactions h) refl

  module _ (chain : BlockChain p) (tip b : Block) (bs : List Block) (h : HasTip p chain tip)
      (fresh : get chain.database b.hash ≡ none) (ne : b.hash ≢ lh) (fits : accepts b.hash ≡ true)
      (fits_lh : accepts lh ≡ true) (c : IsChain p chain.database chain.last_hash bs)
      (av : AvoidsLh chain.last_hash bs) where
    -- `AddBlock` of a new block keeps every block of the chain where it is.
    pub add_block-IsChain :
        Returns (add_block p chain b) (λ after. IsChain p after.database chain.last_hash bs)
    add_block-IsChain =
        let (after, e, added) = add_block-Added p chain tip b h fresh ne fits fits_lh in
        (
          after,
          e,
          IsChain-elsewhere chain.database after.database b.hash chain.last_hash bs added.elsewhere
              fresh av c,
        )

    -- A new block that names the last one as its previous block, and is higher, becomes the end of
    -- the chain: from the new last hash the walk finds it, and then every block that was there.
    pub add_block_extends :
        b.prev_hash ≡ chain.last_hash
        → is_nil chain.last_hash ≡ false
        → ltb_ℤ tip.height b.height ≡ true
        → Returns (add_block p chain b) (λ after. IsChain p after.database after.last_hash (b ∷ bs))
    add_block_extends link more high =
        let (after, e, added) = add_block-Added p chain tip b h fresh ne fits fits_lh in
        let old =
          IsChain-elsewhere chain.database after.database b.hash chain.last_hash bs added.elsewhere
            fresh av c in
        let now : after.last_hash ≡ b.hash = added.last_hash_is ∙ rw high in
        (
          after,
          e,
          rw now (
              IsChain-cons after.database b.hash b bs added.stored (ap is_nil link ∙ more)
                (subst (λ k. IsChain p after.database k bs) (sym link) old)),
        )

    -- A new, higher block whose previous block is not stored becomes the last one all the same:
    -- `AddBlock` does not look for the previous block. With fuel for two blocks or more,
    -- `GetBlockHashes` and `FindUTXO` then panic, and so does `FindTransaction` for every ID that
    -- no transaction of this block has.
    pub add_block_orphan :
        (fuel : ℕ) (id : Bytes)
        → get chain.database b.prev_hash ≡ none
        → b.prev_hash ≢ b.hash
        → b.prev_hash ≢ lh
        → is_nil b.prev_hash ≡ false
        → ltb_ℤ tip.height b.height ≡ true
        → All (λ t. t.id ≢ id) b.transactions
        → Returns (add_block p chain b) (λ after.
          (after.last_hash ≡ b.hash)
          × (get_block_hashes p (suc (suc fuel)) after ≡ panic key_not_found)
          × (find_transaction p (suc (suc fuel)) after id ≡ panic key_not_found)
          × (find_utxo p (suc (suc fuel)) after ≡ panic key_not_found))
    unfolding get_block_hashes find_transaction find_utxo push_hash scan_block
    add_block_orphan fuel id gone nb nl more high absent =
        let (after, e, added) = add_block-Added p chain tip b h fresh ne fits fits_lh in
        let now : after.last_hash ≡ b.hash = added.last_hash_is ∙ rw high in
        let missing = added.elsewhere b.prev_hash nb nl ∙ gone in
        let db = after.database in
        (
          after,
          e,
          (
            now,
            rw (now, walk_gone push_hash [] _ fuel db b refl added.stored more missing, ◌>>=◌),
            rw (
              now,
              walk_gone (look_in_block id) tt tt fuel db b (look_in_block_on id b absent)
                  added.stored more missing,
              ◌>>=◌,
            ),
            rw (
              now,
              walk_gone scan_block no_scan _ fuel db b refl added.stored more missing,
              ◌>>=◌,
            ),
          ),
        )

  -- As long as the value under "lh" is not itself an encoded block, `MineBlock` panics, for every
  -- list of transactions: it decodes the last hash, and never reads the last block.
  pub mine_block_panics :
      (chain : BlockChain p) (tip : Block) (now : ℤ) (txs : List Transaction)
      → HasTip p chain tip
      → p.block_codec.decode chain.last_hash ≡ none
      → mine_block p now chain txs ≡ panic decode_failed
  unfolding mine_block txn_get decode_or_panic
  mine_block_panics chain tip now txs h bad = rw (h.at_lh, ◌>>=◌, bad)
