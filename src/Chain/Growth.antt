-- ===== src/Chain/Growth.antt =====
-- How `AddBlock` and `MineBlock` change the chain.
use golang_blockchain.Prelude.{
  ◌≡◌, ◌≢◌, sym, ap, ◌∙◌, true, false, inl, inr, none, some, Bytes, ltb_ℤ, bytes_equal_ne,
  bytes_equal_refl, Bool-cases, if◌then◌else◌,
}
use golang_blockchain.Types.{Block}
use golang_blockchain.Platform.{Platform, txn_get, txn_set, decode_or_panic}
use golang_blockchain.Run.{ok, ◌>>=◌, Returns}
use golang_blockchain.Pow.{serialize}
use golang_blockchain.Chain.{BlockChain, lh, last_block, get_best_height, add_block}
use golang_blockchain.Chain.Walk.{Stored}

module _ (p : Platform) where
  open p.badger use {DB, get, put, accepts, get-put}

  -- The last hash in memory is the one in the database, and `tip` is stored under it.
  pub record HasTip (chain : BlockChain p) (tip : Block) : Type 0 where
    pub at_lh : get chain.database lh ≡ some chain.last_hash
    pub at_tip : Stored p chain.database chain.last_hash tip

  get-put_self : (d : DB) (k v : Bytes) → get (put d k v) k ≡ some v
  get-put_self d k v = rw (get-put, bytes_equal_refl)

  get-put_ne : (d : DB) (k j v : Bytes) → k ≢ j → get (put d k v) j ≡ get d j
  get-put_ne d k j v h = rw (get-put, bytes_equal_ne k j h)

  Stored-put_ne :
      (d : DB) (k v h : Bytes) (b : Block) → k ≢ h → Stored p d h b → Stored p (put d k v) h b
  Stored-put_ne d k v h b ne (raw, e, dec) = (raw, get-put_ne d k h v ne ∙ e, dec)

  Stored-put_self : (d : DB) (b : Block) → Stored p (put d b.hash (serialize p b)) b.hash b
  unfolding serialize
  Stored-put_self d b =
      (_, get-put_self d b.hash (p.block_codec.encode b), p.block_codec.decode-encode b)

  last_block-HasTip :
      (chain : BlockChain p) (tip : Block) → HasTip chain tip → last_block p chain.database ≡ ok tip
  unfolding last_block txn_get decode_or_panic
  last_block-HasTip chain tip h = let (raw, e, d) = h.at_tip in rw (h.at_lh, ◌>>=◌, e, d)

  -- a key that is missing is no key that is there
  absent-ne : (d : DB) (k j v : Bytes) → get d k ≡ none → get d j ≡ some v → k ≢ j
  absent-ne d k j v a b e = cc (a, b, ap (get d) e)

  -- The chain after a block that was not stored has been added.
  abbrev stored_only : BlockChain p → Block → BlockChain p
  stored_only chain b = record {
    last_hash = chain.last_hash;
    database = put chain.database b.hash (serialize p b);
  }

  abbrev made_last : BlockChain p → Block → BlockChain p
  made_last chain b = record {
    last_hash = b.hash;
    database = put (put chain.database b.hash (serialize p b)) lh b.hash;
  }

  module _ (chain : BlockChain p) (tip b : Block) (h : HasTip chain tip) where
    -- A block that is stored already changes nothing.
    pub add_block_known :
        (raw : Bytes) → get chain.database b.hash ≡ some raw → add_block p chain b ≡ ok chain
    unfolding add_block
    add_block_known raw e = rw (e, add_block)

    module _ (fresh : get chain.database b.hash ≡ none) (fits : accepts b.hash ≡ true) where
      HasTip-stored_only : HasTip (stored_only chain b) tip
      HasTip-stored_only =
          let (raw, e, d) = h.at_tip in
          record {
            at_lh =
                get-put_ne chain.database b.hash lh _
                  (absent-ne chain.database b.hash lh _ fresh h.at_lh)
                ∙ h.at_lh;
            at_tip =
                Stored-put_ne chain.database b.hash _ chain.last_hash tip
                  (absent-ne chain.database b.hash chain.last_hash raw fresh e) h.at_tip;
          }

      -- both ends of `AddBlock` begin by storing the block and reading the last one
      add_block_fresh : add_block p chain b ≡ (elim (ltb_ℤ tip.height b.height) [
        | true ↦ do
          db' ← txn_set p.badger (stored_only chain b).database lh b.hash
          ok (record { last_hash = b.hash; database = db' })
        | false ↦ ok (stored_only chain b)
      ])
      unfolding add_block txn_set decode_or_panic serialize
      add_block_fresh =
          rw (fresh, add_block, fits, ◌>>=◌)
            (rw (last_block-HasTip (stored_only chain b) tip HasTip-stored_only, ◌>>=◌)
              (rw (p.block_codec.decode-encode tip)))

      add_block_lower :
          ltb_ℤ tip.height b.height ≡ false → add_block p chain b ≡ ok (stored_only chain b)
      add_block_lower low = add_block_fresh ∙ rw low

      add_block_higher :
          accepts lh ≡ true
          → ltb_ℤ tip.height b.height ≡ true
          → add_block p chain b ≡ ok (made_last chain b)
      unfolding txn_set
      add_block_higher fits_lh high = add_block_fresh ∙ rw (high, fits_lh)

  -- the last block after `AddBlock`: the new one, if it is higher than the last one was
  abbrev pub higher_of : Block → Block → Block
  higher_of tip b = if ltb_ℤ tip.height b.height then b else tip

  abbrev pub SameElsewhere : DB → DB → Bytes → Type 0
  SameElsewhere d d' h = (k : Bytes) → k ≢ h → k ≢ lh → get d' k ≡ get d k

  -- What `AddBlock` promises of a block that was not stored.
  pub record Added (chain : BlockChain p) (tip b : Block) (after : BlockChain p) : Type 0 where
    pub has_tip : HasTip after (higher_of tip b)
    pub last_hash_is :
        after.last_hash ≡ (if ltb_ℤ tip.height b.height then b.hash else chain.last_hash)
    pub stored : Stored p after.database b.hash b
    pub elsewhere : SameElsewhere chain.database after.database b.hash
    pub best_height : get_best_height p after ≡ ok (higher_of tip b).height

  pub best_height-HasTip :
      (chain : BlockChain p) (tip : Block)
      → HasTip chain tip
      → get_best_height p chain ≡ ok tip.height
  unfolding get_best_height
  best_height-HasTip chain tip h = rw (last_block-HasTip chain tip h, ◌>>=◌)

  module _ (chain : BlockChain p) (tip b : Block) (h : HasTip chain tip)
      (fresh : get chain.database b.hash ≡ none) (ne : b.hash ≢ lh) where
    Stored-made_last : Stored p (made_last chain b).database b.hash b
    Stored-made_last =
        Stored-put_ne _ lh b.hash b.hash b (λ e. ne (sym e)) (Stored-put_self chain.database b)

    HasTip-made_last : HasTip (made_last chain b) b
    HasTip-made_last = record { at_lh = get-put_self _ lh b.hash; at_tip = Stored-made_last }

    Added-made_last : ltb_ℤ tip.height b.height ≡ true → Added chain tip b (made_last chain b)
    Added-made_last high = record {
      has_tip = rw high HasTip-made_last;
      last_hash_is = rw high;
      stored = Stored-made_last;
      elsewhere = λ k nk nl.
          get-put_ne _ lh k b.hash (λ e. nl (sym e))
          ∙ get-put_ne chain.database b.hash k _ (λ e. nk (sym e));
      best_height = rw high (best_height-HasTip (made_last chain b) b HasTip-made_last);
    }

    Added-stored_only :
        accepts b.hash ≡ true
        → ltb_ℤ tip.height b.height ≡ false
        → Added chain tip b (stored_only chain b)
    Added-stored_only fits low =
        let t = HasTip-stored_only chain tip b h fresh fits in
        record {
          has_tip = rw low t;
          last_hash_is = rw low;
          stored = Stored-put_self chain.database b;
          elsewhere = λ k nk nl. get-put_ne chain.database b.hash k _ (λ e. nk (sym e));
          best_height = rw low (best_height-HasTip (stored_only chain b) tip t);
        }

    -- For a chain whose last block is stored, and a new block under a key of its own, `AddBlock`
    -- returns. The block is then stored; it is the last one exactly if it is higher than the last
    -- one was; the best height is the larger of the two; and no other key has changed.
    pub add_block-Added :
        accepts b.hash ≡ true
        → accepts lh ≡ true
        → Returns (add_block p chain b) (Added chain tip b)
    add_block-Added fits fits_lh = elim (Bool-cases (ltb_ℤ tip.height b.height)) [
      | inl high ↦ (
        made_last chain b,
        add_block_higher chain tip b h fresh fits fits_lh high,
        Added-made_last high,
      )
      | inr low ↦ (
        stored_only chain b,
        add_block_lower chain tip b h fresh fits low,
        Added-stored_only fits low,
      )
    ]
