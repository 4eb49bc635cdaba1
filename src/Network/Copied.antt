-- ===== src/Network/Copied.antt =====
-- The chain after the blocks of another node have been added, the last one first, as
-- `GetBlockHashes` lists them.
use golang_blockchain.Prelude.{
  ◌≡◌, ◌≢◌, refl, sym, subst, ◌∙◌, true, false, ◌⊎◌, inl, inr, none, List, [], ◌∷◌, All, Bytes,
  ltb_ℤ,
}
use golang_blockchain.Types.{Block, is_nil}
use golang_blockchain.Platform.{Platform}
use golang_blockchain.Run.{◌>>=◌, Returns}
use golang_blockchain.Chain.{BlockChain, lh, add_block}
use golang_blockchain.Chain.Walk.{IsChain, Stored}
use golang_blockchain.Chain.Growth.{HasTip, SameElsewhere, add_block_known, add_block-Added}
use golang_blockchain.Network.Sync.{add_all}

-- The blocks of a chain from its end: each names the next one, and the last one names none.
abbrev pub IsLinked : List Block → Type 0
IsLinked [] = ⊥
IsLinked (b ∷ []) = is_nil b.prev_hash ≡ true
IsLinked (b ∷ c ∷ bs) = (is_nil b.prev_hash ≡ false) × (b.prev_hash ≡ c.hash) × IsLinked (c ∷ bs)

-- no two blocks have the same hash
abbrev pub AreApart : List Block → Type 0
AreApart [] = Unit
AreApart (b ∷ bs) = All (λ c. c.hash ≢ b.hash) bs × AreApart bs

module _ (p : Platform) where
  open p.badger use {DB, get, accepts}

  -- A block that is no higher than `tip` and can be added: it is stored already, or its key is
  -- free.
  abbrev pub IsReady : DB → Block → Block → Type 0
  IsReady db tip b =
      (b.hash ≢ lh)
      × (ltb_ℤ tip.height b.height ≡ false)
      × (Stored p db b.hash b ⊎ ((get db b.hash ≡ none) × (accepts b.hash ≡ true)))

  -- What `AddBlock` leaves of such a block.
  record LowAdded (chain : BlockChain p) (tip b : Block) (after : BlockChain p) : Type 0 where
    pub has_tip : HasTip p after tip
    pub same_last : after.last_hash ≡ chain.last_hash
    pub stored : Stored p after.database b.hash b
    pub elsewhere : SameElsewhere p chain.database after.database b.hash

  add_block-LowAdded :
      (chain : BlockChain p) (tip b : Block)
      → HasTip p chain tip
      → accepts lh ≡ true
      → IsReady chain.database tip b
      → Returns (add_block p chain b) (LowAdded chain tip b)
  add_block-LowAdded chain tip b h fits_lh (ne, low, inl st) = (
    chain,
    add_block_known p chain tip b h st.0 st.1,
    record { has_tip = h; same_last = refl; stored = st; elsewhere = λ k nk nl. refl },
  )
  add_block-LowAdded chain tip b h fits_lh (ne, low, inr (fresh, fits)) =
      let (after, e, added) = add_block-Added p chain tip b h fresh ne fits fits_lh in
      (
        after,
        e,
        record {
          has_tip = subst (λ t. HasTip p after t) (rw low refl) added.has_tip;
          same_last = added.last_hash_is ∙ rw low refl;
          stored = added.stored;
          elsewhere = added.elsewhere;
        },
      )

  Stored-elsewhere :
      (d d' : DB) (h : Bytes) (b : Block) → get d' h ≡ get d h → Stored p d h b → Stored p d' h b
  Stored-elsewhere d d' h b same (raw, e, dec) = (raw, same ∙ e, dec)

  IsReady-elsewhere :
      (d d' : DB) (tip b : Block) (h : Bytes)
      → SameElsewhere p d d' h
      → b.hash ≢ h
      → IsReady d tip b
      → IsReady d' tip b
  IsReady-elsewhere d d' tip b h same apart (ne, low, inl st) =
      (ne, low, inl (Stored-elsewhere d d' b.hash b (same b.hash apart ne) st))
  IsReady-elsewhere d d' tip b h same apart (ne, low, inr (fresh, fits)) =
      (ne, low, inr (same b.hash apart ne ∙ fresh, fits))

  All-IsReady :
      (d d' : DB) (tip : Block) (h : Bytes) (bs : List Block)
      → SameElsewhere p d d' h
      → All (λ b. b.hash ≢ h) bs
      → All (IsReady d tip) bs
      → All (IsReady d' tip) bs
  All-IsReady d d' tip h [] same apart ready = tt
  All-IsReady d d' tip h (b ∷ bs) same (ne, apart) (r, ready) =
      (IsReady-elsewhere d d' tip b h same ne r, All-IsReady d d' tip h bs same apart ready)

  -- What the calls of `AddBlock` for a list of such blocks leave.
  record AllAdded (chain : BlockChain p) (tip : Block) (bs : List Block) (after : BlockChain p)
      : Type 0 where
    pub has_tip : HasTip p after tip
    pub same_last : after.last_hash ≡ chain.last_hash
    pub stored : All (λ b. Stored p after.database b.hash b) bs
    pub elsewhere :
        (k : Bytes)
        → k ≢ lh
        → All (λ b. b.hash ≢ k) bs
        → get after.database k ≡ get chain.database k

  add_all-AllAdded :
      (bs : List Block) (chain : BlockChain p) (tip : Block)
      → HasTip p chain tip
      → accepts lh ≡ true
      → All (IsReady chain.database tip) bs
      → AreApart bs
      → Returns (add_all p chain bs) (AllAdded chain tip bs)
  unfolding add_all
  add_all-AllAdded [] chain tip h fits_lh ready apart = (
    chain,
    refl,
    record { has_tip = h; same_last = refl; stored = tt; elsewhere = λ k nl ne. refl },
  )
  add_all-AllAdded (b ∷ bs) chain tip h fits_lh (r, ready) (apart, aparts) =
      let (mid, e, low) = add_block-LowAdded chain tip b h fits_lh r in
      let (after, e', all) =
        add_all-AllAdded bs mid tip low.has_tip fits_lh
          (All-IsReady chain.database mid.database tip b.hash bs low.elsewhere apart ready)
          aparts in
      (
        after,
        rw (e, ◌>>=◌) e',
        record {
          has_tip = all.has_tip;
          same_last = all.same_last ∙ low.same_last;
          stored = (
            Stored-elsewhere mid.database after.database b.hash b (all.elsewhere b.hash r.0 apart)
                low.stored,
            all.stored,
          );
          elsewhere = λ k nl ne. all.elsewhere k nl ne.1 ∙ low.elsewhere k (λ q. ne.0 (sym q)) nl;
        },
      )

  linked-IsChain :
      (d : DB) (b : Block) (bs : List Block)
      → IsLinked (b ∷ bs)
      → All (λ c. Stored p d c.hash c) (b ∷ bs)
      → IsChain p d b.hash (b ∷ bs)
  linked-IsChain d b [] last (st, _) = (st, last)
  linked-IsChain d b (c ∷ bs) (more, link, linked) (st, sts) =
      (st, more, subst (λ h. IsChain p d h (c ∷ bs)) (sym link) (linked-IsChain d c bs linked sts))

  -- Let a chain be given whose last block is stored, and the linked blocks of another chain with
  -- different hashes, the last one first. If that one is new and higher than the last block here,
  -- and each of the others is no higher than it, and stored here already or new, then all calls
  -- of `AddBlock` return. The other chain's last block is then the last one here, and from it the
  -- database holds the other chain.
  pub add_all-IsChain :
      (chain : BlockChain p) (tip b : Block) (bs : List Block)
      → HasTip p chain tip
      → accepts lh ≡ true
      → b.hash ≢ lh
      → get chain.database b.hash ≡ none
      → accepts b.hash ≡ true
      → ltb_ℤ tip.height b.height ≡ true
      → All (IsReady chain.database b) bs
      → AreApart (b ∷ bs)
      → IsLinked (b ∷ bs)
      → Returns (add_all p chain (b ∷ bs)) (λ after.
        (after.last_hash ≡ b.hash)
        × HasTip p after b
        × IsChain p after.database after.last_hash (b ∷ bs))
  unfolding add_all
  add_all-IsChain chain tip b bs h fits_lh ne fresh fits high ready (apart, aparts) linked =
      let (mid, e, added) = add_block-Added p chain tip b h fresh ne fits fits_lh in
      let top : HasTip p mid b = subst (λ t. HasTip p mid t) (rw high refl) added.has_tip in
      let (after, e', all) =
        add_all-AllAdded bs mid b top fits_lh
          (All-IsReady chain.database mid.database b b.hash bs added.elsewhere apart ready)
          aparts in
      let last : after.last_hash ≡ b.hash = all.same_last ∙ added.last_hash_is ∙ rw high refl in
      (
        after,
        rw (e, ◌>>=◌) e',
        (
          last,
          all.has_tip,
          subst (λ k. IsChain p after.database k (b ∷ bs)) (sym last)
              (linked-IsChain after.database b bs linked (
                Stored-elsewhere mid.database after.database b.hash b
                    (all.elsewhere b.hash ne apart) added.stored,
                all.stored,
              )),
        ),
      )
