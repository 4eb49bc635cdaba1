-- ===== src/Utxo/Found.antt =====
-- What `FindUTXO` returns on a chain, by the order in which the loops meet the transactions: the
-- last block first, and within a block from the first transaction on.
use golang_blockchain.Prelude.{
  inl, In, ℤ, ℕ, ◌+◌, ◌≤◌, ◌≡◌, ◌≢◌, refl, sym, ap, ◌∙◌, List, [], ◌∷◌, ◌++◌, All, length,
  append-nil,
}
use golang_blockchain.Words.Hex.{hex_encode}
use golang_blockchain.Types.{Transaction, TxOutput, Block}
use golang_blockchain.Platform.{Platform}
use golang_blockchain.Run.{ok, ◌>>=◌, Returns}
use golang_blockchain.Chain.{BlockChain, no_return}
use golang_blockchain.Chain.Walk.{IsChain, passes, for_blocks-IsChain, all_transactions}
use golang_blockchain.Utxo.{
  Scan, no_scan, slice_at, is_spent, scan_transactions, scan_block, find_utxo,
}
use golang_blockchain.Utxo.Unspent.{
  unspent, spends_of, scan_transactions-append, scan_transactions-unspent, spends_of-append,
}
use golang_blockchain.Utxo.Spent.{Spent, Remains, spends_of-Spent, unspent-Remains}

scan_block-passes :
    (s : Scan) (bs : List Block)
    → no_return (passes scan_block s bs) ≡ scan_transactions s (all_transactions bs)
unfolding no_return scan_block
scan_block-passes s [] = unfold scan_transactions in refl
scan_block-passes s (b ∷ bs) =
    scan_block-passes (scan_transactions s b.transactions) bs
    ∙ sym (scan_transactions-append s b.transactions (all_transactions bs))

unspent-nil : (i : ℕ) (outs : List TxOutput) → unspent [] i outs ≡ outs
unfolding unspent is_spent
unspent-nil i [] = refl
unspent-nil i (out ∷ outs) = ap (λ l. out ∷ l) (unspent-nil (i + 1) outs)

empty_list : (os : List ℤ) → ((out : ℤ) → ¬ (In out os)) → os ≡ []
empty_list [] h = refl
empty_list (o ∷ os) h = absurd (h o (inl refl))

module _ (p : Platform) (fuel : ℕ) (chain : BlockChain p) (bs : List Block)
    (c : IsChain p chain.database chain.last_hash bs) (enough : length bs ≤ fuel) where
  -- On a chain `FindUTXO` returns what one scan over all its transactions leaves.
  pub find_utxo-scan :
      find_utxo p fuel chain ≡ ok (scan_transactions no_scan (all_transactions bs)).utxo
  unfolding find_utxo
  find_utxo-scan =
      rw
        (
          for_blocks-IsChain p scan_block fuel chain.database chain.last_hash no_scan bs c enough,
          ◌>>=◌,
        )
        (ap (λ (s : Scan). ok s.utxo) (scan_block-passes no_scan bs))

  module _ (before after : List Transaction) (t : Transaction)
      (order : all_transactions bs ≡ before ++ t ∷ after) (hb : All (λ u. u.id ≢ t.id) before)
      (ha : All (λ u. u.id ≢ t.id) after) where
    -- what is listed of `t`: its outputs less those that a transaction before it has spent
    find_utxo-unspent :
        Returns
          (find_utxo p fuel chain)
          (λ m. slice_at m (hex_encode t.id) ≡ unspent (spends_of t.id before) 0 t.outputs)
    find_utxo-unspent =
        (_, find_utxo-scan, rw order (scan_transactions-unspent before after t hb ha))

    find_utxo-unspent_all :
        spends_of t.id (t ∷ after) ≡ []
        → Returns (find_utxo p fuel chain) (λ m.
          slice_at m (hex_encode t.id) ≡ unspent (spends_of t.id (all_transactions bs)) 0 t.outputs)
    find_utxo-unspent_all causal =
        let (m, e, u) = find_utxo-unspent in
        (
          m,
          e,
          u
              ∙ ap (λ l. unspent l 0 t.outputs)
                  (sym (append-nil (spends_of t.id before))
                    ∙ ap (λ l. spends_of t.id before ++ l) (sym causal)
                    ∙ sym (spends_of-append t.id before (t ∷ after))
                    ∙ ap (spends_of t.id) (sym order)),
        )

    -- On a chain with as much fuel as blocks, let the ID of `t` be its own, and let neither `t` nor
    -- a transaction that the scan meets after it, so also none behind it in its own block, spend
    -- an output of `t`. Then `FindUTXO` returns, and lists of `t` exactly the outputs that no
    -- transaction of the chain spends, in their order.
    pub find_utxo_exact :
        ((out : ℤ) → ¬ (Spent t.id out (t ∷ after)))
        → Returns (find_utxo p fuel chain) (λ m.
          Remains
            (λ out. Spent t.id out (all_transactions bs))
            0
            t.outputs
            (slice_at m (hex_encode t.id)))
    find_utxo_exact causal =
        let none_after : spends_of t.id (t ∷ after) ≡ [] =
          empty_list (spends_of t.id (t ∷ after))
            (λ out m. causal out ((spends_of-Spent t.id out (t ∷ after)).0 m)) in
        let (m, e, u) = find_utxo-unspent_all none_after in
        (
          m,
          e,
          rw u (
              unspent-Remains (spends_of t.id (all_transactions bs)) _ 0 t.outputs
                (λ out. spends_of-Spent t.id out (all_transactions bs))),
        )

    -- If no transaction that the scan meets before `t` spends an output of `t`, every output of `t`
    -- is listed as unspent, also one that a later transaction of the same block has spent.
    pub find_utxo_late_spend :
        spends_of t.id before ≡ []
        → Returns (find_utxo p fuel chain) (λ m. slice_at m (hex_encode t.id) ≡ t.outputs)
    find_utxo_late_spend none_before =
        let (m, e, u) = find_utxo-unspent in
        (m, e, u ∙ ap (λ l. unspent l 0 t.outputs) none_before ∙ unspent-nil 0 t.outputs)
