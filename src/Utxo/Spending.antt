-- ===== src/Utxo/Spending.antt =====
-- What `FindSpendableOutputs` of blockchain/utxo.go accumulates, beside what
-- `FindUnspentTransactions` lists for the same key.
use golang_blockchain.Prelude.{
  ℕ, ◌+◌, ◌≤◌, ◌<◌, ◌^◌, ◌≡◌, refl, sym, ap, ◌∙◌, Bool, true, false, inl, inr, List, [], ◌∷◌, ◌++◌,
  Bytes, Bool-cases, ℤ, pos, ltb_ℤ, pos-+ℤ, ◌+ℤ◌, ltb, arith, trim_prefix, ◌↔◌, if◌then◌else◌,
}
use golang_blockchain.Words.Hex.{hex_encode}
use golang_blockchain.Types.{TxOutput}
use golang_blockchain.Platform.{Platform, decode_or_panic}
use golang_blockchain.Run.{ok, ◌>>=◌, Returns, returns_through, ok_injective}
use golang_blockchain.Tx.{is_locked_with_key}
use golang_blockchain.Utxo.{
  Spendable, append_at, spend_outputs, spend_entries, locked_outputs, unspent_entries,
  find_spendable_outputs, find_unspent_transactions, utxo_prefix,
}

-- the outputs have amounts that are not negative, `total` in all
abbrev pub Worth : List TxOutput → ℕ → Type 0
Worth [] total = 0 ≡ total
Worth (out ∷ outs) total =
    (v : ℕ) × (rest : ℕ) × (out.value ≡ pos v) × Worth outs rest × (v + rest ≡ total)

-- what is accumulated with one more output, while the amount is not reached
unfoldable pub add_below : ℤ → ℤ → ℤ → ℤ
add_below amount a value = if ltb_ℤ a amount then a +ℤ value else a

-- what is accumulated over the outputs, from the first on
unfoldable pub reach : ℤ → ℤ → List TxOutput → ℤ
reach amount a [] = a
reach amount a (out ∷ outs) = reach amount (add_below amount a out.value) outs

reach-append :
    (amount a : ℤ) (xs ys : List TxOutput)
    → reach amount a (xs ++ ys) ≡ reach amount (reach amount a xs) ys
unfolding reach
reach-append amount a [] ys = refl
reach-append amount a (x ∷ xs) ys = reach-append amount (add_below amount a x.value) xs ys

add_below_pos :
    (n a v : ℕ)
    → a + v < 2 ^ 63
    → add_below (pos n) (pos a) (pos v) ≡ pos (if ltb a n then a + v else a)
unfolding add_below
add_below_pos n a v h = ground (arith, pos-+ℤ a v h)

-- the state after an output that is locked with the key
with_next : Bool → Bytes → ℕ → TxOutput → Spendable → Spendable
with_next more id i out s =
    if more
    then record {
      accumulated = s.accumulated +ℤ out.value;
      unspent_outs = append_at s.unspent_outs id (pos i);
    }
    else s

accumulated-with_next :
    (more : Bool) (id : Bytes) (i : ℕ) (out : TxOutput) (s : Spendable)
    → (with_next more id i out s).accumulated
      ≡ (if more then s.accumulated +ℤ out.value else s.accumulated)
unfolding with_next
accumulated-with_next true id i out s = refl
accumulated-with_next false id i out s = refl

spend_outputs-reach :
    (h : Bytes) (amount : ℤ) (id : Bytes) (i : ℕ) (outs : List TxOutput) (s : Spendable)
    → (spend_outputs h amount id i outs s).accumulated
      ≡ reach amount s.accumulated (locked_outputs h outs)
unfolding spend_outputs reach locked_outputs with_next add_below
spend_outputs-reach h amount id i [] s = refl
spend_outputs-reach h amount id i (out ∷ outs) s = elim (Bool-cases (is_locked_with_key out h)) [
  | inr other ↦ rw (spend_outputs, other) (spend_outputs-reach h amount id (i + 1) outs s)
  | inl ours ↦
      rw (spend_outputs, ours)
        (spend_outputs-reach h amount id (i + 1) outs
            (with_next (ltb_ℤ s.accumulated amount) id i out s)
          ∙ ap (λ a. reach amount a (locked_outputs h outs))
              (accumulated-with_next (ltb_ℤ s.accumulated amount) id i out s))
]

module _ (p : Platform) where
  open p.badger use {DB, scan}

  spend_entries-reach :
      (h : Bytes) (amount : ℤ) (es : List (Bytes × Bytes)) (s : Spendable) (outs : List TxOutput)
      → unspent_entries p h es ≡ ok outs
      → Returns
          (spend_entries p h amount es s)
          (λ end. end.accumulated ≡ reach amount s.accumulated outs)
  unfolding spend_entries unspent_entries reach
  spend_entries-reach h amount [] s outs e =
      (s, refl, ap (reach amount s.accumulated) (ok_injective e))
  spend_entries-reach h amount ((k, v) ∷ es) s outs e =
      let (entry, decoded, e') = returns_through (decode_or_panic p.outputs_codec v) _ outs e in
      let (more, listed, e'') = returns_through (unspent_entries p h es) _ outs e' in
      let s' = spend_outputs h amount (hex_encode (trim_prefix utxo_prefix k)) 0 entry.outputs s in
      let (end, run, reached) = spend_entries-reach h amount es s' more listed in
      (
        end,
        rw (decoded, ◌>>=◌) run,
        reached
            ∙ ap (λ a. reach amount a more) (spend_outputs-reach h amount _ 0 entry.outputs s)
            ∙ sym (reach-append amount s.accumulated (locked_outputs h entry.outputs) more)
            ∙ ap (reach amount s.accumulated) (ok_injective e''),
      )

  -- amounts: the walk stops at the first one that is enough
  reach-Worth :
      (n a total : ℕ) (outs : List TxOutput)
      → Worth outs total
      → a + total < 2 ^ 63
      → (b : ℕ) × (reach (pos n) (pos a) outs ≡ pos b)
        × (b ≤ a + total)
        × ((n ≤ b) ↔ (n ≤ a + total))
  unfolding reach
  reach-Worth n a total [] w bound =
      (a, refl, omega (arith, w), (λ h. omega (arith, w, h), λ h. omega (arith, w, h)))
  reach-Worth n a total (out ∷ outs) (v, rest, value, w, sum) bound =
      let a' = if ltb a n then a + v else a in
      let (b, e, low, iff) = reach-Worth n a' rest outs w (ground (arith, sum, bound)) in
      (
        b,
        rw (value, add_below_pos n a v (omega (arith, sum, bound))) e,
        ground (arith, low, sum),
        (λ h. ground (arith, iff.0 h, sum), λ h. iff.1 (ground (arith, h, sum))),
      )

  -- If every output of the key that `FindUnspentTransactions` lists is worth an amount, `total` in
  -- all and below 2 ^ 63, then `FindSpendableOutputs` for an amount `n` returns, accumulates at
  -- most the total, and accumulates at least `n` exactly if the total is at least `n`.
  pub find_spendable_outputs_enough :
      (db : DB) (h : Bytes) (n total : ℕ) (outs : List TxOutput)
      → find_unspent_transactions p db h ≡ ok outs
      → Worth outs total
      → total < 2 ^ 63
      → Returns
          (find_spendable_outputs p db h (pos n))
          (λ s. (b : ℕ) × (s.accumulated ≡ pos b) × (b ≤ total) × ((n ≤ b) ↔ (n ≤ total)))
  unfolding find_spendable_outputs find_unspent_transactions
  find_spendable_outputs_enough db h n total outs listed worth bound =
      let (s, e, acc) =
        spend_entries-reach h (pos n) (scan db utxo_prefix)
          (record { accumulated = pos 0; unspent_outs = [] }) outs listed in
      let (b, r, low, iff) = reach-Worth n 0 total outs worth (omega (arith, bound)) in
      (
        s,
        e,
        (
          b,
          acc ∙ r,
          omega (arith, low),
          (λ m. omega (arith, iff.0 m), λ m. iff.1 (omega (arith, m))),
        ),
      )
