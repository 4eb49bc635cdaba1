-- ===== src/Utxo/Picked.antt =====
-- What `FindSpendableOutputs` of blockchain/utxo.go picks: outputs in the database, worth what is
-- accumulated.
use golang_blockchain.Prelude.{
  ℕ, suc, ◌+◌, ◌≤◌, ◌<◌, ◌^◌, ◌≡◌, refl, sym, ap, ◌∙◌, subst, true, inl, inr, some, List, [], ◌∷◌,
  ◌++◌, In, All, Bytes, Map, Bool-cases, ℤ, pos, ltb_ℤ, pos-+ℤ, ◌+ℤ◌, arith, trim_prefix,
  has_prefix, insert, lookup, bytes_equal, bytes_equal→eq, get_elem?, if◌then◌else◌,
}
use golang_blockchain.Words.Hex.{hex_encode, hex_encode_injective}
use golang_blockchain.Types.{TxOutput, TxOutputs}
use golang_blockchain.Platform.{Platform, decode_or_panic}
use golang_blockchain.Run.{
  or_panic-ok, bind-ok, ok, decode_failed, or_panic, Returns, returns_through, ok_injective,
}
use golang_blockchain.Tx.{is_locked_with_key, output_at}
use golang_blockchain.Utxo.{
  Spendable, append_at, slice_at, spend_outputs, spend_entries, locked_outputs, unspent_entries,
  find_spendable_outputs, find_unspent_transactions, utxo_prefix,
}
use golang_blockchain.Utxo.Spending.{Worth}
use golang_blockchain.Utxo.Scanned.{has_prefix-append}
use golang_blockchain.Utxo.Totals.{
  Totals, Totals-append, Worth-split, append_at_same, append_at_other,
}

trimmed :
    (k : Bytes) → has_prefix utxo_prefix k ≡ true → k ≡ utxo_prefix ++ trim_prefix utxo_prefix k
unfolding trim_prefix
trimmed k under =
    has_prefix-append utxo_prefix k under ∙ ap (λ (l : Bytes). utxo_prefix ++ l) (rw under refl)

module _ (p : Platform) where
  open p.badger use {DB, get, scan, scan_sound}

  -- The database holds, for the transaction with the ID, unspent outputs with one at the index that
  -- is locked with the key hash and worth `v`.
  abbrev pub Stored : DB → Bytes → Bytes → ℤ → ℕ → Type 0
  Stored d h id i v =
      (raw : Bytes) × (entry : TxOutputs) × (out : TxOutput) × (get d (utxo_prefix ++ id)
        ≡ some raw)
      × (p.outputs_codec.decode raw ≡ some entry)
      × (output_at entry.outputs i ≡ ok out)
      × (is_locked_with_key out h ≡ true)
      × (out.value ≡ pos v)

  -- the picked outputs of one transaction, under the hex form of its ID
  abbrev pub Picked : DB → Bytes → Bytes × List ℤ → ℕ → Type 0
  Picked d h e n =
      (id : Bytes) × (e.0 ≡ hex_encode id) × All (λ x. x < 256) id × Totals (Stored d h id) e.1 n

  append_at-Picked :
      (d : DB) (h id : Bytes) (i : ℤ) (v : ℕ) (m : Map (List ℤ)) (b : ℕ)
      → All (λ x. x < 256) id
      → Stored d h id i v
      → Totals (Picked d h) m b
      → Totals (Picked d h) (append_at m (hex_encode id) i) (b + v)
  unfolding append_at slice_at insert lookup
  append_at-Picked d h id i v [] b bytes here t =
      (v, 0, (id, refl, bytes, (v, 0, here, refl, omega arith)), refl, omega (arith, t))
  append_at-Picked d h id i v ((j, is) ∷ m) b bytes here (a, rest, (id', e, bytes', t), ts, sum) =
      elim (Bool-cases (bytes_equal j (hex_encode id))) [
        | inl same ↦
            let at : id ≡ id' =
              hex_encode_injective id id' (sym (bytes_equal→eq j (hex_encode id) same) ∙ e) in
            rw (append_at_same m j (hex_encode id) is i same) (
              a + v,
              rest,
              (
                id',
                e,
                bytes',
                Totals-append (Stored d h id') is (i ∷ []) a v t
                    (v, 0, subst (λ x. Stored d h x i v) at here, refl, omega arith),
              ),
              ts,
              omega (arith, sum),
            )
        | inr other ↦ rw (append_at_other m j (hex_encode id) is i other) (
          a,
          rest + v,
          (id', e, bytes', t),
          append_at-Picked d h id i v m rest bytes here ts,
          omega (arith, sum),
        )
      ]

  -- the state of the loop: `b` is accumulated, and it is the worth of the outputs that are picked
  abbrev pub Holding : DB → Bytes → Spendable → ℕ → Type 0
  Holding d h s b = (s.accumulated ≡ pos b) × Totals (Picked d h) s.unspent_outs b

  Holding-next :
      (d : DB) (h id : Bytes) (n i : ℕ) (out : TxOutput) (s : Spendable) (b v : ℕ)
      → All (λ x. x < 256) id
      → Stored d h id (pos i) v
      → out.value ≡ pos v
      → b + v < 2 ^ 63
      → Holding d h s b
      → (c : ℕ) × (c ≤ b + v)
        × Holding d h
            (if ltb_ℤ s.accumulated (pos n)
              then record {
                accumulated = s.accumulated +ℤ out.value;
                unspent_outs = append_at s.unspent_outs (hex_encode id) (pos i);
              }
              else s)
            c
  Holding-next d h id n i out s b v bytes here value bound (acc, t) =
      elim (Bool-cases (ltb_ℤ s.accumulated (pos n))) [
        | inl below ↦ rw below (
          b + v,
          omega arith,
          (
            rw (acc, value) (pos-+ℤ b v bound),
            append_at-Picked d h id (pos i) v s.unspent_outs b bytes here t,
          ),
        )
        | inr enough ↦ rw enough (b, omega arith, (acc, t))
      ]

  -- the loop over the outputs of one entry, of which those from the index `i` on are left
  spend_outputs-Holding :
      (d : DB) (h id raw : Bytes) (entry : TxOutputs) (n i : ℕ) (outs : List TxOutput)
      (s : Spendable) (b total : ℕ)
      → get d (utxo_prefix ++ id) ≡ some raw
      → p.outputs_codec.decode raw ≡ some entry
      → All (λ x. x < 256) id
      → ((j : ℕ) → get_elem? entry.outputs (i + j) ≡ get_elem? outs j)
      → Worth (locked_outputs h outs) total
      → b + total < 2 ^ 63
      → Holding d h s b
      → (c : ℕ) × (c ≤ b + total) × Holding d h (spend_outputs h (pos n) (hex_encode id) i outs s) c
  unfolding spend_outputs locked_outputs output_at
  spend_outputs-Holding d h id raw entry n i [] s b total here decoded bytes left worth bound held =
      (b, omega arith, held)
  spend_outputs-Holding d h id raw entry n i (out ∷ outs) s b total here decoded bytes left worth
        bound held =
      let left' : (j : ℕ) → get_elem? entry.outputs (i + 1 + j) ≡ get_elem? outs j =
        λ j. ap (get_elem? entry.outputs) (omega arith) ∙ left (suc j) in
      elim (Bool-cases (is_locked_with_key out h)) [
        | inr other ↦
            rw (spend_outputs, other)
              (spend_outputs-Holding d h id raw entry n (i + 1) outs s b total here decoded bytes
                left' (rw other at worth) bound held)
        | inl ours ↦
            let (v, rest, value, worth', sum) : Worth (out ∷ locked_outputs h outs) total =
              rw ours at worth in
            let at : get_elem? entry.outputs i ≡ some out =
              ap (get_elem? entry.outputs) (omega arith) ∙ left 0 in
            let (c, low, held') =
              Holding-next d h id n i out s b v bytes
                (raw, entry, out, here, decoded, ap (or_panic _) at, ours, value) value
                (omega (arith, sum, bound)) held in
            let (c', low', held'') =
              spend_outputs-Holding d h id raw entry n (i + 1) outs _ c rest here decoded bytes
                left' worth' (omega (arith, low, sum, bound)) held' in
            (c', omega (arith, low, low', sum), rw (spend_outputs, ours) held'')
      ]

  decode_some :
      (v : Bytes) (entry : TxOutputs)
      → decode_or_panic p.outputs_codec v ≡ ok entry
      → p.outputs_codec.decode v ≡ some entry
  unfolding decode_or_panic
  decode_some v entry e = or_panic-ok decode_failed (p.outputs_codec.decode v) entry e

  spend_entries-Holding :
      (d : DB) (h : Bytes) (n : ℕ) (es : List (Bytes × Bytes)) (s : Spendable)
      (outs : List TxOutput) (b total : ℕ)
      → ((k v : Bytes) → In (k, v) es → (get d k ≡ some v) × (has_prefix utxo_prefix k ≡ true))
      → ((id raw : Bytes) → get d (utxo_prefix ++ id) ≡ some raw → All (λ x. x < 256) id)
      → unspent_entries p h es ≡ ok outs
      → Worth outs total
      → b + total < 2 ^ 63
      → Holding d h s b
      → Returns (spend_entries p h (pos n) es s) (λ end. (c : ℕ) × Holding d h end c)
  unfolding spend_entries unspent_entries
  spend_entries-Holding d h n [] s outs b total stored bytes e worth bound held =
      (s, refl, (b, held))
  spend_entries-Holding d h n ((k, v) ∷ es) s outs b total stored bytes e worth bound held =
      let (entry, decoded, e') = returns_through (decode_or_panic p.outputs_codec v) _ outs e in
      let (more, listed, e'') = returns_through (unspent_entries p h es) _ outs e' in
      let (here, under) = stored k v (inl refl) in
      let id = trim_prefix utxo_prefix k in
      let at = sym (ap (get d) (trimmed k under)) ∙ here in
      let (l, r, worth_l, worth_r, sum) =
        Worth-split (locked_outputs h entry.outputs) more total
          (subst (λ o. Worth o total) (sym (ok_injective e'')) worth) in
      let (c, low, held') =
        spend_outputs-Holding d h id v entry n 0 entry.outputs s b l at
          (decode_some v entry decoded) (bytes id v at)
          (λ j. ap (get_elem? entry.outputs) (omega arith)) worth_l (omega (arith, sum, bound))
          held in
      let (end, run, post) =
        spend_entries-Holding d h n es _ more c r (λ j u m. stored j u (inr m)) bytes listed worth_r
          (omega (arith, low, sum, bound)) held' in
      (end, bind-ok (decode_or_panic p.outputs_codec v) _ entry decoded ∙ run, post)

  -- What `FindSpendableOutputs` returns, if it accumulates no more than 64 bits hold.
  pub find_spendable_outputs-Holding :
      (d : DB) (h : Bytes) (n total : ℕ) (outs : List TxOutput)
      → ((id raw : Bytes) → get d (utxo_prefix ++ id) ≡ some raw → All (λ x. x < 256) id)
      → find_unspent_transactions p d h ≡ ok outs
      → Worth outs total
      → total < 2 ^ 63
      → Returns (find_spendable_outputs p d h (pos n)) (λ s. (b : ℕ) × Holding d h s b)
  unfolding find_spendable_outputs find_unspent_transactions
  find_spendable_outputs-Holding d h n total outs bytes listed worth bound =
      spend_entries-Holding d h n (scan d utxo_prefix)
        (record { accumulated = pos 0; unspent_outs = [] }) outs 0 total (scan_sound d utxo_prefix)
        bytes listed worth (omega (arith, bound)) (refl, refl)
