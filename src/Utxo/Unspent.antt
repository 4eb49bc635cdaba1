-- ===== src/Utxo/Unspent.antt =====
-- What `FindUTXO` finds.
use golang_blockchain.Prelude.{
  ℕ, ◌+◌, ◌≡◌, ◌≢◌, refl, sym, ap, ◌∙◌, inl, inr, List, [], ◌∷◌, ◌++◌, append_assoc, append-nil,
  All, Bytes, Map, lookup, lookup-insert, bytes_equal, bytes_equal_refl, bytes_equal_ne,
  bytes_equal_iff, Bool-cases, ℤ, pos, arith, if◌then◌else◌,
}
use golang_blockchain.Words.Hex.{hex_encode, hex_encode_injective}
use golang_blockchain.Types.{Transaction, TxInput, TxOutput}
use golang_blockchain.Tx.{is_coinbase}
use golang_blockchain.Utxo.{
  Scan, no_scan, or_empty, slice_at, append_at, is_spent, scan_outputs, scan_inputs,
  scan_transaction, scan_transactions,
}

-- the outputs whose index is not in the list of spent ones
unfoldable pub unspent : List ℤ → ℕ → List TxOutput → List TxOutput
unspent spent i [] = []
unspent spent i (out ∷ outs) =
    let rest = unspent spent (i + 1) outs in if is_spent spent (pos i) then rest else out ∷ rest

-- the output indices that inputs name in the transaction with this ID
unfoldable pub indices_of : Bytes → List TxInput → List ℤ
indices_of id [] = []
indices_of id (i ∷ is) =
    let rest = indices_of id is in if bytes_equal i.id id then i.out ∷ rest else rest

-- the output indices that transactions spend of the one with this ID; a coinbase spends none
unfoldable pub spends_of : Bytes → List Transaction → List ℤ
spends_of id [] = []
spends_of id (t ∷ ts) = (if is_coinbase t then [] else indices_of id t.inputs) ++ spends_of id ts

slice_at-append_at :
    {V : Type 0} (m : Map (List V)) (k j : Bytes) (v : V)
    → slice_at (append_at m k v) j
      ≡ (if bytes_equal k j then slice_at m j ++ v ∷ [] else slice_at m j)
unfolding slice_at append_at
slice_at-append_at m k j v =
    ap or_empty (lookup-insert k j (slice_at m k ++ v ∷ []) m) ∙ ground (arith, bytes_equal_iff k j)

hex_equal : (a b : Bytes) → bytes_equal (hex_encode a) (hex_encode b) ≡ bytes_equal a b
hex_equal a b = ground (
  arith,
  bytes_equal_iff (hex_encode a) (hex_encode b),
  bytes_equal_iff a b,
  hex_encode_injective a b,
  ap hex_encode {x = a} {y = b},
)

append_at_self :
    {V : Type 0} (m : Map (List V)) (k : Bytes) (v : V)
    → slice_at (append_at m k v) k ≡ slice_at m k ++ v ∷ []
append_at_self m k v = rw (slice_at-append_at, bytes_equal_refl)

append_at_ne :
    {V : Type 0} (m : Map (List V)) (k j : Bytes) (v : V)
    → k ≢ j
    → slice_at (append_at m k v) j ≡ slice_at m j
append_at_ne m k j v h = rw (slice_at-append_at, bytes_equal_ne k j h)

scan_outputs_self :
    (k : Bytes) (spent : List ℤ) (i : ℕ) (outs : List TxOutput) (m : Map (List TxOutput))
    → slice_at (scan_outputs k spent i outs m) k ≡ slice_at m k ++ unspent spent i outs
unfolding scan_outputs unspent
scan_outputs_self k spent i [] m = rw append-nil
scan_outputs_self k spent i (out ∷ outs) m = elim (Bool-cases (is_spent spent (pos i))) [
  | inl gone ↦ rw gone (scan_outputs_self k spent (i + 1) outs m)
  | inr live ↦ rw live (
      scan_outputs_self k spent (i + 1) outs (append_at m k out)
      ∙ ap (λ l. l ++ unspent spent (i + 1) outs) (append_at_self m k out)
      ∙ append_assoc (slice_at m k) (out ∷ []) (unspent spent (i + 1) outs))
]

scan_outputs_ne :
    (k j : Bytes) (spent : List ℤ) (i : ℕ) (outs : List TxOutput) (m : Map (List TxOutput))
    → k ≢ j
    → slice_at (scan_outputs k spent i outs m) j ≡ slice_at m j
unfolding scan_outputs
scan_outputs_ne k j spent i [] m h = refl
scan_outputs_ne k j spent i (out ∷ outs) m h = elim (Bool-cases (is_spent spent (pos i))) [
  | inl gone ↦ rw gone (scan_outputs_ne k j spent (i + 1) outs m h)
  | inr live ↦
      rw live
        (scan_outputs_ne k j spent (i + 1) outs (append_at m k out) h ∙ append_at_ne m k j out h)
]

scan_inputs-indices_of :
    (id : Bytes) (is : List TxInput) (m : Map (List ℤ))
    → slice_at (scan_inputs is m) (hex_encode id) ≡ slice_at m (hex_encode id) ++ indices_of id is
unfolding scan_inputs indices_of
scan_inputs-indices_of id [] m = rw append-nil
scan_inputs-indices_of id (i ∷ is) m =
    let k = hex_encode i.id in
    scan_inputs-indices_of id is (append_at m k i.out) ∙ elim (Bool-cases (bytes_equal i.id id)) [
      | inl same ↦
          rw (slice_at-append_at, hex_equal i.id id, same)
            (append_assoc (slice_at m (hex_encode id)) (i.out ∷ []) (indices_of id is))
      | inr other ↦ rw (slice_at-append_at, hex_equal i.id id, other)
    ]

scan_transaction-spent :
    (id : Bytes) (s : Scan) (t : Transaction)
    → slice_at (scan_transaction s t).spent (hex_encode id)
      ≡ slice_at s.spent (hex_encode id) ++ (if is_coinbase t then [] else indices_of id t.inputs)
unfolding scan_transaction
scan_transaction-spent id s t = elim (Bool-cases (is_coinbase t)) [
  | inl yes' ↦ rw yes' (sym (append-nil (slice_at s.spent (hex_encode id))))
  | inr no' ↦ rw no' (scan_inputs-indices_of id t.inputs s.spent)
]

scan_transactions-spent :
    (id : Bytes) (s : Scan) (txs : List Transaction)
    → slice_at (scan_transactions s txs).spent (hex_encode id)
      ≡ slice_at s.spent (hex_encode id) ++ spends_of id txs
unfolding scan_transactions spends_of
scan_transactions-spent id s [] = rw append-nil
scan_transactions-spent id s (t ∷ ts) =
    scan_transactions-spent id (scan_transaction s t) ts
    ∙ rw (scan_transaction-spent id s t) (
        append_assoc (slice_at s.spent (hex_encode id))
          (if is_coinbase t then [] else indices_of id t.inputs) (spends_of id ts))

-- Transactions with other IDs leave the entry as it is.
scan_transactions_ne :
    (id : Bytes) (s : Scan) (txs : List Transaction)
    → All (λ t. t.id ≢ id) txs
    → slice_at (scan_transactions s txs).utxo (hex_encode id) ≡ slice_at s.utxo (hex_encode id)
unfolding scan_transactions scan_transaction
scan_transactions_ne id s [] h = refl
scan_transactions_ne id s (t ∷ ts) h =
    scan_transactions_ne id (scan_transaction s t) ts h.1
    ∙ scan_outputs_ne (hex_encode t.id) (hex_encode id) _ 0 t.outputs s.utxo
        (λ e. h.0 (hex_encode_injective t.id id e))

pub scan_transactions-append :
    (s : Scan) (xs ys : List Transaction)
    → scan_transactions s (xs ++ ys) ≡ scan_transactions (scan_transactions s xs) ys
unfolding scan_transactions
scan_transactions-append s [] ys = refl
scan_transactions-append s (x ∷ xs) ys = scan_transactions-append (scan_transaction s x) xs ys

-- The entry of a transaction, from the transactions that the scan meets before it.
pub scan_transactions-unspent :
    (before after : List Transaction) (t : Transaction)
    → All (λ u. u.id ≢ t.id) before
    → All (λ u. u.id ≢ t.id) after
    → slice_at (scan_transactions no_scan (before ++ t ∷ after)).utxo (hex_encode t.id)
      ≡ unspent (spends_of t.id before) 0 t.outputs
scan_transactions-unspent before after t hb ha =
    let s = scan_transactions no_scan before in
    let k = hex_encode t.id in
    rw (scan_transactions-append no_scan before (t ∷ after)) (
      unfold scan_transactions in
      scan_transactions_ne t.id (scan_transaction s t) after ha
      ∙ unfold scan_transaction in
        scan_outputs_self k (slice_at s.spent k) 0 t.outputs s.utxo
        ∙ rw
            (
              scan_transactions_ne t.id no_scan before hb,
              scan_transactions-spent t.id no_scan before,
            )
            (unfold slice_at lookup in refl))

pub spends_of-append :
    (id : Bytes) (xs ys : List Transaction)
    → spends_of id (xs ++ ys) ≡ spends_of id xs ++ spends_of id ys
unfolding spends_of
spends_of-append id [] ys = refl
spends_of-append id (x ∷ xs) ys =
    ap (λ l. (if is_coinbase x then [] else indices_of id x.inputs) ++ l)
      (spends_of-append id xs ys)
    ∙ sym (
        append_assoc (if is_coinbase x then [] else indices_of id x.inputs) (spends_of id xs)
          (spends_of id ys))
