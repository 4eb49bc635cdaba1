-- ===== src/Utxo/Ledger.antt =====
-- A ledger of unspent outputs, as transactions change it: what `Update` of blockchain/utxo.go means.
use golang_blockchain.Prelude.{
  ℕ, zero, suc, ◌+◌, ◌<◌, ◌≡◌, refl, Option, none, some, List, [], ◌∷◌, ◌++◌, Bytes, ℤ, pos, negsuc,
  take, drop, bytes_equal, if◌then◌else◌, arith,
}
use golang_blockchain.Types.{Transaction, TxInput, TxOutput}
use golang_blockchain.Tx.{is_coinbase}
use golang_blockchain.Utxo.Updating.{outputs_without}

-- the unspent outputs of each transaction that has some
abbrev pub Ledger : Type 0
Ledger = Bytes → Option (List TxOutput)

unfoldable pub set_at : Ledger → Bytes → Option (List TxOutput) → Ledger
set_at m id outs j = if bytes_equal id j then outs else m j

-- a list less the member at an index
abbrev pub without_at : ℤ → List TxOutput → List TxOutput
without_at (pos n) outs = take n outs ++ drop (suc n) outs
without_at (negsuc n) outs = outs

abbrev pub if_any : List TxOutput → Option (List TxOutput)
if_any [] = none
if_any (out ∷ outs) = some (out ∷ outs)

-- each input takes one output off; `none` if its transaction has none left
unfoldable pub spend_all : List TxInput → Ledger → Option Ledger
spend_all [] m = some m
spend_all (i ∷ is) m = elim (m i.id) [
  | none ↦ none
  | some outs ↦ spend_all is (set_at m i.id (if_any (without_at i.out outs)))
]

-- each transaction spends, unless it is a coinbase transaction, and then has all of its outputs
unfoldable pub apply_all : List Transaction → Ledger → Option Ledger
apply_all [] m = some m
apply_all (tx ∷ txs) m = elim (if is_coinbase tx then some m else spend_all tx.inputs m) [
  | none ↦ none
  | some used ↦ apply_all txs (set_at used tx.id (some tx.outputs))
]

outputs_without_past :
    (a k : ℕ) (outs : List TxOutput) → a < k → outputs_without (pos a) k outs ≡ outs
unfolding outputs_without
outputs_without_past a k [] h = refl
outputs_without_past a k (out ∷ outs) h =
    let rest = outputs_without_past a (k + 1) outs (omega (arith, h)) in ground (arith, h, rest)

outputs_without-without_at :
    (a n k : ℕ) (outs : List TxOutput)
    → a ≡ n + k
    → outputs_without (pos a) k outs ≡ take n outs ++ drop (suc n) outs
unfolding outputs_without
outputs_without-without_at a zero k [] e = refl
outputs_without-without_at a (suc n) k [] e = refl
outputs_without-without_at a zero k (out ∷ outs) e =
    let rest = outputs_without_past a (k + 1) outs (omega (arith, e)) in ground (arith, e, rest)
outputs_without-without_at a (suc n) k (out ∷ outs) e =
    let rest = outputs_without-without_at a n (k + 1) outs (omega (arith, e)) in
    ground (arith, e, rest)

outputs_without_negative :
    (a k : ℕ) (outs : List TxOutput) → outputs_without (negsuc a) k outs ≡ outs
unfolding outputs_without
outputs_without_negative a k [] = refl
outputs_without_negative a k (out ∷ outs) =
    let rest = outputs_without_negative a (k + 1) outs in ground (arith, rest)

pub without_at-is :
    (used : ℤ) (outs : List TxOutput) → outputs_without used 0 outs ≡ without_at used outs
without_at-is (pos n) outs = outputs_without-without_at n n 0 outs (omega arith)
without_at-is (negsuc n) outs = outputs_without_negative n 0 outs
