-- ===== src/Pow/Search.antt =====
-- The loop of `Run` of blockchain/proof.go ends with the first good nonce.
use golang_blockchain.Prelude.{
  ℕ, zero, suc, ◌+◌, ◌≤◌, ◌<◌, ◌≡◌, refl, ap, inl, inr, true, false, ◌++◌, Bytes, ℤ, pos, arith,
  Bool-cases,
}
use native.Mathlib.Decide.{dec_lt}
use golang_blockchain.Words.Big.{be_int64}
use golang_blockchain.Platform.{Platform}
use golang_blockchain.Run.{ok, ◌>>=◌, Returns}
use golang_blockchain.Pow.{
  ProofOfWork, difficulty, hash_transactions, init_data, below_target, run_from,
}

module _ (p : Platform) where
  -- what is hashed for a nonce, once the root of the transactions is known
  abbrev pub hashed : Bytes → Bytes → ℕ → Bytes
  hashed prev_hash root n =
      p.crypto.sha256 (prev_hash ++ root ++ be_int64 (pos n) ++ be_int64 (pos difficulty))

  abbrev pub IsGood : ProofOfWork → Bytes → ℕ → Type 0
  IsGood pow root n = below_target p pow (hashed pow.block.prev_hash root n) ≡ true

  module _ (pow : ProofOfWork) (root : Bytes)
      (known : hash_transactions p pow.block ≡ ok root) where
    not-IsGood :
        (nonce j : ℕ)
        → below_target p pow (hashed pow.block.prev_hash root nonce) ≡ false
        → j ≡ nonce
        → ¬ (IsGood pow root j)
    not-IsGood nonce j miss e g =
        cc (miss, g, ap (λ n. below_target p pow (hashed pow.block.prev_hash root n)) e)

    next_le :
        (nonce k : ℕ)
        → nonce ≤ k
        → IsGood pow root k
        → below_target p pow (hashed pow.block.prev_hash root nonce) ≡ false
        → nonce + 1 ≤ k
    next_le nonce k lo good miss = elim (dec_lt nonce k) [
      | yes h ↦ omega arith
      | no h ↦ absurd (not-IsGood nonce k miss (omega arith) good)
    ]

    all_before :
        (nonce n : ℕ)
        → below_target p pow (hashed pow.block.prev_hash root nonce) ≡ false
        → ((j : ℕ) → nonce + 1 ≤ j → j < n → ¬ (IsGood pow root j))
        → (j : ℕ) → nonce ≤ j
        → j < n
        → ¬ (IsGood pow root j)
    all_before nonce n miss later j a b = elim (dec_lt nonce j) [
      | yes h ↦ later j (omega arith) b
      | no h ↦ not-IsGood nonce j miss (omega arith)
    ]

    pub init_data_known :
        (n : ℕ)
        → init_data p pow (pos n)
          ≡ ok (pow.block.prev_hash ++ root ++ be_int64 (pos n) ++ be_int64 (pos difficulty))
    unfolding init_data
    init_data_known n = rw (known, ◌>>=◌)

    run_hit :
        (rounds nonce : ℕ) (hash : Bytes)
        → IsGood pow root nonce
        → run_from p pow (suc rounds) nonce hash
          ≡ ok (pos nonce, hashed pow.block.prev_hash root nonce)
    unfolding run_from
    run_hit rounds nonce hash good = rw (init_data_known nonce, ◌>>=◌) (rw good)

    run_miss :
        (rounds nonce : ℕ) (hash : Bytes)
        → below_target p pow (hashed pow.block.prev_hash root nonce) ≡ false
        → run_from p pow (suc rounds) nonce hash
          ≡ run_from p pow rounds (nonce + 1) (hashed pow.block.prev_hash root nonce)
    unfolding run_from
    run_miss rounds nonce hash bad = rw (init_data_known nonce, ◌>>=◌) (rw bad)

    -- What the loop has found: the first good nonce from `lo` on, and its hash.
    abbrev pub Found : ℕ → ℕ → ℤ × Bytes → Type 0
    Found lo k r =
        (n : ℕ) × (r ≡ (pos n, hashed pow.block.prev_hash root n))
        × IsGood pow root n
        × (n ≤ k)
        × ((j : ℕ) → lo ≤ j → j < n → ¬ (IsGood pow root j))

    pub run_from-Found :
        (rounds nonce k : ℕ) (hash : Bytes)
        → nonce ≤ k
        → k < nonce + rounds
        → IsGood pow root k
        → Returns (run_from p pow rounds nonce hash) (Found nonce k)
    run_from-Found zero nonce k hash lo hi good = absurd (omega arith)
    run_from-Found (suc rounds) nonce k hash lo hi good =
        elim (Bool-cases (below_target p pow (hashed pow.block.prev_hash root nonce))) [
          | inl hit ↦
              (_, run_hit rounds nonce hash hit, (nonce, refl, hit, lo, λ j a b _. omega arith))
          | inr miss ↦
              let (r, e, (n, is, g, le, first)) =
                run_from-Found rounds (nonce + 1) k (hashed pow.block.prev_hash root nonce)
                  (next_le nonce k lo good miss) (omega arith) good in
              (
                r,
                rw (run_miss rounds nonce hash miss) e,
                (n, is, g, le, all_before nonce n miss first),
              )
        ]
