-- ===== src/Utxo/Totals.antt =====
-- Sums of amounts over lists, and the map of picked outputs of `FindSpendableOutputs`, read entry by
-- entry.
use golang_blockchain.Prelude.{
  ℕ, ◌+◌, ◌≡◌, refl, ap, subst, true, false, List, [], ◌∷◌, ◌++◌, Bytes, Map, ℤ, arith, insert,
  lookup, bytes_equal,
}
use mathlib.Core.List.{Permᴰ}
use golang_blockchain.Types.{TxOutput}
use golang_blockchain.Utxo.{append_at, slice_at}
use golang_blockchain.Utxo.Spending.{Worth}

-- the items have amounts, `total` in all
abbrev pub Totals : {A : Type 0} → (A → ℕ → Type 0) → List A → ℕ → Type 0
Totals P [] total = 0 ≡ total
Totals P (x ∷ xs) total = (v : ℕ) × (rest : ℕ) × P x v × Totals P xs rest × (v + rest ≡ total)

pub Totals-append :
    {A : Type 0} (P : A → ℕ → Type 0) (xs ys : List A) (a b : ℕ)
    → Totals P xs a
    → Totals P ys b
    → Totals P (xs ++ ys) (a + b)
Totals-append P [] ys a b t u = subst (Totals P ys) (omega (arith, t)) u
Totals-append P (x ∷ xs) ys a b (v, rest, h, t, e) u =
    (v, rest + b, h, Totals-append P xs ys rest b t u, omega (arith, e))

pub Totals-Perm :
    {A : Type 0} (P : A → ℕ → Type 0) (xs ys : List A) (n : ℕ)
    → Permᴰ xs ys
    → Totals P xs n
    → Totals P ys n
Totals-Perm P _ _ n Permᴰ.nil t = t
Totals-Perm P (a ∷ xs) (b ∷ ys) n (Permᴰ.cons e p) (v, rest, h, t, sum) =
    (v, rest, subst (λ x. P x v) e h, Totals-Perm P xs ys rest p t, sum)
Totals-Perm P (a ∷ b ∷ _) (a' ∷ b' ∷ _) n (Permᴰ.swap e f) (v, rest, h, (w, r, k, t, sum), sum') = (
  w,
  v + r,
  subst (λ x. P x w) f k,
  (v, r, subst (λ x. P x v) e h, t, refl),
  omega (arith, sum, sum'),
)
Totals-Perm P xs zs n (Permᴰ.trans {l₂} p q) t = Totals-Perm P l₂ zs n q (Totals-Perm P xs l₂ n p t)

pub Worth-split :
    (xs ys : List TxOutput) (total : ℕ)
    → Worth (xs ++ ys) total
    → (a : ℕ) × (b : ℕ) × Worth xs a × Worth ys b × (a + b ≡ total)
Worth-split [] ys total w = (0, total, refl, w, omega arith)
Worth-split (x ∷ xs) ys total (v, rest, value, w, sum) =
    let (a, b, l, r, e) = Worth-split xs ys rest w in
    (v + a, b, (v, a, value, l, refl), r, omega (arith, e, sum))

pub append_at_same :
    (m : Map (List ℤ)) (j k : Bytes) (is : List ℤ) (i : ℤ)
    → bytes_equal j k ≡ true
    → append_at ((j, is) ∷ m) k i ≡ (j, is ++ i ∷ []) ∷ m
unfolding append_at slice_at insert lookup
append_at_same m j k is i e = rw e refl

pub slice_at_other :
    (m : Map (List ℤ)) (j k : Bytes) (is : List ℤ)
    → bytes_equal j k ≡ false
    → slice_at ((j, is) ∷ m) k ≡ slice_at m k
unfolding slice_at lookup
slice_at_other m j k is e = rw e refl

pub append_at_other :
    (m : Map (List ℤ)) (j k : Bytes) (is : List ℤ) (i : ℤ)
    → bytes_equal j k ≡ false
    → append_at ((j, is) ∷ m) k i ≡ (j, is) ∷ append_at m k i
unfolding append_at insert
append_at_other m j k is i e =
    rw e (ap (λ (s : List ℤ). (j, is) ∷ insert k (s ++ i ∷ []) m) (slice_at_other m j k is e))
