-- ===== src/Utxo/Spent.antt =====
-- What it means that an output is spent, apart from the maps of `FindUTXO`.
use golang_blockchain.Prelude.{
  true, false, inl, inr, ◌⊎◌, ◌↔◌, In, Bytes, ℤ, pos, eq_ℤ, eq_ℤ→eq, eq_ℤ_refl, bytes_equal,
  bytes_equal→eq, bytes_equal_iff, Bool-cases, false≢true, arith, ℕ, ◌+◌, ◌≡◌, refl, sym, ap, ◌∙◌,
  List, [], ◌∷◌, ◌++◌,
}
use golang_blockchain.Types.{Transaction, TxInput, TxOutput}
use golang_blockchain.Tx.{is_coinbase}
use golang_blockchain.Utxo.{is_spent}
use golang_blockchain.Utxo.Unspent.{unspent, spends_of, indices_of}

-- an input of the list names the output with this index of the transaction with this ID
abbrev pub Names : Bytes → ℤ → List TxInput → Type 0
Names id out [] = ⊥
Names id out (i ∷ is) = ((i.id ≡ id) × (i.out ≡ out)) ⊎ Names id out is

-- a transaction of the list that is no coinbase transaction spends that output
abbrev pub Spent : Bytes → ℤ → List Transaction → Type 0
Spent id out [] = ⊥
Spent id out (t ∷ ts) = ((is_coinbase t ≡ false) × Names id out t.inputs) ⊎ Spent id out ts

-- `left` are the outputs, counted from the i-th on, that are not spent, in their order.
abbrev pub Remains : (ℤ → Type 0) → ℕ → List TxOutput → List TxOutput → Type 0
Remains IsSpent i [] left = left ≡ []
Remains IsSpent i (out ∷ outs) left =
    (IsSpent (pos i) × Remains IsSpent (i + 1) outs left)
    ⊎ ((¬ IsSpent (pos i))
        × (rest : List TxOutput) × (left ≡ out ∷ rest)
        × Remains IsSpent (i + 1) outs rest)

is_spent-In : (os : List ℤ) (out : ℤ) → is_spent os out ≡ true → In out os
unfolding is_spent
is_spent-In [] out h = cc
is_spent-In (o ∷ os) out h = elim (Bool-cases (eq_ℤ o out)) [
  | inl same ↦ inl (eq_ℤ→eq o out same)
  | inr other ↦ inr (is_spent-In os out (rw other at h))
]

In-is_spent : (os : List ℤ) (out : ℤ) → In out os → is_spent os out ≡ true
unfolding is_spent
In-is_spent [] out m = absurd m
In-is_spent (o ∷ os) out (inl e) = rw (ap (λ x. eq_ℤ x out) e ∙ eq_ℤ_refl out) refl
In-is_spent (o ∷ os) out (inr m) = ground (arith, In-is_spent os out m)

In-append : (out : ℤ) (xs ys : List ℤ) → In out (xs ++ ys) ↔ (In out xs ⊎ In out ys)
In-append out [] ys = (inr, λ h. elim h [ inl m ↦ absurd m | inr m ↦ m ])
In-append out (x ∷ xs) ys =
    let (split, join) = In-append out xs ys in
    (
      (λ h. elim h [
        | inl e ↦ inl (inl e)
        | inr m ↦ elim (split m) [ inl a ↦ inl (inr a) | inr b ↦ inr b ]
      ]),
      λ h. elim h [
        | inl m ↦ elim m [ inl e ↦ inl e | inr a ↦ inr (join (inl a)) ]
        | inr b ↦ inr (join (inr b))
      ],
    )

indices_of-Names :
    (id : Bytes) (out : ℤ) (is : List TxInput) → In out (indices_of id is) ↔ Names id out is
unfolding indices_of
indices_of-Names id out [] = (λ m. m, λ m. m)
indices_of-Names id out (i ∷ is) =
    let (to, from) = indices_of-Names id out is in
    elim (Bool-cases (bytes_equal i.id id)) [
      | inl same ↦ rw same (
        (λ m. elim m [ inl e ↦ inl (bytes_equal→eq i.id id same, e) | inr m' ↦ inr (to m') ]),
        λ m. elim m [ inl e ↦ inl e.1 | inr m' ↦ inr (from m') ],
      )
      | inr other ↦ rw other (
        (λ m. inr (to m)),
        λ m. elim m [
          | inl e ↦ absurd (false≢true (sym other ∙ (bytes_equal_iff i.id id).1 e.0))
          | inr m' ↦ from m'
        ],
      )
    ]

pub spends_of-Spent :
    (id : Bytes) (out : ℤ) (ts : List Transaction) → In out (spends_of id ts) ↔ Spent id out ts
unfolding spends_of
spends_of-Spent id out [] = (λ m. m, λ m. m)
spends_of-Spent id out (t ∷ ts) =
    let (to, from) = spends_of-Spent id out ts in
    let (names, named) = indices_of-Names id out t.inputs in
    elim (Bool-cases (is_coinbase t)) [
      | inl yes' ↦ rw yes' (
        (λ m. inr (to m)),
        λ m. elim m [ inl e ↦ absurd (false≢true (sym e.0)) | inr m' ↦ from m' ],
      )
      | inr no' ↦ rw no' (
        (λ m. elim ((In-append out (indices_of id t.inputs) (spends_of id ts)).0 m) [
          | inl a ↦ inl (refl, names a)
          | inr b ↦ inr (to b)
        ]),
        λ m.
            (In-append out (indices_of id t.inputs) (spends_of id ts)).1
              (elim m [ inl e ↦ inl (named e.1) | inr m' ↦ inr (from m') ]),
      )
    ]

pub unspent-Remains :
    (os : List ℤ) (IsSpent : ℤ → Type 0) (i : ℕ) (outs : List TxOutput)
    → ((out : ℤ) → In out os ↔ IsSpent out)
    → Remains IsSpent i outs (unspent os i outs)
unfolding unspent
unspent-Remains os IsSpent i [] iff = refl
unspent-Remains os IsSpent i (out ∷ outs) iff =
    let rest = unspent-Remains os IsSpent (i + 1) outs iff in
    elim (Bool-cases (is_spent os (pos i))) [
      | inl gone ↦ rw gone (inl ((iff (pos i)).0 (is_spent-In os (pos i) gone), rest))
      | inr live ↦ rw live (
          inr (
            (λ s. false≢true (sym live ∙ In-is_spent os (pos i) ((iff (pos i)).1 s))),
            unspent os (i + 1) outs,
            refl,
            rest,
          ))
    ]
