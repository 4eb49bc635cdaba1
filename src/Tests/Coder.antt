-- ===== src/Tests/Coder.antt =====
-- A plain coder for the test platform: numbers, lists with their length in front, pairs.
use golang_blockchain.Prelude.{
  ℕ, zero, suc, ◌≡◌, refl, sym, ap, ◌∙◌, Option, none, some, List, [], ◌∷◌, ◌++◌, append_assoc,
  append-nil, Bytes, length, ℤ, pos, negsuc,
}
use golang_blockchain.Platform.{Codec}

-- reading takes what was written off the front
pub record Coder (A : Type 0) : Type 0 where
  pub write : A → Bytes
  pub read : Bytes → Option (A × Bytes)
  pub read-write : (a : A) (rest : Bytes) → read (write a ++ rest) ≡ some (a, rest)

unfoldable pub read_nat : Bytes → Option (ℕ × Bytes)
read_nat [] = none
read_nat (x ∷ xs) = some (x, xs)

unfoldable pub read_int : Bytes → Option (ℤ × Bytes)
read_int (zero ∷ n ∷ xs) = some (pos n, xs)
read_int (suc k ∷ n ∷ xs) = some (negsuc n, xs)
read_int _ = none

unfoldable pub write_int : ℤ → Bytes
write_int (pos n) = 0 ∷ n ∷ []
write_int (negsuc n) = 1 ∷ n ∷ []

pub read_int-write_int : (z : ℤ) (rest : Bytes) → read_int (write_int z ++ rest) ≡ some (z, rest)
unfolding read_int write_int
read_int-write_int (pos n) rest = refl
read_int-write_int (negsuc n) rest = refl

unfoldable pub nat_coder : Coder ℕ
unfolding read_nat
nat_coder = record { write = λ n. n ∷ []; read = read_nat; read-write = λ n rest. refl }

unfoldable pub int_coder : Coder ℤ
int_coder = record { write = write_int; read = read_int; read-write = read_int-write_int }

module _ {A B : Type 0} (a : Coder A) (b : Coder B) where
  unfoldable pub pair_read : Option (A × Bytes) → Option ((A × B) × Bytes)
  pair_read none = none
  pair_read (some (x, rest)) = elim (b.read rest) [
    | none ↦ none
    | some (y, rest') ↦ some ((x, y), rest')
  ]

  pub pair_law :
      (q : A × B) (rest : Bytes)
      → pair_read (a.read ((a.write q.0 ++ b.write q.1) ++ rest)) ≡ some (q, rest)
  unfolding pair_read
  pair_law q rest =
      rw (append_assoc (a.write q.0) (b.write q.1) rest, a.read-write)
        (ap
          (λ (o : Option (B × Bytes)). elim o [
            | none ↦ none
            | some (y, rest') ↦ some ((q.0, y), rest')
          ])
          (b.read-write q.1 rest))

  unfoldable pub pair_coder : Coder (A × B)
  pair_coder = record {
    write = λ q. a.write q.0 ++ b.write q.1;
    read = λ m. pair_read (a.read m);
    read-write = pair_law;
  }

module _ {A : Type 0} (a : Coder A) where
  unfoldable pub write_items : List A → Bytes
  write_items [] = []
  write_items (x ∷ xs) = a.write x ++ write_items xs

  unfoldable pub read_items : ℕ → Bytes → Option (List A × Bytes)
  read_items zero m = some ([], m)
  read_items (suc n) m = elim (a.read m) [
    | none ↦ none
    | some (x, rest) ↦ elim (read_items n rest) [
      | none ↦ none
      | some (xs, rest') ↦ some (x ∷ xs, rest')
    ]
  ]

  pub read_items-write_items :
      (xs : List A) (rest : Bytes)
      → read_items (length xs) (write_items xs ++ rest) ≡ some (xs, rest)
  unfolding read_items write_items
  read_items-write_items [] rest = refl
  read_items-write_items (x ∷ xs) rest =
      rw (append_assoc (a.write x) (write_items xs) rest, a.read-write)
        (rw (read_items-write_items xs rest))

  unfoldable pub read_list : Bytes → Option (List A × Bytes)
  read_list [] = none
  read_list (n ∷ m) = read_items n m

  unfoldable pub list_coder : Coder (List A)
  unfolding read_list
  list_coder = record {
    write = λ xs. length xs ∷ write_items xs;
    read = read_list;
    read-write = read_items-write_items;
  }

module _ {A B : Type 0} (a : Coder A) (to : A → B) (from : B → A)
    (to-from : (b : B) → to (from b) ≡ b) where
  unfoldable pub map_read : Option (A × Bytes) → Option (B × Bytes)
  map_read none = none
  map_read (some (x, rest)) = some (to x, rest)

  pub iso_law :
      (b : B) (rest : Bytes) → map_read (a.read (a.write (from b) ++ rest)) ≡ some (b, rest)
  unfolding map_read
  iso_law b rest = rw a.read-write (rw to-from)

  unfoldable pub iso_coder : Coder B
  iso_coder = record {
    write = λ b. a.write (from b);
    read = λ m. map_read (a.read m);
    read-write = iso_law;
  }

module _ {A : Type 0} (a : Coder A) where
  unfoldable pub whole : Option (A × Bytes) → Option A
  whole none = none
  whole (some (x, [])) = some x
  whole (some (x, y ∷ ys)) = none

  pub whole_law : (x : A) → whole (a.read (a.write x)) ≡ some x
  unfolding whole
  whole_law x =
      let e : a.read (a.write x) ≡ some (x, []) =
        ap a.read (sym (append-nil (a.write x))) ∙ a.read-write x [] in
      rw e

  unfoldable pub codec_of : Codec A
  codec_of = record { encode = a.write; decode = λ m. whole (a.read m); decode-encode = whole_law }
