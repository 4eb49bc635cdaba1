-- ===== src/Utxo/Clearing.antt =====
-- What `DeleteByPrefix` of blockchain/utxo.go leaves in the database.
use golang_blockchain.Prelude.{
  ℕ, ◌+◌, ◌≡◌, refl, sym, ap, ◌∙◌, Bool, true, false, inl, inr, Option, none, some, List, [], ◌∷◌,
  ◌++◌, append_assoc, append-nil, length, length-append, All, In, Bytes, keys, has_prefix,
  bytes_equal, bytes_equal_iff, bytes_equal→eq, Bool-cases, ◌==◌, ltb, ◌<◌, arith, if◌then◌else◌,
  false≢true,
}
use golang_blockchain.Platform.{Platform, txn_delete}
use golang_blockchain.Run.{ok, ◌>>=◌, >>=-assoc, Returns}
use golang_blockchain.Utxo.{delete_keys, delete_batches, delete_by_prefix, collect_size}

-- whether a key is in the list
unfoldable pub among : Bytes → List Bytes → Bool
among k [] = false
among k (j ∷ js) = if bytes_equal j k then true else among k js

among-In : (k v : Bytes) (es : List (Bytes × Bytes)) → In (k, v) es → among k (keys es) ≡ true
unfolding among keys
among-In k v [] m = absurd m
among-In k v ((j, w) ∷ es) m = elim m [
  | inl e ↦
      let same : j ≡ k = ap (λ (t : Bytes × Bytes). t.0) e in
      ground (arith, same, bytes_equal_iff j k)
  | inr m' ↦ ground (arith, among-In k v es m')
]

In-among :
    (k : Bytes) (es : List (Bytes × Bytes)) → among k (keys es) ≡ true → (v : Bytes) × In (k, v) es
unfolding among keys
In-among k [] h = absurd (false≢true h)
In-among k ((j, w) ∷ es) h = elim (Bool-cases (bytes_equal j k)) [
  | inl same ↦ (w, inl (ap (λ x. (x, w)) (bytes_equal→eq j k same)))
  | inr other ↦ let (v, m) = In-among k es (rw other at h) in (v, inr m)
]

module _ (p : Platform) where
  open p.badger use {DB, get, get-delete, scan, scan_sound, scan_complete, accepts}

  delete_keys-append :
      (ks js : List Bytes) (db : DB)
      → delete_keys p (ks ++ js) db ≡ (delete_keys p ks db >>= delete_keys p js)
  unfolding delete_keys
  delete_keys-append [] js db = refl
  delete_keys-append (k ∷ ks) js db =
      ap (λ f. txn_delete p.badger db k >>= f) (λ i d. delete_keys-append ks js d i)
      ∙ >>=-assoc (txn_delete p.badger db k) (delete_keys p ks) (delete_keys p js)

  -- The batches delete what one transaction would.
  delete_batches-delete_keys :
      (n : ℕ) (batch ks : List Bytes) (db : DB)
      → n ≡ length batch
      → delete_batches p n batch ks db ≡ delete_keys p (batch ++ ks) db
  unfolding delete_batches delete_keys
  delete_batches-delete_keys n [] [] db e = ground (arith, e)
  delete_batches-delete_keys n (b ∷ bs) [] db e =
      rw append-nil
        (ap (λ t. if t then delete_keys p (b ∷ bs) db else ok db) (filled (omega arith)))
    where
      filled : 0 < n → ltb 0 n ≡ true
      filled h = ground arith
  delete_batches-delete_keys n batch (k ∷ ks) db e = elim (Bool-cases ((n + 1) == collect_size)) [
    | inl full ↦
        rw (delete_batches, full)
          (ap (λ f. delete_keys p (batch ++ k ∷ []) db >>= f)
              (λ i d. delete_batches-delete_keys 0 [] ks d refl i)
            ∙ sym (delete_keys-append (batch ++ k ∷ []) ks db)
            ∙ ap (λ l. delete_keys p l db) (append_assoc batch (k ∷ []) ks))
    | inr room ↦
        rw (delete_batches, room)
          (delete_batches-delete_keys (n + 1) (batch ++ k ∷ []) ks db
              (omega (arith, e, length-append batch (k ∷ [])))
            ∙ ap (λ l. delete_keys p l db) (append_assoc batch (k ∷ []) ks))
  ]

  delete_keys-get :
      (ks : List Bytes) (db : DB)
      → All (λ k. accepts k ≡ true) ks
      → Returns
          (delete_keys p ks db)
          (λ after. (j : Bytes) → get after j ≡ (if among j ks then none else get db j))
  unfolding delete_keys txn_delete among
  delete_keys-get [] db h = (db, refl, λ j. refl)
  delete_keys-get (k ∷ ks) db (h, hs) =
      let (after, e, holds) = delete_keys-get ks (p.badger.delete db k) hs in
      (after, rw h e, λ j. holds j ∙ ground (arith, get-delete db k j))

  accepted_keys :
      (es : List (Bytes × Bytes)) (db : DB)
      → ((k v : Bytes) → In (k, v) es → accepts k ≡ true)
      → All (λ k. accepts k ≡ true) (keys es)
  unfolding keys
  accepted_keys [] db h = tt
  accepted_keys ((k, v) ∷ es) db h =
      (h k v (inl refl), accepted_keys es db (λ j w m. h j w (inr m)))

  unlisted_get :
      (prefix j : Bytes) (db : DB) (v : Option Bytes)
      → among j (keys (scan db prefix)) ≡ false
      → get db j ≡ v
      → v ≡ (if has_prefix prefix j then none else v)
  unlisted_get prefix j db none unlisted e = ground arith
  unlisted_get prefix j db (some v) unlisted e = elim (Bool-cases (has_prefix prefix j)) [
    | inl under ↦
        absurd (false≢true (sym unlisted ∙ among-In j v _ (scan_complete db prefix j v e under)))
    | inr other ↦ rw other refl
  ]

  -- `DeleteByPrefix` on a database whose keys Badger takes returns, and leaves a database that
  -- holds nothing under the prefix and all other keys as before, whatever the number of keys and
  -- batches.
  pub delete_by_prefix-get :
      (prefix : Bytes) (db : DB)
      → ((k v : Bytes) → get db k ≡ some v → accepts k ≡ true)
      → Returns
          (delete_by_prefix p prefix db)
          (λ after. (j : Bytes) → get after j ≡ (if has_prefix prefix j then none else get db j))
  unfolding delete_by_prefix
  delete_by_prefix-get prefix db stored =
      let es = scan db prefix in
      let (after, e, holds) =
        delete_keys-get (keys es) db
          (accepted_keys es db (λ k v m. stored k v (scan_sound db prefix k v m).0)) in
      (after, delete_batches-delete_keys 0 [] (keys es) db refl ∙ e, λ j. holds j ∙ gone j)
    where
      gone :
          (j : Bytes)
          → (if among j (keys (scan db prefix)) then none else get db j)
            ≡ (if has_prefix prefix j then none else get db j)
      gone j = elim (Bool-cases (among j (keys (scan db prefix)))) [
        | inl listed ↦
            let (v, m) = In-among j (scan db prefix) listed in
            rw (listed, (scan_sound db prefix j v m).1) refl
        | inr unlisted ↦ rw unlisted (unlisted_get prefix j db (get db j) unlisted refl)
      ]
