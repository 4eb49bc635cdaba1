-- ===== src/Tests/Store.antt =====
-- A small store for the test platform: the entries, the newest first.
use golang_blockchain.Prelude.{
  ◌≡◌, ◌≢◌, refl, sym, ap, ◌∙◌, Bool, true, false, ◌⊎◌, inl, inr, Option, none, some, List, [], ◌∷◌,
  Bytes, All, lookup, In, has_prefix, bytes_equal, bytes_equal→eq, bytes_equal_ne, bytes_equal_iff,
  Bool-cases, arith, if◌then◌else◌, some-injective, false≢true,
}
use golang_blockchain.Platform.{Badger, Once}

abbrev pub Entries : Type 0
Entries = List (Bytes × Bytes)

unfoldable pub drop_key : Bytes → Entries → Entries
drop_key k [] = []
drop_key k ((j, v) ∷ d) = let rest = drop_key k d in if bytes_equal k j then rest else (j, v) ∷ rest

-- the entries under a prefix, less those that a newer one hides
unfoldable pub scan_entries : Entries → Bytes → Entries
scan_entries [] p = []
scan_entries ((k, v) ∷ d) p =
    let rest = drop_key k (scan_entries d p) in if has_prefix p k then (k, v) ∷ rest else rest

unfoldable pub non_empty : Bytes → Bool
non_empty [] = false
non_empty (x ∷ xs) = true

pub lookup-drop_key :
    (k j : Bytes) (d : Entries)
    → lookup j (drop_key k d) ≡ (if bytes_equal k j then none else lookup j d)
unfolding lookup drop_key
lookup-drop_key k j [] = ground arith
lookup-drop_key k j ((i, v) ∷ d) =
    ground
      (arith, lookup-drop_key k j d, bytes_equal_iff k i, bytes_equal_iff i j, bytes_equal_iff k j)

key_eq : {i j w v : Bytes} → ◌≡◌ {A = Bytes × Bytes} (i, w) (j, v) → i ≡ j
key_eq e = ap (λ (t : Bytes × Bytes). t.0) e

value_eq : {i j w v : Bytes} → ◌≡◌ {A = Bytes × Bytes} (i, w) (j, v) → w ≡ v
value_eq e = ap (λ (t : Bytes × Bytes). t.1) e

entry_eq : {i j w v : Bytes} → i ≡ j → w ≡ v → ◌≡◌ {A = Bytes × Bytes} (i, w) (j, v)
entry_eq a b = λ t. (a t, b t)

not_same : {a b : Bytes} → bytes_equal a b ≡ false → a ≢ b
not_same {a} {b} h e = false≢true (sym h ∙ (bytes_equal_iff a b).1 e)

In-drop_key : (k j v : Bytes) (d : Entries) → In (j, v) (drop_key k d) → In (j, v) d × (k ≢ j)
unfolding drop_key
In-drop_key k j v [] h = absurd h
In-drop_key k j v ((i, w) ∷ d) h = elim (Bool-cases (bytes_equal k i)) [
  | inl same ↦ let (m, ne) = In-drop_key k j v d (rw same at h) in (inr m, ne)
  | inr other ↦
      let h' : (◌≡◌ {A = Bytes × Bytes} (i, w) (j, v)) ⊎ In (j, v) (drop_key k d) = rw other at h in
      elim h' [
        | inl e ↦ (inl e, λ q. not_same other (q ∙ sym (key_eq e)))
        | inr m ↦ let (m', ne) = In-drop_key k j v d m in (inr m', ne)
      ]
]

In-drop_key_ne : (k j v : Bytes) (d : Entries) → In (j, v) d → k ≢ j → In (j, v) (drop_key k d)
unfolding drop_key
In-drop_key_ne k j v [] h ne = absurd h
In-drop_key_ne k j v ((i, w) ∷ d) h ne = elim (Bool-cases (bytes_equal k i)) [
  | inl same ↦ rw same (elim h [
    | inl e ↦ absurd (ne (bytes_equal→eq k i same ∙ key_eq e))
    | inr m ↦ In-drop_key_ne k j v d m ne
  ])
  | inr other ↦ rw other (elim h [ inl e ↦ inl e | inr m ↦ inr (In-drop_key_ne k j v d m ne) ])
]

-- a newer entry under another key hides nothing
sound_tail :
    (i w p k v : Bytes) (d l : Entries)
    → (In (k, v) l → (lookup k d ≡ some v) × (has_prefix p k ≡ true))
    → In (k, v) (drop_key i l)
    → (lookup k ((i, w) ∷ d) ≡ some v) × (has_prefix p k ≡ true)
unfolding lookup
sound_tail i w p k v d l sound m =
    let (m', ne) = In-drop_key i k v l m in
    let (e, q) = sound m' in (rw (bytes_equal_ne i k ne) e, q)

pub scan_entries_sound :
    (d : Entries) (p k v : Bytes)
    → In (k, v) (scan_entries d p)
    → (lookup k d ≡ some v) × (has_prefix p k ≡ true)
unfolding scan_entries lookup
scan_entries_sound [] p k v h = absurd h
scan_entries_sound ((i, w) ∷ d) p k v h =
    let tail = sound_tail i w p k v d (scan_entries d p) (scan_entries_sound d p k v) in
    elim (Bool-cases (has_prefix p i)) [
      | inl yes' ↦
          let h' : (◌≡◌ {A = Bytes × Bytes} (i, w) (k, v))
              ⊎ In (k, v) (drop_key i (scan_entries d p)) =
            rw yes' at h in
          elim h' [
            | inl e ↦ (
              rw ((bytes_equal_iff i k).1 (key_eq e)) (ap some (value_eq e)),
              ap (has_prefix p) (sym (key_eq e)) ∙ yes',
            )
            | inr m ↦ tail m
          ]
      | inr no' ↦ tail (rw no' at h)
    ]

pub scan_entries_complete :
    (d : Entries) (p k v : Bytes)
    → lookup k d ≡ some v
    → has_prefix p k ≡ true
    → In (k, v) (scan_entries d p)
unfolding scan_entries lookup
scan_entries_complete [] p k v e q = cc
scan_entries_complete ((i, w) ∷ d) p k v e q = elim (Bool-cases (bytes_equal i k)) [
  | inl same ↦
      let s = bytes_equal→eq i k same in
      let w≡v : ◌≡◌ {A = Option Bytes} (some w) (some v) = rw same at e in
      rw (ap (has_prefix p) s ∙ q) (inl (entry_eq s (some-injective w v w≡v)))
  | inr other ↦
      let e' : lookup k d ≡ some v = rw other at e in
      let m =
        In-drop_key_ne i k v (scan_entries d p) (scan_entries_complete d p k v e' q)
          (not_same other) in
      elim (Bool-cases (has_prefix p i)) [ inl yes' ↦ rw yes' (inr m) | inr no' ↦ rw no' m ]
]

-- the entries of a scan have keys of their own
drop_key-All :
    (k j : Bytes) (d : Entries)
    → All (λ (e : Bytes × Bytes). e.0 ≢ j) d
    → All (λ (e : Bytes × Bytes). e.0 ≢ j) (drop_key k d)
unfolding drop_key
drop_key-All k j [] h = tt
drop_key-All k j ((i, w) ∷ d) (h, hs) = elim (Bool-cases (bytes_equal k i)) [
  | inl same ↦ rw same (drop_key-All k j d hs)
  | inr other ↦ rw other (h, drop_key-All k j d hs)
]

drop_key_gone : (k : Bytes) (d : Entries) → All (λ (e : Bytes × Bytes). e.0 ≢ k) (drop_key k d)
unfolding drop_key
drop_key_gone k [] = tt
drop_key_gone k ((i, w) ∷ d) = elim (Bool-cases (bytes_equal k i)) [
  | inl same ↦ rw same (drop_key_gone k d)
  | inr other ↦ rw other ((λ e. not_same other (sym e)), drop_key_gone k d)
]

drop_key-Once : (k : Bytes) (d : Entries) → Once d → Once (drop_key k d)
unfolding drop_key
drop_key-Once k [] h = tt
drop_key-Once k ((i, w) ∷ d) (h, hs) = elim (Bool-cases (bytes_equal k i)) [
  | inl same ↦ rw same (drop_key-Once k d hs)
  | inr other ↦ rw other (drop_key-All k i d h, drop_key-Once k d hs)
]

pub scan_entries-Once : (d : Entries) (p : Bytes) → Once (scan_entries d p)
unfolding scan_entries
scan_entries-Once [] p = tt
scan_entries-Once ((i, w) ∷ d) p =
    let rest = drop_key-Once i (scan_entries d p) (scan_entries-Once d p) in
    elim (Bool-cases (has_prefix p i)) [
      | inl yes' ↦ rw yes' (drop_key_gone i (scan_entries d p), rest)
      | inr no' ↦ rw no' rest
    ]

pub put_law :
    (d : Entries) (k j v : Bytes)
    → lookup j ((k, v) ∷ d) ≡ (if bytes_equal k j then some v else lookup j d)
unfolding lookup
put_law d k j v = refl

pub empty_law : (k : Bytes) → ◌≡◌ {A = Option Bytes} (lookup k []) none
unfolding lookup
empty_law k = refl

abbrev pub small_store : Badger
small_store = record {
  DB = Entries;
  empty_db = [];
  get = λ d k. lookup k d;
  put = λ d k v. (k, v) ∷ d;
  delete = λ d k. drop_key k d;
  scan = scan_entries;
  accepts = non_empty;
  get-empty_db = empty_law;
  get-put = put_law;
  get-delete = λ d k j. lookup-drop_key k j d;
  scan_sound = scan_entries_sound;
  scan_complete = scan_entries_complete;
  scan_once = scan_entries-Once;
}
