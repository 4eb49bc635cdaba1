-- ===== src/Run.antt =====
-- How a call of the program ends: with a value, in a panic (`log.Panic`, a failed `Handle(err)`,
-- or Go's own run-time checks), or by `runtime.Goexit`. `spins` marks a loop that has not ended
-- within its fuel.
use golang_blockchain.Prelude.{
  ◌≡◌, refl, subst, ap, ◌⊎◌, inl, inr, if◌then◌else◌, Bool, true, false, Option, none, some,
}

pub data Fault : Type 0 where
  -- `Handle(err)`: a key that the database does not hold, or does not take
  key_not_found bad_key : Fault
  -- gob, hex and Base58 decoding
  decode_failed : Fault
  -- Go's checks of an index, of slice bounds, and of a nil pointer
  index_out_of_range nil_pointer : Fault
  -- the program's own messages
  not_enough_funds previous_transaction_not_correct transaction_does_not_exist : Fault
  invalid_address invalid_miner_address no_wallet_file : Fault
  -- an error of `ecdsa.Sign`
  sign_failed : Fault
  -- an error of a connection: while listening, sending, or reading
  listen_failed send_failed receive_failed : Fault
  -- an error of `openDB`
  open_failed : Fault

pub data Run {ℓ} (A : Type ℓ) : Type ℓ where
  ok : A → Run A
  panic : Fault → Run A
  goexit : Run A
  spins : Run A

infixl 5 ◌>>=◌ ◌>>◌
abbrev pub ◌>>=◌ {ℓ κ} : {In : Type ℓ} {Out : Type κ} → Run In → (In → Run Out) → Run Out
ok value >>= next = next value
panic fault >>= next = panic fault
goexit >>= next = goexit
spins >>= next = spins

abbrev pub ◌>>◌ {ℓ} : {B : Type ℓ} → Run (Unit {0}) → Run B → Run B
m >> k = m >>= λ _. k

-- `Handle(err)`, or another panic on an error
abbrev pub or_panic {ℓ} : {A : Type ℓ} → Fault → Option A → Run A
or_panic e none = panic e
or_panic e (some a) = ok a

abbrev pub panic_unless : Bool → Fault → Run (Unit {0})
panic_unless true e = ok tt
panic_unless false e = panic e

-- The call returns, with a value that satisfies `P`.
abbrev pub Returns {ℓ κ} : {Out : Type ℓ} (call : Run Out) (Post : Out → Type κ) → Type (ℓ ⊔ κ)
Returns {Out} call Post = (out : Out) × (call ≡ ok out) × Post out

-- Two steps after a call are one.
pub >>=-assoc {ℓ} :
    {In : Type ℓ} {Mid : Type ℓ} {Out : Type ℓ} (call : Run In) (f : In → Run Mid)
    (g : Mid → Run Out)
    → (call >>= λ x. f x >>= g) ≡ (call >>= f >>= g)
>>=-assoc (ok x) f g = refl
>>=-assoc (panic fault) f g = refl
>>=-assoc goexit f g = refl
>>=-assoc spins f g = refl

-- A composed call that returns comes from a first call that returns.
pub returns_through {ℓ} :
    {In : Type ℓ} {Out : Type ℓ} (call : Run In) (next : In → Run Out) (out : Out)
    → (call >>= next) ≡ ok out
    → Returns call (λ value. next value ≡ ok out)
returns_through (ok value) next out e = (value, refl, e)
returns_through (panic fault) next out e = cc
returns_through goexit next out e = cc
returns_through spins next out e = cc

pub ok_injective {ℓ} : {Out : Type ℓ} {x y : Out} → ◌≡◌ {A = Run Out} (ok x) (ok y) → x ≡ y
ok_injective e = cc

pub or_panic-ok : {A : Type 0} (f : Fault) (o : Option A) (a : A) → or_panic f o ≡ ok a → o ≡ some a
or_panic-ok f none a e = cc
or_panic-ok f (some b) a e = ap some (ok_injective e)

pub bind-ok :
    {A : Type 0} {B : Type 0} (call : Run A) (f : A → Run B) (x : A)
    → call ≡ ok x
    → (call >>= f) ≡ f x
bind-ok call f x e = ap (λ c. c >>= f) e

-- `Post` holds of what a call returns, if it returns.
abbrev pub Ensures {ℓ κ} : {Out : Type ℓ} (Post : Out → Type κ) (call : Run Out) → Type (ℓ ⊔ κ)
Ensures {Out} Post call = (out : Out) → call ≡ ok out → Post out

pub Ensures-ok {ℓ κ} : {Out : Type ℓ} (Post : Out → Type κ) (x : Out) → Post x → Ensures Post (ok x)
Ensures-ok Post x h out e = subst Post (ok_injective e) h

pub Ensures->>= {ℓ κ} :
    {In : Type ℓ} {Out : Type ℓ} (Mid : In → Type κ) (Post : Out → Type κ) (call : Run In)
    (next : In → Run Out)
    → Ensures Mid call
    → ((value : In) → Mid value → Ensures Post (next value))
    → Ensures Post (call >>= next)
Ensures->>= Mid Post call next before after out e =
    let (value, returned, e') = returns_through call next out e in
    after value (before value returned) out e'

-- The same where nothing is known of the first value.
pub Ensures-after {ℓ κ} :
    {In : Type ℓ} {Out : Type ℓ} (Post : Out → Type κ) (call : Run In) (next : In → Run Out)
    → ((value : In) → Ensures Post (next value))
    → Ensures Post (call >>= next)
Ensures-after Post call next after out e =
    let (value, _, e') = returns_through call next out e in after value out e'

-- Neither branch of a test escapes.
pub Ensures-if {ℓ κ} :
    {Out : Type ℓ} (Post : Out → Type κ) (b : Bool) (x y : Run Out)
    → Ensures Post x
    → Ensures Post y
    → Ensures Post (if b then x else y)
Ensures-if Post true x y hx hy = hx
Ensures-if Post false x y hx hy = hy

-- A call returns a value, or it does not.
pub Run-cases {ℓ} :
    {Out : Type ℓ} (call : Run Out)
    → ((out : Out) × (call ≡ ok out)) ⊎ ((out : Out) → ¬ (call ≡ ok out))
Run-cases (ok out) = inl (out, refl)
Run-cases (panic fault) = inr (λ out e. cc)
Run-cases goexit = inr (λ out e. cc)
Run-cases spins = inr (λ out e. cc)

-- the call returns nothing, and `end` ends as it does
abbrev pub Fails : {In : Type 0} {Out : Type 0} (call : Run In) (end : Run Out) → Type 0
Fails (ok value) end = ⊥
Fails (panic fault) end = end ≡ panic fault
Fails goexit end = end ≡ goexit
Fails spins end = end ≡ spins

pub Fails->>= :
    {In : Type 0} {Out : Type 0} (call : Run In) (next : In → Run Out)
    → ((value : In) → ¬ (call ≡ ok value))
    → Fails call (call >>= next)
Fails->>= (ok value) next bad = absurd (bad value refl)
Fails->>= (panic fault) next bad = refl
Fails->>= goexit next bad = refl
Fails->>= spins next bad = refl

-- Two continuations that agree on what a call returns.
pub >>=-agree {ℓ} :
    {In : Type ℓ} {Out : Type ℓ} (call : Run In) (f g : In → Run Out)
    → ((value : In) → call ≡ ok value → f value ≡ g value)
    → (call >>= f) ≡ (call >>= g)
>>=-agree (ok value) f g h = h value refl
>>=-agree (panic fault) f g h = refl
>>=-agree goexit f g h = refl
>>=-agree spins f g h = refl
