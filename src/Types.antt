-- ===== src/Types.antt =====
-- The program's data: blockchain/tx.go, blockchain/transaction.go, blockchain/block.go and
-- wallet/wallet.go. A `[]byte` is a list of bytes. Decoding by gob leaves an empty slice nil, so
-- the model has one empty list, and the code's test `ID == nil` is `is_nil`.
use golang_blockchain.Prelude.{List, [], ◌∷◌, Bool, true, false, Bytes, ℤ}

pub record TxOutput : Type 0 where
  pub value : ℤ
  pub pub_key_hash : Bytes

pub record TxOutputs : Type 0 where
  pub outputs : List TxOutput

pub record TxInput : Type 0 where
  pub id : Bytes
  pub out : ℤ
  pub signature : Bytes
  pub pub_key : Bytes

pub record Transaction : Type 0 where
  pub id : Bytes
  pub inputs : List TxInput
  pub outputs : List TxOutput

pub record Block : Type 0 where
  pub timestamp : ℤ
  pub hash : Bytes
  pub transactions : List Transaction
  pub prev_hash : Bytes
  pub nonce : ℤ
  pub height : ℤ

pub record Wallet : Type 0 where
  pub private_key : Bytes
  pub public_key : Bytes

-- `len(b) == 0`, and `b == nil` for a decoded slice
abbrev pub is_nil : Bytes → Bool
is_nil [] = true
is_nil (x ∷ xs) = false

-- `Transaction{}`
abbrev pub no_transaction : Transaction
no_transaction = record { id = []; inputs = []; outputs = [] }
