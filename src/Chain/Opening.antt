-- ===== src/Chain/Opening.antt =====
-- `openDB` and `retry` of blockchain/blockchain.go, and `ContinueBlockChain` with them: a database
-- whose lock file a crash has left is opened again.
use golang_blockchain.Prelude.{
  Bool, true, false, ◌||◌, ◌⊎◌, inl, inr, Option, none, some, [], ◌∷◌, ◌++◌, Bytes, has_prefix,
  codes,
}
use golang_blockchain.Platform.{Platform}
use golang_blockchain.Run.{Run, panic, open_failed}
use golang_blockchain.Chain.{BlockChain, continue_block_chain}

-- `strings.Contains`
unfoldable pub contains : Bytes → Bytes → Bool
unfolding has_prefix
contains [] sub = has_prefix sub []
contains (c ∷ s) sub = has_prefix sub (c ∷ s) || contains s sub

module _ (p : Platform) where
  open p.badger use {DB}

  -- What the disk decides: whether there is a MANIFEST file, what `badger.Open` gives (an error by
  -- its text, or the database), the error of removing the lock file if there is one, and what
  -- `badger.Open` gives after that.
  pub record Directory : Type 0 where
    pub has_manifest : Bool
    pub opened : Bytes ⊎ DB
    pub not_removed : Option Bytes
    pub reopened : Bytes ⊎ DB

  -- `DBexists`
  unfoldable pub db_exists : Directory → Bool
  db_exists dir = dir.has_manifest

  -- `retry`
  unfoldable pub retry : Directory → Bytes ⊎ DB
  retry dir = elim dir.not_removed [
    | some err ↦ inl (codes "removing \"LOCK\": " ++ err)
    | none ↦ dir.reopened
  ]

  -- `openDB`; where the retry fails it returns the error of the first attempt
  unfoldable pub open_db : Directory → Bytes ⊎ DB
  unfolding contains retry
  open_db dir = elim dir.opened [
    | inr db ↦ inr db
    | inl err ↦ elim (contains err (codes "LOCK")) [
      | true ↦ elim (retry dir) [ inr db ↦ inr db | inl again ↦ inl err ]
      | false ↦ inl err
    ]
  ]

  -- `ContinueBlockChain`, with `Handle(err)` behind `openDB`
  unfoldable pub continue_in : Directory → Run (BlockChain p)
  unfolding db_exists open_db
  continue_in dir = elim (db_exists dir) [
    | false ↦ continue_block_chain p none
    | true ↦ elim (open_db dir) [
      | inl err ↦ panic open_failed
      | inr db ↦ continue_block_chain p (some db)
    ]
  ]
