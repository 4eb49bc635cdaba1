-- ===== src/Network/Rounds.antt =====
-- `MineTx` ends, with at most one call of itself for each transaction of the memory pool.
use golang_blockchain.Prelude.{ℕ, suc, ◌+◌, ◌<◌, ◌≡◌, List, [], ◌∷◌, Bytes, Map, length}
use golang_blockchain.Types.{Transaction}
use golang_blockchain.Platform.{Platform}
use golang_blockchain.Run.{Run, ok, Fails}
use golang_blockchain.Network.State.{Gob, Env, Node}
use golang_blockchain.Network.Pool.{Keyed}
use golang_blockchain.Network.Mine.{verified, mine_round}

module _ (p : Platform) (g : Gob) (e : Env) where
  -- the list of valid transactions that a call of `MineTx` collects
  abbrev pub candidates : Node p → Run (List Transaction)
  candidates s = verified p g e s.chain (e.pool_order s.moment s.memory_pool)

  -- The call of `MineTx` on a node makes this many calls of itself, one in the other, and then
  -- ends like this.
  pub data Mines : ℕ → Node p → Run (Node p) → Type 0 where
    unverified : {s : Node p} {end : Run (Node p)} → Fails (candidates s) end → Mines 0 s end
    none_valid :
        {s : Node p} → candidates s ≡ ok [] → Mines 0 s (ok (record s { moment = s.moment + 1 }))
    round_fails :
        {s : Node p} {tx : Transaction} {more : List Transaction} {end : Run (Node p)}
        → candidates s ≡ ok (tx ∷ more)
        → Fails (mine_round p g e (tx ∷ more) s) end
        → Mines 0 s end
    pool_empty :
        {s t : Node p} {tx : Transaction} {more : List Transaction}
        → candidates s ≡ ok (tx ∷ more)
        → mine_round p g e (tx ∷ more) s ≡ ok t
        → t.memory_pool ≡ []
        → Mines 0 s (ok t)
    again :
        {s t : Node p} {tx : Transaction} {more : List Transaction} {entry : Bytes × Transaction}
        {pool : Map Transaction} {k : ℕ} {end : Run (Node p)}
        → candidates s ≡ ok (tx ∷ more)
        → mine_round p g e (tx ∷ more) s ≡ ok t
        → t.memory_pool ≡ entry ∷ pool
        → Mines k t end
        → Mines (suc k) s end

  abbrev Shorter : Node p → Node p → Type 0
  Shorter s t = Keyed t.memory_pool × (length t.memory_pool < length s.memory_pool)
