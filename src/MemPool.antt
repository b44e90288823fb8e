-- ===== src/MemPool.antt =====
-- process/mempool.go: the pools of messages, over the type of the messages. The locks are not
-- modelled: each method holds the lock from its start to its end.
mod Tests
use factom_code.Common.{
  ℕ, Bool, true, false, none, some, List, [], length, ltb, if◌then◌else◌, ◌≤◌, arith, ◌+◌,
}
use factom_code.Common.Map.{Map, lookup, insert, delete, length-insert, length-delete}
use factom_code.Hash.{Hash}

pub record MemPool (Msg : Type 0) : Type 0 where
  pub pool : Map Msg
  pub orphans : Map Msg
  pub block_pool : Map Msg

abbrev pub max_tx_pool_size : ℕ
max_tx_pool_size = 50000

abbrev pub max_orphan_size : ℕ
max_orphan_size = 5000

abbrev pub max_blk_pool_size : ℕ
max_blk_pool_size = 500000

module _ {Msg : Type 0} where
  -- mp.init_ftmMemPool()
  abbrev pub init : MemPool Msg
  init = record { pool = []; orphans = []; block_pool = [] }

  -- mp.addMsg(msg, hash): whether it was added, and the pools. The other adds are alike.
  unfoldable pub add_msg : Msg → Hash → MemPool Msg → Bool × MemPool Msg
  add_msg msg hash mp =
      if ltb max_tx_pool_size (length mp.pool)
      then (false, mp)
      else (true, record mp { pool = insert hash msg mp.pool })

  unfoldable pub add_orphan_msg : Msg → Hash → MemPool Msg → Bool × MemPool Msg
  add_orphan_msg msg hash mp =
      if ltb max_orphan_size (length mp.orphans)
      then (false, mp)
      else (true, record mp { orphans = insert hash msg mp.orphans })

  unfoldable pub add_block_msg : Msg → List ℕ → MemPool Msg → Bool × MemPool Msg
  add_block_msg msg hash mp =
      if ltb max_blk_pool_size (length mp.block_pool)
      then (false, mp)
      else (true, record mp { block_pool = insert hash msg mp.block_pool })

  -- mp.deleteBlockMsg(hash), on the one pool of the program.
  unfoldable pub delete_block_msg : List ℕ → MemPool Msg → MemPool Msg
  delete_block_msg hash mp = elim (lookup hash mp.block_pool) [
    | none ↦ mp
    | some msg ↦ record mp { block_pool = delete hash mp.block_pool }
  ]

  -- The tests come before the insert, so a pool may hold one message more than its constant says.
  pub record IsBounded (mp : MemPool Msg) : Type 0 where
    pub pool : length mp.pool ≤ max_tx_pool_size + 1
    pub orphans : length mp.orphans ≤ max_orphan_size + 1
    pub block_pool : length mp.block_pool ≤ max_blk_pool_size + 1

  -- Every operation keeps the three pools at no more than one message above their limits.
  pub operations-IsBounded :
      (mp : MemPool Msg) (msg : Msg) (hash : Hash)
      → IsBounded mp
      → IsBounded (add_msg msg hash mp).1
        × IsBounded (add_orphan_msg msg hash mp).1
        × IsBounded (add_block_msg msg hash mp).1
        × IsBounded (delete_block_msg hash mp)
  unfolding add_msg add_orphan_msg add_block_msg delete_block_msg
  operations-IsBounded mp msg hash b = ground (
    arith,
    length-insert hash msg mp.pool,
    length-insert hash msg mp.orphans,
    length-insert hash msg mp.block_pool,
    length-delete hash mp.block_pool,
  )
