-- ===== src/MemPool/Tests.antt =====
-- A run of the pools of process/mempool.go, with messages that are numbers.
use factom_code.Common.{ℕ, arith, [], ◌∷◌, replicate}
use factom_code.MemPool.{
  MemPool, init, IsBounded, add_msg, add_orphan_msg, add_block_msg, delete_block_msg,
  operations-IsBounded,
}

abbrev pools : MemPool ℕ
pools = record init { block_pool = (replicate 32 1, 8) ∷ [] }

pools-IsBounded : IsBounded pools
pools-IsBounded = omega arith

operations-IsBounded_example :
    IsBounded (add_msg 8 (replicate 32 1) pools).1
    × IsBounded (add_orphan_msg 8 (replicate 32 1) pools).1
    × IsBounded (add_block_msg 8 (replicate 32 1) pools).1
    × IsBounded (delete_block_msg (replicate 32 1) pools)
operations-IsBounded_example = operations-IsBounded pools 8 (replicate 32 1) pools-IsBounded
