-- ===== src/Build/Credits/Tests.antt =====
-- Runs of process/init.go's recount of what process/processor.go builds.
use factom_code.Common.{refl, some, [], ◌∷◌}
use factom_code.Common.Int.{wrap_32, ◌+ℤ◌}
use factom_code.Common.Map.{lookup, insert}
use factom_code.Credit.IncreaseBalance.{new_increase_balance}
use factom_code.EcBlock.{EcBlock, new_ec_block, server_index_number, balance_increase}
use factom_code.Process.{balance, set_balance}
use factom_code.Process.Commit.{process_commit_entry}
use factom_code.Process.Tests.{env, key, start as funded, commit, list-IsDense, below_limit}
use factom_code.Build.Credits.{
  build_from_items, init_balances, recount_blocks, recount_entries, recount_entry, recount_increase,
}
use factom_code.Build.Credits.Recounted.{start, commit_entry, Recounts, recounted_balances}

-- A sealed block with the five credits of the key.
abbrev sealed : EcBlock
sealed = record new_ec_block {
  entries =
      balance_increase (record new_increase_balance { ec_pub_key = some key; num_ec = 5 }) ∷ [];
}

abbrev open_block : EcBlock
open_block = record new_ec_block { entries = server_index_number (record { number = 0 }) ∷ [] }

start-Recounts : Recounts env (sealed ∷ []) open_block funded funded
unfolding build_from_items init_balances recount_blocks recount_entries recount_entry
    recount_increase set_balance balance insert lookup wrap_32 ◌+ℤ◌
start-Recounts = (open_block, funded, refl, refl, refl)

recounted_balances_example :
    Recounts env (sealed ∷ []) open_block funded (process_commit_entry env commit funded).1
recounted_balances_example =
    recounted_balances env (sealed ∷ []) open_block funded funded
      (process_commit_entry env commit funded).1
      (commit_entry commit start (list-IsDense, below_limit)) start-Recounts
