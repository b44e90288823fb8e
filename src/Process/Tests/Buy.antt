-- ===== src/Process/Tests/Buy.antt =====
-- A run of processBuyEntryCredit of process/processor.go.
use factom_code.Common.{◌^◌, ◌<◌, ◌≡◌, refl, arith, [], ◌∷◌, ◌++◌, replicate, copy}
use factom_code.Common.Int.{pos}
use factom_code.Common.Exec.{ok}
use factom_code.Common.Map.{lookup, bytes_eq}
use factom_code.Process.{State, balance}
use factom_code.Process.Steps.{item_of}
use factom_code.Process.Buy.{process_buy_entry_credit}
use factom_code.Process.Bought.{earned, process_buy_entry_credit_lem}
use factom_code.Process.{Transaction, msg_factoid_tx}
use factom_code.Consensus.{Ack}
use factom_code.Common.{copy, ◌+◌, ◌<◌}
use factom_code.Process.Tests.{env, key, start, list-IsDense, below_limit}

abbrev bought : Transaction
bought = record { ec_outputs = (key, 2500) ∷ (replicate 32 9, 9000) ∷ []; hash = replicate 32 3 }

five_credits : balance key start ≡ pos 5
unfolding balance lookup bytes_eq
five_credits = refl

below_2_31 : 5 + earned 1000 key bought.ec_outputs < 2 ^ 31
unfolding earned bytes_eq copy
below_2_31 = omega arith

process_buy_entry_credit_lem_example :
    (s' : State) × (ack : Ack) × (process_buy_entry_credit env bought start ≡ (ok tt, s'))
    × (balance key s' ≡ pos (5 + earned 1000 key bought.ec_outputs))
    × (s'.pl_mgr.my_process_list.pl_items
        ≡ [] ++ item_of ack (msg_factoid_tx bought) (replicate 32 2) ∷ [])
    × (s'.out_msg_queue ≡ [])
process_buy_entry_credit_lem_example =
    process_buy_entry_credit_lem env bought start key 5 (omega arith) list-IsDense below_limit
      five_credits below_2_31
