-- ===== src/Build/Credits.antt =====
-- process/processor.go, the Entry Credit block that buildFromProcessList fills, and process/init.go,
-- the balances that initECChain recounts from the Entry Credit blocks. The credits that
-- initializeECreditMap also takes from the factoid state, which is not in the repository, are left out.
pub mod Moved
pub mod Reveals
pub mod Recount
pub mod Recounted
mod Tests
use factom_code.Common.{ℕ, suc, ◌^◌, Option, none, some, List, [], ◌∷◌, ◌++◌}
use factom_code.Common.Int.{ℤ, pos, ◌+ℤ◌, wrap_32, low_word}
use factom_code.Common.Exec.{and_then, Result, ok, err, panic, pure, panics, ◌>>=◌, ◌>>◌}
use factom_code.Hash.{zero_hash, set_bytes_or_keep}
use factom_code.Credit.IncreaseBalance.{IncreaseBalance, new_increase_balance}
use factom_code.Credit.CommitEntry.{CommitEntry}
use factom_code.Credit.CommitChain.{CommitChain}
use factom_code.EcBlock.{
  EcBlockEntry, server_index_number, minute_number, chain_commit, entry_commit, balance_increase,
  EcBlock, add_entry,
}
use factom_code.Consensus.{ProcessListItem}
use factom_code.Process.{
  Msg, msg_commit_entry, msg_commit_chain, msg_reveal_entry, msg_factoid_tx, Transaction,
  ProcessError, State, Step, modify, balance, set_balance, deduct,
}
use factom_code.Process.Buy.{key_of, credits_of}

-- The entry of one round of the loop of buildIncreaseBalance: uint64(cred) of a negative int32 extends
-- its sign.
abbrev pub increase_of : List ℕ → ℕ → List ℕ → ℤ → IncreaseBalance
increase_of tx_hash i address cred = record new_increase_balance {
  ec_pub_key = some (key_of address);
  tx_id = some (set_bytes_or_keep zero_hash tx_hash);
  index = i;
  num_ec = low_word (2 ^ 64) cred;
}

-- buildCommitEntry(msg) and buildCommitChain(msg)
abbrev pub build_commit_entry : CommitEntry → EcBlock → EcBlock
build_commit_entry c e = add_entry e (entry_commit c)

abbrev pub build_commit_chain : CommitChain → EcBlock → EcBlock
build_commit_chain c e = add_entry e (chain_commit c)

module _ {E : Type 0} (rate : ℕ) where
  -- The loop, from the output i. A rate of 0 panics.
  unfoldable pub build_increases : List ℕ → ℕ → List (List ℕ × ℕ) → EcBlock → Result E EcBlock
  build_increases tx_hash i [] e = ok e
  build_increases tx_hash i ((address, amount) ∷ outputs) e =
      and_then (credits_of rate amount) λ cred.
        build_increases tx_hash (suc i) outputs
          (add_entry e (balance_increase (increase_of tx_hash i address cred)))

  -- buildIncreaseBalance(msg), for the transaction of the message.
  abbrev pub build_increase_balance : Transaction → EcBlock → Result E EcBlock
  build_increase_balance t e = build_increases t.hash 0 t.ec_outputs e

  -- What one item of the list adds to the open Entry Credit block. The handlers list a message with
  -- the kind of acknowledgement that stands for its type: a reveal adds nothing here.
  unfoldable pub build_item : Msg → EcBlock → Result E EcBlock
  build_item (msg_commit_chain c) e = ok (build_commit_chain c e)
  build_item (msg_factoid_tx t) e = build_increase_balance t e
  build_item (msg_commit_entry c) e = ok (build_commit_entry c e)
  build_item (msg_reveal_entry r) e = ok e

  -- The loop of buildFromProcessList(pl), for ecchain.NextBlock, over the messages of clients: the end
  -- of a minute, which the timer lists, adds a marker that is not recounted (Build/Items has all kinds
  -- of items). A nil item panics.
  unfoldable pub build_from_items : List (Option (ProcessListItem Msg)) → EcBlock → Result E EcBlock
  build_from_items [] e = ok e
  build_from_items (none ∷ items) e = panic
  build_from_items (some pli ∷ items) e = and_then (build_item pli.msg e) (build_from_items items)

-- eCreditMap[string(e.ECPubKey[:])] += int32(e.NumEC): a nil key panics.
unfoldable pub recount_increase : Option (List ℕ) → ℕ → Step
recount_increase none num_ec = panics
recount_increase (some key) num_ec =
    modify (λ s. set_balance key (wrap_32 (balance key s +ℤ wrap_32 (pos num_ec))) s)

-- One round of the loop of initializeECreditMap.
unfoldable pub recount_entry : EcBlockEntry → Step
recount_entry (chain_commit c) = modify (deduct c.ec_pub_key c.credits)
recount_entry (entry_commit c) = modify (deduct c.ec_pub_key c.credits)
recount_entry (balance_increase b) = recount_increase b.ec_pub_key b.num_ec
recount_entry (server_index_number n) = pure tt
recount_entry (minute_number n) = pure tt

unfoldable pub recount_entries : List EcBlockEntry → Step
recount_entries [] = pure tt
recount_entries (entry ∷ entries) = recount_entry entry >> recount_entries entries

-- initializeECreditMap(block)
abbrev pub initialize_e_credit_map : EcBlock → Step
initialize_e_credit_map block = recount_entries block.entries

-- The loop of initECChain over the sorted blocks, from the empty map.
unfoldable pub recount_blocks : List EcBlock → Step
recount_blocks [] = pure tt
recount_blocks (block ∷ blocks) = initialize_e_credit_map block >> recount_blocks blocks

unfoldable pub init_balances : List EcBlock → Step
unfolding recount_blocks
init_balances blocks = modify (λ s. record s { e_credit_map = [] }) >> recount_blocks blocks
