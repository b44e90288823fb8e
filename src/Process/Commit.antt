-- ===== src/Process/Commit.antt =====
-- process/processor.go: processCommitEntry and processCommitChain.
use factom_code.Common.{ℕ, List, true, not, ltb, if◌then◌else◌}
use factom_code.Common.Int.{pos, ltb_ℤ}
use factom_code.Common.Exec.{pure, gets, ◌>>=◌, ◌>>◌}
use factom_code.Common.Map.{lookup, insert}
use factom_code.Credit.CommitEntry
use factom_code.Credit.CommitEntry.{CommitEntry}
use factom_code.Credit.CommitChain
use factom_code.Credit.CommitChain.{CommitChain}
use factom_code.Process.{
  Msg, msg_commit_entry, msg_commit_chain, Env, State, Step, is_some, reject_if, modify, balance,
  deduct, list_msg, not_fresh, already_committed, exceeds_max_credits, not_enough_credits,
}

abbrev pub max_entry_credits : ℕ
max_entry_credits = 10

abbrev pub max_chain_credits : ℕ
max_chain_credits = 20

module _ (env : Env) where
  abbrev pub record_entry : CommitEntry → State → State
  record_entry c s = record s { commit_entry_map = insert c.entry_hash c s.commit_entry_map }

  abbrev pub record_chain : CommitChain → State → State
  record_chain c s = record s { commit_chain_map = insert c.entry_hash c s.commit_chain_map }

  -- The rest of a commit on a server.
  abbrev pub charge : Msg → List ℕ → ℕ → ℕ → Step
  charge msg key credits kind =
      modify (deduct key credits) >> list_msg env true msg (env.msg_sha msg) kind

  -- processCommitEntry(msg)
  unfoldable pub process_commit_entry : CommitEntry → Step
  process_commit_entry c = do
    reject_if (not (CommitEntry.in_time env.now c)) not_fresh
    found ← gets (λ s. is_some (lookup c.entry_hash s.commit_entry_map))
    reject_if found already_committed
    reject_if (ltb max_entry_credits c.credits) exceeds_max_credits
    low ← gets (λ s. ltb_ℤ (balance c.ec_pub_key s) (pos c.credits))
    reject_if low not_enough_credits
    modify (record_entry c)
    if env.is_server
        then charge (msg_commit_entry c) c.ec_pub_key c.credits env.ack_commit_entry
        else pure tt

  -- processCommitChain(msg)
  unfoldable pub process_commit_chain : CommitChain → Step
  process_commit_chain c = do
    reject_if (not (CommitChain.in_time env.now c)) not_fresh
    found ← gets (λ s. is_some (lookup c.entry_hash s.commit_chain_map))
    reject_if found already_committed
    reject_if (ltb max_chain_credits c.credits) exceeds_max_credits
    low ← gets (λ s. ltb_ℤ (balance c.ec_pub_key s) (pos c.credits))
    reject_if low not_enough_credits
    modify (record_chain c)
    if env.is_server
        then charge (msg_commit_chain c) c.ec_pub_key c.credits env.ack_commit_chain
        else pure tt
