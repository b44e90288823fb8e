-- ===== src/Process/Reveal.antt =====
-- process/processor.go: processRevealEntry, for an entry of a chain that is there and for the first
-- entry of a new chain.
use factom_code.Common.{
  ℕ, ◌+◌, ◌%◌, Bool, true, ◌||◌, not, Option, none, some, ◌++◌, ltb, if◌then◌else◌,
}
use factom_code.Common.Exec.{err, Exec, pure, raise, gets, ◌>>=◌, ◌>>◌}
use factom_code.Common.Map.{bytes_eq, lookup, insert, delete}
use factom_code.Hash.{Hash, zero_hash, double_sha}
use factom_code.Entry
use factom_code.Entry.{Entry}
use factom_code.Entry.Cost.{entry_cost}
use factom_code.Consensus.{is_my_plist_exceeding_limit}
use factom_code.Credit.CommitEntry.{CommitEntry}
use factom_code.Credit.CommitChain.{CommitChain}
use factom_code.Process.{
  msg_reveal_entry, ProcessError, Env, State, Step, is_some, reject_if, modify, pool_msg,
  orphan_msg, orphaned, acknowledge, chain_not_supported, entry_too_large, not_paid,
  invalid_chain_id, chain_id_hash_mismatch, weld_mismatch, no_commit,
}

module _ (env : Env) where
  unfoldable pub entry_hash : Entry → Hash
  entry_hash e = Entry.hash env.sha_256 env.sha_512 e

  -- cred, err := util.EntryCost(bin)
  abbrev pub cost_or_error : Option ℕ → Exec ProcessError State ℕ
  cost_or_error none = raise entry_too_large
  cost_or_error (some n) = pure n

  abbrev pub cost : Entry → Exec ProcessError State ℕ
  cost e = cost_or_error (entry_cost (Entry.marshal e))

  -- The message goes to the orphans and the call fails.
  abbrev pub orphan_if : Bool → Entry → ProcessError → Step
  orphan_if test e x =
      if test then modify (orphan_msg (msg_reveal_entry e) (entry_hash e)) >> raise x else pure tt

  -- The end of both branches: the pool, the list of a server, and the commit that is used up.
  unfoldable pub reveal : Entry → ℕ → (State → State) → Step
  reveal e kind use_up = do
    modify (pool_msg (msg_reveal_entry e) (entry_hash e))
    over ← gets (λ s. is_my_plist_exceeding_limit s.pl_mgr)
    if env.is_server
        then (if over
            then orphaned (msg_reveal_entry e) (entry_hash e)
            else (acknowledge env true (msg_reveal_entry e) (entry_hash e) kind >> modify use_up))
        else modify use_up

  abbrev pub use_entry_commit : Entry → State → State
  use_entry_commit e s = record s { commit_entry_map = delete (entry_hash e) s.commit_entry_map }

  abbrev pub use_chain_commit : Entry → State → State
  use_chain_commit e s = record s { commit_chain_map = delete (entry_hash e) s.commit_chain_map }

  abbrev pub has_chain : Entry → State → Bool
  has_chain e s = is_some (lookup e.chain_id s.chain_id_map)

  -- The branch of a commit for an entry.
  unfoldable pub reveal_entry : Entry → CommitEntry → Step
  unfolding reveal
  reveal_entry e c = do
    known ← gets (has_chain e)
    orphan_if (not known) e chain_not_supported
    cred ← cost e
    orphan_if (ltb c.credits cred) e not_paid
    reveal e env.ack_reveal_entry (use_entry_commit e)

  abbrev pub add_chain : Entry → State → State
  add_chain e s = record s {
    chain_id_map =
        insert e.chain_id (record { chain_id = e.chain_id; first_entry = e }) s.chain_id_map;
  }

  -- What a new chain is checked for, after it was added to the map of the chains.
  unfoldable pub check_new_chain : Entry → CommitChain → Step
  check_new_chain e c = do
    cred ← cost e
    orphan_if (ltb c.credits ((cred + 10) % 256)) e not_paid
    reject_if (not (bytes_eq (Entry.new_chain_id env.sha_256 env.sha_512 e) e.chain_id))
        invalid_chain_id
    reject_if (not (bytes_eq c.chain_id_hash (double_sha env.sha_256 e.chain_id)))
        chain_id_hash_mismatch
    reject_if (not (bytes_eq c.weld (double_sha env.sha_256 (c.entry_hash ++ e.chain_id))))
        weld_mismatch

  -- The branch of a commit for a chain.
  unfoldable pub reveal_chain : Entry → CommitChain → Step
  unfolding reveal check_new_chain
  reveal_chain e c = do
    known ← gets (has_chain e)
    orphan_if known e chain_not_supported
    modify (add_chain e)
    check_new_chain e c
    reveal e env.ack_reveal_chain (use_chain_commit e)

  -- The chains that no entry goes to by itself.
  abbrev pub is_reserved : Hash → Bool
  is_reserved id =
      bytes_eq id zero_hash
      || bytes_eq id env.dchain_id
      || bytes_eq id env.achain_id
      || bytes_eq id env.ecchain_id
      || bytes_eq id env.fchain_id

  unfoldable pub reveal_by : Entry → Option CommitEntry → Option CommitChain → Step
  unfolding reveal_entry reveal_chain
  reveal_by e (some c) chain = reveal_entry e c
  reveal_by e none (some c) = reveal_chain e c
  reveal_by e none none = raise no_commit

  -- processRevealEntry(msg)
  unfoldable pub process_reveal_entry : Entry → Step
  unfolding reveal_by entry_hash
  process_reveal_entry e s =
      if is_reserved e.chain_id
      then (err chain_not_supported, s)
      else reveal_by e (lookup (entry_hash e) s.commit_entry_map)
          (lookup (entry_hash e) s.commit_chain_map) s
