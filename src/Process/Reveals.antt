-- ===== src/Process/Reveals.antt =====
-- process/processor.go: what a call of processRevealEntry means for the calls after it.
use factom_code.Common.{
  ℕ, ◌+◌, ◌%◌, ◌≡◌, refl, ◌∙◌, ap, true, false, not, Option, none, some, ◌++◌, ltb,
}
use factom_code.Common.Exec.{err, raise, pure, continue}
use factom_code.Common.Map.{lookup, bytes_eq, lookup-insert_self}
use factom_code.Hash.{double_sha}
use factom_code.Entry
use factom_code.Entry.{Entry}
use factom_code.Entry.Cost.{entry_cost}
use factom_code.Credit.CommitChain.{CommitChain}
use factom_code.Consensus.{
  Ack, ProcessListMgr, is_my_plist_exceeding_limit, add_my_process_list_item,
}
use factom_code.Process.{
  Msg, msg_reveal_entry, Env, State, is_some, modify, pool_msg, orphan_msg, orphaned, acknowledge,
  acknowledged, chain_not_supported, weld_mismatch,
}
use factom_code.Process.Reveal.{
  entry_hash, has_chain, reveal, is_reserved, use_chain_commit, add_chain, reveal_chain,
  check_new_chain, reveal_by, process_reveal_entry,
}
use factom_code.Process.Branches.{
  if-cases, if_step-cases, continue-cases, orphan_if-cases, cost-cases,
}
use factom_code.Process.Steps.{Outcome, reject_if-cases}
use factom_code.MemPool.{add_orphan_msg}
use mathlib.Core.Path.{subst}

module _ (env : Env) where
  module _ (e : Entry) where
    abbrev Blocked : Outcome → Type 0
    Blocked r = has_chain env e r.1 ≡ true

    acknowledged-Blocked :
        (use_up : State → State) (s : State) (o : Option (Ack × ProcessListMgr Msg))
        → ((s' : State) → (use_up s').chain_id_map ≡ s'.chain_id_map)
        → has_chain env e s ≡ true
        → Blocked (continue (acknowledged true s o s) (λ u. modify use_up))
    acknowledged-Blocked use_up s none keeps f = f
    acknowledged-Blocked use_up s (some (ack, mgr)) keeps f = rw (keeps _) f

    reveal-Blocked :
        (e' : Entry) (kind : ℕ) (s : State)
        → has_chain env e s ≡ true
        → Blocked (reveal env e' kind (use_chain_commit env e') s)
    unfolding reveal pool_msg acknowledge orphaned orphan_msg
    reveal-Blocked e' kind s f =
        let msg = msg_reveal_entry e' in
        let h = entry_hash env e' in
        let s1 = pool_msg msg h s in
        if_step-cases Blocked env.is_server _ (modify (use_chain_commit env e')) s1
          (if_step-cases Blocked (is_my_plist_exceeding_limit s.pl_mgr) (orphaned msg h) _ s1
            (if-cases Blocked (add_orphan_msg msg h s1.mem_pool).0 _ _ (λ b. f) (λ b. f))
            (acknowledged-Blocked (use_chain_commit env e') s1
              (add_my_process_list_item env.binary_for_signature env.sign s1.pl_mgr msg (some h)
                kind)
              (λ s'. refl) f))
          f

    check_new_chain-Blocked :
        (c : CommitChain) (s : State)
        → has_chain env e s ≡ true
        → Blocked (check_new_chain env e c s)
    unfolding check_new_chain orphan_msg
    check_new_chain-Blocked c s f =
        cost-cases Blocked env (entry_cost (Entry.marshal e)) _ s (λ o. f)
          (λ n o.
            orphan_if-cases Blocked env (ltb c.credits ((n + 10) % 256)) e _ _ s (λ b. f)
              (λ b.
                reject_if-cases Blocked
                  (not (bytes_eq (Entry.new_chain_id env.sha_256 env.sha_512 e) e.chain_id)) _ _ s
                  (λ b. f)
                  (λ b.
                    reject_if-cases Blocked
                      (not (bytes_eq c.chain_id_hash (double_sha env.sha_256 e.chain_id))) _ _ s
                      (λ b. f)
                      (λ b.
                        if_step-cases Blocked
                          (not
                            (bytes_eq c.weld (double_sha env.sha_256 (c.entry_hash ++ e.chain_id))))
                          (raise weld_mismatch) (pure tt) s f f))))

    after_check :
        (r : Outcome) (kind : ℕ)
        → Blocked r
        → Blocked (continue r (λ u. reveal env e kind (use_chain_commit env e)))
    after_check r kind h =
        continue-cases Blocked r (reveal env e kind (use_chain_commit env e))
          (λ x s q. subst Blocked q h) (λ s q. subst Blocked q h)
          (λ s q. reveal-Blocked e kind s (subst Blocked q h))

    add_chain-Blocked : (s : State) → has_chain env e (add_chain env e s) ≡ true
    add_chain-Blocked s = ap is_some (
        lookup-insert_self e.chain_id (record { chain_id = e.chain_id; first_entry = e })
          s.chain_id_map)

    reveal_chain-Blocked : (c : CommitChain) (s : State) → Blocked (reveal_chain env e c s)
    unfolding reveal_chain orphan_msg
    reveal_chain-Blocked c s =
        let s1 = add_chain env e s in
        orphan_if-cases Blocked env (has_chain env e s) e _ _ s (λ b. b)
          (λ b.
            after_check (check_new_chain env e c s1) env.ack_reveal_chain
              (check_new_chain-Blocked c s1 (add_chain-Blocked s)))

  reveals_chain :
      (e : Entry) (c : CommitChain) (s : State)
      → is_reserved env e.chain_id ≡ false
      → lookup (entry_hash env e) s.commit_entry_map ≡ none
      → lookup (entry_hash env e) s.commit_chain_map ≡ some c
      → process_reveal_entry env e s ≡ reveal_chain env e c s
  unfolding process_reveal_entry reveal_by
  reveals_chain e c s free no_entry paid = rw (free, no_entry, paid)

  known_refused :
      (e : Entry) (c : CommitChain) (s : State)
      → has_chain env e s ≡ true
      → reveal_chain env e c s
        ≡ (err chain_not_supported, orphan_msg (msg_reveal_entry e) (entry_hash env e) s)
  unfolding reveal_chain
  known_refused e c s known = rw known

  -- Of an entry whose chain ID is not reserved, that is neither zero nor the ID of one of the four
  -- chains of the system: whatever processRevealEntry answers to it, where it has a commit for a
  -- chain and none for an entry, be it that the commit pays too little or that the chain's ID, its
  -- hash or the weld is wrong, the ID of the entry's chain is taken afterwards: any other such
  -- reveal for a chain of the same ID, that of the right first entry too, is an orphan with the
  -- error that the chain is not supported.
  pub reveal_chain_blocks :
      (e e' : Entry) (c c' : CommitChain) (s : State)
      → is_reserved env e.chain_id ≡ false
      → lookup (entry_hash env e) s.commit_entry_map ≡ none
      → lookup (entry_hash env e) s.commit_chain_map ≡ some c
      → e'.chain_id ≡ e.chain_id
      → lookup (entry_hash env e') (process_reveal_entry env e s).1.commit_entry_map ≡ none
      → lookup (entry_hash env e') (process_reveal_entry env e s).1.commit_chain_map ≡ some c'
      → process_reveal_entry env e' (process_reveal_entry env e s).1 ≡ (
        err chain_not_supported,
        orphan_msg (msg_reveal_entry e') (entry_hash env e') (process_reveal_entry env e s).1,
      )
  reveal_chain_blocks e e' c c' s free no_entry paid same no_entry' paid' =
      let s' = (process_reveal_entry env e s).1 in
      let taken : has_chain env e s' ≡ true =
        rw (reveals_chain e c s free no_entry paid) (reveal_chain-Blocked e c s) in
      let taken' : has_chain env e' s' ≡ true = rw same taken in
      let free' : is_reserved env e'.chain_id ≡ false = rw same free in
      reveals_chain e' c' s' free' no_entry' paid' ∙ known_refused e' c' s' taken'
