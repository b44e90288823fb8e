-- ===== src/Process/Balances/Reveals.antt =====
-- process/processor.go: a reveal changes no balance.
use factom_code.Common.{ℕ, ◌+◌, refl, true, not, Option, none, some, ◌++◌, ◌%◌, ltb}
use factom_code.Common.Exec.{ok, err, raise, pure, continue}
use factom_code.Common.Map.{lookup, bytes_eq}
use factom_code.Hash.{Hash, double_sha}
use factom_code.Entry
use factom_code.Entry.{Entry}
use factom_code.Entry.Cost.{entry_cost}
use factom_code.Credit.CommitEntry.{CommitEntry}
use factom_code.Credit.CommitChain.{CommitChain}
use factom_code.Consensus.{
  Ack, ProcessListMgr, is_my_plist_exceeding_limit, add_my_process_list_item,
}
use factom_code.Process.{
  Msg, msg_reveal_entry, Env, State, orphan_msg, orphaned, acknowledge, acknowledged, pool_msg,
  orphan_pool_full, weld_mismatch, modify,
}
use factom_code.Process.Reveal.{
  entry_hash, has_chain, reveal, is_reserved, use_entry_commit, use_chain_commit, add_chain,
  reveal_entry, reveal_chain, check_new_chain, reveal_by, process_reveal_entry,
}
use factom_code.MemPool.{add_orphan_msg}
use factom_code.Process.Balances.{Funds, if-Funds}
use mathlib.Core.Path.{subst}
use factom_code.Common.{◌%◌, ◌++◌, ltb}
use factom_code.Process.Branches.{
  if-cases, if_step-cases, continue-cases, orphan_if-cases, cost-cases,
}
use factom_code.Process.Steps.{Outcome, IsFunded, IsFunded-same, reject_if-cases}

module _ (env : Env) where
  orphaned-IsFunded : (msg : Msg) (h : Hash) (s : State) → IsFunded s → Funds env (orphaned msg h s)
  unfolding orphaned orphan_msg
  orphaned-IsFunded msg h s f =
      if-cases (Funds env) (add_orphan_msg msg h s.mem_pool).0 (ok tt, orphan_msg msg h s)
        (err orphan_pool_full, s) (λ b. IsFunded-same refl f) (λ b. f)

  module _ (use_up : State → State)
      (keeps : (s' : State) → IsFunded s' → IsFunded (use_up s')) where
    acknowledged-IsFunded :
        (s : State) (o : Option (Ack × ProcessListMgr Msg))
        → IsFunded s
        → Funds env (continue (acknowledged true s o s) (λ u. modify use_up))
    acknowledged-IsFunded s none f = f
    acknowledged-IsFunded s (some (ack, mgr)) f = keeps _ (IsFunded-same refl f)

    reveal-IsFunded :
        (e : Entry) (kind : ℕ) (s : State) → IsFunded s → Funds env (reveal env e kind use_up s)
    unfolding reveal pool_msg acknowledge
    reveal-IsFunded e kind s f =
        let msg = msg_reveal_entry e in
        let h = entry_hash env e in
        let s1 = pool_msg msg h s in
        let f1 : IsFunded s1 = IsFunded-same refl f in
        if-Funds env env.is_server _ (modify use_up) s1
          (if-Funds env (is_my_plist_exceeding_limit s.pl_mgr) (orphaned msg h) _ s1
            (orphaned-IsFunded msg h s1 f1)
            (acknowledged-IsFunded s1
              (add_my_process_list_item env.binary_for_signature env.sign s1.pl_mgr msg (some h)
                kind)
              f1))
          (keeps s1 f1)

  reveal_entry-IsFunded :
      (e : Entry) (c : CommitEntry) (s : State) → IsFunded s → Funds env (reveal_entry env e c s)
  unfolding reveal_entry orphan_msg
  reveal_entry-IsFunded e c s f =
      orphan_if-cases (Funds env) env (not (has_chain env e s)) e _ _ s (λ b. IsFunded-same refl f)
        (λ b.
          cost-cases (Funds env) env (entry_cost (Entry.marshal e)) _ s (λ o. f)
            (λ n o.
              orphan_if-cases (Funds env) env (ltb c.credits n) e _ _ s (λ b. IsFunded-same refl f)
                (λ b.
                  reveal-IsFunded (use_entry_commit env e) (λ s' f'. IsFunded-same refl f') e
                    env.ack_reveal_entry s f)))

  check_new_chain-IsFunded :
      (e : Entry) (c : CommitChain) (s : State) → IsFunded s → Funds env (check_new_chain env e c s)
  unfolding check_new_chain orphan_msg
  check_new_chain-IsFunded e c s f =
      let P = Funds env in
      cost-cases P env (entry_cost (Entry.marshal e)) _ s (λ o. f)
        (λ n o.
          orphan_if-cases P env (ltb c.credits ((n + 10) % 256)) e _ _ s (λ b. IsFunded-same refl f)
            (λ b.
              reject_if-cases P
                (not (bytes_eq (Entry.new_chain_id env.sha_256 env.sha_512 e) e.chain_id)) _ _ s
                (λ b. f)
                (λ b.
                  reject_if-cases P
                    (not (bytes_eq c.chain_id_hash (double_sha env.sha_256 e.chain_id))) _ _ s
                    (λ b. f)
                    (λ b.
                      if_step-cases P
                        (not
                          (bytes_eq c.weld (double_sha env.sha_256 (c.entry_hash ++ e.chain_id))))
                        (raise weld_mismatch) (pure tt) s f f))))

  reveal_chain-IsFunded :
      (e : Entry) (c : CommitChain) (s : State) → IsFunded s → Funds env (reveal_chain env e c s)
  unfolding reveal_chain orphan_msg
  reveal_chain-IsFunded e c s f =
      let s1 = add_chain env e s in
      let checked = check_new_chain-IsFunded e c s1 (IsFunded-same refl f) in
      let after : (r : Outcome)
          → Funds env r
          → Funds env
              (continue r (λ u. reveal env e env.ack_reveal_chain (use_chain_commit env e))) =
        λ r h.
          continue-cases (Funds env) r (reveal env e env.ack_reveal_chain (use_chain_commit env e))
            (λ x s' q. subst (λ (r : Outcome). Funds env r) q h)
            (λ s' q. subst (λ (r : Outcome). Funds env r) q h)
            (λ s' q.
              reveal-IsFunded (use_chain_commit env e) (λ s' f'. IsFunded-same refl f') e
                env.ack_reveal_chain s' (subst (λ (r : Outcome). Funds env r) q h)) in
      orphan_if-cases (Funds env) env (has_chain env e s) e _ _ s (λ b. IsFunded-same refl f)
        (λ b. after (check_new_chain env e c s1) checked)

  by_commits :
      (e : Entry) (c : Option CommitEntry) (d : Option CommitChain) (s : State)
      → IsFunded s
      → Funds env (reveal_by env e c d s)
  unfolding reveal_by
  by_commits e (some c) d s f = reveal_entry-IsFunded e c s f
  by_commits e none (some d) s f = reveal_chain-IsFunded e d s f
  by_commits e none none s f = f

  pub process_reveal_entry-IsFunded :
      (e : Entry) (s : State) → IsFunded s → Funds env (process_reveal_entry env e s)
  unfolding process_reveal_entry reveal_by
  process_reveal_entry-IsFunded e s f =
      if-cases (Funds env) (is_reserved env e.chain_id) _ _ (λ b. f)
        (λ b.
          by_commits e (lookup (entry_hash env e) s.commit_entry_map)
            (lookup (entry_hash env e) s.commit_chain_map) s f)
