-- ===== src/Build/Credits/Reveals.antt =====
-- process/processor.go: a reveal leaves the balances, and lists nothing or itself.
use factom_code.Common.{
  ℕ, ◌≡◌, refl, ◌∙◌, ap, true, not, Option, none, some, [], ◌∷◌, ◌++◌, ltb, ◌%◌, ◌+◌,
}
use factom_code.Common.Exec.{ok, err, panic, raise, pure, continue, ◌>>◌}
use factom_code.Common.Map.{lookup, bytes_eq}
use factom_code.Hash.{Hash, double_sha}
use factom_code.Entry
use factom_code.Entry.{Entry}
use factom_code.Entry.Cost.{entry_cost}
use factom_code.Credit.CommitEntry.{CommitEntry}
use factom_code.Credit.CommitChain.{CommitChain}
use factom_code.Consensus.{ProcessListMgr, is_my_plist_exceeding_limit}
use factom_code.Consensus.Order.{IsDense, appended_lem}
use factom_code.MemPool.{add_orphan_msg}
use factom_code.Process.{
  Msg, msg_reveal_entry, Env, State, acknowledge, orphaned, orphan_msg, pool_msg, modify,
  weld_mismatch, orphan_pool_full,
}
use factom_code.Process.Reveal.{
  entry_hash, has_chain, reveal, is_reserved, use_entry_commit, use_chain_commit, add_chain,
  reveal_entry, reveal_chain, check_new_chain, reveal_by, process_reveal_entry,
}
use factom_code.Process.Branches.{if-cases, if_step-cases, orphan_if-cases, cost-cases}
use factom_code.Process.Steps.{Outcome, reject_if-cases}
use factom_code.Build.Credits.Moved.{charged, Moved, idle, took, Moves}

-- Neither the balances nor the manager changed.
abbrev Calm : State → State → Type 0
Calm s s' = (s'.e_credit_map ≡ s.e_credit_map) × (s'.pl_mgr ≡ s.pl_mgr)

calm : {rate : ℕ} {s s' : State} → Calm s s' → Moved rate s s'
calm {rate} {s} {s'} (m, p) =
    idle m (ap (λ (mgr : ProcessListMgr Msg). mgr.my_process_list.pl_items) p)

module _ (env : Env) (s : State) where
  abbrev Stays : Outcome → Type 0
  Stays r = Calm s r.1

  orphaned-Stays : (msg : Msg) (h : Hash) (s1 : State) → Calm s s1 → Stays (orphaned msg h s1)
  unfolding orphaned orphan_msg
  orphaned-Stays msg h s1 c =
      if-cases Stays (add_orphan_msg msg h s1.mem_pool).0 (ok tt, orphan_msg msg h s1)
        (err orphan_pool_full, s1) (λ b. c) (λ b. c)

  module _ (d : IsDense s.pl_mgr.my_process_list) (use_up : State → State)
      (keeps : (s' : State) → Calm s' (use_up s')) where
    acknowledged-Moves :
        (e : Entry) (kind : ℕ) (s1 : State)
        → Calm s s1
        → Moves env s (
            (acknowledge env true (msg_reveal_entry e) (entry_hash env e) kind >> modify use_up) s1)
    unfolding acknowledge charged
    acknowledged-Moves e kind s1 (m, p) =
        let msg = msg_reveal_entry e in
        let h = entry_hash env e in
        let (ack, mgr, added, items, index, height, dblock, total, next, dense) =
          appended_lem env.binary_for_signature env.sign s.pl_mgr msg (some h) kind d in
        let listed : State = record s1 {
          pl_mgr = mgr;
          out_msg_queue = s1.out_msg_queue ++ ack ∷ [];
        } in
        rw (p, added)
          (took msg ack h tt ((keeps listed).0 ∙ m)
            (ap (λ (g : ProcessListMgr Msg). g.my_process_list.pl_items) (keeps listed).1 ∙ items))

    reveal-Moves :
        (e : Entry) (kind : ℕ) (s1 : State) → Calm s s1 → Moves env s (reveal env e kind use_up s1)
    unfolding reveal pool_msg
    reveal-Moves e kind s1 c =
        let msg = msg_reveal_entry e in
        let h = entry_hash env e in
        let s2 = pool_msg msg h s1 in
        let used = keeps s2 in
        if_step-cases (Moves env s) env.is_server _ (modify use_up) s2
          (if_step-cases (Moves env s) (is_my_plist_exceeding_limit s1.pl_mgr) (orphaned msg h) _ s2
            (calm (orphaned-Stays msg h s2 c)) (acknowledged-Moves e kind s2 c))
          (calm (used.0 ∙ c.0, used.1 ∙ c.1))

  reveal_entry-Moves :
      (e : Entry) (c : CommitEntry)
      → IsDense s.pl_mgr.my_process_list
      → Moves env s (reveal_entry env e c s)
  unfolding reveal_entry orphan_msg
  reveal_entry-Moves e c d =
      let P = Moves env s in
      orphan_if-cases P env (not (has_chain env e s)) e _ _ s (λ b. idle refl refl)
        (λ b.
          cost-cases P env (entry_cost (Entry.marshal e)) _ s (λ o. idle refl refl)
            (λ n o.
              orphan_if-cases P env (ltb c.credits n) e _ _ s (λ b. idle refl refl)
                (λ b.
                  reveal-Moves d (use_entry_commit env e) (λ s'. (refl, refl)) e
                    env.ack_reveal_entry s (refl, refl))))

  check_new_chain-Stays :
      (e : Entry) (c : CommitChain) (s1 : State) → Calm s s1 → Stays (check_new_chain env e c s1)
  unfolding check_new_chain orphan_msg
  check_new_chain-Stays e c s1 f =
      cost-cases Stays env (entry_cost (Entry.marshal e)) _ s1 (λ o. f)
        (λ n o.
          orphan_if-cases Stays env (ltb c.credits ((n + 10) % 256)) e _ _ s1 (λ b. f)
            (λ b.
              reject_if-cases Stays
                (not (bytes_eq (Entry.new_chain_id env.sha_256 env.sha_512 e) e.chain_id)) _ _ s1
                (λ b. f)
                (λ b.
                  reject_if-cases Stays
                    (not (bytes_eq c.chain_id_hash (double_sha env.sha_256 e.chain_id))) _ _ s1
                    (λ b. f)
                    (λ b.
                      if_step-cases Stays
                        (not
                          (bytes_eq c.weld (double_sha env.sha_256 (c.entry_hash ++ e.chain_id))))
                        (raise weld_mismatch) (pure tt) s1 f f))))

  after_check :
      (e : Entry) (r : Outcome)
      → IsDense s.pl_mgr.my_process_list
      → Stays r
      → Moves env s (continue r (λ u. reveal env e env.ack_reveal_chain (use_chain_commit env e)))
  after_check e (ok u, s1) d c =
      reveal-Moves d (use_chain_commit env e) (λ s'. (refl, refl)) e env.ack_reveal_chain s1 c
  after_check e (err x, s1) d c = calm c
  after_check e (panic, s1) d c = calm c

  reveal_chain-Moves :
      (e : Entry) (c : CommitChain)
      → IsDense s.pl_mgr.my_process_list
      → Moves env s (reveal_chain env e c s)
  unfolding reveal_chain orphan_msg
  reveal_chain-Moves e c d =
      orphan_if-cases (Moves env s) env (has_chain env e s) e _ _ s (λ b. idle refl refl)
        (λ b.
          after_check e (check_new_chain env e c (add_chain env e s)) d
            (check_new_chain-Stays e c (add_chain env e s) (refl, refl)))

  by_commits :
      (e : Entry) (c : Option CommitEntry) (f : Option CommitChain)
      → IsDense s.pl_mgr.my_process_list
      → Moves env s (reveal_by env e c f s)
  unfolding reveal_by
  by_commits e (some c) f d = reveal_entry-Moves e c d
  by_commits e none (some f) d = reveal_chain-Moves e f d
  by_commits e none none d = idle refl refl

  pub process_reveal_entry-Moves :
      (e : Entry) → IsDense s.pl_mgr.my_process_list → Moves env s (process_reveal_entry env e s)
  unfolding process_reveal_entry
  process_reveal_entry-Moves e d =
      if-cases (Moves env s) (is_reserved env e.chain_id) _ _ (λ b. idle refl refl)
        (λ b.
          by_commits e (lookup (entry_hash env e) s.commit_entry_map)
            (lookup (entry_hash env e) s.commit_chain_map) d)
