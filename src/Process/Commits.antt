-- ===== src/Process/Commits.antt =====
-- process/processor.go: what processCommitEntry and processCommitChain do on a server.
use factom_code.Common.{
  ◌≤◌, ◌≡◌, ◌⊎◌, inl, inr, refl, ◌∙◌, arith, Bool, true, false, not, Option, none, some, ltb,
  ltb→lt, ltb→ge,
}
use factom_code.Common.Int.{pos, ltb_ℤ, ◌≤ℤ◌}
use factom_code.Common.Exec.{ok, err, pure}
use factom_code.Common.Map.{lookup, lookup-insert_self}
use factom_code.Credit.CommitEntry
use factom_code.Credit.CommitEntry.{CommitEntry}
use factom_code.Credit.CommitChain
use factom_code.Credit.CommitChain.{CommitChain}
use factom_code.Consensus.{is_my_plist_exceeding_limit}
use factom_code.Consensus.Order.{IsDense}
use factom_code.Process.{
  msg_commit_entry, msg_commit_chain, ProcessError, Env, State, is_some, balance,
}
use factom_code.Process.Commit.{
  charge, record_entry, record_chain, max_entry_credits, max_chain_credits, process_commit_entry,
  process_commit_chain,
}
use factom_code.Process.Steps.{
  Outcome, IsFunded, Charged, if-true, IsFunded-same, balance_lem, charge_lem, reject_if-cases,
}

is_some-none : {A : Type 0} (o : Option A) → o ≡ none → is_some o ≡ true → ⊥
is_some-none none h k = cc
is_some-none (some a) h k = cc

not_some : {A : Type 0} (o : Option A) → is_some o ≡ false → o ≡ none
not_some none h = refl
not_some (some a) h = cc

not-true : (b : Bool) → b ≡ true → not b ≡ true → ⊥
not-true true h k = cc
not-true false h k = cc

of_not : (b : Bool) → not b ≡ false → b ≡ true
of_not true h = refl
of_not false h = cc

module _ (env : Env) where
  -- When processCommitEntry takes a commit.
  pub record IsEntryPayable (c : CommitEntry) (s : State) : Type 0 where
    pub fresh : CommitEntry.in_time env.now c ≡ true
    pub new : lookup c.entry_hash s.commit_entry_map ≡ none
    pub within : c.credits ≤ max_entry_credits
    pub funds : pos c.credits ≤ℤ balance c.ec_pub_key s

  -- The commit is refused and changes nothing, or it is recorded, paid and listed.
  abbrev pub EntryCommitted : CommitEntry → State → Outcome → Type 0
  EntryCommitted c s r =
      ((x : ProcessError) × ¬ (IsEntryPayable c s) × (r ≡ (err x, s)))
      ⊎ ((s' : State) × IsEntryPayable c s
          × (r ≡ (ok tt, s'))
          × (lookup c.entry_hash s'.commit_entry_map ≡ some c)
          × Charged c.ec_pub_key c.credits (msg_commit_entry c) (env.msg_sha (msg_commit_entry c))
              (record_entry env c s) s')

  -- On a server whose own list is dense and below its limit, and whose balances are counts,
  -- process_commit_entry does one of two things. If it is fresh, its entry hash has no commit,
  -- its credits are within the limit and the balance of its key covers them, the commit is recorded,
  -- the balance of that key goes down by exactly the credits and no other balance changes, the message
  -- is the next of the list and its acknowledgement is sent. Otherwise the call is an error and
  -- changes nothing.
  pub process_commit_entry_lem :
      (c : CommitEntry) (s : State)
      → env.is_server ≡ true
      → IsDense s.pl_mgr.my_process_list
      → is_my_plist_exceeding_limit s.pl_mgr ≡ false
      → IsFunded s
      → EntryCommitted c s (process_commit_entry env c s)
  unfolding process_commit_entry
  process_commit_entry_lem c s server d below funded =
      let P = EntryCommitted c s in
      reject_if-cases P (not (CommitEntry.in_time env.now c)) _ _ s
        (λ b. inl (_, (λ (p : IsEntryPayable c s). not-true _ p.fresh b), refl))
        (λ fresh.
          reject_if-cases P (is_some (lookup c.entry_hash s.commit_entry_map)) _ _ s
            (λ b. inl (_, (λ (p : IsEntryPayable c s). is_some-none _ p.new b), refl))
            (λ new.
              reject_if-cases P (ltb max_entry_credits c.credits) _ _ s
                (λ b.
                  inl
                    (_, (λ (p : IsEntryPayable c s). omega (arith, p.within, ltb→lt _ _ b)), refl))
                (λ within.
                  reject_if-cases P (ltb_ℤ (balance c.ec_pub_key s) (pos c.credits)) _ _ s
                    (λ b.
                      inl (
                        _,
                        (λ (p : IsEntryPayable c s). omega (arith, p.funds, ltb→lt _ _ b)),
                        refl,
                      ))
                    (λ funds.
                      let s1 = record_entry env c s in
                      let same = balance_lem s s1 c.ec_pub_key refl in
                      let enough : pos c.credits ≤ℤ balance c.ec_pub_key s = ltb→ge _ _ funds in
                      let (s', e, charged) =
                        charge_lem env s1 (msg_commit_entry c) c.ec_pub_key c.credits
                          env.ack_commit_entry d below (IsFunded-same refl funded)
                          (rw same enough) in
                      inr (
                        s',
                        record {
                          fresh = of_not _ fresh;
                          new = not_some _ new;
                          within = ltb→ge _ _ within;
                          funds = enough;
                        },
                        if-true env.is_server
                              (charge env (msg_commit_entry c) c.ec_pub_key c.credits
                                env.ack_commit_entry)
                              (pure tt) s1 server
                            ∙ e,
                        rw charged.entries (lookup-insert_self c.entry_hash c s.commit_entry_map),
                        charged,
                      )))))

  -- When processCommitChain takes a commit.
  pub record IsChainPayable (c : CommitChain) (s : State) : Type 0 where
    pub fresh : CommitChain.in_time env.now c ≡ true
    pub new : lookup c.entry_hash s.commit_chain_map ≡ none
    pub within : c.credits ≤ max_chain_credits
    pub funds : pos c.credits ≤ℤ balance c.ec_pub_key s

  -- The commit is refused and changes nothing, or it is recorded, paid and listed.
  abbrev pub ChainCommitted : CommitChain → State → Outcome → Type 0
  ChainCommitted c s r =
      ((x : ProcessError) × ¬ (IsChainPayable c s) × (r ≡ (err x, s)))
      ⊎ ((s' : State) × IsChainPayable c s
          × (r ≡ (ok tt, s'))
          × (lookup c.entry_hash s'.commit_chain_map ≡ some c)
          × Charged c.ec_pub_key c.credits (msg_commit_chain c) (env.msg_sha (msg_commit_chain c))
              (record_chain env c s) s')

  -- On a server whose own list is dense and below its limit, and whose balances are counts,
  -- process_commit_chain does one of two things. If it is fresh, its entry hash has no commit,
  -- its credits are within the limit and the balance of its key covers them, the commit is recorded,
  -- the balance of that key goes down by exactly the credits and no other balance changes, the message
  -- is the next of the list and its acknowledgement is sent. Otherwise the call is an error and
  -- changes nothing.
  pub process_commit_chain_lem :
      (c : CommitChain) (s : State)
      → env.is_server ≡ true
      → IsDense s.pl_mgr.my_process_list
      → is_my_plist_exceeding_limit s.pl_mgr ≡ false
      → IsFunded s
      → ChainCommitted c s (process_commit_chain env c s)
  unfolding process_commit_chain
  process_commit_chain_lem c s server d below funded =
      let P = ChainCommitted c s in
      reject_if-cases P (not (CommitChain.in_time env.now c)) _ _ s
        (λ b. inl (_, (λ (p : IsChainPayable c s). not-true _ p.fresh b), refl))
        (λ fresh.
          reject_if-cases P (is_some (lookup c.entry_hash s.commit_chain_map)) _ _ s
            (λ b. inl (_, (λ (p : IsChainPayable c s). is_some-none _ p.new b), refl))
            (λ new.
              reject_if-cases P (ltb max_chain_credits c.credits) _ _ s
                (λ b.
                  inl
                    (_, (λ (p : IsChainPayable c s). omega (arith, p.within, ltb→lt _ _ b)), refl))
                (λ within.
                  reject_if-cases P (ltb_ℤ (balance c.ec_pub_key s) (pos c.credits)) _ _ s
                    (λ b.
                      inl (
                        _,
                        (λ (p : IsChainPayable c s). omega (arith, p.funds, ltb→lt _ _ b)),
                        refl,
                      ))
                    (λ funds.
                      let s1 = record_chain env c s in
                      let same = balance_lem s s1 c.ec_pub_key refl in
                      let enough : pos c.credits ≤ℤ balance c.ec_pub_key s = ltb→ge _ _ funds in
                      let (s', e, charged) =
                        charge_lem env s1 (msg_commit_chain c) c.ec_pub_key c.credits
                          env.ack_commit_chain d below (IsFunded-same refl funded)
                          (rw same enough) in
                      inr (
                        s',
                        record {
                          fresh = of_not _ fresh;
                          new = not_some _ new;
                          within = ltb→ge _ _ within;
                          funds = enough;
                        },
                        if-true env.is_server
                              (charge env (msg_commit_chain c) c.ec_pub_key c.credits
                                env.ack_commit_chain)
                              (pure tt) s1 server
                            ∙ e,
                        rw charged.chains (lookup-insert_self c.entry_hash c s.commit_chain_map),
                        charged,
                      )))))
