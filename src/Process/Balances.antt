-- ===== src/Process/Balances.antt =====
-- process/processor.go: no handler of an entry, of a commit or of the orphans takes a balance below 0.
pub mod Reveals
pub mod Orphans
use factom_code.Common.{
  ℕ, ◌+◌, ◌^◌, ◌<◌, ◌≤◌, ◌≡◌, refl, sym, ◌∙◌, ap, arith, Bool, true, false, not, inl, inr, Option,
  Option-cases, Bool-cases, none, some, List, [], ◌∷◌, ltb, ltb→ge, if◌then◌else◌,
}
use factom_code.Common.Int.{ℤ, pos, negsuc, ltb_ℤ, ◌≤ℤ◌, ◌-ℤ◌, -ℤ_parts, pos_part, neg_part}
use factom_code.Common.Exec.{Result, ok, err, panic, pure, ◌>>=◌, ◌>>◌}
use factom_code.Common.Map.{lookup, bytes_eq, bytes_eq_iff}
use factom_code.Hash.{Hash, double_sha}
use factom_code.Entry
use factom_code.Entry.{Entry}
use factom_code.Entry.Cost.{entry_cost}
use factom_code.Credit.CommitEntry
use factom_code.Credit.CommitEntry.{CommitEntry}
use factom_code.Credit.CommitChain
use factom_code.Credit.CommitChain.{CommitChain}
use factom_code.Consensus.{
  Ack, ProcessListMgr, is_my_plist_exceeding_limit, add_my_process_list_item,
}
use factom_code.Process.{
  Msg, msg_commit_entry, msg_commit_chain, msg_reveal_entry, msg_factoid_tx, ProcessError, Env,
  State, Step, is_some, balance, deduct, list_msg, orphan_msg, orphaned, acknowledge, acknowledged,
}
use factom_code.Process.Commit.{
  charge, record_entry, record_chain, max_entry_credits, max_chain_credits, process_commit_entry,
  process_commit_chain,
}
use factom_code.Process.Reveal.{
  entry_hash, cost, cost_or_error, orphan_if, has_chain, reveal, reveal_entry, reveal_chain,
  check_new_chain, reveal_by, process_reveal_entry,
}
use factom_code.Process.Orphans.{handle, after_call, retry, go_on, process_from_orphan_pool}
use factom_code.Process.Steps.{
  Outcome, IsFunded, IsFunded-same, balance_lem, balance-deduct, balance-deduct_ne, reject_if-cases,
}

abbrev InRange : ℤ → Type 0
InRange z = (neg_part z ≡ 0) × (pos_part z < 2 ^ 31)

InRange-deducted : (z : ℤ) (n : ℕ) → InRange z → pos n ≤ℤ z → InRange (z -ℤ pos n)
unfolding ◌-ℤ◌
InRange-deducted (pos m) n h l = ground arith
InRange-deducted (negsuc m) n h l = absurd (omega arith)

InRange-deduct :
    (key k : List ℕ) (n : ℕ) (s : State)
    → IsFunded s
    → pos n ≤ℤ balance key s
    → InRange (balance k (deduct key n s))
InRange-deduct key k n s f l = elim (Bool-cases (bytes_eq key k)) [
  | inl same ↦
      let e : key ≡ k = (bytes_eq_iff key k).0 same in
      rw (← e, balance-deduct key n s f l)
        (InRange-deducted (balance key s) n (f.least key, f.most key) l)
  | inr other ↦ rw (balance-deduct_ne key k n s other) (f.least k, f.most k)
]

deduct-IsFunded :
    (key : List ℕ) (n : ℕ) (s : State)
    → IsFunded s
    → pos n ≤ℤ balance key s
    → IsFunded (deduct key n s)
deduct-IsFunded key n s f l = record {
  least = λ k. (InRange-deduct key k n s f l).0;
  most = λ k. (InRange-deduct key k n s f l).1;
}

pub acknowledged_same :
    (send : Bool) (s : State) (o : Option (Ack × ProcessListMgr Msg))
    → (acknowledged send s o s).1.e_credit_map ≡ s.e_credit_map
acknowledged_same send s none = refl
acknowledged_same send s (some (ack, mgr)) = refl

module _ (env : Env) where
  pub list_msg_same :
      (send : Bool) (msg : Msg) (h : Hash) (kind : ℕ) (s : State)
      → (list_msg env send msg h kind s).1.e_credit_map ≡ s.e_credit_map
  unfolding list_msg orphaned acknowledge orphan_msg
  list_msg_same send msg h kind s = ground (
    arith,
    acknowledged_same send s
        (add_my_process_list_item env.binary_for_signature env.sign s.pl_mgr msg (some h) kind),
  )

  abbrev pub Funds : Outcome → Type 0
  Funds r = IsFunded r.1

  pub if-Funds :
      (b : Bool) (f g : Step) (s : State)
      → Funds (f s)
      → Funds (g s)
      → Funds ((if b then f else g) s)
  if-Funds true f g s h k = h
  if-Funds false f g s h k = k

  charge-IsFunded :
      (msg : Msg) (key : List ℕ) (credits kind : ℕ) (s : State)
      → IsFunded s
      → pos credits ≤ℤ balance key s
      → Funds (charge env msg key credits kind s)
  charge-IsFunded msg key credits kind s f l =
      IsFunded-same (list_msg_same true msg (env.msg_sha msg) kind (deduct key credits s))
        (deduct-IsFunded key credits s f l)

  pub process_commit_entry-IsFunded :
      (c : CommitEntry) (s : State) → IsFunded s → Funds (process_commit_entry env c s)
  unfolding process_commit_entry
  process_commit_entry-IsFunded c s f =
      reject_if-cases Funds (not (CommitEntry.in_time env.now c)) _ _ s (λ b. f)
        (λ b.
          reject_if-cases Funds (is_some (lookup c.entry_hash s.commit_entry_map)) _ _ s (λ b. f)
            (λ b.
              reject_if-cases Funds (ltb max_entry_credits c.credits) _ _ s (λ b. f)
                (λ b.
                  reject_if-cases Funds (ltb_ℤ (balance c.ec_pub_key s) (pos c.credits)) _ _ s
                    (λ b. f)
                    (λ b.
                      let s1 = record_entry env c s in
                      let f1 : IsFunded s1 = IsFunded-same refl f in
                      let enough : pos c.credits ≤ℤ balance c.ec_pub_key s1 =
                        rw (balance_lem s s1 c.ec_pub_key refl) (ltb→ge _ _ b) in
                      if-Funds env.is_server
                        (charge env (msg_commit_entry c) c.ec_pub_key c.credits
                          env.ack_commit_entry)
                        (pure tt) s1
                        (charge-IsFunded (msg_commit_entry c) c.ec_pub_key c.credits
                          env.ack_commit_entry s1 f1 enough)
                        f1))))

  pub process_commit_chain-IsFunded :
      (c : CommitChain) (s : State) → IsFunded s → Funds (process_commit_chain env c s)
  unfolding process_commit_chain
  process_commit_chain-IsFunded c s f =
      reject_if-cases Funds (not (CommitChain.in_time env.now c)) _ _ s (λ b. f)
        (λ b.
          reject_if-cases Funds (is_some (lookup c.entry_hash s.commit_chain_map)) _ _ s (λ b. f)
            (λ b.
              reject_if-cases Funds (ltb max_chain_credits c.credits) _ _ s (λ b. f)
                (λ b.
                  reject_if-cases Funds (ltb_ℤ (balance c.ec_pub_key s) (pos c.credits)) _ _ s
                    (λ b. f)
                    (λ b.
                      let s1 = record_chain env c s in
                      let f1 : IsFunded s1 = IsFunded-same refl f in
                      let enough : pos c.credits ≤ℤ balance c.ec_pub_key s1 =
                        rw (balance_lem s s1 c.ec_pub_key refl) (ltb→ge _ _ b) in
                      if-Funds env.is_server
                        (charge env (msg_commit_chain c) c.ec_pub_key c.credits
                          env.ack_commit_chain)
                        (pure tt) s1
                        (charge-IsFunded (msg_commit_chain c) c.ec_pub_key c.credits
                          env.ack_commit_chain s1 f1 enough)
                        f1))))
