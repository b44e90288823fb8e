-- ===== src/Build/Credits/Moved.antt =====
-- process/processor.go: a handler either leaves the balances and the list of the server, or lists a
-- message and does to the balances what that message stands for.
use factom_code.Common.{
  Bool-cases, inl, inr, ◌==◌, ℕ, ◌≡◌, refl, Bool, true, false, not, Option, some, List, [], ◌∷◌,
  ◌++◌, ltb,
}
use factom_code.Common.Int.{pos, ltb_ℤ}
use factom_code.Common.Exec.{ok, pure}
use factom_code.Common.Map.{lookup}
use factom_code.Hash.{Hash}
use factom_code.Credit.CommitEntry
use factom_code.Credit.CommitEntry.{CommitEntry}
use factom_code.Credit.CommitChain
use factom_code.Credit.CommitChain.{CommitChain}
use factom_code.Consensus.{Ack, ProcessListItem, is_my_plist_exceeding_limit}
use factom_code.Consensus.Order.{IsDense, appended_lem}
use factom_code.Process.{
  Msg, msg_commit_entry, msg_commit_chain, msg_reveal_entry, msg_factoid_tx, Transaction, Env,
  State, is_some, balance, deduct, set_balance, list_msg, acknowledge,
}
use factom_code.Process.Commit.{
  record_entry, record_chain, max_entry_credits, max_chain_credits, process_commit_entry,
  process_commit_chain,
}
use factom_code.Process.Branches.{if_step-cases}
use factom_code.Process.Buy.{credits_of, credit_outputs, process_buy_entry_credit}
use factom_code.Process.Steps.{Outcome, reject_if-cases, item_of}
use factom_code.Process.Bought.{credited, credited_keeps, credit_outputs-credited}

-- What a message does to the balances.
unfoldable pub charged : ℕ → Msg → State → State
charged rate (msg_commit_entry c) s = deduct c.ec_pub_key c.credits s
charged rate (msg_commit_chain c) s = deduct c.ec_pub_key c.credits s
charged rate (msg_factoid_tx t) s = credited rate t.ec_outputs s
charged rate (msg_reveal_entry e) s = s

-- What a listed transaction needs for its outputs: a rate that is not 0.
abbrev pub IsDivisible : ℕ → List (List ℕ × ℕ) → Type 0
IsDivisible rate [] = Unit
IsDivisible rate (output ∷ outputs) = (rate == 0) ≡ false

abbrev pub IsBuildable : ℕ → Msg → Type 0
IsBuildable rate (msg_factoid_tx t) = IsDivisible rate t.ec_outputs
IsBuildable rate (msg_commit_entry c) = Unit
IsBuildable rate (msg_commit_chain c) = Unit
IsBuildable rate (msg_reveal_entry e) = Unit

-- The items of the server's own list.
abbrev pub items_of : State → List (Option (ProcessListItem Msg))
items_of s = s.pl_mgr.my_process_list.pl_items

module _ (rate : ℕ) where
  pub data Moved (s s' : State) : Type 0 where
    idle : s'.e_credit_map ≡ s.e_credit_map → items_of s' ≡ items_of s → Moved s s'
    took :
        (msg : Msg) (ack : Ack) (h : Hash)
        → IsBuildable rate msg
        → s'.e_credit_map ≡ (charged rate msg s).e_credit_map
        → items_of s' ≡ items_of s ++ item_of ack msg h ∷ []
        → Moved s s'

module _ (env : Env) where
  abbrev pub Moves : State → Outcome → Type 0
  Moves s r = Moved env.factoshis_per_credit s r.1

  list_msg_lem :
      (send : Bool) (msg : Msg) (h : Hash) (kind : ℕ) (s s1 : State)
      → IsBuildable env.factoshis_per_credit msg
      → s1.pl_mgr ≡ s.pl_mgr
      → s1.e_credit_map ≡ (charged env.factoshis_per_credit msg s).e_credit_map
      → IsDense s.pl_mgr.my_process_list
      → is_my_plist_exceeding_limit s.pl_mgr ≡ false
      → Moves s (list_msg env send msg h kind s1)
  unfolding list_msg acknowledge
  list_msg_lem send msg h kind s s1 buildable same paid d below =
      let (ack, mgr, added, items, index, height, dblock, total, next, dense) =
        appended_lem env.binary_for_signature env.sign s.pl_mgr msg (some h) kind d in
      rw (same, below, added) (took msg ack h buildable paid items)

  pub process_commit_entry-Moves :
      (c : CommitEntry) (s : State)
      → IsDense s.pl_mgr.my_process_list
      → is_my_plist_exceeding_limit s.pl_mgr ≡ false
      → Moves s (process_commit_entry env c s)
  unfolding process_commit_entry charged deduct set_balance balance
  process_commit_entry-Moves c s d below =
      reject_if-cases (Moves s) (not (CommitEntry.in_time env.now c)) _ _ s (λ b. idle refl refl)
        (λ b.
          reject_if-cases (Moves s) (is_some (lookup c.entry_hash s.commit_entry_map)) _ _ s
            (λ b. idle refl refl)
            (λ b.
              reject_if-cases (Moves s) (ltb max_entry_credits c.credits) _ _ s
                (λ b. idle refl refl)
                (λ b.
                  reject_if-cases (Moves s) (ltb_ℤ (balance c.ec_pub_key s) (pos c.credits)) _ _ s
                    (λ b. idle refl refl)
                    (λ b.
                      if_step-cases (Moves s) env.is_server _ (pure tt) (record_entry env c s)
                        (list_msg_lem true (msg_commit_entry c) _ env.ack_commit_entry s _ tt refl
                          refl d below)
                        (idle refl refl)))))

  pub process_commit_chain-Moves :
      (c : CommitChain) (s : State)
      → IsDense s.pl_mgr.my_process_list
      → is_my_plist_exceeding_limit s.pl_mgr ≡ false
      → Moves s (process_commit_chain env c s)
  unfolding process_commit_chain charged deduct set_balance balance
  process_commit_chain-Moves c s d below =
      reject_if-cases (Moves s) (not (CommitChain.in_time env.now c)) _ _ s (λ b. idle refl refl)
        (λ b.
          reject_if-cases (Moves s) (is_some (lookup c.entry_hash s.commit_chain_map)) _ _ s
            (λ b. idle refl refl)
            (λ b.
              reject_if-cases (Moves s) (ltb max_chain_credits c.credits) _ _ s
                (λ b. idle refl refl)
                (λ b.
                  reject_if-cases (Moves s) (ltb_ℤ (balance c.ec_pub_key s) (pos c.credits)) _ _ s
                    (λ b. idle refl refl)
                    (λ b.
                      if_step-cases (Moves s) env.is_server _ (pure tt) (record_chain env c s)
                        (list_msg_lem true (msg_commit_chain c) _ env.ack_commit_chain s _ tt refl
                          refl d below)
                        (idle refl refl)))))

  bought :
      (outputs : List (List ℕ × ℕ)) (hash : List ℕ) (s : State)
      → IsDivisible env.factoshis_per_credit outputs
      → credit_outputs env.factoshis_per_credit outputs s
        ≡ (ok tt, credited env.factoshis_per_credit outputs s)
      → IsDense s.pl_mgr.my_process_list
      → is_my_plist_exceeding_limit s.pl_mgr ≡ false
      → Moves s (process_buy_entry_credit env (record { ec_outputs = outputs; hash = hash }) s)
  unfolding process_buy_entry_credit charged
  bought outputs hash s divisible loop d below =
      let (kept, sent) = credited_keeps env.factoshis_per_credit [] outputs s in
      rw loop (
        list_msg_lem false (msg_factoid_tx (record { ec_outputs = outputs; hash = hash })) _
          env.ack_factoid_tx s _ divisible kept refl d below)

  -- Where the rate is 0, the first output panics.
  not_bought :
      (output : List ℕ × ℕ) (outputs : List (List ℕ × ℕ)) (hash : List ℕ) (s : State)
      → (env.factoshis_per_credit == 0) ≡ true
      → Moves s
          (process_buy_entry_credit env (record { ec_outputs = output ∷ outputs; hash = hash }) s)
  unfolding process_buy_entry_credit credit_outputs credits_of
  not_bought (address, amount) outputs hash s zero_rate = rw zero_rate (idle refl refl)

  buy :
      (outputs : List (List ℕ × ℕ)) (hash : List ℕ) (s : State)
      → IsDense s.pl_mgr.my_process_list
      → is_my_plist_exceeding_limit s.pl_mgr ≡ false
      → Moves s (process_buy_entry_credit env (record { ec_outputs = outputs; hash = hash }) s)
  unfolding credit_outputs credited
  buy [] hash s d below = bought [] hash s tt refl d below
  buy (output ∷ outputs) hash s d below = elim (Bool-cases (env.factoshis_per_credit == 0)) [
    | inl zero_rate ↦ not_bought output outputs hash s zero_rate
    | inr rate ↦
        bought (output ∷ outputs) hash s rate
          (credit_outputs-credited env.factoshis_per_credit (output ∷ outputs) s rate) d below
  ]

  pub process_buy_entry_credit-Moves :
      (tx : Transaction) (s : State)
      → IsDense s.pl_mgr.my_process_list
      → is_my_plist_exceeding_limit s.pl_mgr ≡ false
      → Moves s (process_buy_entry_credit env tx s)
  process_buy_entry_credit-Moves tx s d below = buy tx.ec_outputs tx.hash s d below
