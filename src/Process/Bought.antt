-- ===== src/Process/Bought.antt =====
-- process/processor.go: the balances after processBuyEntryCredit.
use factom_code.Common.{
  ◌==◌, ℕ, ◌+◌, ◌/◌, ◌^◌, ◌<◌, ◌≡◌, refl, sym, ap, ◌∙◌, arith, true, false, Bool-cases, inl, inr,
  some, List, [], ◌∷◌, ◌++◌, if◌then◌else◌,
}
use factom_code.Common.Int.{pos, ◌+ℤ◌, wrap_32, wrap_32_same}
use factom_code.Common.Exec.{ok}
use factom_code.Common.Map.{bytes_eq, bytes_eq_iff}
use factom_code.Consensus.{Ack, is_my_plist_exceeding_limit}
use factom_code.Consensus.Order.{IsDense, appended_lem}
use factom_code.Process.{
  msg_factoid_tx, Transaction, Env, State, balance, set_balance, list_msg, acknowledge,
}
use factom_code.Process.Buy.{key_of, credits_of, credit_outputs, process_buy_entry_credit}
use factom_code.Process.Steps.{balance-set_balance, balance_lem, item_of}

-- What the loop leaves where the rate is not 0.
unfoldable pub credited : ℕ → List (List ℕ × ℕ) → State → State
credited rate [] s = s
credited rate ((address, amount) ∷ outputs) s = credited rate outputs (
    set_balance (key_of address)
      (wrap_32 (balance (key_of address) s +ℤ wrap_32 (pos (amount / rate)))) s)

pub credit_outputs-credited :
    (rate : ℕ) (outputs : List (List ℕ × ℕ)) (s : State)
    → (rate == 0) ≡ false
    → credit_outputs rate outputs s ≡ (ok tt, credited rate outputs s)
unfolding credit_outputs credits_of credited
credit_outputs-credited rate [] s h = refl
credit_outputs-credited rate ((address, amount) ∷ outputs) s h =
    rw h (credit_outputs-credited rate outputs _ h)

-- The credits that the outputs buy for a key.
unfoldable pub earned : ℕ → List ℕ → List (List ℕ × ℕ) → ℕ
earned rate key [] = 0
earned rate key ((address, amount) ∷ outputs) =
    let rest = earned rate key outputs in
    if bytes_eq (key_of address) key then amount / rate + rest else rest

pos_add : (a b : ℕ) → pos a +ℤ pos b ≡ pos (a + b)
unfolding ◌+ℤ◌
pos_add a b = ground arith

sum_lem : (a b : ℕ) → a + b < 2 ^ 31 → wrap_32 (pos a +ℤ wrap_32 (pos b)) ≡ pos (a + b)
sum_lem a b h =
    rw (wrap_32_same (pos b) (omega arith), pos_add a b) (wrap_32_same (pos (a + b)) (omega arith))

module _ (rate : ℕ) (key : List ℕ) where
  earned_nothing : (b : ℕ) → b ≡ b + earned rate key []
  unfolding earned
  earned_nothing b = omega arith

  earned_mine :
      (address : List ℕ) (amount : ℕ) (outputs : List (List ℕ × ℕ))
      → bytes_eq (key_of address) key ≡ true
      → earned rate key ((address, amount) ∷ outputs) ≡ amount / rate + earned rate key outputs
  unfolding earned
  earned_mine address amount outputs h = rw h

  earned_other :
      (address : List ℕ) (amount : ℕ) (outputs : List (List ℕ × ℕ))
      → bytes_eq (key_of address) key ≡ false
      → earned rate key ((address, amount) ∷ outputs) ≡ earned rate key outputs
  unfolding earned
  earned_other address amount outputs h = rw h

  credited_lem :
      (outputs : List (List ℕ × ℕ)) (s : State) (b : ℕ)
      → balance key s ≡ pos b
      → b + earned rate key outputs < 2 ^ 31
      → balance key (credited rate outputs s) ≡ pos (b + earned rate key outputs)
  unfolding credited
  credited_lem [] s b h l = h ∙ ap pos (earned_nothing b)
  credited_lem ((address, amount) ∷ outputs) s b h l =
      let owner = key_of address in
      let z = wrap_32 (balance owner s +ℤ wrap_32 (pos (amount / rate))) in
      let s1 = set_balance owner z s in
      elim (Bool-cases (bytes_eq owner key)) [
        | inl mine ↦
            let sum = earned_mine address amount outputs mine in
            let same : owner ≡ key = (bytes_eq_iff owner key).0 mine in
            let got : balance owner s ≡ pos b = ap (λ (k : List ℕ). balance k s) same ∙ h in
            let here : balance key s1 ≡ pos (b + amount / rate) =
              balance-set_balance owner key z s
              ∙ rw (mine, got) (sum_lem b (amount / rate) (omega arith)) in
            let total : b + amount / rate + earned rate key outputs
                ≡ b + earned rate key ((address, amount) ∷ outputs) =
              omega arith in
            credited_lem outputs s1 (b + amount / rate) here (omega arith) ∙ ap pos total
        | inr other ↦
            let sum = earned_other address amount outputs other in
            let here : balance key s1 ≡ pos b = balance-set_balance owner key z s ∙ rw other h in
            credited_lem outputs s1 b here (omega arith) ∙ ap (λ (n : ℕ). pos (b + n)) (sym sum)
      ]

  pub credited_keeps :
      (outputs : List (List ℕ × ℕ)) (s : State)
      → ((credited rate outputs s).pl_mgr ≡ s.pl_mgr)
        × ((credited rate outputs s).out_msg_queue ≡ s.out_msg_queue)
  unfolding credited set_balance
  credited_keeps [] s = (refl, refl)
  credited_keeps ((address, amount) ∷ outputs) s = credited_keeps outputs _

-- On a server whose own list is dense and below its limit, and where the rate is not 0,
-- processBuyEntryCredit succeeds: the balance of a key that is a count grows by the credits of the
-- outputs to it, each amount divided by the rate and rounded down, if the sum is below 2 ^ 31. The
-- transaction is the next message of the list, and nothing is sent.
pub process_buy_entry_credit_lem :
    (env : Env) (tx : Transaction) (s : State) (key : List ℕ) (b : ℕ)
    → 0 < env.factoshis_per_credit
    → IsDense s.pl_mgr.my_process_list
    → is_my_plist_exceeding_limit s.pl_mgr ≡ false
    → balance key s ≡ pos b
    → b + earned env.factoshis_per_credit key tx.ec_outputs < 2 ^ 31
    → (s' : State) × (ack : Ack) × (process_buy_entry_credit env tx s ≡ (ok tt, s'))
      × (balance key s' ≡ pos (b + earned env.factoshis_per_credit key tx.ec_outputs))
      × (s'.pl_mgr.my_process_list.pl_items
          ≡ s.pl_mgr.my_process_list.pl_items
            ++ item_of ack (msg_factoid_tx tx) (env.msg_sha (msg_factoid_tx tx)) ∷ [])
      × (s'.out_msg_queue ≡ s.out_msg_queue)
unfolding process_buy_entry_credit list_msg acknowledge
process_buy_entry_credit_lem env tx s key b positive d below start l =
    let msg = msg_factoid_tx tx in
    let h = env.msg_sha msg in
    let paid = credited env.factoshis_per_credit tx.ec_outputs s in
    let loop = credit_outputs-credited env.factoshis_per_credit tx.ec_outputs s (ground arith) in
    let (kept, sent) = credited_keeps env.factoshis_per_credit [] tx.ec_outputs s in
    let (ack, mgr, added, items, index, height, same, total, next, dense) =
      appended_lem env.binary_for_signature env.sign s.pl_mgr msg (some h) env.ack_factoid_tx d in
    let s' : State = record paid { pl_mgr = mgr } in
    (
      s',
      ack,
      rw (loop, kept, below, added),
      balance_lem paid s' key refl
          ∙ credited_lem env.factoshis_per_credit key tx.ec_outputs s b start l,
      items,
      sent,
    )
