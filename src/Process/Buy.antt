-- ===== src/Process/Buy.antt =====
-- process/processor.go: processBuyEntryCredit, which credits the outputs of a factoid transaction.
use factom_code.Common.{ℕ, ◌/◌, ◌==◌, if◌then◌else◌, false, List, [], ◌∷◌, replicate, copy}
use factom_code.Common.Int.{ℤ, pos, ◌+ℤ◌, wrap_32}
use factom_code.Common.Exec.{Result, ok, panic, pure, lift, ◌>>=◌, ◌>>◌}
use factom_code.Process.{
  msg_factoid_tx, Transaction, Env, Step, modify, balance, set_balance, list_msg,
}

-- copy(pub[:], address)
abbrev pub key_of : List ℕ → List ℕ
key_of address = copy (replicate 32 0) address

-- int32(amount / uint64(FactoshisPerCredit)), which panics where the rate is 0.
unfoldable pub credits_of : {E : Type 0} → ℕ → ℕ → Result E ℤ
credits_of rate amount = if rate == 0 then panic else ok (wrap_32 (pos (amount / rate)))

-- The loop over GetECOutputs(): eCreditMap[pub] += cred.
unfoldable pub credit_outputs : ℕ → List (List ℕ × ℕ) → Step
unfolding credits_of
credit_outputs rate [] = pure tt
credit_outputs rate ((address, amount) ∷ outputs) = do
  cred ← lift (credits_of rate amount)
  modify (λ s. set_balance (key_of address) (wrap_32 (balance (key_of address) s +ℤ cred)) s)
  credit_outputs rate outputs

-- processBuyEntryCredit(msg). The acknowledgement is not sent.
unfoldable pub process_buy_entry_credit : Env → Transaction → Step
unfolding credit_outputs
process_buy_entry_credit env tx =
    credit_outputs env.factoshis_per_credit tx.ec_outputs
    >> list_msg env false (msg_factoid_tx tx) (env.msg_sha (msg_factoid_tx tx)) env.ack_factoid_tx
