-- ===== src/Build/Credits/Recounted.antt =====
-- process/processor.go and process/init.go: the balances that a restart recounts.
use factom_code.Common.{◌≡◌, sym, ◌∙◌, false, some, List, [], ◌∷◌, ◌++◌}
use factom_code.Common.Exec.{ok}
use factom_code.Credit.CommitEntry.{CommitEntry}
use factom_code.Credit.CommitChain.{CommitChain}
use factom_code.EcBlock.{EcBlock}
use factom_code.Consensus.{is_my_plist_exceeding_limit}
use factom_code.Consensus.Order.{IsDense}
use factom_code.Process.{ProcessError, Transaction, Env, State}
use factom_code.Process.Commit.{process_commit_entry, process_commit_chain}
use factom_code.Process.Buy.{process_buy_entry_credit}
use factom_code.Build.Credits.Moved.{
  charged, items_of, Moved, idle, took, process_commit_entry-Moves, process_commit_chain-Moves,
  process_buy_entry_credit-Moves,
}
use factom_code.Build.Credits.Reveals.{process_reveal_entry-Moves}
use factom_code.Process.Reveal.{process_reveal_entry}
use factom_code.Entry.{Entry}
use factom_code.Build.Credits.{build_from_items, init_balances}
use factom_code.Build.Credits.Recount.{build-snoc, recount-build_item, charged_same, last-Starts}

module _ (env : Env) where
  abbrev pub IsReady : State → Type 0
  IsReady s = IsDense s.pl_mgr.my_process_list × (is_my_plist_exceeding_limit s.pl_mgr ≡ false)

  -- Calls of the handlers one after another, whatever each of them answers.
  pub data Ran (s : State) : State → Type 0 where
    start : Ran s s
    commit_entry :
        (c : CommitEntry) {s' : State}
        → Ran s s'
        → IsReady s'
        → Ran s (process_commit_entry env c s').1
    commit_chain :
        (c : CommitChain) {s' : State}
        → Ran s s'
        → IsReady s'
        → Ran s (process_commit_chain env c s').1
    reveal_entry :
        (e : Entry) {s' : State} → Ran s s' → IsReady s' → Ran s (process_reveal_entry env e s').1
    buy_entry_credit :
        (tx : Transaction) {s' : State}
        → Ran s s'
        → IsReady s'
        → Ran s (process_buy_entry_credit env tx s').1

  -- The sealed blocks and the block that is built from the list recount to the balances.
  abbrev pub Recounts : List EcBlock → EcBlock → State → State → Type 0
  Recounts blocks e z s =
      (b : EcBlock) × (t : State) × (build_from_items {E = ProcessError} env.factoshis_per_credit
          (items_of s) e
        ≡ ok b)
      × (init_balances (blocks ++ b ∷ []) z ≡ (ok tt, t))
      × (t.e_credit_map ≡ s.e_credit_map)

  module _ (blocks : List EcBlock) (e : EcBlock) (z : State) where
    Moved-Recounts :
        (s s' : State)
        → Moved env.factoshis_per_credit s s'
        → Recounts blocks e z s
        → Recounts blocks e z s'
    unfolding init_balances
    Moved-Recounts s s' (idle same items) (b, t, built, recounted, equal) =
        (b, t, rw items built, recounted, equal ∙ sym same)
    Moved-Recounts s s' (took msg ack h buildable paid items) (b, t, built, recounted, equal) =
        let rate = env.factoshis_per_credit in
        let (t0, begin, behind) =
          last-Starts blocks b (record z { e_credit_map = [] }) t recounted in
        let (b', made, charges) = recount-build_item rate msg b t0 t buildable begin in
        (
          b',
          charged rate msg t,
          rw items (
              build-snoc rate (items_of s) (record { ack = ack; msg = msg; msg_hash = some h }) e b
                built
              ∙ made),
          behind b' (charged rate msg t) charges,
          charged_same rate msg s t equal ∙ sym paid,
        )

    -- If the sealed Entry Credit blocks, with the block that buildFromProcessList fills from the list
    -- of a state, recount to the balances of that state, then they do so after any calls of
    -- processCommitEntry, processCommitChain, processRevealEntry and processBuyEntryCredit, each
    -- with any message and any answer, from a list that is dense and below its limit: the block is
    -- built without a panic, and initECChain's loop over the blocks gives the balances in memory.
    pub recounted_balances :
        (s s' : State) → Ran s s' → Recounts blocks e z s → Recounts blocks e z s'
    recounted_balances s s' start r = r
    recounted_balances s s' (commit_entry c {s' = s1} ran (dense, below)) r =
        Moved-Recounts s1 s' (process_commit_entry-Moves env c s1 dense below)
          (recounted_balances s s1 ran r)
    recounted_balances s s' (commit_chain c {s' = s1} ran (dense, below)) r =
        Moved-Recounts s1 s' (process_commit_chain-Moves env c s1 dense below)
          (recounted_balances s s1 ran r)
    recounted_balances s s' (reveal_entry e {s' = s1} ran (dense, below)) r =
        Moved-Recounts s1 s' (process_reveal_entry-Moves env s1 e dense)
          (recounted_balances s s1 ran r)
    recounted_balances s s' (buy_entry_credit tx {s' = s1} ran (dense, below)) r =
        Moved-Recounts s1 s' (process_buy_entry_credit-Moves env tx s1 dense below)
          (recounted_balances s s1 ran r)
