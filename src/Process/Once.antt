-- ===== src/Process/Once.antt =====
-- process/processor.go: a commit pays for one reveal of its entry.
use factom_code.Common.{◌≡◌, none, [], ◌∷◌, ◌++◌, length}
use factom_code.Common.Map.{lookup}
use factom_code.Entry
use factom_code.Entry.{Entry}
use factom_code.Credit.CommitEntry.{CommitEntry}
use factom_code.Consensus.{Ack}
use factom_code.Process.{msg_reveal_entry, Env, State}
use factom_code.Process.Reveal.{entry_hash}
use factom_code.Process.Steps.{item_of}

module _ (env : Env) where
  -- What a server keeps of a reveal that it takes.
  pub record Revealed (e : Entry) (s s' : State) : Type 0 where
    pub used : lookup (entry_hash env e) s'.commit_entry_map ≡ none
    pub chains : s'.commit_chain_map ≡ s.commit_chain_map
    pub balances : s'.e_credit_map ≡ s.e_credit_map
    pub listed :
        (ack : Ack) × (ack.index ≡ length s.pl_mgr.my_process_list.pl_items)
        × (s'.pl_mgr.my_process_list.pl_items
            ≡ s.pl_mgr.my_process_list.pl_items
              ++ item_of ack (msg_reveal_entry e) (entry_hash env e) ∷ [])
        × (s'.out_msg_queue ≡ s.out_msg_queue ++ ack ∷ [])
