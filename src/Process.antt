-- ===== src/Process.antt =====
-- process/processor.go: the state that the handlers of client messages share, and the steps that
-- they have in common. The maps are keyed by the bytes of the hash whose hexadecimal text keys the
-- source's maps. What wire and factoid give is a field of Env.
pub mod Commit
pub mod Reveal
pub mod Buy
pub mod Orphans
pub mod Steps
pub mod Branches
pub mod Commits
pub mod Balances
pub mod Reveals
pub mod Once
pub mod Bought
pub mod Tests
use factom_code.Common.{
  ℕ, ◌%◌, ◌^◌, ◌≡◌, Bool, true, false, Option, none, some, List, [], ◌∷◌, ◌++◌, if◌then◌else◌,
}
use factom_code.Common.Int.{ℤ, pos, ◌-ℤ◌, ◌+ℤ◌, wrap_32, neg_part}
use factom_code.Common.Exec.{ok, err, panic, Exec, pure, raise, gets, ◌>>=◌}
use factom_code.Common.Map.{Map, lookup, insert}
use factom_code.Hash.{Hash}
use factom_code.Entry.{Entry}
use factom_code.Chains.{EChain}
use factom_code.Credit.CommitEntry.{CommitEntry}
use factom_code.Credit.CommitChain.{CommitChain}
use factom_code.Consensus.{
  Ack, ProcessListMgr, is_my_plist_exceeding_limit, add_my_process_list_item,
}
use factom_code.MemPool.{MemPool, add_msg, add_orphan_msg}

-- What the methods of a factoid transaction answer: the addresses and amounts of the entry credit
-- outputs, and the hash.
pub record Transaction : Type 0 where
  pub ec_outputs : List (List ℕ × ℕ)
  pub hash : List ℕ

-- The messages that the handlers below take.
pub data Msg : Type 0 where
  msg_commit_entry : CommitEntry → Msg
  msg_commit_chain : CommitChain → Msg
  msg_reveal_entry : Entry → Msg
  msg_factoid_tx : Transaction → Msg

pub data ProcessError : Type 0 where
  not_fresh : ProcessError
  already_committed : ProcessError
  exceeds_max_credits : ProcessError
  not_enough_credits : ProcessError
  chain_not_supported : ProcessError
  entry_too_large : ProcessError
  not_paid : ProcessError
  invalid_chain_id : ProcessError
  chain_id_hash_mismatch : ProcessError
  weld_mismatch : ProcessError
  no_commit : ProcessError
  orphan_pool_full : ProcessError

-- Settings, the clock, the chains' IDs and what is not in the repository. `is_server` is
-- nodeMode == SERVER_NODE, `now` is time.Now() in nanoseconds and `msg_sha` is a message's Sha().
pub record Env : Type 0 where
  pub is_server : Bool
  pub now : ℕ
  pub dchain_id : Hash
  pub achain_id : Hash
  pub ecchain_id : Hash
  pub fchain_id : Hash
  pub factoshis_per_credit : ℕ
  pub sha_256 : List ℕ → List ℕ
  pub sha_512 : List ℕ → List ℕ
  pub msg_sha : Msg → Hash
  pub binary_for_signature : Ack → List ℕ
  pub sign : List ℕ → List ℕ
  pub ack_commit_entry : ℕ
  pub ack_commit_chain : ℕ
  pub ack_reveal_entry : ℕ
  pub ack_reveal_chain : ℕ
  pub ack_factoid_tx : ℕ

-- The package's variables that the handlers change.
pub record State : Type 0 where
  pub chain_id_map : Map EChain
  pub commit_chain_map : Map CommitChain
  pub commit_entry_map : Map CommitEntry
  pub e_credit_map : Map ℤ
  pub mem_pool : MemPool Msg
  pub pl_mgr : ProcessListMgr Msg
  pub out_msg_queue : List Ack

abbrev pub Step : Type 0
Step = Exec ProcessError State Unit

abbrev pub is_some : {A : Type 0} → Option A → Bool
is_some none = false
is_some (some a) = true

-- if test { return an error }
abbrev pub reject_if : Bool → ProcessError → Step
reject_if test e = if test then raise e else pure tt

abbrev pub modify : (State → State) → Step
modify f s = (ok tt, f s)

-- eCreditMap[key], which is 0 where there is none.
abbrev pub or_zero : Option ℤ → ℤ
or_zero none = pos 0
or_zero (some z) = z

unfoldable pub balance : List ℕ → State → ℤ
balance key s = or_zero (lookup key s.e_credit_map)

unfoldable pub set_balance : List ℕ → ℤ → State → State
set_balance key z s = record s { e_credit_map = insert key z s.e_credit_map }

-- eCreditMap[key] -= int32(credits)
unfoldable pub deduct : List ℕ → ℕ → State → State
deduct key credits s = set_balance key (wrap_32 (balance key s -ℤ pos credits)) s

-- fMemPool.addMsg(msg, h), whose error is not looked at.
unfoldable pub pool_msg : Msg → Hash → State → State
pool_msg msg h s = record s { mem_pool = (add_msg msg h s.mem_pool).1 }

-- fMemPool.addOrphanMsg(msg, h), whose error is not looked at.
unfoldable pub orphan_msg : Msg → Hash → State → State
orphan_msg msg h s = record s { mem_pool = (add_orphan_msg msg h s.mem_pool).1 }

-- return fMemPool.addOrphanMsg(msg, h)
unfoldable pub orphaned : Msg → Hash → Step
unfolding orphan_msg
orphaned msg h s =
    if (add_orphan_msg msg h s.mem_pool).0
    then (ok tt, orphan_msg msg h s)
    else (err orphan_pool_full, s)

-- The acknowledgement, sent where `send` says so, and the manager.
abbrev pub acknowledged : Bool → State → Option (Ack × ProcessListMgr Msg) → Step
acknowledged send s none s' = (panic, s')
acknowledged send s (some (ack, mgr)) s' = (
  ok tt,
  record s {
    pl_mgr = mgr;
    out_msg_queue = if send then s.out_msg_queue ++ ack ∷ [] else s.out_msg_queue;
  },
)

-- plMgr.AddMyProcessListItem(msg, h, kind), and outMsgQueue <- ack.
unfoldable pub acknowledge : Env → Bool → Msg → Hash → ℕ → Step
acknowledge env send msg h kind s =
    acknowledged send s
      (add_my_process_list_item env.binary_for_signature env.sign s.pl_mgr msg (some h) kind) s

-- The list of the server takes the message, below its limit.
unfoldable pub list_msg : Env → Bool → Msg → Hash → ℕ → Step
unfolding orphaned acknowledge
list_msg env send msg h kind s =
    if is_my_plist_exceeding_limit s.pl_mgr
    then orphaned msg h s
    else acknowledge env send msg h kind s
