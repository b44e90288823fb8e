-- ===== src/Process/Tests.antt =====
-- Runs of the handlers of process/processor.go on a server, with functions in the place of the hashes
-- and of what wire and the private key give.
mod Buy
use factom_code.Common.{
  ℕ, ◌*◌, ◌^◌, ◌<◌, ◌≡◌, refl, arith, true, false, none, some, List, [], ◌∷◌, ◌++◌, replicate, take,
  copy,
}
use factom_code.Common.Int.{pos, pos_part, neg_part, quot, rem}
use factom_code.Common.Exec.{err}
use factom_code.Common.Map.{lookup, insert, delete, bytes_eq, lookup-insert_self}
use factom_code.Common.Bytes.{put_uint}
use factom_code.Hash.{Hash}
use factom_code.Entry
use factom_code.Entry.{Entry}
use factom_code.Entry.Cost.{entry_cost}
use factom_code.Credit.CommitEntry.{CommitEntry, new_commit_entry}
use factom_code.Credit.CommitChain.{CommitChain, new_commit_chain}
use factom_code.Consensus.{new_process_list_mgr, is_my_plist_exceeding_limit}
use factom_code.Consensus.Order.{IsDense}
use factom_code.MemPool
use factom_code.Process.{
  msg_commit_entry, msg_reveal_entry, Env, State, balance, chain_not_supported, orphan_msg,
}
use factom_code.Process.Reveal.{
  entry_hash, is_reserved, process_reveal_entry, reveal_by, reveal_chain, check_new_chain,
}
use factom_code.Process.Commit.{process_commit_entry, process_commit_chain}
use factom_code.Process.Orphans.{process_from_orphan_pool}
use factom_code.Process.Steps.{IsFunded, item_of}
use factom_code.Process.Buy.{process_buy_entry_credit}
use factom_code.Process.Bought.{earned, process_buy_entry_credit_lem}
use factom_code.Process.{Transaction, msg_factoid_tx}
use factom_code.Consensus.{Ack}
use factom_code.Common.{copy, ◌+◌, ◌<◌}
use factom_code.Process.Commits.{
  EntryCommitted, ChainCommitted, process_commit_entry_lem, process_commit_chain_lem,
}
use factom_code.Process.Balances.Orphans.{process_from_orphan_pool-IsFunded}
use factom_code.Process.Reveals.{reveal_chain_blocks}

abbrev pub env : Env
env = record {
  is_server = true;
  now = 1000 * 10 ^ 9;
  dchain_id = replicate 32 0x0d;
  achain_id = replicate 32 0x0a;
  ecchain_id = replicate 32 0x0c;
  fchain_id = replicate 32 0x0f;
  factoshis_per_credit = 1000;
  sha_256 = λ bytes. take 32 (bytes ++ replicate 32 0);
  sha_512 = λ bytes. replicate 64 1;
  msg_sha = λ msg. replicate 32 2;
  binary_for_signature = λ ack. ack.height ∷ ack.index ∷ [];
  sign = λ bytes. bytes;
  ack_commit_entry = 1;
  ack_commit_chain = 2;
  ack_reveal_entry = 3;
  ack_reveal_chain = 4;
  ack_factoid_tx = 5;
}

abbrev pub key : List ℕ
key = replicate 32 7

-- A second after 1970 began, and 1000 seconds are 999 seconds later.
abbrev pub commit : CommitEntry
commit = record new_commit_entry {
  milli_time = 0 ∷ 0 ∷ 0 ∷ 0 ∷ 3 ∷ 0xe8 ∷ [];
  credits = 2;
  entry_hash = replicate 32 1;
  ec_pub_key = key;
}

abbrev chain_commit : CommitChain
chain_commit = record new_commit_chain {
  milli_time = 0 ∷ 0 ∷ 0 ∷ 0 ∷ 3 ∷ 0xe8 ∷ [];
  credits = 2;
  entry_hash = replicate 32 1;
  ec_pub_key = key;
}

abbrev pub start : State
start = record {
  chain_id_map = [];
  commit_chain_map = [];
  commit_entry_map = [];
  e_credit_map = (key, pos 5) ∷ [];
  mem_pool = MemPool.init;
  pl_mgr = new_process_list_mgr 7 1 2;
  out_msg_queue = [];
}

pub list-IsDense : IsDense start.pl_mgr.my_process_list
list-IsDense = omega arith

pub below_limit : is_my_plist_exceeding_limit start.pl_mgr ≡ false
unfolding is_my_plist_exceeding_limit
below_limit = refl

least : (k : List ℕ) → neg_part (balance k start) ≡ 0
unfolding balance lookup
least k = ground arith

most : (k : List ℕ) → pos_part (balance k start) < 2 ^ 31
unfolding balance lookup
most k = ground arith

start-IsFunded : IsFunded start
start-IsFunded = record { least = least; most = most }

process_commit_entry_lem_example :
    EntryCommitted env commit start (process_commit_entry env commit start)
process_commit_entry_lem_example =
    process_commit_entry_lem env commit start refl list-IsDense below_limit start-IsFunded

process_commit_chain_lem_example :
    ChainCommitted env chain_commit start (process_commit_chain env chain_commit start)
process_commit_chain_lem_example =
    process_commit_chain_lem env chain_commit start refl list-IsDense below_limit start-IsFunded

-- The commit is an orphan of the state before.
abbrev with_orphan : State
with_orphan = record start {
  mem_pool = record MemPool.init { orphans = (replicate 32 2, msg_commit_entry commit) ∷ [] };
}

with_orphan-IsFunded : IsFunded with_orphan
unfolding balance
with_orphan-IsFunded = record { least = least; most = most }

process_from_orphan_pool-IsFunded_example :
    IsFunded (process_from_orphan_pool env (replicate 32 2 ∷ []) with_orphan).1
process_from_orphan_pool-IsFunded_example =
    process_from_orphan_pool-IsFunded env (replicate 32 2 ∷ []) with_orphan with_orphan-IsFunded

abbrev note : Entry
note = record { version = 0; chain_id = replicate 32 4; ext_ids = []; content = 10 ∷ 11 ∷ [] }

abbrev note_hash : Hash
note_hash = entry_hash env note

abbrev paid : State
paid = record start {
  chain_id_map = insert note.chain_id (record { chain_id = note.chain_id; first_entry = note }) [];
  commit_entry_map = insert note_hash commit [];
}

free : is_reserved env note.chain_id ≡ false
unfolding bytes_eq
free = refl

-- The first entry of a chain with a commit that pays 2 of the 11 credits.
abbrev unpaid : State
unpaid = record start { commit_chain_map = insert note_hash chain_commit [] }

-- After the reveal: an orphan, and a chain.
no_entry_commit : lookup note_hash (process_reveal_entry env note unpaid).1.commit_entry_map ≡ none
unfolding process_reveal_entry reveal_by reveal_chain check_new_chain orphan_msg entry_hash
    Entry.hash entry_cost Entry.marshal Entry.marshal_ext_ids quot rem put_uint lookup insert
    bytes_eq copy delete
no_entry_commit = refl

same_chain_commit :
    lookup note_hash (process_reveal_entry env note unpaid).1.commit_chain_map ≡ some chain_commit
unfolding process_reveal_entry reveal_by reveal_chain check_new_chain orphan_msg entry_hash
    Entry.hash entry_cost Entry.marshal Entry.marshal_ext_ids quot rem put_uint lookup insert
    bytes_eq copy delete
same_chain_commit = refl

reveal_chain_blocks_example :
    process_reveal_entry env note (process_reveal_entry env note unpaid).1 ≡ (
      err chain_not_supported,
      orphan_msg (msg_reveal_entry note) note_hash (process_reveal_entry env note unpaid).1,
    )
unfolding lookup
reveal_chain_blocks_example =
    reveal_chain_blocks env note note chain_commit chain_commit unpaid free refl
      (lookup-insert_self note_hash chain_commit []) refl no_entry_commit same_chain_commit
