-- ===== src/Process/Orphans.antt =====
-- process/processor.go: processFromOrphanPool, which tries the orphans again. The order in which Go
-- visits the map is the argument.
use factom_code.Common.{Option, none, some, List, ℕ, [], ◌∷◌}
use factom_code.Common.Exec.{Result, ok, err, panic, pure}
use factom_code.Common.Map.{lookup, delete}
use factom_code.Process.{
  Msg, msg_commit_entry, msg_commit_chain, msg_reveal_entry, msg_factoid_tx, ProcessError, Env,
  State, Step,
}
use factom_code.Process.Commit.{process_commit_entry, process_commit_chain}
use factom_code.Process.Reveal.{process_reveal_entry}

-- The call that the switch makes for a message.
unfoldable pub handle : Env → Msg → Step
handle env (msg_commit_entry c) = process_commit_entry env c
handle env (msg_commit_chain c) = process_commit_chain env c
handle env (msg_reveal_entry e) = process_reveal_entry env e
handle env (msg_factoid_tx tx) = pure tt

-- delete(fMemPool.orphans, k)
abbrev pub drop_orphan : List ℕ → State → State
drop_orphan k s = record s {
  mem_pool = record s.mem_pool { orphans = delete k s.mem_pool.orphans };
}

-- After the call: an error is logged, and the message stays. A message of another kind stays too.
abbrev pub after_call :
    List ℕ → Msg → Result ProcessError Unit × State → Result ProcessError Unit × State
after_call k (msg_factoid_tx tx) (ok u, s) = (ok tt, s)
after_call k (msg_commit_entry c) (ok u, s) = (ok tt, drop_orphan k s)
after_call k (msg_commit_chain c) (ok u, s) = (ok tt, drop_orphan k s)
after_call k (msg_reveal_entry e) (ok u, s) = (ok tt, drop_orphan k s)
after_call k msg (err e, s) = (ok tt, s)
after_call k msg (panic, s) = (panic, s)

abbrev pub retry : Env → List ℕ → Option Msg → Step
retry env k none s = (ok tt, s)
retry env k (some msg) s = after_call k msg (handle env msg s)

abbrev pub go_on : Result ProcessError Unit × State → Step → Result ProcessError Unit × State
go_on (ok u, s) f = f s
go_on (err e, s) f = (err e, s)
go_on (panic, s) f = (panic, s)

-- processFromOrphanPool(): each key as it is visited, where it is still in the map.
unfoldable pub process_from_orphan_pool : Env → List (List ℕ) → Step
unfolding handle
process_from_orphan_pool env [] s = (ok tt, s)
process_from_orphan_pool env (k ∷ ks) s =
    go_on (retry env k (lookup k s.mem_pool.orphans) s) (process_from_orphan_pool env ks)
