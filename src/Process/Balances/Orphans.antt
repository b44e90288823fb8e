-- ===== src/Process/Balances/Orphans.antt =====
-- process/processor.go: a round over the orphans takes no balance below 0.
use factom_code.Common.{ℕ, refl, Option, none, some, List, [], ◌∷◌}
use factom_code.Common.Exec.{ok, err, panic}
use factom_code.Common.Map.{lookup}
use factom_code.Process.{
  Msg, msg_commit_entry, msg_commit_chain, msg_reveal_entry, msg_factoid_tx, Env, State, Step,
}
use factom_code.Process.Orphans.{handle, after_call, retry, go_on, process_from_orphan_pool}
use factom_code.Process.Balances.{
  Funds, process_commit_entry-IsFunded, process_commit_chain-IsFunded,
}
use factom_code.Process.Balances.Reveals.{process_reveal_entry-IsFunded}
use factom_code.Process.Steps.{Outcome, IsFunded, IsFunded-same}

module _ (env : Env) where
  handle-IsFunded : (msg : Msg) (s : State) → IsFunded s → Funds env (handle env msg s)
  unfolding handle
  handle-IsFunded (msg_commit_entry c) s f = process_commit_entry-IsFunded env c s f
  handle-IsFunded (msg_commit_chain c) s f = process_commit_chain-IsFunded env c s f
  handle-IsFunded (msg_reveal_entry e) s f = process_reveal_entry-IsFunded env e s f
  handle-IsFunded (msg_factoid_tx tx) s f = f

  after_call-IsFunded :
      (k : List ℕ) (msg : Msg) (r : Outcome) → Funds env r → Funds env (after_call k msg r)
  after_call-IsFunded k (msg_factoid_tx tx) (ok u, s) f = f
  after_call-IsFunded k (msg_commit_entry c) (ok u, s) f = IsFunded-same refl f
  after_call-IsFunded k (msg_commit_chain c) (ok u, s) f = IsFunded-same refl f
  after_call-IsFunded k (msg_reveal_entry e) (ok u, s) f = IsFunded-same refl f
  after_call-IsFunded k msg (err e, s) f = f
  after_call-IsFunded k msg (panic, s) f = f

  retry-IsFunded :
      (k : List ℕ) (o : Option Msg) (s : State) → IsFunded s → Funds env (retry env k o s)
  retry-IsFunded k none s f = f
  retry-IsFunded k (some msg) s f =
      after_call-IsFunded k msg (handle env msg s) (handle-IsFunded msg s f)

  go_on-IsFunded :
      (r : Outcome) (g : Step)
      → Funds env r
      → ((s : State) → IsFunded s → Funds env (g s))
      → Funds env (go_on r g)
  go_on-IsFunded (ok u, s) g f h = h s f
  go_on-IsFunded (err e, s) g f h = f
  go_on-IsFunded (panic, s) g f h = f

  -- While every balance is a count that an int32 holds, it stays one through a call of
  -- process_from_orphan_pool: whatever orphans there are, in whatever order they are visited, and
  -- whichever of them fail, commits for entries and chains never spend more than their key has.
  pub process_from_orphan_pool-IsFunded :
      (keys : List (List ℕ)) (s : State)
      → IsFunded s
      → IsFunded (process_from_orphan_pool env keys s).1
  unfolding process_from_orphan_pool
  process_from_orphan_pool-IsFunded [] s f = f
  process_from_orphan_pool-IsFunded (k ∷ ks) s f =
      go_on-IsFunded (retry env k (lookup k s.mem_pool.orphans) s) (process_from_orphan_pool env ks)
        (retry-IsFunded k (lookup k s.mem_pool.orphans) s f) (process_from_orphan_pool-IsFunded ks)
