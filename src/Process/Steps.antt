-- ===== src/Process/Steps.antt =====
-- process/processor.go: what the shared steps of the handlers do to the state.
use factom_code.Common.{
  ℕ, ◌^◌, ◌<◌, ◌≡◌, refl, ◌∙◌, arith, Bool, true, false, Option, some, List, [], ◌∷◌, ◌++◌, length,
  if◌then◌else◌,
}
use factom_code.Common.Int.{ℤ, pos, negsuc, ◌-ℤ◌, ◌≤ℤ◌, wrap_32, wrap_32_same, pos_part, neg_part}
use factom_code.Common.Exec.{Result, ok, err, ◌>>=◌}
use factom_code.Common.Map.{bytes_eq, bytes_eq_refl, lookup-insert}
use factom_code.Hash.{Hash}
use factom_code.Consensus.{Ack, ProcessListItem, is_my_plist_exceeding_limit}
use factom_code.Consensus.Order.{IsDense, appended_lem}
use factom_code.Process.{
  Msg, ProcessError, Env, State, Step, reject_if, balance, set_balance, deduct, acknowledge,
  list_msg,
}
use factom_code.Process.Commit.{charge}

abbrev pub Outcome : Type 0
Outcome = Result ProcessError Unit × State

-- A guard either ends the call with its error and the state as it is, or lets it go on.
pub reject_if-cases :
    (P : Outcome → Type 0) (b : Bool) (x : ProcessError) (f : Unit → Step) (s : State)
    → (b ≡ true → P (err x, s))
    → (b ≡ false → P (f tt s))
    → P ((reject_if b x >>= f) s)
reject_if-cases P true x f s h k = h refl
reject_if-cases P false x f s h k = k refl

pub if-true : (b : Bool) (f g : Step) (s : State) → b ≡ true → (if b then f else g) s ≡ f s
if-true true f g s h = refl
if-true false f g s h = cc

pub balance-set_balance :
    (k j : List ℕ) (z : ℤ) (s : State)
    → balance j (set_balance k z s) ≡ (if bytes_eq k j then z else balance j s)
unfolding balance set_balance
balance-set_balance k j z s = ground (arith, lookup-insert k j z s.e_credit_map)

-- The balances are counts of credits that an int32 holds.
pub record IsFunded (s : State) : Type 0 where
  pub least : (key : List ℕ) → neg_part (balance key s) ≡ 0
  pub most : (key : List ℕ) → pos_part (balance key s) < 2 ^ 31

wrap_32-deducted :
    (z : ℤ) (n : ℕ)
    → neg_part z ≡ 0
    → pos_part z < 2 ^ 31
    → pos n ≤ℤ z
    → wrap_32 (z -ℤ pos n) ≡ z -ℤ pos n
unfolding ◌-ℤ◌
wrap_32-deducted (pos m) n h k l = wrap_32_same (pos m -ℤ pos n) (ground arith)
wrap_32-deducted (negsuc m) n h k l = absurd (omega arith)

pub balance-deduct :
    (key : List ℕ) (n : ℕ) (s : State)
    → IsFunded s
    → pos n ≤ℤ balance key s
    → balance key (deduct key n s) ≡ balance key s -ℤ pos n
unfolding deduct
balance-deduct key n s f l =
    rw (balance-set_balance key key (wrap_32 (balance key s -ℤ pos n)) s, bytes_eq_refl key)
      (wrap_32-deducted (balance key s) n (f.least key) (f.most key) l)

pub balance-deduct_ne :
    (key k : List ℕ) (n : ℕ) (s : State)
    → bytes_eq key k ≡ false
    → balance k (deduct key n s) ≡ balance k s
unfolding deduct
balance-deduct_ne key k n s ne =
    rw (balance-set_balance key k (wrap_32 (balance key s -ℤ pos n)) s, ne)

abbrev pub item_of : Ack → Msg → Hash → Option (ProcessListItem Msg)
item_of ack msg h = some (record { ack = ack; msg = msg; msg_hash = some h })

-- A server charged a key for a message and listed it.
pub record Charged (key : List ℕ) (credits : ℕ) (msg : Msg) (h : Hash) (s s' : State) : Type 0 where
  pub paid : balance key s' ≡ balance key s -ℤ pos credits
  pub others : (k : List ℕ) → bytes_eq key k ≡ false → balance k s' ≡ balance k s
  pub listed :
      (ack : Ack) × (ack.index ≡ length s.pl_mgr.my_process_list.pl_items)
      × (s'.pl_mgr.my_process_list.pl_items
          ≡ s.pl_mgr.my_process_list.pl_items ++ item_of ack msg h ∷ [])
      × (s'.out_msg_queue ≡ s.out_msg_queue ++ ack ∷ [])
  pub entries : s'.commit_entry_map ≡ s.commit_entry_map
  pub chains : s'.commit_chain_map ≡ s.commit_chain_map

pub balance_lem :
    (s s' : State) (key : List ℕ)
    → s'.e_credit_map ≡ s.e_credit_map
    → balance key s' ≡ balance key s
unfolding balance
balance_lem s s' key h = rw h

pub IsFunded-same : {s s' : State} → s'.e_credit_map ≡ s.e_credit_map → IsFunded s → IsFunded s'
IsFunded-same {s} {s'} h f = record {
  least = λ key. rw (balance_lem s s' key h) (f.least key);
  most = λ key. rw (balance_lem s s' key h) (f.most key);
}

module _ (env : Env) where
  pub charge_lem :
      (s : State) (msg : Msg) (key : List ℕ) (credits kind : ℕ)
      → IsDense s.pl_mgr.my_process_list
      → is_my_plist_exceeding_limit s.pl_mgr ≡ false
      → IsFunded s
      → pos credits ≤ℤ balance key s
      → (s' : State) × (charge env msg key credits kind s ≡ (ok tt, s'))
        × Charged key credits msg (env.msg_sha msg) s s'
  unfolding list_msg acknowledge deduct set_balance
  charge_lem s msg key credits kind d below funded enough =
      let (ack, mgr, added, items, index, height, same, total, next, dense) =
        appended_lem env.binary_for_signature env.sign s.pl_mgr msg (some (env.msg_sha msg)) kind
          d in
      let after = deduct key credits s in
      let s' : State = record after { pl_mgr = mgr; out_msg_queue = s.out_msg_queue ++ ack ∷ [] } in
      (
        s',
        rw (below, added),
        record {
          paid = balance_lem after s' key refl ∙ balance-deduct key credits s funded enough;
          others = λ k ne. balance_lem after s' k refl ∙ balance-deduct_ne key k credits s ne;
          listed = (ack, index, items, refl);
          entries = refl;
          chains = refl;
        },
      )
