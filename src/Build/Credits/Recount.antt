-- ===== src/Build/Credits/Recount.antt =====
-- process/init.go: what recounting a block that process/processor.go built does to the balances.
use factom_code.Common.{
  ℕ, suc, ◌^◌, ◌/◌, ◌==◌, false, ◌≡◌, refl, sym, ap, ◌∙◌, arith, Option, none, some, List, [], ◌∷◌,
  ◌++◌,
}
use factom_code.Common.Int.{ℤ, pos, negsuc, ◌+ℤ◌, wrap_32, wrap_32-IsInt32, low_word, IsInt32}
use factom_code.Common.Exec.{
  Result, ok, err, panic, pure, continue, and_then, and_then-eq-ok, ok_injective,
}
use factom_code.EcBlock.{
  EcBlockEntry, balance_increase, chain_commit, entry_commit, EcBlock, add_entry,
}
use factom_code.Consensus.{ProcessListItem}
use factom_code.Process.{
  Msg, msg_commit_entry, msg_commit_chain, msg_reveal_entry, msg_factoid_tx, ProcessError, State,
  Step, balance, set_balance, deduct,
}
use factom_code.Process.Buy.{key_of, credits_of}
use factom_code.Process.Bought.{credited}
use factom_code.Process.Steps.{Outcome}
use factom_code.Build.Credits.Moved.{charged, IsDivisible, IsBuildable}
use factom_code.Build.Credits.{
  increase_of, build_increases, build_item, build_from_items, recount_increase, recount_entry,
  recount_entries, initialize_e_credit_map, recount_blocks,
}

-- int32(uint64(cred)) is cred.
low_word_back : (z : ℤ) → IsInt32 z → wrap_32 (pos (low_word (2 ^ 64) z)) ≡ z
unfolding wrap_32
low_word_back (pos n) h = ground arith
low_word_back (negsuc n) h = ground arith

deduct_same :
    (key : List ℕ) (n : ℕ) (s t : State)
    → t.e_credit_map ≡ s.e_credit_map
    → (deduct key n t).e_credit_map ≡ (deduct key n s).e_credit_map
unfolding deduct set_balance balance
deduct_same key n s t h = rw h

credited_same :
    (rate : ℕ) (outputs : List (List ℕ × ℕ)) (s t : State)
    → t.e_credit_map ≡ s.e_credit_map
    → (credited rate outputs t).e_credit_map ≡ (credited rate outputs s).e_credit_map
unfolding credited set_balance balance
credited_same rate [] s t h = h
credited_same rate ((address, amount) ∷ outputs) s t h = credited_same rate outputs _ _ (rw h)

pub charged_same :
    (rate : ℕ) (msg : Msg) (s t : State)
    → t.e_credit_map ≡ s.e_credit_map
    → (charged rate msg t).e_credit_map ≡ (charged rate msg s).e_credit_map
unfolding charged
charged_same rate (msg_commit_entry c) s t h = deduct_same c.ec_pub_key c.credits s t h
charged_same rate (msg_commit_chain c) s t h = deduct_same c.ec_pub_key c.credits s t h
charged_same rate (msg_factoid_tx tx) s t h = credited_same rate tx.ec_outputs s t h
charged_same rate (msg_reveal_entry e) s t h = h

and_then-ok : (r : Result ProcessError EcBlock) → and_then r (λ b. ok b) ≡ r
and_then-ok (ok b) = refl
and_then-ok (err e) = refl
and_then-ok panic = refl

err_not_ok : {e : ProcessError} → ◌≡◌ {A = Result ProcessError Unit} (err e) (ok tt) → ⊥
err_not_ok h = cc

panic_not_ok : ◌≡◌ {A = Result ProcessError Unit} panic (ok tt) → ⊥
panic_not_ok h = cc

continue_ok :
    (r x : Outcome) (f g : Step) (t : State)
    → ((s : State) → f s ≡ (ok tt, t) → g s ≡ x)
    → continue r (λ _. f) ≡ (ok tt, t)
    → continue r (λ _. g) ≡ x
continue_ok (ok u, s) x f g t k h = k s h
continue_ok (err e, s) x f g t k h = absurd (err_not_ok (ap (λ (o : Outcome). o.0) h))
continue_ok (panic, s) x f g t k h = absurd (panic_not_ok (ap (λ (o : Outcome). o.0) h))

-- Entries that are recounted behind others.
recount-append :
    (es fs : List EcBlockEntry) (s t : State)
    → recount_entries es s ≡ (ok tt, t)
    → recount_entries (es ++ fs) s ≡ recount_entries fs t
unfolding recount_entries
recount-append [] fs s t h = ap (λ (r : Outcome). recount_entries fs r.1) h
recount-append (e ∷ es) fs s t h =
    continue_ok (recount_entry e s) (recount_entries fs t) (recount_entries es)
      (recount_entries (es ++ fs)) t (λ s'. recount-append es fs s' t) h

recount-add_entry :
    (b : EcBlock) (e : EcBlockEntry) (s t : State)
    → recount_entries b.entries s ≡ (ok tt, t)
    → recount_entries (add_entry b e).entries s ≡ recount_entries (e ∷ []) t
unfolding add_entry
recount-add_entry b e s t h = recount-append b.entries (e ∷ []) s t h

-- What crediting an int32 to a key leaves.
abbrev after : State → List ℕ → ℤ → Outcome
after t key z = (ok tt, set_balance key (wrap_32 (balance key t +ℤ z)) t)

-- Building gives a block that is recounted so.
abbrev pub Builds : Result ProcessError EcBlock → State → State → Type 0
Builds r s t = (b : EcBlock) × (r ≡ ok b) × (initialize_e_credit_map b s ≡ (ok tt, t))

module _ (rate : ℕ) where
  recount-build_increases :
      (tx_hash : List ℕ) (i : ℕ) (outputs : List (List ℕ × ℕ)) (b : EcBlock) (s t : State)
      → (rate == 0) ≡ false
      → initialize_e_credit_map b s ≡ (ok tt, t)
      → Builds (build_increases rate tx_hash i outputs b) s (credited rate outputs t)
  unfolding build_increases credits_of credited recount_entries recount_entry recount_increase
  recount-build_increases tx_hash i [] b s t r h = (b, refl, h)
  recount-build_increases tx_hash i ((address, amount) ∷ outputs) b s t r h =
      let cred = wrap_32 (pos (amount / rate)) in
      let e = balance_increase (increase_of tx_hash i address cred) in
      let same = low_word_back cred (wrap_32-IsInt32 (pos (amount / rate))) in
      rw r (
        recount-build_increases tx_hash (suc i) outputs (add_entry b e) s _ r
          (recount-add_entry b e s t h ∙ ap (after t (key_of address)) same))

  recount-bought :
      (tx_hash : List ℕ) (outputs : List (List ℕ × ℕ)) (b : EcBlock) (s t : State)
      → IsDivisible rate outputs
      → initialize_e_credit_map b s ≡ (ok tt, t)
      → Builds (build_increases rate tx_hash 0 outputs b) s (credited rate outputs t)
  unfolding build_increases credited
  recount-bought tx_hash [] b s t r h = (b, refl, h)
  recount-bought tx_hash (output ∷ outputs) b s t r h =
      recount-build_increases tx_hash 0 (output ∷ outputs) b s t r h

  pub recount-build_item :
      (msg : Msg) (b : EcBlock) (s t : State)
      → IsBuildable rate msg
      → initialize_e_credit_map b s ≡ (ok tt, t)
      → Builds (build_item rate msg b) s (charged rate msg t)
  unfolding build_item charged recount_entries recount_entry
  recount-build_item (msg_commit_entry c) b s t r h =
      (_, refl, recount-add_entry b (entry_commit c) s t h)
  recount-build_item (msg_commit_chain c) b s t r h =
      (_, refl, recount-add_entry b (chain_commit c) s t h)
  recount-build_item (msg_factoid_tx tx) b s t r h = recount-bought tx.hash tx.ec_outputs b s t r h
  recount-build_item (msg_reveal_entry e) b s t r h = (b, refl, h)

  abbrev build : List (Option (ProcessListItem Msg)) → EcBlock → Result ProcessError EcBlock
  build items e = build_from_items rate items e

  pub build-snoc :
      (items : List (Option (ProcessListItem Msg))) (pli : ProcessListItem Msg) (e b : EcBlock)
      → build items e ≡ ok b
      → build (items ++ some pli ∷ []) e ≡ build_item rate pli.msg b
  unfolding build_from_items
  build-snoc [] pli e b h = rw (ok_injective e b h) (and_then-ok (build_item rate pli.msg b))
  build-snoc (none ∷ items) pli e b h = cc
  build-snoc (some p ∷ items) pli e b h =
      let (e', made, rest) = and_then-eq-ok (build_item rate p.msg e) (build items) h in
      rw made (build-snoc items pli e' b rest)

continue-pure : (r : Outcome) → continue r (λ _. pure tt) ≡ r
continue-pure (ok u, s) = refl
continue-pure (err x, s) = refl
continue-pure (panic, s) = refl

-- The last block starts from a state of its own, whatever the block is.
abbrev pub Starts : (EcBlock → Outcome) → EcBlock → State → Type 0
Starts run e t =
    (t0 : State) × (initialize_e_credit_map e t0 ≡ (ok tt, t))
    × ((b : EcBlock) (t' : State)
        → initialize_e_credit_map b t0 ≡ (ok tt, t')
        → run b ≡ (ok tt, t'))

continue-Starts :
    (r : Outcome) (f : EcBlock → Step) (e : EcBlock) (t : State)
    → ((s : State) → f e s ≡ (ok tt, t) → Starts (λ b. f b s) e t)
    → continue r (λ _. f e) ≡ (ok tt, t)
    → Starts (λ b. continue r (λ _. f b)) e t
continue-Starts (ok u, s) f e t k h = k s h
continue-Starts (err x, s) f e t k h = absurd (err_not_ok (ap (λ (o : Outcome). o.0) h))
continue-Starts (panic, s) f e t k h = absurd (panic_not_ok (ap (λ (o : Outcome). o.0) h))

pub last-Starts :
    (blocks : List EcBlock) (e : EcBlock) (s t : State)
    → recount_blocks (blocks ++ e ∷ []) s ≡ (ok tt, t)
    → Starts (λ b. recount_blocks (blocks ++ b ∷ []) s) e t
unfolding recount_blocks
last-Starts [] e s t h = (
  s,
  sym (continue-pure (initialize_e_credit_map e s)) ∙ h,
  λ b t' k. continue-pure (initialize_e_credit_map b s) ∙ k,
)
last-Starts (block ∷ blocks) e s t h =
    continue-Starts (initialize_e_credit_map block s) (λ b. recount_blocks (blocks ++ b ∷ [])) e t
      (λ s'. last-Starts blocks e s' t) h
