-- ===== src/Build/Open/Entries.antt =====
-- process/init.go: initEChainFromDB, and the open entry block after a restart. Where a client has no
-- first entry of the chain, the source goes on to look it up; that is left out.
use factom_code.Common.{
  ℕ, ◌+◌, ◌%◌, ◌^◌, ◌≡◌, Bool-cases, inl, inr, refl, sym, ap, ◌∙◌, arith, Bool, true, false, not,
  Option, none, some, List, [], ◌∷◌, ◌++◌, length, length-append, ◌==◌, if◌then◌else◌,
}
use mathlib.Core.Path.{subst}
use factom_code.Common.Exec.{Result, ok, panic, and_then, and_then-eq-ok, ok_injective}
use factom_code.Buffer.{ReadError}
use factom_code.Hash.{Hash, sha}
use factom_code.EBlock.{EBlock, new_eblock, new_eblock_header, make_eblock, key_mr, build_header}
use factom_code.EBlock.Rebuilt.{bytes_of, key_of, hash_built, key_mr_built}
use factom_code.Build.{or_same}
use factom_code.Build.Open.{Open, with_height, new_entry_block}

-- The loop over the sorted blocks: the i-th one has the number i, or the call panics.
unfoldable pub check_sequences : ℕ → List EBlock → Bool
check_sequences i [] = true
check_sequences i (b ∷ bs) =
    let rest = check_sequences (i + 1) bs in
    if i % 2 ^ 32 == b.header.eb_sequence then rest else false

-- (*eBlocks)[len(*eBlocks)-1], where there is a block.
unfoldable pub last_eblock : List EBlock → Option EBlock
last_eblock [] = none
last_eblock (b ∷ []) = some b
last_eblock (b ∷ (c ∷ bs)) = last_eblock (c ∷ bs)

last_eblock-append : (before : List EBlock) (b : EBlock) → last_eblock (before ++ b ∷ []) ≡ some b
unfolding last_eblock
last_eblock-append [] b = refl
last_eblock-append (a ∷ []) b = refl
last_eblock-append (a ∷ (c ∷ before)) b = last_eblock-append (c ∷ before) b

no_block :
    {C : Type 0} (b : EBlock) (x y : C)
    → ◌≡◌ {A = Result ReadError (Option EBlock × C)} (ok (none, x)) (ok (some b, y))
    → ⊥
no_block {C} b x y h =
    none_not_some (ap (λ (r : Option EBlock × C). r.0) (ok_injective (none, x) (some b, y) h))
  where
    none_not_some : ◌≡◌ {A = Option EBlock} none (some b) → ⊥
    none_not_some h = cc

module _ (sha_256 : List ℕ → List ℕ) where
  -- initEChainFromDB(chain), for the chain's ID and its sorted blocks.
  unfoldable pub open_echain : Hash → List EBlock → Result ReadError (Open (Option EBlock))
  unfolding check_sequences last_eblock
  open_echain chain_id blocks =
      let height = length blocks % 2 ^ 32 in
      if not (check_sequences 0 blocks)
      then panic
      else and_then (make_eblock sha_256 chain_id height (last_eblock blocks))
          λ (next, prev). ok (record { next_block = some next; next_block_height = height })

  -- MakeEBlock of a block: the next one depends on the block with its header built.
  abbrev next_after : Hash → ℕ → EBlock → EBlock
  next_after chain_id height e = record new_eblock {
    header = record new_eblock_header {
      chain_id = chain_id;
      prev_key_mr = key_of sha_256 e;
      prev_ledger_key_mr = sha sha_256 (bytes_of sha_256 e);
      eb_sequence = height;
    };
  }

  abbrev Next : Type 0
  Next = EBlock × Option EBlock

  make_eblock_lem :
      (chain_id : Hash) (height : ℕ) (b e : EBlock)
      → build_header sha_256 b ≡ ok e
      → make_eblock sha_256 chain_id height (some b) ≡ ok (next_after chain_id height e, some e)
  unfolding make_eblock key_mr
  make_eblock_lem chain_id height b e built = rw (built, hash_built sha_256 b e built)

  make_eblock-again :
      (chain_id : Hash) (height : ℕ) (b e : EBlock)
      → build_header sha_256 b ≡ ok e
      → make_eblock sha_256 chain_id height (some e) ≡ ok (next_after chain_id height e, some e)
  unfolding make_eblock
  make_eblock-again chain_id height b e built =
      rw (key_mr_built sha_256 b e built, hash_built sha_256 b e built)

  -- What a call of MakeEBlock that succeeds did.
  make_eblock-eq-ok :
      (chain_id : Hash) (height : ℕ) (b : EBlock) (r : Next)
      → make_eblock sha_256 chain_id height (some b) ≡ ok r
      → (e : EBlock) × (build_header sha_256 b ≡ ok e)
        × ◌≡◌ {A = Next} (next_after chain_id height e, some e) r
  unfolding make_eblock key_mr
  make_eblock-eq-ok chain_id height b r h =
      let (k, keyed, r1) = and_then-eq-ok (key_mr sha_256 b) _ h in
      let (e, built, r2) = and_then-eq-ok (build_header sha_256 b) _ keyed in
      (
        e,
        built,
        ok_injective (next_after chain_id height e, some e) r
            (sym (make_eblock_lem chain_id height b e built) ∙ h),
      )

  abbrev After : Type 0
  After = EBlock × Open (Option EBlock)

  -- The sealed block and the chain that newEntryBlock leaves.
  abbrev sealed_as : Hash → ℕ → EBlock → After
  sealed_as chain_id height e =
      (e, record { next_block = some (next_after chain_id height e); next_block_height = height })

  open_echain_lem :
      (chain_id : Hash) (n : ℕ) (b e : EBlock) (before : List EBlock)
      → build_header sha_256 b ≡ ok e
      → length before ≡ n
      → check_sequences 0 (before ++ e ∷ []) ≡ true
      → open_echain chain_id (before ++ e ∷ []) ≡ ok (sealed_as chain_id ((n + 1) % 2 ^ 32) e).1
  unfolding open_echain
  open_echain_lem chain_id n b e before built at_end numbered =
      let count : length (before ++ e ∷ []) ≡ n + 1 =
        omega (arith, length-append before (e ∷ [])) in
      rw (
        numbered,
        last_eblock-append before e,
        count,
        make_eblock-again chain_id ((n + 1) % 2 ^ 32) b e built,
      )

  abbrev sealed_or : EBlock → Option EBlock × Open (Option EBlock) → After
  sealed_or b (none, c) = (b, c)
  sealed_or b (some e, c) = (e, c)

  abbrev made_from : ℕ → EBlock → Next → After
  made_from height b (next, prev) =
      (or_same b prev, record { next_block = some next; next_block_height = height })

  new_entry_block-eq-ok :
      (chain_id : Hash) (db_height : ℕ) (chain chain' : Open (Option EBlock)) (sealed : EBlock)
      → new_entry_block sha_256 chain_id db_height chain ≡ ok (some sealed, chain')
      → (b e : EBlock) × (build_header sha_256 b ≡ ok e)
        × ◌≡◌ {A = After}
            (sealed_as chain_id ((chain.next_block_height + 1) % 2 ^ 32) e)
            (sealed, chain')
  unfolding new_entry_block
  new_entry_block-eq-ok chain_id db_height chain chain' sealed h = go chain.next_block refl
    where
      go :
          (o : Option EBlock)
          → chain.next_block ≡ o
          → (b e : EBlock) × (build_header sha_256 b ≡ ok e)
            × ◌≡◌ {A = After}
                (sealed_as chain_id ((chain.next_block_height + 1) % 2 ^ 32) e)
                (sealed, chain')
      go none e = absurd (no_block sealed _ chain' (rw e at h))
      go (some b) e = elim (Bool-cases (length b.eb_entries == 0)) [
        | inl empty ↦ absurd (no_block sealed _ chain' (rw (e, empty) at h))
        | inr filled ↦
            let (r, made, r1) =
              and_then-eq-ok
                (make_eblock sha_256 chain_id ((chain.next_block_height + 1) % 2 ^ 32)
                  (some (with_height db_height b)))
                _ (rw (e, filled) at h) in
            let (e1, built, q) =
              make_eblock-eq-ok chain_id ((chain.next_block_height + 1) % 2 ^ 32)
                (with_height db_height b) r made in
            let height = (chain.next_block_height + 1) % 2 ^ 32 in
            let from = made_from height (with_height db_height b) in
            (
              with_height db_height b,
              e1,
              built,
              ap from q ∙ ap (sealed_or b) (ok_injective (some (from r).0, (from r).1) _ r1),
            )
      ]

  -- After newEntryBlock has sealed a block, initEChainFromDB opens the block that newEntryBlock
  -- opened, where the sealed block is the last of the stored blocks and these are numbered from 0.
  pub reopened_echain :
      (chain_id : Hash) (db_height : ℕ) (chain chain' : Open (Option EBlock)) (sealed : EBlock)
      (before : List EBlock)
      → new_entry_block sha_256 chain_id db_height chain ≡ ok (some sealed, chain')
      → length before ≡ chain.next_block_height
      → check_sequences 0 (before ++ sealed ∷ []) ≡ true
      → open_echain chain_id (before ++ sealed ∷ []) ≡ ok chain'
  reopened_echain chain_id db_height chain chain' sealed before h at_end numbered =
      let (b, e, built, q) = new_entry_block-eq-ok chain_id db_height chain chain' sealed h in
      subst
        (λ (r : After).
          check_sequences 0 (before ++ r.0 ∷ []) ≡ true
          → open_echain chain_id (before ++ r.0 ∷ []) ≡ ok r.1)
        q (open_echain_lem chain_id chain.next_block_height b e before built at_end) numbered
