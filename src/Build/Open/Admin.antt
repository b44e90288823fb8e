-- ===== src/Build/Open/Admin.antt =====
-- process/processor.go and process/init.go: the open admin block after a restart.
use factom_code.Common.{
  ℕ, ◌+◌, ◌-◌, ◌%◌, ◌^◌, ◌<◌, ◌≡◌, Bool-cases, inl, inr, refl, sym, ap, ◌∙◌, arith, false, Option,
  none, some, List, [], ◌∷◌, length, get_elem?, ◌==◌,
}
use mathlib.Core.Path.{subst}
use factom_code.Common.Exec.{Result, ok, panic, and_then, and_then-eq-ok, ok_injective}
use factom_code.Hash.{Hash, sha_512_half}
use factom_code.AdminBlock.{
  AdminBlock, CreateError, marshal, created, ledger_key_mr, partial_hash_of, create_admin_block,
}
use factom_code.Build.{or_same}
use factom_code.Build.Open.{Open, or_panic, counted, new_admin_block, open_admin_chain}

panic_not_ok : {A : Type 0} (a : A) → ◌≡◌ {A = Result CreateError A} panic (ok a) → ⊥
panic_not_ok a h = cc

full_of :
    (x h : Hash) (c b : AdminBlock)
    → c.full_hash ≡ some x
    → ◌≡◌ {A = Hash × AdminBlock} (x, c) (h, b)
    → b.full_hash ≡ some h
full_of x h c b e q =
    sym (ap (λ (r : Hash × AdminBlock). r.1.full_hash) q)
    ∙ e
    ∙ ap (λ (r : Hash × AdminBlock). some r.0) q

module _ (sha_512 : List ℕ → List ℕ) where
  -- A hash that was taken is kept.
  full_hash_kept :
      (b b' : AdminBlock) (h : Hash)
      → ledger_key_mr sha_512 {E = CreateError} b ≡ ok (h, b')
      → b'.full_hash ≡ some h
  unfolding ledger_key_mr
  full_hash_kept b b' h k = go b.full_hash refl
    where
      go : (o : Option Hash) → b.full_hash ≡ o → b'.full_hash ≡ some h
      go (some x) e =
          full_of x h (record b { full_hash = some x }) b' refl
            (ok_injective (x, record b { full_hash = some x }) (h, b') (rw e at k))
      go none e =
          let (p, m, q) = and_then-eq-ok (marshal (record b { full_hash = none })) _ (rw e at k) in
          full_of (sha_512_half sha_512 p) h _ b' refl (ok_injective _ (h, b') q)

  ledger_key_mr-again :
      (b : AdminBlock) (h : Hash)
      → b.full_hash ≡ some h
      → ledger_key_mr sha_512 {E = CreateError} b ≡ ok (h, b)
  unfolding ledger_key_mr
  ledger_key_mr-again b h e = rw e

  create_admin_block_lem :
      (id : Hash) (n : ℕ) (b : AdminBlock) (h : Hash)
      → b.full_hash ≡ some h
      → (n == 0) ≡ false
      → create_admin_block sha_512 id n (some b) ≡ ok (created id n h, some b)
  unfolding create_admin_block
  create_admin_block_lem id n b h e z = rw (z, ledger_key_mr-again b h e)

  open_admin_chain_lem :
      (sha_256 : List ℕ → List ℕ) (id : Hash) (blocks : List AdminBlock) (n : ℕ) (b : AdminBlock)
      (h : Hash)
      → b.full_hash ≡ some h
      → get_elem? blocks n ≡ some b
      → open_admin_chain sha_256 sha_512 id blocks (n + 1)
        ≡ ok (record { next_block = created id (n + 1) h; next_block_height = n + 1 })
  unfolding open_admin_chain
  open_admin_chain_lem sha_256 id [] n b h e k = cc
  open_admin_chain_lem sha_256 id (x ∷ xs) n b h e k =
      let back : n + 1 - 1 ≡ n = omega arith in
      let later : (n + 1 == 0) ≡ false = ground arith in
      let some_block : (length (x ∷ xs) == 0) ≡ false = ground arith in
      rw (some_block, later, back, k, create_admin_block_lem id (n + 1) b h e later)

  reopened :
      (sha_256 : List ℕ → List ℕ) (id : Hash) (n : ℕ) (chain' : Open AdminBlock)
      (b sealed : AdminBlock) (h : Hash) (blocks : List AdminBlock)
      → b.full_hash ≡ some h
      → n + 1 < 2 ^ 32
      → and_then {B = AdminBlock × Open AdminBlock}
          (or_panic {F = CreateError} (create_admin_block sha_512 id ((n + 1) % 2 ^ 32) (some b)))
          (λ r.
            ok (or_same b r.1, record { next_block = r.0; next_block_height = (n + 1) % 2 ^ 32 }))
        ≡ ok (sealed, chain')
      → get_elem? blocks n ≡ some sealed
      → open_admin_chain sha_256 sha_512 id blocks chain'.next_block_height ≡ ok chain'
  reopened sha_256 id n chain' b sealed h blocks e small k there =
      let modulo : (n + 1) % 2 ^ 32 ≡ n + 1 = ground arith in
      let later : (n + 1 == 0) ≡ false = ground arith in
      let after : Open AdminBlock = record {
        next_block = created id (n + 1) h;
        next_block_height = n + 1;
      } in
      let q : ◌≡◌ {A = AdminBlock × Open AdminBlock} (b, after) (sealed, chain') =
        ok_injective (b, after) (sealed, chain')
          (rw (modulo, create_admin_block_lem id (n + 1) b h e later) at k) in
      subst
        (λ (r : AdminBlock × Open AdminBlock).
          get_elem? blocks n ≡ some r.0
          → open_admin_chain sha_256 sha_512 id blocks r.1.next_block_height ≡ ok r.1)
        q (open_admin_chain_lem sha_256 id blocks n b h e) there

  -- After newAdminBlock, initAChain opens the block that newAdminBlock opened, where the sealed block
  -- stands in the sorted blocks at its height and keeps its hashes.
  pub reopened_admin_chain :
      (sha_256 : List ℕ → List ℕ) (id : Hash) (db_height : ℕ) (chain chain' : Open AdminBlock)
      (sealed : AdminBlock) (blocks : List AdminBlock)
      → new_admin_block sha_256 sha_512 id db_height chain ≡ ok (sealed, chain')
      → chain.next_block_height + 1 < 2 ^ 32
      → get_elem? blocks chain.next_block_height ≡ some sealed
      → open_admin_chain sha_256 sha_512 id blocks chain'.next_block_height ≡ ok chain'
  unfolding new_admin_block open_admin_chain
  reopened_admin_chain sha_256 id db_height chain chain' sealed blocks h small there =
      elim (Bool-cases (chain.next_block_height == db_height)) [
        | inl same ↦
            let (r1, partial, h1) =
              and_then-eq-ok (partial_hash_of sha_256 (counted chain.next_block)) _
                (rw same at h) in
            let (r2, full, h2) = and_then-eq-ok (ledger_key_mr sha_512 r1.1) _ h1 in
            reopened sha_256 id chain.next_block_height chain' r2.1 sealed r2.0 blocks
              (full_hash_kept r1.1 r2.1 r2.0 full) small h2 there
        | inr other ↦ absurd (panic_not_ok (sealed, chain') (rw other at h))
      ]
