-- ===== src/Build/Open/Reopened.antt =====
-- process/processor.go and process/init.go: the open block after a restart, against the one that the
-- server had before it.
use factom_code.Common.{
  ℕ, ◌+◌, ◌-◌, ◌%◌, ◌^◌, ◌<◌, ◌≡◌, refl, sym, ap, ◌∙◌, arith, false, some, List, [], ◌∷◌, ◌++◌,
  length, get_elem?, ◌==◌,
}
use factom_code.Common.Exec.{Result, ok, and_then-eq-ok, ok_injective}
use mathlib.Core.Path.{subst}
use factom_code.Buffer.{ReadError}
use factom_code.Hash.{sha}
use factom_code.Credit.Numbers.{ServerIndexNumber}
use factom_code.EcBlock.{EcBlock, new_ec_block, new_ec_block_header, add_entry, server_index_number}
use factom_code.EcBlock.Codec.{
  build_header, marshal_body, next_ec_block, marshal, header_hash, marshal_header,
}
use factom_code.Build.Open.{Open, new_entry_credit_block, open_ec_chain}

module _ (sha_256 : List ℕ → List ℕ) where
  abbrev headed : EcBlock → List ℕ → EcBlock
  headed e p = record e {
    header = record e.header {
      body_hash = sha sha_256 p;
      object_count = length e.entries;
      body_size = length p;
    };
  }

  -- NextECBlock of a block whose header is built leaves it, and opens an empty block.
  abbrev Opens : EcBlock → Type 0
  Opens e = (next : EcBlock) × (next_ec_block sha_256 e ≡ ok (next, e)) × (next.entries ≡ [])

  headed-Opens : (e : EcBlock) (p : List ℕ) → marshal_body e.entries ≡ ok p → Opens (headed e p)
  unfolding build_header marshal
  headed-Opens e p body =
      let next : EcBlock = record new_ec_block {
        header = record new_ec_block_header {
          prev_header_hash = header_hash sha_256 (headed e p);
          prev_ledger_key_mr = sha sha_256 (marshal_header (headed e p).header ++ p);
          eb_height = (e.header.eb_height + 1) % 2 ^ 32;
        };
      } in
      (next, rw (body, body), refl)

  build_header-Opens : (e e' : EcBlock) → build_header sha_256 e ≡ ok e' → Opens e'
  unfolding build_header
  build_header-Opens e e' h =
      let (p, body, built) = and_then-eq-ok (marshal_body e.entries) _ h in
      subst Opens (ok_injective (headed e p) e' built) (headed-Opens e p body)

  open_ec_chain_lem :
      (index : ServerIndexNumber) (blocks : List EcBlock) (n : ℕ) (prev next prev' : EcBlock)
      → get_elem? blocks n ≡ some prev
      → next_ec_block sha_256 prev ≡ ok (next, prev')
      → open_ec_chain sha_256 index blocks (n + 1)
        ≡ ok (record { next_block = next; next_block_height = n + 1 })
  unfolding open_ec_chain
  open_ec_chain_lem index [] n prev next prev' h k = cc
  open_ec_chain_lem index (b ∷ bs) n prev next prev' h k =
      let back : n + 1 - 1 ≡ n = omega arith in
      let later : (n + 1 == 0) ≡ false = ground arith in rw (later, back, h, k)

  -- After newEntryCreditBlock, initECChain opens at the same height a block without entries: the one
  -- that newEntryCreditBlock opened is that block with the server's index added. The sealed block
  -- stands in the sorted blocks at its height, and the next height is below 2 ^ 32.
  pub reopened_ec_chain :
      (index : ServerIndexNumber) (chain chain' : Open EcBlock) (sealed : EcBlock)
      (blocks : List EcBlock)
      → new_entry_credit_block sha_256 index chain ≡ ok (sealed, chain')
      → chain.next_block_height + 1 < 2 ^ 32
      → get_elem? blocks chain.next_block_height ≡ some sealed
      → (b : EcBlock) × (open_ec_chain sha_256 index blocks chain'.next_block_height
          ≡ ok (record { next_block = b; next_block_height = chain'.next_block_height }))
        × (b.entries ≡ [])
        × (chain'.next_block ≡ add_entry b (server_index_number index))
  unfolding new_entry_credit_block
  reopened_ec_chain index chain chain' sealed blocks h small there =
      let (block, built, rest) = and_then-eq-ok (build_header sha_256 chain.next_block) _ h in
      let (next, opened, empty) = build_header-Opens chain.next_block block built in
      let opens : ◌≡◌ {A = Result ReadError (EcBlock × Open EcBlock)}
          (ok (
            block,
            record {
              next_block = add_entry next (server_index_number index);
              next_block_height = (chain.next_block_height + 1) % 2 ^ 32;
            },
          ))
          (ok (sealed, chain')) =
        (rw opened at rest) in
      let q = ok_injective _ (sealed, chain') opens in
      let same : sealed ≡ block = ap (λ (x : EcBlock × Open EcBlock). x.0) (sym q) in
      let height : chain'.next_block_height ≡ chain.next_block_height + 1 =
        ap (λ (x : EcBlock × Open EcBlock). x.1.next_block_height) (sym q) ∙ ground arith in
      (
        next,
        rw height (
            open_ec_chain_lem index blocks chain.next_block_height block next block
              (there ∙ ap some same) opened),
        empty,
        ap (λ (x : EcBlock × Open EcBlock). x.1.next_block) (sym q),
      )
