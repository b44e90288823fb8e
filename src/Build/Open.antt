-- ===== src/Build/Open.antt =====
-- process/processor.go: newEntryCreditBlock, newAdminBlock and newEntryBlock, which seal the open block
-- of a chain and open the next one; process/init.go: the blocks that a start opens. The locks, the
-- stores and the exports are left out.
pub mod Reopened
pub mod Admin
pub mod Entries
mod Tests
use factom_code.Common.{
  ℕ, ◌+◌, ◌-◌, ◌%◌, ◌^◌, Bool, true, false, not, Option, none, some, List, [], ◌∷◌, ◌++◌, length,
  get_elem?, ◌==◌, ◌||◌, if◌then◌else◌,
}
use factom_code.Common.Exec.{Result, ok, err, panic, and_then}
use factom_code.Buffer.{ReadError}
use factom_code.Hash.{Hash}
use factom_code.Credit.Numbers.{MinuteNumber, ServerIndexNumber}
use factom_code.EcBlock.{EcBlock, new_ec_block, add_entry, server_index_number, minute_number}
use factom_code.EcBlock.Codec as EcCodec
use factom_code.EcBlock.Codec.{build_header, next_ec_block}
use factom_code.AdminBlock.{
  AdminBlock, ABlockHeader, CreateError, marshalled_size, marshalled_header_size, partial_hash_of,
  ledger_key_mr, create_admin_block,
}
use factom_code.EBlock.{EBlock, EBlockHeader, make_eblock}
use factom_code.Build.{or_same}

-- The open block of a chain and its height.
pub record Open (B : Type 0) : Type 0 where
  pub next_block : B
  pub next_block_height : ℕ

-- The loop of initECChain: the markers of the minutes.
abbrev pub add_minutes : List ℕ → EcBlock → EcBlock
add_minutes [] e = e
add_minutes (i ∷ is) e = add_minutes is (add_entry e (minute_number (record { number = i })))

-- The first open block that initECChain makes.
abbrev pub first_ec_block : ServerIndexNumber → EcBlock
first_ec_block server_index =
    add_minutes (1 ∷ 2 ∷ 3 ∷ 4 ∷ 5 ∷ 6 ∷ 7 ∷ 8 ∷ 9 ∷ 10 ∷ [])
      (add_entry new_ec_block (server_index_number server_index))

-- panic(err) behind `if err != nil`.
abbrev pub or_panic : {E F A : Type 0} → Result E A → Result F A
or_panic (ok a) = ok a
or_panic (err e) = panic
or_panic panic = panic

-- The header of an open admin block, filled in before it is hashed.
abbrev pub counted : AdminBlock → AdminBlock
counted b = record b {
  header = record b.header {
    message_count = length b.ab_entries % 2 ^ 32;
    body_size = (marshalled_size b + 2 ^ 64 - marshalled_header_size b.header) % 2 ^ 32;
  };
}

-- The header of an open entry block, filled in by newEntryBlock.
abbrev pub with_height : ℕ → EBlock → EBlock
with_height db_height b = record b {
  header = record b.header { eb_height = db_height; entry_count = length b.eb_entries % 2 ^ 32 };
}

module _ (sha_256 : List ℕ → List ℕ) where
  -- newEntryCreditBlock(chain): the sealed block, and the chain with the next one, whose first entry
  -- is the server's index.
  unfoldable pub new_entry_credit_block :
      ServerIndexNumber → Open EcBlock → Result ReadError (EcBlock × Open EcBlock)
  new_entry_credit_block server_index chain =
      and_then (build_header sha_256 chain.next_block) λ block.
        and_then (next_ec_block sha_256 block) λ (next, sealed). ok (
          sealed,
          record {
            next_block = add_entry next (server_index_number server_index);
            next_block_height = (chain.next_block_height + 1) % 2 ^ 32;
          },
        )

  -- NextECBlock(&ecBlocks[i]), which panics out of range.
  abbrev pub next_of : ℕ → Option EcBlock → Result ReadError (Open EcBlock)
  next_of height none = panic
  next_of height (some prev) =
      and_then (next_ec_block sha_256 prev)
        λ (next, prev'). ok (record { next_block = next; next_block_height = height })

  -- The end of initECChain, from the sorted blocks and dchain.NextDBHeight.
  unfoldable pub open_ec_chain :
      ServerIndexNumber → List EcBlock → ℕ → Result ReadError (Open EcBlock)
  open_ec_chain server_index [] height =
      ok (record { next_block = first_ec_block server_index; next_block_height = 0 })
  open_ec_chain server_index (b ∷ bs) height =
      if height == 0
      then ok (record { next_block = first_ec_block server_index; next_block_height = 0 })
      else next_of height (get_elem? (b ∷ bs) (height - 1))

  -- newEntryBlock(chain), for the chain's ID and dchain.NextDBHeight: the sealed block, or nil where
  -- no block is open or it has no entry, and the chain.
  unfoldable pub new_entry_block :
      Hash → ℕ → Open (Option EBlock) → Result ReadError (Option EBlock × Open (Option EBlock))
  new_entry_block chain_id db_height chain = elim chain.next_block [
    | none ↦ ok (none, chain)
    | some b ↦
        let height = (chain.next_block_height + 1) % 2 ^ 32 in
        let block = with_height db_height b in
        if length b.eb_entries == 0
        then ok (none, chain)
        else and_then (make_eblock sha_256 chain_id height (some block)) λ (next, prev).
          ok (
            some (or_same block prev),
            record { next_block = some next; next_block_height = height },
          )
  ]

  module _ (sha_512 : List ℕ → List ℕ) where
    -- newAdminBlock(chain), for the chain's ID and dchain.NextDBHeight: the sealed block, with the
    -- hashes that it keeps, and the chain.
    unfoldable pub new_admin_block :
        Hash → ℕ → Open AdminBlock → Result CreateError (AdminBlock × Open AdminBlock)
    new_admin_block chain_id db_height chain =
        let height = (chain.next_block_height + 1) % 2 ^ 32 in
        if not (chain.next_block_height == db_height)
        then panic
        else and_then (partial_hash_of sha_256 (counted chain.next_block)) λ (partial, b1).
          and_then (ledger_key_mr sha_512 b1) λ (full, b2).
            and_then (or_panic (create_admin_block sha_512 chain_id height (some b2)))
              λ (next, prev).
                ok (or_same b2 prev, record { next_block = next; next_block_height = height })

    -- CreateAdminBlock(achain, &aBlocks[i], 10), which panics out of range; its error leaves a nil
    -- block, which nothing reads before it panics.
    abbrev pub next_admin_of : Hash → ℕ → Option AdminBlock → Result CreateError (Open AdminBlock)
    next_admin_of chain_id height none = panic
    next_admin_of chain_id height (some prev) =
        and_then (create_admin_block sha_512 chain_id height (some prev))
          λ (next, prev'). ok (record { next_block = next; next_block_height = height })

    -- The end of initAChain, from the sorted blocks and dchain.NextDBHeight.
    unfoldable pub open_admin_chain :
        Hash → List AdminBlock → ℕ → Result CreateError (Open AdminBlock)
    open_admin_chain chain_id blocks height =
        if length blocks == 0 || height == 0
        then (and_then (create_admin_block sha_512 chain_id 0 none)
            λ (next, prev). ok (record { next_block = next; next_block_height = 0 }))
        else next_admin_of chain_id height (get_elem? blocks (height - 1))
