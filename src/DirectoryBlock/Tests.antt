-- ===== src/DirectoryBlock/Tests.antt =====
-- Runs on directory blocks of common/directoryBlock.go.
use factom_code.Common.{ℕ, ◌≡◌, refl, arith, some, List, [], ◌∷◌, ◌++◌, replicate}
use factom_code.Common.Exec.{ok, and_then}
use factom_code.Buffer.{ReadError}
use factom_code.Hash.{Hash}
use factom_code.DirectoryBlock.{DirectoryBlock, new_directory_block, with_body_mr, marshal}
use factom_code.DirectoryBlock.Codec.{unmarshal, unmarshal-marshal_directory_block}
use factom_code.DirectoryBlock.Chain.{DChain, created, is_there, is_block_existing}
use factom_code.DirectoryBlock.Chain.Stored.{IsValid, block_at, replay, add_all, add_all_refines}

abbrev hash : ℕ → Hash
hash n = replicate 32 n

abbrev block : DirectoryBlock
block = record (created 7 (hash 3) (hash 4)) {
  header = record (created 7 (hash 3) (hash 4)).header { block_count = 1 };
  db_entries = record { chain_id = some (hash 1); key_mr = some (hash 2) } ∷ [];
}

unmarshal-marshal_directory_block_example :
    and_then (marshal {E = ReadError} block) (λ p. unmarshal new_directory_block (p ++ 5 ∷ []))
    ≡ ok (
      record new_directory_block {
        header = with_body_mr block.header;
        db_entries = block.db_entries;
      },
      5 ∷ [],
    )
unmarshal-marshal_directory_block_example =
    unmarshal-marshal_directory_block new_directory_block block (5 ∷ [])
      (record {
        network_id = omega arith;
        body_mr = refl;
        prev_key_mr = refl;
        prev_ledger_key_mr = refl;
        timestamp = omega arith;
        db_height = omega arith;
        block_count = omega arith;
      })
      (((hash 1, refl, refl), (hash 2, refl, refl)), tt) refl

-- A chain with a capacity of one, and blocks that leave a gap.
abbrev empty : DChain
empty = record { blocks = []; capacity = 1; next_block = new_directory_block; next_db_height = 0 }

abbrev blocks : List DirectoryBlock
blocks = created 0 (hash 0) (hash 0) ∷ block ∷ created 3 (hash 1) (hash 1) ∷ []

add_all_refines_example :
    (c' : DChain) × (add_all blocks empty ≡ ok c')
    × IsValid c'
    × (block_at c' ≡ replay blocks (block_at empty))
    × ((height : ℕ)
        → is_block_existing c' height ≡ is_there (some (replay blocks (block_at empty) height)))
add_all_refines_example =
    add_all_refines blocks empty
      (record { fits = omega arith; room = omega arith; small = omega arith })
      (omega arith, (omega arith, (omega arith, tt)))
