-- ===== src/EBlock/Tests.antt =====
-- A run on an entry block of common/eblock.go.
use factom_code.Common.{ℕ, ◌≡◌, refl, arith, List, [], ◌∷◌, ◌++◌, replicate, take, copy}
use factom_code.Common.Exec.{ok}
use factom_code.Hash.{sha}
use factom_code.Merkle.{build_merkle_tree_store, next_power_of_two, fill, hash_merkle_branches}
use factom_code.EBlock.{
  EBlock, new_eblock, new_eblock_header, marshal, marshal_body, marshal_header, build_header,
  unmarshal,
}
use factom_code.EBlock.RoundTrip.{unmarshal-marshal_eblock}

-- A function in the place of SHA-256.
abbrev sha_256 : List ℕ → List ℕ
sha_256 bytes = take 32 (bytes ++ replicate 32 0)

abbrev block : EBlock
block = record new_eblock { eb_entries = replicate 32 3 ∷ replicate 32 4 ∷ [] }

abbrev built : EBlock
built = record block {
  header = record new_eblock_header { body_mr = replicate 32 3; entry_count = 2 };
}

abbrev bytes : List ℕ
bytes = marshal_header built.header ++ marshal_body built.eb_entries

writes : marshal sha_256 block ≡ ok (bytes, built)
unfolding marshal build_header build_merkle_tree_store next_power_of_two fill hash_merkle_branches
    sha copy
writes = refl

unmarshal-marshal_eblock_example :
    ((unmarshal new_eblock (bytes ++ 5 ∷ [])).0 ≡ ok (5 ∷ []))
    × ((unmarshal new_eblock (bytes ++ 5 ∷ [])).1.recv ≡ built)
unmarshal-marshal_eblock_example =
    unmarshal-marshal_eblock sha_256 block built bytes (5 ∷ []) writes (omega arith) (omega arith)
      (refl, (refl, tt))
