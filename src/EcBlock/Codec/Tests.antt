-- ===== src/EcBlock/Codec/Tests.antt =====
-- A run on an Entry Credit block of common/ecblock.go.
use factom_code.Common.{ℕ, ◌≡◌, refl, arith, List, [], ◌∷◌, ◌++◌, replicate, take, copy}
use factom_code.Common.Exec.{ok}
use factom_code.Hash.{sha, zero_hash}
use factom_code.EcBlock.{EcBlock, minute_number, new_ec_block, new_ec_block_header}
use factom_code.EcBlock.Codec.{marshal, marshal_body, marshal_header, build_header, unmarshal}
use factom_code.EcBlock.Codec.Header.{IsSized}
use factom_code.EcBlock.Codec.Entries.{IsWritable}
use factom_code.EcBlock.Codec.RoundTrip.{unmarshal-marshal_ec_block}

-- A function in the place of SHA-256.
abbrev sha_256 : List ℕ → List ℕ
sha_256 bytes = take 32 (bytes ++ replicate 32 0)

abbrev block : EcBlock
block = record new_ec_block { entries = minute_number (record { number = 7 }) ∷ [] }

abbrev built : EcBlock
built = record block {
  header = record new_ec_block_header {
    body_hash = copy zero_hash (1 ∷ 7 ∷ replicate 30 0);
    object_count = 1;
    body_size = 2;
  };
}

writes : marshal sha_256 block ≡ ok (marshal_header built.header ++ 1 ∷ 7 ∷ [], built)
unfolding marshal build_header marshal_body sha
writes = refl

built-IsSized : IsSized built.header
unfolding copy
built-IsSized = omega arith

unmarshal-marshal_ec_block_example :
    unmarshal new_ec_block ((marshal_header built.header ++ 1 ∷ 7 ∷ []) ++ 5 ∷ [])
    ≡ (ok (5 ∷ []), record { recv = built; buf = 5 ∷ []; hash = zero_hash })
unfolding IsWritable
unmarshal-marshal_ec_block_example =
    unmarshal-marshal_ec_block sha_256 block built (marshal_header built.header ++ 1 ∷ 7 ∷ [])
      (5 ∷ []) writes built-IsSized (tt, tt)
