-- ===== src/Merkle/Tests.antt =====
-- A run on three hashes of common/merkle.go.
use factom_code.Common.{
  ℕ, ◌*◌, ◌^◌, ◌≤◌, ◌<◌, ◌≡◌, ◌⊎◌, some, List, [], ◌∷◌, ◌++◌, length, replicate, take,
}
use factom_code.Common.Exec.{ok, panic}
use factom_code.Hash.{Hash}
use factom_code.Merkle.{build_merkle_tree_store}
use factom_code.Merkle.Queue.{Node, merkle_root}
use factom_code.Merkle.Root.{last_node, leaves, build_merkle_tree_store_lem}

-- A function in the place of SHA-256.
abbrev sha_256 : List ℕ → List ℕ
sha_256 bytes = take 32 (bytes ++ replicate 32 0)

abbrev hashes : List Hash
hashes = replicate 32 1 ∷ replicate 32 2 ∷ replicate 32 3 ∷ []

build_merkle_tree_store_lem_example :
    ((hashes ≡ []) × (build_merkle_tree_store sha_256 hashes ≡ panic))
    ⊎ ((k : ℕ) × (mrs : List Node) × (length hashes ≤ 2 ^ k)
        × (2 ^ k < length hashes * 2)
        × (build_merkle_tree_store sha_256 hashes ≡ ok mrs)
        × (last_node sha_256 mrs ≡ some (merkle_root sha_256 k (leaves sha_256 k hashes))))
build_merkle_tree_store_lem_example = build_merkle_tree_store_lem sha_256 hashes
