-- ===== src/Merkle.antt =====
-- common/merkle.go: the Merkle tree of hashes as a linear array. A nil pointer is `none`. SHA-256 is
-- a parameter.
pub mod Power
pub mod Queue
pub mod Root
pub mod Total
mod Tests
use factom_code.Common.{
  ℕ, zero, suc, ◌+◌, ◌-◌, ◌*◌, ◌/◌, ◌^◌, bit_and, Option, none, some, List, [], ◌∷◌, ◌++◌, length,
  get_elem?, set, replicate, copy, ltb, ◌==◌, if◌then◌else◌,
}
use factom_code.Common.Exec.{Result, ok, panic}
use factom_code.Buffer.{ReadError}
use factom_code.Hash.{Hash, sha}

-- uint(math.Log2(float64(n))), for a number that halving brings to 1.
pub log_2 : ℕ → ℕ → ℕ
log_2 zero n = 0
log_2 (suc fuel) n = let half = log_2 fuel (n / 2) in if ltb n 2 then 0 else half + 1

-- nextPowerOfTwo(n)
unfoldable pub next_power_of_two : ℕ → ℕ
unfolding log_2
next_power_of_two n = if bit_and n (n - 1) == 0 then n else 2 ^ (log_2 n n + 1)

module _ (sha_256 : List ℕ → List ℕ) where
  -- hashMerkleBranches(left, right), on 32 bytes each.
  unfoldable pub hash_merkle_branches : Hash → Hash → Hash
  hash_merkle_branches left right =
      sha sha_256 (copy (replicate 32 0) left ++ copy (replicate 32 0) right)

  -- The switch of the loop: the node over two others, of which the second may be nil, or both.
  abbrev pub parent : Option Hash → Option Hash → Option Hash
  parent none right = none
  parent (some left) none = some (hash_merkle_branches left left)
  parent (some left) (some right) = some (hash_merkle_branches left right)

  -- merkles[i], inside the array.
  abbrev pub at_index : Option (Option Hash) → Option Hash
  at_index none = none
  at_index (some node) = node

  -- The loop over i, for the rounds that are left.
  unfoldable pub fill : ℕ → ℕ → ℕ → List (Option Hash) → List (Option Hash)
  fill zero i offset merkles = merkles
  fill (suc rounds) i offset merkles = fill rounds (i + 2) (offset + 1) (
      set merkles offset
        (parent (at_index (get_elem? merkles i)) (at_index (get_elem? merkles (i + 1)))))

  abbrev pub pointers : List Hash → List (Option Hash)
  pointers [] = []
  pointers (h ∷ hs) = some h ∷ pointers hs

  -- BuildMerkleTreeStore(hashes). No hash at all makes an array of size -1, which panics.
  unfoldable pub build_merkle_tree_store : List Hash → Result ReadError (List (Option Hash))
  unfolding next_power_of_two fill
  build_merkle_tree_store hashes =
      let next_pot = next_power_of_two (length hashes) in
      if next_pot == 0
      then panic
      else ok (
          fill (next_pot - 1) 0 next_pot
            (pointers hashes ++ replicate (next_pot * 2 - 1 - length hashes) none))
