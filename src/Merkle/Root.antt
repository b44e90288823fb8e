-- ===== src/Merkle/Root.antt =====
-- The linear array of common/merkle.go against a Merkle root defined level by level.
use factom_code.Common.{
  ◌^◌, ◌-◌, ◌*◌, ◌<◌, ◌≤◌, length-replicate, sym, ap, ℕ, zero, suc, ◌+◌, ◌≡◌, refl, sym, ap, ◌∙◌,
  arith, Option, none, some, List, [], ◌∷◌, ◌++◌, length, length-append, get_elem?, replicate,
  append_assoc,
}
use factom_code.Common.Exec.{ok, panic}
use factom_code.Common.{◌⊎◌, inl, inr}
use factom_code.Merkle.Power.{next_power_of_two_lem}
use factom_code.Common.{◌==◌, false}
use factom_code.Hash.{Hash}
use factom_code.Merkle.{fill, pointers, next_power_of_two, build_merkle_tree_store}
use factom_code.Merkle.Queue.{
  Node, get_elem?-append_self, fill_lem, run_root, positive, merkle_root,
}

module _ (sha_256 : List ℕ → List ℕ) where
  replicate_add :
      (a b c : ℕ) (x : Node) → c ≡ a + b → replicate c x ≡ replicate a x ++ replicate b x
  replicate_add zero b c x h = let same : c ≡ b = omega arith in ap (λ (n : ℕ). replicate n x) same
  replicate_add (suc a) b zero x h = absurd (omega arith)
  replicate_add (suc a) b (suc c) x h = rw (replicate_add a b c x (omega arith))

  length-pointers : (hs : List Hash) → length (pointers sha_256 hs) ≡ length hs
  length-pointers [] = refl
  length-pointers (h ∷ hs) = ap suc (length-pointers hs)

  not_zero : (m : ℕ) → 0 < m → (m == 0) ≡ false
  not_zero m h = ground arith

  -- The leaves of a tree of 2 ^ k: the hashes, and nil pointers.
  abbrev pub leaves : ℕ → List Hash → List Node
  leaves k hashes = pointers sha_256 hashes ++ replicate (2 ^ k - length hashes) none

  pub length-leaves :
      (k : ℕ) (hashes : List Hash) → length hashes ≤ 2 ^ k → length (leaves k hashes) ≡ 2 ^ k
  length-leaves k hashes fits = omega (
    arith,
    length-append (pointers sha_256 hashes) (replicate (2 ^ k - length hashes) none),
    length-pointers hashes,
    length-replicate {A = Node} (2 ^ k - length hashes) none,
  )

  array_lem :
      (k : ℕ) (hashes : List Hash)
      → length hashes ≤ 2 ^ k
      → pointers sha_256 hashes ++ replicate (2 ^ k * 2 - 1 - length hashes) none
        ≡ leaves k hashes ++ replicate (2 ^ k - 1) none
  array_lem k hashes fits =
      ap (λ (xs : List Node). pointers sha_256 hashes ++ xs)
        (replicate_add (2 ^ k - length hashes) (2 ^ k - 1) (2 ^ k * 2 - 1 - length hashes) none
          (omega (arith, positive sha_256 k)))
      ∙ sym (
          append_assoc (pointers sha_256 hashes) (replicate (2 ^ k - length hashes) none)
            (replicate (2 ^ k - 1) none))

  store_lem :
      (hashes : List Hash) (k : ℕ)
      → next_power_of_two (length hashes) ≡ 2 ^ k
      → length hashes ≤ 2 ^ k
      → build_merkle_tree_store sha_256 hashes
        ≡ ok (fill sha_256 (2 ^ k - 1) 0 (2 ^ k) (leaves k hashes ++ replicate (2 ^ k - 1) none))
  unfolding build_merkle_tree_store
  store_lem hashes k pot fits =
      rw (pot, not_zero (2 ^ k) (positive sha_256 k), array_lem k hashes fits)

  abbrev pub last_node : List Node → Option Node
  last_node mrs = get_elem? mrs (length mrs - 1)

  filled_lem :
      (hashes : List Hash) (k : ℕ)
      → next_power_of_two (length hashes) ≡ 2 ^ k
      → length hashes ≤ 2 ^ k
      → (mrs : List Node) × (build_merkle_tree_store sha_256 hashes ≡ ok mrs)
        × (last_node mrs ≡ some (merkle_root sha_256 k (leaves k hashes)))
  filled_lem hashes k pot fits =
      let q = leaves k hashes in
      let root = merkle_root sha_256 k q in
      let (pre, filled) =
        fill_lem sha_256 (2 ^ k - 1) [] q 0 (2 ^ k)
          (omega (arith, length-leaves k hashes fits, positive sha_256 k)) refl
          (omega (arith, length-leaves k hashes fits)) in
      let done : fill sha_256 (2 ^ k - 1) 0 (2 ^ k) (leaves k hashes ++ replicate (2 ^ k - 1) none)
          ≡ pre ++ root ∷ [] =
        filled
        ∙ ap (λ (xs : List Node). pre ++ xs) (run_root sha_256 k q (length-leaves k hashes fits)) in
      (
        pre ++ root ∷ [],
        store_lem hashes k pot fits ∙ ap ok done,
        get_elem?-append_self pre root [] (length (pre ++ root ∷ []) - 1)
            (omega (arith, length-append pre (root ∷ []))),
      )

  no_hashes : (hashes : List Hash) → hashes ≡ [] → build_merkle_tree_store sha_256 hashes ≡ panic
  unfolding build_merkle_tree_store next_power_of_two
  no_hashes hashes e = rw e refl

  -- BuildMerkleTreeStore panics on no hash. On any other list it returns an array whose last element
  -- is the root that is reached level by level, each level the parents of the pairs of the one below,
  -- from the hashes padded with nil pointers to 2 ^ k leaves, where 2 ^ k is the least power of two that
  -- is no less than their number: it is below the double of that number.
  pub build_merkle_tree_store_lem :
      (hashes : List Hash)
      → ((hashes ≡ []) × (build_merkle_tree_store sha_256 hashes ≡ panic))
        ⊎ ((k : ℕ) × (mrs : List Node) × (length hashes ≤ 2 ^ k)
            × (2 ^ k < length hashes * 2)
            × (build_merkle_tree_store sha_256 hashes ≡ ok mrs)
            × (last_node mrs ≡ some (merkle_root sha_256 k (leaves k hashes))))
  build_merkle_tree_store_lem [] = inl (refl, no_hashes [] refl)
  build_merkle_tree_store_lem (h ∷ hs) =
      let (k, pot, fits, least) = next_power_of_two_lem (length (h ∷ hs)) (omega arith) in
      let (mrs, built, root) = filled_lem (h ∷ hs) k pot fits in
      inr (k, mrs, fits, least, built, root)
