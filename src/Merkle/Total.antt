-- ===== src/Merkle/Total.antt =====
-- The root of common/merkle.go is there, and no nil pointer, where there is a hash.
use native.Mathlib.Nat.{pow-suc}
use factom_code.Common.{
  ℕ, zero, suc, ◌+◌, ◌-◌, ◌^◌, ◌≡◌, inl, inr, refl, ap, ◌∙◌, arith, none, some, List, [], ◌∷◌,
  length, get_elem?,
}
use factom_code.Common.Exec.{ok}
use factom_code.Hash.{Hash}
use factom_code.Merkle.{build_merkle_tree_store, parent}
use factom_code.Merkle.Queue.{Node, level, merkle_root, positive}
use factom_code.Merkle.Root.{length-leaves, build_merkle_tree_store_lem}

module _ (sha_256 : List ℕ → List ℕ) where
  length-halved : (m : ℕ) (q : List Node) → length q ≡ m + m → length (level sha_256 q) ≡ m
  unfolding level
  length-halved zero [] h = refl
  length-halved zero (a ∷ q) h = absurd (omega arith)
  length-halved (suc m) [] h = absurd (omega arith)
  length-halved (suc m) (a ∷ []) h = absurd (omega arith)
  length-halved (suc m) (a ∷ b ∷ q) h = omega (arith, length-halved m q (omega arith))

  parent_of_some : (h : Hash) (b : Node) → (p : Hash) × (parent sha_256 (some h) b ≡ some p)
  parent_of_some h none = (_, refl)
  parent_of_some h (some b) = (_, refl)

  -- Over a first leaf that is no nil pointer, the root is none.
  merkle_root-some :
      (k : ℕ) (h : Hash) (q : List Node)
      → suc (length q) ≡ 2 ^ k
      → (root : Hash) × (merkle_root sha_256 k (some h ∷ q) ≡ some root)
  unfolding merkle_root level
  merkle_root-some zero h q e = (h, refl)
  merkle_root-some (suc k) h [] e = absurd (omega (arith, pow-suc 2 k, positive sha_256 k))
  merkle_root-some (suc k) h (b ∷ q) e =
      let (p, is_p) = parent_of_some h b in
      let twice : length (some h ∷ b ∷ q) ≡ 2 ^ k + 2 ^ k = omega (arith, pow-suc 2 k) in
      let (root, is_root) =
        merkle_root-some k p (level sha_256 q) (length-halved (2 ^ k) (some h ∷ b ∷ q) twice) in
      (root, rw is_p is_root)

  pub build_merkle_tree_store-some :
      (h : Hash) (hs : List Hash)
      → (mrs : List Node) × (root : Hash) × (build_merkle_tree_store sha_256 (h ∷ hs) ≡ ok mrs)
        × (get_elem? mrs (length mrs - 1) ≡ some (some root))
  build_merkle_tree_store-some h hs = elim (build_merkle_tree_store_lem sha_256 (h ∷ hs)) [
    | inl (e, p) ↦ cc
    | inr (k, mrs, fits, least, built, last) ↦
        let (root, is_root) = merkle_root-some k h _ (length-leaves sha_256 k (h ∷ hs) fits) in
        (mrs, root, built, last ∙ ap some is_root)
  ]
