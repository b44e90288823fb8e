-- ===== src/DirectoryBlock/Roots.antt =====
-- The Merkle roots of common/directoryBlock.go are always there.
use factom_code.Common.{ℕ, ◌≡◌, refl, List, [], ◌∷◌, ◌++◌, All}
use factom_code.Common.Exec.{ok}
use factom_code.Buffer.{ReadError}
use factom_code.Hash.{Hash, sha}
use factom_code.Slice.Laws.{written}
use factom_code.Merkle.Total.{build_merkle_tree_store-some}
use factom_code.DirectoryBlock.{
  DbEntry, DBlockHeader, DirectoryBlock, root_of, header_root, marshal, marshal_header,
  entry_hashes, or_sha_nil, build_body_mr, block_hash,
}
use factom_code.DirectoryBlock.Codec.{IsFilled, marshal_filled, marshal_db_entries-all, entry_bytes}

module _ (sha_256 : List ℕ → List ℕ) where
  root_of-ok : (h : Hash) (hs : List Hash) → (root : Hash) × (root_of sha_256 (h ∷ hs) ≡ ok root)
  root_of-ok h hs =
      let (mrs, root, built, last) = build_merkle_tree_store-some sha_256 h hs in
      (root, rw (built, last))

  pub header_root-ok : (h : DBlockHeader) → (root : Hash) × (header_root sha_256 h ≡ ok root)
  unfolding header_root
  header_root-ok h = root_of-ok _ _

  or_sha_nil-ok :
      (hs : List Hash) → (root : Hash) × (root_of sha_256 (or_sha_nil sha_256 hs) ≡ ok root)
  or_sha_nil-ok [] = root_of-ok _ _
  or_sha_nil-ok (h ∷ hs) = root_of-ok _ _

  entry_hashes-ok :
      (es : List DbEntry)
      → All IsFilled es
      → (hs : List Hash) × (entry_hashes sha_256 {E = ReadError} es ≡ ok hs)
  unfolding entry_hashes
  entry_hashes-ok [] f = ([], refl)
  entry_hashes-ok (e ∷ es) f =
      let (hs, eq) = entry_hashes-ok es f.1 in
      (sha sha_256 (entry_bytes e) ∷ hs, rw (marshal_filled {E = ReadError} e f.0, eq))

  pub build_body_mr-ok :
      (b : DirectoryBlock)
      → All IsFilled b.db_entries
      → (root : Hash) × (build_body_mr sha_256 b ≡ ok root)
  unfolding build_body_mr
  build_body_mr-ok b f =
      let (hs, eq) = entry_hashes-ok b.db_entries f in
      let (root, is_root) = or_sha_nil-ok hs in (root, rw (eq, is_root))

  -- The hash of a block whose entries are filled in.
  abbrev pub hash_of : DirectoryBlock → Hash
  hash_of b = sha sha_256 (marshal_header b.header ++ written entry_bytes b.db_entries)

  pub block_hash-filled :
      {E : Type 0} (b : DirectoryBlock)
      → All IsFilled b.db_entries
      → block_hash sha_256 {E = E} b ≡ ok (hash_of b)
  unfolding block_hash marshal
  block_hash-filled {E = E} b f = rw (marshal_db_entries-all {E = E} b.db_entries f)
