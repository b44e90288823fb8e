-- ===== src/EBlock/Rebuilt.antt =====
-- The header of an entry block of common/eblock.go is built again by each of its hashes, and stays.
use factom_code.Common.{
  ℕ, ◌≡◌, arith, List, ◌++◌, length, length-take, length-drop, length-append, take, drop, copy,
}
use factom_code.Common.Exec.{Result, ok, and_then-eq-ok}
use factom_code.Buffer.{ReadError}
use factom_code.Hash.{Hash, zero_hash, sha}
use factom_code.EBlock.{
  EBlock, mr, build_header, marshal, marshal_header, marshal_body, hash, key_mr,
}

pub length-sha : (sha_256 : List ℕ → List ℕ) (p : List ℕ) → length (sha sha_256 p) ≡ 32
unfolding sha copy
length-sha sha_256 p = omega (
  arith,
  length-append (take 32 (sha_256 p)) (drop (length (sha_256 p)) zero_hash),
  length-take 32 (sha_256 p),
  length-drop (length (sha_256 p)) zero_hash,
)

abbrev ok_block : EBlock → Result ReadError EBlock
ok_block e = ok e

module _ (sha_256 : List ℕ → List ℕ) where
  same_block : {e e' : EBlock} → ok_block e ≡ ok_block e' → e ≡ e'
  same_block h = cc

  build_header_again :
      (e e' : EBlock) → build_header sha_256 e ≡ ok e' → build_header sha_256 e' ≡ ok e'
  unfolding build_header
  build_header_again e e' h =
      let (root, is_root, eq) = and_then-eq-ok (mr sha_256 e.eb_entries) _ h in
      rw (← same_block eq, is_root)

  abbrev pub bytes_of : EBlock → List ℕ
  bytes_of e = marshal_header e.header ++ marshal_body e.eb_entries

  abbrev pub key_of : EBlock → Hash
  key_of e = sha sha_256 (sha sha_256 (marshal_header e.header) ++ e.header.body_mr)

  module _ (e e' : EBlock) (built : build_header sha_256 e ≡ ok e') where
    pub marshal_built : marshal sha_256 e ≡ ok (bytes_of e', e')
    unfolding marshal
    marshal_built = rw built

    pub hash_built : hash sha_256 e' ≡ ok (sha sha_256 (bytes_of e'), e')
    unfolding hash marshal
    hash_built = rw (build_header_again e e' built)

    pub key_mr_built : key_mr sha_256 e' ≡ ok (key_of e', e')
    unfolding key_mr
    key_mr_built = rw (build_header_again e e' built)
