-- ===== src/Build.antt =====
-- process/processor.go, the building of blocks: the open block of each chain is sealed and the next
-- one opened. SHA-256 and SHA-512 are parameters; the writes to the database, the exports, the anchor
-- and the messages to the network are left out.
pub mod Directory
pub mod Validate
pub mod Credits
pub mod Open
pub mod Items
mod Tests
use factom_code.Common.{
  ℕ, ◌+◌, ◌%◌, ◌^◌, Bool, true, false, Option, none, some, List, [], ◌∷◌, length, set,
  if◌then◌else◌,
}
use factom_code.Common.Exec.{Result, ok, err, panic, and_then}
use factom_code.Buffer.{ReadError}
use factom_code.Hash.{Hash}
use factom_code.DirectoryBlock.{DirectoryBlock, build_body_mr, block_hash, build_key_merkle_root}
use factom_code.DirectoryBlock.Chain.{
  DChain, DBlockError, inner_error, create_dblock, add_dblock_to_dchain,
}

-- NETWORK_ID_EB and NETWORK_ID_TEST
abbrev pub network_id_eb : ℕ
network_id_eb = 4203931042

abbrev pub network_id_test : ℕ
network_id_test = 0

-- The block that CreateDBlock, CreateAdminBlock or MakeEBlock was given, as the call left it.
abbrev pub or_same : {B : Type 0} → B → Option B → B
or_same b none = b
or_same b (some b') = b'

module _ (sha_256 : List ℕ → List ℕ) (dev_net : Bool) where
  -- block.Header.BodyMR, built where it is nil; the error, which never is, would leave it nil.
  abbrev pub with_body : DirectoryBlock → Result ReadError DirectoryBlock
  with_body b = elim b.header.body_mr [
    | some root ↦ ok b
    | none ↦
        and_then (build_body_mr sha_256 b)
          λ root. ok (record b { header = record b.header { body_mr = some root } })
  ]

  -- The header of the open block, filled in before the body's root.
  abbrev pub counted : DirectoryBlock → DirectoryBlock
  counted b = record b {
    header = record b.header {
      network_id = if dev_net then network_id_test else network_id_eb;
      block_count = length b.db_entries % 2 ^ 32;
    };
  }

  -- newDirectoryBlock(chain): the sealed block, and the chain with the next one. The chain's slice
  -- holds a pointer to the sealed block, whose two hashes are set behind the call of CreateDBlock: the
  -- model stores the block anew at the end. The source looks at no error: one of CreateDBlock would
  -- leave a nil next block, and one of BuildBodyMR or CreateHash a nil hash; each is the error of the call
  -- here. The stores and SignDirectoryBlock are left out.
  unfoldable pub new_directory_block : DChain → Result DBlockError (DirectoryBlock × DChain)
  new_directory_block chain =
      let height = (chain.next_db_height + 1) % 2 ^ 32 in
      and_then (inner_error (with_body (counted chain.next_block))) λ b.
        let sealed = record b { is_sealed = true } in
        and_then (inner_error (add_dblock_to_dchain chain sealed)) λ chain'.
          and_then (create_dblock sha_256 height (some sealed)) λ (next, prev).
            and_then (block_hash sha_256 (or_same sealed prev)) λ h.
              and_then
                (inner_error (
                  build_key_merkle_root sha_256
                    (record (or_same sealed prev) { db_hash = some h })))
                λ block. ok (
                  block,
                  record chain' {
                    blocks = set chain'.blocks block.header.db_height (some block);
                    next_block = next;
                    next_db_height = height;
                  },
                )
