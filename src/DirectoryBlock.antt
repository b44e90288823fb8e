-- ===== src/DirectoryBlock.antt =====
-- common/directoryBlock.go: the directory block, its header and its entries. SHA-256 is a parameter of
-- what hashes. A nil hash pointer is `none` where the code makes one or tests for it: in an entry, for
-- the body's Merkle root, and for the two hashes that a block keeps. The pointer of a block to its
-- chain is left out.
pub mod Codec
pub mod Roots
pub mod Chain
pub mod Info
mod Tests
use factom_code.Common.{
  ℕ, ◌+◌, ◌-◌, ◌%◌, ◌^◌, Bool, true, false, Option, none, some, List, [], ◌∷◌, ◌++◌, length,
  get_elem?, ◌==◌, if◌then◌else◌,
}
use factom_code.Common.Bytes.{put_uint}
use factom_code.Common.Exec.{Result, ok, err, panic, and_then}
use factom_code.Buffer.{ReadError}
use factom_code.Hash.{Hash, zero_hash, sha, create_hash}
use factom_code.Merkle.{build_merkle_tree_store}
use factom_code.EBlock.{EBlock, key_mr as eblock_key_mr, last_of}
use factom_code.EcBlock.{EcBlock}
use factom_code.EcBlock.Codec.{header_hash}
use factom_code.AdminBlock.{AdminBlock, partial_hash_of}

pub record DbEntry : Type 0 where
  pub chain_id : Option Hash
  pub key_mr : Option Hash

pub record DBlockHeader : Type 0 where
  pub version : ℕ
  pub network_id : ℕ
  pub body_mr : Option Hash
  pub prev_key_mr : Hash
  pub prev_ledger_key_mr : Hash
  pub timestamp : ℕ
  pub db_height : ℕ
  pub block_count : ℕ

pub record DirectoryBlock : Type 0 where
  pub header : DBlockHeader
  pub db_entries : List DbEntry
  pub is_sealed : Bool
  pub db_hash : Option Hash
  pub key_mr : Option Hash
  pub is_saved_in_db : Bool
  pub is_validated : Bool

-- NewDBlockHeader(), NewDirectoryBlock() and NewDBlock()
abbrev pub new_dblock_header : DBlockHeader
new_dblock_header = record {
  version = 0;
  network_id = 0;
  body_mr = some zero_hash;
  prev_key_mr = zero_hash;
  prev_ledger_key_mr = zero_hash;
  timestamp = 0;
  db_height = 0;
  block_count = 0;
}

abbrev pub new_directory_block : DirectoryBlock
new_directory_block = record {
  header = new_dblock_header;
  db_entries = [];
  is_sealed = false;
  db_hash = some zero_hash;
  key_mr = some zero_hash;
  is_saved_in_db = false;
  is_validated = false;
}

-- &DBEntry{}, with which a block's first entries are allocated.
abbrev pub empty_db_entry : DbEntry
empty_db_entry = record { chain_id = none; key_mr = none }

-- A hash's MarshalBinary by its pointer: of a nil one it panics.
abbrev pub marshal_pointer : {E : Type 0} → Option Hash → Result E (List ℕ)
marshal_pointer none = panic
marshal_pointer (some h) = ok h

module _ {E : Type 0} where
  -- The MarshalBinary of DBEntry.
  unfoldable pub marshal_db_entry : DbEntry → Result E (List ℕ)
  marshal_db_entry e =
      and_then (marshal_pointer e.chain_id)
        λ p. and_then (marshal_pointer e.key_mr) λ q. ok (p ++ q)

  -- The loop of the block's MarshalBinary.
  unfoldable pub marshal_db_entries : List DbEntry → Result E (List ℕ)
  marshal_db_entries [] = ok []
  marshal_db_entries (e ∷ es) =
      and_then (marshal_db_entry e) λ p. and_then (marshal_db_entries es) λ q. ok (p ++ q)

-- The body's root in the header's MarshalBinary, which makes it the zero hash where it is nil: in the
-- header as well, `with_body_mr`.
abbrev pub body_mr_or_zero : Option Hash → Hash
body_mr_or_zero none = zero_hash
body_mr_or_zero (some h) = h

abbrev pub with_body_mr : DBlockHeader → DBlockHeader
with_body_mr h = record h { body_mr = some (body_mr_or_zero h.body_mr) }

-- What a MarshalBinary leaves of a block.
abbrev pub marshalled : DirectoryBlock → DirectoryBlock
marshalled b = record b { header = with_body_mr b.header }

-- The MarshalBinary of DBlockHeader: the bytes.
unfoldable pub marshal_header : DBlockHeader → List ℕ
marshal_header h =
    h.version
    ∷ (put_uint 4 h.network_id
        ++ (body_mr_or_zero h.body_mr
            ++ (h.prev_key_mr
                ++ (h.prev_ledger_key_mr
                    ++ (put_uint 4 h.timestamp
                        ++ (put_uint 4 h.db_height ++ put_uint 4 h.block_count))))))

-- The MarshalledSize of DBlockHeader.
abbrev pub marshalled_header_size : ℕ
marshalled_header_size = 1 + 4 + 32 + 32 + 32 + 4 + 4 + 4

-- b.MarshalBinary(): the bytes. The block is `marshalled` afterwards.
unfoldable pub marshal : {E : Type 0} → DirectoryBlock → Result E (List ℕ)
marshal b = and_then (marshal_db_entries b.db_entries) λ p. ok (marshal_header b.header ++ p)

module _ (sha_256 : List ℕ → List ℕ) where
  -- The hashes of b.BuildBodyMR(), of each entry's bytes.
  unfoldable pub entry_hashes : {E : Type 0} → List DbEntry → Result E (List Hash)
  entry_hashes [] = ok []
  entry_hashes (e ∷ es) =
      and_then (marshal_db_entry e) λ p. and_then (entry_hashes es) λ hs. ok (sha sha_256 p ∷ hs)

  -- No entry is hashed as the empty string.
  abbrev pub or_sha_nil : List Hash → List Hash
  or_sha_nil [] = sha sha_256 [] ∷ []
  or_sha_nil (h ∷ hs) = h ∷ hs

  -- merkle[len(merkle)-1] of BuildMerkleTreeStore(hashes)
  abbrev pub root_of : List Hash → Result ReadError Hash
  root_of hashes =
      and_then (build_merkle_tree_store sha_256 hashes)
        λ merkle. last_of (get_elem? merkle (length merkle - 1))

  -- b.BuildBodyMR()
  unfoldable pub build_body_mr : DirectoryBlock → Result ReadError Hash
  build_body_mr b = and_then (entry_hashes b.db_entries) λ hs. root_of (or_sha_nil hs)

  -- The root that b.BuildKeyMerkleRoot() sets, over the hash of the header and the body's root.
  unfoldable pub header_root : DBlockHeader → Result ReadError Hash
  header_root h = root_of (sha sha_256 (marshal_header h) ∷ body_mr_or_zero h.body_mr ∷ [])

  unfoldable pub build_key_merkle_root : DirectoryBlock → Result ReadError DirectoryBlock
  build_key_merkle_root b =
      and_then (header_root b.header) λ root. ok (record (marshalled b) { key_mr = some root })

  -- CreateHash(b) of one block.
  unfoldable pub block_hash : {E : Type 0} → DirectoryBlock → Result E Hash
  block_hash b = create_hash sha_256 (marshal b ∷ [])

  -- NewDBEntry(eb), NewDBEntryFromECBlock(cb) and NewDBEntryFromABlock(b), with the block whose hash
  -- was taken.
  unfoldable pub new_db_entry : EBlock → Result ReadError (DbEntry × EBlock)
  new_db_entry eb =
      and_then (eblock_key_mr sha_256 eb)
        λ (h, eb'). ok (record { chain_id = some eb.header.chain_id; key_mr = some h }, eb')

  abbrev pub new_db_entry_from_ec_block : EcBlock → DbEntry
  new_db_entry_from_ec_block cb = record {
    chain_id = some cb.header.ec_chain_id;
    key_mr = some (header_hash sha_256 cb);
  }

  unfoldable pub new_db_entry_from_ablock : AdminBlock → Result ReadError (DbEntry × AdminBlock)
  new_db_entry_from_ablock b =
      and_then (partial_hash_of sha_256 b)
        λ (h, b'). ok (record { chain_id = some b.header.admin_chain_id; key_mr = some h }, b')
