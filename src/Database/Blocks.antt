-- ===== src/Database/Blocks.antt =====
-- database/ldb/dblock.go, ablock.go, ecblock.go, eblock.go and entry.go: what each kind of block and
-- entry puts into a batch.
use factom_code.Common.{
  true, ℕ, Option, none, some, List, [], ◌∷◌, ◌++◌, length, replicate, ◌==◌, if◌then◌else◌,
}
use factom_code.Common.Int.{pos}
use factom_code.Common.Bytes.{put_uint}
use factom_code.Common.Exec.{Result, ok, err, and_then, pure, lift, ◌>>=◌, ◌>>◌}
use factom_code.Buffer.{ReadError}
use factom_code.Hash.{Hash, sha}
use factom_code.Entry
use factom_code.Entry.{Entry, new_entry}
use factom_code.Chains.{EChain, marshal_echain}
use factom_code.EBlock
use factom_code.EBlock.{EBlock, new_eblock}
use factom_code.EcBlock.{EcBlock}
use factom_code.EcBlock.Codec as EcCodec
use factom_code.AdminBlock
use factom_code.AdminBlock.{AdminBlock, partial_hash_of, created}
use factom_code.DirectoryBlock
use factom_code.DirectoryBlock.{
  DirectoryBlock, marshalled, build_key_merkle_root, new_directory_block,
}
use factom_code.DirectoryBlock.Info.{DirBlockInfo, marshal_info}
use factom_code.Database.{
  KvStore, LevelDb, DbError, no_batch, empty_eblock, reading_error, Db, need_batch, put, in_batch,
  reset, tbl_db, tbl_db_num, tbl_db_mr, tbl_db_info, tbl_ab, tbl_ab_num, tbl_cb, tbl_cb_num,
  tbl_chain_hash, tbl_chain_head, tbl_eb, tbl_eb_chain_num, tbl_eb_mr, tbl_entry,
}

-- EC_CHAINID, D_CHAINID and ADMIN_CHAINID
abbrev pub ec_chainid : Hash
ec_chainid = replicate 31 0 ++ 0x0c ∷ []

abbrev pub d_chainid : Hash
d_chainid = replicate 31 0 ++ 0x0d ∷ []

abbrev pub admin_chainid : Hash
admin_chainid = replicate 31 0 ++ 0x0a ∷ []

-- The hash of a directory block, and its Merkle root, where they are nil still.
abbrev pub hash_or : Option Hash → Hash → Hash
hash_or none h = h
hash_or (some h') h = h'

-- if dblock.KeyMR == nil { dblock.BuildKeyMerkleRoot() }: the root, and the block.
abbrev pub with_key_mr :
    (List ℕ → List ℕ) → DirectoryBlock → Result ReadError (Hash × DirectoryBlock)
with_key_mr sha_256 b = elim b.key_mr [
  | some root ↦ ok (root, b)
  | none ↦
      and_then (DirectoryBlock.header_root sha_256 b.header)
        λ root. ok (root, record b { key_mr = some root })
]

module _ {Store : Type 0} where
  -- db.lastDirBlkHeight, db.lastDirBlkSha and their flag: UpdateBlockHeightCache(height, hash).
  abbrev pub update_block_height_cache : ℕ → Hash → Db Store Unit
  update_block_height_cache height h db = (
    ok tt,
    record db {
      last_dir_blk_height = pos height;
      last_dir_blk_sha = some h;
      last_dir_blk_sha_cached = true;
    },
  )

  -- UpdateNextBlockHeightCache(height)
  abbrev pub update_next_block_height_cache : ℕ → Db Store Unit
  update_next_block_height_cache height db =
      (ok tt, record db { next_dir_block_height = pos height })

module _ {Store : Type 0} (sha_256 : List ℕ → List ℕ) where
  -- ProcessDBlockMultiBatch(dblock), with the block, whose hashes are set.
  unfoldable pub process_dblock_multi_batch : DirectoryBlock → Db Store DirectoryBlock
  process_dblock_multi_batch b = do
    need_batch
    binary ← lift (DirectoryBlock.marshal b)
    let h = hash_or b.db_hash (sha sha_256 binary)
    (root, b') ←
        lift (reading_error (with_key_mr sha_256 (record (marshalled b) { db_hash = some h })))
    put (tbl_db ∷ h) binary
    put (tbl_db_num ∷ put_uint 4 b.header.db_height) h
    put (tbl_db_mr ∷ root) h
    put (tbl_chain_head ∷ d_chainid) root
    update_block_height_cache b.header.db_height h
    pure b'

  -- ProcessABlockMultiBatch(block), with the block, which keeps its hash.
  unfoldable pub process_ablock_multi_batch : AdminBlock → Db Store AdminBlock
  process_ablock_multi_batch b = do
    need_batch
    binary ← lift (AdminBlock.marshal b)
    (h, b') ← lift (partial_hash_of sha_256 b)
    put (tbl_ab ∷ h) binary
    put (tbl_ab_num ∷ (admin_chainid ++ put_uint 4 b.header.db_height)) h
    put (tbl_chain_head ∷ admin_chainid) h
    pure b'

  -- ProcessECBlockMultiBatch(block), with the block, whose header is built.
  unfoldable pub process_ec_block_multi_batch : EcBlock → Db Store EcBlock
  process_ec_block_multi_batch b = do
    need_batch
    (binary, b') ← lift (reading_error (EcCodec.marshal sha_256 b))
    let h = EcCodec.header_hash sha_256 b'
    put (tbl_cb ∷ h) binary
    put (tbl_cb_num ∷ (ec_chainid ++ put_uint 4 b'.header.eb_height)) h
    put (tbl_chain_head ∷ ec_chainid) h
    pure b'

  -- ProcessEBlockMultiBatch(eblock), with the block, whose header is built by each of its hashes.
  unfoldable pub process_eblock_multi_batch : EBlock → Db Store EBlock
  process_eblock_multi_batch e = do
    need_batch
    λ db. if length e.eb_entries == 0 then (err empty_eblock, db) else (ok tt, db)
    (binary, e) ← lift (reading_error (EBlock.marshal sha_256 e))
    (h, e) ← lift (reading_error (EBlock.hash sha_256 e))
    put (tbl_eb ∷ h) binary
    (key_mr, e) ← lift (reading_error (EBlock.key_mr sha_256 e))
    (h, e) ← lift (reading_error (EBlock.hash sha_256 e))
    put (tbl_eb_mr ∷ key_mr) h
    put (tbl_eb_chain_num ∷ (e.header.chain_id ++ put_uint 4 e.header.eb_sequence)) h
    (key_mr, e) ← lift (reading_error (EBlock.key_mr sha_256 e))
    put (tbl_chain_head ∷ e.header.chain_id) key_mr
    pure e

module _ {Store : Type 0} where
  -- InsertEntryMultiBatch(entry) and InsertChainMultiBatch(chain)
  unfoldable pub insert_entry_multi_batch :
      (List ℕ → List ℕ) → (List ℕ → List ℕ) → Entry → Db Store Unit
  insert_entry_multi_batch sha_256 sha_512 e = do
    need_batch
    put (tbl_entry ∷ Entry.hash sha_256 sha_512 e) (Entry.marshal e)

  unfoldable pub insert_chain_multi_batch : EChain → Db Store Unit
  insert_chain_multi_batch c = do need_batch; put (tbl_chain_hash ∷ c.chain_id) (marshal_echain c)

  -- InsertDirBlockInfoMultiBatch(dirBlockInfo), of an info with a BTCTxHash: on nil it returns at once.
  -- Its deferred Reset empties the batch as it returns. An error of MarshalBinary, which has none, would
  -- not be looked at.
  abbrev put_info : DirBlockInfo → Db Store Unit
  put_info info = do
    h ← lift (DirectoryBlock.marshal_pointer info.db_hash)
    binary ← lift (marshal_info info)
    put (tbl_db_info ∷ h) binary

  abbrev with_reset : Result DbError Unit × LevelDb Store → Result DbError Unit × LevelDb Store
  with_reset (r, db) = (r, reset db)

  unfoldable pub insert_dir_block_info_multi_batch : DirBlockInfo → Db Store Unit
  insert_dir_block_info_multi_batch info db = elim db.lbatch [
    | none ↦ (err no_batch, db)
    | some puts ↦ with_reset (put_info info db)
  ]

module _ {Store : Type 0} (kv : KvStore Store) (sha_256 : List ℕ → List ℕ) where
  -- ProcessDBlockBatch, ProcessABlockBatch, ProcessECBlockBatch, ProcessEBlockBatch, InsertEntry,
  -- InsertChain and InsertDirBlockInfo
  abbrev pub process_dblock_batch : DirectoryBlock → Db Store DirectoryBlock
  process_dblock_batch b = in_batch kv (process_dblock_multi_batch sha_256 b)

  abbrev pub process_ablock_batch : AdminBlock → Db Store AdminBlock
  process_ablock_batch b = in_batch kv (process_ablock_multi_batch sha_256 b)

  abbrev pub process_ec_block_batch : EcBlock → Db Store EcBlock
  process_ec_block_batch b = in_batch kv (process_ec_block_multi_batch sha_256 b)

  abbrev pub process_eblock_batch : EBlock → Db Store EBlock
  process_eblock_batch e = in_batch kv (process_eblock_multi_batch sha_256 e)

module _ {Store : Type 0} (kv : KvStore Store) where
  abbrev pub insert_entry : (List ℕ → List ℕ) → (List ℕ → List ℕ) → Entry → Db Store Unit
  insert_entry sha_256 sha_512 e = in_batch kv (insert_entry_multi_batch sha_256 sha_512 e)

  abbrev pub insert_chain : EChain → Db Store Unit
  insert_chain c = in_batch kv (insert_chain_multi_batch c)

  abbrev pub insert_dir_block_info : DirBlockInfo → Db Store Unit
  insert_dir_block_info info = in_batch kv (insert_dir_block_info_multi_batch info)
