-- ===== src/Database/Fetch.antt =====
-- database/ldb/dblock.go, ablock.go, ecblock.go, eblock.go and entry.go: how each kind of block and entry is
-- found again.
pub mod Directory
pub mod Others
pub mod Chained
use factom_code.Common.{
  ℕ, zero, suc, ◌-◌, ◌%◌, Option, none, some, List, [], ◌∷◌, ◌++◌, length, replicate, ◌==◌,
  if◌then◌else◌,
}
use factom_code.Common.Int.{pos}
use factom_code.Common.Bytes.{put_uint}
use factom_code.Common.Exec.{Result, ok, err, panic, and_then, Exec, pure, raise, lift, ◌>>=◌, ◌>>◌}
use factom_code.Buffer.{ReadError}
use factom_code.Hash.{Hash, sha}
use factom_code.Slice.{take_hash}
use factom_code.Entry
use factom_code.Entry.{Entry, new_entry}
use factom_code.Chains.{EChain, new_echain, marshal_echain, unmarshal_echain}
use factom_code.EBlock
use factom_code.EBlock.{EBlock, new_eblock}
use factom_code.EcBlock.{EcBlock, new_ec_block}
use factom_code.EcBlock.Codec as EcCodec
use factom_code.AdminBlock
use factom_code.AdminBlock.{AdminBlock, partial_hash_of, created}
use factom_code.AdminBlock.Codec as AdminCodec
use factom_code.DirectoryBlock
use factom_code.DirectoryBlock.{
  DirectoryBlock, marshalled, build_key_merkle_root, new_directory_block,
}
use factom_code.DirectoryBlock.Codec as DirectoryCodec
use factom_code.DirectoryBlock.Info.{DirBlockInfo, marshal_info, unmarshal_info}
use factom_code.Database.Blocks.{admin_chainid, ec_chainid}
use factom_code.Database.{
  KvStore, LevelDb, DbError, not_found, no_batch, empty_eblock, reading, reading_error, object, Db,
  need_batch, put, in_batch, get_or_error, reset, tbl_db, tbl_db_num, tbl_db_mr, tbl_db_info,
  tbl_ab, tbl_ab_num, tbl_cb, tbl_cb_num, tbl_chain_hash, tbl_chain_head, tbl_eb, tbl_eb_chain_num,
  tbl_eb_mr, tbl_entry,
}

-- blkMR := NewHash(), and its UnmarshalBinaryData(data): the hash alone.
abbrev pub hash_in : List ℕ → Result DbError Hash
hash_in bytes = and_then (reading_error (take_hash bytes)) λ (h, left). ok h

module _ {Store : Type 0} (kv : KvStore Store) (db : LevelDb Store) where
  -- FetchDBlockByHash(dBlockHash): the block, with the hash that it was asked for by.
  unfoldable pub fetch_dblock_by_hash : Hash → Result DbError DirectoryBlock
  fetch_dblock_by_hash h = and_then (get_or_error kv db.l_db (tbl_db ∷ h)) λ bytes.
      and_then (reading_error (DirectoryCodec.unmarshal new_directory_block bytes))
        λ (b, left). ok (record b { db_hash = some h })

  -- FetchDBHashByHeight, FetchDBHashByMR, FetchDBlockByHeight, FetchDBlockByMR, FetchHeadMRByChainID
  unfoldable pub fetch_db_hash_by_height : ℕ → Result DbError Hash
  fetch_db_hash_by_height height =
      and_then (get_or_error kv db.l_db (tbl_db_num ∷ put_uint 4 height)) hash_in

  unfoldable pub fetch_db_hash_by_mr : Hash → Result DbError Hash
  fetch_db_hash_by_mr mr = and_then (get_or_error kv db.l_db (tbl_db_mr ∷ mr)) hash_in

  abbrev pub fetch_dblock_by_height : ℕ → Result DbError DirectoryBlock
  fetch_dblock_by_height height = and_then (fetch_db_hash_by_height height) fetch_dblock_by_hash

  abbrev pub fetch_dblock_by_mr : Hash → Result DbError DirectoryBlock
  fetch_dblock_by_mr mr = and_then (fetch_db_hash_by_mr mr) fetch_dblock_by_hash

  unfoldable pub fetch_head_mr_by_chain_id : Hash → Result DbError Hash
  fetch_head_mr_by_chain_id chain_id =
      and_then (get_or_error kv db.l_db (tbl_chain_head ∷ chain_id)) hash_in

  -- FetchABlockByHash(aBlockHash): a missing block is nil, without an error.
  unfoldable pub fetch_ablock_by_hash : Hash → Result DbError (Option AdminBlock)
  fetch_ablock_by_hash h = elim (kv.get db.l_db (tbl_ab ∷ h)) [
    | none ↦ ok none
    | some bytes ↦
        and_then (reading_error (AdminCodec.unmarshal (created [] 0 []) bytes))
          λ (b, left). ok (some b)
  ]

  unfoldable pub fetch_ablock_by_height : ℕ → Result DbError (Option AdminBlock)
  fetch_ablock_by_height height =
      and_then (get_or_error kv db.l_db (tbl_ab_num ∷ (admin_chainid ++ put_uint 4 height)))
        λ bytes. and_then (hash_in bytes) fetch_ablock_by_hash

  -- FetchECBlockByHash(ecBlockHash) and FetchECBlockByHeight(height)
  unfoldable pub fetch_ec_block_by_hash : Hash → Result DbError EcBlock
  fetch_ec_block_by_hash h =
      and_then (get_or_error kv db.l_db (tbl_cb ∷ h))
        λ bytes. object (EcCodec.unmarshal new_ec_block bytes)

  unfoldable pub fetch_ec_block_by_height : ℕ → Result DbError EcBlock
  fetch_ec_block_by_height height =
      and_then (get_or_error kv db.l_db (tbl_cb_num ∷ (ec_chainid ++ put_uint 4 height)))
        λ bytes. and_then (hash_in bytes) fetch_ec_block_by_hash

  -- FetchEBlockByHash(eBlockHash), FetchEBHashByMR(eBMR) and FetchEBlockByMR(eBMR)
  unfoldable pub fetch_eblock_by_hash : Hash → Result DbError EBlock
  fetch_eblock_by_hash h =
      and_then (get_or_error kv db.l_db (tbl_eb ∷ h))
        λ bytes. object (EBlock.unmarshal new_eblock bytes)

  unfoldable pub fetch_eb_hash_by_mr : Hash → Result DbError Hash
  fetch_eb_hash_by_mr mr = and_then (get_or_error kv db.l_db (tbl_eb_mr ∷ mr)) hash_in

  abbrev pub fetch_eblock_by_mr : Hash → Result DbError EBlock
  fetch_eblock_by_mr mr = and_then (fetch_eb_hash_by_mr mr) fetch_eblock_by_hash

  -- FetchEntryByHash(entrySha): a missing entry is nil, without an error.
  unfoldable pub fetch_entry_by_hash : Hash → Result DbError (Option Entry)
  fetch_entry_by_hash h = elim (kv.get db.l_db (tbl_entry ∷ h)) [
    | none ↦ ok none
    | some bytes ↦ and_then (object (Entry.unmarshal new_entry bytes)) λ e. ok (some e)
  ]

  -- FetchChainByHash(chainID)
  unfoldable pub fetch_chain_by_hash : Hash → Result DbError EChain
  fetch_chain_by_hash chain_id =
      and_then (get_or_error kv db.l_db (tbl_chain_hash ∷ chain_id))
        λ bytes. object (unmarshal_echain new_echain bytes)

  -- FetchDirBlockInfoByHash(dbHash): a missing one is nil, without an error.
  unfoldable pub fetch_dir_block_info_by_hash : Hash → Result DbError (Option DirBlockInfo)
  fetch_dir_block_info_by_hash h = elim (kv.get db.l_db (tbl_db_info ∷ h)) [
    | none ↦ ok none
    | some bytes ↦ and_then (reading_error (unmarshal_info bytes)) λ (info, left). ok (some info)
  ]
