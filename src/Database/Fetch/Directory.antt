-- ===== src/Database/Fetch/Directory.antt =====
-- database/ldb/dblock.go: a directory block that is stored is found by its hash, its height and its
-- Merkle root.
use factom_code.Slice.{take_hash}
use factom_code.Common.{
  true, ℕ, ◌≡◌, refl, some, List, [], ◌∷◌, ◌++◌, All, length, append_assoc, append-nil,
}
use factom_code.Common.Int.{pos}
use factom_code.Common.Bytes.{put_uint}
use factom_code.Common.Map.{bytes_eq, bytes_eq_refl}
use factom_code.Common.Exec.{ok}
use factom_code.Buffer.{ReadError}
use factom_code.Hash.{Hash}
use factom_code.Slice.Laws.{take_hash_lem, written}
use factom_code.DirectoryBlock.{
  DirectoryBlock, new_directory_block, marshal, marshal_header, marshalled, with_body_mr,
}
use factom_code.DirectoryBlock.Codec.{
  IsSized, IsFilled, entry_bytes, marshal_db_entries-all, unmarshal,
  unmarshal-marshal_directory_block,
}
use factom_code.Database.{
  Put, KvStore, IsKvStore, last_put, LevelDb, DbError, in_batch, pending, tbl_db, tbl_db_num,
  tbl_db_mr, tbl_chain_head,
}
use factom_code.Database.Batch.{Holds, get_or_error-batch}
use factom_code.Database.Blocks.{d_chainid, process_dblock_multi_batch, process_dblock_batch}
use factom_code.Database.Fetch.{
  hash_in, fetch_dblock_by_hash, fetch_db_hash_by_height, fetch_db_hash_by_mr,
  fetch_dblock_by_height, fetch_dblock_by_mr, fetch_head_mr_by_chain_id,
}

pub hash_in_lem : (h : Hash) → length h ≡ 32 → hash_in h ≡ ok h
hash_in_lem h s =
    let whole : take_hash h ≡ ok (h, []) = rw append-nil at (take_hash_lem {rest = []} h s) in
    rw whole

module _ {Store : Type 0} (kv : KvStore Store) (laws : IsKvStore kv) (sha_256 : List ℕ → List ℕ)
    (db : LevelDb Store) (b : DirectoryBlock) (h root : Hash) (sh : length h ≡ 32)
    (sr : length root ≡ 32) (s : IsSized b.header) (f : All IsFilled b.db_entries)
    (n : b.header.block_count ≡ length b.db_entries) where
  abbrev hashed : DirectoryBlock
  hashed = record b { db_hash = some h; key_mr = some root }

  abbrev bytes : List ℕ
  bytes = marshal_header b.header ++ written entry_bytes b.db_entries

  abbrev puts : List Put
  puts =
      (tbl_db ∷ h, bytes)
      ∷ (tbl_db_num ∷ put_uint 4 b.header.db_height, h)
      ∷ (tbl_db_mr ∷ root, h)
      ∷ (tbl_chain_head ∷ d_chainid, root)
      ∷ []

  abbrev after : LevelDb Store
  after = record db {
    l_db = kv.write db.l_db (pending db.lbatch ++ puts);
    lbatch = some [];
    last_dir_blk_height = pos b.header.db_height;
    last_dir_blk_sha = some h;
    last_dir_blk_sha_cached = true;
  }

  stores : process_dblock_batch kv sha_256 hashed db ≡ (ok (marshalled hashed), after)
  unfolding in_batch process_dblock_multi_batch marshal
  stores = rw (
    marshal_db_entries-all {E = DbError} b.db_entries f,
    append_assoc (pending db.lbatch),
    append_assoc (pending db.lbatch),
    append_assoc (pending db.lbatch),
  )

  abbrev expected : DirectoryBlock
  expected = record new_directory_block {
    header = with_body_mr b.header;
    db_entries = b.db_entries;
    db_hash = some h;
  }

  -- What stands under the four keys.
  at_hash : Holds puts (tbl_db ∷ h) bytes
  unfolding last_put bytes_eq
  at_hash held = rw (bytes_eq_refl h)

  at_height : Holds puts (tbl_db_num ∷ put_uint 4 b.header.db_height) h
  unfolding last_put bytes_eq
  at_height held = rw (bytes_eq_refl (put_uint 4 b.header.db_height))

  at_mr : Holds puts (tbl_db_mr ∷ root) h
  unfolding last_put bytes_eq
  at_mr held = rw (bytes_eq_refl root)

  at_head : Holds puts (tbl_chain_head ∷ d_chainid) root
  unfolding last_put bytes_eq
  at_head held = refl

  by_hash : fetch_dblock_by_hash kv after h ≡ ok expected
  unfolding fetch_dblock_by_hash marshal
  by_hash =
      let read : unmarshal new_directory_block bytes
          ≡ ok (
            record new_directory_block {
              header = with_body_mr b.header;
              db_entries = b.db_entries;
            },
            [],
          ) =
        rw (marshal_db_entries-all {E = ReadError} b.db_entries f, append-nil) at
          (unmarshal-marshal_directory_block new_directory_block b [] s f n) in
      rw (
        get_or_error-batch kv laws db.l_db (pending db.lbatch) puts (tbl_db ∷ h) bytes at_hash,
        read,
      )

  by_height : fetch_dblock_by_height kv after b.header.db_height ≡ ok expected
  unfolding fetch_db_hash_by_height
  by_height =
      rw
        (
          get_or_error-batch kv laws db.l_db (pending db.lbatch) puts
              (tbl_db_num ∷ put_uint 4 b.header.db_height) h at_height,
          hash_in_lem h sh,
        )
        by_hash

  by_mr : fetch_dblock_by_mr kv after root ≡ ok expected
  unfolding fetch_db_hash_by_mr
  by_mr =
      rw
        (
          get_or_error-batch kv laws db.l_db (pending db.lbatch) puts (tbl_db_mr ∷ root) h at_mr,
          hash_in_lem h sh,
        )
        by_hash

  head : fetch_head_mr_by_chain_id kv after d_chainid ≡ ok root
  unfolding fetch_head_mr_by_chain_id
  head = rw (
    get_or_error-batch kv laws db.l_db (pending db.lbatch) puts (tbl_chain_head ∷ d_chainid) root
        at_head,
    hash_in_lem root sr,
  )

  -- Of a directory block whose hash and Merkle root are set, whose header counts its entries, and whose
  -- hashes have 32 bytes, ProcessDBlockBatch succeeds whatever stands in the batch. Behind it
  -- FetchDBlockByHash, FetchDBlockByHeight and FetchDBlockByMR find the block under the hash, the height
  -- and the root, with its header, its entries and its hash; the root is the head of the directory
  -- chain, and the caches hold the hash and the height.
  pub process-fetch_dblock :
      ((process_dblock_batch kv sha_256 hashed db).0 ≡ ok (marshalled hashed))
      × (fetch_dblock_by_hash kv (process_dblock_batch kv sha_256 hashed db).1 h ≡ ok expected)
      × (fetch_dblock_by_height kv (process_dblock_batch kv sha_256 hashed db).1 b.header.db_height
          ≡ ok expected)
      × (fetch_dblock_by_mr kv (process_dblock_batch kv sha_256 hashed db).1 root ≡ ok expected)
      × (fetch_head_mr_by_chain_id kv (process_dblock_batch kv sha_256 hashed db).1 d_chainid
          ≡ ok root)
      × ((process_dblock_batch kv sha_256 hashed db).1.last_dir_blk_height ≡ pos b.header.db_height)
      × ((process_dblock_batch kv sha_256 hashed db).1.last_dir_blk_sha ≡ some h)
  process-fetch_dblock = rw stores (refl, by_hash, by_height, by_mr, head, refl, refl)
