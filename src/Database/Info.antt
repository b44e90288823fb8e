-- ===== src/Database/Info.antt =====
-- database/ldb/dblock.go: the insertion of a DirBlockInfo, whose batch is emptied before it is written.
use factom_code.Common.{ℕ, ◌≡◌, refl, some, List, []}
use factom_code.Common.Exec.{ok}
use factom_code.Hash.{Hash}
use factom_code.DirectoryBlock.Info.{DirBlockInfo, marshal_info}
use factom_code.Database.{KvStore, IsKvStore, last_put, LevelDb, in_batch}
use factom_code.Database.Blocks.{insert_dir_block_info_multi_batch, insert_dir_block_info}

module _ {Store : Type 0} (kv : KvStore Store) (laws : IsKvStore kv) (db : LevelDb Store)
    (info : DirBlockInfo) (h root : Hash) where
  abbrev anchored : DirBlockInfo
  anchored = record info { db_hash = some h; db_merkle_root = some root }

  writes_nothing :
      insert_dir_block_info kv anchored db
      ≡ (ok tt, record db { l_db = kv.write db.l_db []; lbatch = some [] })
  unfolding in_batch insert_dir_block_info_multi_batch marshal_info
  writes_nothing = refl

  -- InsertDirBlockInfo of an info whose hashes are set succeeds, and every key of the store holds
  -- behind it what it held before: the info is not stored.
  pub insert_dir_block_info_lem :
      ((insert_dir_block_info kv anchored db).0 ≡ ok tt)
      × ((k : List ℕ) → kv.get (insert_dir_block_info kv anchored db).1.l_db k ≡ kv.get db.l_db k)
  unfolding last_put
  insert_dir_block_info_lem = rw writes_nothing (refl, λ k. laws.get-write db.l_db [] k)
