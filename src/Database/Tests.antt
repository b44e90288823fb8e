-- ===== src/Database/Tests.antt =====
-- Runs on a store of database/ldb.
use factom_code.Common.{
  ℕ, ◌≡◌, refl, arith, false, some, List, [], ◌∷◌, ◌++◌, take, replicate, copy,
}
use factom_code.Common.Int.{pos}
use factom_code.Common.Map.{Map, bytes_eq, lookup}
use factom_code.Common.Exec.{ok}
use factom_code.Hash.{Hash, sha}
use factom_code.AdminBlock.{AdminBlock, created, add_end_of_minute_marker}
use factom_code.AdminBlock.Codec.RoundTrip.{IsTyped}
use factom_code.DirectoryBlock.{DirectoryBlock, new_directory_block, marshalled, with_body_mr}
use factom_code.DirectoryBlock.Info.{DirBlockInfo, new_dir_block_info_from_dblock}
use factom_code.EBlock.{EBlock, new_eblock, build_header}
use factom_code.EBlock.Rebuilt.{bytes_of, key_of}
use factom_code.Merkle.{build_merkle_tree_store, next_power_of_two, fill}
use factom_code.Database.{LevelDb, open_db, tbl_eb_chain_num}
use factom_code.Database.Assoc.{assoc, assoc-IsKvStore}
use factom_code.Database.Blocks.{
  d_chainid, process_dblock_batch, process_ablock_batch, process_eblock_batch,
  insert_dir_block_info,
}
use factom_code.Database.Fetch.{
  fetch_dblock_by_hash, fetch_dblock_by_height, fetch_dblock_by_mr, fetch_head_mr_by_chain_id,
  fetch_ablock_by_hash, fetch_ablock_by_height, fetch_eblock_by_hash, fetch_eblock_by_mr,
}
use factom_code.Database.Fetch.Directory.{process-fetch_dblock}
use factom_code.Database.Fetch.Others.{process-fetch_eblock}
use factom_code.Database.Fetch.Chained.{process-fetch_ablock}
use factom_code.Database.Prefix.{
  add_one_to_byte_array, fetch_all_eblocks_by_chain, range_of_chain, no_blocks_of_chain,
}
use factom_code.Database.Info.{insert_dir_block_info_lem}

-- A function in the place of SHA-256.
abbrev sha_256 : List ℕ → List ℕ
sha_256 bytes = take 32 (bytes ++ replicate 32 0)

abbrev db : LevelDb (Map (List ℕ))
db = open_db []

abbrev hash : ℕ → Hash
hash n = replicate 32 n

abbrev dblock : DirectoryBlock
dblock = record new_directory_block {
  header = record new_directory_block.header { db_height = 7; block_count = 1 };
  db_entries = record { chain_id = some (hash 1); key_mr = some (hash 2) } ∷ [];
}

abbrev hashed : DirectoryBlock
hashed = record dblock { db_hash = some (hash 3); key_mr = some (hash 4) }

abbrev read_dblock : DirectoryBlock
read_dblock = record new_directory_block {
  header = with_body_mr dblock.header;
  db_entries = dblock.db_entries;
  db_hash = some (hash 3);
}

process-fetch_dblock_example :
    ((process_dblock_batch assoc sha_256 hashed db).0 ≡ ok (marshalled hashed))
    × (fetch_dblock_by_hash assoc (process_dblock_batch assoc sha_256 hashed db).1 (hash 3)
        ≡ ok read_dblock)
    × (fetch_dblock_by_height assoc (process_dblock_batch assoc sha_256 hashed db).1 7
        ≡ ok read_dblock)
    × (fetch_dblock_by_mr assoc (process_dblock_batch assoc sha_256 hashed db).1 (hash 4)
        ≡ ok read_dblock)
    × (fetch_head_mr_by_chain_id assoc (process_dblock_batch assoc sha_256 hashed db).1 d_chainid
        ≡ ok (hash 4))
    × ((process_dblock_batch assoc sha_256 hashed db).1.last_dir_blk_height ≡ pos 7)
    × ((process_dblock_batch assoc sha_256 hashed db).1.last_dir_blk_sha ≡ some (hash 3))
process-fetch_dblock_example =
    process-fetch_dblock assoc assoc-IsKvStore sha_256 db dblock (hash 3) (hash 4) refl refl
      (record {
        network_id = omega arith;
        body_mr = refl;
        prev_key_mr = refl;
        prev_ledger_key_mr = refl;
        timestamp = omega arith;
        db_height = omega arith;
        block_count = omega arith;
      })
      (((hash 1, refl, refl), (hash 2, refl, refl)), tt) refl

abbrev ablock : AdminBlock
ablock =
    let b = add_end_of_minute_marker (created (hash 10) 5 (hash 11)) 1 in
    record b { header = record b.header { message_count = 1; body_size = 2 } }

abbrev read_ablock : AdminBlock
read_ablock = record (created [] 0 []) { header = ablock.header; ab_entries = ablock.ab_entries }

abbrev kept : AdminBlock
kept = record ablock { partial_hash = some (hash 6) }

process-fetch_ablock_example :
    ((process_ablock_batch assoc sha_256 kept db).0 ≡ ok kept)
    × (fetch_ablock_by_hash assoc (process_ablock_batch assoc sha_256 kept db).1 (hash 6)
        ≡ ok (some read_ablock))
    × (fetch_ablock_by_height assoc (process_ablock_batch assoc sha_256 kept db).1 5
        ≡ ok (some read_ablock))
unfolding IsTyped
process-fetch_ablock_example =
    process-fetch_ablock assoc assoc-IsKvStore sha_256 db ablock (hash 6) refl
      (record {
        admin_chain_id = refl;
        prev_ledger_key_mr = refl;
        db_height = omega arith;
        header_expansion_size = omega arith;
        header_expansion_area = refl;
        message_count = omega arith;
        body_size = omega arith;
      })
      (refl, tt) refl

abbrev eblock : EBlock
eblock = record new_eblock { eb_entries = hash 3 ∷ hash 4 ∷ [] }

abbrev built : EBlock
built = record eblock { header = record eblock.header { body_mr = hash 3; entry_count = 2 } }

builds : build_header sha_256 eblock ≡ ok built
unfolding build_header build_merkle_tree_store next_power_of_two fill sha copy
    factom_code.Merkle.hash_merkle_branches
builds = refl

process-fetch_eblock_example :
    ((process_eblock_batch assoc sha_256 eblock db).0 ≡ ok built)
    × (fetch_eblock_by_hash assoc
          (process_eblock_batch assoc sha_256 eblock db).1
          (sha sha_256 (bytes_of sha_256 built))
        ≡ ok built)
    × (fetch_eblock_by_mr assoc
          (process_eblock_batch assoc sha_256 eblock db).1
          (key_of sha_256 built)
        ≡ ok built)
    × (fetch_head_mr_by_chain_id assoc (process_eblock_batch assoc sha_256 eblock db).1 (hash 0)
        ≡ ok (key_of sha_256 built))
process-fetch_eblock_example =
    process-fetch_eblock assoc assoc-IsKvStore sha_256 sha_256 db eblock built builds refl
      (omega arith) (omega arith) (refl, (refl, tt))

abbrev chain_prefix : List ℕ
chain_prefix = replicate 31 9

-- A key of the chain's first block, and the store that holds it.
abbrev first_key : List ℕ
first_key = tbl_eb_chain_num ∷ (chain_prefix ++ 9 ∷ 0 ∷ [])

abbrev store : Map (List ℕ)
store = (first_key, hash 5) ∷ []

range_of_chain_example :
    lookup first_key (
      assoc.range store
        (tbl_eb_chain_num ∷ (chain_prefix ++ 9 ∷ []))
        (add_one_to_byte_array (tbl_eb_chain_num ∷ (chain_prefix ++ 9 ∷ []))))
    ≡ some (hash 5)
unfolding bytes_eq lookup
range_of_chain_example =
    range_of_chain assoc assoc-IsKvStore store chain_prefix 9 first_key (omega arith)

no_blocks_of_chain_example :
    fetch_all_eblocks_by_chain assoc
      (process_eblock_batch assoc sha_256 eblock db).1
      (chain_prefix ++ 255 ∷ [])
    ≡ ok []
no_blocks_of_chain_example =
    no_blocks_of_chain assoc assoc-IsKvStore (process_eblock_batch assoc sha_256 eblock db).1
      chain_prefix

abbrev info : DirBlockInfo
info = record (new_dir_block_info_from_dblock hashed) { btc_confirmed = false }

insert_dir_block_info_lem_example :
    ((insert_dir_block_info assoc info db).0 ≡ ok tt)
    × ((k : List ℕ)
        → lookup k (insert_dir_block_info assoc info db).1.l_db ≡ lookup {V = List ℕ} k [])
unfolding new_dir_block_info_from_dblock
insert_dir_block_info_lem_example =
    insert_dir_block_info_lem assoc assoc-IsKvStore db info (hash 3) (hash 4)
