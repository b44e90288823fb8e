-- ===== src/Database/Fetch/Chained.antt =====
-- database/ldb/ablock.go and ecblock.go: the blocks of the two chains that have a block at each height are
-- found by their hashes and by their heights.
use factom_code.Common.{
  ℕ, ◌≡◌, refl, some, List, [], ◌∷◌, ◌++◌, All, length, append_assoc, append-nil,
}
use factom_code.Common.Bytes.{put_uint}
use factom_code.Common.Map.{bytes_eq, bytes_eq_refl}
use factom_code.Common.Exec.{ok}
use factom_code.Buffer.{ReadError}
use factom_code.Hash.{Hash}
use factom_code.Slice.Laws.{written}
use factom_code.AdminBlock.{
  AdminBlock, marshal, marshal_header, marshal_entry, partial_hash_of, created,
}
use factom_code.AdminBlock.Codec.{unmarshal}
use factom_code.AdminBlock.Codec.RoundTrip.{
  IsSized, IsTyped, marshal_entries-all, unmarshal-marshal_admin_block,
}
use factom_code.EcBlock.{EcBlock}
use factom_code.EcBlock.Codec as EcCodec
use factom_code.EcBlock.Codec.Header as EcHeader
use factom_code.EcBlock.Codec.Entries as EcEntries
use factom_code.EcBlock.Codec.RoundTrip.{unmarshal-marshal_ec_block}
use factom_code.EBlock.Rebuilt.{length-sha}
use factom_code.Database.{
  Put, KvStore, IsKvStore, last_put, LevelDb, DbError, in_batch, pending, tbl_ab, tbl_ab_num,
  tbl_cb, tbl_cb_num, tbl_chain_head,
}
use factom_code.Database.Batch.{Holds, get-batch, get_or_error-batch}
use factom_code.Database.Blocks.{
  admin_chainid, ec_chainid, process_ablock_multi_batch, process_ablock_batch,
  process_ec_block_multi_batch, process_ec_block_batch,
}
use factom_code.Database.Fetch.{
  fetch_ablock_by_hash, fetch_ablock_by_height, fetch_ec_block_by_hash, fetch_ec_block_by_height,
}
use factom_code.Database.Fetch.Directory.{hash_in_lem}

module _ {Store : Type 0} (kv : KvStore Store) (laws : IsKvStore kv) (sha_256 : List ℕ → List ℕ)
    (db : LevelDb Store) where
  module _ (b : AdminBlock) (h : Hash) (sh : length h ≡ 32) (s : IsSized b.header)
      (t : All IsTyped b.ab_entries) (n : b.header.message_count ≡ length b.ab_entries) where
    abbrev hashed : AdminBlock
    hashed = record b { partial_hash = some h }

    abbrev bytes : List ℕ
    bytes = marshal_header b.header ++ written marshal_entry b.ab_entries

    abbrev puts : List Put
    puts =
        (tbl_ab ∷ h, bytes)
        ∷ (tbl_ab_num ∷ (admin_chainid ++ put_uint 4 b.header.db_height), h)
        ∷ (tbl_chain_head ∷ admin_chainid, h)
        ∷ []

    abbrev after : LevelDb Store
    after = record db { l_db = kv.write db.l_db (pending db.lbatch ++ puts); lbatch = some [] }

    stores : process_ablock_batch kv sha_256 hashed db ≡ (ok hashed, after)
    unfolding in_batch process_ablock_multi_batch marshal partial_hash_of
    stores = rw (
      marshal_entries-all {E = DbError} b.header.message_count b.ab_entries n,
      append_assoc (pending db.lbatch),
      append_assoc (pending db.lbatch),
    )

    at_hash : Holds puts (tbl_ab ∷ h) bytes
    unfolding last_put bytes_eq
    at_hash held = rw (bytes_eq_refl h)

    at_height : Holds puts (tbl_ab_num ∷ (admin_chainid ++ put_uint 4 b.header.db_height)) h
    unfolding last_put bytes_eq
    at_height held = rw (bytes_eq_refl (put_uint 4 b.header.db_height))

    abbrev found_block : AdminBlock
    found_block = record (created [] 0 []) { header = b.header; ab_entries = b.ab_entries }

    by_hash : fetch_ablock_by_hash kv after h ≡ ok (some found_block)
    unfolding fetch_ablock_by_hash marshal
    by_hash =
        let read : unmarshal (created [] 0 []) bytes ≡ ok (found_block, []) =
          rw (marshal_entries-all {E = ReadError} b.header.message_count b.ab_entries n, append-nil)
            at (unmarshal-marshal_admin_block (created [] 0 []) b [] s t n) in
        rw (
          fetch_ablock_by_hash,
          get-batch kv laws db.l_db (pending db.lbatch) puts (tbl_ab ∷ h) bytes at_hash,
          read,
        )

    -- Of an admin block that keeps its partial hash, whose header counts its entries, with hashes and
    -- arrays of their sizes, ProcessABlockBatch succeeds; FetchABlockByHash finds its header and its
    -- entries under the hash, and FetchABlockByHeight under its height.
    pub process-fetch_ablock :
        ((process_ablock_batch kv sha_256 hashed db).0 ≡ ok hashed)
        × (fetch_ablock_by_hash kv (process_ablock_batch kv sha_256 hashed db).1 h
            ≡ ok (some found_block))
        × (fetch_ablock_by_height kv
              (process_ablock_batch kv sha_256 hashed db).1
              b.header.db_height
            ≡ ok (some found_block))
    unfolding fetch_ablock_by_height
    process-fetch_ablock = rw stores (
      refl,
      by_hash,
      rw
          (
            get_or_error-batch kv laws db.l_db (pending db.lbatch) puts
                (tbl_ab_num ∷ (admin_chainid ++ put_uint 4 b.header.db_height)) h at_height,
            hash_in_lem h sh,
          )
          by_hash,
    )

  module _ (e e' : EcBlock) (bytes : List ℕ) (m : EcCodec.marshal sha_256 e ≡ ok (bytes, e'))
      (s : EcHeader.IsSized e'.header) (w : All EcEntries.IsWritable e'.entries) where
    abbrev ec_hash : Hash
    ec_hash = EcCodec.header_hash sha_256 e'

    abbrev ec_puts : List Put
    ec_puts =
        (tbl_cb ∷ ec_hash, bytes)
        ∷ (tbl_cb_num ∷ (ec_chainid ++ put_uint 4 e'.header.eb_height), ec_hash)
        ∷ (tbl_chain_head ∷ ec_chainid, ec_hash)
        ∷ []

    abbrev ec_after : LevelDb Store
    ec_after = record db {
      l_db = kv.write db.l_db (pending db.lbatch ++ ec_puts);
      lbatch = some [];
    }

    ec_stores : process_ec_block_batch kv sha_256 e db ≡ (ok e', ec_after)
    unfolding in_batch process_ec_block_multi_batch
    ec_stores = rw (m, append_assoc (pending db.lbatch), append_assoc (pending db.lbatch))

    at_ec_hash : Holds ec_puts (tbl_cb ∷ ec_hash) bytes
    unfolding last_put bytes_eq
    at_ec_hash held = rw (bytes_eq_refl ec_hash)

    at_ec_height :
        Holds ec_puts (tbl_cb_num ∷ (ec_chainid ++ put_uint 4 e'.header.eb_height)) ec_hash
    unfolding last_put bytes_eq
    at_ec_height held = rw (bytes_eq_refl (put_uint 4 e'.header.eb_height))

    by_ec_hash : fetch_ec_block_by_hash kv ec_after ec_hash ≡ ok e'
    unfolding fetch_ec_block_by_hash
    by_ec_hash = rw (
      get_or_error-batch kv laws db.l_db (pending db.lbatch) ec_puts (tbl_cb ∷ ec_hash) bytes
          at_ec_hash,
      rw append-nil at (unmarshal-marshal_ec_block sha_256 e e' bytes [] m s w),
    )

    -- Of an Entry Credit block that MarshalBinary writes, with a header and entries of their sizes,
    -- ProcessECBlockBatch succeeds and leaves the block with its header built, which
    -- FetchECBlockByHash finds under its header's hash and FetchECBlockByHeight under its height.
    pub process-fetch_ec_block :
        ((process_ec_block_batch kv sha_256 e db).0 ≡ ok e')
        × (fetch_ec_block_by_hash kv (process_ec_block_batch kv sha_256 e db).1 ec_hash ≡ ok e')
        × (fetch_ec_block_by_height kv
              (process_ec_block_batch kv sha_256 e db).1
              e'.header.eb_height
            ≡ ok e')
    unfolding fetch_ec_block_by_height
    process-fetch_ec_block = rw ec_stores (
      refl,
      by_ec_hash,
      rw
          (
            get_or_error-batch kv laws db.l_db (pending db.lbatch) ec_puts
                (tbl_cb_num ∷ (ec_chainid ++ put_uint 4 e'.header.eb_height)) ec_hash at_ec_height,
            hash_in_lem ec_hash (length-sha sha_256 _),
          )
          by_ec_hash,
    )
