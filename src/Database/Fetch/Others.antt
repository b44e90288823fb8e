-- ===== src/Database/Fetch/Others.antt =====
-- database/ldb/ablock.go, ecblock.go, eblock.go and entry.go: what is stored is found.
use factom_code.Common.{
  ℕ, ◌<◌, ◌^◌, ◌≡◌, refl, some, List, [], ◌∷◌, ◌++◌, All, length, append_assoc, append-nil, ◌==◌,
  false,
}
use factom_code.Common.Bytes.{put_uint}
use factom_code.Common.Map.{bytes_eq, bytes_eq_refl}
use factom_code.Common.Exec.{Result, ok, err, panic}
use factom_code.Buffer.{ReadError, Reader}
use factom_code.Hash.{Hash, sha}
use factom_code.Entry
use factom_code.Entry.{Entry, new_entry}
use factom_code.Entry.RoundTrip.{IsSmall, unmarshal-marshal_entry}
use factom_code.Chains.{EChain, new_echain, marshal_echain, unmarshal_echain}
use factom_code.Chains.RoundTrip.{unmarshal-marshal_echain}
use factom_code.EBlock
use factom_code.EBlock.{EBlock, new_eblock, build_header}
use factom_code.EBlock.RoundTrip.{IsSized, IsEntryHash, unmarshal-marshal_eblock}
use factom_code.EBlock.Rebuilt.{
  length-sha, bytes_of, key_of, marshal_built, hash_built, key_mr_built,
}
use factom_code.Database.{
  Put, KvStore, IsKvStore, last_put, LevelDb, object, in_batch, pending, tbl_entry, tbl_chain_hash,
  tbl_eb, tbl_eb_mr, tbl_eb_chain_num, tbl_chain_head,
}
use factom_code.Database.Batch.{Holds, get-batch, get_or_error-batch}
use factom_code.Database.Blocks.{
  insert_entry_multi_batch, insert_entry, insert_chain_multi_batch, insert_chain,
  process_eblock_multi_batch, process_eblock_batch,
}
use factom_code.Database.Fetch.{
  fetch_entry_by_hash, fetch_chain_by_hash, fetch_eblock_by_hash, fetch_eb_hash_by_mr,
  fetch_eblock_by_mr, fetch_head_mr_by_chain_id,
}
use factom_code.Database.Fetch.Directory.{hash_in_lem}

module _ {Store : Type 0} (kv : KvStore Store) (laws : IsKvStore kv)
    (sha_256 sha_512 : List ℕ → List ℕ) (db : LevelDb Store) where
  alone : (k v : List ℕ) → Holds ((k, v) ∷ []) k v
  unfolding last_put
  alone k v held = rw (bytes_eq_refl k)

  object_lem :
      {A R : Type 0} (r : Result ReadError A × Reader R) (a : A) (o : R)
      → r.0 ≡ ok a
      → r.1.recv ≡ o
      → object r ≡ ok o
  object_lem (ok a', s) a o h e = rw e
  object_lem (err x, s) a o h e = cc
  object_lem (panic, s) a o h e = cc

  abbrev holding : List ℕ → List ℕ → LevelDb Store
  holding k v = record db {
    l_db = kv.write db.l_db (pending db.lbatch ++ (k, v) ∷ []);
    lbatch = some [];
  }

  inserts_entry :
      (e : Entry)
      → insert_entry kv sha_256 sha_512 e db
        ≡ (ok tt, holding (tbl_entry ∷ Entry.hash sha_256 sha_512 e) (Entry.marshal e))
  unfolding in_batch insert_entry_multi_batch
  inserts_entry e = refl

  inserts_chain :
      (c : EChain)
      → insert_chain kv c db ≡ (ok tt, holding (tbl_chain_hash ∷ c.chain_id) (marshal_echain c))
  unfolding in_batch insert_chain_multi_batch
  inserts_chain c = refl

  -- InsertEntry of a small entry succeeds, and FetchEntryByHash finds it under its hash.
  pub insert-fetch_entry :
      (e : Entry)
      → IsSmall e
      → ((insert_entry kv sha_256 sha_512 e db).0 ≡ ok tt)
        × (fetch_entry_by_hash kv
              (insert_entry kv sha_256 sha_512 e db).1
              (Entry.hash sha_256 sha_512 e)
            ≡ ok (some e))
  unfolding fetch_entry_by_hash
  insert-fetch_entry e small =
      let k = tbl_entry ∷ Entry.hash sha_256 sha_512 e in
      let (read, same) = unmarshal-marshal_entry e small in
      let found : kv.get (holding k (Entry.marshal e)).l_db k ≡ some (Entry.marshal e) =
        get-batch kv laws db.l_db (pending db.lbatch) ((k, Entry.marshal e) ∷ []) k
          (Entry.marshal e) (alone k _) in
      rw (inserts_entry e) (
        refl,
        rw (
          fetch_entry_by_hash,
          found,
          object_lem (Entry.unmarshal new_entry (Entry.marshal e)) [] e read same,
        ),
      )

  -- InsertChain of a chain with a small first entry succeeds, and FetchChainByHash finds it by its ID.
  pub insert-fetch_chain :
      (c : EChain)
      → length c.chain_id ≡ 32
      → IsSmall c.first_entry
      → ((insert_chain kv c db).0 ≡ ok tt)
        × (fetch_chain_by_hash kv (insert_chain kv c db).1 c.chain_id ≡ ok c)
  unfolding fetch_chain_by_hash
  insert-fetch_chain c id small =
      let k = tbl_chain_hash ∷ c.chain_id in
      let (read, same) = unmarshal-marshal_echain c id small in
      let found =
        get_or_error-batch kv laws db.l_db (pending db.lbatch) ((k, marshal_echain c) ∷ []) k
          (marshal_echain c) (alone k _) in
      rw (inserts_chain c) (
        refl,
        rw (found, object_lem (unmarshal_echain new_echain (marshal_echain c)) [] c read same),
      )

  module _ (e e' : EBlock) (built : build_header sha_256 e ≡ ok e')
      (some_entry : (length e.eb_entries == 0) ≡ false) where
    abbrev puts : List Put
    puts =
        (tbl_eb ∷ sha sha_256 (bytes_of sha_256 e'), bytes_of sha_256 e')
        ∷ (tbl_eb_mr ∷ key_of sha_256 e', sha sha_256 (bytes_of sha_256 e'))
        ∷ (
          tbl_eb_chain_num ∷ (e'.header.chain_id ++ put_uint 4 e'.header.eb_sequence),
          sha sha_256 (bytes_of sha_256 e'),
        )
        ∷ (tbl_chain_head ∷ e'.header.chain_id, key_of sha_256 e')
        ∷ []

    abbrev after : LevelDb Store
    after = record db { l_db = kv.write db.l_db (pending db.lbatch ++ puts); lbatch = some [] }

    stores : process_eblock_batch kv sha_256 e db ≡ (ok e', after)
    unfolding in_batch process_eblock_multi_batch
    stores = rw (
      some_entry,
      marshal_built sha_256 e e' built,
      hash_built sha_256 e e' built,
      key_mr_built sha_256 e e' built,
      hash_built sha_256 e e' built,
      key_mr_built sha_256 e e' built,
      append_assoc (pending db.lbatch),
      append_assoc (pending db.lbatch),
      append_assoc (pending db.lbatch),
    )

    abbrev h : Hash
    h = sha sha_256 (bytes_of sha_256 e')

    at_hash : Holds puts (tbl_eb ∷ h) (bytes_of sha_256 e')
    unfolding last_put bytes_eq
    at_hash held = rw (bytes_eq_refl h)

    at_mr : Holds puts (tbl_eb_mr ∷ key_of sha_256 e') h
    unfolding last_put bytes_eq
    at_mr held = rw (bytes_eq_refl (key_of sha_256 e'))

    at_head : Holds puts (tbl_chain_head ∷ e'.header.chain_id) (key_of sha_256 e')
    unfolding last_put bytes_eq
    at_head held = rw (bytes_eq_refl e'.header.chain_id)

    -- Of an entry block with an entry, fewer than 2 ^ 32 of them, whose header is built to e' with hashes
    -- of 32 bytes and numbers in range, ProcessEBlockBatch succeeds and leaves e'; FetchEBlockByHash and
    -- FetchEBlockByMR find e' under the hash and the key Merkle root of e', and the key Merkle root is
    -- the head of the chain.
    pub process-fetch_eblock :
        length e.eb_entries < 2 ^ 32
        → IsSized e'.header
        → All IsEntryHash e'.eb_entries
        → ((process_eblock_batch kv sha_256 e db).0 ≡ ok e')
          × (fetch_eblock_by_hash kv (process_eblock_batch kv sha_256 e db).1 h ≡ ok e')
          × (fetch_eblock_by_mr kv (process_eblock_batch kv sha_256 e db).1 (key_of sha_256 e')
              ≡ ok e')
          × (fetch_head_mr_by_chain_id kv
                (process_eblock_batch kv sha_256 e db).1
                e'.header.chain_id
              ≡ ok (key_of sha_256 e'))
    unfolding fetch_eblock_by_hash fetch_eb_hash_by_mr fetch_head_mr_by_chain_id
    process-fetch_eblock few s w =
        let (read, same) = rw append-nil at (
          unmarshal-marshal_eblock sha_256 e e' (bytes_of sha_256 e') []
            (marshal_built sha_256 e e' built) few s w) in
        let found = get_or_error-batch kv laws db.l_db (pending db.lbatch) puts in
        let by_hash : fetch_eblock_by_hash kv after h ≡ ok e' = rw (
          found (tbl_eb ∷ h) (bytes_of sha_256 e') at_hash,
          object_lem (EBlock.unmarshal new_eblock (bytes_of sha_256 e')) [] e' read same,
        ) in
        rw stores (
          refl,
          by_hash,
          rw (found (tbl_eb_mr ∷ key_of sha_256 e') h at_mr, hash_in_lem h (length-sha sha_256 _))
              by_hash,
          rw (
            found (tbl_chain_head ∷ e'.header.chain_id) (key_of sha_256 e') at_head,
            hash_in_lem (key_of sha_256 e') (length-sha sha_256 _),
          ),
        )
