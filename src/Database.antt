-- ===== src/Database.antt =====
-- database/ldb: the blocks, entries and chains of a node in a key-value store. goleveldb is the
-- interface `KvStore`: its reads and its iterator, and its writes of a batch, which fail on no I/O here. A
-- key is a table's byte and what is looked up by. SHA-256 and SHA-512 are parameters; the locks, and the
-- opening and closing of the files, are left out.
pub mod Blocks
pub mod Fetch
pub mod Batch
pub mod Prefix
pub mod Info
pub mod Assoc
mod Tests
use factom_code.Common.{
  ℕ, zero, suc, ◌+◌, ◌%◌, ◌≡◌, Bool, true, false, not, ◌&&◌, Option, none, some, List, [], ◌∷◌,
  ◌++◌, ◌==◌, ltb, if◌then◌else◌,
}
use factom_code.Common.Int.{ℤ, pos, negsuc}
use factom_code.Common.Map.{bytes_eq, lookup}
use factom_code.Common.Exec.{Result, ok, err, panic, Exec, pure, raise, panics, lift, ◌>>=◌, ◌>>◌}
use factom_code.Buffer.{ReadError, Reader}
use factom_code.Hash.{Hash}

abbrev pub Put : Type 0
Put = List ℕ × List ℕ

pub record KvStore (Store : Type 0) : Type 0 where
  pub get : Store → List ℕ → Option (List ℕ)
  pub write : Store → List Put → Store
  pub range : Store → List ℕ → List ℕ → List Put

-- What a key holds behind the puts of a batch: the last of its puts, or what it held before.
unfoldable pub last_put : List Put → List ℕ → Option (List ℕ) → Option (List ℕ)
last_put [] k held = held
last_put ((j, v) ∷ puts) k held = last_put puts k (if bytes_eq j k then some v else held)

-- Keys in the order of the default comparer, byte by byte.
unfoldable pub less : List ℕ → List ℕ → Bool
less xs [] = false
less [] (y ∷ ys) = true
less (x ∷ xs) (y ∷ ys) = let rest = less xs ys in if x == y then rest else ltb x y

-- A key in a range: from its start, inclusive, to its limit, exclusive.
abbrev pub within : List ℕ → List ℕ → List ℕ → Bool
within from to k = not (less k from) && less k to

-- What the code relies on: a read behind a write finds the last put, and the iterator over a range
-- finds the keys in it, each with what the store holds under it.
pub record IsKvStore {Store : Type 0} (kv : KvStore Store) : Type 0 where
  pub get-write :
      (s : Store) (puts : List Put) (k : List ℕ)
      → kv.get (kv.write s puts) k ≡ last_put puts k (kv.get s k)
  pub lookup-range :
      (s : Store) (from to k : List ℕ)
      → lookup k (kv.range s from to) ≡ (if within from to k then kv.get s k else none)

-- LevelDb: the store, the batch where there is one, and the caches of heights.
pub record LevelDb (Store : Type 0) : Type 0 where
  pub l_db : Store
  pub lbatch : Option (List Put)
  pub next_dir_block_height : ℤ
  pub last_dir_blk_sha_cached : Bool
  pub last_dir_blk_sha : Option Hash
  pub last_dir_blk_height : ℤ

-- openDB, for the store that it opened.
abbrev pub open_db : {Store : Type 0} → Store → LevelDb Store
open_db s = record {
  l_db = s;
  lbatch = none;
  next_dir_block_height = pos 0;
  last_dir_blk_sha_cached = false;
  last_dir_blk_sha = none;
  last_dir_blk_height = negsuc 0;
}

pub data DbError : Type 0 where
  not_found no_batch empty_eblock : DbError
  reading : ReadError → DbError

abbrev pub reading_error : {A : Type 0} → Result ReadError A → Result DbError A
reading_error (ok a) = ok a
reading_error (err e) = err (reading e)
reading_error panic = panic

-- The object that an UnmarshalBinaryData left, where it succeeded.
abbrev pub object : {A R : Type 0} → Result ReadError A × Reader R → Result DbError R
object (ok a, s) = ok s.recv
object (err e, s) = err (reading e)
object (panic, s) = panic

-- The tables, by iota.
abbrev pub tbl_db : ℕ
tbl_db = 0

abbrev pub tbl_db_num : ℕ
tbl_db_num = 1

abbrev pub tbl_db_mr : ℕ
tbl_db_mr = 2

abbrev pub tbl_db_info : ℕ
tbl_db_info = 3

abbrev pub tbl_ab : ℕ
tbl_ab = 4

abbrev pub tbl_ab_num : ℕ
tbl_ab_num = 5

abbrev pub tbl_cb : ℕ
tbl_cb = 8

abbrev pub tbl_cb_num : ℕ
tbl_cb_num = 9

abbrev pub tbl_chain_hash : ℕ
tbl_chain_hash = 11

abbrev pub tbl_chain_head : ℕ
tbl_chain_head = 12

abbrev pub tbl_eb : ℕ
tbl_eb = 13

abbrev pub tbl_eb_chain_num : ℕ
tbl_eb_chain_num = 14

abbrev pub tbl_eb_mr : ℕ
tbl_eb_mr = 15

abbrev pub tbl_entry : ℕ
tbl_entry = 16

abbrev pub Db : Type 0 → Type 0 → Type 0
Db Store A = Exec DbError (LevelDb Store) A

abbrev pub pending : Option (List Put) → List Put
pending none = []
pending (some puts) = puts

module _ {Store : Type 0} where
  -- if db.lbatch == nil { return fmt.Errorf("db.lbatch == nil") }
  abbrev pub need_batch : Db Store Unit
  need_batch db = elim db.lbatch [ none ↦ (err no_batch, db) | some puts ↦ (ok tt, db) ]

  -- db.lbatch.Put(key, value), of a batch that is there.
  abbrev pub put : List ℕ → List ℕ → Db Store Unit
  put key value db = elim db.lbatch [
    | none ↦ (panic, db)
    | some puts ↦ (ok tt, record db { lbatch = some (puts ++ (key, value) ∷ []) })
  ]

  -- db.lbatch.Reset()
  abbrev pub reset : LevelDb Store → LevelDb Store
  reset db = record db { lbatch = some [] }

  -- StartBatch() and EndBatch(), for the store's write. Without a batch the latter panics.
  abbrev pub start_batch : LevelDb Store → LevelDb Store
  start_batch db = record db { lbatch = some [] }

  abbrev pub with_batch : LevelDb Store → LevelDb Store
  with_batch db = record db { lbatch = some (pending db.lbatch) }

module _ {Store : Type 0} (kv : KvStore Store) where
  abbrev pub write_batch : LevelDb Store → LevelDb Store
  write_batch db = record db { l_db = kv.write db.l_db (pending db.lbatch) }

  unfoldable pub end_batch : Db Store Unit
  end_batch db = elim db.lbatch [ none ↦ (panic, db) | some puts ↦ (ok tt, reset (write_batch db)) ]

  module _ {A : Type 0} where
    abbrev written_back : Result DbError A × LevelDb Store → Result DbError A × LevelDb Store
    written_back (ok a, db) = (ok a, reset (write_batch db))
    written_back (err e, db) = (err e, reset db)
    written_back (panic, db) = (panic, reset db)

    -- The shape of the methods named Process...Batch and Insert...: a batch is made where there is
    -- none, filled by the method's MultiBatch, written, and reset in every case.
    unfoldable pub in_batch : Db Store A → Db Store A
    in_batch multi db = written_back (multi (with_batch db))

  -- db.lDb.Get(key, db.ro), with its error where the key is not there.
  abbrev pub get_or_error : Store → List ℕ → Result DbError (List ℕ)
  get_or_error s key = elim (kv.get s key) [ none ↦ err not_found | some v ↦ ok v ]
