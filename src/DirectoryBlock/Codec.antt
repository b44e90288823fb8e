-- ===== src/DirectoryBlock/Codec.antt =====
-- The UnmarshalBinaryData methods of common/directoryBlock.go, which read back what MarshalBinary
-- writes.
use factom_code.Common.{
  ℕ, ◌<◌, ◌^◌, ◌≡◌, refl, Option, some, List, [], ◌∷◌, ◌++◌, All, length, append_assoc,
}
use factom_code.Common.Bytes.{put_uint}
use factom_code.Common.Exec.{ok, and_then}
use factom_code.Buffer.{ReadError}
use factom_code.Hash.{Hash}
use factom_code.Slice.{Slice, return, recovering, ◌>>=◌, take_byte, take_uint, take_hash, take_all}
use factom_code.Slice.Laws.{take_byte_lem, take_uint_lem, take_hash_lem, written, take_all-written}
use factom_code.DirectoryBlock.{
  DbEntry, DBlockHeader, DirectoryBlock, body_mr_or_zero, with_body_mr, marshal_db_entry,
  marshal_db_entries, marshal_header, marshal,
}

unfoldable pub read_db_entry : Slice DbEntry
read_db_entry = do
  chain_id ← take_hash
  key_mr ← take_hash
  return (record { chain_id = some chain_id; key_mr = some key_mr })

unfoldable pub unmarshal_db_entry : Slice DbEntry
unmarshal_db_entry new_data = recovering (read_db_entry new_data)

unfoldable pub read_header : Slice DBlockHeader
read_header = do
  version ← take_byte
  network_id ← take_uint 4
  body_mr ← take_hash
  prev_key_mr ← take_hash
  prev_ledger_key_mr ← take_hash
  timestamp ← take_uint 4
  db_height ← take_uint 4
  block_count ← take_uint 4
  return (record {
    version = version;
    network_id = network_id;
    body_mr = some body_mr;
    prev_key_mr = prev_key_mr;
    prev_ledger_key_mr = prev_ledger_key_mr;
    timestamp = timestamp;
    db_height = db_height;
    block_count = block_count;
  })

unfoldable pub unmarshal_header : Slice DBlockHeader
unmarshal_header new_data = recovering (read_header new_data)

-- b.UnmarshalBinaryData(data), with its loop over the entries that the header counts.
unfoldable pub read_block : DirectoryBlock → Slice DirectoryBlock
read_block b = do
  h ← unmarshal_header
  es ← take_all unmarshal_db_entry h.block_count
  return (record b { header = h; db_entries = es })

unfoldable pub unmarshal : DirectoryBlock → Slice DirectoryBlock
unmarshal b new_data = recovering (read_block b new_data)

-- The sizes of the header's hashes and the ranges of its numbers.
pub record IsSized (h : DBlockHeader) : Type 0 where
  pub network_id : h.network_id < 256 ^ 4
  pub body_mr : length (body_mr_or_zero h.body_mr) ≡ 32
  pub prev_key_mr : length h.prev_key_mr ≡ 32
  pub prev_ledger_key_mr : length h.prev_ledger_key_mr ≡ 32
  pub timestamp : h.timestamp < 256 ^ 4
  pub db_height : h.db_height < 256 ^ 4
  pub block_count : h.block_count < 256 ^ 4

-- A pointer to a hash of 32 bytes.
abbrev IsSizedHash : Option Hash → Type 0
IsSizedHash p = (h : Hash) × (p ≡ some h) × (length h ≡ 32)

abbrev pub IsFilled : DbEntry → Type 0
IsFilled e = IsSizedHash e.chain_id × IsSizedHash e.key_mr

-- The bytes of an entry that is filled in.
abbrev pub entry_bytes : DbEntry → List ℕ
entry_bytes e = body_mr_or_zero e.chain_id ++ body_mr_or_zero e.key_mr

pub marshal_filled :
    {E : Type 0} (e : DbEntry) → IsFilled e → marshal_db_entry {E = E} e ≡ ok (entry_bytes e)
unfolding marshal_db_entry
marshal_filled e ((c, ec, sc), (k, ek, sk)) = rw (ec, ek)

unmarshal_filled :
    (e : DbEntry) (rest : List ℕ)
    → IsFilled e
    → unmarshal_db_entry (entry_bytes e ++ rest) ≡ ok (e, rest)
unfolding unmarshal_db_entry read_db_entry
unmarshal_filled e rest ((c, ec, sc), (k, ek, sk)) =
    rw (ec, ek, append_assoc c, take_hash_lem c sc, take_hash_lem k sk)

pub marshal_db_entries-all :
    {E : Type 0} (es : List DbEntry)
    → All IsFilled es
    → marshal_db_entries {E = E} es ≡ ok (written entry_bytes es)
unfolding marshal_db_entries written
marshal_db_entries-all [] f = refl
marshal_db_entries-all {E = E} (e ∷ es) f =
    rw (marshal_filled {E = E} e f.0, marshal_db_entries-all {E = E} es f.1)

unmarshal-marshal_header :
    (h : DBlockHeader) (rest : List ℕ)
    → IsSized h
    → unmarshal_header (marshal_header h ++ rest) ≡ ok (with_body_mr h, rest)
unfolding unmarshal_header read_header marshal_header
unmarshal-marshal_header h rest s = rw (
  append_assoc (put_uint 4 h.network_id),
  append_assoc (body_mr_or_zero h.body_mr),
  append_assoc h.prev_key_mr,
  append_assoc h.prev_ledger_key_mr,
  append_assoc (put_uint 4 h.timestamp),
  append_assoc (put_uint 4 h.db_height),
  take_byte_lem,
  take_uint_lem 4 h.network_id s.network_id,
  take_hash_lem (body_mr_or_zero h.body_mr) s.body_mr,
  take_hash_lem h.prev_key_mr s.prev_key_mr,
  take_hash_lem h.prev_ledger_key_mr s.prev_ledger_key_mr,
  take_uint_lem 4 h.timestamp s.timestamp,
  take_uint_lem 4 h.db_height s.db_height,
  take_uint_lem 4 h.block_count s.block_count,
)

pub unmarshal-marshal_directory_block :
    (b₀ b : DirectoryBlock) (rest : List ℕ)
    → IsSized b.header
    → All IsFilled b.db_entries
    → b.header.block_count ≡ length b.db_entries
    → and_then (marshal {E = ReadError} b) (λ p. unmarshal b₀ (p ++ rest))
      ≡ ok (record b₀ { header = with_body_mr b.header; db_entries = b.db_entries }, rest)
unfolding marshal unmarshal read_block
unmarshal-marshal_directory_block b₀ b rest s f n = rw (
  marshal_db_entries-all {E = ReadError} b.db_entries f,
  append_assoc (marshal_header b.header),
  unmarshal-marshal_header b.header _ s,
  take_all-written unmarshal_db_entry entry_bytes IsFilled b.header.block_count b.db_entries rest
      unmarshal_filled f n,
)
