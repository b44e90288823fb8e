-- ===== src/AdminBlock/Codec.antt =====
-- The UnmarshalBinaryData methods of common/adminBlock.go.
pub mod RoundTrip
use factom_code.Common.{ℕ, List, [], ◌∷◌, ◌==◌, if◌then◌else◌}
use factom_code.Common.Exec.{Result, ok, err, panic, and_then}
use factom_code.Buffer.{ReadError}
use factom_code.Hash.{hash_length}
use factom_code.VarInt.{decode_var_int}
use factom_code.Slice.{
  Slice, return, recovering, ◌>>=◌, ◌>>◌, take_byte, take_bytes, take_uint, take_hash, take_all,
}
use factom_code.AdminBlock.{
  DbSignatureEntry, EndOfMinuteEntry, AbEntry, db_signature, end_of_minute, ABlockHeader,
  AdminBlock, type_db_signature, type_minute_num, sig_length,
}

-- The bodies of the methods, behind their deferred recover.
unfoldable pub read_header : Slice ABlockHeader
read_header = do
  admin_chain_id ← take_hash
  prev_ledger_key_mr ← take_hash
  db_height ← take_uint 4
  size ← decode_var_int
  area ← take_bytes size
  message_count ← take_uint 4
  body_size ← take_uint 4
  return (record {
    admin_chain_id = admin_chain_id;
    prev_ledger_key_mr = prev_ledger_key_mr;
    db_height = db_height;
    header_expansion_size = size;
    header_expansion_area = area;
    message_count = message_count;
    body_size = body_size;
  })

unfoldable pub unmarshal_header : Slice ABlockHeader
unmarshal_header new_data = recovering (read_header new_data)

unfoldable pub read_db_signature : Slice DbSignatureEntry
read_db_signature = do
  entry_type ← take_byte
  id ← take_hash
  key ← take_bytes hash_length
  sig ← take_bytes sig_length
  return (record {
    entry_type = entry_type;
    identity_admin_chain_id = id;
    pub_key = key;
    prev_db_sig = sig;
  })

unfoldable pub unmarshal_db_signature : Slice DbSignatureEntry
unmarshal_db_signature new_data = recovering (read_db_signature new_data)

unfoldable pub read_end_of_minute : Slice EndOfMinuteEntry
read_end_of_minute = do
  entry_type ← take_byte
  eom_type ← take_byte
  return (record { entry_type = entry_type; eom_type = eom_type })

unfoldable pub unmarshal_end_of_minute : Slice EndOfMinuteEntry
unmarshal_end_of_minute new_data = recovering (read_end_of_minute new_data)

-- A round of the block's loop: the entry is of the type that its first byte, which is not taken,
-- tells. Of any other byte the interface is nil, and the call of its method panics.
unfoldable pub unmarshal_entry : Slice AbEntry
unmarshal_entry [] = panic
unmarshal_entry (b ∷ rest) =
    if b == type_db_signature
    then (do e ← unmarshal_db_signature; return (db_signature e)) (b ∷ rest)
    else if b == type_minute_num
    then (do m ← unmarshal_end_of_minute; return (end_of_minute m)) (b ∷ rest)
    else panic

unfoldable pub read_block : AdminBlock → Slice AdminBlock
read_block b = do
  h ← unmarshal_header
  vs ← take_all unmarshal_entry h.message_count
  return (record b { header = h; ab_entries = vs })

-- b.UnmarshalBinaryData(data). The hashes that `b` keeps stay.
unfoldable pub unmarshal : AdminBlock → Slice AdminBlock
unmarshal b new_data = recovering (read_block b new_data)
