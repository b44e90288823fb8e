-- ===== src/AdminBlock/Codec/RoundTrip.antt =====
-- The admin block of common/adminBlock.go, written and read back.
use factom_code.Common.{
  zero, suc, ℕ, ◌<◌, ◌^◌, ◌≡◌, refl, arith, List, [], ◌∷◌, ◌++◌, All, length, append_assoc,
}
use factom_code.Common.Bytes.{put_uint}
use factom_code.Common.Exec.{ok, and_then}
use factom_code.Buffer.{ReadError}
use factom_code.VarInt.{encode_var_int}
use factom_code.VarInt.RoundTrip.{decode-encode}
use factom_code.Slice.Laws.{
  take_bytes_lem, take_uint_lem, take_hash_lem, take_byte_lem, written, take_all-written,
}
use factom_code.AdminBlock.{
  AbEntry, db_signature, end_of_minute, ABlockHeader, AdminBlock, type_db_signature,
  type_minute_num, marshal_entry, marshal_entries, marshal_header, marshal,
}
use factom_code.AdminBlock.Codec.{
  read_header, unmarshal_header, read_db_signature, read_end_of_minute, unmarshal_db_signature,
  unmarshal_end_of_minute, unmarshal_entry, read_block, unmarshal,
}

-- The sizes of the header's hashes and the ranges of its numbers.
pub record IsSized (h : ABlockHeader) : Type 0 where
  pub admin_chain_id : length h.admin_chain_id ≡ 32
  pub prev_ledger_key_mr : length h.prev_ledger_key_mr ≡ 32
  pub db_height : h.db_height < 256 ^ 4
  pub header_expansion_size : h.header_expansion_size < 2 ^ 64
  pub header_expansion_area : length h.header_expansion_area ≡ h.header_expansion_size
  pub message_count : h.message_count < 256 ^ 4
  pub body_size : h.body_size < 256 ^ 4

-- An entry whose type byte is its own, with the sizes of its arrays.
unfoldable pub IsTyped : AbEntry → Type 0
IsTyped (db_signature e) =
    (e.entry_type ≡ type_db_signature)
    × (length e.identity_admin_chain_id ≡ 32)
    × (length e.pub_key ≡ 32)
    × (length e.prev_db_sig ≡ 64)
IsTyped (end_of_minute m) = m.entry_type ≡ type_minute_num

unmarshal-marshal_header :
    (h : ABlockHeader) (rest : List ℕ)
    → IsSized h
    → unmarshal_header (marshal_header h ++ rest) ≡ ok (h, rest)
unfolding unmarshal_header read_header marshal_header
unmarshal-marshal_header h rest s = rw (
  append_assoc h.admin_chain_id,
  append_assoc h.prev_ledger_key_mr,
  append_assoc (put_uint 4 h.db_height),
  append_assoc (encode_var_int h.header_expansion_size),
  append_assoc h.header_expansion_area,
  append_assoc (put_uint 4 h.message_count),
  take_hash_lem h.admin_chain_id s.admin_chain_id,
  take_hash_lem h.prev_ledger_key_mr s.prev_ledger_key_mr,
  take_uint_lem 4 h.db_height s.db_height,
  decode-encode h.header_expansion_size _ s.header_expansion_size,
  take_bytes_lem h.header_expansion_area s.header_expansion_area,
  take_uint_lem 4 h.message_count s.message_count,
  take_uint_lem 4 h.body_size s.body_size,
)

unmarshal-marshal_entry :
    (v : AbEntry) (rest : List ℕ)
    → IsTyped v
    → unmarshal_entry (marshal_entry v ++ rest) ≡ ok (v, rest)
unfolding unmarshal_entry marshal_entry unmarshal_db_signature read_db_signature
    unmarshal_end_of_minute read_end_of_minute IsTyped
unmarshal-marshal_entry (db_signature e) rest (t, id, key, sig) = rw (
  append_assoc e.identity_admin_chain_id,
  append_assoc e.pub_key,
  t,
  take_byte_lem,
  take_hash_lem e.identity_admin_chain_id id,
  take_bytes_lem e.pub_key key,
  take_bytes_lem e.prev_db_sig sig,
)
unmarshal-marshal_entry (end_of_minute m) rest t = rw (t, take_byte_lem, take_byte_lem)

pub marshal_entries-all :
    {E : Type 0} (n : ℕ) (vs : List AbEntry)
    → n ≡ length vs
    → marshal_entries {E = E} n vs ≡ ok (written marshal_entry vs)
unfolding marshal_entries written
marshal_entries-all zero [] h = refl
marshal_entries-all (suc n) [] h = absurd (omega arith)
marshal_entries-all zero (v ∷ vs) h = absurd (omega arith)
marshal_entries-all {E = E} (suc n) (v ∷ vs) h = rw (marshal_entries-all {E = E} n vs (omega arith))

pub unmarshal-marshal_admin_block :
    (b₀ b : AdminBlock) (rest : List ℕ)
    → IsSized b.header
    → All IsTyped b.ab_entries
    → b.header.message_count ≡ length b.ab_entries
    → and_then (marshal {E = ReadError} b) (λ p. unmarshal b₀ (p ++ rest))
      ≡ ok (record b₀ { header = b.header; ab_entries = b.ab_entries }, rest)
unfolding marshal unmarshal read_block
unmarshal-marshal_admin_block b₀ b rest s typed n = rw (
  marshal_entries-all {E = ReadError} b.header.message_count b.ab_entries n,
  append_assoc (marshal_header b.header),
  unmarshal-marshal_header b.header _ s,
  take_all-written unmarshal_entry marshal_entry IsTyped b.header.message_count b.ab_entries rest
      unmarshal-marshal_entry typed n,
)
