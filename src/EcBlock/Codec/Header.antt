-- ===== src/EcBlock/Codec/Header.antt =====
-- The header of common/ecblock.go, written and read back.
use factom_code.Common.{
  ℕ, ◌≤◌, ◌<◌, ◌^◌, ◌≡◌, sym, arith, List, ◌++◌, length, append_assoc, length-replicate,
}
use factom_code.Common.Bytes.{put_uint}
use factom_code.Common.Exec.{ok}
use factom_code.Buffer.Laws.{read_hash_lem, read_uint_lem, make_slice_lem, read_slice_lem}
use factom_code.Hash.Laws.{set_bytes_lem}
use factom_code.VarInt.{encode_var_int}
use factom_code.VarInt.RoundTrip.{decode-encode}
use factom_code.EcBlock.{EcBlockHeader, EcBlock}
use factom_code.EcBlock.Codec.{marshal_header, unmarshal_header}

-- The sizes of the header's hashes and the ranges of its numbers.
pub record IsSized (h : EcBlockHeader) : Type 0 where
  pub ec_chain_id : length h.ec_chain_id ≡ 32
  pub body_hash : length h.body_hash ≡ 32
  pub prev_header_hash : length h.prev_header_hash ≡ 32
  pub prev_ledger_key_mr : length h.prev_ledger_key_mr ≡ 32
  pub eb_height : h.eb_height < 256 ^ 4
  pub header_expansion_area : length h.header_expansion_area ≤ 2 ^ 48
  pub object_count : h.object_count < 256 ^ 8
  pub body_size : h.body_size < 256 ^ 8

module _ (r : EcBlock) (h : EcBlockHeader) (rest hash : List ℕ) (sr : IsSized r.header)
    (sh : IsSized h) (hh : length hash ≡ 32) where
  pub unmarshal-marshal_header :
      unmarshal_header (record { recv = r; buf = marshal_header h ++ rest; hash = hash }) ≡ (
        ok rest,
        record { recv = record r { header = h }; buf = rest; hash = h.prev_ledger_key_mr },
      )
  unfolding unmarshal_header marshal_header
  unmarshal-marshal_header = rw (
    append_assoc h.ec_chain_id,
    append_assoc h.body_hash,
    append_assoc h.prev_header_hash,
    append_assoc h.prev_ledger_key_mr,
    append_assoc (put_uint 4 h.eb_height),
    append_assoc (encode_var_int (length h.header_expansion_area)),
    append_assoc h.header_expansion_area,
    append_assoc (put_uint 8 h.object_count),
    read_hash_lem _ _ sh.ec_chain_id hh,
    set_bytes_lem _ _ sr.ec_chain_id sh.ec_chain_id,
    read_hash_lem _ _ sh.body_hash sh.ec_chain_id,
    set_bytes_lem _ _ sr.body_hash sh.body_hash,
    read_hash_lem _ _ sh.prev_header_hash sh.body_hash,
    set_bytes_lem _ _ sr.prev_header_hash sh.prev_header_hash,
    read_hash_lem _ _ sh.prev_ledger_key_mr sh.prev_header_hash,
    set_bytes_lem _ _ sr.prev_ledger_key_mr sh.prev_ledger_key_mr,
    read_uint_lem 4 h.eb_height (omega arith) sh.eb_height,
    decode-encode (length h.header_expansion_area) _ (omega (arith, sh.header_expansion_area)),
    make_slice_lem _ sh.header_expansion_area,
    read_slice_lem h.header_expansion_area _ (sym (length-replicate _ 0)),
    read_uint_lem 8 h.object_count (omega arith) sh.object_count,
    read_uint_lem 8 h.body_size (omega arith) sh.body_size,
  )
