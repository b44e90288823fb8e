-- ===== src/Chains.antt =====
-- common/echain.go and common/ecchain.go: a chain of entries, without its next block, and the Entry
-- Credit chain.
pub mod RoundTrip
pub mod NeverRead
mod Tests
use factom_code.Common.{ℕ, suc, ◌^◌, ◌≡◌, List, [], ◌∷◌, ◌++◌, length, replicate}
use factom_code.Common.Bytes.{put_uint}
use factom_code.Common.Exec.{Result, ok, err, panic, raise, lift, pure, ◌>>=◌, ◌>>◌}
use factom_code.Buffer.{
  ReadError, invalid_type, Reader, Read, new_reader, update, read_hash, read_uint,
}
use factom_code.Hash.{Hash, zero_hash, set_bytes, set_bytes_or_keep}
use factom_code.Entry
use factom_code.Entry.{Entry, new_entry}
use factom_code.EcBlock.{ec_chain_id_bytes}

pub record EChain : Type 0 where
  pub chain_id : Hash
  pub first_entry : Entry

-- NewEChain()
abbrev pub new_echain : EChain
new_echain = record { chain_id = zero_hash; first_entry = new_entry }

-- e.MarshalBinary()
unfoldable pub marshal_echain : EChain → List ℕ
marshal_echain e = e.chain_id ++ Entry.marshal e.first_entry

-- e.FirstEntry.UnmarshalBinaryData(buf.Bytes()), which changes the entry even where it fails.
abbrev pub with_first_entry :
    Reader EChain
    → Result ReadError (List ℕ) × Reader Entry
    → Result ReadError (List ℕ) × Reader EChain
with_first_entry s r = (r.0, record s { recv = record s.recv { first_entry = r.1.recv } })

-- e.UnmarshalBinaryData(data). The error of SetBytes is not looked at.
unfoldable pub unmarshal_echain_data : Read EChain (List ℕ)
unmarshal_echain_data = do
  hash ← read_hash
  update (λ e. record e { chain_id = set_bytes_or_keep e.chain_id hash })
  λ s. with_first_entry s (Entry.unmarshal s.recv.first_entry s.buf)

abbrev pub unmarshal_echain : EChain → List ℕ → Result ReadError (List ℕ) × Reader EChain
unmarshal_echain e input = unmarshal_echain_data (new_reader e input)

pub record EcChain : Type 0 where
  pub ec_chain_id : Hash
  pub name : List (List ℕ)

-- NewECChain()
abbrev pub new_ec_chain : EcChain
new_ec_chain = record { ec_chain_id = ec_chain_id_bytes; name = [] }

marshal_names : List (List ℕ) → List ℕ
marshal_names [] = []
marshal_names (v ∷ vs) = put_uint 8 (length v) ++ (v ++ marshal_names vs)

-- c.MarshalBinary()
unfoldable pub marshal_ec_chain : EcChain → List ℕ
unfolding marshal_names
marshal_ec_chain c = c.ec_chain_id ++ (put_uint 8 (length c.name) ++ marshal_names c.name)

-- binary.Read(buf, binary.BigEndian, count) with a uint64 in the place of a pointer: the eight bytes
-- are read, and then the type is an error.
unfoldable pub read_into_value : Read EcChain ℕ
read_into_value = do n ← read_uint 8; raise invalid_type

-- c.UnmarshalBinary(data). The count of the names stays 0, so that the names are none and the loop
-- over them has no round.
unfoldable pub unmarshal_ec_chain_data : Read EcChain Unit
unfolding read_into_value
unmarshal_ec_chain_data = do
  hash ← read_hash
  id ← λ s. lift (set_bytes s.recv.ec_chain_id hash) s
  update (λ c. record c { ec_chain_id = id })
  n ← read_into_value
  update (λ c. record c { name = [] })

abbrev pub unmarshal_ec_chain : EcChain → List ℕ → Result ReadError Unit × Reader EcChain
unmarshal_ec_chain c input = unmarshal_ec_chain_data (new_reader c input)
