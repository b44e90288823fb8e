-- ===== src/Entry.antt =====
-- common/entry.go: the element that carries user data, and its cost (EntryCost of util/misc.go).
pub mod RoundTrip
pub mod Cost
pub mod Fuel
mod Tests
use factom_code.Common.{
  ℕ, zero, suc, ◌+◌, ◌-◌, ◌<◌, ◌≤◌, ◌≡◌, Bool, true, false, not, Option, some, List, [], ◌∷◌, ◌++◌,
  All, length, replicate, copy, ltb, leb, ◌==◌, if◌then◌else◌, ◌^◌,
}
use factom_code.Common.Bytes.{IsByte, put_uint}
use factom_code.Common.Exec.{
  Result, ok, err, panic, Exec, pure, raise, panics, lift, gets, ◌>>=◌, ◌>>◌,
}
use factom_code.Buffer.{
  ReadError, parsing_external_ids, could_not_read_ext_id, out_of_fuel, Reader, Read, new_reader,
  update, read_byte, read_hash, read_uint, read_slice,
}
use factom_code.Hash.{Hash, zero_hash, set_bytes, set_bytes_or_keep}

pub record Entry : Type 0 where
  pub version : ℕ
  pub chain_id : Hash
  pub ext_ids : List (List ℕ)
  pub content : List ℕ

-- NewEntry()
abbrev pub new_entry : Entry
new_entry = record { version = 0; chain_id = zero_hash; ext_ids = []; content = [] }

-- e.IsValid()
abbrev pub is_valid : Entry → Bool
is_valid e = e.version == 0

-- e.MarshalExtIDsBinary(): two bytes for the size of each, and its bytes. The size is cut to uint16.
unfoldable pub marshal_ext_ids : List (List ℕ) → List ℕ
marshal_ext_ids [] = []
marshal_ext_ids (x ∷ xs) = put_uint 2 (length x) ++ (x ++ marshal_ext_ids xs)

-- e.MarshalBinary(). The size of the external IDs is cut to int16.
unfoldable pub marshal : Entry → List ℕ
marshal e =
    e.version
    ∷ (e.chain_id
        ++ (put_uint 2 (length (marshal_ext_ids e.ext_ids))
            ++ (marshal_ext_ids e.ext_ids ++ e.content)))

module _ (sha_256 sha_512 : List ℕ → List ℕ) where
  -- e.Hash(): SHA-256 of the SHA-512 of the bytes and the bytes.
  unfoldable pub hash : Entry → Hash
  hash e = set_bytes_or_keep zero_hash (sha_256 (sha_512 (marshal e) ++ marshal e))

  hash_all : List (List ℕ) → List ℕ
  hash_all [] = []
  hash_all (x ∷ xs) = sha_256 x ++ hash_all xs

  -- NewChainID(e): the hash of the hashes of the external IDs.
  pub new_chain_id : Entry → Hash
  new_chain_id e = set_bytes_or_keep zero_hash (sha_256 (hash_all e.ext_ids))

-- A read whose error is not looked at leaves the variable at 0.
or_zero : Result ReadError ℕ × Reader Entry → Result ReadError ℕ × Reader Entry
or_zero (ok v, s) = (ok v, s)
or_zero (err e, s) = (ok 0, s)
or_zero (panic, s) = (panic, s)

-- var xsize int16; binary.Read(buf, binary.BigEndian, &xsize): the 16 bits.
pub read_x_size : Read Entry ℕ
unfolding or_zero
read_x_size s = or_zero (read_uint 2 s)

-- x := make([]byte, xsize), which panics on a negative int16.
pub make_ext_id : ℕ → Read Entry (List ℕ)
make_ext_id x_size s = if ltb x_size (2 ^ 15) then (ok (replicate x_size 0), s) else (panic, s)

-- The rest of a round: what buf.Read gave against cap(x), and the test of i after `i -= int16(n)`.
pub append_ext_id : ℕ → ℕ → ℕ → List ℕ → Read Entry Unit
append_ext_id i n cap_x x =
    if n == cap_x
    then update (λ e. record e { ext_ids = e.ext_ids ++ x ∷ [] })
      >> (if ltb i n then raise parsing_external_ids else pure tt)
    else raise (could_not_read_ext_id n cap_x)

-- The loop over the external IDs. `i` is the int16 loop variable where it is positive; a round
-- takes at least 2 of it.
pub read_ext_ids : ℕ → ℕ → Read Entry Unit
read_ext_ids fuel zero = pure tt
read_ext_ids zero (suc i) = raise out_of_fuel
read_ext_ids (suc fuel) (suc zero) = do x_size ← read_x_size; raise parsing_external_ids
read_ext_ids (suc fuel) (suc (suc i)) = do
  x_size ← read_x_size
  x ← make_ext_id x_size
  (n, y) ← read_slice x
  append_ext_id i n (length x) y
  read_ext_ids fuel (i - n)

-- int16(extSize), where it is positive.
abbrev pub loop_size : ℕ → ℕ
loop_size ext_size = if ltb ext_size (2 ^ 15) then ext_size else 0

-- e.UnmarshalBinaryData(data). newData is never set, and stays nil.
pub unmarshal_data : Read Entry (List ℕ)
unmarshal_data = do
  b ← read_byte
  update (λ e. record e { version = b })
  update (λ e. record e { chain_id = zero_hash })
  h ← read_hash
  chain_id ← λ s. lift (set_bytes s.recv.chain_id h) s
  update (λ e. record e { chain_id = chain_id })
  ext_size ← read_uint 2
  read_ext_ids (loop_size ext_size) (loop_size ext_size)
  λ s. (ok tt, record s { recv = record s.recv { content = s.buf } })
  pure []

pub unmarshal : Entry → List ℕ → Result ReadError (List ℕ) × Reader Entry
unmarshal e input = unmarshal_data (new_reader e input)
