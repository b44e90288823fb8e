-- ===== src/Slice.antt =====
-- Reading off the front of a byte slice, as the UnmarshalBinaryData methods do that keep what is left
-- in `newData`: each read answers what it took and the rest of the slice. What a method that fails
-- leaves in its object is not modelled. UnmarshalBinaryData of common/hash.go is among the reads.
pub mod Laws
use factom_code.Common.{ℕ, zero, suc, List, [], ◌∷◌, length, take, drop, copy, ltb, if◌then◌else◌}
use factom_code.Common.Bytes.{get_uint}
use factom_code.Common.Exec.{Result, ok, err, panic}
use factom_code.Buffer.{ReadError, recovered}
use factom_code.Hash.{Hash, zero_hash, hash_length}

abbrev pub Slice : Type 0 → Type 0
Slice A = List ℕ → Result ReadError (A × List ℕ)

module _ {A : Type 0} where
  abbrev pub return : A → Slice A
  return a new_data = ok (a, new_data)

  abbrev pub fail : ReadError → Slice A
  fail e new_data = err e

  -- The deferred recover of a method: a panic becomes its error.
  abbrev pub recovering : Result ReadError A → Result ReadError A
  recovering (ok a) = ok a
  recovering (err e) = err e
  recovering panic = err recovered

module _ {A B : Type 0} where
  abbrev pub go_on : Result ReadError (A × List ℕ) → (A → Slice B) → Result ReadError (B × List ℕ)
  go_on (ok (a, new_data)) f = f a new_data
  go_on (err e) f = err e
  go_on panic f = panic

  infixl 5 ◌>>=◌ ◌>>◌
  abbrev pub ◌>>=◌ : Slice A → (A → Slice B) → Slice B
  ◌>>=◌ m f new_data = go_on (m new_data) f

  abbrev pub ◌>>◌ : Slice A → Slice B → Slice B
  m >> n = m >>= λ _. n

-- newData[0], newData[1:]
unfoldable pub take_byte : Slice ℕ
take_byte [] = panic
take_byte (b ∷ new_data) = ok (b, new_data)

-- newData[:n], newData[n:]. The second panics where the slice is shorter, whatever its capacity.
unfoldable pub take_bytes : ℕ → Slice (List ℕ)
take_bytes n new_data =
    if ltb (length new_data) n then panic else ok (take n new_data, drop n new_data)

-- binary.BigEndian.Uint32(newData[0:4]), newData[4:] for n = 4, and Uint64 for n = 8.
unfoldable pub take_uint : ℕ → Slice ℕ
take_uint n new_data =
    if ltb (length new_data) n then panic else ok (get_uint 0 (take n new_data), drop n new_data)

-- h.UnmarshalBinaryData(p) on a hash: 32 bytes are copied, and a shorter slice panics behind the copy,
-- which the method recovers.
unfoldable pub unmarshal_hash_into : Hash → Slice Hash
unmarshal_hash_into h p =
    recovering (if ltb (length p) hash_length then panic else ok (copy h p, drop hash_length p))

-- The same on `new(Hash)`.
abbrev pub take_hash : Slice Hash
take_hash = unmarshal_hash_into zero_hash

-- A loop that reads n objects into a slice.
unfoldable pub take_all : {A : Type 0} → Slice A → ℕ → Slice (List A)
take_all m zero = return []
take_all m (suc n) = do a ← m; rest ← take_all m n; return (a ∷ rest)
