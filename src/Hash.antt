-- ===== src/Hash.antt =====
-- common/hash.go: 32-byte hashes. A Hash is the list of the bytes of its array, and `nil` is `none`
-- where a method tests for it. SHA-256 and SHA-512 are parameters of the functions that use them.
pub mod Laws
use factom_code.Common.{
  ℕ, ◌≡◌, Bool, true, false, Option, none, some, List, [], ◌∷◌, ◌++◌, All, length, take, replicate,
  copy, ◌==◌, if◌then◌else◌, get_elem?,
}
use factom_code.Common.Bytes.{IsByte}
use factom_code.Common.Map.{bytes_eq}
use factom_code.Common.Exec.{Result, ok, err, panic, and_then}
use factom_code.Buffer.{ReadError, invalid_sha_length}

abbrev pub hash_length : ℕ
hash_length = 32

abbrev pub Hash : Type 0
Hash = List ℕ

abbrev pub IsHash : Hash → Type 0
IsHash h = (length h ≡ hash_length) × All IsByte h

-- NewHash() and ZERO_HASH
abbrev pub zero_hash : Hash
zero_hash = replicate hash_length 0

-- hash.SetBytes(newHash): the hash afterwards, or the error, with the hash unchanged.
abbrev pub set_bytes : Hash → List ℕ → Result ReadError Hash
set_bytes hash new_hash =
    if length new_hash == hash_length
    then ok (copy hash new_hash)
    else err (invalid_sha_length (length new_hash))

-- A call of SetBytes whose error is not looked at.
abbrev pub kept : Hash → Result ReadError Hash → Hash
kept hash (ok hash') = hash'
kept hash (err e) = hash
kept hash panic = hash

abbrev pub set_bytes_or_keep : Hash → List ℕ → Hash
set_bytes_or_keep hash new_hash = kept hash (set_bytes hash new_hash)

-- Sha(p) and DoubleSha(data), over SHA-256: `copy(h.bytes[:], sha.Sum(nil))`.
module _ (sha_256 : List ℕ → List ℕ) where
  unfoldable pub sha : List ℕ → Hash
  sha p = copy zero_hash (sha_256 p)

  abbrev pub double_sha : List ℕ → List ℕ
  double_sha input = sha_256 (sha_256 input)

-- Sha512Half(p), over SHA-512: the first 32 bytes of the sum.
unfoldable pub sha_512_half : (List ℕ → List ℕ) → List ℕ → Hash
sha_512_half sha_512 p = copy zero_hash (take 32 (sha_512 p))

-- NewShaHash(newHash)
abbrev pub new_sha_hash : List ℕ → Result ReadError Hash
new_sha_hash new_hash = set_bytes zero_hash new_hash

-- h.MarshalBinary(), and h.GetBytes(): a copy.
abbrev pub marshal_hash : Hash → List ℕ
marshal_hash h = h

abbrev pub get_bytes : Hash → List ℕ
get_bytes h = copy (replicate hash_length 0) h

-- CreateHash(entities), of what the entities' MarshalBinary gave: SHA-256 over all that was written,
-- or the first error.
module _ {E : Type 0} where
  abbrev pub write_all : List ℕ → List (Result E (List ℕ)) → Result E (List ℕ)
  write_all written [] = ok written
  write_all written (ok p ∷ entities) = write_all (written ++ p) entities
  write_all written (err e ∷ entities) = err e
  write_all written (panic ∷ entities) = panic

  abbrev pub create_hash : (List ℕ → List ℕ) → List (Result E (List ℕ)) → Result E Hash
  create_hash sha_256 entities =
      and_then (write_all [] entities) λ written. ok (sha sha_256 written)

-- a.IsSameAs(b)
unfoldable pub is_same_as : Option Hash → Option Hash → Bool
is_same_as none b = false
is_same_as (some a) none = false
is_same_as (some a) (some b) = bytes_eq a b

-- h.IsMinuteMarker(): the first 31 bytes are zero.
unfoldable pub is_minute_marker : Hash → Bool
is_minute_marker h = bytes_eq (take 31 h) (take 31 zero_hash)
