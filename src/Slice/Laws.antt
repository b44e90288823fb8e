-- ===== src/Slice/Laws.antt =====
-- What each read of a slice takes, where the slice begins with what it wants.
use factom_code.Common.{
  zero, suc, ℕ, ◌<◌, ◌^◌, ◌≡◌, refl, arith, List, [], ◌∷◌, ◌++◌, All, length, append_assoc,
  take-append, drop-append, length-append, copy_prefix,
}
use factom_code.Common.Bytes.{put_uint, length-put_uint, get_uint-put_uint}
use factom_code.Common.Exec.{ok}
use factom_code.Hash.{Hash, hash_length}
use factom_code.Slice.{
  Slice, take_byte, take_bytes, take_uint, unmarshal_hash_into, take_hash, take_all,
}

pub take_byte_lem : {rest : List ℕ} (b : ℕ) → take_byte (b ∷ rest) ≡ ok (b, rest)
unfolding take_byte
take_byte_lem b = refl

pub take_bytes_lem :
    {rest : List ℕ} {n : ℕ} (bytes : List ℕ)
    → length bytes ≡ n
    → take_bytes n (bytes ++ rest) ≡ ok (bytes, rest)
unfolding take_bytes
take_bytes_lem {rest = rest} {n = n} bytes h =
    rw (take-append bytes rest n h, drop-append bytes rest n h)
      (ground (arith, length-append bytes rest))

pub take_uint_lem :
    {rest : List ℕ} (n v : ℕ) → v < 256 ^ n → take_uint n (put_uint n v ++ rest) ≡ ok (v, rest)
unfolding take_uint
take_uint_lem {rest = rest} n v h =
    rw
      (
        take-append _ rest n (length-put_uint n v),
        drop-append _ rest n (length-put_uint n v),
        get_uint-put_uint n v h,
      )
      (ground (arith, length-append (put_uint n v) rest, length-put_uint n v))

pub take_hash_lem :
    {rest : List ℕ} (h : Hash) → length h ≡ hash_length → take_hash (h ++ rest) ≡ ok (h, rest)
unfolding unmarshal_hash_into
take_hash_lem {rest = rest} h s =
    rw (copy_prefix _ h rest s, drop-append h rest hash_length s)
      (ground (arith, length-append h rest))

module _ {A : Type 0} where
  -- The bytes of all the objects of a list.
  unfoldable pub written : (A → List ℕ) → List A → List ℕ
  written f [] = []
  written f (a ∷ vs) = f a ++ written f vs

  -- A loop reads back a list, where one round reads back an object.
  pub take_all-written :
      (m : Slice A) (f : A → List ℕ) (P : A → Type 0) (n : ℕ) (vs : List A) (rest : List ℕ)
      → ((a : A) (bytes : List ℕ) → P a → m (f a ++ bytes) ≡ ok (a, bytes))
      → All P vs
      → n ≡ length vs
      → take_all m n (written f vs ++ rest) ≡ ok (vs, rest)
  unfolding take_all written
  take_all-written m f P zero [] rest h s e = refl
  take_all-written m f P (suc n) [] rest h s e = absurd (omega arith)
  take_all-written m f P zero (a ∷ vs) rest h s e = absurd (omega arith)
  take_all-written m f P (suc n) (a ∷ vs) rest h s e = rw (
    append_assoc (f a),
    h a (written f vs ++ rest) s.0,
    take_all-written m f P n vs rest h s.1 (omega arith),
  )
