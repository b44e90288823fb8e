-- ===== src/Buffer/Laws.antt =====
-- What each read does where the buffer begins with the bytes that it wants.
use factom_code.Common.{
  ◌≤◌, replicate, ℕ, ◌<◌, ◌≡◌, refl, arith, List, ◌∷◌, ◌++◌, length, take-append, drop-append,
  length-append, ◌^◌, copy_prefix,
}
use factom_code.Common.Bytes.{put_uint, length-put_uint, get_uint-put_uint}
use factom_code.Common.Exec.{ok}
use factom_code.Buffer.{
  Reader, read_byte, need, next, read_hash, read_uint, make_slice, read_slice, max_alloc,
}

module _ {R : Type 0} {r : R} where
  pub read_byte_lem :
      {rest hash : List ℕ} (b : ℕ)
      → read_byte (record { recv = r; buf = b ∷ rest; hash = hash })
        ≡ (ok b, record { recv = r; buf = rest; hash = hash })
  unfolding read_byte
  read_byte_lem b = refl

  pub need_lem :
      {hash : List ℕ} {n : ℕ} (bytes rest : List ℕ)
      → length bytes ≡ n
      → need n (record { recv = r; buf = bytes ++ rest; hash = hash })
        ≡ (ok tt, record { recv = r; buf = bytes ++ rest; hash = hash })
  unfolding need
  need_lem {n = n} bytes rest h = ground (arith, length-append bytes rest)

  pub next_lem :
      {rest hash : List ℕ} {n : ℕ} (bytes : List ℕ)
      → length bytes ≡ n
      → next n (record { recv = r; buf = bytes ++ rest; hash = hash })
        ≡ (ok bytes, record { recv = r; buf = rest; hash = hash })
  unfolding next
  next_lem {rest = rest} {n = n} bytes h =
      rw (take-append bytes rest n h, drop-append bytes rest n h)

  pub read_uint_lem :
      {rest hash : List ℕ} (n v : ℕ)
      → 0 < n
      → v < 256 ^ n
      → read_uint n (record { recv = r; buf = put_uint n v ++ rest; hash = hash })
        ≡ (ok v, record { recv = r; buf = rest; hash = hash })
  unfolding read_uint
  read_uint_lem {rest = rest} n v pos h =
      rw
        (
          take-append _ rest n (length-put_uint n v),
          drop-append _ rest n (length-put_uint n v),
          get_uint-put_uint n v h,
        )
        (ground (arith, length-append (put_uint n v) rest, length-put_uint n v))

  pub read_hash_lem :
      {rest : List ℕ} (bytes hash : List ℕ)
      → length bytes ≡ 32
      → length hash ≡ 32
      → read_hash (record { recv = r; buf = bytes ++ rest; hash = hash })
        ≡ (ok bytes, record { recv = r; buf = rest; hash = bytes })
  unfolding read_hash
  read_hash_lem {rest = rest} bytes hash hb hh =
      rw
        (
          copy_prefix hash bytes rest (omega arith),
          drop-append bytes rest (length hash) (omega arith),
        )
        (ground (arith, length-append bytes rest))

  pub read_slice_lem :
      {rest hash : List ℕ} (bytes x : List ℕ)
      → length bytes ≡ length x
      → read_slice x (record { recv = r; buf = bytes ++ rest; hash = hash })
        ≡ (ok (length bytes, bytes), record { recv = r; buf = rest; hash = hash })
  unfolding read_slice
  read_slice_lem {rest = rest} bytes x h =
      rw (copy_prefix x bytes rest h, drop-append bytes rest (length x) h)
        (ground (arith, length-append bytes rest))

pub make_slice_lem :
    {R : Type 0} {s : Reader R} (n : ℕ) → n ≤ max_alloc → make_slice n s ≡ (ok (replicate n 0), s)
unfolding make_slice
make_slice_lem n h = ground arith
