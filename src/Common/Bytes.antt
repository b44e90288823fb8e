-- ===== src/Common/Bytes.antt =====
-- Bytes, and encoding/binary's BigEndian.
use factom_code.Common.{
  ℕ, zero, suc, ◌+◌, ◌*◌, ◌/◌, ◌%◌, ◌^◌, ◌<◌, ◌≡◌, refl, ◌∙◌, List, [], ◌∷◌, ◌++◌, arith, length,
  length-append, All, All-append,
}

abbrev pub IsByte : ℕ → Type 0
IsByte b = b < 256

-- The n low bytes of v, the highest first: what binary.Write writes of an unsigned integer.
unfoldable pub put_uint : ℕ → ℕ → List ℕ
put_uint zero v = []
put_uint (suc n) v = put_uint n (v / 256) ++ (v % 256) ∷ []

-- The integer that stands in the bytes: BigEndian.Uint16, Uint32, Uint64.
unfoldable pub get_uint : ℕ → List ℕ → ℕ
get_uint acc [] = acc
get_uint acc (b ∷ bs) = get_uint (acc * 256 + b) bs

pub length-put_uint : (n v : ℕ) → length (put_uint n v) ≡ n
unfolding put_uint
length-put_uint zero v = refl
length-put_uint (suc n) v =
    omega
      (arith, length-append (put_uint n (v / 256)) ((v % 256) ∷ []), length-put_uint n (v / 256))

pub put_uint-IsByte : (n v : ℕ) → All IsByte (put_uint n v)
unfolding put_uint
put_uint-IsByte zero v = tt
put_uint-IsByte (suc n) v =
    All-append IsByte (put_uint n (v / 256)) ((v % 256) ∷ []) (put_uint-IsByte n (v / 256))
      (omega arith)

get_uint-append :
    (acc : ℕ) (xs ys : List ℕ) → get_uint acc (xs ++ ys) ≡ get_uint (get_uint acc xs) ys
unfolding get_uint
get_uint-append acc [] ys = refl
get_uint-append acc (x ∷ xs) ys = get_uint-append (acc * 256 + x) xs ys

pub get_uint-put_uint : (n v : ℕ) → v < 256 ^ n → get_uint 0 (put_uint n v) ≡ v
unfolding get_uint put_uint
get_uint-put_uint zero v h = omega arith
get_uint-put_uint (suc n) v h =
    get_uint-append 0 (put_uint n (v / 256)) ((v % 256) ∷ [])
    ∙ omega (arith, get_uint-put_uint n (v / 256) (grind (arith)))
