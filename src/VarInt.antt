-- ===== src/VarInt.antt =====
-- common/varint.go: unsigned 64-bit integers in 1 to 10 bytes, seven bits a byte, the highest
-- group first, with the top bit set on every byte but the last. A byte slice is a list of numbers.
pub mod Rounds
pub mod RoundTrip
pub mod Shape
mod Tests
use factom_code.Common.{
  ℕ, zero, suc, ◌+◌, ◌*◌, ◌/◌, ◌%◌, ◌^◌, ◌≤◌, bit_and, bit_or, Bool, true, false, ◌||◌, not, List,
  [], ◌∷◌, ◌++◌, length, ltb, leb, ◌==◌, if◌then◌else◌,
}
use factom_code.Common.Exec.{Result, ok, panic}

-- `b | 0x80` on all rounds but the last (i == 8), `b & 0x7F` on that.
pub group : ℕ → ℕ → ℕ
group left b = if left == 0 then bit_and b 0x7f else bit_or b 0x80

-- The loop of EncodeVarInt. The first argument counts the rounds left, 9 - i; the uint64 `h`
-- is shifted out by seven bits a round, and `byte(h >> 56)` is its top byte.
pub encode_loop : ℕ → ℕ → Bool → List ℕ
encode_loop zero h start = []
encode_loop (suc left) h start =
    let b = h / 2 ^ 56 % 256 in
    let h' = h * 2 ^ 7 % 2 ^ 64 in
    let written = group left b ∷ encode_loop left h' true in
    let skipped = encode_loop left h' start in if not (b == 0) || start then written else skipped

-- EncodeVarInt(out, v): what is written to `out`.
pub encode_var_int : ℕ → List ℕ
encode_var_int v =
    let zero_byte : List ℕ = if v == 0 then 0 ∷ [] else [] in
    let high = leb (2 ^ 63) v in
    let marker : List ℕ = if high then 0x81 ∷ [] else [] in
    zero_byte ++ (marker ++ encode_loop 9 v high)

-- The loop of DecodeVarInt over `range data`, and the slice `data[cnt+1:]` behind it. Where the
-- data ends inside the number, the loop ends too, with what was read.
pub decode_loop : ℕ → List ℕ → ℕ × List ℕ
decode_loop v [] = (v, [])
decode_loop v (b ∷ rest) =
    let v' = (v * 2 ^ 7 % 2 ^ 64 + bit_and b 0x7f) % 2 ^ 64 in
    let more = decode_loop v' rest in if ltb b 0x80 then (v', rest) else more

-- DecodeVarInt(data). On no data the slice `data[1:]` is out of range, which panics.
pub decode_var_int : {E : Type 0} → List ℕ → Result E (ℕ × List ℕ)
decode_var_int [] = panic
decode_var_int (b ∷ rest) = ok (decode_loop 0 (b ∷ rest))

-- VarIntLength(v)
unfoldable pub var_int_length : ℕ → ℕ
var_int_length v = length (encode_var_int v)
