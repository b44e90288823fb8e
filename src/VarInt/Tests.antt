-- ===== src/VarInt/Tests.antt =====
-- Runs of the functions of common/varint.go, those of common/varint_test.go among them.
use factom_code.Common.{ℕ, ◌^◌, ◌<◌, ◌≡◌, ◌⊎◌, refl, arith, List, [], ◌∷◌, ◌++◌, length}
use factom_code.Common.Exec.{ok, panic}
use factom_code.VarInt.{encode_var_int, encode_loop, group, decode_var_int}
use factom_code.VarInt.RoundTrip.{decode-encode}
use factom_code.VarInt.Shape.{decode_takes}

encode_3 : encode_var_int 3 ≡ 3 ∷ []
unfolding encode_var_int encode_loop group
encode_3 = refl

encode_0 : encode_var_int 0 ≡ 0 ∷ []
unfolding encode_var_int encode_loop group
encode_0 = refl

encode_130 : encode_var_int 130 ≡ 0x81 ∷ 0x02 ∷ []
unfolding encode_var_int encode_loop group
encode_130 = refl

encode_2_63 :
    encode_var_int 0x8000000000000000
    ≡ 0x81 ∷ 0x80 ∷ 0x80 ∷ 0x80 ∷ 0x80 ∷ 0x80 ∷ 0x80 ∷ 0x80 ∷ 0x80 ∷ 0 ∷ []
unfolding encode_var_int encode_loop group
encode_2_63 = refl

decode-encode_example : decode_var_int {E = Unit} (encode_var_int 300 ++ 7 ∷ []) ≡ ok (300, 7 ∷ [])
decode-encode_example = decode-encode 300 (7 ∷ []) (omega arith)

abbrev input : List ℕ
input = 0x82 ∷ 0x2c ∷ 7 ∷ []

decode_takes_example :
    (decode_var_int {E = Unit} input ≡ panic) × (input ≡ [])
    ⊎ ((v : ℕ) × (left : List ℕ) × (decode_var_int {E = Unit} input ≡ ok (v, left))
        × (v < 2 ^ 64)
        × (length left < length input))
decode_takes_example = decode_takes input
