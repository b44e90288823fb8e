-- ===== src/VarInt/Rounds.antt =====
-- One round of EncodeVarInt against one round of DecodeVarInt.
use factom_code.Common.{
  ℕ, zero, suc, ◌+◌, ◌*◌, ◌/◌, ◌%◌, ◌^◌, ◌<◌, ◌≤◌, ◌≡◌, refl, arith, bit_and, bit_or, Bool, true,
  false, ◌==◌, ==_iff, each_byte, each_byte_lem, List, [], ◌∷◌,
}
use factom_code.VarInt.{encode_var_int, group, encode_loop, decode_loop}

low_table : each_byte (λ b. bit_and b 0x7f == b % 128) 256 ≡ true
unfolding each_byte
low_table = refl

pub low_bits : (b : ℕ) → b < 256 → bit_and b 0x7f ≡ b % 128
low_bits b h = (==_iff _ _).0 (each_byte_lem _ 256 b low_table h)

set_table : each_byte (λ b. bit_or b 0x80 == b % 128 + 128) 256 ≡ true
unfolding each_byte
set_table = refl

pub set_top_bit : (b : ℕ) → b < 256 → bit_or b 0x80 ≡ b % 128 + 128
set_top_bit b h = (==_iff _ _).0 (each_byte_lem _ 256 b set_table h)

-- The seven bits that a round with `h` writes.
abbrev pub digit : ℕ → ℕ
digit h = h / 2 ^ 56 % 128

abbrev pub shifted : ℕ → ℕ
shifted h = h * 2 ^ 7 % 2 ^ 64

pub group_last : (h : ℕ) → group 0 (h / 2 ^ 56 % 256) ≡ digit h
unfolding group
group_last h = omega (arith, low_bits (h / 2 ^ 56 % 256))

pub group_inner : (left h : ℕ) → group (suc left) (h / 2 ^ 56 % 256) ≡ digit h + 128
unfolding group
group_inner left h = ground (arith, set_top_bit (h / 2 ^ 56 % 256))

-- `DecodeVarInt` stops at a last byte, and goes on behind another.
pub decode_last :
    (v g : ℕ) (rest : List ℕ)
    → g < 128
    → v * 128 + g < 2 ^ 64
    → decode_loop v (g ∷ rest) ≡ (v * 128 + g, rest)
unfolding decode_loop
decode_last v g rest hg fits = ground (arith, low_bits g)

pub decode_inner :
    (v g : ℕ) (rest : List ℕ)
    → g < 128
    → v * 128 + g < 2 ^ 64
    → decode_loop v ((g + 128) ∷ rest) ≡ decode_loop (v * 128 + g) rest
unfolding decode_loop
decode_inner v g rest hg fits = ground (arith, low_bits (g + 128))

-- 128 ^ left
abbrev pub weight : ℕ → ℕ
weight zero = 1
weight (suc left) = 128 * weight left

pub weight_pos : (left : ℕ) → 1 ≤ weight left
weight_pos zero = omega arith
weight_pos (suc left) = omega (arith, weight_pos left)

pub encode_round :
    (left h : ℕ)
    → encode_loop (suc left) h true
      ≡ group left (h / 2 ^ 56 % 256) ∷ encode_loop left (shifted h) true
unfolding encode_loop
encode_round left h = ground arith

pub encode_skip :
    (left h : ℕ) → h < 2 ^ 56 → encode_loop (suc left) h false ≡ encode_loop left (shifted h) false
unfolding encode_loop
encode_skip left h b = ground arith

pub encode_first :
    (left h : ℕ)
    → 2 ^ 56 ≤ h
    → h < 2 ^ 63
    → encode_loop (suc left) h false ≡ encode_loop (suc left) h true
unfolding encode_loop
encode_first left h b f = ground arith

pub encode_done : (h : ℕ) (start : Bool) → encode_loop 0 h start ≡ []
unfolding encode_loop
encode_done h start = refl

pub encode_zero : encode_var_int 0 ≡ 0 ∷ []
unfolding encode_var_int encode_loop group
encode_zero = refl

pub encode_low : (v : ℕ) → 0 < v → v < 2 ^ 63 → encode_var_int v ≡ encode_loop 9 v false
unfolding encode_var_int
encode_low v pos b = ground arith

pub encode_high : (v : ℕ) → 2 ^ 63 ≤ v → encode_var_int v ≡ 0x81 ∷ encode_loop 9 v true
unfolding encode_var_int
encode_high v b = ground arith
