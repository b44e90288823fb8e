-- ===== src/VarInt/Shape.antt =====
-- The bytes that EncodeVarInt writes, and what DecodeVarInt takes of any input.
use factom_code.Common.{
  ℕ, ◌+◌, ◌*◌, ◌%◌, ◌^◌, ◌≤◌, ◌<◌, ◌≡◌, arith, List, [], ◌∷◌, length, inl, inr, refl, ◌⊎◌, bit_and,
}
use factom_code.Common.Exec.{ok, panic}
use factom_code.VarInt.{decode_loop, decode_var_int}

-- A number in the format: every byte but the last has its top bit set, and the last has not.
abbrev pub IsVarInt : List ℕ → Type 0
IsVarInt [] = ⊥
IsVarInt (b ∷ []) = b < 128
IsVarInt (b ∷ c ∷ rest) = (128 ≤ b) × (b < 256) × IsVarInt (c ∷ rest)

abbrev Shape : ℕ → List ℕ → Type 0
Shape n bs = IsVarInt bs × (length bs ≤ n)

abbrev Written : List ℕ → Type 0
Written bs = IsVarInt bs × (1 ≤ length bs) × (length bs ≤ 10)

written : {n : ℕ} (bs : List ℕ) → n ≤ 10 → Shape n bs → Written bs
written [] k s = elim s.0 [ ]
written (b ∷ bs) k s = (s.0, omega arith, omega arith)

abbrev Takes : ℕ → List ℕ → ℕ × List ℕ → Type 0
Takes v bs r = (v < 2 ^ 64 → r.0 < 2 ^ 64) × (length r.1 ≤ length bs)

loop-Takes : (v : ℕ) (bs : List ℕ) → Takes v bs (decode_loop v bs)
unfolding decode_loop
loop-Takes v [] = ((λ h. h), omega arith)
loop-Takes v (b ∷ rest) =
    ground (arith, loop-Takes ((v * 2 ^ 7 % 2 ^ 64 + bit_and b 0x7f) % 2 ^ 64) rest)

loop_shorter : (v b : ℕ) (rest : List ℕ) → length (decode_loop v (b ∷ rest)).1 ≤ length rest
unfolding decode_loop
loop_shorter v b rest =
    ground (arith, loop-Takes ((v * 2 ^ 7 % 2 ^ 64 + bit_and b 0x7f) % 2 ^ 64) rest)

-- DecodeVarInt panics on no input; on any other it returns a uint64 and takes a byte at least.
pub decode_takes :
    {E : Type 0} (input : List ℕ)
    → (decode_var_int {E = E} input ≡ panic) × (input ≡ [])
      ⊎ ((v : ℕ) × (left : List ℕ) × (decode_var_int {E = E} input ≡ ok (v, left))
          × (v < 2 ^ 64)
          × (length left < length input))
unfolding decode_var_int
decode_takes [] = inl (refl, refl)
decode_takes (b ∷ rest) = inr (
  (decode_loop 0 (b ∷ rest)).0,
  (decode_loop 0 (b ∷ rest)).1,
  refl,
  (loop-Takes 0 (b ∷ rest)).0 (omega arith),
  omega (arith, loop_shorter 0 b rest),
)
