-- ===== src/VarInt/RoundTrip.antt =====
-- DecodeVarInt reads back what EncodeVarInt writes.
use factom_code.Common.{
  ℕ, zero, suc, ◌+◌, ◌-◌, ◌*◌, ◌%◌, ◌^◌, ◌≤◌, ◌<◌, ◌≡◌, arith, true, false, List, [], ◌∷◌, ◌++◌, ap,
  ◌∙◌,
}
use native.Mathlib.Decide.{dec_lt}
use factom_code.Common.Exec.{ok}
use factom_code.VarInt.{encode_loop, decode_loop, encode_var_int, decode_var_int}
use factom_code.VarInt.Rounds.{
  encode_zero, encode_low, encode_high, digit, shifted, weight, weight_pos, encode_round,
  encode_skip, encode_first, group_last, group_inner, decode_last, decode_inner,
}

-- What rounds of weight `p` with `h` are to write: `w`, shifted to bit 63.
abbrev Holds : ℕ → ℕ → ℕ → Type 0
Holds p h w = h % 2 ^ 63 * p ≡ w * 2 ^ 63

split_top : (h : ℕ) → h % 2 ^ 63 ≡ digit h * 2 ^ 56 + h % 2 ^ 56
split_top h = omega arith

split_times : (p h : ℕ) → h % 2 ^ 63 * p ≡ digit h * p * 2 ^ 56 + h % 2 ^ 56 * p
split_times p h = omega (arith, ap (λ (t : ℕ). t * p) (split_top h))

shifted_times : (p h : ℕ) → shifted h % 2 ^ 63 * p ≡ 128 * (h % 2 ^ 56 * p)
shifted_times p h =
    let e : shifted h % 2 ^ 63 ≡ 128 * (h % 2 ^ 56) = omega arith in
    omega (arith, ap (λ (t : ℕ). t * p) e)

Holds-digit : (p h w : ℕ) → Holds (128 * p) h w → digit h * p ≤ w
Holds-digit p h w e = omega (arith, split_times p h)

Holds-next : (p h w : ℕ) → Holds (128 * p) h w → Holds p (shifted h) (w - digit h * p)
Holds-next p h w e = omega (arith, split_times p h, shifted_times p h)

Holds-last : (h w : ℕ) → Holds 128 h w → digit h ≡ w
Holds-last h w e = omega arith

regroup : (p v g : ℕ) → (v * 128 + g) * p ≡ v * (128 * p) + g * p
regroup p v g = omega arith

no_digit : {h : ℕ} → h < 2 ^ 56 → digit h ≡ 0
no_digit b = omega arith

fits_round : (p v g w : ℕ) → 1 ≤ p → g * p ≤ w → v * (128 * p) + w < 2 ^ 64 → v * 128 + g < 2 ^ 64
fits_round p v g w h k f = grind arith

-- `left + 1` rounds written with `start` set are read back behind a value `v`.
decode-encode_rounds :
    (left v h w : ℕ) (rest : List ℕ)
    → Holds (weight (suc left)) h w
    → v * weight (suc left) + w < 2 ^ 64
    → decode_loop v (encode_loop (suc left) h true ++ rest) ≡ (v * weight (suc left) + w, rest)
decode-encode_rounds zero v h w rest e f =
    rw (encode_round, group_last, Holds-last h w e)
      (unfold encode_loop in decode_last v w rest (omega (arith, Holds-last h w e)) f)
decode-encode_rounds (suc left) v h w rest e f =
    let g = digit h in
    let p = weight (suc left) in
    let under : g * p ≤ w = Holds-digit p h w e in
    let fits : v * 128 + g < 2 ^ 64 = fits_round p v g w (weight_pos (suc left)) under f in
    rw (encode_round, group_inner)
      (decode_inner v g (encode_loop (suc left) (shifted h) true ++ rest) (omega arith) fits
        ∙ decode-encode_rounds left (v * 128 + g) (shifted h) (w - g * p) rest (Holds-next p h w e)
            (omega (arith, regroup p v g))
        ∙ ap (λ (t : ℕ). (t, rest)) (omega (arith, regroup p v g)))

decode-encode_start :
    (left h w : ℕ) (rest : List ℕ)
    → Holds (weight (suc left)) h w
    → w < 2 ^ 64
    → decode_loop 0 (encode_loop (suc left) h true ++ rest) ≡ (w, rest)
decode-encode_start left h w rest e f =
    decode-encode_rounds left 0 h w rest e (omega arith) ∙ ap (λ (t : ℕ). (t, rest)) (omega arith)

-- Leading groups of zero are not written; the first that is not zero starts the number.
decode-encode_skip :
    (left h w : ℕ) (rest : List ℕ)
    → h < 2 ^ 63
    → 0 < w
    → w < 2 ^ 64
    → Holds (weight (suc left)) h w
    → decode_loop 0 (encode_loop (suc left) h false ++ rest) ≡ (w, rest)
decode-encode_skip zero h w rest b pos f e =
    rw (encode_first 0 h (omega arith) b) (decode-encode_start 0 h w rest e f)
decode-encode_skip (suc left) h w rest b pos f e = elim (dec_lt h (2 ^ 56)) [
  | no large ↦
      rw (encode_first (suc left) h (omega arith) b) (decode-encode_start (suc left) h w rest e f)
  | yes small ↦ rw (encode_skip (suc left) h small) (
      decode-encode_skip left (shifted h) w rest (omega arith) pos f
        (skip_Holds (weight (suc left)) small e))
]
  where
    skip_Holds : (p : ℕ) → h < 2 ^ 56 → Holds (128 * p) h w → Holds p (shifted h) w
    skip_Holds p small e =
        let zero_digit : digit h * p ≡ 0 = rw (no_digit small) (omega arith) in
        omega (arith, split_times p h, shifted_times p h)

decode-encode_low :
    (v : ℕ) (rest : List ℕ)
    → 0 < v
    → v < 2 ^ 63
    → decode_loop 0 (encode_loop 9 v false ++ rest) ≡ (v, rest)
decode-encode_low v rest pos b = decode-encode_skip 8 v v rest b pos (omega arith) (omega arith)

decode-encode_high :
    (v : ℕ) (rest : List ℕ)
    → 2 ^ 63 ≤ v
    → v < 2 ^ 64
    → decode_loop 0 (0x81 ∷ (encode_loop 9 v true ++ rest)) ≡ (v, rest)
decode-encode_high v rest b f =
    decode_inner 0 1 (encode_loop 9 v true ++ rest) (omega arith) (omega arith)
    ∙ decode-encode_rounds 8 1 v (v - 2 ^ 63) rest (omega arith) (omega arith)
    ∙ ap (λ (t : ℕ). (t, rest)) (omega arith)

decode_of_loop :
    {E : Type 0} (input : List ℕ) {v : ℕ} {rest : List ℕ}
    → decode_loop 0 input ≡ (v, rest)
    → 0 < v
    → decode_var_int {E = E} input ≡ ok (v, rest)
unfolding decode_loop decode_var_int
decode_of_loop [] e pos = absurd (omega (arith, ap (λ (t : ℕ × List ℕ). t.0) e))
decode_of_loop (b ∷ rest) e pos = ap ok e

-- DecodeVarInt returns every uint64 that EncodeVarInt wrote, and the bytes that follow it.
pub decode-encode :
    {E : Type 0} (v : ℕ) (rest : List ℕ)
    → v < 2 ^ 64
    → decode_var_int {E = E} (encode_var_int v ++ rest) ≡ ok (v, rest)
decode-encode {E} v rest f = elim (dec_lt v (2 ^ 63)) [
  | no large ↦
      rw (encode_high v (omega arith))
        (decode_of_loop _ (decode-encode_high v rest (omega arith) f) (omega arith))
  | yes low ↦ small v f low
]
  where
    small :
        (v : ℕ)
        → v < 2 ^ 64
        → v < 2 ^ 63
        → decode_var_int {E = E} (encode_var_int v ++ rest) ≡ ok (v, rest)
    small zero f low =
        rw encode_zero
          (unfold decode_var_int in ap ok (decode_last 0 0 rest (omega arith) (omega arith)))
    small (suc v) f low =
        rw (encode_low (suc v) (omega arith) low)
          (decode_of_loop _ (decode-encode_low (suc v) rest (omega arith) low) (omega arith))
