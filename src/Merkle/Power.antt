-- ===== src/Merkle/Power.antt =====
-- nextPowerOfTwo of common/merkle.go gives a power of two.
use Prim.Native.Nat.{digits, bit_and-bitwise, min}
use native.Mathlib.Nat.{pow-suc}
use native.Mathlib.Decide.{ℕ_discrete, dec_lt}
use factom_code.Common.{
  ℕ, zero, suc, ◌+◌, ◌-◌, ◌*◌, ◌/◌, ◌%◌, ◌^◌, ◌≤◌, ◌<◌, ◌≡◌, inl, inr, refl, sym, ◌∙◌, ap, arith,
  bit_and, lt→ltb, ge→ltb, ◌==◌, ==_iff, Bool-cases, true, false,
}
use factom_code.Merkle.{log_2, next_power_of_two}

-- The binary digits that two numbers share, for a count of digits.
abbrev shared : ℕ → ℕ → ℕ → ℕ
shared count a b = digits (λ x. zero) min count a b

shared_self : (count a : ℕ) → a ≤ count → shared count a a ≡ a
shared_self zero zero h = refl
shared_self zero (suc a) h = absurd (omega arith)
shared_self (suc count) zero h = refl
shared_self (suc count) (suc a) h = omega (arith, shared_self count (suc a / 2) (omega arith))

IsPowerOf2 : ℕ → Type 0
IsPowerOf2 n = (k : ℕ) × (n ≡ 2 ^ k)

doubled : (m n : ℕ) → n ≡ m * 2 → IsPowerOf2 m → IsPowerOf2 n
unfolding IsPowerOf2
doubled m n e (k, h) = (suc k, omega (arith, pow-suc 2 k, h))

-- A number that shares no digit with the one before it is a power of two.
shared_pred : (count a : ℕ) → suc a ≤ count → shared count (suc a) a ≡ 0 → IsPowerOf2 (suc a)
unfolding IsPowerOf2
shared_pred zero a h e = absurd (omega arith)
shared_pred (suc count) a h e =
    let higher : shared count (suc a / 2) (a / 2) ≡ 0 = omega (arith, e) in
    elim (ℕ_discrete (a % 2) 0) [
      | yes odd ↦
          let half : suc a / 2 ≡ a / 2 = omega arith in
          let same : shared count (a / 2) (a / 2) ≡ 0 =
            ap (λ (x : ℕ). shared count x (a / 2)) (sym half) ∙ higher in
          (0, omega (arith, same, shared_self count (a / 2) (omega arith)))
      | no even ↦
          let half : suc a / 2 ≡ suc (a / 2) = omega arith in
          let same : shared count (suc (a / 2)) (a / 2) ≡ 0 =
            ap (λ (x : ℕ). shared count x (a / 2)) (sym half) ∙ higher in
          doubled (suc (a / 2)) (suc a) (omega arith) (shared_pred count (a / 2) (omega arith) same)
    ]

two_pow : (l : ℕ) → 2 ^ (l + 1) ≡ 2 ^ l * 2
two_pow l = let next : l + 1 ≡ suc l = omega arith in ap (λ (x : ℕ). 2 ^ x) next ∙ pow-suc 2 l

log_2_small : (fuel n : ℕ) → n < 2 → log_2 (suc fuel) n ≡ 0
unfolding log_2
log_2_small fuel n h = rw (lt→ltb n 2 h)

log_2_half : (fuel n : ℕ) → 2 ≤ n → log_2 (suc fuel) n ≡ log_2 fuel (n / 2) + 1
unfolding log_2
log_2_half fuel n h = rw (ge→ltb n 2 h)

log_2_lem : (fuel n : ℕ) → 0 < n → n ≤ fuel → (2 ^ log_2 fuel n ≤ n) × (n < 2 ^ (log_2 fuel n + 1))
log_2_lem zero n p h = absurd (omega arith)
log_2_lem (suc fuel) n p h = elim (dec_lt n 2) [
  | yes one ↦ rw (log_2_small fuel n one) (omega arith)
  | no more ↦
      let l = log_2 fuel (n / 2) in
      let (low, high) = log_2_lem fuel (n / 2) (omega arith) (omega arith) in
      rw (log_2_half fuel n (omega arith), two_pow (l + 1), two_pow l)
        (omega (arith, low, rw (two_pow l) at high))
]

shared_none : (count : ℕ) → shared count 0 0 ≡ 0
shared_none zero = refl
shared_none (suc count) = refl

positive_pow : (l : ℕ) → (m : ℕ) × (2 ^ l ≡ suc m)
positive_pow zero = (0, refl)
positive_pow (suc l) = let (m, h) = positive_pow l in (m * 2 + 1, omega (arith, pow-suc 2 l, h))

-- A power of two shares no digit with the number before it.
shared_pow : (count l a : ℕ) → suc a ≤ count → suc a ≡ 2 ^ l → shared count (suc a) a ≡ 0
shared_pow zero l a h e = absurd (omega arith)
shared_pow (suc count) zero a h e =
    let none : a ≡ 0 = omega (arith, e) in rw none (omega (arith, shared_none count))
shared_pow (suc count) (suc l) a h e =
    let (m, half) = positive_pow l in
    let odd : a ≡ m * 2 + 1 = omega (arith, e, half, pow-suc 2 l) in
    let up : suc a / 2 ≡ suc m = omega (arith, odd) in
    let down : a / 2 ≡ m = omega (arith, odd) in
    let higher : shared count (suc a / 2) (a / 2) ≡ 0 =
      rw (up, down) (shared_pow count l m (omega (arith, odd)) (sym half)) in
    omega (arith, higher, odd)

not_pow : (a l : ℕ) → (bit_and (suc a) (suc a - 1) == 0) ≡ false → suc a ≡ 2 ^ l → ⊥
not_pow a l other e =
    let pred : suc a - 1 ≡ a = omega arith in
    let zero_and : bit_and (suc a) (suc a - 1) ≡ 0 =
      rw pred (bit_and-bitwise (suc a) a ∙ shared_pow (suc a) l a (omega arith) e) in
    let power : (bit_and (suc a) (suc a - 1) == 0) ≡ true = (==_iff _ 0).1 zero_and in cc

-- nextPowerOfTwo gives the least power of two that is no less than the number.
pub next_power_of_two_lem :
    (n : ℕ) → 0 < n → (k : ℕ) × (next_power_of_two n ≡ 2 ^ k) × (n ≤ 2 ^ k) × (2 ^ k < n * 2)
unfolding next_power_of_two IsPowerOf2
next_power_of_two_lem zero p = absurd (omega arith)
next_power_of_two_lem (suc a) p = elim (Bool-cases (bit_and (suc a) (suc a - 1) == 0)) [
  | inl power ↦
      let pred : suc a - 1 ≡ a = omega arith in
      let none_shared : bit_and (suc a) a ≡ 0 = (==_iff _ 0).0 (rw pred at power) in
      let (k, e) =
        shared_pred (suc a) a (omega arith) (sym (bit_and-bitwise (suc a) a) ∙ none_shared) in
      (k, rw power e, omega (arith, e), omega (arith, e))
  | inr other ↦
      let l = log_2 (suc a) (suc a) in
      let (low, high) = log_2_lem (suc a) (suc a) p (omega arith) in
      let more : 2 ^ l < suc a = elim (dec_lt (2 ^ l) (suc a)) [
        | yes less ↦ less
        | no same ↦ absurd (not_pow a l other (omega (arith, low)))
      ] in
      (l + 1, rw other refl, omega (arith, high), omega (arith, more, two_pow l))
]
