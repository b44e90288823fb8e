-- ===== src/Entry/Cost.antt =====
-- EntryCost of util/misc.go: the entry credits for the marshalled bytes of an entry.
use factom_code.Common.{
  ℕ, ◌+◌, ◌-◌, ◌*◌, ◌/◌, ◌%◌, ◌≤◌, ◌<◌, ◌≡◌, ◌⊎◌, Option, none, some, List, arith, length, ltb,
  if◌then◌else◌, refl,
}
use factom_code.Common.{inl, inr}
use native.Mathlib.Decide.{dec_lt}
use factom_code.Common.Int.{pos, sub_ℕ, ltb_ℤ, quot, rem, low_word}

-- EntryCost(b): `none` is the error, on which the callers look at nothing else. `l` is an int, which
-- is negative for less than a header of 35 bytes; `n` is a uint8.
unfoldable pub entry_cost : List ℕ → Option ℕ
entry_cost b =
    let l = sub_ℕ (length b) 35 in
    let r = rem l 1024 in
    let n = low_word 256 (quot l 1024) in
    let n' = if ltb_ℤ (pos 0) r then (n + 1) % 256 else n in
    if ltb_ℤ (pos 10240) l then none else some (if ltb n' 1 then 1 else n')

over_limit : (b : List ℕ) → 10240 + 35 < length b → entry_cost b ≡ none
unfolding entry_cost quot rem
over_limit b h = ground arith

small_cost : (b : List ℕ) → length b ≤ 35 → entry_cost b ≡ some 1
unfolding entry_cost quot rem
small_cost b h = ground arith

-- The KiB begun behind the header.
abbrev kib : ℕ → ℕ
kib l = (l - 35 + 1023) / 1024

large_cost :
    (b : List ℕ) → 35 < length b → length b ≤ 10240 + 35 → entry_cost b ≡ some (kib (length b))
unfolding entry_cost quot rem
large_cost b h k = ground arith

-- An entry is refused exactly above 10 KiB behind its header; up to there it costs one credit for
-- each KiB begun, and one at least.
pub entry_cost_lem :
    (b : List ℕ)
    → (10240 + 35 < length b) × (entry_cost b ≡ none)
      ⊎ ((c : ℕ) × (entry_cost b ≡ some c)
          × (1 ≤ c)
          × (c ≤ 10)
          × (length b ≤ 35 + 1024 * c)
          × ((c ≡ 1) ⊎ (35 + 1024 * (c - 1) < length b)))
entry_cost_lem b = elim (dec_lt (10240 + 35) (length b)) [
  | yes over ↦ inl (over, over_limit b over)
  | no fits ↦ elim (dec_lt 35 (length b)) [
    | yes large ↦ inr (
      kib (length b),
      large_cost b large (omega arith),
      omega arith,
      omega arith,
      omega arith,
      omega arith,
    )
    | no small ↦
        inr (1, small_cost b (omega arith), omega arith, omega arith, omega arith, inl refl)
  ]
]
