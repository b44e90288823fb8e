-- ===== src/Replay/Window.antt =====
-- The window of IsTSValid_, and what the buckets hold as the clock moves on.
use factom_code.Common.{
  ℕ, zero, suc, ◌+◌, ◌<◌, ◌≤◌, ◌≡◌, ◌≢◌, ◌∙◌, refl, ap, arith, true, Option, some, List, [], ◌∷◌,
  ◌++◌, length, length-append, get_elem?, set,
}
use factom_code.Common.Map.{Map}
use factom_code.Replay.{Replay, hours, shift, is_ts_valid}

-- A timestamp is accepted only if its hour is at most 12 behind the hour of the clock and less than
-- 12 ahead of it.
pub accepted_in_window :
    (hash : List ℕ) (timestamp now : ℕ) (st st' : Replay)
    → is_ts_valid hash timestamp now st ≡ some (true, st')
    → (hours now ≤ hours timestamp + 12) × (hours timestamp < hours now + 12)
unfolding is_ts_valid
accepted_in_window hash timestamp now st st' h = ground arith

abbrev pub Bucket : Type 0
Bucket = Option (Map ℕ)

pub length-shift : (n : ℕ) (bs : List Bucket) → 0 < length bs → length (shift n bs) ≡ length bs
unfolding shift
length-shift zero bs h = refl
length-shift (suc n) [] h = absurd (omega arith)
length-shift (suc n) (b ∷ bs) h =
    length-shift n (bs ++ some [] ∷ []) (omega (arith, length-append bs (some [] ∷ [])))
    ∙ omega (arith, length-append bs (some [] ∷ []))

pub get_elem?-append :
    (bs cs : List Bucket) (i : ℕ) → i < length bs → get_elem? (bs ++ cs) i ≡ get_elem? bs i
get_elem?-append [] cs i h = absurd (omega arith)
get_elem?-append (b ∷ bs) cs zero h = refl
get_elem?-append (b ∷ bs) cs (suc i) h = get_elem?-append bs cs i (omega arith)

-- A bucket that is not tossed moves down a slot an hour.
pub get_elem?-shift :
    (n i j : ℕ) (bs : List Bucket)
    → j ≡ n + i
    → j < length bs
    → get_elem? (shift n bs) i ≡ get_elem? bs j
unfolding shift
get_elem?-shift zero i j bs e h = let same : i ≡ j = omega arith in ap (get_elem? bs) same
get_elem?-shift (suc n) i j [] e h = absurd (omega arith)
get_elem?-shift (suc n) i zero (b ∷ bs) e h = absurd (omega arith)
get_elem?-shift (suc n) i (suc j) (b ∷ bs) e h =
    get_elem?-shift n i j (bs ++ some [] ∷ []) (omega arith)
      (omega (arith, length-append bs (some [] ∷ [])))
    ∙ get_elem?-append bs (some [] ∷ []) j (omega arith)

pub get_elem?-set_self :
    (xs : List Bucket) (i : ℕ) (v : Bucket) → i < length xs → get_elem? (set xs i v) i ≡ some v
get_elem?-set_self [] i v h = absurd (omega arith)
get_elem?-set_self (x ∷ xs) zero v h = refl
get_elem?-set_self (x ∷ xs) (suc i) v h = get_elem?-set_self xs i v (omega arith)

pub get_elem?-set_ne :
    (xs : List Bucket) (i j : ℕ) (v : Bucket) → i ≢ j → get_elem? (set xs i v) j ≡ get_elem? xs j
get_elem?-set_ne [] i j v h = refl
get_elem?-set_ne (x ∷ xs) zero zero v h = absurd (h refl)
get_elem?-set_ne (x ∷ xs) zero (suc j) v h = refl
get_elem?-set_ne (x ∷ xs) (suc i) zero v h = refl
get_elem?-set_ne (x ∷ xs) (suc i) (suc j) v h = get_elem?-set_ne xs i j v (λ e. h (ap suc e))
