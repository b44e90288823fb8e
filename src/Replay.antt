-- ===== src/Replay.antt =====
-- process/replay.go: a hash is taken once, within a window of 24 hours around the clock. Times are
-- seconds since 1970, not negative.
pub mod Window
pub mod Remembers
pub mod Calls
pub mod Once
mod Tests
use factom_code.Common.{
  ℕ, zero, suc, ◌+◌, ◌-◌, ◌/◌, ◌<◌, ◌≤◌, Bool, true, false, ◌||◌, Option, none, some, List, [], ◌∷◌,
  ◌++◌, length, replicate, get_elem?, set, copy, drop, ltb, leb, ◌==◌, if◌then◌else◌,
}
use factom_code.Common.Map.{Map, lookup, insert}

abbrev pub num_buckets : ℕ
num_buckets = 24

-- The package's variables. A bucket is `none` while its map is nil.
pub record Replay : Type 0 where
  pub buckets : List (Option (Map ℕ))
  pub last_time : ℕ

-- The variables at the start of the program.
abbrev pub start : Replay
start = record { buckets = replicate num_buckets none; last_time = 0 }

abbrev pub hours : ℕ → ℕ
hours unix = unix / 60 / 60

-- The loop `for lasttime < now`: every hour all buckets move down a slot.
pub shift : ℕ → List (Option (Map ℕ)) → List (Option (Map ℕ))
shift zero buckets = buckets
shift (suc n) buckets = shift n (drop 1 buckets ++ some [] ∷ [])

-- The buckets at the hour `now`. More than 24 hours behind, the clock jumps first.
pub advance : ℕ → Replay → Replay
advance now st =
    let last = if ltb (st.last_time + num_buckets) now then now - num_buckets else st.last_time in
    if ltb last now
    then record { buckets = shift (now - last) st.buckets; last_time = now }
    else record { buckets = st.buckets; last_time = last }

-- _, ok := buckets[index][h]: a key that is there is refused, and another is added.
pub add_if_new : List ℕ → ℕ → ℕ → Replay → Map ℕ → Option ℕ → Option (Bool × Replay)
add_if_new h t index st bucket (some seen) = some (false, st)
add_if_new h t index st bucket none =
    some (true, record st { buckets = set st.buckets index (some (insert h t bucket)) })

-- A write to a nil map panics, which is `none`; a read of one finds nothing.
pub remember : List ℕ → ℕ → ℕ → Replay → Option (Map ℕ) → Option (Bool × Replay)
unfolding add_if_new
remember h t index st none = none
remember h t index st (some bucket) = add_if_new h t index st bucket (lookup h bucket)

unfoldable pub flat : Option (Option (Map ℕ)) → Option (Map ℕ)
flat none = none
flat (some b) = b

pub bucket_at : ℕ → Replay → Option (Map ℕ)
bucket_at index st = flat (get_elem? st.buckets index)

-- IsTSValid_(hash, timestamp, now): the answer and the variables, or `none` for a panic.
pub is_ts_valid : List ℕ → ℕ → ℕ → Replay → Option (Bool × Replay)
is_ts_valid hash timestamp now st =
    let n = hours now in
    let st' = advance n st in
    let t = hours timestamp in
    let index = t + 12 - n in
    if ltb (t + 12) n || leb num_buckets index
    then some (false, st')
    else remember (copy (replicate 32 0) hash) t index st' (bucket_at index st')
