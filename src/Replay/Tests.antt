-- ===== src/Replay/Tests.antt =====
-- Runs of IsTSValid_ of process/replay.go.
use factom_code.Common.{
  ℕ, ◌+◌, ◌<◌, ◌≤◌, ◌≡◌, refl, arith, true, false, some, List, [], ◌∷◌, replicate, copy, set,
}
use factom_code.Common.Map.{insert, lookup, delete, bytes_eq}
use factom_code.Replay.{Replay, hours, advance, is_ts_valid, remember, add_if_new, bucket_at, flat}
use factom_code.Replay.Window.{accepted_in_window}
use factom_code.Replay.Once.{done, call, taken_once}

-- The buckets once the clock has been read in a first hour.
abbrev running : Replay
running = record { buckets = replicate 24 (some []); last_time = 1000 }

abbrev hash : List ℕ
hash = replicate 32 5

-- After the hash was taken at 10:00 of that day.
abbrev after : Replay
after = record running { buckets = set running.buckets 12 (some ((hash, 1000) ∷ [])) }

takes : is_ts_valid hash 3600000 3600000 running ≡ some (true, after)
unfolding is_ts_valid remember add_if_new bucket_at flat advance insert lookup delete copy
takes = refl

refuses_at_once : is_ts_valid hash 3600000 3600000 after ≡ some (false, after)
unfolding is_ts_valid remember add_if_new bucket_at flat advance lookup bytes_eq copy
refuses_at_once = refl

accepted_in_window_example :
    (hours 3600000 ≤ hours 3600000 + 12) × (hours 3600000 < hours 3600000 + 12)
accepted_in_window_example = accepted_in_window hash 3600000 3600000 running after takes

taken_once_example :
    is_ts_valid hash 3600000 3610800 after ≡ some (false, advance (hours 3610800) after)
taken_once_example =
    taken_once hash 3600000 3600000 3610800 running after after refl (omega arith) takes
      (call hash 3600000 3600000 false (omega arith) refuses_at_once done) (omega arith)
