-- ===== src/Replay/Once.antt =====
-- A hash that IsTSValid_ took is refused ever after, while its timestamp is in the window and when
-- it has left it.
use factom_code.Common.{ℕ, ◌≤◌, ◌≡◌, Bool, true, false, some, List, length}
use factom_code.Replay.{Replay, hours, advance, is_ts_valid}
use factom_code.Replay.Remembers.{Remembers}
use factom_code.Replay.Calls.{
  is_ts_valid-Remembers_self, is_ts_valid-Remembers, is_ts_valid_refused,
}

-- The calls that follow, in order, with a clock that does not go back an hour.
pub data Run : Replay → Replay → Type 0 where
  done : {st : Replay} → Run st st
  call :
      {st st' last : Replay} (hash : List ℕ) (timestamp now : ℕ) (answer : Bool)
      → st.last_time ≤ hours now
      → is_ts_valid hash timestamp now st ≡ some (answer, st')
      → Run st' last
      → Run st last

Run-Remembers :
    {key : List ℕ} {t : ℕ} {st last : Replay}
    → Run st last
    → Remembers key t st
    → Remembers key t last
Run-Remembers done r = r
Run-Remembers {st = st} (call {st' = st'} hash timestamp now answer later e calls) r =
    Run-Remembers calls (is_ts_valid-Remembers hash timestamp now st st' answer later r e)

-- With 24 buckets and a clock that never goes back an hour, once a call of is_ts_valid has taken a
-- hash and its timestamp, the same hash and timestamp get the answer false after any run of other
-- calls, whatever these take, refuse or toss, and at every later time of the clock.
pub taken_once :
    (hash : List ℕ) (timestamp now later : ℕ) (st taken last : Replay)
    → length st.buckets ≡ 24
    → st.last_time ≤ hours now
    → is_ts_valid hash timestamp now st ≡ some (true, taken)
    → Run taken last
    → last.last_time ≤ hours later
    → is_ts_valid hash timestamp later last ≡ some (false, advance (hours later) last)
taken_once hash timestamp now later st taken last size h e calls k =
    let (r, same) = is_ts_valid-Remembers_self hash timestamp now st taken size h e in
    is_ts_valid_refused hash timestamp later last k (Run-Remembers calls r)
