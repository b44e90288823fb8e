-- ===== src/Replay/Calls.antt =====
-- IsTSValid_ of process/replay.go, call by call, and what is remembered.
use factom_code.Common.{
  ℕ, ◌+◌, ◌-◌, ◌<◌, ◌≤◌, ◌≡◌, ◌∙◌, refl, arith, Bool-cases, inl, inr, Bool, true, false, ◌||◌, some,
  List, length, ltb, leb,
}
use mathlib.Core.Path.{subst}
use factom_code.Replay.{Replay, num_buckets, hours, advance, bucket_at, is_ts_valid}
use factom_code.Replay.Remembers.{
  key_of, Has, Remembers, false-true, state_of, advance_lem, length-advance, advance-Remembers,
  remember-Remembers, refused, taken,
}

module _ (hash : List ℕ) (timestamp now : ℕ) where
  abbrev out : Bool
  out = ltb (hours timestamp + 12) (hours now) || leb num_buckets (hours timestamp + 12 - hours now)

  out_lem :
      out ≡ false → (hours now ≤ hours timestamp + 12) × (hours timestamp + 12 < hours now + 24)
  out_lem h = ground arith

  abbrev index : ℕ
  index = hours timestamp + 12 - hours now

  -- A call that takes a hash leaves it remembered.
  pub is_ts_valid-Remembers_self :
      (st st' : Replay)
      → length st.buckets ≡ 24
      → st.last_time ≤ hours now
      → is_ts_valid hash timestamp now st ≡ some (true, st')
      → Remembers (key_of hash) (hours timestamp) st' × (st'.last_time ≡ hours now)
  unfolding is_ts_valid
  is_ts_valid-Remembers_self st st' size h e = elim (Bool-cases out) [
    | inl bad ↦ absurd (false-true (rw bad at e))
    | inr good ↦
        let n = hours now in
        let last_n = advance_lem n st h in
        let (least, most) = out_lem good in
        let (size', last', has) =
          taken (key_of hash) (hours timestamp) index (advance n st) st' _
            (length-advance n st size) refl (omega arith) (rw good at e) in
        (
          record {
            size = size';
            ahead = omega arith;
            there = λ i at_i.
                let same : index ≡ i = omega arith in
                subst (λ (k : ℕ). Has (key_of hash) (bucket_at k st')) same has;
          },
          last' ∙ last_n,
        )
  ]

  -- A call, whatever it answers, keeps what is remembered.
  pub is_ts_valid-Remembers :
      {key : List ℕ} {t : ℕ} (st st' : Replay) (b : Bool)
      → st.last_time ≤ hours now
      → Remembers key t st
      → is_ts_valid hash timestamp now st ≡ some (b, st')
      → Remembers key t st'
  unfolding is_ts_valid
  is_ts_valid-Remembers st st' b h r e = elim (Bool-cases out) [
    | inl bad ↦
        subst (Remembers _ _) (state_of (rw bad at e)) (advance-Remembers (hours now) st h r)
    | inr good ↦
        remember-Remembers (key_of hash) (hours timestamp) (hours timestamp + 12 - hours now)
          (advance (hours now) st) st' _ b (advance-Remembers (hours now) st h r) refl
          (rw good at e)
  ]

  -- A call with what is remembered answers false.
  pub is_ts_valid_refused :
      (st : Replay)
      → st.last_time ≤ hours now
      → Remembers (key_of hash) (hours timestamp) st
      → is_ts_valid hash timestamp now st ≡ some (false, advance (hours now) st)
  unfolding is_ts_valid
  is_ts_valid_refused st h r = elim (Bool-cases out) [
    | inl bad ↦ rw bad
    | inr good ↦
        let n = hours now in
        let last_n = advance_lem n st h in
        let (least, most) = out_lem good in
        rw good (
          refused (key_of hash) (hours timestamp) index (advance n st) _
            ((advance-Remembers n st h r).there index (omega arith)))
  ]
