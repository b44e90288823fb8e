-- ===== src/Replay/Remembers.antt =====
-- What the buckets of process/replay.go hold, hour by hour and call by call.
use factom_code.Common.{
  ℕ, ◌+◌, ◌-◌, ◌<◌, ◌≤◌, ◌≡◌, ◌≢◌, ◌∙◌, refl, sym, ap, arith, Bool-cases, Option-cases, inl, inr,
  Bool, true, false, Option, none, some, List, length, length-set, replicate, set, copy,
}
use factom_code.Common.Map.{Map, lookup, insert, lookup-insert, lookup-insert_self, bytes_eq}
use mathlib.Core.Path.{subst}
use native.Mathlib.Decide.{dec_lt, ℕ_discrete}
use factom_code.Replay.{flat, Replay, shift, advance, remember, bucket_at}
use factom_code.Replay.Window.{
  Bucket, length-shift, get_elem?-shift, get_elem?-set_self, get_elem?-set_ne,
}

-- The array that a hash is copied to.
abbrev pub key_of : List ℕ → List ℕ
key_of hash = copy (replicate 32 0) hash

abbrev pub Has : List ℕ → Bucket → Type 0
Has key none = ⊥
Has key (some m) = (v : ℕ) × (lookup key m ≡ some v)

-- There are 24 buckets, and while the hour `t` is in the window its bucket has the key.
pub record Remembers (key : List ℕ) (t : ℕ) (st : Replay) : Type 0 where
  pub size : length st.buckets ≡ 24
  pub ahead : t + 12 < st.last_time + 24
  pub there : (i : ℕ) → i + st.last_time ≡ t + 12 → Has key (bucket_at i st)

pub advance_lem : (n : ℕ) (st : Replay) → st.last_time ≤ n → (advance n st).last_time ≡ n
unfolding advance
advance_lem n st h = ground arith

pub length-advance :
    (n : ℕ) (st : Replay) → length st.buckets ≡ 24 → length (advance n st).buckets ≡ 24
unfolding advance
length-advance n st h =
    ground
      (arith, length-shift (n - st.last_time) st.buckets, length-shift (n - (n - 24)) st.buckets)

advance_shifts :
    (n : ℕ) (st : Replay)
    → st.last_time ≤ n
    → n ≤ st.last_time + 24
    → advance n st ≡ record { buckets = shift (n - st.last_time) st.buckets; last_time = n }
unfolding advance shift
advance_shifts n st h k = elim (dec_lt st.last_time n) [
  | yes later ↦ ground arith
  | no same ↦ let zero_hours : n - st.last_time ≡ 0 = omega arith in rw zero_hours (ground arith)
]

bucket_at-advance :
    (n i j : ℕ) (st : Replay)
    → length st.buckets ≡ 24
    → st.last_time ≤ n
    → j + st.last_time ≡ i + n
    → j < 24
    → bucket_at i (advance n st) ≡ bucket_at j st
unfolding bucket_at
bucket_at-advance n i j st size h e b =
    rw (advance_shifts n st h (omega arith))
      (ap flat (get_elem?-shift (n - st.last_time) i j st.buckets (omega arith) (omega arith)))

pub advance-Remembers :
    {key : List ℕ} {t : ℕ} (n : ℕ) (st : Replay)
    → st.last_time ≤ n
    → Remembers key t st
    → Remembers key t (advance n st)
advance-Remembers {key} {t} n st h r = record {
  size = length-advance n st r.size;
  ahead = omega (arith, advance_lem n st h, r.ahead);
  there = λ i e.
      let j = t + 12 - st.last_time in
      let at_n : i + n ≡ t + 12 = omega (arith, advance_lem n st h) in
      rw (bucket_at-advance n i j st r.size h (omega arith) (omega (arith, r.ahead)))
        (r.there j (omega arith));
}

abbrev pub answer : Bool → Replay → Option (Bool × Replay)
answer b st = some (b, st)

pub false-true : {s s' : Replay} → answer false s ≡ answer true s' → ⊥
false-true h = cc

abbrev none_answer : Option (Bool × Replay)
none_answer = none

none_some : {r : Bool × Replay} → none_answer ≡ some r → ⊥
none_some h = cc

pub state_of : {a b : Bool} {s s' : Replay} → answer a s ≡ answer b s' → s ≡ s'
state_of h = cc

Has-insert : (key h : List ℕ) (u : ℕ) (m : Map ℕ) → Has key (some m) → Has key (some (insert h u m))
Has-insert key h u m (v, e) = elim (Bool-cases (bytes_eq h key)) [
  | inl same ↦ (u, rw (lookup-insert h key u m, same))
  | inr other ↦ (v, rw (lookup-insert h key u m, other) e)
]

bucket_at-set_self :
    (i : ℕ) (st : Replay) (b : Bucket)
    → i < length st.buckets
    → bucket_at i (record st { buckets = set st.buckets i b }) ≡ b
unfolding bucket_at flat
bucket_at-set_self i st b h = rw (get_elem?-set_self st.buckets i b h)

bucket_at-set_ne :
    (i j : ℕ) (st : Replay) (b : Bucket)
    → i ≢ j
    → bucket_at j (record st { buckets = set st.buckets i b }) ≡ bucket_at j st
unfolding bucket_at
bucket_at-set_ne i j st b h = ap flat (get_elem?-set_ne st.buckets i j b h)

set-Remembers :
    {key : List ℕ} {t : ℕ} (h : List ℕ) (u index : ℕ) (st : Replay) (m : Map ℕ)
    → Remembers key t st
    → some m ≡ bucket_at index st
    → Remembers key t (record st { buckets = set st.buckets index (some (insert h u m)) })
set-Remembers {key} {t} h u index st m r same = record {
  size = length-set st.buckets index (some (insert h u m)) ∙ r.size;
  ahead = r.ahead;
  there = λ i e. elim (ℕ_discrete index i) [
    | yes eq ↦
        rw
          (
            ap
                (λ (k : ℕ).
                  bucket_at k (record st { buckets = set st.buckets index (some (insert h u m)) }))
                (sym eq),
            bucket_at-set_self index st (some (insert h u m)) (omega (arith, r.size, r.ahead)),
          )
          (Has-insert key h u m
            (subst (Has key) (sym (same ∙ ap (λ (k : ℕ). bucket_at k st) eq)) (r.there i e)))
    | no ne ↦ rw (bucket_at-set_ne index i st (some (insert h u m)) ne) (r.there i e)
  ];
}

pub remember-Remembers :
    {key : List ℕ} {t : ℕ} (h : List ℕ) (u index : ℕ) (st st' : Replay) (bucket : Bucket) (b : Bool)
    → Remembers key t st
    → bucket ≡ bucket_at index st
    → remember h u index st bucket ≡ some (b, st')
    → Remembers key t st'
unfolding remember
remember-Remembers h u index st st' none b r same e = absurd (none_some e)
remember-Remembers {key} {t} h u index st st' (some m) b r same e =
    elim (Option-cases (lookup h m)) [
      | inl new ↦
          subst (Remembers key t) (state_of (rw new at e)) (set-Remembers h u index st m r same)
      | inr (v, seen) ↦ subst (Remembers key t) (state_of (rw seen at e)) r
    ]

-- The bucket that holds the key of a hash and its hour refuses it.
pub refused :
    (key : List ℕ) (u index : ℕ) (st : Replay) (bucket : Bucket)
    → Has key bucket
    → remember key u index st bucket ≡ some (false, st)
unfolding remember
refused key u index st none h = elim h [ ]
refused key u index st (some m) (v, e) = rw e

-- The bucket of a key that was just taken holds it.
pub taken :
    (key : List ℕ) (u index : ℕ) (st st' : Replay) (bucket : Bucket)
    → length st.buckets ≡ 24
    → bucket ≡ bucket_at index st
    → index < 24
    → remember key u index st bucket ≡ some (true, st')
    → (length st'.buckets ≡ 24) × (st'.last_time ≡ st.last_time) × Has key (bucket_at index st')
unfolding remember
taken key u index st st' none size same b e = absurd (none_some e)
taken key u index st st' (some m) size same b e = elim (Option-cases (lookup key m)) [
  | inr (v, seen) ↦ absurd (false-true (rw seen at e))
  | inl new ↦ rw (← state_of (rw new at e)) (
    length-set st.buckets index (some (insert key u m)) ∙ size,
    refl,
    rw (bucket_at-set_self index st (some (insert key u m)) (omega (arith, size)))
        (u, lookup-insert_self key u m),
  )
]
