-- ===== src/Entry/Fuel.antt =====
-- The loop of Entry.UnmarshalBinaryData of common/entry.go does not run out of rounds.
use factom_code.Common.{
  ℕ, zero, suc, ◌-◌, ◌≤◌, ◌^◌, ◌≢◌, arith, Bool, true, false, List, [], ◌∷◌, length, ltb, ◌==◌,
  if◌then◌else◌, ◌&&◌,
}
use factom_code.Common.Exec.{Result, ok, err, panic, lift, continue, raise, pure}
use factom_code.Buffer.{
  ReadError, eof, out_of_fuel, Reader, Read, read_byte, read_hash, read_uint, read_slice,
  new_reader,
}
use mathlib.Core.Path.{subst}
use factom_code.Hash.{set_bytes, zero_hash}
use factom_code.Entry.{
  Entry, or_zero, read_x_size, make_ext_id, append_ext_id, read_ext_ids, loop_size, unmarshal_data,
  unmarshal,
}

abbrev IsGo : ReadError → Type 0
IsGo out_of_fuel = ⊥
IsGo x = Unit

abbrev Ends : {A : Type 0} → Result ReadError A → Type 0
Ends (ok a) = Unit
Ends panic = Unit
Ends (err x) = IsGo x

continue-Ends :
    {A B : Type 0} (r : Result ReadError A × Reader Entry) (f : A → Read Entry B)
    → Ends r.0
    → ((a : A) (s : Reader Entry) → Ends (f a s).0)
    → Ends (continue r f).0
continue-Ends (ok a, s) f e h = h a s
continue-Ends (err x, s) f e h = e
continue-Ends (panic, s) f e h = tt

if-Ends :
    {A : Type 0} (b : Bool) (r r' : Result ReadError A × Reader Entry)
    → Ends r.0
    → Ends r'.0
    → Ends (if b then r else r').0
if-Ends true r r' e f = e
if-Ends false r r' e f = f

if_step-Ends :
    {A : Type 0} (b : Bool) (f g : Read Entry A) (s : Reader Entry)
    → Ends (f s).0
    → Ends (g s).0
    → Ends ((if b then f else g) s).0
if_step-Ends true f g s h k = h
if_step-Ends false f g s h k = k

read_uint-Ends : (n : ℕ) (s : Reader Entry) → Ends (read_uint n s).0
unfolding read_uint
read_uint-Ends n s = if-Ends (length s.buf == 0) _ _ tt (if-Ends (ltb (length s.buf) n) _ _ tt tt)

or_zero-Ends : (r : Result ReadError ℕ × Reader Entry) → Ends (or_zero r).0
unfolding or_zero
or_zero-Ends (ok v, s) = tt
or_zero-Ends (err x, s) = tt
or_zero-Ends (panic, s) = tt

read_x_size-Ends : (s : Reader Entry) → Ends (read_x_size s).0
unfolding read_x_size
read_x_size-Ends s = or_zero-Ends (read_uint 2 s)

make_ext_id-Ends : (n : ℕ) (s : Reader Entry) → Ends (make_ext_id n s).0
unfolding make_ext_id
make_ext_id-Ends n s = if-Ends (ltb n (2 ^ 15)) _ _ tt tt

read_slice-Ends : (x : List ℕ) (s : Reader Entry) → Ends (read_slice x s).0
unfolding read_slice
read_slice-Ends x s = if-Ends (length s.buf == 0 && ltb 0 (length x)) _ _ tt tt

append_ext_id-Ends : (i n c : ℕ) (x : List ℕ) (s : Reader Entry) → Ends (append_ext_id i n c x s).0
unfolding append_ext_id
append_ext_id-Ends i n c x s =
    if_step-Ends (n == c) _ _ s (if_step-Ends (ltb i n) (raise _) (pure tt) _ tt tt) tt

read_ext_ids-Ends : (fuel i : ℕ) (s : Reader Entry) → i ≤ fuel → Ends (read_ext_ids fuel i s).0
unfolding read_ext_ids
read_ext_ids-Ends fuel zero s h = tt
read_ext_ids-Ends zero (suc i) s h = absurd (omega arith)
read_ext_ids-Ends (suc fuel) (suc zero) s h =
    continue-Ends (read_x_size s) _ (read_x_size-Ends s) (λ n s'. tt)
read_ext_ids-Ends (suc fuel) (suc (suc i)) s h =
    continue-Ends (read_x_size s) _ (read_x_size-Ends s) (λ n s1.
      continue-Ends (make_ext_id n s1) _ (make_ext_id-Ends n s1) (λ x s2.
        continue-Ends (read_slice x s2) _ (read_slice-Ends x s2) (λ p s3.
          continue-Ends (append_ext_id i p.0 (length x) p.1 s3) _
            (append_ext_id-Ends i p.0 (length x) p.1 s3)
            (λ u s4. read_ext_ids-Ends fuel (i - p.0) s4 (omega arith)))))

read_byte-Ends : (s : Reader Entry) → Ends (read_byte s).0
unfolding read_byte
read_byte-Ends s = go s.buf
  where
    go :
        (bytes : List ℕ)
        → Ends
            (elim bytes as (λ x. Result ReadError ℕ × Reader Entry) [
              | [] ↦ (err eof, s)
              | b ∷ rest ↦ (ok b, record s { buf = rest })
            ]).0
    go [] = tt
    go (b ∷ rest) = tt

read_hash-Ends : (s : Reader Entry) → Ends (read_hash s).0
unfolding read_hash
read_hash-Ends s = if-Ends (length s.buf == 0) _ _ tt tt

if_result-Ends :
    {A : Type 0} (b : Bool) (r r' : Result ReadError A)
    → Ends r
    → Ends r'
    → Ends (if b then r else r')
if_result-Ends true r r' c d = c
if_result-Ends false r r' c d = d

unmarshal-Ends : (e : Entry) (input : List ℕ) → Ends (unmarshal e input).0
unfolding unmarshal unmarshal_data
unmarshal-Ends e input =
    continue-Ends (read_byte (new_reader e input)) _ (read_byte-Ends (new_reader e input)) (λ b s1.
      let s2 = record s1 { recv = record s1.recv { version = b; chain_id = zero_hash } } in
      continue-Ends (read_hash s2) _ (read_hash-Ends s2) (λ h s3.
        continue-Ends (lift (set_bytes s3.recv.chain_id h) s3) _
          (if_result-Ends (length h == 32) _ _ tt tt)
          (λ id s4.
            let s5 = record s4 { recv = record s4.recv { chain_id = id } } in
            continue-Ends (read_uint 2 s5) _ (read_uint-Ends 2 s5) (λ n s6.
              continue-Ends (read_ext_ids (loop_size n) (loop_size n) s6) _
                (read_ext_ids-Ends (loop_size n) (loop_size n) s6 (omega arith)) (λ u s7. tt)))))

-- On every input, UnmarshalBinaryData of an entry reaches its end within the rounds that it is given:
-- it succeeds, panics or returns an error of the source, never the one of a loop cut off.
pub unmarshal_entry_ends : (e : Entry) (input : List ℕ) → (unmarshal e input).0 ≢ err out_of_fuel
unmarshal_entry_ends e input h = subst Ends h (unmarshal-Ends e input)
