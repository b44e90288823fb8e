-- ===== src/Chains/NeverRead.antt =====
-- ECChain.UnmarshalBinary of common/ecchain.go fails on every input.
use factom_code.Common.{ℕ, ◌≡◌, refl, List, true, false, Bool, if◌then◌else◌, length, ◌==◌, ltb}
use factom_code.Common.Exec.{Result, ok, err, panic, lift, continue}
use factom_code.Buffer.{new_reader, ReadError, Reader, Read, read_hash, read_uint, invalid_type}
use factom_code.Hash.{set_bytes}
use factom_code.Chains.{EcChain, read_into_value, unmarshal_ec_chain_data, unmarshal_ec_chain}

abbrev pub Fails : {A : Type 0} → Result ReadError A × Reader EcChain → Type 0
Fails r = (x : ReadError) × (r.0 ≡ err x)

-- No panic, so that what does not end the call goes on to the rest.
abbrev Calm : {A : Type 0} → Result ReadError A → Type 0
Calm (ok a) = Unit
Calm (err x) = Unit
Calm panic = ⊥

continue-Fails :
    {A B : Type 0} (r : Result ReadError A × Reader EcChain) (f : A → Read EcChain B)
    → Calm r.0
    → ((a : A) (s : Reader EcChain) → Fails (f a s))
    → Fails (continue r f)
continue-Fails (ok a, s) f c h = h a s
continue-Fails (err x, s) f c h = (x, refl)
continue-Fails (panic, s) f c h = elim c [ ]

ok-err : {A : Type 0} (a : A) (x : ReadError) → ◌≡◌ {A = Result ReadError A} (ok a) (err x) → ⊥
ok-err a x e = cc

panic-err : {A : Type 0} (x : ReadError) → ◌≡◌ {A = Result ReadError A} panic (err x) → ⊥
panic-err x e = cc

first-Fails :
    {A B : Type 0} (r : Result ReadError A × Reader EcChain) (f : A → Read EcChain B)
    → Fails r
    → Fails (continue r f)
first-Fails (ok a, s) f (x, e) = absurd (ok-err a x e)
first-Fails (err x, s) f h = (x, refl)
first-Fails (panic, s) f (x, e) = absurd (panic-err x e)

if-Calm :
    {A : Type 0} (b : Bool) (r r' : Result ReadError A × Reader EcChain)
    → Calm r.0
    → Calm r'.0
    → Calm (if b then r else r').0
if-Calm true r r' c d = c
if-Calm false r r' c d = d

read_hash-Calm : (s : Reader EcChain) → Calm (read_hash s).0
unfolding read_hash
read_hash-Calm s = if-Calm (length s.buf == 0) _ _ tt tt

read_uint-Calm : (n : ℕ) (s : Reader EcChain) → Calm (read_uint n s).0
unfolding read_uint
read_uint-Calm n s = if-Calm (length s.buf == 0) _ _ tt (if-Calm (ltb (length s.buf) n) _ _ tt tt)

if_result-Calm :
    {A : Type 0} (b : Bool) (r r' : Result ReadError A)
    → Calm r
    → Calm r'
    → Calm (if b then r else r')
if_result-Calm true r r' c d = c
if_result-Calm false r r' c d = d

read_into_value-Fails : (s : Reader EcChain) → Fails (read_into_value s)
unfolding read_into_value
read_into_value-Fails s =
    continue-Fails (read_uint 8 s) _ (read_uint-Calm 8 s) (λ n s'. (invalid_type, refl))

-- On every input, and into every object, ECChain.UnmarshalBinary returns an error, what
-- ECChain.MarshalBinary writes included.
pub unmarshal_ec_chain-Fails : (c : EcChain) (input : List ℕ) → Fails (unmarshal_ec_chain c input)
unfolding unmarshal_ec_chain_data
unmarshal_ec_chain-Fails c input =
    let s = new_reader c input in
    continue-Fails (read_hash s) _ (read_hash-Calm s) (λ h s1.
      continue-Fails (lift (set_bytes s1.recv.ec_chain_id h) s1) _
        (if_result-Calm (length h == 32) _ _ tt tt)
        (λ id s2.
          let s3 = record s2 { recv = record s2.recv { ec_chain_id = id } } in
          first-Fails (read_into_value s3) _ (read_into_value-Fails s3)))
