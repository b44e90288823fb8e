-- ===== src/Common/Exec.antt =====
-- Go functions that change an object and return an error: a state with a result, where what was
-- written before the error stays written. `panic` is a Go panic.
use factom_code.Common.{◌≡◌, refl, ap}

pub data Result {ℓ} (E A : Type ℓ) : Type ℓ where
  ok : A → Result E A
  err : E → Result E A
  panic : Result E A

abbrev pub Exec {ℓ} : Type ℓ → Type ℓ → Type ℓ → Type ℓ
Exec E S A = S → Result E A × S

module _ {ℓ} {E S A : Type ℓ} where
  abbrev pub pure : A → Exec E S A
  pure a s = (ok a, s)

  abbrev pub raise : E → Exec E S A
  raise e s = (err e, s)

  abbrev pub panics : Exec E S A
  panics s = (panic, s)

  abbrev pub lift : Result E A → Exec E S A
  lift r s = (r, s)

  abbrev pub gets : (S → A) → Exec E S A
  gets f s = (ok (f s), s)

  -- Go's `defer func() { if r := recover(); r != nil { err = ... } }()`.
  abbrev pub recover : E → Result E A × S → Result E A × S
  recover e (ok a, s) = (ok a, s)
  recover e (err x, s) = (err x, s)
  recover e (panic, s) = (err e, s)

module _ {ℓ} {E S A B : Type ℓ} where
  abbrev pub continue : Result E A × S → (A → Exec E S B) → Result E B × S
  continue (ok a, s) f = f a s
  continue (err e, s) f = (err e, s)
  continue (panic, s) f = (panic, s)

  infixl 5 ◌>>=◌ ◌>>◌
  abbrev pub ◌>>=◌ : Exec E S A → (A → Exec E S B) → Exec E S B
  ◌>>=◌ m f s = continue (m s) f

  abbrev pub ◌>>◌ : Exec E S A → Exec E S B → Exec E S B
  m >> n = m >>= λ _. n

-- The result of a call, for the rest that needs it.
module _ {ℓ} {E A B : Type ℓ} where
  abbrev pub and_then : Result E A → (A → Result E B) → Result E B
  and_then (ok a) f = f a
  and_then (err e) f = err e
  and_then panic f = panic

  -- What a call on an object of its own left there.
  abbrev pub result_of : Result E A × B → Result E (A × B)
  result_of (ok a, s) = ok (a, s)
  result_of (err e, s) = err e
  result_of (panic, s) = panic

module _ {ℓ} {E A B : Type ℓ} where
  -- What a call that succeeds went through.
  pub and_then-eq-ok :
      (r : Result E A) (f : A → Result E B) {b : B}
      → and_then r f ≡ ok b
      → (a : A) × (r ≡ ok a) × (f a ≡ ok b)
  and_then-eq-ok (ok a) f h = (a, refl, h)
  and_then-eq-ok (err e) f h = cc
  and_then-eq-ok panic f h = cc

pub ok_injective {ℓ} : {E A : Type ℓ} (a b : A) → ◌≡◌ {A = Result E A} (ok a) (ok b) → a ≡ b
ok_injective {E = E} {A = A} a b h = ap f h
  where
    f : Result E A → A
    f (ok x) = x
    f (err e) = a
    f panic = a

-- One step of a `do` block whose outcome is known.
pub bind_ok {ℓ} :
    {E S A B : Type ℓ} (m : Exec E S A) (f : A → Exec E S B) {a : A} {s s' : S}
    → m s ≡ (ok a, s')
    → (m >>= f) s ≡ f a s'
bind_ok m f h = rw h
