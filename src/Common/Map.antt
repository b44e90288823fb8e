-- ===== src/Common/Map.antt =====
-- A Go map as an association list. Keys are byte strings: the program keys its maps by a hash, by
-- the hexadecimal text of a hash (one text for each hash), or by the bytes of a public key.
use factom_code.Common.{
  ℕ, suc, ◌≤◌, ◌≡◌, ◌↔◌, refl, Bool, true, false, ◌&&◌, Option, none, some, List, [], ◌∷◌, arith,
  length, ◌==◌, if◌then◌else◌,
}

unfoldable pub bytes_eq : List ℕ → List ℕ → Bool
bytes_eq [] [] = true
bytes_eq [] (y ∷ ys) = false
bytes_eq (x ∷ xs) [] = false
bytes_eq (x ∷ xs) (y ∷ ys) = x == y && bytes_eq xs ys

bytes_eq→eq : (xs ys : List ℕ) → bytes_eq xs ys ≡ true → xs ≡ ys
unfolding bytes_eq
bytes_eq→eq [] [] h = refl
bytes_eq→eq [] (y ∷ ys) h = cc
bytes_eq→eq (x ∷ xs) [] h = cc
bytes_eq→eq (x ∷ xs) (y ∷ ys) h = ground (arith, bytes_eq→eq xs ys)

pub bytes_eq_refl : (xs : List ℕ) → bytes_eq xs xs ≡ true
unfolding bytes_eq
bytes_eq_refl [] = refl
bytes_eq_refl (x ∷ xs) = ground (arith, bytes_eq_refl xs)

eq→bytes_eq : (xs ys : List ℕ) → xs ≡ ys → bytes_eq xs ys ≡ true
eq→bytes_eq xs ys h = rw h (bytes_eq_refl ys)

pub bytes_eq_iff : (xs ys : List ℕ) → (bytes_eq xs ys ≡ true) ↔ (xs ≡ ys)
bytes_eq_iff xs ys = (bytes_eq→eq xs ys, eq→bytes_eq xs ys)

abbrev pub Map {ℓ} : Type ℓ → Type ℓ
Map V = List (List ℕ × V)

module _ {ℓ} {V : Type ℓ} where
  -- v, ok := m[k]
  unfoldable pub lookup : List ℕ → Map V → Option V
  lookup k [] = none
  lookup k ((j, v) ∷ m) = if bytes_eq j k then some v else lookup k m

  -- delete(m, k)
  unfoldable pub delete : List ℕ → Map V → Map V
  delete k [] = []
  delete k ((j, v) ∷ m) = let rest = delete k m in if bytes_eq j k then rest else (j, v) ∷ rest

  -- m[k] = v
  unfoldable pub insert : List ℕ → V → Map V → Map V
  unfolding delete
  insert k v m = (k, v) ∷ delete k m

  pub lookup-delete :
      (k j : List ℕ) (m : Map V)
      → lookup j (delete k m) ≡ (if bytes_eq k j then none else lookup j m)
  unfolding lookup delete
  lookup-delete k j [] = ground arith
  lookup-delete k j ((i, v) ∷ m) =
      ground (arith, lookup-delete k j m, bytes_eq_iff i k, bytes_eq_iff i j, bytes_eq_iff k j)

  pub lookup-insert :
      (k j : List ℕ) (v : V) (m : Map V)
      → lookup j (insert k v m) ≡ (if bytes_eq k j then some v else lookup j m)
  unfolding lookup insert
  lookup-insert k j v m = ground (arith, lookup-delete k j m)

  pub length-delete : (k : List ℕ) (m : Map V) → length (delete k m) ≤ length m
  unfolding delete
  length-delete k [] = omega arith
  length-delete k ((j, v) ∷ m) = ground (arith, length-delete k m)

  pub length-insert : (k : List ℕ) (v : V) (m : Map V) → length (insert k v m) ≤ suc (length m)
  unfolding insert
  length-insert k v m = omega (arith, length-delete k m)

  pub lookup-insert_self : (k : List ℕ) (v : V) (m : Map V) → lookup k (insert k v m) ≡ some v
  lookup-insert_self k v m = simp (lookup-insert, bytes_eq_refl)

  pub lookup-delete_self : (k : List ℕ) (m : Map V) → lookup k (delete k m) ≡ none
  lookup-delete_self k m = simp (lookup-delete, bytes_eq_refl)

pub ruleset map_laws = (lookup-delete, lookup-insert, bytes_eq_refl)
