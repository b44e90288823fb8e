-- ===== src/Database/Assoc.antt =====
-- A store for the interface of database/ldb: an association list.
use factom_code.Common.{
  Bool-cases, inl, inr, ℕ, ◌≡◌, refl, ◌∙◌, arith, none, List, [], ◌∷◌, if◌then◌else◌,
}
use factom_code.Common.Map.{
  Map, bytes_eq, bytes_eq_iff, bytes_eq_refl, lookup, insert, lookup-insert,
}
use factom_code.Database.{Put, KvStore, IsKvStore, last_put, within}

abbrev write : Map (List ℕ) → List Put → Map (List ℕ)
write m [] = m
write m ((k, v) ∷ puts) = write (insert k v m) puts

abbrev range : Map (List ℕ) → List ℕ → List ℕ → List Put
range [] from to = []
range ((k, v) ∷ m) from to =
    let rest = range m from to in if within from to k then (k, v) ∷ rest else rest

abbrev pub assoc : KvStore (Map (List ℕ))
assoc = record { get = λ m k. lookup k m; write = write; range = range }

get-write :
    (m : Map (List ℕ)) (puts : List Put) (k : List ℕ)
    → lookup k (write m puts) ≡ last_put puts k (lookup k m)
unfolding last_put
get-write m [] k = refl
get-write m ((j, v) ∷ puts) k = rw (← lookup-insert j k v m) (get-write (insert j v m) puts k)

lookup-range :
    (m : Map (List ℕ)) (from to k : List ℕ)
    → lookup k (range m from to) ≡ (if within from to k then lookup k m else none)
unfolding lookup
lookup-range [] from to k = ground arith
lookup-range ((j, v) ∷ m) from to k = elim (Bool-cases (bytes_eq j k)) [
  | inr other ↦ elim (Bool-cases (within from to j)) [
    | inl inside ↦ rw (inside, other) (lookup-range m from to k)
    | inr out ↦ rw (out, other) (lookup-range m from to k)
  ]
  | inl same ↦
      let e : j ≡ k = (bytes_eq_iff j k).0 same in
      elim (Bool-cases (within from to k)) [
        | inl inside ↦ rw (e, inside, bytes_eq_refl k)
        | inr out ↦ rw (e, out) (lookup-range m from to k ∙ rw out)
      ]
]

pub assoc-IsKvStore : IsKvStore assoc
assoc-IsKvStore = record { get-write = get-write; lookup-range = lookup-range }
