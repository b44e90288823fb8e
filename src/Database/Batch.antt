-- ===== src/Database/Batch.antt =====
-- The batches of database/ldb: what a key holds once one is written.
use factom_code.Common.{ℕ, ◌≡◌, refl, ◌∙◌, Option, some, List, [], ◌∷◌, ◌++◌}
use factom_code.Common.Exec.{ok}
use factom_code.Database.{Put, KvStore, IsKvStore, last_put, get_or_error}

last_put-append :
    (xs ys : List Put) (k : List ℕ) (held : Option (List ℕ))
    → last_put (xs ++ ys) k held ≡ last_put ys k (last_put xs k held)
unfolding last_put
last_put-append [] ys k held = refl
last_put-append ((j, v) ∷ xs) ys k held = last_put-append xs ys k _

-- A list of puts that ends in what is held under a key, whatever was held before.
abbrev pub Holds : List Put → List ℕ → List ℕ → Type 0
Holds puts k v = (held : Option (List ℕ)) → last_put puts k held ≡ some v

module _ {Store : Type 0} (kv : KvStore Store) (laws : IsKvStore kv) where
  pub get-batch :
      (s : Store) (xs puts : List Put) (k v : List ℕ)
      → Holds puts k v
      → kv.get (kv.write s (xs ++ puts)) k ≡ some v
  get-batch s xs puts k v h =
      laws.get-write s (xs ++ puts) k ∙ last_put-append xs puts k (kv.get s k) ∙ h _

  pub get_or_error-batch :
      (s : Store) (xs puts : List Put) (k v : List ℕ)
      → Holds puts k v
      → get_or_error kv (kv.write s (xs ++ puts)) k ≡ ok v
  get_or_error-batch s xs puts k v h = rw (get_or_error, get-batch s xs puts k v h)
