-- ===== src/Database/Prefix.antt =====
-- database/ldb/eblock.go: the entry blocks of a chain are what the iterator finds between the chain's
-- prefix and the prefix behind it, by addOneToByteArray.
use factom_code.Common.Map.{bytes_eq, bytes_eq_iff, bytes_eq_refl, lookup}
use factom_code.Common.{
  Bool, none, Option, Bool-cases, inl, inr, not, ◌&&◌, sym, if◌then◌else◌, ℕ, ◌+◌, ◌%◌, ◌<◌, ◌≡◌,
  refl, ap, ◌∙◌, arith, true, false, List, [], ◌∷◌, ◌++◌, length, take,
}
use factom_code.Common.Exec.{Result, ok, and_then}
use factom_code.Hash.{Hash}
use factom_code.EBlock.{EBlock, new_eblock, unmarshal}
use factom_code.Database.{
  Put, KvStore, IsKvStore, less, within, LevelDb, DbError, object, get_or_error, tbl_eb,
  tbl_eb_chain_num,
}
use factom_code.Database.Fetch.{hash_in}

-- addOneToByteArray(input), of a slice that is not nil. Each byte is at most 255, so that the loop ends
-- in its first round: the last byte grows by one, and wraps.
unfoldable pub add_one_to_byte_array : List ℕ → List ℕ
add_one_to_byte_array [] = []
add_one_to_byte_array (b ∷ []) = (b + 1) % 256 ∷ []
add_one_to_byte_array (b ∷ c ∷ bytes) = b ∷ add_one_to_byte_array (c ∷ bytes)

module _ {Store : Type 0} (kv : KvStore Store) where
  -- The loop over the iterator: each value is the hash of a block.
  unfoldable pub read_eblocks : Store → List Put → Result DbError (List EBlock)
  read_eblocks s [] = ok []
  read_eblocks s ((k, v) ∷ found) = and_then (hash_in v) λ h.
      and_then (get_or_error kv s (tbl_eb ∷ h)) λ bytes.
        and_then (object (unmarshal new_eblock bytes))
          λ e. and_then (read_eblocks s found) λ es. ok (e ∷ es)

  -- FetchAllEBlocksByChain(chainID)
  unfoldable pub fetch_all_eblocks_by_chain : LevelDb Store → Hash → Result DbError (List EBlock)
  fetch_all_eblocks_by_chain db chain_id =
      let from_key = tbl_eb_chain_num ∷ chain_id in
      read_eblocks db.l_db (kv.range db.l_db from_key (add_one_to_byte_array from_key))

abbrev list : List ℕ → List ℕ
list xs = xs

add_one_last : (q : List ℕ) (b : ℕ) → add_one_to_byte_array (q ++ b ∷ []) ≡ q ++ (b + 1) % 256 ∷ []
unfolding add_one_to_byte_array
add_one_last [] b = refl
add_one_last (x ∷ []) b = refl
add_one_last (x ∷ y ∷ q) b = ap (λ bytes. x ∷ bytes) (add_one_last (y ∷ q) b)

-- Between two keys with the same first byte, only keys with that first byte stand.
less-cons :
    (x y : ℕ) (ks ps ps' : List ℕ)
    → less (x ∷ ks) (y ∷ ps) ≡ false
    → less (x ∷ ks) (y ∷ ps') ≡ true
    → (x ≡ y) × (less ks ps ≡ false) × (less ks ps' ≡ true)
unfolding less
less-cons x y ks ps ps' h k = ground arith

between→prefix :
    (q : List ℕ) (b : ℕ) (k : List ℕ)
    → less k (q ++ b ∷ []) ≡ false
    → less k (q ++ (b + 1) ∷ []) ≡ true
    → take (length (q ++ b ∷ [])) k ≡ q ++ b ∷ []
unfolding less
between→prefix [] b [] h k = cc
between→prefix [] b (x ∷ ks) h k = let e : x ≡ b = ground arith in ap (λ z. z ∷ []) e
between→prefix (y ∷ q) b [] h k = cc
between→prefix (y ∷ q) b (x ∷ ks) h k =
    let (e, h', k') = less-cons x y ks (q ++ b ∷ []) (q ++ (b + 1) ∷ []) h k in
    rw (e, between→prefix q b ks h' k')

cons_head : {x y : ℕ} {xs ys : List ℕ} → list (x ∷ xs) ≡ y ∷ ys → x ≡ y
cons_head h = cc

cons_tail : {x y : ℕ} {xs ys : List ℕ} → list (x ∷ xs) ≡ y ∷ ys → xs ≡ ys
cons_tail h = cc

prefix→between :
    (q : List ℕ) (b : ℕ) (k : List ℕ)
    → take (length (q ++ b ∷ [])) k ≡ q ++ b ∷ []
    → (less k (q ++ b ∷ []) ≡ false) × (less k (q ++ (b + 1) ∷ []) ≡ true)
unfolding less
prefix→between [] b [] h = cc
prefix→between [] b (x ∷ ks) h = let e : x ≡ b = cons_head h in rw e (ground arith)
prefix→between (y ∷ q) b [] h = cc
prefix→between (y ∷ q) b (x ∷ ks) h =
    let e : x ≡ y = cons_head h in
    let (h', k') = prefix→between q b ks (cons_tail h) in rw e (ground arith)

no_key_between :
    (q : List ℕ) (k : List ℕ) → less k (q ++ 255 ∷ []) ≡ false → less k (q ++ 0 ∷ []) ≡ true → ⊥
unfolding less
no_key_between [] [] h k = cc
no_key_between [] (x ∷ ks) h k = ground arith
no_key_between (y ∷ q) [] h k = cc
no_key_between (y ∷ q) (x ∷ ks) h k =
    let (e, h', k') = less-cons x y ks (q ++ 255 ∷ []) (q ++ 0 ∷ []) h k in
    no_key_between q ks h' k'

-- The range whose limit has wrapped has no key.
empty_range : (q : List ℕ) (k : List ℕ) → within (q ++ 255 ∷ []) (q ++ 0 ∷ []) k ≡ false
empty_range q k = elim (Bool-cases (less k (q ++ 255 ∷ []))) [
  | inl low ↦ rw low
  | inr high ↦ elim (Bool-cases (less k (q ++ 0 ∷ []))) [
    | inl inside ↦ absurd (no_key_between q k high inside)
    | inr out ↦ rw (high, out)
  ]
]

between-prefix :
    (q : List ℕ) (b : ℕ) (k : List ℕ)
    → within (q ++ b ∷ []) (q ++ (b + 1) ∷ []) k
      ≡ bytes_eq (take (length (q ++ b ∷ [])) k) (q ++ b ∷ [])
between-prefix q b k =
    let p = q ++ b ∷ [] in
    elim (Bool-cases (bytes_eq (take (length p) k) p)) [
      | inl same ↦
          let (h, l) = prefix→between q b k ((bytes_eq_iff (take (length p) k) p).0 same) in
          rw (same, h, l)
      | inr other ↦ elim (Bool-cases (within p (q ++ (b + 1) ∷ []) k)) [
        | inr out ↦ rw (other, out)
        | inl inside ↦
            let (h, l) = both inside in
            absurd (
              false-true
                (sym other ∙ (bytes_eq_iff (take (length p) k) p).1 (between→prefix q b k h l)))
      ]
    ]
  where
    both : {x y : Bool} → (not x && y) ≡ true → (x ≡ false) × (y ≡ true)
    both {x = false} {y = true} h = (refl, refl)
    both {x = false} {y = false} h = cc
    both {x = true} h = cc

    false-true : false ≡ true → ⊥
    false-true h = cc

nothing_found : (puts : List Put) → ((k : List ℕ) → lookup k puts ≡ none) → puts ≡ []
unfolding lookup
nothing_found [] h = refl
nothing_found ((k, v) ∷ puts) h = absurd (some_is_none (rw (bytes_eq_refl k) at (h k)))
  where
    some_is_none : {v : List ℕ} → Option.some v ≡ none → ⊥
    some_is_none h = cc

module _ {Store : Type 0} (kv : KvStore Store) (laws : IsKvStore kv) where
  -- Of a chain ID whose last byte is below 255, the range that FetchAllEBlocksByChain reads holds exactly
  -- the keys that begin with the table's byte and the ID, each with what the store holds under it.
  pub range_of_chain :
      (s : Store) (q : List ℕ) (b : ℕ) (k : List ℕ)
      → b < 255
      → lookup k (
          kv.range s
            (tbl_eb_chain_num ∷ (q ++ b ∷ []))
            (add_one_to_byte_array (tbl_eb_chain_num ∷ (q ++ b ∷ []))))
        ≡ (if bytes_eq
              (take (length (tbl_eb_chain_num ∷ (q ++ b ∷ []))) k)
              (tbl_eb_chain_num ∷ (q ++ b ∷ []))
            then kv.get s k
            else none)
  range_of_chain s q b k low =
      let p = tbl_eb_chain_num ∷ q in
      let next : add_one_to_byte_array (p ++ b ∷ []) ≡ p ++ (b + 1) ∷ [] =
        add_one_last p b ∙ ap (λ z. p ++ z ∷ []) (omega arith) in
      rw next (
        laws.lookup-range s (p ++ b ∷ []) (p ++ (b + 1) ∷ []) k
        ∙ ap (λ t. if t then kv.get s k else none) (between-prefix p b k))

  -- Of a chain ID whose last byte is 255, FetchAllEBlocksByChain finds no block, whatever is stored: the
  -- limit of its range wraps to a key below the range's start.
  pub no_blocks_of_chain :
      (db : LevelDb Store) (q : List ℕ) → fetch_all_eblocks_by_chain kv db (q ++ 255 ∷ []) ≡ ok []
  unfolding fetch_all_eblocks_by_chain read_eblocks
  no_blocks_of_chain db q =
      let p = tbl_eb_chain_num ∷ q in
      let nothing : kv.range db.l_db (p ++ 255 ∷ []) (p ++ 0 ∷ []) ≡ [] =
        nothing_found (kv.range db.l_db (p ++ 255 ∷ []) (p ++ 0 ∷ []))
          (λ k. rw (laws.lookup-range db.l_db (p ++ 255 ∷ []) (p ++ 0 ∷ []) k, empty_range p k)) in
      rw (add_one_last p 255, nothing)
