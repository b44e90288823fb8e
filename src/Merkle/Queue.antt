-- ===== src/Merkle/Queue.antt =====
-- The loop of common/merkle.go as a queue, and the queue level by level.
use native.Mathlib.Nat.{pow-suc}
use factom_code.Common.{
  ◌^◌, ◌-◌, ◌<◌, sym, ap, append-nil, ℕ, zero, suc, ◌+◌, ◌≡◌, refl, sym, ap, ◌∙◌, arith, Option,
  none, some, List, [], ◌∷◌, ◌++◌, length, length-append, get_elem?, set, replicate, append_assoc,
  append-nil,
}
use factom_code.Hash.{Hash}
use factom_code.Merkle.{parent, at_index, fill}

abbrev pub Node : Type 0
Node = Option Hash

pub get_elem?-append_self :
    (xs : List Node) (y : Node) (ys : List Node) (i : ℕ)
    → i ≡ length xs
    → get_elem? (xs ++ y ∷ ys) i ≡ some y
get_elem?-append_self [] y ys zero h = refl
get_elem?-append_self [] y ys (suc i) h = absurd (omega arith)
get_elem?-append_self (x ∷ xs) y ys zero h = absurd (omega arith)
get_elem?-append_self (x ∷ xs) y ys (suc i) h = get_elem?-append_self xs y ys i (omega arith)

set-append_self :
    (xs : List Node) (y v : Node) (ys : List Node) (i : ℕ)
    → i ≡ length xs
    → set (xs ++ y ∷ ys) i v ≡ xs ++ v ∷ ys
set-append_self [] y v ys zero h = refl
set-append_self [] y v ys (suc i) h = absurd (omega arith)
set-append_self (x ∷ xs) y v ys zero h = absurd (omega arith)
set-append_self (x ∷ xs) y v ys (suc i) h = rw (set-append_self xs y v ys i (omega arith))

module _ (sha_256 : List ℕ → List ℕ) where
  -- The nodes over a level, pair by pair.
  unfoldable pub level : List Node → List Node
  level [] = []
  level (a ∷ []) = []
  level (a ∷ b ∷ q) = parent sha_256 a b ∷ level q

  -- The root over 2 ^ k nodes.
  unfoldable pub merkle_root : ℕ → List Node → Node
  merkle_root zero q = at_index sha_256 (get_elem? q 0)
  merkle_root (suc k) q = merkle_root k (level q)

  -- The loop as a queue: two nodes leave at the front, and their parent joins at the back.
  unfoldable pub run : ℕ → List Node → List Node
  run zero q = q
  run (suc r) [] = []
  run (suc r) (a ∷ []) = []
  run (suc r) (a ∷ b ∷ q) = run r (q ++ parent sha_256 a b ∷ [])

  pub fill_lem :
      (r : ℕ) (pre q : List Node) (i offset : ℕ)
      → length q ≡ suc r
      → i ≡ length pre
      → offset ≡ length pre + length q
      → (pre' : List Node) × (fill sha_256 r i offset (pre ++ (q ++ replicate r none))
          ≡ pre' ++ run r q)
  unfolding fill run
  fill_lem zero pre q i offset hq hi ho = (pre, rw append-nil)
  fill_lem (suc r) pre [] i offset hq hi ho = absurd (omega arith)
  fill_lem (suc r) pre (a ∷ []) i offset hq hi ho = absurd (omega arith)
  fill_lem (suc r) pre (a ∷ b ∷ q) i offset hq hi ho =
      let p = parent sha_256 a b in
      let rep : List Node = replicate r none in
      let array = pre ++ ((a ∷ b ∷ q) ++ replicate (suc r) none) in
      let first : get_elem? array i ≡ some a =
        get_elem?-append_self pre a (b ∷ (q ++ none ∷ rep)) i hi in
      let second : get_elem? array (i + 1) ≡ some b =
        ap (λ (xs : List Node). get_elem? xs (i + 1))
          (sym (append_assoc pre (a ∷ []) (b ∷ (q ++ none ∷ rep))))
        ∙ get_elem?-append_self (pre ++ a ∷ []) b (q ++ none ∷ rep) (i + 1)
            (omega (arith, length-append pre (a ∷ []))) in
      let stored : set array offset p ≡ (pre ++ a ∷ b ∷ []) ++ ((q ++ p ∷ []) ++ rep) =
        ap (λ (xs : List Node). set xs offset p) (sym (append_assoc pre (a ∷ b ∷ q) (none ∷ rep)))
        ∙ set-append_self (pre ++ a ∷ b ∷ q) none p rep offset
            (omega (arith, length-append pre (a ∷ b ∷ q)))
        ∙ append_assoc pre (a ∷ b ∷ q) (p ∷ rep)
        ∙ rw (append_assoc pre, append_assoc q) refl in
      let (pre', h) =
        fill_lem r (pre ++ a ∷ b ∷ []) (q ++ p ∷ []) (i + 2) (offset + 1)
          (omega (arith, length-append q (p ∷ []))) (omega (arith, length-append pre (a ∷ b ∷ [])))
          (omega (arith, length-append q (p ∷ []), length-append pre (a ∷ b ∷ []))) in
      (pre', rw (first, second, stored) h)

  run_nil : (r : ℕ) → run r [] ≡ []
  unfolding run
  run_nil zero = refl
  run_nil (suc r) = refl

  run_add : (a b c : ℕ) (q : List Node) → c ≡ a + b → run c q ≡ run b (run a q)
  unfolding run
  run_add zero b c q h = let same : c ≡ b = omega arith in ap (λ (n : ℕ). run n q) same
  run_add (suc a) b zero q h = absurd (omega arith)
  run_add (suc a) b (suc c) [] h = sym (run_nil b)
  run_add (suc a) b (suc c) (x ∷ []) h = sym (run_nil b)
  run_add (suc a) b (suc c) (x ∷ y ∷ q) h =
      run_add a b c (q ++ parent sha_256 x y ∷ []) (omega arith)

  run-level : (m : ℕ) (q acc : List Node) → length q ≡ m + m → run m (q ++ acc) ≡ acc ++ level q
  unfolding run level
  run-level zero [] acc h = sym (append-nil acc)
  run-level zero (a ∷ q) acc h = absurd (omega arith)
  run-level (suc m) [] acc h = absurd (omega arith)
  run-level (suc m) (a ∷ []) acc h = absurd (omega arith)
  run-level (suc m) (a ∷ b ∷ q) acc h =
      let p = parent sha_256 a b in
      rw (append_assoc q, run-level m q (acc ++ p ∷ []) (omega arith), append_assoc acc)

  length-level : (m : ℕ) (q : List Node) → length q ≡ m + m → length (level q) ≡ m
  unfolding level
  length-level zero [] h = refl
  length-level zero (a ∷ q) h = absurd (omega arith)
  length-level (suc m) [] h = absurd (omega arith)
  length-level (suc m) (a ∷ []) h = absurd (omega arith)
  length-level (suc m) (a ∷ b ∷ q) h = omega (arith, length-level m q (omega arith))

  pub positive : (k : ℕ) → 0 < 2 ^ k
  positive zero = omega arith
  positive (suc k) = omega (arith, pow-suc 2 k, positive k)

  pub run_root :
      (k : ℕ) (q : List Node) → length q ≡ 2 ^ k → run (2 ^ k - 1) q ≡ merkle_root k q ∷ []
  unfolding run merkle_root
  run_root zero [] h = absurd (omega arith)
  run_root zero (x ∷ []) h = refl
  run_root zero (x ∷ y ∷ q) h = absurd (omega arith)
  run_root (suc k) q h =
      let twice : 2 ^ suc k ≡ 2 ^ k + 2 ^ k = omega (arith, pow-suc 2 k) in
      let some_left : 0 < 2 ^ k = positive k in
      let all_of_it : run (2 ^ k) q ≡ level q =
        ap (run (2 ^ k)) (sym (append-nil q)) ∙ run-level (2 ^ k) q [] (h ∙ twice) in
      run_add (2 ^ k) (2 ^ k - 1) (2 ^ suc k - 1) q (omega arith)
      ∙ ap (run (2 ^ k - 1)) all_of_it
      ∙ run_root k (level q) (length-level (2 ^ k) q (h ∙ twice))
