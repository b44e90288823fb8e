-- ===== src/DirectoryBlock/Chain/Stored.antt =====
-- The blocks of the chain in common/directoryBlock.go, by their heights: AddDBlockToDChain changes a
-- map from heights to blocks at one height, and IsBlockExisting asks whether it is defined.
use factom_code.Common.{
  Bool-cases, inl, inr, ltb→lt, ltb→ge, lt→ltb, ℕ, zero, suc, ◌+◌, ◌*◌, ◌%◌, ◌^◌, ◌-◌, ◌<◌, ◌≤◌,
  ◌≡◌, refl, ap, ◌∙◌, arith, true, Option, none, some, List, [], ◌∷◌, ◌++◌, All, length,
  length-append, length-set, length-replicate, append-nil, get_elem?, set, replicate, leb, ltb,
  ◌==◌, if◌then◌else◌,
}
use mathlib.Core.Path.{fun_ext}
use factom_code.Common.Exec.{Result, ok, and_then}
use factom_code.Buffer.{ReadError}
use factom_code.DirectoryBlock.{DirectoryBlock}
use factom_code.DirectoryBlock.Chain.{
  DChain, grow_capacity, grow_length, store, add_dblock_to_dchain, is_block_existing, is_there,
}

abbrev pub flat : Option (Option DirectoryBlock) → Option DirectoryBlock
flat none = none
flat (some p) = p

-- The block at a height, where there is one.
abbrev pub block_at : DChain → ℕ → Option DirectoryBlock
block_at c height = flat (get_elem? c.blocks height)

-- The slice within its capacity, and a capacity that a uint32 holds and that is not 0: initDChain makes
-- it one more than the stored blocks. A block of height 0 panics on a capacity of 0.
pub record IsValid (c : DChain) : Type 0 where
  pub fits : length c.blocks ≤ c.capacity
  pub room : 0 < c.capacity
  pub small : c.capacity < 2 ^ 32

-- A map from heights to blocks, changed at one height.
abbrev pub update : (ℕ → Option DirectoryBlock) → DirectoryBlock → ℕ → Option DirectoryBlock
update f b height = if height == b.header.db_height then some b else f height

flat-set :
    (xs : List (Option DirectoryBlock)) (i j : ℕ) (b : DirectoryBlock)
    → i < length xs
    → flat (get_elem? (set xs i (some b)) j) ≡ (if j == i then some b else flat (get_elem? xs j))
flat-set [] i j b h = absurd (omega arith)
flat-set (x ∷ xs) zero zero b h = refl
flat-set (x ∷ xs) zero (suc j) b h = ground arith
flat-set (x ∷ xs) (suc i) zero b h = ground arith
flat-set (x ∷ xs) (suc i) (suc j) b h = ground (arith, flat-set xs i j b (omega arith))

flat-replicate : (n j : ℕ) → flat (get_elem? (replicate n none) j) ≡ none
flat-replicate zero j = refl
flat-replicate (suc n) zero = refl
flat-replicate (suc n) (suc j) = flat-replicate n j

flat-pad :
    (xs : List (Option DirectoryBlock)) (n j : ℕ)
    → flat (get_elem? (xs ++ replicate n none) j) ≡ flat (get_elem? xs j)
flat-pad [] n j = flat-replicate n j
flat-pad (x ∷ xs) n zero = refl
flat-pad (x ∷ xs) n (suc j) = flat-pad xs n j

abbrev pub roomy : DChain → ℕ → DChain
roomy c n = record c { capacity = if leb c.capacity n then n * 2 else c.capacity }

abbrev pub padded : List (Option DirectoryBlock) → ℕ → List (Option DirectoryBlock)
padded xs n = xs ++ replicate (n + 1 - length xs) none

abbrev pub stored : DChain → DirectoryBlock → DChain
stored c b = record (roomy c b.header.db_height) {
  blocks = set (padded c.blocks b.header.db_height) b.header.db_height (some b);
}

grow_capacity_lem :
    (c : DChain) (n : ℕ) → IsValid c → n < 2 ^ 31 → grow_capacity c n ≡ ok (roomy c n)
unfolding grow_capacity
grow_capacity_lem c n v h = ground arith

padded_same : (xs : List (Option DirectoryBlock)) (n : ℕ) → n < length xs → padded xs n ≡ xs
padded_same xs n h = let e : n + 1 - length xs ≡ 0 = omega arith in rw e (append-nil xs)

length-padded : (xs : List (Option DirectoryBlock)) (n : ℕ) → n < length (padded xs n)
length-padded xs n =
    let l : length (padded xs n)
        ≡ length xs + length (replicate {A = Option DirectoryBlock} (n + 1 - length xs) none) =
      length-append xs (replicate (n + 1 - length xs) none) in
    omega (arith, l, length-replicate {A = Option DirectoryBlock} (n + 1 - length xs) none)

grow_length_lem :
    (c : DChain) (n : ℕ)
    → length c.blocks < 2 ^ 32
    → n < 2 ^ 31
    → n + 1 ≤ c.capacity
    → grow_length c n ≡ ok (record c { blocks = padded c.blocks n })
unfolding grow_length
grow_length_lem c n v h k =
    let l : length c.blocks % 2 ^ 32 ≡ length c.blocks = omega arith in
    let w : (n + 1) % 2 ^ 32 ≡ n + 1 = omega arith in
    elim (Bool-cases (ltb n (length c.blocks))) [
      | inl long ↦ rw (l, w, padded_same c.blocks n (ltb→lt _ _ long)) (ground arith)
      | inr short ↦ rw (l, w) (ground arith)
    ]

-- The block is stored at its height, and nowhere else.
pub add_dblock_lem :
    (c : DChain) (b : DirectoryBlock)
    → IsValid c
    → b.header.db_height < 2 ^ 31
    → add_dblock_to_dchain c b ≡ ok (stored c b)
unfolding add_dblock_to_dchain store
add_dblock_lem c b v h =
    let n = b.header.db_height in
    let there : ltb n (length (padded c.blocks n)) ≡ true = lt→ltb _ _ (length-padded c.blocks n) in
    rw (
      grow_capacity_lem c n v h,
      grow_length_lem (roomy c n) n (omega (arith, v.fits, v.small)) h (ground (arith, v.room)),
      there,
    )

length-stored :
    (c : DChain) (b : DirectoryBlock)
    → length (stored c b).blocks ≡ length c.blocks + (b.header.db_height + 1 - length c.blocks)
length-stored c b =
    let pad =
      replicate {A = Option DirectoryBlock} (b.header.db_height + 1 - length c.blocks) none in
    length-set (padded c.blocks b.header.db_height) b.header.db_height (some b)
    ∙ (length-append c.blocks pad
        ∙ ap (λ n. length c.blocks + n) (length-replicate {A = Option DirectoryBlock} _ none))

pub stored-IsValid :
    (c : DChain) (b : DirectoryBlock)
    → IsValid c
    → b.header.db_height < 2 ^ 31
    → IsValid (stored c b)
stored-IsValid c b v h = record {
  fits = ground (arith, v.fits, v.room, length-stored c b);
  room = ground (arith, v.room);
  small = ground (arith, v.small);
}

block_at-stored :
    (c : DChain) (b : DirectoryBlock) (height : ℕ)
    → block_at (stored c b) height ≡ update (block_at c) b height
block_at-stored c b height = rw (
  flat-set (padded c.blocks b.header.db_height) b.header.db_height height b
      (length-padded c.blocks b.header.db_height),
  flat-pad c.blocks (b.header.db_height + 1 - length c.blocks) height,
)

flat-short :
    (xs : List (Option DirectoryBlock)) (i : ℕ) → length xs ≤ i → flat (get_elem? xs i) ≡ none
flat-short [] i h = refl
flat-short (x ∷ xs) zero h = absurd (omega arith)
flat-short (x ∷ xs) (suc i) h = flat-short xs i (omega arith)

there-flat : (p : Option (Option DirectoryBlock)) → is_there p ≡ is_there (some (flat p))
there-flat none = refl
there-flat (some p) = refl

is_block_existing_lem :
    (c : DChain) (height : ℕ)
    → IsValid c
    → is_block_existing c height ≡ is_there (some (block_at c height))
unfolding is_block_existing
is_block_existing_lem c height v =
    let l : length c.blocks % 2 ^ 32 ≡ length c.blocks = omega (arith, v.fits, v.small) in
    elim (Bool-cases (ltb height (length c.blocks))) [
      | inl there ↦ rw l (ground (arith, there-flat (get_elem? c.blocks height)))
      | inr short ↦ rw (l, flat-short c.blocks height (ltb→ge _ _ short)) (ground arith)
    ]

-- AddDBlockToDChain of one block after the other.
unfoldable pub add_all : List DirectoryBlock → DChain → Result ReadError DChain
add_all [] c = ok c
add_all (b ∷ bs) c = and_then (add_dblock_to_dchain c b) (add_all bs)

-- The same calls, on a map.
abbrev pub replay : List DirectoryBlock → (ℕ → Option DirectoryBlock) → ℕ → Option DirectoryBlock
replay [] f = f
replay (b ∷ bs) f = replay bs (update f b)

abbrev pub IsLow : DirectoryBlock → Type 0
IsLow b = b.header.db_height < 2 ^ 31

-- Of blocks below 2 ^ 31, in any order and with any gaps, AddDBlockToDChain panics on none from a
-- chain whose slice is within its capacity, where the capacity is above 0 and below 2 ^ 32: the
-- blocks by their heights are as on the map, each last one added at its height, and
-- IsBlockExisting tells the heights where there is one.
pub add_all_refines :
    (bs : List DirectoryBlock) (c : DChain)
    → IsValid c
    → All IsLow bs
    → (c' : DChain) × (add_all bs c ≡ ok c')
      × IsValid c'
      × (block_at c' ≡ replay bs (block_at c))
      × ((height : ℕ)
          → is_block_existing c' height ≡ is_there (some (replay bs (block_at c) height)))
unfolding add_all
add_all_refines [] c v l = (c, refl, v, refl, λ height. is_block_existing_lem c height v)
add_all_refines (b ∷ bs) c v l =
    let maps : block_at (stored c b) ≡ update (block_at c) b = fun_ext (block_at-stored c b) in
    rw (add_dblock_lem c b v l.0, ← maps)
      (add_all_refines bs (stored c b) (stored-IsValid c b v l.0) l.1)
