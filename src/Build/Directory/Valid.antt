-- ===== src/Build/Directory/Valid.antt =====
-- The chain that newDirectoryBlock of process/processor.go builds, under validateDChain of
-- process/init.go.
use factom_code.Common.{
  ℕ, ◌+◌, ◌%◌, ◌^◌, ◌<◌, ◌≡◌, refl, sym, ◌∙◌, arith, Bool, true, false, not, ◌&&◌, Option, none,
  some, List, [], ◌∷◌, All, length, ◌==◌,
}
use factom_code.Common.Map.{bytes_eq_refl}
use factom_code.Common.Exec.{Result, ok}
use factom_code.Hash.{Hash, zero_hash, is_same_as}
use factom_code.DirectoryBlock.{DbEntry, DirectoryBlock, build_key_merkle_root, marshalled}
use factom_code.DirectoryBlock.Codec.{IsFilled}
use factom_code.DirectoryBlock.Roots.{block_hash-filled, hash_of}
use factom_code.DirectoryBlock.Chain.{DBlockError, DChain, created, set_entries}
use factom_code.Build.{new_directory_block}
use factom_code.Build.Directory.{IsBuilt, Links, IsLinked, new_directory_block_lem}
use factom_code.Build.Validate.{
  ValidateError, Lookups, ChainIds, validate_db_entries, validate_dblock, validate_rest,
  validate_first, validate_dchain,
}

-- The chain that initDChain makes of an empty database.
abbrev pub first_chain : DChain
first_chain = record {
  blocks = [];
  capacity = 1;
  next_block = created 0 zero_hash zero_hash;
  next_db_height = 0;
}

abbrev built_ok : DirectoryBlock × DChain → Result DBlockError (DirectoryBlock × DChain)
built_ok p = ok p

module _ (sha_256 : List ℕ → List ℕ) (dev_net : Bool) where
  -- What is done with the chain: the open block is given a timestamp, or entries, or is sealed.
  pub data Step (c : DChain) : DChain → Type 0 where
    stamp :
        (t : ℕ)
        → Step c (record c {
          next_block = record c.next_block {
            header = record c.next_block.header { timestamp = t };
          };
        })
    enter : (es : List DbEntry) → Step c (set_entries c es)
    seal :
        {c' : DChain} (b : DirectoryBlock)
        → All IsFilled c.next_block.db_entries
        → length c.blocks + 2 < 2 ^ 31
        → new_directory_block sha_256 dev_net c ≡ ok (b, c')
        → Step c c'

  pub data Reach : DChain → Type 0 where
    start : Reach first_chain
    next : {c c' : DChain} → Reach c → Step c c' → Reach c'

  first_chain-IsLinked : IsLinked sha_256 first_chain
  unfolding Links
  first_chain-IsLinked = record {
    valid = record { fits = omega arith; room = omega arith; small = omega arith };
    heights = refl;
    open_height = refl;
    no_body_mr = refl;
    no_key_mr = refl;
    links = (refl, refl);
  }

  same_chain :
      {b b' : DirectoryBlock} {c c' : DChain} → built_ok (b, c) ≡ built_ok (b', c') → c' ≡ c
  same_chain h = cc

  Step-IsLinked : {c c' : DChain} → Step c c' → IsLinked sha_256 c → IsLinked sha_256 c'
  Step-IsLinked (stamp t) l = record {
    valid = record { fits = l.valid.fits; room = l.valid.room; small = l.valid.small };
    heights = l.heights;
    open_height = l.open_height;
    no_body_mr = l.no_body_mr;
    no_key_mr = l.no_key_mr;
    links = l.links;
  }
  Step-IsLinked (enter es) l = record {
    valid = record { fits = l.valid.fits; room = l.valid.room; small = l.valid.small };
    heights = l.heights;
    open_height = l.open_height;
    no_body_mr = l.no_body_mr;
    no_key_mr = l.no_key_mr;
    links = l.links;
  }
  Step-IsLinked {c = c} (seal b filled low is_new) l =
      let new = new_directory_block_lem sha_256 dev_net c l filled low in
      rw (same_chain (sym new.2 ∙ is_new)) new.3

  Reach-IsLinked : {c : DChain} → Reach c → IsLinked sha_256 c
  Reach-IsLinked start = first_chain-IsLinked
  Reach-IsLinked (next r s) = Step-IsLinked s (Reach-IsLinked r)

module _ (sha_256 : List ℕ → List ℕ) (db : Lookups) (ids : ChainIds) where
  -- A block whose entries the database has.
  abbrev pub IsStored : Option DirectoryBlock → Type 0
  IsStored none = Unit
  IsStored (some b) = validate_db_entries sha_256 db ids b.db_entries ≡ ok tt

  is_same_as_refl : (h : Hash) → is_same_as (some h) (some h) ≡ true
  unfolding is_same_as
  is_same_as_refl h = bytes_eq_refl h

  is_same_as_eq : (h h' : Hash) → h' ≡ h → is_same_as (some h) (some h') ≡ true
  is_same_as_eq h h' e = rw e (is_same_as_refl h)

  validate_dblock_lem :
      (b : DirectoryBlock) (root : Hash)
      → IsBuilt sha_256 b root
      → IsStored (some b)
      → validate_dblock sha_256 db ids b
        ≡ ok (
          root,
          hash_of sha_256 b,
          record (marshalled b) { db_hash = some (hash_of sha_256 b); key_mr = some root },
        )
  unfolding validate_dblock build_key_merkle_root
  validate_dblock_lem b root built stored =
      let same : is_same_as b.header.body_mr (some built.body_mr) ≡ true =
        rw built.in_header (is_same_as_refl built.body_mr) in
      rw (
        built.is_body_mr,
        same,
        stored,
        block_hash-filled sha_256 {E = ValidateError} b built.filled,
        built.is_root,
      )

  validate_rest_lem :
      (mr h last_mr last_hash : Hash) (bs : List (Option DirectoryBlock))
      → Links sha_256 mr h bs last_mr last_hash
      → All IsStored bs
      → (validate_rest sha_256 db ids mr h bs).0 ≡ ok tt
  unfolding Links validate_rest
  validate_rest_lem mr h last_mr last_hash [] l stored = refl
  validate_rest_lem mr h last_mr last_hash (none ∷ bs) l stored = absurd l
  validate_rest_lem mr h last_mr last_hash (some b ∷ bs) (root, built, em, eh, l) stored =
      rw
        (
          is_same_as_eq h b.header.prev_ledger_key_mr eh,
          is_same_as_eq mr b.header.prev_key_mr em,
          validate_dblock_lem b root built stored.0,
        )
        (validate_rest_lem root (hash_of sha_256 b) last_mr last_hash bs l stored.1)

  validate_first_lem :
      (last_mr last_hash : Hash) (g : DirectoryBlock) (rest : List (Option DirectoryBlock))
      → Links sha_256 zero_hash zero_hash (some g ∷ rest) last_mr last_hash
      → All IsStored (some g ∷ rest)
      → (validate_first sha_256 db ids (hash_of sha_256 g) (some g ∷ rest)).0 ≡ ok tt
  unfolding validate_first Links
  validate_first_lem last_mr last_hash g rest (root, built, em, eh, links) stored =
      rw
        (
          validate_first,
          validate_dblock_lem g root built stored.0,
          bytes_eq_refl (hash_of sha_256 g),
        )
        (validate_rest_lem root (hash_of sha_256 g) last_mr last_hash rest links stored.1)

  validate_linked :
      (server : Bool) (c : DChain) (g : DirectoryBlock) (rest : List (Option DirectoryBlock))
      → IsLinked sha_256 c
      → c.blocks ≡ some g ∷ rest
      → All IsStored c.blocks
      → (validate_dchain sha_256 db ids server (hash_of sha_256 g) c).0 ≡ ok tt
  unfolding validate_dchain
  validate_linked server c g rest l first stored =
      let counted : (length c.blocks % 2 ^ 32 == c.next_db_height) ≡ true =
        ground (arith, l.heights, l.valid.fits, l.valid.small) in
      let some_block : (not server && length c.blocks == 0) ≡ false = rw first (ground arith) in
      rw (some_block, counted, first)
        (validate_first_lem c.next_block.header.prev_key_mr c.next_block.header.prev_ledger_key_mr g
          rest (rw first at l.links) (rw first at stored))

module _ (sha_256 : List ℕ → List ℕ) (dev_net : Bool) (db : Lookups) (ids : ChainIds) where
  -- Whatever a node does with the directory chain from the one of an empty database, giving the open
  -- block a timestamp, giving it entries, and sealing it with entries that are filled in, in any order:
  -- validateDChain accepts the chain, once it has a block, against the hash of its first block, where
  -- the database has what the entries of its blocks name.
  pub reached_chain_validates :
      (server : Bool) (c : DChain) (g : DirectoryBlock) (rest : List (Option DirectoryBlock))
      → Reach sha_256 dev_net c
      → c.blocks ≡ some g ∷ rest
      → All (IsStored sha_256 db ids) c.blocks
      → (validate_dchain sha_256 db ids server (hash_of sha_256 g) c).0 ≡ ok tt
  reached_chain_validates server c g rest r =
      validate_linked sha_256 db ids server c g rest (Reach-IsLinked sha_256 dev_net r)
