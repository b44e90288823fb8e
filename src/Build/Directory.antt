-- ===== src/Build/Directory.antt =====
-- newDirectoryBlock of process/processor.go on a chain whose blocks are linked by their hashes.
pub mod Valid
use factom_code.Common.{
  ℕ, zero, suc, ◌+◌, ◌-◌, ◌%◌, ◌^◌, ◌<◌, ◌≡◌, refl, sym, ap, ◌∙◌, arith, Bool, true, false, Option,
  none, some, List, [], ◌∷◌, ◌++◌, All, length, length-append, set, replicate, ◌==◌,
}
use factom_code.Common.Exec.{Result, ok, and_then}
use factom_code.Buffer.{ReadError}
use factom_code.Hash.{Hash, zero_hash, sha}
use factom_code.Slice.Laws.{written}
use factom_code.DirectoryBlock.{
  DbEntry, DBlockHeader, DirectoryBlock, build_body_mr, header_root, block_hash,
  build_key_merkle_root, marshal_header,
}
use factom_code.DirectoryBlock.Codec.{IsFilled, entry_bytes}
use factom_code.DirectoryBlock.Roots.{header_root-ok, build_body_mr-ok, block_hash-filled, hash_of}
use factom_code.DirectoryBlock.Chain.{
  DChain, DBlockError, inner_error, created, key_mr_of, create_dblock, add_dblock_to_dchain,
}
use factom_code.DirectoryBlock.Chain.Stored.{
  IsValid, padded, roomy, stored, add_dblock_lem, stored-IsValid,
}
use factom_code.Build.{new_directory_block, with_body, counted}

module _ (sha_256 : List ℕ → List ℕ) where
  -- A block whose body's root is the one of its entries, with the root of its header.
  pub record IsBuilt (b : DirectoryBlock) (root : Hash) : Type 0 where
    pub filled : All IsFilled b.db_entries
    pub body_mr : Hash
    pub is_body_mr : build_body_mr sha_256 b ≡ ok body_mr
    pub in_header : b.header.body_mr ≡ some body_mr
    pub is_root : header_root sha_256 b.header ≡ ok root

  -- Each block holds the root and the hash of the one before it; the last two are those of the last.
  unfoldable pub Links : Hash → Hash → List (Option DirectoryBlock) → Hash → Hash → Type 0
  Links mr h [] last_mr last_hash = (mr ≡ last_mr) × (h ≡ last_hash)
  Links mr h (none ∷ bs) last_mr last_hash = ⊥
  Links mr h (some b ∷ bs) last_mr last_hash =
      (root : Hash) × IsBuilt b root
      × (b.header.prev_key_mr ≡ mr)
      × (b.header.prev_ledger_key_mr ≡ h)
      × Links root (hash_of sha_256 b) bs last_mr last_hash

  pub Links-append :
      (mr h : Hash) (bs : List (Option DirectoryBlock)) (b : DirectoryBlock) (root : Hash)
      → Links mr h bs b.header.prev_key_mr b.header.prev_ledger_key_mr
      → IsBuilt b root
      → Links mr h (bs ++ some b ∷ []) root (hash_of sha_256 b)
  unfolding Links
  Links-append mr h [] b root (em, eh) built = (root, built, sym em, sym eh, (refl, refl))
  Links-append mr h (none ∷ bs) b root l built = absurd l
  Links-append mr h (some a ∷ bs) b root (r, is_built, em, eh, l) built =
      (r, is_built, em, eh, Links-append r (hash_of sha_256 a) bs b root l built)

  -- A chain with the heights of its blocks, whose open block is linked to the last one.
  pub record IsLinked (c : DChain) : Type 0 where
    pub valid : IsValid c
    pub heights : c.next_db_height ≡ length c.blocks
    pub open_height : c.next_block.header.db_height ≡ length c.blocks
    pub no_body_mr : c.next_block.header.body_mr ≡ none
    pub no_key_mr : c.next_block.key_mr ≡ none
    pub links :
        Links zero_hash zero_hash c.blocks c.next_block.header.prev_key_mr
          c.next_block.header.prev_ledger_key_mr

set-end :
    (xs : List (Option DirectoryBlock)) (n : ℕ) (v w : Option DirectoryBlock)
    → n ≡ length xs
    → set (xs ++ v ∷ []) n w ≡ xs ++ w ∷ []
set-end [] zero v w h = refl
set-end [] (suc n) v w h = absurd (omega arith)
set-end (x ∷ xs) zero v w h = absurd (omega arith)
set-end (x ∷ xs) (suc n) v w h = ap (λ ys. x ∷ ys) (set-end xs n v w (omega arith))

padded-next :
    (xs : List (Option DirectoryBlock)) (n : ℕ) → n ≡ length xs → padded xs n ≡ xs ++ none ∷ []
padded-next xs n h = let one : n + 1 - length xs ≡ 1 = omega arith in rw one

-- The slice behind both writes of the sealed block, at the end of the chain.
stored-next :
    (xs : List (Option DirectoryBlock)) (n : ℕ) (v w : Option DirectoryBlock)
    → n ≡ length xs
    → set (set (padded xs n) n v) n w ≡ xs ++ w ∷ []
stored-next xs n v w h = rw (padded-next xs n h, set-end xs n none v h, set-end xs n v w h)

module _ (sha_256 : List ℕ → List ℕ) (dev_net : Bool) (c : DChain) (l : IsLinked sha_256 c)
    (filled : All IsFilled c.next_block.db_entries) (low : length c.blocks + 2 < 2 ^ 31) where
  -- The sealed block, for its body's root and its header's root.
  abbrev with_root : Hash → DirectoryBlock
  with_root mr = record (counted sha_256 dev_net c.next_block) {
    header = record (counted sha_256 dev_net c.next_block).header { body_mr = some mr };
    is_sealed = true;
  }

  abbrev finished : Hash → Hash → DirectoryBlock
  finished mr root = record (with_root mr) {
    db_hash = some (hash_of sha_256 (with_root mr));
    key_mr = some root;
  }

  abbrev next_chain : Hash → Hash → DChain
  next_chain mr root = record (roomy c c.next_block.header.db_height) {
    blocks = c.blocks ++ some (finished mr root) ∷ [];
    next_block = created (c.next_db_height + 1) (hash_of sha_256 (with_root mr)) root;
    next_db_height = c.next_db_height + 1;
  }

  with_body_here :
      (mr : Hash)
      → build_body_mr sha_256 (counted sha_256 dev_net c.next_block) ≡ ok mr
      → with_body sha_256 dev_net (counted sha_256 dev_net c.next_block)
        ≡ ok (record (with_root mr) { is_sealed = c.next_block.is_sealed })
  unfolding build_body_mr
  with_body_here mr is_mr =
      with_body_lem (counted sha_256 dev_net c.next_block) mr l.no_body_mr is_mr
    where
      with_body_lem :
          (b : DirectoryBlock) (mr : Hash)
          → b.header.body_mr ≡ none
          → build_body_mr sha_256 b ≡ ok mr
          → with_body sha_256 dev_net b
            ≡ ok (record b { header = record b.header { body_mr = some mr } })
      with_body_lem b mr none_yet is_mr = rw (none_yet, is_mr)

  key_mr_here :
      (mr root : Hash)
      → header_root sha_256 (with_root mr).header ≡ ok root
      → key_mr_of sha_256 (with_root mr) ≡ ok (root, record (with_root mr) { key_mr = some root })
  unfolding key_mr_of
  key_mr_here mr root is_root = key_mr_lem (with_root mr).key_mr l.no_key_mr
    where
      key_mr_lem :
          (p : Option Hash)
          → p ≡ none
          → key_mr_of sha_256 (record (with_root mr) { key_mr = p })
            ≡ ok (root, record (with_root mr) { key_mr = some root })
      key_mr_lem none e = rw is_root
      key_mr_lem (some h) e = cc

  runs :
      (mr root : Hash)
      → build_body_mr sha_256 (counted sha_256 dev_net c.next_block) ≡ ok mr
      → header_root sha_256 (with_root mr).header ≡ ok root
      → new_directory_block sha_256 dev_net c ≡ ok (finished mr root, next_chain mr root)
  unfolding new_directory_block create_dblock build_key_merkle_root
  runs mr root is_mr is_root =
      let n : c.next_block.header.db_height < 2 ^ 31 = omega (arith, l.open_height) in
      let wrapped : (c.next_db_height + 1) % 2 ^ 32 ≡ c.next_db_height + 1 =
        omega (arith, l.heights) in
      let positive : ((c.next_db_height + 1) == 0) ≡ false = ground arith in
      rw (
        with_body_here mr is_mr,
        add_dblock_lem c (with_root mr) l.valid n,
        wrapped,
        positive,
        block_hash-filled sha_256 {E = DBlockError} (with_root mr) filled,
        key_mr_here mr root is_root,
        block_hash-filled sha_256 {E = DBlockError} (record (with_root mr) { key_mr = some root })
            filled,
        is_root,
        stored-next c.blocks c.next_block.header.db_height (some (with_root mr))
            (some (finished mr root)) l.open_height,
      )

  next_chain-IsLinked :
      (mr root : Hash)
      → build_body_mr sha_256 (counted sha_256 dev_net c.next_block) ≡ ok mr
      → header_root sha_256 (with_root mr).header ≡ ok root
      → IsLinked sha_256 (next_chain mr root)
  unfolding build_body_mr
  next_chain-IsLinked mr root is_mr is_root =
      let grown : length (next_chain mr root).blocks ≡ length c.blocks + 1 =
        length-append c.blocks (some (finished mr root) ∷ []) in
      record {
        valid = record {
          fits = ground (arith, grown, l.valid.fits, l.valid.room, l.open_height);
          room = ground (arith, l.valid.room);
          small = ground (arith, l.valid.small, l.open_height);
        };
        heights = omega (arith, grown, l.heights);
        open_height = omega (arith, grown, l.heights);
        no_body_mr = refl;
        no_key_mr = refl;
        links =
            Links-append sha_256 zero_hash zero_hash c.blocks (finished mr root) root l.links
              (record {
                filled = filled;
                body_mr = mr;
                is_body_mr = is_mr;
                in_header = refl;
                is_root = is_root;
              });
      }

  -- From a linked chain whose open block's entries are filled in, and with room for two more blocks
  -- below 2 ^ 31, newDirectoryBlock succeeds: the open block, sealed, is the next block of the chain,
  -- at the end of its slice, with its entries and its two hashes set; the new open block is empty; and
  -- the chain is linked.
  pub new_directory_block_lem :
      (b : DirectoryBlock) × (c' : DChain) × (new_directory_block sha_256 dev_net c ≡ ok (b, c'))
      × IsLinked sha_256 c'
      × (c'.blocks ≡ c.blocks ++ some b ∷ [])
      × (b.db_entries ≡ c.next_block.db_entries)
      × (b.db_hash ≡ some (hash_of sha_256 b))
      × ((root : Hash) × (b.key_mr ≡ some root) × (header_root sha_256 b.header ≡ ok root))
      × (c'.next_block.db_entries ≡ [])
  new_directory_block_lem =
      let (mr, is_mr) = build_body_mr-ok sha_256 (counted sha_256 dev_net c.next_block) filled in
      let (root, is_root) = header_root-ok sha_256 (with_root mr).header in
      (
        finished mr root,
        next_chain mr root,
        runs mr root is_mr is_root,
        next_chain-IsLinked mr root is_mr is_root,
        refl,
        refl,
        refl,
        (root, refl, is_root),
        refl,
      )
