-- ===== src/DirectoryBlock/Chain.antt =====
-- The chain of common/directoryBlock.go, its next block and CreateDBlock.
pub mod Stored
use factom_code.Common.{
  ℕ, ◌+◌, ◌-◌, ◌*◌, ◌%◌, ◌^◌, Bool, true, false, Option, none, some, List, [], ◌∷◌, ◌++◌, length,
  get_elem?, set, replicate, ltb, leb, ◌==◌, if◌then◌else◌,
}
use factom_code.Common.Exec.{Result, ok, err, panic, and_then}
use factom_code.Buffer.{ReadError}
use factom_code.Hash.{Hash, zero_hash, set_bytes_or_keep}
use factom_code.EBlock.{EBlock}
use factom_code.EcBlock.{EcBlock}
use factom_code.AdminBlock.{AdminBlock}
use factom_code.DirectoryBlock.{
  DbEntry, DBlockHeader, DirectoryBlock, new_directory_block, marshalled, header_root,
  build_key_merkle_root, block_hash, new_db_entry, new_db_entry_from_ec_block,
  new_db_entry_from_ablock,
}

-- A slice of block pointers with its capacity; what stands behind the length is nil, since the slice
-- only grows. The mutex is not modelled.
pub record DChain : Type 0 where
  pub blocks : List (Option DirectoryBlock)
  pub capacity : ℕ
  pub next_block : DirectoryBlock
  pub next_db_height : ℕ

-- NewDChain()
abbrev pub new_dchain : DChain
new_dchain = record {
  blocks = [];
  capacity = 0;
  next_block = new_directory_block;
  next_db_height = 0;
}

-- The errors of CreateDBlock; ReadError is the one of BuildMerkleTreeStore, which only panics.
pub data DBlockError : Type 0 where
  prev_is_nil origin_has_parent : DBlockError
  inner : ReadError → DBlockError

abbrev pub inner_error : {A : Type 0} → Result ReadError A → Result DBlockError A
inner_error (ok a) = ok a
inner_error (err e) = err (inner e)
inner_error panic = panic

-- b := new(DirectoryBlock) with a new header, which CreateDBlock fills in. The body's root is nil.
abbrev pub created : ℕ → Hash → Hash → DirectoryBlock
created height prev_ledger_key_mr prev_key_mr = record {
  header = record {
    version = 0;
    network_id = 0;
    body_mr = none;
    prev_key_mr = prev_key_mr;
    prev_ledger_key_mr = prev_ledger_key_mr;
    timestamp = 0;
    db_height = height;
    block_count = 0;
  };
  db_entries = [];
  is_sealed = false;
  db_hash = none;
  key_mr = none;
  is_saved_in_db = false;
  is_validated = false;
}

module _ (sha_256 : List ℕ → List ℕ) where
  -- The Merkle root of `prev`, which is built where it is nil.
  unfoldable pub key_mr_of : DirectoryBlock → Result ReadError (Hash × DirectoryBlock)
  key_mr_of prev = elim prev.key_mr [
    | some h ↦ ok (h, prev)
    | none ↦
        and_then (header_root sha_256 prev.header)
          λ root. ok (root, record (marshalled prev) { key_mr = some root })
  ]

  -- CreateDBlock(chain, prev, cap), for the next height of the chain: the block, and `prev`, which was
  -- marshalled.
  unfoldable pub create_dblock :
      ℕ → Option DirectoryBlock → Result DBlockError (DirectoryBlock × Option DirectoryBlock)
  create_dblock height none =
      if height == 0 then ok (created height zero_hash zero_hash, none) else err prev_is_nil
  create_dblock height (some prev) =
      if height == 0
      then err origin_has_parent
      else and_then (block_hash sha_256 prev) λ h.
        and_then (inner_error (key_mr_of (marshalled prev)))
          λ (root, prev'). ok (created height h root, some prev')

-- c.AddDBlockToDChain(b): the capacity grown by `make`, which panics where the wrapped double is below
-- the length; the length by re-slicing, which panics above the capacity; and the write.
grow_capacity : DChain → ℕ → Result ReadError DChain
grow_capacity c height =
    if leb (c.capacity % 2 ^ 32) height
    then if ltb (height * 2 % 2 ^ 32) (length c.blocks)
      then panic
      else ok (record c { capacity = height * 2 % 2 ^ 32 })
    else ok c

grow_length : DChain → ℕ → Result ReadError DChain
grow_length c height =
    let wanted = (height + 1) % 2 ^ 32 in
    if leb (length c.blocks % 2 ^ 32) height
    then if ltb c.capacity wanted
      then panic
      else ok (record c { blocks = c.blocks ++ replicate (wanted - length c.blocks) none })
    else ok c

store : DirectoryBlock → DChain → Result ReadError DChain
store b c =
    if ltb b.header.db_height (length c.blocks)
    then ok (record c { blocks = set c.blocks b.header.db_height (some b) })
    else panic

unfoldable pub add_dblock_to_dchain : DChain → DirectoryBlock → Result ReadError DChain
unfolding grow_capacity grow_length store
add_dblock_to_dchain c b =
    and_then (grow_capacity c b.header.db_height)
      λ c'. and_then (grow_length c' b.header.db_height) (store b)

-- c.IsBlockExisting(height)
abbrev pub is_there : Option (Option DirectoryBlock) → Bool
is_there (some (some b)) = true
is_there (some none) = false
is_there none = false

unfoldable pub is_block_existing : DChain → ℕ → Bool
is_block_existing c height =
    if leb (length c.blocks % 2 ^ 32) height then false else is_there (get_elem? c.blocks height)

abbrev pub set_entries : DChain → List DbEntry → DChain
set_entries c es = record c { next_block = record c.next_block { db_entries = es } }

-- c.AddDBEntry(dbEntry)
abbrev pub add_db_entry : DChain → DbEntry → DChain
add_db_entry c e = set_entries c (c.next_block.db_entries ++ e ∷ [])

-- The entries of the three first blocks stand at fixed places, which must be there.
unfoldable pub set_db_entry : DChain → ℕ → DbEntry → Result ReadError DChain
set_db_entry c i e =
    if ltb (length c.next_block.db_entries) 3
    then panic
    else ok (set_entries c (set c.next_block.db_entries i e))

module _ (sha_256 : List ℕ → List ℕ) where
  -- c.AddEBlockToDBEntry(eb), c.AddECBlockToDBEntry(ecb) and c.AddABlockToDBEntry(b)
  unfoldable pub add_eblock_to_db_entry : DChain → EBlock → Result ReadError (DChain × EBlock)
  add_eblock_to_db_entry c eb =
      and_then (new_db_entry sha_256 eb) λ (e, eb'). ok (add_db_entry c e, eb')

  unfoldable pub add_ec_block_to_db_entry : DChain → EcBlock → Result ReadError DChain
  add_ec_block_to_db_entry c ecb = set_db_entry c 1 (new_db_entry_from_ec_block sha_256 ecb)

  unfoldable pub add_ablock_to_db_entry :
      DChain → AdminBlock → Result ReadError (DChain × AdminBlock)
  add_ablock_to_db_entry c b =
      and_then (new_db_entry_from_ablock sha_256 b)
        λ (e, b'). and_then (set_db_entry c 0 e) λ c'. ok (c', b')

-- c.AddFBlockToDBEntry(b), for the bytes of the factoid block's chain ID and of its hash.
unfoldable pub add_fblock_to_db_entry : DChain → List ℕ → List ℕ → Result ReadError DChain
add_fblock_to_db_entry c chain_id h = set_db_entry c 2 (record {
  chain_id = some (set_bytes_or_keep zero_hash chain_id);
  key_mr = some (set_bytes_or_keep zero_hash h);
})
