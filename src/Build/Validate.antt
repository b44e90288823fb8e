-- ===== src/Build/Validate.antt =====
-- validateDChain, validateDBlock and the validations by Merkle root of process/init.go. What they look up
-- is the interface of the database.
use factom_code.Common.{
  ℕ, ◌%◌, ◌^◌, Bool, true, false, not, ◌&&◌, Option, none, some, List, [], ◌∷◌, length, ◌==◌,
  if◌then◌else◌,
}
use factom_code.Common.Map.{bytes_eq}
use factom_code.Common.Exec.{Result, ok, err, panic, and_then}
use factom_code.Buffer.{ReadError}
use factom_code.Hash.{Hash, is_same_as, is_minute_marker}
use factom_code.Entry.{Entry}
use factom_code.EBlock.{EBlock}
use factom_code.EBlock
use factom_code.EcBlock.{EcBlock}
use factom_code.AdminBlock.{AdminBlock}
use factom_code.DirectoryBlock.{
  DbEntry, DirectoryBlock, build_body_mr, block_hash, build_key_merkle_root,
}
use factom_code.DirectoryBlock.Chain.{DChain}

-- The errors of the validations.
pub data ValidateError : Type 0 where
  unexpected_next_height invalid_body_mr previous_hash previous_mr : ValidateError
  not_found no_match : ValidateError
  building : ReadError → ValidateError

abbrev pub building_error : {A : Type 0} → Result ReadError A → Result ValidateError A
building_error (ok a) = ok a
building_error (err e) = err (building e)
building_error panic = panic

-- The lookups of the database, of which a nil answer is `none`; the errors that the code does not look
-- at are nil answers. Of a factoid block only its key Merkle root is asked for.
pub record Lookups : Type 0 where
  pub fetch_ec_block_by_hash : Hash → Option EcBlock
  pub fetch_ablock_by_hash : Hash → Option AdminBlock
  pub fetch_fblock_by_hash : Hash → Option (List ℕ)
  pub fetch_eblock_by_mr : Hash → Result ValidateError (Option EBlock)
  pub fetch_entry_by_hash : Hash → Option Entry

-- The chain IDs that the switch tells apart.
pub record ChainIds : Type 0 where
  pub ec_chain_id : Hash
  pub admin_chain_id : Hash
  pub fct_chain_id : Hash

-- A block that must be there.
abbrev pub found : {A : Type 0} → Option A → Result ValidateError A
found none = err not_found
found (some a) = ok a

abbrev pub require : Bool → ValidateError → Result ValidateError Unit
require true e = ok tt
require false e = err e

module _ (sha_256 : List ℕ → List ℕ) (db : Lookups) (ids : ChainIds) where
  -- validateCBlockByMR(mr), validateABlockByMR(mr) and validateFBlockByMR(mr)
  abbrev pub validate_cblock_by_mr : Hash → Result ValidateError Unit
  validate_cblock_by_mr mr = and_then (found (db.fetch_ec_block_by_hash mr)) λ b. ok tt

  abbrev pub validate_ablock_by_mr : Hash → Result ValidateError Unit
  validate_ablock_by_mr mr = and_then (found (db.fetch_ablock_by_hash mr)) λ b. ok tt

  abbrev pub validate_fblock_by_mr : Hash → Result ValidateError Unit
  validate_fblock_by_mr mr =
      and_then (found (db.fetch_fblock_by_hash mr)) λ key_mr. require (bytes_eq key_mr mr) no_match

  -- The entries of an entry block: each is a minute marker, or is in the database.
  unfoldable pub validate_eb_entries : List Hash → Result ValidateError Unit
  validate_eb_entries [] = ok tt
  validate_eb_entries (h ∷ hs) =
      and_then
        (if is_minute_marker h
          then ok tt
          else and_then (found (db.fetch_entry_by_hash h)) λ e. ok tt)
        λ _. validate_eb_entries hs

  -- validateEBlockByMR(cid, mr)
  unfoldable pub validate_eblock_by_mr : Hash → Result ValidateError Unit
  validate_eblock_by_mr mr = and_then (db.fetch_eblock_by_mr mr) λ answer.
      and_then (found answer) λ eb.
        and_then (building_error (EBlock.key_mr sha_256 eb)) λ (key_mr, eb').
          and_then (require (is_same_as (some mr) (some key_mr)) no_match)
            λ _. validate_eb_entries eb'.eb_entries

  -- The switch on an entry's chain. A nil hash panics, by its String or by the lookup's.
  unfoldable pub validate_db_entry : DbEntry → Result ValidateError Unit
  validate_db_entry e = elim e.chain_id [
    | none ↦ panic
    | some chain_id ↦ elim e.key_mr [
      | none ↦ panic
      | some mr ↦
          if bytes_eq chain_id ids.ec_chain_id
          then validate_cblock_by_mr mr
          else if bytes_eq chain_id ids.admin_chain_id
          then validate_ablock_by_mr mr
          else if bytes_eq chain_id ids.fct_chain_id
          then validate_fblock_by_mr mr
          else validate_eblock_by_mr mr
    ]
  ]

  unfoldable pub validate_db_entries : List DbEntry → Result ValidateError Unit
  validate_db_entries [] = ok tt
  validate_db_entries (e ∷ es) = and_then (validate_db_entry e) λ _. validate_db_entries es

  -- validateDBlock(c, b): the block's Merkle root, its hash, and the block with both set.
  unfoldable pub validate_dblock :
      DirectoryBlock → Result ValidateError (Hash × Hash × DirectoryBlock)
  validate_dblock b = and_then (building_error (build_body_mr sha_256 b)) λ body_mr.
      and_then (require (is_same_as b.header.body_mr (some body_mr)) invalid_body_mr) λ _.
        and_then (validate_db_entries b.db_entries) λ _. and_then (block_hash sha_256 b) λ h.
          and_then (building_error (build_key_merkle_root sha_256 (record b { db_hash = some h })))
            λ b'. elim b'.key_mr [ none ↦ panic | some root ↦ ok (root, h, b') ]

  -- The loop of validateDChain over the blocks behind the first, with the blocks that it leaves: those
  -- before a failure are validated, the failing one's flag is reset where its own validation failed.
  unfoldable pub validate_rest :
      Hash
      → Hash
      → List (Option DirectoryBlock)
      → Result ValidateError Unit × List (Option DirectoryBlock)
  validate_rest prev_mr prev_hash [] = (ok tt, [])
  validate_rest prev_mr prev_hash (none ∷ bs) = (panic, none ∷ bs)
  validate_rest prev_mr prev_hash (some b ∷ bs) =
      if not (is_same_as (some prev_hash) (some b.header.prev_ledger_key_mr))
      then (err previous_hash, some b ∷ bs)
      else if not (is_same_as (some prev_mr) (some b.header.prev_key_mr))
      then (err previous_mr, some b ∷ bs)
      else elim (validate_dblock b) [
        | err e ↦ (err e, some (record b { is_validated = false }) ∷ bs)
        | panic ↦ (panic, some b ∷ bs)
        | ok (root, h, b') ↦
            let r = validate_rest root h bs in (r.0, some (record b' { is_validated = true }) ∷ r.1)
      ]

  -- validateDChain(c), on a server or not, against the hash of the genesis block, with the blocks that
  -- it leaves. A first block that is nil, or a hash that is not the genesis block's, panics.
  unfoldable pub validate_first :
      Hash → List (Option DirectoryBlock) → Result ValidateError Unit × List (Option DirectoryBlock)
  validate_first genesis [] = (panic, [])
  validate_first genesis (none ∷ bs) = (panic, none ∷ bs)
  validate_first genesis (some b ∷ bs) = elim (validate_dblock b) [
    | err e ↦ (err e, some b ∷ bs)
    | panic ↦ (panic, some b ∷ bs)
    | ok (root, h, b') ↦
        let r = validate_rest root h bs in
        if bytes_eq h genesis then (r.0, some b' ∷ r.1) else (panic, some b' ∷ bs)
  ]

  unfoldable pub validate_dchain :
      Bool → Hash → DChain → Result ValidateError Unit × List (Option DirectoryBlock)
  validate_dchain server genesis c =
      if not server && length c.blocks == 0
      then (ok tt, c.blocks)
      else if not (length c.blocks % 2 ^ 32 == c.next_db_height)
      then (err unexpected_next_height, c.blocks)
      else validate_first genesis c.blocks
