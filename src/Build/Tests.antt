-- ===== src/Build/Tests.antt =====
-- A run of the block building of process/processor.go on the directory chain of an empty database.
use factom_code.Common.{
  ℕ, ◌+◌, ◌<◌, ◌^◌, ◌≡◌, refl, arith, true, false, Option, none, some, List, [], ◌∷◌, ◌++◌, All,
  length, replicate, copy,
}
use factom_code.Common.Exec.{ok, err}
use factom_code.Hash.{Hash, sha}
use factom_code.Merkle.{build_merkle_tree_store, next_power_of_two, fill, hash_merkle_branches}
use factom_code.DirectoryBlock.{
  DbEntry, DirectoryBlock, marshal, marshal_db_entries, marshal_db_entry, entry_hashes,
  build_body_mr, header_root, build_key_merkle_root, block_hash,
}
use factom_code.DirectoryBlock.Roots.{hash_of}
use factom_code.DirectoryBlock.Chain.{
  DChain, created, set_entries, key_mr_of, create_dblock, add_dblock_to_dchain,
}
use factom_code.AdminBlock.{AdminBlock}
use factom_code.Build.{new_directory_block}
use factom_code.Build.Directory.{IsLinked, Links, new_directory_block_lem}
use factom_code.Build.Directory.Valid.{
  first_chain, Reach, start, next, enter, seal, IsStored, reached_chain_validates,
}
use factom_code.Build.Validate.{
  Lookups, ChainIds, no_match, validate_db_entries, validate_db_entry, validate_dchain,
}

-- A function in the place of SHA-256.
abbrev sha_256 : List ℕ → List ℕ
sha_256 bytes = replicate 32 1

abbrev hash : ℕ → Hash
hash n = replicate 32 n

-- An entry of the admin chain.
abbrev entry : DbEntry
entry = record { chain_id = some (hash 10); key_mr = some (hash 11) }

abbrev opened : DChain
opened = set_entries first_chain (entry ∷ [])

abbrev sealed : DirectoryBlock
sealed = record (created 0 (hash 0) (hash 0)) {
  header = record (created 0 (hash 0) (hash 0)).header {
    network_id = 4203931042;
    body_mr = some (hash 1);
    block_count = 1;
  };
  db_entries = entry ∷ [];
  is_sealed = true;
  db_hash = some (hash 1);
  key_mr = some (hash 1);
}

abbrev chain : DChain
chain = record {
  blocks = some sealed ∷ [];
  capacity = 1;
  next_block = created 1 (hash 1) (hash 1);
  next_db_height = 1;
}

seals : new_directory_block sha_256 false opened ≡ ok (sealed, chain)
unfolding new_directory_block create_dblock key_mr_of add_dblock_to_dchain build_key_merkle_root
    header_root build_body_mr entry_hashes block_hash marshal marshal_db_entries marshal_db_entry
    build_merkle_tree_store next_power_of_two fill hash_merkle_branches sha copy
seals = refl

-- A database that has the admin block under the key of the entry, and nothing else.
abbrev db : Lookups
db = record {
  fetch_ec_block_by_hash = λ h. none;
  fetch_ablock_by_hash = λ h. some (factom_code.AdminBlock.created (hash 10) 0 (hash 0));
  fetch_fblock_by_hash = λ h. none;
  fetch_eblock_by_mr = λ h. err no_match;
  fetch_entry_by_hash = λ h. none;
}

abbrev ids : ChainIds
ids = record { ec_chain_id = hash 12; admin_chain_id = hash 10; fct_chain_id = hash 15 }

stored : All (IsStored sha_256 db ids) chain.blocks
unfolding validate_db_entries validate_db_entry factom_code.Common.Map.bytes_eq
stored = (refl, tt)

reached : Reach sha_256 false chain
reached =
    next (next start (enter (entry ∷ [])))
      (seal sealed (((hash 10, refl, refl), (hash 11, refl, refl)), tt) (omega arith) seals)

reached_chain_validates_example :
    (validate_dchain sha_256 db ids true (hash_of sha_256 sealed) chain).0 ≡ ok tt
reached_chain_validates_example =
    reached_chain_validates sha_256 false db ids true chain sealed [] reached refl stored

opened-IsLinked : IsLinked sha_256 opened
unfolding Links
opened-IsLinked = record {
  valid = record { fits = omega arith; room = omega arith; small = omega arith };
  heights = refl;
  open_height = refl;
  no_body_mr = refl;
  no_key_mr = refl;
  links = (refl, refl);
}

new_directory_block_lem_example :
    (b : DirectoryBlock) × (c' : DChain) × (new_directory_block sha_256 false opened ≡ ok (b, c'))
    × IsLinked sha_256 c'
    × (c'.blocks ≡ [] ++ some b ∷ [])
    × (b.db_entries ≡ entry ∷ [])
    × (b.db_hash ≡ some (hash_of sha_256 b))
    × ((root : Hash) × (b.key_mr ≡ some root) × (header_root sha_256 b.header ≡ ok root))
    × (c'.next_block.db_entries ≡ [])
new_directory_block_lem_example =
    new_directory_block_lem sha_256 false opened opened-IsLinked
      (((hash 10, refl, refl), (hash 11, refl, refl)), tt) (omega arith)
