-- ===== src/Hash/Laws.antt =====
-- The methods of common/hash.go on hashes of the right length.
use factom_code.Common.{◌≡◌, arith, length, copy_same}
use factom_code.Common.Exec.{ok}
use factom_code.Hash.{Hash, hash_length, set_bytes}

pub set_bytes_lem :
    (hash new_hash : Hash)
    → length hash ≡ hash_length
    → length new_hash ≡ hash_length
    → set_bytes hash new_hash ≡ ok new_hash
set_bytes_lem hash new_hash h k = rw (copy_same hash new_hash (omega arith)) (ground arith)
