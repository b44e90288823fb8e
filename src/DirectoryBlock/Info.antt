-- ===== src/DirectoryBlock/Info.antt =====
-- DirBlockInfo of common/directoryBlock.go: what is known of a directory block's anchor.
use factom_code.Common.{
  ℕ, ◌-◌, ◌≤◌, refl, ◌*◌, ◌%◌, ◌^◌, ◌<◌, ◌≡◌, arith, Bool, true, false, Option, some, List, [], ◌∷◌,
  ◌++◌, length, ltb, if◌then◌else◌, append_assoc,
}
use factom_code.Common.Int.{ℤ, pos, negsuc, pos_part, neg_part, low_word, signed_32, IsInt32}
use factom_code.Common.Bytes.{put_uint}
use factom_code.Common.Exec.{Result, ok, and_then}
use factom_code.Buffer.{ReadError}
use factom_code.Hash.{Hash, zero_hash}
use factom_code.Slice.{Slice, return, recovering, ◌>>=◌, take_byte, take_uint, take_hash}
use factom_code.Slice.Laws.{take_byte_lem, take_uint_lem, take_hash_lem}
use factom_code.DirectoryBlock.{DirectoryBlock, marshal_pointer}

pub record DirBlockInfo : Type 0 where
  pub db_hash : Option Hash
  pub db_height : ℕ
  pub timestamp : ℤ
  pub btc_tx_hash : Hash
  pub btc_tx_offset : ℤ
  pub btc_block_height : ℤ
  pub btc_block_hash : Hash
  pub db_merkle_root : Option Hash
  pub btc_confirmed : Bool

-- NewDirBlockInfoFromDBlock(b). The minutes are multiplied in uint32, which wraps.
unfoldable pub new_dir_block_info_from_dblock : DirectoryBlock → DirBlockInfo
new_dir_block_info_from_dblock b = record {
  db_hash = b.db_hash;
  db_height = b.header.db_height;
  timestamp = pos (b.header.timestamp * 60 % 2 ^ 32);
  btc_tx_hash = zero_hash;
  btc_tx_offset = pos 0;
  btc_block_height = pos 0;
  btc_block_hash = zero_hash;
  db_merkle_root = b.key_mr;
  btc_confirmed = false;
}

-- A bit pattern of 64 bits read as an int64.
abbrev signed_64 : ℕ → ℤ
signed_64 u = if ltb u (2 ^ 63) then pos u else negsuc (2 ^ 64 - u - 1)

abbrev confirmed_byte : Bool → ℕ
confirmed_byte false = 0
confirmed_byte true = 1

-- b.MarshalBinary()
unfoldable pub marshal_info : {E : Type 0} → DirBlockInfo → Result E (List ℕ)
marshal_info b = and_then (marshal_pointer b.db_hash) λ db_hash.
    and_then (marshal_pointer b.db_merkle_root) λ root. ok (
      db_hash
      ++ (put_uint 4 b.db_height
          ++ (put_uint 8 (low_word (2 ^ 64) b.timestamp)
              ++ (b.btc_tx_hash
                  ++ (put_uint 4 (low_word (2 ^ 32) b.btc_tx_offset)
                      ++ (put_uint 4 (low_word (2 ^ 32) b.btc_block_height)
                          ++ (b.btc_block_hash
                              ++ (root ++ confirmed_byte b.btc_confirmed ∷ []))))))))

-- b.UnmarshalBinaryData(data). An error of the later hashes is looked at by no test, but leaves no
-- data, on which the next read panics.
unfoldable pub read_info : Slice DirBlockInfo
read_info = do
  db_hash ← take_hash
  db_height ← take_uint 4
  timestamp ← take_uint 8
  btc_tx_hash ← take_hash
  btc_tx_offset ← take_uint 4
  btc_block_height ← take_uint 4
  btc_block_hash ← take_hash
  root ← take_hash
  confirmed ← take_byte
  return (record {
    db_hash = some db_hash;
    db_height = db_height;
    timestamp = signed_64 timestamp;
    btc_tx_hash = btc_tx_hash;
    btc_tx_offset = signed_32 btc_tx_offset;
    btc_block_height = signed_32 btc_block_height;
    btc_block_hash = btc_block_hash;
    db_merkle_root = some root;
    btc_confirmed = ltb 0 confirmed;
  })

unfoldable pub unmarshal_info : Slice DirBlockInfo
unmarshal_info new_data = recovering (read_info new_data)

abbrev IsInt64 : ℤ → Type 0
IsInt64 z = (pos_part z < 2 ^ 63) × (neg_part z ≤ 2 ^ 63)

-- The sizes of the hashes and the ranges of the numbers.
pub record IsSized (b : DirBlockInfo) : Type 0 where
  pub db_height : b.db_height < 256 ^ 4
  pub timestamp : IsInt64 b.timestamp
  pub btc_tx_hash : length b.btc_tx_hash ≡ 32
  pub btc_tx_offset : IsInt32 b.btc_tx_offset
  pub btc_block_height : IsInt32 b.btc_block_height
  pub btc_block_hash : length b.btc_block_hash ≡ 32

signed_32-low_word : (z : ℤ) → IsInt32 z → signed_32 (low_word (2 ^ 32) z) ≡ z
signed_32-low_word (pos n) h = ground arith
signed_32-low_word (negsuc n) h = ground arith

signed_64-low_word : (z : ℤ) → IsInt64 z → signed_64 (low_word (2 ^ 64) z) ≡ z
signed_64-low_word (pos n) h = ground arith
signed_64-low_word (negsuc n) h = ground arith

low_word_32_bound : (z : ℤ) → low_word (2 ^ 32) z < 256 ^ 4
low_word_32_bound (pos n) = omega arith
low_word_32_bound (negsuc n) = omega arith

low_word_64_bound : (z : ℤ) → low_word (2 ^ 64) z < 256 ^ 8
low_word_64_bound (pos n) = omega arith
low_word_64_bound (negsuc n) = omega arith

confirmed-byte : (b : Bool) → ltb 0 (confirmed_byte b) ≡ b
confirmed-byte false = refl
confirmed-byte true = refl

pub unmarshal-marshal_info :
    (b : DirBlockInfo) (db_hash root : Hash) (rest : List ℕ)
    → IsSized b
    → b.db_hash ≡ some db_hash
    → b.db_merkle_root ≡ some root
    → length db_hash ≡ 32
    → length root ≡ 32
    → and_then (marshal_info {E = ReadError} b) (λ p. unmarshal_info (p ++ rest)) ≡ ok (b, rest)
unfolding marshal_info unmarshal_info read_info
unmarshal-marshal_info b db_hash root rest s ed er sd sr = rw (
  ed,
  er,
  append_assoc db_hash,
  append_assoc (put_uint 4 b.db_height),
  append_assoc (put_uint 8 (low_word (2 ^ 64) b.timestamp)),
  append_assoc b.btc_tx_hash,
  append_assoc (put_uint 4 (low_word (2 ^ 32) b.btc_tx_offset)),
  append_assoc (put_uint 4 (low_word (2 ^ 32) b.btc_block_height)),
  append_assoc b.btc_block_hash,
  append_assoc root,
  take_hash_lem db_hash sd,
  take_uint_lem 4 b.db_height s.db_height,
  take_uint_lem 8 (low_word (2 ^ 64) b.timestamp) (low_word_64_bound b.timestamp),
  take_hash_lem b.btc_tx_hash s.btc_tx_hash,
  take_uint_lem 4 (low_word (2 ^ 32) b.btc_tx_offset) (low_word_32_bound b.btc_tx_offset),
  take_uint_lem 4 (low_word (2 ^ 32) b.btc_block_height) (low_word_32_bound b.btc_block_height),
  take_hash_lem b.btc_block_hash s.btc_block_hash,
  take_hash_lem root sr,
  take_byte_lem,
  signed_32-low_word b.btc_tx_offset s.btc_tx_offset,
  signed_32-low_word b.btc_block_height s.btc_block_height,
  signed_64-low_word b.timestamp s.timestamp,
  confirmed-byte b.btc_confirmed,
)
