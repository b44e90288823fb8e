-- ===== src/EcBlock.antt =====
-- common/ecblock.go: the Entry Credit block. SHA-256 is the parameter of the functions that hash.
pub mod Codec
use factom_code.Common.{
  ℕ, zero, suc, ◌+◌, ◌-◌, ◌*◌, ◌≤◌, ◌<◌, ◌^◌, ◌%◌, ◌≡◌, Bool, true, false, Option, none, some, List,
  [], ◌∷◌, ◌++◌, All, length, take, drop, replicate, copy, ltb, leb, ◌==◌, if◌then◌else◌,
}
use factom_code.Common.Bytes.{put_uint}
use factom_code.Common.Exec.{
  Result, ok, err, panic, Exec, pure, raise, panics, lift, gets, ◌>>=◌, ◌>>◌,
}
use factom_code.Buffer.{
  ReadError, eof, unsupported_ecid, Reader, Read, new_reader, update, read_byte, need, next,
  read_hash, read_uint,
}
use factom_code.Hash.{Hash, zero_hash, sha, set_bytes_or_keep}
use factom_code.VarInt.{encode_var_int, decode_var_int}
use factom_code.Credit.Numbers.{
  MinuteNumber, ServerIndexNumber, minute_number_size, server_index_number_size,
  marshal_minute_number, marshal_server_index_number, unmarshal_minute_number,
  unmarshal_server_index_number,
}
use factom_code.Credit.IncreaseBalance
use factom_code.Credit.IncreaseBalance.{IncreaseBalance, new_increase_balance}
use factom_code.Credit.CommitEntry
use factom_code.Credit.CommitEntry.{CommitEntry, new_commit_entry, commit_entry_size}
use factom_code.Credit.CommitChain
use factom_code.Credit.CommitChain.{CommitChain, new_commit_chain, commit_chain_size}

-- The types that implement ECBlockEntry.
pub data EcBlockEntry : Type 0 where
  server_index_number : ServerIndexNumber → EcBlockEntry
  minute_number : MinuteNumber → EcBlockEntry
  chain_commit : CommitChain → EcBlockEntry
  entry_commit : CommitEntry → EcBlockEntry
  balance_increase : IncreaseBalance → EcBlockEntry

-- The ECID constants, by iota.
abbrev pub ec_id_server_index_number : ℕ
ec_id_server_index_number = 0

abbrev pub ec_id_minute_number : ℕ
ec_id_minute_number = 1

abbrev pub ec_id_chain_commit : ℕ
ec_id_chain_commit = 2

abbrev pub ec_id_entry_commit : ℕ
ec_id_entry_commit = 3

abbrev pub ec_id_balance_increase : ℕ
ec_id_balance_increase = 4

-- v.ECID()
abbrev pub ec_id : EcBlockEntry → ℕ
ec_id (server_index_number s) = ec_id_server_index_number
ec_id (minute_number m) = ec_id_minute_number
ec_id (chain_commit c) = ec_id_chain_commit
ec_id (entry_commit c) = ec_id_entry_commit
ec_id (balance_increase b) = ec_id_balance_increase

-- v.MarshalBinary()
abbrev pub marshal_entry : EcBlockEntry → Result ReadError (List ℕ)
marshal_entry (server_index_number s) = ok (marshal_server_index_number s)
marshal_entry (minute_number m) = ok (marshal_minute_number m)
marshal_entry (chain_commit c) = ok (CommitChain.marshal c)
marshal_entry (entry_commit c) = ok (CommitEntry.marshal c)
marshal_entry (balance_increase b) = IncreaseBalance.marshal b

pub record EcBlockHeader : Type 0 where
  pub ec_chain_id : Hash
  pub body_hash : Hash
  pub prev_header_hash : Hash
  pub prev_ledger_key_mr : Hash
  pub eb_height : ℕ
  pub header_expansion_area : List ℕ
  pub object_count : ℕ
  pub body_size : ℕ

-- The body holds its entries alone.
pub record EcBlock : Type 0 where
  pub header : EcBlockHeader
  pub entries : List EcBlockEntry

-- EC_CHAINID
abbrev pub ec_chain_id_bytes : Hash
ec_chain_id_bytes = replicate 31 0 ++ 0x0c ∷ []

-- NewECBlockHeader() and NewECBlock()
abbrev pub new_ec_block_header : EcBlockHeader
new_ec_block_header = record {
  ec_chain_id = ec_chain_id_bytes;
  body_hash = zero_hash;
  prev_header_hash = zero_hash;
  prev_ledger_key_mr = zero_hash;
  eb_height = 0;
  header_expansion_area = [];
  object_count = 0;
  body_size = 0;
}

abbrev pub new_ec_block : EcBlock
new_ec_block = record { header = new_ec_block_header; entries = [] }

-- e.AddEntry(entry)
unfoldable pub add_entry : EcBlock → EcBlockEntry → EcBlock
add_entry e entry = record e { entries = e.entries ++ entry ∷ [] }
