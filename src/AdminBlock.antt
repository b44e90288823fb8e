-- ===== src/AdminBlock.antt =====
-- common/adminBlock.go: the admin block, its header and its entries. SHA-256 and SHA-512 are
-- parameters. A hash pointer of a header or an entry is never nil here; the two hashes that a block
-- keeps are `none` until they are computed.
pub mod Codec
pub mod Sizes
mod Tests
use factom_code.Common.{
  ℕ, zero, suc, ◌+◌, ◌%◌, ◌^◌, Option, none, some, List, [], ◌∷◌, ◌++◌, ◌==◌, if◌then◌else◌, not,
  ◌&&◌,
}
use factom_code.Common.Bytes.{put_uint}
use factom_code.Common.Exec.{Result, ok, err, panic, and_then}
use factom_code.Buffer.{ReadError}
use factom_code.Hash.{Hash, zero_hash, hash_length, sha, sha_512_half}
use factom_code.VarInt.{encode_var_int, var_int_length}

-- TYPE_MINUTE_NUM and TYPE_DB_SIGNATURE, by iota.
abbrev pub type_minute_num : ℕ
type_minute_num = 0

abbrev pub type_db_signature : ℕ
type_db_signature = 1

abbrev pub sig_length : ℕ
sig_length = 64

pub record DbSignatureEntry : Type 0 where
  pub entry_type : ℕ
  pub identity_admin_chain_id : Hash
  pub pub_key : List ℕ
  pub prev_db_sig : List ℕ

pub record EndOfMinuteEntry : Type 0 where
  pub entry_type : ℕ
  pub eom_type : ℕ

-- The types that implement ABEntry.
pub data AbEntry : Type 0 where
  db_signature : DbSignatureEntry → AbEntry
  end_of_minute : EndOfMinuteEntry → AbEntry

pub record ABlockHeader : Type 0 where
  pub admin_chain_id : Hash
  pub prev_ledger_key_mr : Hash
  pub db_height : ℕ
  pub header_expansion_size : ℕ
  pub header_expansion_area : List ℕ
  pub message_count : ℕ
  pub body_size : ℕ

pub record AdminBlock : Type 0 where
  pub header : ABlockHeader
  pub ab_entries : List AbEntry
  pub full_hash : Option Hash
  pub partial_hash : Option Hash

-- NewDBSignatureEntry(identityAdminChainID, sig), for the signature's public key and its bytes.
abbrev pub new_db_signature_entry : Hash → List ℕ → List ℕ → DbSignatureEntry
new_db_signature_entry id key sig = record {
  entry_type = type_db_signature;
  identity_admin_chain_id = id;
  pub_key = key;
  prev_db_sig = sig;
}

-- e.Type()
abbrev pub entry_type : AbEntry → ℕ
entry_type (db_signature e) = e.entry_type
entry_type (end_of_minute m) = m.entry_type

-- The MarshalBinary methods of the two entries.
unfoldable pub marshal_entry : AbEntry → List ℕ
marshal_entry (db_signature e) =
    e.entry_type ∷ (e.identity_admin_chain_id ++ (e.pub_key ++ e.prev_db_sig))
marshal_entry (end_of_minute m) = m.entry_type ∷ m.eom_type ∷ []

-- b.AddABEntry(e) and b.AddEndOfMinuteMarker(eomType)
abbrev pub add_ab_entry : AdminBlock → AbEntry → AdminBlock
add_ab_entry b e = record b { ab_entries = b.ab_entries ++ e ∷ [] }

abbrev pub add_end_of_minute_marker : AdminBlock → ℕ → AdminBlock
add_end_of_minute_marker b eom_type =
    add_ab_entry b (end_of_minute (record { entry_type = type_minute_num; eom_type = eom_type }))

-- The MarshalBinary of ABlockHeader. The size is written as it stands, whatever the area holds.
unfoldable pub marshal_header : ABlockHeader → List ℕ
marshal_header h =
    h.admin_chain_id
    ++ (h.prev_ledger_key_mr
        ++ (put_uint 4 h.db_height
            ++ (encode_var_int h.header_expansion_size
                ++ (h.header_expansion_area
                    ++ (put_uint 4 h.message_count ++ put_uint 4 h.body_size)))))

-- The loop of the block's MarshalBinary: as many entries as the header counts, and a panic where the
-- block holds fewer.
unfoldable pub marshal_entries : {E : Type 0} → ℕ → List AbEntry → Result E (List ℕ)
marshal_entries zero vs = ok []
marshal_entries (suc n) [] = panic
marshal_entries (suc n) (v ∷ vs) = and_then (marshal_entries n vs) λ p. ok (marshal_entry v ++ p)

-- b.MarshalBinary()
unfoldable pub marshal : {E : Type 0} → AdminBlock → Result E (List ℕ)
marshal b =
    and_then (marshal_entries b.header.message_count b.ab_entries)
      λ p. ok (marshal_header b.header ++ p)

-- The MarshalledSize methods: sums of uint64.
abbrev pub marshalled_entry_size : AbEntry → ℕ
marshalled_entry_size (db_signature e) = 1 + hash_length + hash_length + sig_length
marshalled_entry_size (end_of_minute m) = 2

unfoldable pub marshalled_header_size : ABlockHeader → ℕ
marshalled_header_size h =
    (hash_length
      + hash_length
      + 4
      + var_int_length h.header_expansion_size
      + h.header_expansion_size
      + 4
      + 4)
    % 2 ^ 64

unfoldable pub add_sizes : ℕ → List AbEntry → ℕ
add_sizes size [] = size
add_sizes size (v ∷ vs) = add_sizes ((size + marshalled_entry_size v) % 2 ^ 64) vs

unfoldable pub marshalled_size : AdminBlock → ℕ
marshalled_size b = add_sizes (marshalled_header_size b.header) b.ab_entries

-- b.GetDBSignature(): the loop over the entries that the header counts.
unfoldable pub find_db_signature : {E : Type 0} → ℕ → List AbEntry → Result E (Option AbEntry)
find_db_signature zero vs = ok none
find_db_signature (suc n) [] = panic
find_db_signature (suc n) (v ∷ vs) =
    let later = find_db_signature n vs in
    if entry_type v == type_db_signature then ok (some v) else later

abbrev pub get_db_signature : {E : Type 0} → AdminBlock → Result E (Option AbEntry)
get_db_signature b = find_db_signature b.header.message_count b.ab_entries

-- The errors of CreateAdminBlock.
pub data CreateError : Type 0 where
  prev_is_nil origin_has_parent : CreateError

abbrev pub new_ablock_header : ABlockHeader
new_ablock_header = record {
  admin_chain_id = zero_hash;
  prev_ledger_key_mr = zero_hash;
  db_height = 0;
  header_expansion_size = 0;
  header_expansion_area = [];
  message_count = 0;
  body_size = 0;
}

abbrev pub created : Hash → ℕ → Hash → AdminBlock
created chain_id next_height prev_hash = record {
  header = record new_ablock_header {
    admin_chain_id = chain_id;
    prev_ledger_key_mr = prev_hash;
    db_height = next_height;
  };
  ab_entries = [];
  full_hash = none;
  partial_hash = none;
}

module _ (sha_512 : List ℕ → List ℕ) where
  -- ab.LedgerKeyMR(): the hash of a block is computed once, by buildFullBHash, and kept.
  unfoldable pub ledger_key_mr : {E : Type 0} → AdminBlock → Result E (Hash × AdminBlock)
  ledger_key_mr b = elim b.full_hash [
    | some h ↦ ok (h, b)
    | none ↦
        and_then (marshal b)
          λ p. ok (sha_512_half sha_512 p, record b { full_hash = some (sha_512_half sha_512 p) })
  ]

  -- CreateAdminBlock(chain, prev, cap), for the ID and the next height of the chain: the block, and
  -- `prev`, whose hash was taken.
  unfoldable pub create_admin_block :
      Hash → ℕ → Option AdminBlock → Result CreateError (AdminBlock × Option AdminBlock)
  create_admin_block chain_id next_height none =
      if next_height == 0
      then ok (created chain_id next_height zero_hash, none)
      else err prev_is_nil
  create_admin_block chain_id next_height (some prev) =
      if next_height == 0
      then err origin_has_parent
      else and_then (ledger_key_mr prev)
          λ (h, prev'). ok (created chain_id next_height h, some prev')

-- ab.PartialHash(), by buildPartialHash, kept in the same way.
unfoldable pub partial_hash_of :
    {E : Type 0} → (List ℕ → List ℕ) → AdminBlock → Result E (Hash × AdminBlock)
partial_hash_of sha_256 b = elim b.partial_hash [
  | some h ↦ ok (h, b)
  | none ↦
      and_then (marshal b) λ p. ok (sha sha_256 p, record b { partial_hash = some (sha sha_256 p) })
]
