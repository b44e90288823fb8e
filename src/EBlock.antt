-- ===== src/EBlock.antt =====
-- common/eblock.go: the entry block of a chain. SHA-256 and SHA-512 are the parameters of the
-- functions that hash.
pub mod RoundTrip
pub mod Rebuilt
mod Tests
use factom_code.Common.{
  ℕ, zero, suc, ◌%◌, ◌^◌, ◌-◌, Option, none, some, List, [], ◌∷◌, ◌++◌, length, get_elem?,
  replicate,
}
use factom_code.Common.Bytes.{put_uint}
use factom_code.Common.Exec.{Result, ok, panic, and_then, pure, gets, ◌>>=◌, ◌>>◌}
use factom_code.Buffer.{ReadError, Reader, Read, new_reader, update, read_hash, read_uint}
use factom_code.Hash.{Hash, zero_hash, sha, set_bytes_or_keep}
use factom_code.Entry
use factom_code.Entry.{Entry}
use factom_code.Merkle.{build_merkle_tree_store}

pub record EBlockHeader : Type 0 where
  pub chain_id : Hash
  pub body_mr : Hash
  pub prev_key_mr : Hash
  pub prev_ledger_key_mr : Hash
  pub eb_sequence : ℕ
  pub eb_height : ℕ
  pub entry_count : ℕ

-- The body holds its entries' hashes alone.
pub record EBlock : Type 0 where
  pub header : EBlockHeader
  pub eb_entries : List Hash

-- NewEBlockHeader() and NewEBlock()
abbrev pub new_eblock_header : EBlockHeader
new_eblock_header = record {
  chain_id = zero_hash;
  body_mr = zero_hash;
  prev_key_mr = zero_hash;
  prev_ledger_key_mr = zero_hash;
  eb_sequence = 0;
  eb_height = 0;
  entry_count = 0;
}

abbrev pub new_eblock : EBlock
new_eblock = record { header = new_eblock_header; eb_entries = [] }

-- e.AddEBEntry(entry)
abbrev pub add_eb_entry : (List ℕ → List ℕ) → (List ℕ → List ℕ) → EBlock → Entry → EBlock
add_eb_entry sha_256 sha_512 e entry = record e {
  eb_entries = e.eb_entries ++ Entry.hash sha_256 sha_512 entry ∷ [];
}

-- e.AddEndOfMinuteMarker(m)
abbrev pub add_end_of_minute_marker : EBlock → ℕ → EBlock
add_end_of_minute_marker e m = record e {
  eb_entries = e.eb_entries ++ set_bytes_or_keep zero_hash (replicate 31 0 ++ m ∷ []) ∷ [];
}

-- e.marshalBodyBinary()
unfoldable pub marshal_body : List Hash → List ℕ
marshal_body [] = []
marshal_body (h ∷ hs) = h ++ marshal_body hs

-- e.marshalHeaderBinary()
unfoldable pub marshal_header : EBlockHeader → List ℕ
marshal_header h =
    h.chain_id
    ++ (h.body_mr
        ++ (h.prev_key_mr
            ++ (h.prev_ledger_key_mr
                ++ (put_uint 4 h.eb_sequence
                    ++ (put_uint 4 h.eb_height ++ put_uint 4 h.entry_count)))))

-- mrs[len(mrs)-1], which is never nil where there is a hash.
abbrev pub last_of : Option (Option Hash) → Result ReadError Hash
last_of (some (some h)) = ok h
last_of (some none) = panic
last_of none = panic

module _ (sha_256 : List ℕ → List ℕ) where
  -- e.Body.MR()
  abbrev pub mr : List Hash → Result ReadError Hash
  mr hashes =
      and_then (build_merkle_tree_store sha_256 hashes)
        λ mrs. last_of (get_elem? mrs (length mrs - 1))

  -- e.BuildHeader(): the block with its Merkle root and its count set. An empty body panics.
  unfoldable pub build_header : EBlock → Result ReadError EBlock
  build_header e = and_then (mr e.eb_entries) λ root. ok (record e {
    header = record e.header { body_mr = root; entry_count = length e.eb_entries % 2 ^ 32 };
  })

  -- e.MarshalBinary(): the bytes, and the block, whose header it has built.
  unfoldable pub marshal : EBlock → Result ReadError (List ℕ × EBlock)
  unfolding build_header marshal_body marshal_header
  marshal e =
      and_then (build_header e)
        λ e'. ok (marshal_header e'.header ++ marshal_body e'.eb_entries, e')

  -- e.Hash() and e.KeyMR()
  unfoldable pub hash : EBlock → Result ReadError (Hash × EBlock)
  unfolding marshal
  hash e = and_then (marshal e) λ (p, e'). ok (sha sha_256 p, e')

  unfoldable pub key_mr : EBlock → Result ReadError (Hash × EBlock)
  unfolding build_header marshal_header
  key_mr e =
      and_then (build_header e)
        λ e'. ok (sha sha_256 (sha sha_256 (marshal_header e'.header) ++ e'.header.body_mr), e')

  -- MakeEBlock(echain, prev), for the ID and the next height of the chain: the block, and `prev`,
  -- whose header was built.
  unfoldable pub make_eblock : Hash → ℕ → Option EBlock → Result ReadError (EBlock × Option EBlock)
  unfolding hash key_mr
  make_eblock chain_id next_height none = ok (
    record new_eblock {
      header = record new_eblock_header { chain_id = chain_id; eb_sequence = next_height };
    },
    none,
  )
  make_eblock chain_id next_height (some prev) = and_then (key_mr prev) λ (key, prev').
      and_then (hash prev') λ (h, prev''). ok (
        record new_eblock {
          header = record new_eblock_header {
            chain_id = chain_id;
            prev_key_mr = key;
            prev_ledger_key_mr = h;
            eb_sequence = next_height;
          };
        },
        some prev'',
      )

abbrev set_header : (EBlockHeader → EBlockHeader) → Read EBlock Unit
set_header f = update (λ e. record e { header = f e.header })

-- e.unmarshalHeaderBinaryData(data). SetBytes is called on 32 bytes, and its error is not looked at.
unfoldable pub unmarshal_header : Read EBlock (List ℕ)
unmarshal_header = do
  hash ← read_hash
  set_header (λ h. record h { chain_id = set_bytes_or_keep h.chain_id hash })
  hash ← read_hash
  set_header (λ h. record h { body_mr = set_bytes_or_keep h.body_mr hash })
  hash ← read_hash
  set_header (λ h. record h { prev_key_mr = set_bytes_or_keep h.prev_key_mr hash })
  hash ← read_hash
  set_header (λ h. record h { prev_ledger_key_mr = set_bytes_or_keep h.prev_ledger_key_mr hash })
  eb_sequence ← read_uint 4
  set_header (λ h. record h { eb_sequence = eb_sequence })
  eb_height ← read_uint 4
  set_header (λ h. record h { eb_height = eb_height })
  entry_count ← read_uint 4
  set_header (λ h. record h { entry_count = entry_count })
  gets (λ s. s.buf)

-- The loop of e.unmarshalBodyBinaryData, over the hashes still to be read. The slice that is read
-- into keeps the bytes of the last hash where a read is short.
unfoldable pub read_entries : ℕ → Read EBlock Unit
read_entries zero = pure tt
read_entries (suc n) = do
  hash ← read_hash
  update (λ e. record e { eb_entries = e.eb_entries ++ set_bytes_or_keep zero_hash hash ∷ [] })
  read_entries n

-- e.UnmarshalBinaryData(data). Each of the two parts makes a slice `hash` of its own.
unfoldable pub unmarshal_data : Read EBlock (List ℕ)
unfolding unmarshal_header read_entries
unmarshal_data = do
  left ← unmarshal_header
  n ← gets (λ s. s.recv.header.entry_count)
  λ s. (ok tt, record s { hash = replicate 32 0 })
  read_entries n
  gets (λ s. s.buf)

abbrev pub unmarshal : EBlock → List ℕ → Result ReadError (List ℕ) × Reader EBlock
unmarshal e input = unmarshal_data (new_reader e input)
