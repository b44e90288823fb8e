-- ===== src/EcBlock/Codec.antt =====
-- The Marshal and Unmarshal methods of common/ecblock.go.
pub mod Header
pub mod Entries
pub mod RoundTrip
mod Tests
use factom_code.Common.{
  ℕ, zero, suc, ◌+◌, ◌-◌, ◌*◌, ◌≤◌, ◌<◌, ◌^◌, ◌%◌, ◌≡◌, Bool, true, false, Option, none, some, List,
  [], ◌∷◌, ◌++◌, All, length, take, drop, replicate, copy, ltb, leb, ◌==◌, if◌then◌else◌,
}
use factom_code.Common.Bytes.{put_uint}
use factom_code.Common.Exec.{
  Result, ok, err, panic, Exec, pure, raise, panics, lift, gets, ◌>>=◌, ◌>>◌,
}
use factom_code.Buffer.{
  ReadError, eof, unsupported_ecid, Reader, Read, new_reader, update, read_byte, need, next,
  read_hash, read_uint,
}
use factom_code.Hash.{Hash, zero_hash, sha, set_bytes_or_keep}
use factom_code.VarInt.{encode_var_int, decode_var_int}
use factom_code.Credit.Numbers.{
  MinuteNumber, ServerIndexNumber, minute_number_size, server_index_number_size,
  marshal_minute_number, marshal_server_index_number, unmarshal_minute_number,
  unmarshal_server_index_number,
}
use factom_code.Credit.IncreaseBalance
use factom_code.Credit.IncreaseBalance.{IncreaseBalance, new_increase_balance}
use factom_code.Credit.CommitEntry
use factom_code.Credit.CommitEntry.{CommitEntry, new_commit_entry, commit_entry_size}
use factom_code.Credit.CommitChain
use factom_code.Credit.CommitChain.{CommitChain, new_commit_chain, commit_chain_size}
use factom_code.Common.Exec.{and_then, result_of}
use factom_code.Buffer.{make_slice, read_slice}
use factom_code.EcBlock.{
  new_ec_block, new_ec_block_header, EcBlockEntry, server_index_number, minute_number, chain_commit,
  entry_commit, balance_increase, ec_id_server_index_number, ec_id_minute_number,
  ec_id_chain_commit, ec_id_entry_commit, ec_id_balance_increase, ec_id, marshal_entry,
  EcBlockHeader, EcBlock,
}

-- e.marshalBodyBinary(): for each entry its ECID and its bytes.
unfoldable pub marshal_body : List EcBlockEntry → Result ReadError (List ℕ)
marshal_body [] = ok []
marshal_body (v ∷ rest) =
    and_then (marshal_entry v) λ p. and_then (marshal_body rest) λ q. ok (ec_id v ∷ (p ++ q))

-- e.marshalHeaderBinary()
pub marshal_header : EcBlockHeader → List ℕ
marshal_header h =
    h.ec_chain_id
    ++ (h.body_hash
        ++ (h.prev_header_hash
            ++ (h.prev_ledger_key_mr
                ++ (put_uint 4 h.eb_height
                    ++ (encode_var_int (length h.header_expansion_area)
                        ++ (h.header_expansion_area
                            ++ (put_uint 8 h.object_count ++ put_uint 8 h.body_size)))))))

module _ (sha_256 : List ℕ → List ℕ) where
  -- e.BuildHeader(): the block with the header's body hash, object count and body size set.
  unfoldable pub build_header : EcBlock → Result ReadError EcBlock
  build_header e = and_then (marshal_body e.entries) λ p. ok (record e {
    header = record e.header {
      body_hash = sha sha_256 p;
      object_count = length e.entries;
      body_size = length p;
    };
  })

  -- e.MarshalBinary(): the bytes, and the block, whose header it has built.
  unfoldable pub marshal : EcBlock → Result ReadError (List ℕ × EcBlock)
  marshal e =
      and_then (build_header e)
        λ e'. and_then (marshal_body e'.entries) λ p. ok (marshal_header e'.header ++ p, e')

  -- e.Hash() and e.HeaderHash()
  abbrev pub hash : EcBlock → Result ReadError (Hash × EcBlock)
  hash e = and_then (marshal e) λ (p, e'). ok (sha sha_256 p, e')

  abbrev pub header_hash : EcBlock → Hash
  header_hash e = sha sha_256 (marshal_header e.header)

  -- NextECBlock(prev): the next block, and `prev`, whose header its Hash has built.
  abbrev pub next_ec_block : EcBlock → Result ReadError (EcBlock × EcBlock)
  next_ec_block prev = and_then (hash prev) λ (h, prev'). ok (
    record new_ec_block {
      header = record new_ec_block_header {
        prev_header_hash = header_hash prev;
        prev_ledger_key_mr = h;
        eb_height = (prev.header.eb_height + 1) % 2 ^ 32;
      };
    },
    prev',
  )

abbrev set_header : (EcBlockHeader → EcBlockHeader) → Read EcBlock Unit
set_header f = update (λ e. record e { header = f e.header })

-- e.unmarshalHeaderBinaryData(data). SetBytes is called on 32 bytes, and its error is not looked at.
pub unmarshal_header : Read EcBlock (List ℕ)
unmarshal_header = do
  hash ← read_hash
  set_header (λ h. record h { ec_chain_id = set_bytes_or_keep h.ec_chain_id hash })
  hash ← read_hash
  set_header (λ h. record h { body_hash = set_bytes_or_keep h.body_hash hash })
  hash ← read_hash
  set_header (λ h. record h { prev_header_hash = set_bytes_or_keep h.prev_header_hash hash })
  hash ← read_hash
  set_header (λ h. record h { prev_ledger_key_mr = set_bytes_or_keep h.prev_ledger_key_mr hash })
  eb_height ← read_uint 4
  set_header (λ h. record h { eb_height = eb_height })
  (he_size, tmp) ← λ s. lift (decode_var_int s.buf) s
  λ s. (ok tt, record s { buf = tmp })
  area ← make_slice he_size
  set_header (λ h. record h { header_expansion_area = area })
  (n, area) ← read_slice area
  set_header (λ h. record h { header_expansion_area = area })
  object_count ← read_uint 8
  set_header (λ h. record h { object_count = object_count })
  body_size ← read_uint 8
  set_header (λ h. record h { body_size = body_size })
  gets (λ s. s.buf)

-- e.Body.Entries = append(e.Body.Entries, entry)
abbrev append_entry : EcBlockEntry → Read EcBlock Unit
append_entry entry = update (λ e. record e { entries = e.entries ++ entry ∷ [] })

-- The cases of the switch in e.unmarshalBodyBinaryData. A nested Unmarshal has a buffer of its own.
read_server_index_number : Read EcBlock Unit
read_server_index_number = do
  need server_index_number_size
  p ← next server_index_number_size
  (left, s) ←
      lift (result_of (unmarshal_server_index_number (new_reader (record { number = 0 }) p)))
  append_entry (server_index_number s.recv)

read_minute_number : Read EcBlock Unit
read_minute_number = do
  need minute_number_size
  p ← next minute_number_size
  (left, m) ← lift (result_of (unmarshal_minute_number (new_reader (record { number = 0 }) p)))
  append_entry (minute_number m.recv)

read_chain_commit : Read EcBlock Unit
read_chain_commit = do
  need commit_chain_size
  p ← next commit_chain_size
  (left, c) ← lift (result_of (CommitChain.unmarshal new_commit_chain p))
  append_entry (chain_commit c.recv)

read_entry_commit : Read EcBlock Unit
read_entry_commit = do
  need commit_entry_size
  p ← next commit_entry_size
  (left, c) ← lift (result_of (CommitEntry.unmarshal new_commit_entry p))
  append_entry (entry_commit c.recv)

read_balance_increase : Read EcBlock Unit
read_balance_increase = do
  (tmp, c) ← λ s. lift (result_of (IncreaseBalance.unmarshal new_increase_balance s.buf)) s
  append_entry (balance_increase c.recv)
  λ s. (ok tt, record s { buf = tmp })

pub read_entry : ℕ → Read EcBlock Unit
read_entry id =
    if id == ec_id_server_index_number
    then read_server_index_number
    else if id == ec_id_minute_number
    then read_minute_number
    else if id == ec_id_chain_commit
    then read_chain_commit
    else if id == ec_id_entry_commit
    then read_entry_commit
    else if id == ec_id_balance_increase
    then read_balance_increase
    else raise (unsupported_ecid id)

-- The loop of e.unmarshalBodyBinaryData, over the objects still to be read.
pub read_entries : ℕ → Read EcBlock Unit
read_entries zero = pure tt
read_entries (suc n) = do id ← read_byte; read_entry id; read_entries n

-- e.UnmarshalBinaryData(data)
pub unmarshal_data : Read EcBlock (List ℕ)
unmarshal_data = do
  new_data ← unmarshal_header
  n ← gets (λ s. s.recv.header.object_count)
  read_entries n
  gets (λ s. s.buf)

pub unmarshal : EcBlock → List ℕ → Result ReadError (List ℕ) × Reader EcBlock
unmarshal e input = unmarshal_data (new_reader e input)
