-- ===== src/EBlock/RoundTrip.antt =====
-- EBlock.UnmarshalBinaryData of what MarshalBinary wrote gives the block back.
use factom_code.Common.{
  ℕ, ◌<◌, ◌%◌, ◌^◌, ◌≡◌, refl, sym, ap, ◌∙◌, arith, List, [], ◌∷◌, ◌++◌, All, length, append_assoc,
  append-nil,
}
use factom_code.Common.Bytes.{put_uint}
use factom_code.Common.Exec.{and_then-eq-ok, Result, ok}
use factom_code.Buffer.{ReadError, Reader}
use factom_code.Buffer.Laws.{read_hash_lem, read_uint_lem}
use factom_code.Hash.{Hash, zero_hash}
use factom_code.Hash.Laws.{set_bytes_lem}
use factom_code.EBlock.{
  EBlock, EBlockHeader, new_eblock, mr, build_header, marshal, marshal_header, marshal_body,
  unmarshal, unmarshal_data, unmarshal_header, read_entries,
}

-- The sizes of the header's hashes and the ranges of its numbers.
pub record IsSized (h : EBlockHeader) : Type 0 where
  pub chain_id : length h.chain_id ≡ 32
  pub body_mr : length h.body_mr ≡ 32
  pub prev_key_mr : length h.prev_key_mr ≡ 32
  pub prev_ledger_key_mr : length h.prev_ledger_key_mr ≡ 32
  pub eb_sequence : h.eb_sequence < 256 ^ 4
  pub eb_height : h.eb_height < 256 ^ 4
  pub entry_count : h.entry_count < 256 ^ 4

abbrev pub IsEntryHash : Hash → Type 0
IsEntryHash h = length h ≡ 32

abbrev at : EBlock → List ℕ → List ℕ → Reader EBlock
at e bytes hash = record { recv = e; buf = bytes; hash = hash }

module _ (r : EBlock) (h : EBlockHeader) (rest hash : List ℕ) (sr : IsSized r.header)
    (sh : IsSized h) (hh : length hash ≡ 32) where
  unmarshal-marshal_header :
      unmarshal_header (at r (marshal_header h ++ rest) hash)
      ≡ (ok rest, at (record r { header = h }) rest h.prev_ledger_key_mr)
  unfolding unmarshal_header marshal_header
  unmarshal-marshal_header = rw (
    append_assoc h.chain_id,
    append_assoc h.body_mr,
    append_assoc h.prev_key_mr,
    append_assoc h.prev_ledger_key_mr,
    append_assoc (put_uint 4 h.eb_sequence),
    append_assoc (put_uint 4 h.eb_height),
    read_hash_lem _ _ sh.chain_id hh,
    set_bytes_lem _ _ sr.chain_id sh.chain_id,
    read_hash_lem _ _ sh.body_mr sh.chain_id,
    set_bytes_lem _ _ sr.body_mr sh.body_mr,
    read_hash_lem _ _ sh.prev_key_mr sh.body_mr,
    set_bytes_lem _ _ sr.prev_key_mr sh.prev_key_mr,
    read_hash_lem _ _ sh.prev_ledger_key_mr sh.prev_key_mr,
    set_bytes_lem _ _ sr.prev_ledger_key_mr sh.prev_ledger_key_mr,
    read_uint_lem 4 h.eb_sequence (omega arith) sh.eb_sequence,
    read_uint_lem 4 h.eb_height (omega arith) sh.eb_height,
    read_uint_lem 4 h.entry_count (omega arith) sh.entry_count,
  )

-- The last of the hashes read, which stays in the slice.
abbrev pub last_hash : List ℕ → List Hash → List ℕ
last_hash hash [] = hash
last_hash hash (h ∷ hs) = last_hash h hs

-- The loop over the hashes of a marshalled body appends them, in order.
read_entries_lem :
    (e : EBlock) (hs : List Hash) (rest hash : List ℕ)
    → All IsEntryHash hs
    → length hash ≡ 32
    → read_entries (length hs) (at e (marshal_body hs ++ rest) hash)
      ≡ (ok tt, at (record e { eb_entries = e.eb_entries ++ hs }) rest (last_hash hash hs))
unfolding read_entries marshal_body
read_entries_lem e [] rest hash w hh = rw append-nil
read_entries_lem e (h ∷ hs) rest hash w hh = rw (
  append_assoc h,
  read_hash_lem _ _ w.0 hh,
  set_bytes_lem _ _ refl w.0,
  read_entries_lem (record e { eb_entries = e.eb_entries ++ h ∷ [] }) hs rest h w.1 w.0,
  append_assoc e.eb_entries,
)

new_header-IsSized : IsSized new_eblock.header
new_header-IsSized = omega arith

unmarshal_parts :
    (e : EBlock) (rest : List ℕ)
    → e.header.entry_count ≡ length e.eb_entries
    → IsSized e.header
    → All IsEntryHash e.eb_entries
    → unmarshal new_eblock ((marshal_header e.header ++ marshal_body e.eb_entries) ++ rest)
      ≡ (ok rest, at e rest (last_hash zero_hash e.eb_entries))
unfolding unmarshal_data
unmarshal_parts e rest count s w =
    let body : EBlock = record { header = e.header; eb_entries = [] } in
    let counted : read_entries e.header.entry_count
          (at body (marshal_body e.eb_entries ++ rest) zero_hash)
        ≡ (ok tt, at e rest (last_hash zero_hash e.eb_entries)) =
      ap (λ (n : ℕ). read_entries n (at body (marshal_body e.eb_entries ++ rest) zero_hash)) count
      ∙ read_entries_lem body e.eb_entries rest zero_hash w refl in
    rw (
      append_assoc (marshal_header e.header),
      unmarshal-marshal_header new_eblock e.header (marshal_body e.eb_entries ++ rest) _
          new_header-IsSized s refl,
      counted,
    )

pair_of_ok :
    {A B : Type 0} {a c : A} {b d : B}
    → ◌≡◌ {A = Result ReadError (A × B)} (ok (a, b)) (ok (c, d))
    → (a ≡ c) × (b ≡ d)
pair_of_ok h = (cc, cc)

ok_block : {a b : EBlock} → ◌≡◌ {A = Result ReadError EBlock} (ok a) (ok b) → a ≡ b
ok_block h = cc

module _ (sha_256 : List ℕ → List ℕ) where
  -- BuildHeader leaves the entries, and counts them.
  build_header_lem :
      (e e' : EBlock)
      → build_header sha_256 e ≡ ok e'
      → (e'.eb_entries ≡ e.eb_entries) × (e'.header.entry_count ≡ length e.eb_entries % 2 ^ 32)
  unfolding build_header
  build_header_lem e e' h =
      let (root, found, k) = and_then-eq-ok (mr sha_256 e.eb_entries) _ h in
      rw (← ok_block k) (refl, refl)

  -- EBlock.UnmarshalBinaryData into a new block, of what MarshalBinary wrote of a block with fewer
  -- than 2 ^ 32 entries and the bytes behind it, leaves the block with the header that MarshalBinary
  -- built, its Merkle root included, and returns the bytes behind it, where all hashes have 32 bytes
  -- and the numbers of the header are in range.
  pub unmarshal-marshal_eblock :
      (e e' : EBlock) (bytes rest : List ℕ)
      → marshal sha_256 e ≡ ok (bytes, e')
      → length e.eb_entries < 2 ^ 32
      → IsSized e'.header
      → All IsEntryHash e'.eb_entries
      → ((unmarshal new_eblock (bytes ++ rest)).0 ≡ ok rest)
        × ((unmarshal new_eblock (bytes ++ rest)).1.recv ≡ e')
  unfolding marshal
  unmarshal-marshal_eblock e e' bytes rest h few s w =
      let (e₁, hb, eq) = and_then-eq-ok (build_header sha_256 e) _ h in
      let (same_bytes, same) = pair_of_ok eq in
      let b : marshal_header e'.header ++ marshal_body e'.eb_entries ≡ bytes =
        rw (← same) same_bytes in
      let (es, n) = build_header_lem e e₁ hb in
      let small : length e.eb_entries % 2 ^ 32 ≡ length e.eb_entries = omega arith in
      let count : e'.header.entry_count ≡ length e'.eb_entries =
        rw (← same) (n ∙ small ∙ sym (ap length es)) in
      rw (← b, unmarshal_parts e' rest count s w) (refl, refl)
