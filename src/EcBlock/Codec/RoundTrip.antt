-- ===== src/EcBlock/Codec/RoundTrip.antt =====
-- UnmarshalBinaryData of what MarshalBinary wrote gives the block back.
use factom_code.Common.{ℕ, ◌≡◌, refl, ap, ◌∙◌, arith, List, [], ◌++◌, All, length, append_assoc}
use factom_code.Common.Exec.{and_then-eq-ok, Result, ok}
use factom_code.Buffer.{ReadError}
use factom_code.EcBlock.{EcBlock, new_ec_block}
use factom_code.EcBlock.Codec.{
  build_header, marshal, unmarshal, unmarshal_data, marshal_body, marshal_header, read_entries,
}
use factom_code.EcBlock.Codec.Header.{IsSized, unmarshal-marshal_header}
use factom_code.EcBlock.Codec.Entries.{IsWritable, at, read_entries_lem}

new_header-IsSized : IsSized new_ec_block.header
new_header-IsSized = omega arith

-- A header that counts the entries of the body behind it.
unmarshal_parts :
    (e : EcBlock) (p rest : List ℕ)
    → marshal_body e.entries ≡ ok p
    → e.header.object_count ≡ length e.entries
    → IsSized e.header
    → All IsWritable e.entries
    → unmarshal new_ec_block ((marshal_header e.header ++ p) ++ rest)
      ≡ (ok rest, record { recv = e; buf = rest; hash = e.header.prev_ledger_key_mr })
unfolding unmarshal unmarshal_data
unmarshal_parts e p rest hp count s w =
    let body : EcBlock = record { header = e.header; entries = [] } in
    let counted : read_entries e.header.object_count
          (at body (p ++ rest) e.header.prev_ledger_key_mr)
        ≡ (ok tt, at e rest e.header.prev_ledger_key_mr) =
      ap (λ (n : ℕ). read_entries n (at body (p ++ rest) e.header.prev_ledger_key_mr)) count
      ∙ read_entries_lem body e.entries p rest _ w hp in
    rw (
      append_assoc (marshal_header e.header),
      unmarshal-marshal_header new_ec_block e.header (p ++ rest) _ new_header-IsSized s refl,
      counted,
    )

pair_of_ok :
    {A B : Type 0} {a c : A} {b d : B}
    → ◌≡◌ {A = Result ReadError (A × B)} (ok (a, b)) (ok (c, d))
    → (a ≡ c) × (b ≡ d)
pair_of_ok h = (cc, cc)

module _ (sha_256 : List ℕ → List ℕ) where
  -- BuildHeader leaves the entries, and counts them and the bytes of the body.
  pub build_header_lem :
      (e e' : EcBlock)
      → build_header sha_256 e ≡ ok e'
      → (e'.entries ≡ e.entries) × (e'.header.object_count ≡ length e.entries)
  unfolding build_header
  build_header_lem e e' h = ground arith

  -- UnmarshalBinaryData into a new block, of what MarshalBinary wrote and the bytes behind it, leaves
  -- the block with the header that MarshalBinary built, and returns the bytes behind it, where the
  -- header's hashes have 32 bytes, its numbers are in range and the entries have the sizes and
  -- numbers of their fields.
  pub unmarshal-marshal_ec_block :
      (e e' : EcBlock) (bytes rest : List ℕ)
      → marshal sha_256 e ≡ ok (bytes, e')
      → IsSized e'.header
      → All IsWritable e'.entries
      → unmarshal new_ec_block (bytes ++ rest)
        ≡ (ok rest, record { recv = e'; buf = rest; hash = e'.header.prev_ledger_key_mr })
  unfolding marshal
  unmarshal-marshal_ec_block e e' bytes rest h s w =
      let (e₁, hb, k) = and_then-eq-ok (build_header sha_256 e) _ h in
      let (p, hp, eq) = and_then-eq-ok (marshal_body e₁.entries) _ k in
      let (same_bytes, same) = pair_of_ok eq in
      let b : marshal_header e'.header ++ p ≡ bytes = rw (← same) same_bytes in
      let q : marshal_body e'.entries ≡ ok p = rw (← same) hp in
      let (es, n) = build_header_lem e e₁ hb in
      let count : e'.header.object_count ≡ length e'.entries = rw (← same) (rw es n) in
      rw (← b) (unmarshal_parts e' p rest q count s w)
