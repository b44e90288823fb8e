-- ===== src/AdminBlock/Sizes.antt =====
-- The MarshalledSize of common/adminBlock.go.
use factom_code.Common.{
  ℕ, ◌+◌, ◌%◌, ◌^◌, ◌≡◌, refl, sym, ◌∙◌, arith, List, [], ◌∷◌, All, length, length-append,
}
use factom_code.Common.Bytes.{length-put_uint}
use factom_code.Buffer.{ReadError}
use factom_code.Common.Exec.{ok, and_then}
use factom_code.VarInt.{var_int_length}
use factom_code.Slice.Laws.{written}
use factom_code.AdminBlock.{
  AbEntry, db_signature, end_of_minute, ABlockHeader, AdminBlock, marshal_entry, marshal_header,
  marshal, marshalled_header_size, marshalled_entry_size, add_sizes, marshalled_size,
}
use factom_code.AdminBlock.Codec.RoundTrip.{IsSized, IsTyped, marshal_entries-all}

length-marshal_entry :
    (v : AbEntry) → IsTyped v → length (marshal_entry v) ≡ marshalled_entry_size v
unfolding marshal_entry IsTyped
length-marshal_entry (db_signature e) (t, id, key, sig) =
    simp length-append (omega (arith, id, key, sig))
length-marshal_entry (end_of_minute m) t = refl

length-marshal_header :
    (h : ABlockHeader) → IsSized h → length (marshal_header h) % 2 ^ 64 ≡ marshalled_header_size h
unfolding marshal_header marshalled_header_size var_int_length
length-marshal_header h s =
    simp (length-append, length-put_uint)
      (omega (arith, s.admin_chain_id, s.prev_ledger_key_mr, s.header_expansion_area))

add_sizes-written :
    (size total : ℕ) (vs : List AbEntry)
    → All IsTyped vs
    → size ≡ total % 2 ^ 64
    → add_sizes size vs ≡ (total + length (written marshal_entry vs)) % 2 ^ 64
unfolding add_sizes written
add_sizes-written size total [] s h = omega arith
add_sizes-written size total (v ∷ vs) s h =
    add_sizes-written ((size + marshalled_entry_size v) % 2 ^ 64) (total + length (marshal_entry v))
      vs s.1 (omega (arith, length-marshal_entry v s.0))
    ∙ omega (arith, length-append (marshal_entry v) (written marshal_entry vs))

pub marshalled_size_lem :
    (b : AdminBlock)
    → IsSized b.header
    → All IsTyped b.ab_entries
    → b.header.message_count ≡ length b.ab_entries
    → and_then (marshal {E = ReadError} b) (λ p. ok (length p % 2 ^ 64)) ≡ ok (marshalled_size b)
unfolding marshal marshalled_size
marshalled_size_lem b s typed n = rw (
  marshal_entries-all {E = ReadError} b.header.message_count b.ab_entries n,
  length-append (marshal_header b.header),
  add_sizes-written _ (length (marshal_header b.header)) b.ab_entries typed
      (sym (length-marshal_header b.header s)),
)
