-- ===== src/AdminBlock/Tests.antt =====
-- Runs on an admin block of common/adminBlock.go.
use factom_code.Common.{ℕ, ◌≡◌, refl, arith, [], ◌∷◌, ◌++◌, All, replicate}
use factom_code.Common.Exec.{ok, and_then}
use factom_code.Buffer.{ReadError}
use factom_code.Hash.{Hash}
use factom_code.AdminBlock.{
  AdminBlock, created, add_ab_entry, add_end_of_minute_marker, db_signature, new_db_signature_entry,
  marshal,
}
use factom_code.AdminBlock.Codec.{unmarshal}
use factom_code.AdminBlock.Codec.RoundTrip.{IsTyped, unmarshal-marshal_admin_block}

abbrev hash : ℕ → Hash
hash n = replicate 32 n

abbrev signed : AdminBlock
signed =
    add_ab_entry (created (hash 10) 4 (hash 3))
      (db_signature (new_db_signature_entry (hash 0) (hash 6) (replicate 64 7)))

abbrev block : AdminBlock
block =
    let b = add_end_of_minute_marker signed 1 in
    record b { header = record b.header { message_count = 2; body_size = 131 } }

typed : All IsTyped block.ab_entries
unfolding IsTyped
typed = ((refl, refl, refl, refl), (refl, tt))

unmarshal-marshal_admin_block_example :
    and_then (marshal {E = ReadError} block) (λ p. unmarshal signed (p ++ 5 ∷ []))
    ≡ ok (record signed { header = block.header; ab_entries = block.ab_entries }, 5 ∷ [])
unmarshal-marshal_admin_block_example =
    unmarshal-marshal_admin_block signed block (5 ∷ [])
      (record {
        admin_chain_id = refl;
        prev_ledger_key_mr = refl;
        db_height = omega arith;
        header_expansion_size = omega arith;
        header_expansion_area = refl;
        message_count = omega arith;
        body_size = omega arith;
      })
      typed refl
