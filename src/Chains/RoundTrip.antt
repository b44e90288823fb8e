-- ===== src/Chains/RoundTrip.antt =====
-- EChain.UnmarshalBinaryData of what MarshalBinary wrote gives the chain back.
use factom_code.Common.{ap, ◌≡◌, refl, [], length}
use factom_code.Common.Exec.{ok}
use factom_code.Buffer.Laws.{read_hash_lem}
use factom_code.Hash.Laws.{set_bytes_lem}
use factom_code.Entry.{Entry}
use factom_code.Entry.RoundTrip.{IsSmall, unmarshal-marshal_entry}
use factom_code.Chains.{EChain, new_echain, marshal_echain, unmarshal_echain, unmarshal_echain_data}

-- On a new chain, EChain.UnmarshalBinaryData of what MarshalBinary wrote leaves the chain that was
-- written, where its ID has 32 bytes and its first entry is small.
pub unmarshal-marshal_echain :
    (c : EChain)
    → length c.chain_id ≡ 32
    → IsSmall c.first_entry
    → ((unmarshal_echain new_echain (marshal_echain c)).0 ≡ ok [])
      × ((unmarshal_echain new_echain (marshal_echain c)).1.recv ≡ c)
unfolding unmarshal_echain_data marshal_echain
unmarshal-marshal_echain c id small =
    let (read, same) = unmarshal-marshal_entry c.first_entry small in
    rw (read_hash_lem c.chain_id _ id refl, set_bytes_lem _ _ refl id)
      (read, ap (λ (e : Entry). record { chain_id = c.chain_id; first_entry = e }) same)
