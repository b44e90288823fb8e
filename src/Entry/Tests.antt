-- ===== src/Entry/Tests.antt =====
-- Runs on entries of common/entry.go.
use factom_code.Common.{
  ℕ, ◌+◌, ◌*◌, ◌-◌, ◌<◌, ◌≤◌, ◌≡◌, ◌⊎◌, arith, none, some, List, [], ◌∷◌, replicate, length,
}
use factom_code.Common.Exec.{ok, err}
use factom_code.Common.{◌++◌, ◌≢◌}
use factom_code.Buffer.{out_of_fuel}
use factom_code.Entry.Fuel.{unmarshal_entry_ends}
use factom_code.Common.Bytes.{put_uint}
use factom_code.Entry.{Entry, new_entry, marshal, marshal_ext_ids, unmarshal}
use factom_code.Entry.RoundTrip.{IsSmall, unmarshal-marshal_entry}
use factom_code.Entry.Cost.{entry_cost, entry_cost_lem}

abbrev note : Entry
note = record {
  version = 0;
  chain_id = replicate 32 4;
  ext_ids = (1 ∷ 2 ∷ 3 ∷ []) ∷ [] ∷ [];
  content = 10 ∷ 11 ∷ [];
}

note-IsSmall : IsSmall note
unfolding marshal_ext_ids put_uint
note-IsSmall = omega arith

unmarshal-marshal_entry_example :
    ((unmarshal new_entry (marshal note)).0 ≡ ok [])
    × ((unmarshal new_entry (marshal note)).1.recv ≡ note)
unmarshal-marshal_entry_example = unmarshal-marshal_entry note note-IsSmall

abbrev kib_and_1 : List ℕ
kib_and_1 = replicate 1060 0

entry_cost_lem_example :
    (10240 + 35 < length kib_and_1) × (entry_cost kib_and_1 ≡ none)
    ⊎ ((c : ℕ) × (entry_cost kib_and_1 ≡ some c)
        × (1 ≤ c)
        × (c ≤ 10)
        × (length kib_and_1 ≤ 35 + 1024 * c)
        × ((c ≡ 1) ⊎ (35 + 1024 * (c - 1) < length kib_and_1)))
entry_cost_lem_example = entry_cost_lem kib_and_1

-- External IDs that are said to take 9 bytes, of which there are none.
abbrev cut_off : List ℕ
cut_off = replicate 33 0 ++ 0 ∷ 9 ∷ []

unmarshal_entry_ends_example : (unmarshal new_entry cut_off).0 ≢ err out_of_fuel
unmarshal_entry_ends_example = unmarshal_entry_ends new_entry cut_off
