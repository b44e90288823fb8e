-- ===== src/Credit/Tests.antt =====
-- Runs on the objects that pay for entries.
use factom_code.Common.{◌≡◌, arith, [], ◌∷◌, ◌++◌, replicate}
use factom_code.Common.Exec.{ok}
use factom_code.Credit.CommitEntry
use factom_code.Credit.CommitEntry.{CommitEntry, new_commit_entry}
use factom_code.Credit.CommitEntry.RoundTrip.{unmarshal-marshal_commit_entry}
use factom_code.Credit.CommitChain
use factom_code.Credit.CommitChain.{CommitChain, new_commit_chain}
use factom_code.Credit.CommitEntry.Signed.{is_valid_entry_lem, signed as entry_signed}
use factom_code.Credit.CommitChain.Signed.{is_valid_chain_lem, signed as chain_signed}
use factom_code.Common.{ℕ, List, ◌≤◌, ◌↔◌, Bool, true}
use factom_code.Common.Map.{bytes_eq}
use factom_code.Credit.CommitChain.RoundTrip.{unmarshal-marshal_commit_chain}

abbrev entry_commit : CommitEntry
entry_commit = record new_commit_entry {
  credits = 3;
  entry_hash = replicate 32 8;
  sig = replicate 64 9;
}

unmarshal-marshal_commit_entry_example :
    CommitEntry.unmarshal new_commit_entry (CommitEntry.marshal entry_commit ++ 1 ∷ [])
    ≡ (ok (1 ∷ []), record { recv = entry_commit; buf = 1 ∷ []; hash = replicate 32 8 })
unmarshal-marshal_commit_entry_example =
    unmarshal-marshal_commit_entry new_commit_entry entry_commit (1 ∷ []) (omega arith)
      (omega arith)

abbrev chain_commit : CommitChain
chain_commit = record new_commit_chain {
  credits = 11;
  weld = replicate 32 7;
  entry_hash = replicate 32 8;
}

unmarshal-marshal_commit_chain_example :
    CommitChain.unmarshal new_commit_chain (CommitChain.marshal chain_commit ++ 1 ∷ [])
    ≡ (ok (1 ∷ []), record { recv = chain_commit; buf = 1 ∷ []; hash = replicate 32 8 })
unmarshal-marshal_commit_chain_example =
    unmarshal-marshal_commit_chain new_commit_chain chain_commit (1 ∷ []) (omega arith)
      (omega arith)

-- A check in the place of ed25519's, which takes every key.
abbrev verify : List ℕ → List ℕ → List ℕ → Bool
verify key message sig = bytes_eq key key

is_valid_entry_lem_example : (CommitEntry.is_valid verify entry_commit ≡ true) ↔ (
    (1 ≤ entry_commit.credits)
    × (entry_commit.version ≡ 0)
    × (verify entry_commit.ec_pub_key (entry_signed entry_commit) entry_commit.sig ≡ true))
is_valid_entry_lem_example = is_valid_entry_lem verify entry_commit (omega arith)

is_valid_chain_lem_example : (CommitChain.is_valid verify chain_commit ≡ true) ↔ (
    (1 ≤ chain_commit.credits)
    × (chain_commit.version ≡ 0)
    × (verify chain_commit.ec_pub_key (chain_signed chain_commit) chain_commit.sig ≡ true))
is_valid_chain_lem_example = is_valid_chain_lem verify chain_commit (omega arith)
