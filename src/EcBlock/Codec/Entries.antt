-- ===== src/EcBlock/Codec/Entries.antt =====
-- The entries in the body of common/ecblock.go, written and read back.
use factom_code.Common.{
  ℕ, ◌≡◌, refl, arith, List, [], ◌∷◌, ◌++◌, All, length, append_assoc, append-nil,
}
use factom_code.Common.Exec.{and_then-eq-ok, Result, ok}
use factom_code.Buffer.{ReadError, Reader}
use factom_code.Buffer.Laws.{read_byte_lem, need_lem, next_lem}
use factom_code.Credit.Numbers.{
  ServerIndexNumber, MinuteNumber, unmarshal_server_index_number_lem, unmarshal_minute_number_lem,
}
use factom_code.Credit.CommitChain.RoundTrip.{
  unmarshal-marshal_alone as unmarshal-marshal_chain, length-marshal as length-marshal_chain,
}
use factom_code.Credit.CommitEntry.RoundTrip.{
  unmarshal-marshal_alone as unmarshal-marshal_entry, length-marshal as length-marshal_entry,
}
use factom_code.Credit.CommitChain
use factom_code.Credit.CommitEntry
use factom_code.Credit.IncreaseBalance
use factom_code.EcBlock.{
  EcBlockEntry, server_index_number, minute_number, chain_commit, entry_commit, balance_increase,
  ec_id, marshal_entry, EcBlock,
}
use factom_code.EcBlock.Codec.{
  marshal_body, read_entry, read_entries, read_server_index_number, read_minute_number,
  read_chain_commit, read_entry_commit, read_balance_increase,
}

unfoldable pub IsWritable : EcBlockEntry → Type 0
IsWritable (server_index_number s) = Unit
IsWritable (minute_number m) = Unit
IsWritable (chain_commit c) = CommitChain.IsSized c
IsWritable (entry_commit c) = CommitEntry.IsSized c
IsWritable (balance_increase b) = IncreaseBalance.IsFull b

new_chain-IsSized : CommitChain.IsSized CommitChain.new_commit_chain
new_chain-IsSized = omega arith

new_entry-IsSized : CommitEntry.IsSized CommitEntry.new_commit_entry
new_entry-IsSized = omega arith

abbrev pub ok_bytes : List ℕ → Result ReadError (List ℕ)
ok_bytes xs = ok xs

ok_injective : {xs ys : List ℕ} → ok_bytes xs ≡ ok_bytes ys → xs ≡ ys
ok_injective h = cc

abbrev pub at : EcBlock → List ℕ → List ℕ → Reader EcBlock
at e bytes hash = record { recv = e; buf = bytes; hash = hash }

abbrev pub with_entry : EcBlock → EcBlockEntry → EcBlock
with_entry e v = record e { entries = e.entries ++ v ∷ [] }

module _ (e : EcBlock) (rest hash : List ℕ) where
  read_server_index_number_lem :
      (s : ServerIndexNumber)
      → read_server_index_number (at e (s.number ∷ rest) hash)
        ≡ (ok tt, at (with_entry e (server_index_number s)) rest hash)
  unfolding read_server_index_number
  read_server_index_number_lem s = rw (
    need_lem (s.number ∷ []) rest refl,
    next_lem (s.number ∷ []) refl,
    unmarshal_server_index_number_lem _,
  )

  read_minute_number_lem :
      (m : MinuteNumber)
      → read_minute_number (at e (m.number ∷ rest) hash)
        ≡ (ok tt, at (with_entry e (minute_number m)) rest hash)
  unfolding read_minute_number
  read_minute_number_lem m = rw (
    need_lem (m.number ∷ []) rest refl,
    next_lem (m.number ∷ []) refl,
    unmarshal_minute_number_lem _,
  )

  read_chain_commit_lem :
      (c : CommitChain.CommitChain)
      → CommitChain.IsSized c
      → read_chain_commit (at e (CommitChain.marshal c ++ rest) hash)
        ≡ (ok tt, at (with_entry e (chain_commit c)) rest hash)
  unfolding read_chain_commit
  read_chain_commit_lem c s = rw (
    need_lem _ rest (length-marshal_chain c s),
    next_lem _ (length-marshal_chain c s),
    unmarshal-marshal_chain _ c new_chain-IsSized s,
  )

  read_entry_commit_lem :
      (c : CommitEntry.CommitEntry)
      → CommitEntry.IsSized c
      → read_entry_commit (at e (CommitEntry.marshal c ++ rest) hash)
        ≡ (ok tt, at (with_entry e (entry_commit c)) rest hash)
  unfolding read_entry_commit
  read_entry_commit_lem c s = rw (
    need_lem _ rest (length-marshal_entry c s),
    next_lem _ (length-marshal_entry c s),
    unmarshal-marshal_entry _ c new_entry-IsSized s,
  )

  read_balance_increase_lem :
      (b : IncreaseBalance.IncreaseBalance) (bytes : List ℕ)
      → IncreaseBalance.IsFull b
      → IncreaseBalance.marshal b ≡ ok bytes
      → read_balance_increase (at e (bytes ++ rest) hash)
        ≡ (ok tt, at (with_entry e (balance_increase b)) rest hash)
  unfolding read_balance_increase
  read_balance_increase_lem b bytes f h = rw (IncreaseBalance.unmarshal_lem b bytes rest f h)

read_entry_lem :
    (e : EcBlock) (v : EcBlockEntry) (bytes rest hash : List ℕ)
    → IsWritable v
    → marshal_entry v ≡ ok bytes
    → read_entry (ec_id v) (at e (bytes ++ rest) hash) ≡ (ok tt, at (with_entry e v) rest hash)
unfolding read_entry IsWritable
read_entry_lem e (server_index_number s) bytes rest hash w h =
    rw (← ok_injective h) (read_server_index_number_lem e rest hash s)
read_entry_lem e (minute_number m) bytes rest hash w h =
    rw (← ok_injective h) (read_minute_number_lem e rest hash m)
read_entry_lem e (chain_commit c) bytes rest hash w h =
    rw (← ok_injective h) (read_chain_commit_lem e rest hash c w)
read_entry_lem e (entry_commit c) bytes rest hash w h =
    rw (← ok_injective h) (read_entry_commit_lem e rest hash c w)
read_entry_lem e (balance_increase b) bytes rest hash w h =
    read_balance_increase_lem e rest hash b bytes w h

-- The loop over the objects of a marshalled body appends them, in order.
pub read_entries_lem :
    (e : EcBlock) (vs : List EcBlockEntry) (bytes rest hash : List ℕ)
    → All IsWritable vs
    → marshal_body vs ≡ ok bytes
    → read_entries (length vs) (at e (bytes ++ rest) hash)
      ≡ (ok tt, at (record e { entries = e.entries ++ vs }) rest hash)
unfolding read_entries marshal_body
read_entries_lem e [] bytes rest hash w h = rw (← ok_injective h, append-nil)
read_entries_lem e (v ∷ vs) bytes rest hash w h =
    let (p, hp, k) = and_then-eq-ok (marshal_entry v) _ h in
    let (q, hq, eq) = and_then-eq-ok (marshal_body vs) _ k in
    rw (
      ← ok_injective eq,
      append_assoc p,
      read_byte_lem,
      read_entry_lem e v p (q ++ rest) hash w.0 hp,
      read_entries_lem (with_entry e v) vs q rest hash w.1 hq,
      append_assoc e.entries,
    )
