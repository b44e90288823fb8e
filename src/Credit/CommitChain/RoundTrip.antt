-- ===== src/Credit/CommitChain/RoundTrip.antt =====
-- CommitChain.UnmarshalBinaryData reads back what MarshalBinary writes.
use factom_code.Common.{
  [], arith, append-nil, length-append, ℕ, ◌≡◌, refl, List, ◌++◌, length, copy_sized, append_assoc,
}
use factom_code.Common.Exec.{ok}
use factom_code.Buffer.Laws.{read_byte_lem, need_lem, next_lem, read_hash_lem}
use factom_code.Hash.Laws.{set_bytes_lem}
use factom_code.Credit.CommitChain.{CommitChain, IsSized, marshal, unmarshal_data, unmarshal}

module _ (r c : CommitChain) (rest hash : List ℕ) (sr : IsSized r) (sc : IsSized c)
    (hh : length hash ≡ 32) where
  unmarshal-marshal_at :
      unmarshal_data (record { recv = r; buf = marshal c ++ rest; hash = hash })
      ≡ (ok rest, record { recv = c; buf = rest; hash = c.entry_hash })
  unfolding unmarshal_data marshal
  unmarshal-marshal_at = rw (
    append_assoc c.milli_time,
    append_assoc c.chain_id_hash,
    append_assoc c.weld,
    append_assoc c.entry_hash,
    append_assoc c.ec_pub_key,
    read_byte_lem,
    need_lem _ _ sc.milli_time,
    next_lem _ sc.milli_time,
    copy_sized _ _ sc.milli_time sr.milli_time,
    read_hash_lem _ _ sc.chain_id_hash hh,
    set_bytes_lem _ _ sr.chain_id_hash sc.chain_id_hash,
    read_hash_lem _ _ sc.weld sc.chain_id_hash,
    set_bytes_lem _ _ sr.weld sc.weld,
    read_hash_lem _ _ sc.entry_hash sc.weld,
    set_bytes_lem _ _ sr.entry_hash sc.entry_hash,
    read_byte_lem,
    need_lem _ _ sc.ec_pub_key,
    next_lem _ sc.ec_pub_key,
    copy_sized _ _ sc.ec_pub_key sr.ec_pub_key,
    need_lem _ _ sc.sig,
    next_lem _ sc.sig,
    copy_sized _ _ sc.sig sr.sig,
  )

-- On an object made by NewCommitChain, or by any other whose arrays are sized, UnmarshalBinary of what
-- MarshalBinary wrote of a commit with sized arrays and byte fields leaves the commit that was
-- written, and the bytes behind it.
pub unmarshal-marshal_commit_chain :
    (r c : CommitChain) (rest : List ℕ)
    → IsSized r
    → IsSized c
    → unmarshal r (marshal c ++ rest)
      ≡ (ok rest, record { recv = c; buf = rest; hash = c.entry_hash })
unfolding unmarshal
unmarshal-marshal_commit_chain r c rest sr sc = rw (unmarshal-marshal_at r c rest _ sr sc refl)

pub length-marshal : (c : CommitChain) → IsSized c → length (marshal c) ≡ 200
unfolding marshal
length-marshal c s = simp length-append (omega arith)

-- The same with nothing behind it, as the block's Unmarshal calls it.
pub unmarshal-marshal_alone :
    (r c : CommitChain)
    → IsSized r
    → IsSized c
    → unmarshal r (marshal c) ≡ (ok [], record { recv = c; buf = []; hash = c.entry_hash })
unmarshal-marshal_alone r c sr sc = rw append-nil at (unmarshal-marshal_commit_chain r c [] sr sc)
