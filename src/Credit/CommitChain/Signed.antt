-- ===== src/Credit/CommitChain/Signed.antt =====
-- common/commitchain.go: what IsValid asks of a commit for a chain.
use factom_code.Common.{
  ℕ, ◌-◌, ◌≤◌, ◌≡◌, ◌↔◌, ap, ◌∙◌, arith, Bool, true, List, [], ◌∷◌, ◌++◌, length, take,
  length-append, take-append, append_assoc,
}
use factom_code.Credit.CommitChain.{CommitChain, IsSized, marshal, commit_msg, is_valid}
use factom_code.Credit.CommitChain.RoundTrip.{length-marshal}

-- The bytes that the key signs.
abbrev pub signed : CommitChain → List ℕ
signed c =
    c.version ∷ (c.milli_time ++ (c.chain_id_hash ++ (c.weld ++ (c.entry_hash ++ c.credits ∷ []))))

marshal_parts : (c : CommitChain) → marshal c ≡ signed c ++ (c.ec_pub_key ++ c.sig)
unfolding marshal
marshal_parts c = rw (
  append_assoc c.milli_time,
  append_assoc c.chain_id_hash,
  append_assoc c.weld,
  append_assoc c.entry_hash,
)

length-signed : (c : CommitChain) → IsSized c → length (signed c) ≡ 104
length-signed c s = omega (
  arith,
  length-append c.milli_time (c.chain_id_hash ++ (c.weld ++ (c.entry_hash ++ c.credits ∷ []))),
  length-append c.chain_id_hash (c.weld ++ (c.entry_hash ++ c.credits ∷ [])),
  length-append c.weld (c.entry_hash ++ c.credits ∷ []),
  length-append c.entry_hash (c.credits ∷ []),
  s.milli_time,
  s.entry_hash,
  s.chain_id_hash,
  s.weld,
)

commit_msg_lem : (c : CommitChain) → IsSized c → commit_msg c ≡ signed c
commit_msg_lem c s =
    ap (λ (n : ℕ). take n (marshal c)) front
    ∙ rw (marshal_parts c) (take-append (signed c) (c.ec_pub_key ++ c.sig) 104 (length-signed c s))
  where
    front : length (marshal c) - 64 - 32 ≡ 104
    front = omega (arith, length-marshal c s)

-- Of the commits with sized arrays and byte fields, IsValid holds exactly of those of version 0 with
-- a credit at least, whose signature is the
-- key's on the marshalled commit up to its credits.
pub is_valid_chain_lem :
    (verify : List ℕ → List ℕ → List ℕ → Bool) (c : CommitChain)
    → IsSized c
    → (is_valid verify c ≡ true)
      ↔ ((1 ≤ c.credits) × (c.version ≡ 0) × (verify c.ec_pub_key (signed c) c.sig ≡ true))
unfolding is_valid
is_valid_chain_lem verify c s = rw (commit_msg_lem c s) (ground arith, ground arith)
