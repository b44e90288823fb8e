-- ===== src/Credit/IncreaseBalance.antt =====
-- common/increasebalance.go: entry credits that a factoid transaction bought. The two pointers may
-- be nil: NewIncreaseBalance leaves ECPubKey so.
mod Tests
use factom_code.Common.{
  ℕ, ◌<◌, ◌^◌, ◌≡◌, refl, Option, none, some, List, ◌++◌, length, replicate, copy, copy_sized,
  append_assoc,
}
use factom_code.Common.Exec.{Result, ok, panic, lift, ◌>>=◌, ◌>>◌}
use factom_code.Buffer.{ReadError, Reader, Read, new_reader, update, read_hash}
use factom_code.Buffer.Laws.{read_hash_lem}
use factom_code.Hash.{Hash, zero_hash, set_bytes_or_keep}
use factom_code.Hash.Laws.{set_bytes_lem}
use factom_code.VarInt.{encode_var_int, decode_var_int}
use factom_code.VarInt.RoundTrip.{decode-encode}

pub record IncreaseBalance : Type 0 where
  pub ec_pub_key : Option (List ℕ)
  pub tx_id : Option Hash
  pub index : ℕ
  pub num_ec : ℕ

-- NewIncreaseBalance()
abbrev pub new_increase_balance : IncreaseBalance
new_increase_balance = record { ec_pub_key = none; tx_id = some zero_hash; index = 0; num_ec = 0 }

pub marshal_of : Option (List ℕ) → Option Hash → ℕ → ℕ → Result ReadError (List ℕ)
marshal_of none tx_id index num_ec = panic
marshal_of (some key) none index num_ec = panic
marshal_of (some key) (some tx_id) index num_ec =
    ok (key ++ (tx_id ++ (encode_var_int index ++ encode_var_int num_ec)))

-- b.MarshalBinary(). A nil pointer panics.
pub marshal : IncreaseBalance → Result ReadError (List ℕ)
unfolding marshal_of
marshal b = marshal_of b.ec_pub_key b.tx_id b.index b.num_ec

-- TXID.SetBytes(hash), whose error is not looked at, behind `if b.TXID == nil`.
set_tx_id : Option Hash → List ℕ → Hash
set_tx_id none hash = set_bytes_or_keep zero_hash hash
set_tx_id (some h) hash = set_bytes_or_keep h hash

-- b.UnmarshalBinaryData(data)
pub unmarshal_data : Read IncreaseBalance (List ℕ)
unmarshal_data = do
  hash ← read_hash
  update (λ b. record b { ec_pub_key = some (copy (replicate 32 0) hash) })
  hash ← read_hash
  update (λ b. record b { tx_id = some (set_tx_id b.tx_id hash) })
  (index, tmp) ← λ s. lift (decode_var_int s.buf) s
  update (λ b. record b { index = index })
  (num_ec, tmp) ← lift (decode_var_int tmp)
  update (λ b. record b { num_ec = num_ec })
  lift (ok tmp)

pub unmarshal : IncreaseBalance → List ℕ → Result ReadError (List ℕ) × Reader IncreaseBalance
unmarshal b input = unmarshal_data (new_reader b input)

pub or_zero : Option Hash → Hash
or_zero none = zero_hash
or_zero (some h) = h

abbrev Holds : ℕ → Option (List ℕ) → Type 0
Holds n none = ⊥
Holds n (some bytes) = length bytes ≡ n

-- The pointers of `b` are not nil, and its fields have their sizes.
pub record IsFull (b : IncreaseBalance) : Type 0 where
  pub ec_pub_key : Holds 32 b.ec_pub_key
  pub tx_id : Holds 32 b.tx_id
  pub index : b.index < 2 ^ 64
  pub num_ec : b.num_ec < 2 ^ 64

pub marshalled : (b : IncreaseBalance) → IsFull b → (bytes : List ℕ) × (marshal b ≡ ok bytes)
unfolding marshal
marshalled b f = go b.ec_pub_key b.tx_id f.ec_pub_key f.tx_id
  where
    go :
        (key tx_id : Option (List ℕ))
        → Holds 32 key
        → Holds 32 tx_id
        → (bytes : List ℕ) × (marshal_of key tx_id b.index b.num_ec ≡ ok bytes)
    go (some key) (some tx_id) hk ht = (_, refl)
    go none tx_id hk ht = elim hk [ ]
    go (some key) none hk ht = elim ht [ ]

reads :
    (key tx_id : Option (List ℕ)) (i n : ℕ) (bytes rest : List ℕ)
    → Holds 32 key
    → Holds 32 tx_id
    → i < 2 ^ 64
    → n < 2 ^ 64
    → marshal_of key tx_id i n ≡ ok bytes
    → unmarshal new_increase_balance (bytes ++ rest) ≡ (
      ok rest,
      record {
        recv = record { ec_pub_key = key; tx_id = tx_id; index = i; num_ec = n };
        buf = encode_var_int i ++ (encode_var_int n ++ rest);
        hash = or_zero tx_id;
      },
    )
unfolding unmarshal unmarshal_data set_tx_id or_zero marshal_of
reads none tx_id i n bytes rest hk ht hi hn e = elim hk [ ]
reads (some key) none i n bytes rest hk ht hi hn e = elim ht [ ]
reads (some key) (some tx_id) i n bytes rest hk ht hi hn e = rw (
  ← written,
  append_assoc key,
  append_assoc tx_id,
  append_assoc (encode_var_int i),
  read_hash_lem _ _ hk refl,
  copy_sized _ _ hk refl,
  read_hash_lem _ _ ht hk,
  set_bytes_lem _ _ refl ht,
  decode-encode i _ hi,
  decode-encode n rest hn,
)
  where
    written : key ++ (tx_id ++ (encode_var_int i ++ encode_var_int n)) ≡ bytes
    written = cc

pub unmarshal_lem :
    (b : IncreaseBalance) (bytes rest : List ℕ)
    → IsFull b
    → marshal b ≡ ok bytes
    → unmarshal new_increase_balance (bytes ++ rest) ≡ (
      ok rest,
      record {
        recv = b;
        buf = encode_var_int b.index ++ (encode_var_int b.num_ec ++ rest);
        hash = or_zero b.tx_id;
      },
    )
unfolding marshal
unmarshal_lem b bytes rest f e =
    reads b.ec_pub_key b.tx_id b.index b.num_ec bytes rest f.ec_pub_key f.tx_id f.index f.num_ec e

-- On a new object, UnmarshalBinaryData of what MarshalBinary wrote leaves the entry that was
-- written and returns the bytes behind it, where the two pointers are not nil, their arrays have 32
-- bytes and the numbers are below 2 ^ 64.
pub unmarshal-marshal_increase_balance :
    (b : IncreaseBalance) (bytes rest : List ℕ)
    → IsFull b
    → marshal b ≡ ok bytes
    → ((unmarshal new_increase_balance (bytes ++ rest)).0 ≡ ok rest)
      × ((unmarshal new_increase_balance (bytes ++ rest)).1.recv ≡ b)
unmarshal-marshal_increase_balance b bytes rest f e =
    rw (unmarshal_lem b bytes rest f e) (refl, refl)
