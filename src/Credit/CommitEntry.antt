-- ===== src/Credit/CommitEntry.antt =====
-- common/commitentry.go: the payment for an entry. Pointers to arrays and hashes are the arrays.
pub mod RoundTrip
pub mod Signed
use factom_code.Common.{
  ℕ, ◌+◌, ◌-◌, ◌*◌, ◌/◌, ◌^◌, ◌≤◌, ◌<◌, ◌≡◌, refl, Bool, true, false, ◌&&◌, ◌||◌, not, List, [],
  ◌∷◌, ◌++◌, All, length, take, replicate, copy, ltb, ◌==◌, if◌then◌else◌,
}
use factom_code.Common.Bytes.{IsByte, get_uint}
use factom_code.Common.Exec.{Result, ok, err, panic, Exec, pure, lift, gets, recover, ◌>>=◌, ◌>>◌}
use factom_code.Buffer.{
  ReadError, recovered, Reader, Read, new_reader, update, read_byte, need, next, read_hash,
}
use factom_code.Hash.{Hash, IsHash, zero_hash, set_bytes}

pub record CommitEntry : Type 0 where
  pub version : ℕ
  pub milli_time : List ℕ
  pub entry_hash : Hash
  pub credits : ℕ
  pub ec_pub_key : List ℕ
  pub sig : List ℕ

abbrev pub commit_entry_size : ℕ
commit_entry_size = 136

-- COMMIT_TIME_WINDOW hours, in nanoseconds.
abbrev pub commit_time_window : ℕ
commit_time_window = 12 * 3600 * 10 ^ 9

-- NewCommitEntry()
abbrev pub new_commit_entry : CommitEntry
new_commit_entry = record {
  version = 0;
  milli_time = replicate 6 0;
  entry_hash = zero_hash;
  credits = 0;
  ec_pub_key = replicate 32 0;
  sig = replicate 64 0;
}

-- The sizes of the arrays and the ranges of the uint8 fields.
pub record IsSized (c : CommitEntry) : Type 0 where
  pub version : IsByte c.version
  pub milli_time : length c.milli_time ≡ 6
  pub entry_hash : length c.entry_hash ≡ 32
  pub credits : IsByte c.credits
  pub ec_pub_key : length c.ec_pub_key ≡ 32
  pub sig : length c.sig ≡ 64

-- c.MarshalBinary()
pub marshal : CommitEntry → List ℕ
marshal c = c.version ∷ (c.milli_time ++ (c.entry_hash ++ (c.credits ∷ (c.ec_pub_key ++ c.sig))))

-- c.UnmarshalBinaryData(data): the bytes left over; the receiver is the reader's object.
pub unmarshal_data : Read CommitEntry (List ℕ)
unmarshal_data = do
  b ← read_byte
  update (λ c. record c { version = b })
  need 6
  p ← next 6
  update (λ c. record c { milli_time = copy c.milli_time p })
  hash ← read_hash
  entry_hash ← λ s. lift (set_bytes s.recv.entry_hash hash) s
  update (λ c. record c { entry_hash = entry_hash })
  b ← read_byte
  update (λ c. record c { credits = b })
  need 32
  p ← next 32
  update (λ c. record c { ec_pub_key = copy c.ec_pub_key p })
  need 64
  p ← next 64
  update (λ c. record c { sig = copy c.sig p })
  gets (λ s. s.buf)

pub unmarshal : CommitEntry → List ℕ → Result ReadError (List ℕ) × Reader CommitEntry
unmarshal c input = unmarshal_data (new_reader c input)

-- c.CommitMsg(): the marshalled bytes before the key and the signature, p[:len(p)-64-32].
abbrev pub commit_msg : CommitEntry → List ℕ
commit_msg c = take (length (marshal c) - 64 - 32) (marshal c)

-- c.GetMilliTime(): two zero bytes and the six of MilliTime as a big-endian uint64.
unfoldable pub get_milli_time : CommitEntry → ℕ
get_milli_time c = get_uint 0 (0 ∷ 0 ∷ c.milli_time)

-- c.InTime(): the second of the timestamp is within 12 hours of `now`, time.Now() in nanoseconds.
unfoldable pub in_time : ℕ → CommitEntry → Bool
unfolding get_milli_time
in_time now c =
    let t = get_milli_time c / 1000 * 10 ^ 9 in
    ltb now (t + commit_time_window) && ltb t (now + commit_time_window)

-- c.IsValid(), over ed25519.VerifyCanonical of the key, the message and the signature.
unfoldable pub is_valid : (List ℕ → List ℕ → List ℕ → Bool) → CommitEntry → Bool
is_valid verify_canonical c =
    if ltb c.credits 1 || not (c.version == 0)
    then false
    else verify_canonical c.ec_pub_key (commit_msg c) c.sig
