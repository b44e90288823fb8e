-- ===== src/Credit/Numbers.antt =====
-- common/minutenumber.go and common/serverindexnumber.go: one byte each, a uint8.
use factom_code.Common.{ℕ, ◌≡◌, List, [], ◌∷◌}
use factom_code.Common.Exec.{ok, gets, ◌>>=◌, ◌>>◌}
use factom_code.Buffer.{Read, update, read_byte}
use factom_code.Buffer.Laws.{read_byte_lem}

pub record MinuteNumber : Type 0 where
  pub number : ℕ

pub record ServerIndexNumber : Type 0 where
  pub number : ℕ

abbrev pub minute_number_size : ℕ
minute_number_size = 1

abbrev pub server_index_number_size : ℕ
server_index_number_size = 1

-- MarshalBinary
abbrev pub marshal_minute_number : MinuteNumber → List ℕ
marshal_minute_number m = m.number ∷ []

abbrev pub marshal_server_index_number : ServerIndexNumber → List ℕ
marshal_server_index_number s = s.number ∷ []

-- UnmarshalBinaryData
pub unmarshal_minute_number : Read MinuteNumber (List ℕ)
unmarshal_minute_number = do c ← read_byte; update (λ m. record { number = c }); gets (λ s. s.buf)

pub unmarshal_server_index_number : Read ServerIndexNumber (List ℕ)
unmarshal_server_index_number = do
  c ← read_byte
  update (λ s. record { number = c })
  gets (λ s. s.buf)

pub unmarshal_minute_number_lem :
    (r : MinuteNumber) {rest hash : List ℕ} (n : ℕ)
    → unmarshal_minute_number (record { recv = r; buf = n ∷ rest; hash = hash })
      ≡ (ok rest, record { recv = record { number = n }; buf = rest; hash = hash })
unfolding unmarshal_minute_number
unmarshal_minute_number_lem r n = rw read_byte_lem

pub unmarshal_server_index_number_lem :
    (r : ServerIndexNumber) {rest hash : List ℕ} (n : ℕ)
    → unmarshal_server_index_number (record { recv = r; buf = n ∷ rest; hash = hash })
      ≡ (ok rest, record { recv = record { number = n }; buf = rest; hash = hash })
unfolding unmarshal_server_index_number
unmarshal_server_index_number_lem r n = rw read_byte_lem
