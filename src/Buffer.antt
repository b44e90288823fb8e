-- ===== src/Buffer.antt =====
-- bytes.Buffer as the Unmarshal methods use it: a reader's state is the bytes that are left, the
-- 32-byte slice `hash` that the methods read hashes into, and the object that is filled in.
pub mod Laws
use factom_code.Common.{
  leb, min, ◌&&◌, ◌^◌, ℕ, zero, suc, ◌+◌, ◌-◌, ◌≤◌, ◌<◌, Bool, true, false, ◌&&◌, List, [], ◌∷◌,
  ◌++◌, length, take, drop, replicate, copy, ltb, ◌==◌, if◌then◌else◌,
}
use factom_code.Common.Bytes.{get_uint}
use factom_code.Common.Exec.{Result, ok, err, panic, Exec, pure, raise, ◌>>=◌, ◌>>◌}

-- The errors that the Unmarshal methods return. `recovered` is the error of a deferred recover.
-- `out_of_fuel` is no Go value: a loop of the model ran out of rounds.
pub data ReadError : Type 0 where
  eof unexpected_eof recovered : ReadError
  invalid_sha_length unsupported_ecid : ℕ → ReadError
  parsing_external_ids out_of_fuel : ReadError
  could_not_read_ext_id : ℕ → ℕ → ReadError
  invalid_type : ReadError

pub record Reader (R : Type 0) : Type 0 where
  pub recv : R
  pub buf : List ℕ
  pub hash : List ℕ

abbrev pub Read : Type 0 → Type 0 → Type 0
Read R A = Exec ReadError (Reader R) A

-- bytes.NewBuffer(data), with `hash := make([]byte, 32)` beside it.
abbrev pub new_reader : {R : Type 0} → R → List ℕ → Reader R
new_reader r input = record { recv = r; buf = input; hash = replicate 32 0 }

module _ {R : Type 0} where
  -- The assignment of a field of the object.
  abbrev pub update : (R → R) → Read R Unit
  update f s = (ok tt, record s { recv = f s.recv })

  -- b, err = buf.ReadByte()
  unfoldable pub read_byte : Read R ℕ
  read_byte s = elim s.buf [ [] ↦ (err eof, s) | b ∷ rest ↦ (ok b, record s { buf = rest }) ]

  -- if buf.Len() < n { err = io.EOF; return }
  unfoldable pub need : ℕ → Read R Unit
  need n s = if ltb (length s.buf) n then (err eof, s) else (ok tt, s)

  -- buf.Next(n): the next n bytes, or all that is left. The slice is never nil.
  unfoldable pub next : ℕ → Read R (List ℕ)
  next n s = (ok (take n s.buf), record s { buf = drop n s.buf })

  -- buf.Read(hash), which fails only on an empty buffer. A short read fills the front of `hash`
  -- alone, and what stood behind it stays.
  unfoldable pub read_hash : Read R (List ℕ)
  read_hash s =
      let h = copy s.hash s.buf in
      if length s.buf == 0
      then (err eof, s)
      else (ok h, record s { buf = drop (length s.hash) s.buf; hash = h })

  -- binary.Read(buf, binary.BigEndian, &v) for an unsigned integer of n bytes, by io.ReadFull. What
  -- a short read has taken is gone.
  unfoldable pub read_uint : ℕ → Read R ℕ
  read_uint n s =
      if length s.buf == 0
      then (err eof, s)
      else if ltb (length s.buf) n
      then (err unexpected_eof, record s { buf = [] })
      else (ok (get_uint 0 (take n s.buf)), record s { buf = drop n s.buf })

-- The most bytes that the runtime allocates at once (on amd64); `make` panics beyond it.
abbrev pub max_alloc : ℕ
max_alloc = 2 ^ 48

module _ {R : Type 0} where
  -- x := make([]byte, n)
  unfoldable pub make_slice : ℕ → Read R (List ℕ)
  make_slice n s = if leb n max_alloc then (ok (replicate n 0), s) else (panic, s)

  -- buf.Read(x): how many bytes were read, and x afterwards. An empty x reads nothing, on any buffer.
  unfoldable pub read_slice : List ℕ → Read R (ℕ × List ℕ)
  read_slice x s =
      let n = min (length x) (length s.buf) in
      let y = copy x s.buf in
      if length s.buf == 0 && ltb 0 (length x)
      then (err eof, s)
      else (ok (n, y), record s { buf = drop (length x) s.buf })
