-- ===== src/Entry/RoundTrip.antt =====
-- Entry.UnmarshalBinaryData on what MarshalBinary writes.
use factom_code.Common.{
  ℕ, zero, suc, ◌+◌, ◌-◌, ◌<◌, ◌≤◌, ◌≡◌, refl, sym, arith, List, [], ◌∷◌, ◌++◌, All, length,
  length-append, length-replicate, append_assoc, append-nil, ◌^◌, replicate,
}
use factom_code.Common.Bytes.{IsByte, put_uint, length-put_uint}
use factom_code.Common.Exec.{ok}
use factom_code.Buffer.{Reader}
use factom_code.Buffer.Laws.{read_byte_lem, read_hash_lem, read_uint_lem, read_slice_lem}
use factom_code.Hash.Laws.{set_bytes_lem}
use factom_code.Entry.{
  Entry, new_entry, marshal_ext_ids, marshal, read_x_size, make_ext_id, append_ext_id, read_ext_ids,
  loop_size, unmarshal_data, unmarshal,
}

abbrev IsExtId : List ℕ → Type 0
IsExtId x = length x < 2 ^ 15

abbrev at : Entry → List ℕ → List ℕ → Reader Entry
at e bytes h = record { recv = e; buf = bytes; hash = h }

module _ (e : Entry) (rest h : List ℕ) where
  read_x_size_lem :
      (v : ℕ) → v < 256 ^ 2 → read_x_size (at e (put_uint 2 v ++ rest) h) ≡ (ok v, at e rest h)
  unfolding read_x_size
  read_x_size_lem v b = rw (read_uint_lem 2 v (omega arith) b)

make_ext_id_lem :
    {s : Reader Entry} (n : ℕ) → n < 2 ^ 15 → make_ext_id n s ≡ (ok (replicate n 0), s)
unfolding make_ext_id
make_ext_id_lem n b = ground arith

append_ext_id_lem :
    (e : Entry) (b h : List ℕ) (i n : ℕ) (x : List ℕ)
    → n ≤ i
    → append_ext_id i n n x (at e b h)
      ≡ (ok tt, at (record e { ext_ids = e.ext_ids ++ x ∷ [] }) b h)
unfolding append_ext_id
append_ext_id_lem e b h i n x k = ground arith

loop_size_lem : (n : ℕ) → n < 2 ^ 15 → loop_size n ≡ n
loop_size_lem n h = ground arith

-- The loop over marshalled external IDs appends them, in order.
read_ext_ids_lem :
    (e : Entry) (xs : List (List ℕ)) (rest h : List ℕ) (fuel i : ℕ)
    → All IsExtId xs
    → i ≡ length (marshal_ext_ids xs)
    → i ≤ fuel
    → read_ext_ids fuel i (at e (marshal_ext_ids xs ++ rest) h)
      ≡ (ok tt, at (record e { ext_ids = e.ext_ids ++ xs }) rest h)
unfolding read_ext_ids marshal_ext_ids
read_ext_ids_lem e [] rest h fuel zero w hi hf = rw append-nil
read_ext_ids_lem e [] rest h fuel (suc i) w hi hf = absurd (omega arith)
read_ext_ids_lem e (x ∷ xs) rest h fuel zero w hi hf = absurd (
    omega (
      arith,
      hi,
      length-append (put_uint 2 (length x)) (x ++ marshal_ext_ids xs),
      length-put_uint 2 (length x),
    ))
read_ext_ids_lem e (x ∷ xs) rest h fuel (suc zero) w hi hf = absurd (
    omega (
      arith,
      hi,
      length-append (put_uint 2 (length x)) (x ++ marshal_ext_ids xs),
      length-put_uint 2 (length x),
    ))
read_ext_ids_lem e (x ∷ xs) rest h zero (suc (suc i)) w hi hf = absurd (omega arith)
read_ext_ids_lem e (x ∷ xs) rest h (suc fuel) (suc (suc i)) w hi hf =
    let sizes : i ≡ length x + length (marshal_ext_ids xs) = omega (
      arith,
      hi,
      length-append (put_uint 2 (length x)) (x ++ marshal_ext_ids xs),
      length-put_uint 2 (length x),
      length-append x (marshal_ext_ids xs),
    ) in
    rw (
      append_assoc (put_uint 2 (length x)),
      append_assoc x,
      read_x_size_lem e _ h (length x) (omega (arith, w.0)),
      make_ext_id_lem (length x) w.0,
      read_slice_lem x _ (sym (length-replicate {A = ℕ} (length x) 0)),
      length-replicate {A = ℕ} (length x) 0,
      append_ext_id_lem e (marshal_ext_ids xs ++ rest) h i (length x) x (omega arith),
      read_ext_ids_lem (record e { ext_ids = e.ext_ids ++ x ∷ [] }) xs rest h fuel (i - length x)
          w.1 (omega arith) (omega arith),
      append_assoc e.ext_ids,
    )

-- What MarshalBinary can write so that it is read back: the version is a byte, the chain ID a
-- hash, each external ID shorter than 2 ^ 15 bytes, and so all of them with their sizes.
pub record IsSmall (e : Entry) : Type 0 where
  pub version : IsByte e.version
  pub chain_id : length e.chain_id ≡ 32
  pub ext_ids : All IsExtId e.ext_ids
  pub all_ext_ids : length (marshal_ext_ids e.ext_ids) < 2 ^ 15

-- UnmarshalBinaryData into a new entry, of what MarshalBinary wrote of a small entry, gives the entry
-- back, whatever its content.
pub unmarshal-marshal_entry :
    (e : Entry)
    → IsSmall e
    → ((unmarshal new_entry (marshal e)).0 ≡ ok []) × ((unmarshal new_entry (marshal e)).1.recv ≡ e)
unfolding unmarshal unmarshal_data marshal
unmarshal-marshal_entry e s =
    rw
      (
        read_byte_lem,
        read_hash_lem e.chain_id _ s.chain_id refl,
        set_bytes_lem _ _ refl s.chain_id,
        read_uint_lem 2 (length (marshal_ext_ids e.ext_ids)) (omega arith)
            (omega (arith, s.all_ext_ids)),
        loop_size_lem _ s.all_ext_ids,
        read_ext_ids_lem
            (record { version = e.version; chain_id = e.chain_id; ext_ids = []; content = [] })
            e.ext_ids e.content e.chain_id (length (marshal_ext_ids e.ext_ids))
            (length (marshal_ext_ids e.ext_ids)) s.ext_ids refl (omega arith),
      )
      (refl, refl)
