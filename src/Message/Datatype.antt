-- ===== src/Message/Datatype.antt =====
-- `readDataTypeMessage` of src/readMessage.c, on the fields of an object that it sets.
use getmatvar.Common.{
  ℕ, zero, suc, ◌+◌, ◌/◌, ◌%◌, ◌^◌, ◌<◌, ◌≡◌, refl, Bool, Bool-cases, inl, inr, true, not, Option,
  none, some, List, [], ◌∷◌, ◌++◌, arith, length, take, drop, ltb, ◌==◌, ◌||◌, if◌then◌else◌,
}
use getmatvar.NumberHelper.{
  ByteOrder, little_endian, big_endian, get_bytes_as_number, round_up_8, ◌>>=◌,
}
use getmatvar.NumberHelper.Encoded.{le_bytes, read-le_bytes}
use getmatvar.Message.{byte_at}
use getmatvar.Ezq.Walk.Search.{same_text}

-- `hdf5_internal_type` is the number of the class: 0 for fixed point, 1 for floating point, 2 for
-- time, 6 for compound.
pub record DataType : Type 0 where
  pub hdf5_internal_type : ℕ
  pub elem_size : ℕ
  pub datatype_bit_field : ℕ
  pub byte_order : ByteOrder
  pub is_complex : Bool

abbrev pub strlen : List ℕ → Option ℕ
strlen [] = none
strlen (c ∷ cs) = if c == 0 then some 0 else (do n ← strlen cs; some (n + 1))

abbrev pub order_of_bit : ℕ → ByteOrder
order_of_bit bits = if bits % 2 == 0 then little_endian else big_endian

-- The four bytes `real`.
abbrev pub is_real : List ℕ → Bool
is_real p = same_text (take 4 p) (114 ∷ 101 ∷ 97 ∷ 108 ∷ [])

-- A compound type goes on at least 48 bytes further, so as many rounds as there are bytes are
-- enough.
unfoldable pub data_type_loop : ByteOrder → ℕ → List ℕ → DataType → Option (DataType × ℕ)
data_type_loop host zero msg object = none
data_type_loop host (suc fuel) msg object = do
  version ← byte_at msg 0
  if not (version / 16 == 1) then some (object, 1) else (do
    size ←
        (if object.elem_size == 0
          then get_bytes_as_number host (drop 4 msg) 4 little_endian
          else some object.elem_size)
    bits ← get_bytes_as_number host (drop 1 msg) 3 little_endian
    let typed = record object {
      hdf5_internal_type = version % 16;
      elem_size = size % 2 ^ 32;
      datatype_bit_field = bits % 2 ^ 32;
    } in
        if version % 16 == 0 || version % 16 == 1 || version % 16 == 2
        then some (record typed { byte_order = order_of_bit bits }, 0)
        else if version % 16 == 6
        then (do
          len ← strlen msg
          data_type_loop host fuel (drop (8 + round_up_8 (len + 1) + 32) msg)
              (record typed { is_complex = is_real (drop 8 msg) || object.is_complex }))
        else some (record typed { byte_order = little_endian }, 0))

unfoldable pub read_data_type_message : ByteOrder → List ℕ → DataType → Option (DataType × ℕ)
unfolding data_type_loop
read_data_type_message host msg object = data_type_loop host (suc (length msg)) msg object

pub first_byte : (b : ℕ) (l : List ℕ) → byte_at (b ∷ l) 0 ≡ some b
first_byte b l = rw (nonempty (length l)) refl
  where
    nonempty : (n : ℕ) → ltb 0 (suc n) ≡ true
    nonempty n = ground arith

version_1 : (class : ℕ) → class < 3 → ((16 + class) / 16 == 1) ≡ true
version_1 class known = ground arith

class_bits : (class : ℕ) → class < 3 → (16 + class) % 16 ≡ class
class_bits class known = omega arith

number_class : (class : ℕ) → class < 3 → (class == 0 || class == 1 || class == 2) ≡ true
number_class class known = ground arith

word : (v : ℕ) → v < 256 ^ 4 → v % 2 ^ 32 ≡ v
word v small = omega (arith, small)

-- The message of version 1 for a number of class 0, 1 or 2, on a little-endian machine:
-- `readDataTypeMessage` does not fail, sets the class, the bits and the byte order, which is their
-- lowest, and sets the size unless the object has one already.
pub read_data_type_message-number :
    (class bits size : ℕ) (rest : List ℕ) (object : DataType)
    → class < 3
    → bits < 256 ^ 3
    → size < 256 ^ 4
    → object.elem_size < 256 ^ 4
    → read_data_type_message little_endian
        ((16 + class) ∷ (le_bytes 3 bits ++ (le_bytes 4 size ++ rest)))
        object
      ≡ some (
        record object {
          hdf5_internal_type = class;
          elem_size = if object.elem_size == 0 then size else object.elem_size;
          datatype_bit_field = bits;
          byte_order = order_of_bit bits;
        },
        0,
      )
unfolding read_data_type_message
read_data_type_message-number class bits size rest object known bits_fit size_fits had_fits =
    elim (Bool-cases (object.elem_size == 0)) [
      | inl unset ↦
          rw
            (
              first_byte _ _,
              version_1 class known,
              unset,
              read-le_bytes 4 size rest (omega arith) size_fits,
              read-le_bytes 3 bits (le_bytes 4 size ++ rest) (omega arith) bits_fit,
              class_bits class known,
              number_class class known,
              word size size_fits,
              word bits (omega (arith, bits_fit)),
            )
            refl
      | inr had ↦
          rw
            (
              first_byte _ _,
              version_1 class known,
              had,
              read-le_bytes 3 bits (le_bytes 4 size ++ rest) (omega arith) bits_fit,
              class_bits class known,
              number_class class known,
              word object.elem_size had_fits,
              word bits (omega (arith, bits_fit)),
            )
            refl
    ]
