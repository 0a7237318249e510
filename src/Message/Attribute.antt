-- ===== src/Message/Attribute.antt =====
-- `readAttributeMessage` of src/readMessage.c: the attributes by which MATLAB notes what an object is.
pub mod Encoded
use getmatvar.Common.{
  ℕ, zero, suc, ◌+◌, Bool, true, false, not, Option, none, some, List, [], ◌∷◌, length, take, drop,
  ltb, ◌==◌, if◌then◌else◌, pos, negsuc,
}
use getmatvar.NumberHelper.{
  ByteOrder, little_endian, get_bytes_as_number, host_value, round_up_8, ◌>>=◌,
}
use getmatvar.Superblock.{to_signed}
use getmatvar.Message.{Data, byte_at}
use getmatvar.Message.Class.{
  MxClassId, unknown_class, select_matlab_class, function_class, object_class, opaque_class,
}
use getmatvar.Message.Datatype.{DataType}
use getmatvar.Ezq.Walk.Search.{same_text}

-- The fields that the attributes set; `matlab_object_decode` is the number of the hint.
pub record Attributes : Type 0 where
  pub matlab_class : List ℕ
  pub matlab_internal_type : MxClassId
  pub matlab_sparse : Bool
  pub matlab_empty : Bool
  pub matlab_object_decode : ℕ

-- The fields of an object that its header gives.
pub record MetaData : Type 0 where
  pub shape : Data
  pub data_type : DataType
  pub attributes : Attributes

-- `strncpy` of `n` characters, up to the first 0: the text that arrives.
unfoldable pub strncpy : ℕ → List ℕ → Option (List ℕ)
strncpy zero p = some []
strncpy (suc n) [] = none
strncpy (suc n) (c ∷ p) = if c == 0 then some [] else (do text ← strncpy n p; some (c ∷ text))

-- `memcpy` of `n` bytes out of the message.
unfoldable pub bytes_of : ℕ → List ℕ → Option (List ℕ)
bytes_of n p = if ltb (length p) n then none else some (take n p)

-- A text up to its first 0, or up to the 0 that is put behind it.
unfoldable pub text_of : List ℕ → List ℕ
text_of [] = []
text_of (c ∷ p) = if c == 0 then [] else c ∷ text_of p

abbrev pub name_length : ℕ
name_length = 200

abbrev pub class_attribute : List ℕ
class_attribute = 77 ∷ 65 ∷ 84 ∷ 76 ∷ 65 ∷ 66 ∷ 95 ∷ 99 ∷ 108 ∷ 97 ∷ 115 ∷ 115 ∷ []

abbrev pub sparse_attribute : List ℕ
sparse_attribute = 77 ∷ 65 ∷ 84 ∷ 76 ∷ 65 ∷ 66 ∷ 95 ∷ 115 ∷ 112 ∷ 97 ∷ 114 ∷ 115 ∷ 101 ∷ []

abbrev pub empty_attribute : List ℕ
empty_attribute = 77 ∷ 65 ∷ 84 ∷ 76 ∷ 65 ∷ 66 ∷ 95 ∷ 101 ∷ 109 ∷ 112 ∷ 116 ∷ 121 ∷ []

abbrev pub decode_attribute : List ℕ
decode_attribute =
    77 ∷ 65 ∷ 84 ∷ 76 ∷ 65 ∷ 66 ∷ 95 ∷ 111 ∷ 98 ∷ 106 ∷ 101 ∷ 99 ∷ 116 ∷ 95 ∷ 100 ∷ 101 ∷ 99 ∷ 111
    ∷ 100 ∷ 101 ∷ []

unfoldable pub decoded_class : ℕ → MxClassId → MxClassId
decoded_class hint old =
    if hint == 1
    then function_class
    else if hint == 2
    then object_class
    else if hint == 3
    then opaque_class
    else old

-- `value` is the pointer to the data of the attribute, `size_at` that to the length of a text.
unfoldable pub read_attribute :
    ByteOrder → Bool → List ℕ → List ℕ → List ℕ → MetaData → Option (MetaData × ℕ)
unfolding bytes_of text_of decoded_class
read_attribute host has_memory name size_at value object =
    if same_text name class_attribute
    then (do
      size ← get_bytes_as_number host size_at 4 little_endian
      if not has_memory
          then some
              (record object { attributes = record (object.attributes) { matlab_class = [] } }, 1)
          else (do
            class ← bytes_of size value
            some (
              record object {
                attributes = record (object.attributes) {
                  matlab_class = text_of class;
                  matlab_internal_type =
                      select_matlab_class (text_of class) object.attributes.matlab_internal_type;
                };
              },
              0,
            )))
    else if same_text name sparse_attribute
    then (let marked = record (object.attributes) { matlab_sparse = true } in
        if not has_memory
        then some
            (record object { attributes = marked; shape = record (object.shape) { dims = [] } }, 1)
        else (do
          bytes ← bytes_of 8 value
          some (
            record object {
              attributes = marked;
              shape = record (object.shape) {
                dims = to_signed (host_value host bytes) ∷ pos 0 ∷ [];
              };
            },
            0,
          )))
    else if same_text name empty_attribute
    then some (record object { attributes = record (object.attributes) { matlab_empty = true } }, 0)
    else if same_text name decode_attribute
    then (do
      bytes ← bytes_of 4 value
      some (
        record object {
          attributes = record (object.attributes) {
            matlab_object_decode = host_value host bytes;
            matlab_internal_type =
                decoded_class (host_value host bytes) object.attributes.matlab_internal_type;
          };
        },
        0,
      ))
    else some (object, 0)

-- `strncpy` fills `name_size` characters of `name`, which is as long as `name_length`: a longer name
-- is a write past it.
unfoldable pub read_attribute_message : ByteOrder → Bool → List ℕ → MetaData → Option (MetaData × ℕ)
unfolding strncpy read_attribute
read_attribute_message host has_memory msg object = do
  version ← byte_at msg 0
  if not (version == 1) then some (object, 1) else (do
    name_size ← get_bytes_as_number host (drop 2 msg) 2 little_endian
    datatype_size ← get_bytes_as_number host (drop 4 msg) 2 little_endian
    dataspace_size ← get_bytes_as_number host (drop 6 msg) 2 little_endian
    name ← (if ltb name_length name_size then none else strncpy name_size (drop 8 msg))
    read_attribute host has_memory name (drop (8 + round_up_8 name_size + 4) msg)
        (drop (8 + round_up_8 name_size + round_up_8 datatype_size + round_up_8 dataspace_size) msg)
        object)

-- What `initializeObject` of src/init.c sets of these fields; `HDF5_UNKNOWN` is 11, `UNDEF_ADDR` -1.
abbrev pub initialize_object : MetaData
initialize_object = record {
  shape = record {
    num_dims = 0;
    dims = [];
    num_elems = pos 0;
    layout_class = 3;
    data_address = negsuc 0;
    num_chunked_dims = 0;
    chunked_dims = [];
    chunk_update = [];
    num_chunked_elems = pos 0;
    num_filters = 0;
    filters = [];
  };
  data_type = record {
    hdf5_internal_type = 11;
    elem_size = 0;
    datatype_bit_field = 0;
    byte_order = little_endian;
    is_complex = false;
  };
  attributes = record {
    matlab_class = [];
    matlab_internal_type = unknown_class;
    matlab_sparse = false;
    matlab_empty = false;
    matlab_object_decode = 0;
  };
}
