-- ===== src/Message/Tests.antt =====
-- The dataspace message of an array of 5 by 3 elements.
use getmatvar.Common.{
  ℕ, zero, suc, ◌<◌, ◌^◌, drop, replicate, ◌≡◌, ◌≢◌, false, refl, true, some, List, [], ◌∷◌, arith,
  pos,
}
use getmatvar.NumberHelper.{little_endian, big_endian, round_up_8}
use getmatvar.Ezq.Walk.Search.{same_text, same_text_iff}
use getmatvar.Superblock.{Superblock}
use getmatvar.Message.{Data, Filter, read_data_space_message, read_data_storage_pipeline_message}
use getmatvar.Message.Filters.{
  no_words, a_word, no_filter, a_filter, encode_filters, read_data_storage_pipeline_message-filters,
}
use getmatvar.Message.Class.{
  MxClassId, double_class, unknown_class, cell_class, struct_class, logical_class, char_class,
  void_class, single_class, int8_class, uint8_class, int16_class, uint16_class, int32_class,
  uint32_class, int64_class, uint64_class, function_class, opaque_class, object_class, class_name,
  select_matlab_class, select_matlab_class-class_name,
}
use getmatvar.Message.Datatype.{DataType, read_data_type_message, read_data_type_message-number}
use getmatvar.Message.Attribute.{initialize_object, class_attribute, read_attribute_message}
use getmatvar.Message.Attribute.Encoded.{attribute_bytes, read_attribute_message-class_name}
use getmatvar.Message.Dataspace.{field, read_data_space_message-sizes}

abbrev eight_bytes : Superblock
eight_bytes = record {
  size_of_offsets = 8;
  size_of_lengths = 8;
  leaf_node_k = 4;
  internal_node_k = 16;
  sym_table_entry_size = 40;
  base_address = pos 512;
  root_tree_address = pos 648;
  root_heap_address = pos 1192;
}

abbrev new_object : Data
new_object = record {
  num_dims = 0;
  dims = [];
  num_elems = pos 0;
  layout_class = 0;
  data_address = pos 0;
  num_chunked_dims = 0;
  chunked_dims = [];
  chunk_update = [];
  num_chunked_elems = pos 0;
  num_filters = 0;
  filters = [];
}

abbrev space_message : List ℕ
space_message =
    1 ∷ 2 ∷ 0 ∷ 0 ∷ 0 ∷ 0 ∷ 0 ∷ 0 ∷ 3 ∷ 0 ∷ 0 ∷ 0 ∷ 0 ∷ 0 ∷ 0 ∷ 0 ∷ 5 ∷ 0 ∷ 0 ∷ 0 ∷ 0 ∷ 0 ∷ 0 ∷ 0
    ∷ []

signed : (i : ℕ) → i < 2 → field (drop 8 space_message) 8 i < 2 ^ 63
signed zero lt = omega arith
signed (suc zero) lt = omega arith
signed (suc (suc i)) lt = absurd (omega arith)

read_data_space_message-sizes_example :
    read_data_space_message little_endian true eight_bytes space_message new_object
    ≡ some (
      record new_object { num_dims = 2; dims = pos 5 ∷ pos 3 ∷ pos 0 ∷ []; num_elems = pos 15 },
      0,
    )
read_data_space_message-sizes_example =
    read_data_space_message-sizes eight_bytes space_message new_object 2 (omega arith) refl refl
      (omega arith) (omega arith) signed (omega arith)

abbrev deflate : Filter
deflate = record { filter_id = 1; optional_flag = 1; num_client_vals = 1; client_data = 6 ∷ [] }

abbrev fletcher : Filter
fletcher = record { filter_id = 3; optional_flag = 0; num_client_vals = 0; client_data = [] }

abbrev both_filters : List (List ℕ × Filter)
both_filters = ([], fletcher) ∷ (100 ∷ 101 ∷ 102 ∷ 108 ∷ 97 ∷ 116 ∷ 101 ∷ 0 ∷ [], deflate) ∷ []

-- Two filters, of which the last has an odd number of values.
read_data_storage_pipeline_message-filters_example :
    read_data_storage_pipeline_message little_endian true
      (1 ∷ 2 ∷ 0 ∷ 0 ∷ 0 ∷ 0 ∷ 0 ∷ 0 ∷ encode_filters both_filters [])
      new_object
    ≡ some (record new_object { num_filters = 2; filters = fletcher ∷ deflate ∷ [] }, 0)
read_data_storage_pipeline_message-filters_example =
    read_data_storage_pipeline_message-filters both_filters [] new_object
      (a_filter _ _ _ (omega arith) (omega arith) (omega arith) (omega arith) refl no_words refl (
        a_filter _ _ _ (omega arith) (omega arith) (omega arith) (omega arith) refl
          (a_word 6 [] (omega arith) no_words) tt no_filter))
      (omega arith)

differs : (a b : List ℕ) → same_text a b ≡ false → a ≢ b
differs a b miss same = ground (arith, (same_text_iff a b).1 same)

not_unknown : single_class ≢ unknown_class
not_unknown e = ground arith

not_void : single_class ≢ void_class
not_void e = ground arith

unnamed : (d : MxClassId) → 115 ∷ 116 ∷ 114 ∷ [] ≢ class_name d
unfolding same_text
unnamed unknown_class = differs _ _ refl
unnamed cell_class = differs _ _ refl
unnamed struct_class = differs _ _ refl
unnamed logical_class = differs _ _ refl
unnamed char_class = differs _ _ refl
unnamed void_class = differs _ _ refl
unnamed double_class = differs _ _ refl
unnamed single_class = differs _ _ refl
unnamed int8_class = differs _ _ refl
unnamed uint8_class = differs _ _ refl
unnamed int16_class = differs _ _ refl
unnamed uint16_class = differs _ _ refl
unnamed int32_class = differs _ _ refl
unnamed uint32_class = differs _ _ refl
unnamed int64_class = differs _ _ refl
unnamed uint64_class = differs _ _ refl
unnamed function_class = differs _ _ refl
unnamed opaque_class = differs _ _ refl
unnamed object_class = differs _ _ refl

-- The name `str` is not one that the program knows.
select_matlab_class-class_name_example :
    (select_matlab_class (class_name single_class) double_class ≡ single_class)
    × (select_matlab_class (115 ∷ 116 ∷ 114 ∷ []) double_class ≡ double_class)
select_matlab_class-class_name_example =
    select_matlab_class-class_name single_class double_class (115 ∷ 116 ∷ 114 ∷ []) not_unknown
      not_void unnamed

abbrev new_type : DataType
new_type = record {
  hdf5_internal_type = 0;
  elem_size = 0;
  datatype_bit_field = 0;
  byte_order = little_endian;
  is_complex = false;
}

-- A floating-point number of eight bytes, the highest first.
read_data_type_message-number_example :
    read_data_type_message little_endian (17 ∷ 33 ∷ 63 ∷ 0 ∷ 8 ∷ 0 ∷ 0 ∷ 0 ∷ []) new_type
    ≡ some (
      record new_type {
        hdf5_internal_type = 1;
        elem_size = 8;
        datatype_bit_field = 16161;
        byte_order = big_endian;
      },
      0,
    )
read_data_type_message-number_example =
    read_data_type_message-number 1 16161 8 [] new_type (omega arith) (omega arith) (omega arith)
      (omega arith)

-- The class of numbers of four bytes, with a string of six bytes as its type.
read_attribute_message-class_name_example :
    read_attribute_message little_endian true
      (attribute_bytes 0 class_attribute
        (0 ∷ 0 ∷ 0 ∷ [])
        8
        (19 ∷ 0 ∷ 0 ∷ 0 ∷ 6 ∷ 0 ∷ 0 ∷ 0 ∷ [])
        8
        (replicate 8 0)
        (class_name single_class))
      initialize_object
    ≡ some (
      record initialize_object {
        attributes = record (initialize_object.attributes) {
          matlab_class = class_name single_class;
          matlab_internal_type = single_class;
        };
      },
      0,
    )
unfolding round_up_8
read_attribute_message-class_name_example =
    read_attribute_message-class_name 0 (0 ∷ 0 ∷ 0 ∷ []) 8 (19 ∷ 0 ∷ 0 ∷ 0 ∷ []) [] 8
      (replicate 8 0) [] single_class initialize_object not_unknown not_void refl refl (omega arith)
      refl (omega arith) refl
