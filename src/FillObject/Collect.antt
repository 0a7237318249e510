-- ===== src/FillObject/Collect.antt =====
-- `collectMetaData` of src/fillDataObjects.c: what an object and the object above it become after the
-- messages of its header.
use getmatvar.Common.{
  ℕ, ◌≡◌, refl, Bool, true, false, not, ◌&&◌, Option, none, some, List, [], ◌∷◌, ◌++◌, length, take,
  ltb, ◌==◌, if◌then◌else◌, ℤ, pos,
}
use getmatvar.NumberHelper.{ByteOrder, ◌>>=◌}
use getmatvar.Superblock.{Superblock}
use getmatvar.Message.Attribute.{MetaData}
use getmatvar.Message.Class.{
  MxClassId, unknown_class, cell_class, struct_class, void_class, uint64_class,
}
use getmatvar.FillObject.{interpret_messages}

-- An object and its `super_object`, and the two fields of the object that only this function sets.
pub record Collected : Type 0 where
  pub object : MetaData
  pub super_object : MetaData
  pub is_struct_array : Bool
  pub matlab_sparse_type : MxClassId

abbrev pub is_unknown : MxClassId → Bool
is_unknown unknown_class = true
is_unknown _ = false

abbrev pub is_struct : MxClassId → Bool
is_struct struct_class = true
is_struct _ = false

abbrev pub with_class : MetaData → MxClassId → MetaData
with_class object c = record object {
  attributes = record (object.attributes) { matlab_internal_type = c };
}

abbrev pub with_dims : MetaData → ℕ → List ℤ → MetaData
with_dims object n dims = record object {
  shape = record (object.shape) { num_dims = n; dims = dims };
}

-- The object is a field of a struct array: `HDF5_REFERENCE` is 7.
abbrev pub is_field_array : Collected → Bool
is_field_array c =
    c.object.data_type.hdf5_internal_type == 7
    && is_unknown c.object.attributes.matlab_internal_type
    && is_struct c.super_object.attributes.matlab_internal_type

-- The struct gets the dimensions of its field. `mxSPARSE_CLASS` is `mxVOID_CLASS`.
unfoldable pub collect_field_array : Bool → Collected → Option (Collected × ℕ)
collect_field_array has_memory c =
    if is_field_array c
    then if not has_memory
      then some (
        record c {
          object = with_class c.object cell_class;
          super_object = with_dims c.super_object c.object.shape.num_dims [];
          is_struct_array = true;
        },
        1,
      )
      else if ltb (length c.object.shape.dims) c.object.shape.num_dims
      then none
      else some (
        record c {
          object = with_class c.object cell_class;
          super_object =
              with_dims c.super_object c.object.shape.num_dims
                (take c.object.shape.num_dims c.object.shape.dims ++ (pos 0 ∷ []));
          is_struct_array = true;
        },
        0,
      )
    else some (c, 0)

unfoldable pub collect_sparse : Collected → Collected
collect_sparse c =
    if c.object.attributes.matlab_sparse
    then record c {
      matlab_sparse_type = c.object.attributes.matlab_internal_type;
      object = with_class c.object void_class;
    }
    else if c.super_object.attributes.matlab_sparse
    then record c { object = with_class c.object uint64_class }
    else c

-- Of the two entries that are allocated for an empty object only the first is set.
unfoldable pub collect_empty : Bool → Collected → Collected × ℕ
collect_empty has_memory c =
    if has_memory
    then (
      record c {
        object = record (c.object) {
          shape = record (c.object.shape) { num_elems = pos 0; num_dims = 0; dims = pos 0 ∷ [] };
        };
      },
      0,
    )
    else (
      record c {
        object = record (c.object) {
          shape = record (c.object.shape) { num_elems = pos 0; dims = [] };
        };
      },
      1,
    )

unfoldable pub collect_meta_data :
    ByteOrder → Bool → Superblock → List ℕ → Collected → ℤ → ℕ → ℕ → Option (Collected × ℕ)
unfolding collect_field_array collect_sparse collect_empty
collect_meta_data host has_memory s_block file c header_address num_msgs header_length = do
  r ←
      interpret_messages host has_memory s_block file num_msgs c.object header_address header_length
        0 0
  let read = record c { object = r.0 } in
      if not (r.2 == 0)
      then some (read, 1)
      else if r.0.attributes.matlab_empty
      then some (collect_empty has_memory read)
      else (do
        field ← collect_field_array has_memory read
        if not (field.1 == 0) then some field else some (collect_sparse field.0, 0))

-- An object that is not empty, not sparse and no reference stays as its messages left it.
pub collect_meta_data-plain :
    (host : ByteOrder) (has_memory : Bool) (s_block : Superblock) (file : List ℕ) (c : Collected)
    (address : ℤ) (num_msgs header_length last : ℕ) (object : MetaData)
    → interpret_messages host has_memory s_block file num_msgs c.object address header_length 0 0
      ≡ some (object, last, 0)
    → object.attributes.matlab_empty ≡ false
    → object.attributes.matlab_sparse ≡ false
    → (object.data_type.hdf5_internal_type == 7) ≡ false
    → c.super_object.attributes.matlab_sparse ≡ false
    → collect_meta_data host has_memory s_block file c address num_msgs header_length
      ≡ some (record c { object = object }, 0)
unfolding collect_meta_data
collect_meta_data-plain host has_memory s_block file c address num_msgs header_length last object
      read full dense number above =
    rw (read, full, number, dense, above) refl
