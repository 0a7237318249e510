-- ===== src/FillObject/MatrixBytes.antt =====
-- The header of a matrix, in the bytes of the file, and the object that it describes.
use getmatvar.Common.{
  ℕ, zero, suc, ◌+◌, ◌*◌, ◌^◌, ◌≤◌, ◌<◌, ◌≡◌, refl, sym, ap, ap₂, subst, ◌∙◌, true, false, some,
  List, [], ◌∷◌, ◌++◌, map, arith, length, drop, pos,
}
use getmatvar.NumberHelper.{little_endian}
use getmatvar.NumberHelper.Encoded.{le_bytes, le_value-le_bytes}
use getmatvar.Superblock.{Superblock}
use getmatvar.Message.{Data, read_data_space_message}
use getmatvar.Message.Dataspace.{field, sizes, product, until_zero, read_data_space_message-sizes}
use getmatvar.Message.Datatype.{order_of_bit}
use getmatvar.Message.Class.{MxClassId, class_name}
use getmatvar.Message.Attribute.{MetaData, initialize_object, class_attribute}
use getmatvar.Message.Attribute.Encoded.{attribute_bytes}
use getmatvar.FillObject.Headers.{Block, end, plain}

-- The dataspace of a matrix, which the file has with the sizes in the other order.
abbrev pub space_bytes : ℕ → ℕ → List ℕ
space_bytes rows columns = 1 ∷ 2 ∷ 0 ∷ 0 ∷ 0 ∷ 0 ∷ 0 ∷ 0 ∷ (le_bytes 8 columns ++ le_bytes 8 rows)

abbrev pub type_bytes : ℕ → ℕ → ℕ → List ℕ
type_bytes class bits size = (16 + class) ∷ (le_bytes 3 bits ++ le_bytes 4 size)

-- The attribute MATLAB_class, its data type in `8 + length tail` bytes.
abbrev pub class_bytes : ℕ → List ℕ → ℕ → List ℕ → MxClassId → List ℕ
class_bytes datatype_size tail dataspace_size dataspace c =
    attribute_bytes 0 class_attribute (0 ∷ 0 ∷ 0 ∷ []) datatype_size
      (19 ∷ 0 ∷ 0 ∷ 0 ∷ (le_bytes 4 (length (class_name c)) ++ tail)) dataspace_size dataspace
      (class_name c)

abbrev pub no_flags : List ℕ
no_flags = 0 ∷ 0 ∷ 0 ∷ 0 ∷ []

abbrev pub matrix_header : ℕ → ℕ → ℕ → ℕ → ℕ → ℕ → List ℕ → ℕ → List ℕ → MxClassId → Block
matrix_header rows columns class bits size datatype_size tail dataspace_size dataspace c =
    plain 1 no_flags (space_bytes rows columns) (
      plain 3 no_flags (type_bytes class bits size)
        (plain 12 no_flags (class_bytes datatype_size tail dataspace_size dataspace c) end))

-- What is to be read.
abbrev pub matrix_object : ℕ → ℕ → ℕ → ℕ → ℕ → MxClassId → MetaData
matrix_object rows columns class bits size c = record {
  shape = record (initialize_object.shape) {
    num_dims = 2;
    dims = pos rows ∷ pos columns ∷ pos 0 ∷ [];
    num_elems = pos (rows * columns);
  };
  data_type = record {
    hdf5_internal_type = class;
    elem_size = size;
    datatype_bit_field = bits;
    byte_order = order_of_bit bits;
    is_complex = false;
  };
  attributes = record (initialize_object.attributes) {
    matlab_class = class_name c;
    matlab_internal_type = c;
  };
}

product_of :
    (rows columns : ℕ)
    → 0 < rows
    → 0 < columns
    → product 1 (until_zero (rows ∷ columns ∷ [])) ≡ rows * columns
product_of zero columns some_rows some_columns = absurd (omega arith)
product_of (suc rows) zero some_rows some_columns = absurd (omega arith)
product_of (suc rows) (suc columns) some_rows some_columns = omega arith

module _ (s_block : Superblock) (lengths : s_block.size_of_lengths ≡ 8) (rows columns : ℕ)
    (rows_fit : rows < 2 ^ 63) (columns_fit : columns < 2 ^ 63)
    (elems_fit : rows * columns < 2 ^ 63) where
  pub space_read :
      (rest : List ℕ) (object : Data)
      → 0 < rows
      → 0 < columns
      → read_data_space_message little_endian true s_block (space_bytes rows columns ++ rest) object
        ≡ some (
          record object {
            num_dims = 2;
            dims = pos rows ∷ pos columns ∷ pos 0 ∷ [];
            num_elems = pos (rows * columns);
          },
          0,
        )
  space_read rest object some_rows some_columns =
      read_data_space_message-sizes s_block msg object 2 inside refl refl (omega arith)
        (omega (arith, lengths)) signed product_fits
      ∙ ap
          (λ l. some (
            record object {
              num_dims = 2;
              dims = map pos l ++ (pos 0 ∷ []);
              num_elems = pos (product 1 (until_zero l));
            },
            0,
          ))
          sizes_read
      ∙ ap
          (λ (n : ℕ). some (
            record object {
              num_dims = 2;
              dims = pos rows ∷ pos columns ∷ pos 0 ∷ [];
              num_elems = pos n;
            },
            0,
          ))
          (product_of rows columns some_rows some_columns)
    where
      msg : List ℕ
      msg = space_bytes rows columns ++ rest

      inside : 8 + 2 * s_block.size_of_lengths ≤ length msg
      inside = omega (arith, lengths)

      columns_read : field (drop 8 msg) 8 0 ≡ columns
      columns_read = le_value-le_bytes 8 columns (omega (arith, columns_fit))

      rows_read : field (drop 8 msg) 8 1 ≡ rows
      rows_read = le_value-le_bytes 8 rows (omega (arith, rows_fit))

      sizes_read : sizes (drop 8 msg) s_block.size_of_lengths 2 0 ≡ rows ∷ columns ∷ []
      sizes_read =
          subst (λ (w : ℕ). sizes (drop 8 msg) w 2 0 ≡ rows ∷ columns ∷ []) (sym lengths)
            (ap₂ (λ r c. r ∷ c ∷ []) rows_read columns_read)

      product_fits :
          product 1 (until_zero (sizes (drop 8 msg) s_block.size_of_lengths 2 0)) < 2 ^ 63
      product_fits =
          subst (λ l. product 1 (until_zero l) < 2 ^ 63) (sym sizes_read)
            (omega (arith, product_of rows columns some_rows some_columns, elems_fit))

      signed_8 : (i : ℕ) → i < 2 → field (drop 8 msg) 8 i < 2 ^ 63
      signed_8 zero lt = omega (arith, columns_read, columns_fit)
      signed_8 (suc zero) lt = omega (arith, rows_read, rows_fit)
      signed_8 (suc (suc i)) lt = absurd (omega arith)

      signed : (i : ℕ) → i < 2 → field (drop 8 msg) s_block.size_of_lengths i < 2 ^ 63
      signed i lt = subst (λ (w : ℕ). field (drop 8 msg) w i < 2 ^ 63) (sym lengths) (signed_8 i lt)
