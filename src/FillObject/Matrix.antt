-- ===== src/FillObject/Matrix.antt =====
-- A matrix of the file, from the bytes of its header to the fields of its object.
use getmatvar.Common.{
  ℕ, ◌+◌, ◌*◌, ◌^◌, ◌<◌, ◌≡◌, ◌≢◌, refl, sym, ap, ◌∙◌, true, false, some, List, [], ◌∷◌, ◌++◌, ◌==◌,
  append-nil, arith, length, ℤ,
}
use getmatvar.NumberHelper.{little_endian, round_up_8, ◌>>=◌}
use getmatvar.NumberHelper.Encoded.{le_bytes}
use getmatvar.Superblock.{Superblock}
use getmatvar.Navigate.{at_address}
use getmatvar.Message.Datatype.{read_data_type_message-number}
use getmatvar.Message.Class.{MxClassId, unknown_class, void_class, class_name}
use getmatvar.Message.Attribute.{initialize_object, class_attribute, read_attribute_message}
use getmatvar.Message.Attribute.Encoded.{attribute_bytes, read_attribute_message-class_name}
use getmatvar.FillObject.{read_message, interpret_messages}
use getmatvar.FillObject.Rounds.{finish}
use getmatvar.FillObject.Headers.{Block, end, plain, encode, process, IsWritten}
use getmatvar.FillObject.Written.{interpret_messages-process}
use getmatvar.FillObject.Collect.{Collected, collect_meta_data, collect_meta_data-plain}
use getmatvar.FillObject.MatrixBytes.{
  space_bytes, type_bytes, class_bytes, no_flags, matrix_header, matrix_object, space_read,
}

not_reference : (class : ℕ) → class < 3 → (class == 7) ≡ false
not_reference class lt = ground arith

no_continuation : (t : ℕ) → t < 16 → t ≢ 16
no_continuation t lt e = ground arith

module _ (s_block : Superblock) (lengths : s_block.size_of_lengths ≡ 8) (rows columns : ℕ)
    (rows_fit : rows < 2 ^ 63) (columns_fit : columns < 2 ^ 63)
    (elems_fit : rows * columns < 2 ^ 63) where
  module _ (some_rows : 0 < rows) (some_columns : 0 < columns) (class bits size : ℕ)
      (number : class < 3) (bits_fit : bits < 256 ^ 3) (size_fits : size < 256 ^ 4)
      (datatype_size : ℕ) (tail : List ℕ) (dataspace_size : ℕ) (dataspace : List ℕ) (c : MxClassId)
      (named : c ≢ unknown_class) (real : c ≢ void_class) (datatype_fits : datatype_size < 256 ^ 2)
      (datatype_padded : round_up_8 datatype_size ≡ 8 + length tail)
      (dataspace_fits : dataspace_size < 256 ^ 2)
      (dataspace_padded : round_up_8 dataspace_size ≡ length dataspace) where
    abbrev header : Block
    header =
        matrix_header rows columns class bits size datatype_size tail dataspace_size dataspace c

    abbrev attribute : List ℕ
    attribute = class_bytes datatype_size tail dataspace_size dataspace c

    space_message :
        (rest : List ℕ) (address : ℤ)
        → read_message little_endian true s_block 1
            (space_bytes rows columns ++ rest)
            address
            initialize_object
          ≡ some (
            record initialize_object {
              shape = (matrix_object rows columns class bits size c).shape;
            },
            0,
          )
    unfolding read_message
    space_message rest address =
        rw
          (space_read s_block lengths rows columns rows_fit columns_fit elems_fit rest
            initialize_object.shape some_rows some_columns)
          refl

    type_message :
        (rest : List ℕ) (address : ℤ)
        → read_message little_endian true s_block 3
            (type_bytes class bits size ++ rest)
            address
            (record initialize_object {
              shape = (matrix_object rows columns class bits size c).shape;
            })
          ≡ some (
            record (matrix_object rows columns class bits size c) {
              attributes = initialize_object.attributes;
            },
            0,
          )
    unfolding read_message
    type_message rest address =
        rw
          (read_data_type_message-number class bits size rest initialize_object.data_type number
            bits_fit size_fits (omega arith))
          refl

    class_message :
        (address : ℤ)
        → read_message little_endian true s_block 12
            (class_bytes datatype_size tail dataspace_size dataspace c ++ [])
            address
            (record (matrix_object rows columns class bits size c) {
              attributes = initialize_object.attributes;
            })
          ≡ some (matrix_object rows columns class bits size c, 0)
    unfolding read_message
    class_message address =
        ap
          (λ l.
            read_attribute_message little_endian true l
              (record (matrix_object rows columns class bits size c) {
                attributes = initialize_object.attributes;
              }))
          (append-nil attribute
            ∙ ap
                (attribute_bytes 0 class_attribute (0 ∷ 0 ∷ 0 ∷ []) datatype_size
                  (19 ∷ 0 ∷ 0 ∷ 0 ∷ (le_bytes 4 (length (class_name c)) ++ tail)) dataspace_size
                  dataspace)
                (sym (append-nil (class_name c))))
        ∙ read_attribute_message-class_name 0 (0 ∷ 0 ∷ 0 ∷ []) datatype_size (19 ∷ 0 ∷ 0 ∷ 0 ∷ [])
            tail dataspace_size dataspace [] c
            (record (matrix_object rows columns class bits size c) {
              attributes = initialize_object.attributes;
            })
            named real refl refl datatype_fits datatype_padded dataspace_fits dataspace_padded

    process-matrix :
        (address : ℤ)
        → process s_block header address 0 [] initialize_object
          ≡ some (matrix_object rows columns class bits size c, 0)
    process-matrix address =
        rw
          (
            space_message (encode (plain 3 no_flags (type_bytes class bits size) last)) _,
            type_message (encode last) _,
            class_message _,
          )
          refl
      where
        last : Block
        last = plain 12 no_flags attribute end

    -- The header of a matrix of numbers with one row and one column or more, their numbers and the
    -- product of them below 2 ^ 63, with messages for its dimensions, its type and its class (not
    -- the unknown class, nor that of sparse arrays), on a little-endian machine with memory and for
    -- offsets and lengths of eight bytes: `collectMetaData` on a new object, whose super object is
    -- not sparse, does not fail and gives the object the rows, the columns, their product, the type
    -- and the class that the messages say.
    pub collect_meta_data-matrix :
        (file : List ℕ) (address : ℤ) (start : Collected)
        → s_block.size_of_offsets ≡ 8
        → length (class_bytes datatype_size tail dataspace_size dataspace c) < 256 ^ 2
        → at_address file address (
            length (
              encode (
                matrix_header rows columns class bits size datatype_size tail dataspace_size
                  dataspace c)))
          ≡ some (
              encode (
                matrix_header rows columns class bits size datatype_size tail dataspace_size
                  dataspace c))
        → start.object ≡ initialize_object
        → start.super_object.attributes.matlab_sparse ≡ false
        → collect_meta_data little_endian true s_block file start address 3 (
            length (
              encode (
                matrix_header rows columns class bits size datatype_size tail dataspace_size
                  dataspace c)))
          ≡ some (record start { object = matrix_object rows columns class bits size c }, 0)
    collect_meta_data-matrix file address start offsets class_fits placed new above =
        collect_meta_data-plain little_endian true s_block file start address 3
          (length (encode header)) 2 (matrix_object rows columns class bits size c)
          (ap
              (λ o.
                interpret_messages little_endian true s_block file 3 o address
                  (length (encode header)) 0 0)
              new
            ∙ interpret_messages-process s_block offsets lengths file 3 (omega arith) header address
                initialize_object written (omega (arith, class_fits, lens)) placed refl
            ∙ ap (λ r. r >>= finish 3 3) (process-matrix address))
          refl refl (not_reference class number) above
      where
        written : IsWritten s_block file header
        written = (
          omega arith,
          no_continuation 1 (omega arith),
          omega arith,
          refl,
          (
            omega arith,
            no_continuation 3 (omega arith),
            omega arith,
            refl,
            (omega arith, no_continuation 12 (omega arith), class_fits, refl, tt),
          ),
        )

        lens : length (encode header) ≡ 56 + length attribute
        lens = omega (arith, ap length (append-nil attribute))
