-- ===== src/Message/Attribute/Encoded.antt =====
-- An attribute message of version 1, as it is written, read by `readAttributeMessage`.
use getmatvar.Common.{
  ℕ, suc, ◌+◌, ◌^◌, ◌≤◌, ◌<◌, ◌≡◌, ◌≢◌, refl, ap, ◌∙◌, Bool, true, false, some, List, [], ◌∷◌, ◌++◌,
  arith, length, length-append, drop, take-append_left, drop-append_left, append_assoc, ltb,
  ==_false,
}
use getmatvar.Ezq.Walk.Search.{same_text}
use getmatvar.NumberHelper.{little_endian, round_up_8}
use getmatvar.NumberHelper.Encoded.{le_bytes, read-le_bytes}
use getmatvar.Superblock.Encoded.{drop-past}
use getmatvar.Message.Datatype.{first_byte}
use getmatvar.Message.Class.{
  MxClassId, unknown_class, cell_class, struct_class, logical_class, char_class, void_class,
  double_class, single_class, int8_class, uint8_class, int16_class, uint16_class, int32_class,
  uint32_class, int64_class, uint64_class, function_class, opaque_class, object_class, class_name,
  selected,
}
use getmatvar.Message.Attribute.{
  MetaData, strncpy, text_of, bytes_of, read_attribute, read_attribute_message, class_attribute,
  name_length,
}

-- No character of the text is 0.
abbrev pub IsText : List ℕ → Type 0
IsText [] = Unit
IsText (c ∷ cs) = (c ≢ 0) × IsText cs

-- `pad` fills up the name, and `datatype` and `dataspace` come with their own padding.
abbrev pub attribute_bytes : ℕ → List ℕ → List ℕ → ℕ → List ℕ → ℕ → List ℕ → List ℕ → List ℕ
attribute_bytes reserved name pad datatype_size datatype dataspace_size dataspace value =
    1
    ∷ reserved
    ∷ (le_bytes 2 (suc (length name))
        ++ (le_bytes 2 datatype_size
            ++ (le_bytes 2 dataspace_size
                ++ (name ++ 0 ∷ (pad ++ (datatype ++ (dataspace ++ value)))))))

strncpy-text :
    (name rest : List ℕ) → IsText name → strncpy (suc (length name)) (name ++ 0 ∷ rest) ≡ some name
unfolding strncpy
strncpy-text [] rest text = refl
strncpy-text (c ∷ name) rest text = rw (==_false c 0 text.0, strncpy-text name rest text.1) refl

text_of-class_name : (c : MxClassId) → text_of (class_name c) ≡ class_name c
unfolding text_of
text_of-class_name unknown_class = refl
text_of-class_name cell_class = refl
text_of-class_name struct_class = refl
text_of-class_name logical_class = refl
text_of-class_name char_class = refl
text_of-class_name void_class = refl
text_of-class_name double_class = refl
text_of-class_name single_class = refl
text_of-class_name int8_class = refl
text_of-class_name uint8_class = refl
text_of-class_name int16_class = refl
text_of-class_name uint16_class = refl
text_of-class_name int32_class = refl
text_of-class_name uint32_class = refl
text_of-class_name int64_class = refl
text_of-class_name uint64_class = refl
text_of-class_name function_class = refl
text_of-class_name opaque_class = refl
text_of-class_name object_class = refl

module _ (reserved : ℕ) (name pad : List ℕ) (datatype_size : ℕ) (datatype : List ℕ)
    (dataspace_size : ℕ) (dataspace value : List ℕ) (text : IsText name)
    (short : suc (length name) ≤ name_length)
    (padded : round_up_8 (suc (length name)) ≡ suc (length name) + length pad)
    (datatype_fits : datatype_size < 256 ^ 2)
    (datatype_padded : round_up_8 datatype_size ≡ length datatype)
    (dataspace_fits : dataspace_size < 256 ^ 2)
    (dataspace_padded : round_up_8 dataspace_size ≡ length dataspace) where
  abbrev message : List ℕ
  message = attribute_bytes reserved name pad datatype_size datatype dataspace_size dataspace value

  abbrev behind_name : List ℕ
  behind_name = datatype ++ (dataspace ++ value)

  at_behind : (k : ℕ) → drop (8 + (suc (length name) + length pad) + k) message ≡ drop k behind_name
  at_behind k =
      ap (λ (j : ℕ). drop j message) (into_name (length name) (length pad) k)
      ∙ drop-past name (0 ∷ (pad ++ behind_name)) (length name) (suc (length pad + k)) refl
      ∙ drop-past pad behind_name (length pad) k refl
    where
      into_name :
          (n p k : ℕ)
          → 8 + (suc n + p) + k ≡ suc (suc (suc (suc (suc (suc (suc (suc (n + suc (p + k)))))))))
      into_name n p k = omega arith

  at_value :
      drop (8 + (suc (length name) + length pad) + length datatype + length dataspace) message
      ≡ value
  at_value =
      ap (λ (j : ℕ). drop j message)
        (past (8 + (suc (length name) + length pad)) (length datatype) (length dataspace))
      ∙ at_behind (length datatype + length dataspace)
      ∙ drop-past datatype (dataspace ++ value) (length datatype) (length dataspace) refl
      ∙ drop-append_left dataspace value (length dataspace) refl
    where
      past : (a b c : ℕ) → a + b + c ≡ a + (b + c)
      past a b c = omega arith

  pub read_attribute_message-written :
      (has_memory : Bool) (object : MetaData)
      → read_attribute_message little_endian has_memory
          (attribute_bytes reserved name pad datatype_size datatype dataspace_size dataspace value)
          object
        ≡ read_attribute little_endian has_memory name
            (drop 4 (datatype ++ (dataspace ++ value)))
            value
            object
  unfolding read_attribute_message
  read_attribute_message-written has_memory object =
      rw
        (
          first_byte _ _,
          read-le_bytes 2 (suc (length name)) _ (omega arith) (omega (arith, short)),
          read-le_bytes 2 datatype_size _ (omega arith) datatype_fits,
          read-le_bytes 2 dataspace_size _ (omega arith) dataspace_fits,
          not_long,
          name_read,
          padded,
          datatype_padded,
          dataspace_padded,
          at_behind 4,
          at_value,
        )
        refl
    where
      name_read : strncpy (suc (length name)) (drop 8 message) ≡ some name
      name_read = strncpy-text name (pad ++ behind_name) text

      not_long : ltb name_length (suc (length name)) ≡ false
      not_long = ground (arith, short)

short_name : (c : MxClassId) → length (class_name c) < 20
short_name unknown_class = omega arith
short_name cell_class = omega arith
short_name struct_class = omega arith
short_name logical_class = omega arith
short_name char_class = omega arith
short_name void_class = omega arith
short_name double_class = omega arith
short_name single_class = omega arith
short_name int8_class = omega arith
short_name uint8_class = omega arith
short_name int16_class = omega arith
short_name uint16_class = omega arith
short_name int32_class = omega arith
short_name uint32_class = omega arith
short_name int64_class = omega arith
short_name uint64_class = omega arith
short_name function_class = omega arith
short_name opaque_class = omega arith
short_name object_class = omega arith

fits_word : (c : MxClassId) → length (class_name c) < 256 ^ 4
fits_word c = omega (arith, short_name c)

bytes_of-append : (xs rest : List ℕ) → bytes_of (length xs) (xs ++ rest) ≡ some xs
unfolding bytes_of
bytes_of-append xs rest = rw (enough, take-append_left xs rest (length xs) refl) refl
  where
    enough : ltb (length (xs ++ rest)) (length xs) ≡ false
    enough = ground (arith, length-append xs rest)

-- An attribute MATLAB_class of version 1 with the name of a class, on a little-endian machine with
-- memory: `readAttributeMessage` does not fail, keeps the name and gives the object that class.
pub read_attribute_message-class_name :
    (reserved : ℕ) (pad : List ℕ) (datatype_size : ℕ) (head tail : List ℕ) (dataspace_size : ℕ)
    (dataspace rest : List ℕ) (c : MxClassId) (object : MetaData)
    → c ≢ unknown_class
    → c ≢ void_class
    → length pad ≡ 3
    → length head ≡ 4
    → datatype_size < 256 ^ 2
    → round_up_8 datatype_size ≡ 8 + length tail
    → dataspace_size < 256 ^ 2
    → round_up_8 dataspace_size ≡ length dataspace
    → read_attribute_message little_endian true
        (attribute_bytes reserved class_attribute pad datatype_size
          (head ++ (le_bytes 4 (length (class_name c)) ++ tail))
          dataspace_size
          dataspace
          (class_name c ++ rest))
        object
      ≡ some (
        record object {
          attributes = record (object.attributes) {
            matlab_class = class_name c;
            matlab_internal_type = c;
          };
        },
        0,
      )
unfolding read_attribute same_text round_up_8
read_attribute_message-class_name reserved pad datatype_size head tail dataspace_size dataspace rest
      c object named real three four datatype_fits datatype_padded dataspace_fits dataspace_padded =
    read_attribute_message-written reserved class_attribute pad datatype_size datatype
      dataspace_size dataspace value is_text (omega arith) (omega (arith, three)) datatype_fits
      (omega (arith, datatype_padded, datatype_length)) dataspace_fits dataspace_padded true object
    ∙ rw
        (
          size_place,
          read-le_bytes 4 (length (class_name c)) _ (omega arith) (fits_word c),
          bytes_of-append (class_name c) rest,
          text_of-class_name c,
          selected c object.attributes.matlab_internal_type named real,
        )
        refl
  where
    value : List ℕ
    value = class_name c ++ rest

    datatype : List ℕ
    datatype = head ++ (le_bytes 4 (length (class_name c)) ++ tail)

    datatype_length : length datatype ≡ 8 + length tail
    datatype_length =
        omega (arith, length-append head (le_bytes 4 (length (class_name c)) ++ tail), four)

    is_text : IsText class_attribute
    is_text = ground arith

    size_place :
        drop 4 (datatype ++ (dataspace ++ value))
        ≡ le_bytes 4 (length (class_name c)) ++ (tail ++ (dataspace ++ value))
    size_place =
        ap (drop 4)
          (append_assoc head (le_bytes 4 (length (class_name c)) ++ tail) (dataspace ++ value))
        ∙ drop-append_left head _ 4 four
