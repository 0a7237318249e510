-- ===== src/FillObject/Tests.antt =====
-- Headers in a file of few bytes.
use getmatvar.Common.{
  ◌∷◌, ℕ, ◌≡◌, ◌≢◌, refl, ap, +ℤ-pos, true, false, some, List, [], ◌++◌, arith, length, pos,
  replicate,
}
use getmatvar.NumberHelper.{little_endian, ◌>>=◌, round_up_8}
use getmatvar.Superblock.{Superblock}
use getmatvar.Navigate.{at_address}
use getmatvar.Ezq.Walk.Search.{same_text}
use getmatvar.Message.Class.{double_class, unknown_class, void_class}
use getmatvar.Message.Attribute.{initialize_object}
use getmatvar.FillObject.{messages_loop, interpret_messages}
use getmatvar.FillObject.Ends.{interpret_messages-ends}
use getmatvar.FillObject.Headers.{Block, end, plain, continued, encode, process, IsWritten}
use getmatvar.FillObject.Rounds.{finish}
use getmatvar.FillObject.Written.{interpret_messages-process}
use getmatvar.FillObject.Collect.{Collected, collect_meta_data}
use getmatvar.FillObject.MatrixBytes.{
  matrix_header, matrix_object, no_flags, space_bytes, type_bytes,
}
use getmatvar.FillObject.Matrix.{collect_meta_data-matrix}

abbrev eight_bytes : Superblock
eight_bytes = record {
  size_of_offsets = 8;
  size_of_lengths = 8;
  leaf_node_k = 4;
  internal_node_k = 16;
  sym_table_entry_size = 40;
  base_address = pos 0;
  root_tree_address = pos 136;
  root_heap_address = pos 680;
}

-- A type in a continuation, and another one behind it, which is not in the same block.
abbrev inner : Block
inner = plain 3 no_flags (type_bytes 1 0 8) end

abbrev outer : Block
outer =
    plain 1 no_flags (space_bytes 3 5)
      (continued no_flags 0 inner (plain 3 no_flags (type_bytes 0 0 4) end))

abbrev two_blocks : List ℕ
two_blocks = encode inner ++ encode outer

is_written : IsWritten eight_bytes two_blocks outer
unfolding same_text
is_written = (
  omega arith,
  (λ e. ground arith),
  omega arith,
  refl,
  (
    refl,
    omega arith,
    refl,
    omega arith,
    ap (λ a. at_address two_blocks a (length (encode inner))) (+ℤ-pos 0 0),
    (omega arith, (λ e. ground arith), omega arith, refl, tt),
    (omega arith, (λ e. ground arith), omega arith, refl, tt),
  ),
)

interpret_messages-process_example :
    interpret_messages little_endian true eight_bytes two_blocks 4 initialize_object
      (pos 16)
      (length (encode outer))
      0
      0
    ≡ (process eight_bytes outer (pos 16) 0 [] initialize_object >>= finish 4 4)
interpret_messages-process_example =
    interpret_messages-process eight_bytes refl refl two_blocks 4 (omega arith) outer (pos 16)
      initialize_object is_written (omega arith) refl refl

abbrev one_header : List ℕ
one_header = encode (matrix_header 3 5 1 2107424 8 8 [] 8 (replicate 8 0) double_class)

abbrev new_variable : Collected
new_variable = record {
  object = initialize_object;
  super_object = initialize_object;
  is_struct_array = false;
  matlab_sparse_type = unknown_class;
}

differs_unknown : double_class ≢ unknown_class
differs_unknown e = ground arith

differs_void : double_class ≢ void_class
differs_void e = ground arith

collect_meta_data-matrix_example :
    collect_meta_data little_endian true eight_bytes one_header new_variable
      (pos 0)
      3
      (length one_header)
    ≡ some (record new_variable { object = matrix_object 3 5 1 2107424 8 double_class }, 0)
unfolding round_up_8
collect_meta_data-matrix_example =
    collect_meta_data-matrix eight_bytes refl 3 5 (omega arith) (omega arith) (omega arith)
      (omega arith) (omega arith) 1 2107424 8 (omega arith) (omega arith) (omega arith) 8 [] 8
      (replicate 8 0) double_class differs_unknown differs_void (omega arith) refl (omega arith)
      refl one_header (pos 0) new_variable refl (omega arith) refl refl refl

-- A continuation of 24 bytes at the place of the message itself.
abbrev circle_file : List ℕ
circle_file =
    16 ∷ 0 ∷ 16 ∷ 0 ∷ 0 ∷ 0 ∷ 0 ∷ 0 ∷ (replicate 8 0 ++ (24 ∷ 0 ∷ 0 ∷ 0 ∷ 0 ∷ 0 ∷ 0 ∷ 0 ∷ []))

interpret_messages-ends_example :
    (at_address circle_file (pos 0) 24 >>= λ start.
    messages_loop little_endian true eight_bytes circle_file 100
      (some (initialize_object, 0, 1))
      151
      start
      (pos 0)
      24
      0
      0
      0
      initialize_object)
    ≡ interpret_messages little_endian true eight_bytes circle_file 100 initialize_object
        (pos 0)
        24
        0
        0
interpret_messages-ends_example =
    interpret_messages-ends little_endian true eight_bytes circle_file 100 (omega arith)
      (some (initialize_object, 0, 1)) initialize_object (pos 0) 24 0 0 50 (omega arith)
