-- ===== src/PlaceData/Tests.antt =====
-- An array of 3 by 2 bytes, in chunks of 2 by 2, of which the second lies over the edge.
use getmatvar.Common.{
  replicate, ℕ, ◌≡◌, ◌⊎◌, ◌<◌, inl, refl, false, Option, none, some, List, [], ◌∷◌, map, arith,
  get_or, pos, ◌==◌, if◌then◌else◌,
}
use getmatvar.NumberHelper.{little_endian, big_endian, reverse_bytes, same_order}
use getmatvar.Message.Class.{uint8_class, cell_class}
use getmatvar.PlaceData.Mapped.{
  single_calls, place_data_with_index_map-place_calls, place_data_with_index_map-fault,
}
use getmatvar.ChunkedData.Copy.{copy_chunk}
use getmatvar.ChunkedData.Copy.Layouts.{IsChunk, chunked_object}
use getmatvar.PlaceData.{
  Object, case_of, allocate_space, place_data, place_calls, place_data_with_index_map,
}
use getmatvar.PlaceData.Copies.{IsReady}
use getmatvar.PlaceData.Inflated.{inflated-inside, inflated-outside}
use getmatvar.PlaceData.Allocated.{
  GivesSize, Succeeds, allocate_space-place_data, place_data-first_reversed,
}

abbrev some_object : Object
some_object = record {
  matlab_internal_type = uint8_class;
  is_struct_array = false;
  num_elems = 6;
  num_dims = 2;
  dims = 3 ∷ 2 ∷ [];
  elem_size = 1;
  data_array = none;
  sub_object_header_offsets = none;
}

abbrev zeros : List ℕ
zeros = 0 ∷ 0 ∷ 0 ∷ 0 ∷ 0 ∷ 0 ∷ []

abbrev bytes : List ℕ
bytes = 1 ∷ 2 ∷ 3 ∷ 4 ∷ []

some_object-IsReady : IsReady little_endian some_object little_endian
unfolding case_of same_order
some_object-IsReady = record { of_numbers = refl; same_bytes = refl }

corner-IsChunk : IsChunk 2 (2 ∷ 2 ∷ []) (2 ∷ 0 ∷ []) (3 ∷ 2 ∷ [])
corner-IsChunk = record {
  some_dims = omega arith;
  few_dims = omega arith;
  sides = λ k lt. ground arith;
  inside = λ k lt. ground arith;
}

inflated-inside_example :
    (out : List ℕ) × (place_calls little_endian
        (copy_chunk (chunked_object 2 (2 ∷ 2 ∷ []) (3 ∷ 2 ∷ [])) (map pos (2 ∷ 0 ∷ [])))
        (record some_object { data_array = some zeros })
        bytes
        little_endian
      ≡ some (record some_object { data_array = some out }, bytes))
    × (get_or out 5 0 ≡ 3)
inflated-inside_example =
    inflated-inside little_endian some_object little_endian 1 (2 ∷ 2 ∷ []) (2 ∷ 0 ∷ []) (3 ∷ 2 ∷ [])
      zeros bytes corner-IsChunk some_object-IsReady refl refl (0 ∷ 1 ∷ []) 0 (omega arith)
      (λ k lt. ground arith)

inflated-outside_example :
    (out : List ℕ) × (place_calls little_endian
        (copy_chunk (chunked_object 2 (2 ∷ 2 ∷ []) (3 ∷ 2 ∷ [])) (map pos (2 ∷ 0 ∷ [])))
        (record some_object { data_array = some zeros })
        bytes
        little_endian
      ≡ some (record some_object { data_array = some out }, bytes))
    × (get_or out 4 0 ≡ 0)
inflated-outside_example =
    inflated-outside little_endian some_object little_endian 1 (2 ∷ 2 ∷ []) (2 ∷ 0 ∷ [])
      (3 ∷ 2 ∷ []) zeros bytes corner-IsChunk some_object-IsReady refl refl (1 ∷ 1 ∷ []) 0 0
      (omega arith) (λ k lt. ground arith) (omega arith) (inl (omega arith))

abbrev malloc_6 : ℕ → Option (List ℕ)
malloc_6 n = if n == 6 then some zeros else none

malloc_6-GivesSize : GivesSize malloc_6
malloc_6-GivesSize n a e = ground (arith, e)

allocate_space-place_data_example :
    (((allocate_space malloc_6 some_object).0 ≡ 1) × ((16 < 1) ⊎ (malloc_6 6 ≡ none)))
    ⊎ Succeeds little_endian some_object bytes 2 1 3 little_endian
        (allocate_space malloc_6 some_object)
allocate_space-place_data_example =
    allocate_space-place_data malloc_6 little_endian some_object little_endian bytes 2 1 3
      malloc_6-GivesSize some_object-IsReady (omega arith) (omega arith) (omega arith)

place_data-first_reversed_example :
    place_data little_endian
      (record some_object { data_array = some zeros })
      bytes
      0
      2
      1
      2
      big_endian
    ≡ place_data little_endian
        (record some_object { data_array = some zeros })
        (reverse_bytes bytes 2)
        0
        2
        1
        2
        little_endian
unfolding same_order
place_data-first_reversed_example =
    place_data-first_reversed little_endian (record some_object { data_array = some zeros })
      big_endian bytes 0 2 1 2 refl (omega arith) (omega arith) (omega arith)

place_data_with_index_map-place_calls_example :
    place_data_with_index_map little_endian
      (record some_object { data_array = some zeros })
      bytes
      2
      1
      little_endian
      (1 ∷ 0 ∷ [])
      (0 ∷ 1 ∷ [])
    ≡ place_calls little_endian
        (single_calls 2 0 (1 ∷ 0 ∷ []) (0 ∷ 1 ∷ []))
        (record some_object { data_array = some zeros })
        bytes
        little_endian
place_data_with_index_map-place_calls_example =
    place_data_with_index_map-place_calls little_endian
      (record some_object { data_array = some zeros }) bytes 2 little_endian (1 ∷ 0 ∷ [])
      (0 ∷ 1 ∷ [])
      (record {
        of_numbers = some_object-IsReady.of_numbers;
        same_bytes = some_object-IsReady.same_bytes;
      })
      (omega arith) (λ k lt. ground arith)

-- Two cells.
abbrev some_cells : Object
some_cells = record some_object {
  matlab_internal_type = cell_class;
  num_elems = 2;
  elem_size = 8;
  sub_object_header_offsets = some (replicate 16 0);
}

place_data_with_index_map-fault_example :
    place_data_with_index_map little_endian some_cells
      (replicate 8 7)
      1
      8
      little_endian
      (1 ∷ [])
      (0 ∷ [])
    ≡ none
unfolding case_of same_order
place_data_with_index_map-fault_example =
    place_data_with_index_map-fault little_endian some_cells (replicate 16 0) (replicate 8 7)
      little_endian (1 ∷ []) (0 ∷ []) refl refl refl refl (omega arith)
