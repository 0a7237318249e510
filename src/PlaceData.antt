-- ===== src/PlaceData.antt =====
-- src/placeData.c: `allocateSpace`, which gives an object its arrays, and `placeData` and
-- `placeDataWithIndexMap`, which copy elements of a buffer to them. An array is the list of its
-- bytes, or `none` for NULL; an access outside an array is a fault (`none`). `mxMalloc` is a
-- parameter: what it gives for a number of bytes. Indices are at least 0, as a copy to a place
-- before an array has no meaning. The products of sizes in a copy are not wrapped: one of 2^64 or
-- more lies outside every array.
pub mod Copies
pub mod Sums
pub mod Rows
pub mod Chunks
pub mod Inflated
pub mod Allocated
pub mod Mapped
mod Tests
use getmatvar.Common.{
  ℕ, zero, suc, ◌+◌, ◌*◌, ◌-◌, ◌%◌, ◌^◌, Bool, true, false, Option, none, some, List, [], ◌∷◌, ◌++◌,
  length, take, drop, get_or, ltb, leb, ◌==◌, if◌then◌else◌, ◌&&◌, pos_part,
}
use getmatvar.ChunkedData.Copy.{PlaceCall}
use getmatvar.NumberHelper.{ByteOrder, same_order, reverse_bytes, ◌>>=◌}
use getmatvar.Message.Class.{
  MxClassId, unknown_class, cell_class, struct_class, logical_class, char_class, double_class,
  single_class, int8_class, uint8_class, int16_class, uint16_class, int32_class, uint32_class,
  int64_class, uint64_class, function_class, opaque_class, object_class, void_class,
}

-- The fields of the object that are read or set, `data_array` being `data_arrays.data`.
pub record Object : Type 0 where
  pub matlab_internal_type : MxClassId
  pub is_struct_array : Bool
  pub num_elems : ℕ
  pub num_dims : ℕ
  pub dims : List ℕ
  pub elem_size : ℕ
  pub data_array : Option (List ℕ)
  pub sub_object_header_offsets : Option (List ℕ)

-- What the cases of the two functions do: elements of numbers, addresses of cells, a struct or a
-- function, nothing, or the unknown class. `mxSPARSE_CLASS` is `mxVOID_CLASS`.
pub data CaseOf : Type 0 where
  numbers cells structs nothing unknown : CaseOf

unfoldable pub case_of : MxClassId → CaseOf
case_of int8_class = numbers
case_of uint8_class = numbers
case_of int16_class = numbers
case_of uint16_class = numbers
case_of int32_class = numbers
case_of uint32_class = numbers
case_of int64_class = numbers
case_of uint64_class = numbers
case_of single_class = numbers
case_of double_class = numbers
case_of logical_class = numbers
case_of char_class = numbers
case_of cell_class = cells
case_of struct_class = structs
case_of function_class = structs
case_of object_class = nothing
case_of void_class = nothing
case_of opaque_class = nothing
case_of unknown_class = unknown

-- The error code for what `mxMalloc` gave.
unfoldable pub code_of : Option (List ℕ) → ℕ
code_of none = 1
code_of (some a) = 0

unfoldable pub allocate_case : (ℕ → Option (List ℕ)) → CaseOf → Object → ℕ × Object
unfolding code_of
allocate_case mx_malloc numbers o =
    if ltb 16 o.elem_size
    then (1, o)
    else (let a = mx_malloc (o.num_elems * o.elem_size % 2 ^ 64) in
        (code_of a, record o { data_array = a }))
allocate_case mx_malloc cells o =
    if ltb 16 o.elem_size
    then (1, o)
    else (let a = mx_malloc (o.num_elems * 8 % 2 ^ 64) in
        (code_of a, record o { sub_object_header_offsets = a }))
allocate_case mx_malloc structs o =
    (0, record o { num_elems = 1; num_dims = 2; dims = 1 ∷ 1 ∷ 0 ∷ [] })
allocate_case mx_malloc nothing o = (0, o)
allocate_case mx_malloc unknown o = (1, o)

-- The error code and the object; the allocation of three dimensions is taken to succeed.
unfoldable pub allocate_space : (ℕ → Option (List ℕ)) → Object → ℕ × Object
unfolding case_of allocate_case
allocate_space mx_malloc o = allocate_case mx_malloc (case_of o.matlab_internal_type) o

-- `n` bytes of `src` from `s` on, to `dst` from `d` on.
unfoldable pub memcpy : Option (List ℕ) → ℕ → List ℕ → ℕ → ℕ → Option (List ℕ)
memcpy none d src s n = none
memcpy (some dst) d src s n =
    if leb (d + n) (length dst) && leb (s + n) (length src)
    then some (take d dst ++ (take n (drop s src) ++ drop (d + n) dst))
    else none

-- `for(index_t j = 0; j < num_elems; j += elem_size)`, on fuel; where `elem_size` is not 0,
-- `num_elems` rounds are enough.
unfoldable pub reverse_elems : ℕ → ℕ → List ℕ → ℕ → ℕ → Option (List ℕ)
reverse_elems zero j data_pointer num_elems elem_size =
    if ltb j num_elems then none else some data_pointer
reverse_elems (suc fuel) j data_pointer num_elems elem_size =
    let rest =
      reverse_elems fuel (j + elem_size)
        (take j data_pointer ++ reverse_bytes (drop j data_pointer) elem_size) num_elems
        elem_size in
    if ltb j num_elems
    then if leb (j + elem_size) (length data_pointer) then rest else none
    else some data_pointer

unfoldable pub copy_cells : ℕ → ℕ → Option (List ℕ) → List ℕ → ℕ → ℕ → ℕ → Option (Option (List ℕ))
unfolding memcpy
copy_cells zero i offsets data_pointer dst_ind src_ind elem_size = some offsets
copy_cells (suc left) i offsets data_pointer dst_ind src_ind elem_size =
    memcpy offsets (8 * (dst_ind + i)) data_pointer ((src_ind + i) * elem_size) 8
    >>= (λ set. copy_cells left (i + 1) (some set) data_pointer dst_ind src_ind elem_size)

unfoldable pub place_class : CaseOf → Object → List ℕ → ℕ → ℕ → ℕ → ℕ → Option Object
unfolding memcpy copy_cells
place_class numbers o data_pointer dst_ind src_ind num_elems elem_size =
    memcpy o.data_array (elem_size * dst_ind) data_pointer (elem_size * src_ind)
      (num_elems * elem_size)
    >>= (λ set. some (record o { data_array = some set }))
place_class cells o data_pointer dst_ind src_ind num_elems elem_size =
    copy_cells num_elems 0 o.sub_object_header_offsets data_pointer dst_ind src_ind elem_size
    >>= (λ set. some (record o { sub_object_header_offsets = set }))
place_class structs o data_pointer dst_ind src_ind num_elems elem_size = some o
place_class nothing o data_pointer dst_ind src_ind num_elems elem_size = some o
place_class unknown o data_pointer dst_ind src_ind num_elems elem_size =
    let copied =
      copy_cells num_elems 0 o.sub_object_header_offsets data_pointer dst_ind src_ind elem_size
      >>= (λ set. some (record o { sub_object_header_offsets = set })) in
    if o.is_struct_array then copied else some o

-- On a machine of the byte order `host`: the object and the buffer, whose bytes may be reversed.
unfoldable pub place_data :
    ByteOrder → Object → List ℕ → ℕ → ℕ → ℕ → ℕ → ByteOrder → Option (Object × List ℕ)
unfolding reverse_elems place_class case_of
place_data host o data_pointer dst_ind src_ind num_elems elem_size data_byte_order =
    (if same_order host data_byte_order
      then some data_pointer
      else reverse_elems num_elems 0 data_pointer num_elems elem_size)
    >>= (λ bytes.
        place_class (case_of o.matlab_internal_type) o bytes dst_ind src_ind num_elems elem_size
        >>= (λ set. some (set, bytes)))

-- The calls that the loop of `doInflate_` makes, one after the other, on the buffer of the chunk.
unfoldable pub place_calls :
    ByteOrder → List PlaceCall → Object → List ℕ → ByteOrder → Option (Object × List ℕ)
unfolding place_data
place_calls host [] o buffer data_byte_order = some (o, buffer)
place_calls host (c ∷ calls) o buffer data_byte_order =
    place_data host o buffer (pos_part c.dst_ind) (pos_part c.src_ind) (pos_part c.num_elems)
      o.elem_size data_byte_order
    >>= (λ placed. place_calls host calls placed.0 placed.1 data_byte_order)

-- `xs[i]`
abbrev pub index_at : List ℕ → ℕ → Option ℕ
index_at xs i = if ltb i (length xs) then some (get_or xs i 0) else none

-- The loop over an index map, whose entries in the array are `width` bytes apart.
unfoldable pub index_map_loop :
    ℕ → ℕ → ℕ → Option (List ℕ) → List ℕ → ℕ → List ℕ → List ℕ → Option (Option (List ℕ))
unfolding memcpy
index_map_loop zero j width array data_pointer elem_size index_map index_sequence = some array
index_map_loop (suc left) j width array data_pointer elem_size index_map index_sequence =
    index_at index_sequence j >>= (λ i. index_at index_map i >>= (λ k.
      memcpy array (width * (elem_size * k)) data_pointer (i * elem_size) elem_size >>= (λ set.
        index_map_loop left (j + 1) width (some set) data_pointer elem_size index_map
          index_sequence)))

-- `sub_object_header_offsets` points to addresses of eight bytes, `data` to bytes.
unfoldable pub place_class_with_index_map :
    CaseOf → Object → List ℕ → ℕ → ℕ → List ℕ → List ℕ → Option Object
unfolding index_map_loop
place_class_with_index_map numbers o data_pointer num_elems elem_size index_map index_sequence =
    index_map_loop num_elems 0 1 o.data_array data_pointer elem_size index_map index_sequence
    >>= (λ set. some (record o { data_array = set }))
place_class_with_index_map cells o data_pointer num_elems elem_size index_map index_sequence =
    index_map_loop num_elems 0 8 o.sub_object_header_offsets data_pointer elem_size index_map
      index_sequence
    >>= (λ set. some (record o { sub_object_header_offsets = set }))
place_class_with_index_map structs o data_pointer num_elems elem_size index_map index_sequence =
    some o
place_class_with_index_map nothing o data_pointer num_elems elem_size index_map index_sequence =
    some o
place_class_with_index_map unknown o data_pointer num_elems elem_size index_map index_sequence =
    some o

unfoldable pub place_data_with_index_map :
    ByteOrder → Object → List ℕ → ℕ → ℕ → ByteOrder → List ℕ → List ℕ → Option (Object × List ℕ)
unfolding reverse_elems place_class_with_index_map case_of
place_data_with_index_map host o data_pointer num_elems elem_size data_byte_order index_map
      index_sequence =
    (if same_order host data_byte_order
      then some data_pointer
      else reverse_elems num_elems 0 data_pointer num_elems elem_size)
    >>= (λ bytes.
        place_class_with_index_map (case_of o.matlab_internal_type) o bytes num_elems elem_size
          index_map index_sequence
        >>= (λ set. some (set, bytes)))
