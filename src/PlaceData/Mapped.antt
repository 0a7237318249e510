-- ===== src/PlaceData/Mapped.antt =====
-- What `placeDataWithIndexMap` of src/placeData.c does.
use getmatvar.Common.{
  ℕ, zero, suc, ◌+◌, ◌*◌, ◌≤◌, ◌≡◌, refl, sym, ap, ap₂, ◌∙◌, true, false, Option, none, some, List,
  [], ◌∷◌, length, arith, get_or, leb, ltb, ◌<◌, Bool-cases, inl, inr, pos,
}
use getmatvar.NumberHelper.{ByteOrder, same_order, ◌>>=◌}
use getmatvar.ChunkedData.Copy.{PlaceCall}
use getmatvar.PlaceData.{
  Object, case_of, cells, memcpy, place_class, place_data, place_calls, index_map_loop,
  place_class_with_index_map, place_data_with_index_map,
}
use getmatvar.PlaceData.Copies.{IsReady}

-- One call of `placeData` for each entry of the sequence from `j` on.
abbrev pub single_calls : ℕ → ℕ → List ℕ → List ℕ → List PlaceCall
single_calls zero j index_map index_sequence = []
single_calls (suc left) j index_map index_sequence =
    record {
      dst_ind = pos (get_or index_map (get_or index_sequence j 0) 0);
      src_ind = pos (get_or index_sequence j 0);
      num_elems = pos 1;
    }
    ∷ single_calls left (j + 1) index_map index_sequence

memcpy_same :
    (array : Option (List ℕ)) (buffer : List ℕ) (size d i : ℕ)
    → memcpy array (1 * (size * d)) buffer (i * size) size
      ≡ memcpy array (size * d) buffer (size * i) (1 * size)
memcpy_same array buffer size d i =
    ap₂ (λ (x y : ℕ). memcpy array x buffer y size) (once (size * d)) (swapped i size)
    ∙ ap (λ (x : ℕ). memcpy array (size * d) buffer (size * i) x) (sym (once size))
  where
    once : (x : ℕ) → 1 * x ≡ x
    once x = omega arith

    swapped : (x y : ℕ) → x * y ≡ y * x
    swapped x y = omega arith

abbrev with_buffer : List ℕ → Object → Option (Object × List ℕ)
with_buffer buffer o = some (o, buffer)

-- The rest of the calls, and that of the loop, from what the first copy gives.
abbrev Rest :
    ByteOrder → ℕ → ℕ → Object → List ℕ → ByteOrder → List ℕ → List ℕ → Option (List ℕ) → Type 0
Rest host left j o buffer order index_map index_sequence array =
    (index_map_loop left j 1 array buffer o.elem_size index_map index_sequence
      >>= (λ set. some (record o { data_array = set }))
      >>= (λ placed. some (placed, buffer)))
    ≡ place_calls host (single_calls left j index_map index_sequence)
        (record o { data_array = array }) buffer order

first_copy :
    (host : ByteOrder) (left j : ℕ) (o : Object) (buffer : List ℕ) (order : ByteOrder)
    (index_map index_sequence : List ℕ) (copied : Option (List ℕ))
    → ((set : List ℕ) → Rest host left j o buffer order index_map index_sequence (some set))
    → ((copied >>= (λ set.
          index_map_loop left j 1 (some set) buffer o.elem_size index_map index_sequence))
        >>= (λ set. some (record o { data_array = set }))
        >>= (λ placed. some (placed, buffer)))
      ≡ ((copied >>= (λ set. some (record o { data_array = some set })))
          >>= with_buffer buffer
          >>= (λ (placed : Object × List ℕ).
              place_calls host
                (single_calls left j index_map index_sequence)
                placed.0
                placed.1
                order))
first_copy host left j o buffer order index_map index_sequence none rest = refl
first_copy host left j o buffer order index_map index_sequence (some set) rest = rest set

in_array : (i n : ℕ) → i < n → ltb i n ≡ true
in_array i n lt = ground arith

loop_calls :
    (host : ByteOrder) (left j : ℕ) (o : Object) (buffer : List ℕ) (order : ByteOrder)
    (index_map index_sequence : List ℕ)
    → IsReady host o order
    → j + left ≤ length index_sequence
    → ((k : ℕ) → k < length index_sequence → get_or index_sequence k 0 < length index_map)
    → (array : Option (List ℕ)) → Rest host left j o buffer order index_map index_sequence array
unfolding index_map_loop place_calls place_data place_class
loop_calls host zero j o buffer order index_map index_sequence is within mapped array = refl
loop_calls host (suc left) j o buffer order index_map index_sequence is within mapped array =
    rw
      (
        in_array j (length index_sequence) (omega (arith, within)),
        in_array (get_or index_sequence j 0) (length index_map) (mapped j (omega (arith, within))),
        is.same_bytes,
        is.of_numbers,
        memcpy_same array buffer o.elem_size (get_or index_map (get_or index_sequence j 0) 0)
            (get_or index_sequence j 0),
      )
      (first_copy host left (j + 1) o buffer order index_map index_sequence _ (λ set.
        loop_calls host left (j + 1) o buffer order index_map index_sequence is
          (omega (arith, within)) mapped (some set)))

-- For an object of numbers and bytes in the machine's order, no more elements than the sequence
-- has, and the entries of the sequence within the map: `placeDataWithIndexMap` does what
-- `placeData` does of one element at a time, from each place of the sequence to that which the map
-- gives for it.
pub place_data_with_index_map-place_calls :
    (host : ByteOrder) (o : Object) (buffer : List ℕ) (count : ℕ) (order : ByteOrder)
    (index_map index_sequence : List ℕ)
    → IsReady host o order
    → count ≤ length index_sequence
    → ((k : ℕ) → k < length index_sequence → get_or index_sequence k 0 < length index_map)
    → place_data_with_index_map host o buffer count o.elem_size order index_map index_sequence
      ≡ place_calls host (single_calls count 0 index_map index_sequence) o buffer order
unfolding place_data_with_index_map place_class_with_index_map
place_data_with_index_map-place_calls host o buffer count order index_map index_sequence is within
      mapped =
    rw (is.same_bytes, is.of_numbers)
      (loop_calls host count 0 o buffer order index_map index_sequence is (omega (arith, within))
        mapped o.data_array)

-- For a cell array with an address of eight bytes for each of its elements, and bytes in the
-- machine's order: to copy an address to a place `k` of the array is a fault where `8 * k` is not
-- below the number of its elements, though `k` may be.
pub place_data_with_index_map-fault :
    (host : ByteOrder) (o : Object) (cell_addresses buffer : List ℕ) (order : ByteOrder)
    (index_map index_sequence : List ℕ)
    → case_of o.matlab_internal_type ≡ cells
    → same_order host order ≡ true
    → o.sub_object_header_offsets ≡ some cell_addresses
    → length cell_addresses ≡ 8 * o.num_elems
    → o.num_elems ≤ 8 * get_or index_map (get_or index_sequence 0 0) 0
    → place_data_with_index_map host o buffer 1 8 order index_map index_sequence ≡ none
unfolding place_data_with_index_map place_class_with_index_map index_map_loop memcpy
place_data_with_index_map-fault host o cell_addresses buffer order index_map index_sequence of_cells
      same given long far =
    elim (Bool-cases (ltb 0 (length index_sequence))) [
      | inr none_there ↦ rw (same, of_cells, given, none_there) refl
      | inl there ↦ elim (Bool-cases (ltb (get_or index_sequence 0 0) (length index_map))) [
        | inr outside ↦ rw (same, of_cells, given, there, outside) refl
        | inl inside ↦ rw (same, of_cells, given, there, inside, past) refl
      ]
    ]
  where
    past :
        leb (8 * (8 * get_or index_map (get_or index_sequence 0 0) 0) + 8) (length cell_addresses)
        ≡ false
    past = ground (arith, long, far)
