-- ===== src/ChunkedData/Tests.antt =====
-- An array of 5 by 7 by 2 elements, in chunks of 3 by 4 by 2.
use getmatvar.Common.{ℕ, ◌≡◌, [], ◌∷◌, List, map, arith, get_or, replicate, refl, pos, ◌+ℤ◌}
use getmatvar.ChunkedData.{coord_to_ind, find_array_position, make_chunked_updates}
use mathlib.Core.List.{Memᴰ}
use getmatvar.ChunkedData.Copy.{PlaceCall, copy_loop, layout, copy_chunk}
use getmatvar.ChunkedData.Copy.Rows.{rows_of}
use getmatvar.ChunkedData.Copy.Sides.{sides_of}
use getmatvar.ChunkedData.Copy.Layouts.{IsChunk, chunked_object}
use getmatvar.ChunkedData.Copy.Places.{Ends}
use getmatvar.ChunkedData.Copy.Whole.{
  copy_chunk-rows_of, copy_chunk-ends, copy_chunk-covers, copy_chunk-Ends,
}
use getmatvar.ChunkedData.Position.{find_array_position-injective, coord_to_ind-find_array_position}
use getmatvar.ChunkedData.Updates.{make_chunked_updates-step}

abbrev some_dims : List ℕ
some_dims = 5 ∷ 7 ∷ 2 ∷ []

abbrev some_chunk : List ℕ
some_chunk = 3 ∷ 4 ∷ 2 ∷ []

coord_to_ind-find_array_position_example :
    coord_to_ind (pos 2 ∷ pos 3 ∷ pos 1 ∷ []) (map pos some_dims) 3
    ≡ find_array_position (pos 1 ∷ pos 2 ∷ pos 0 ∷ []) (map pos some_dims) 3
coord_to_ind-find_array_position_example =
    coord_to_ind-find_array_position (2 ∷ 3 ∷ 1 ∷ []) some_dims 3 (λ k lt. ground arith)

find_array_position-injective_example :
    get_or {A = ℕ} (1 ∷ 2 ∷ 0 ∷ []) 1 0 ≡ get_or {A = ℕ} (1 ∷ 2 ∷ 0 ∷ []) 1 0
find_array_position-injective_example =
    find_array_position-injective (1 ∷ 2 ∷ 0 ∷ []) (1 ∷ 2 ∷ 0 ∷ []) some_dims 3
      (λ k lt. ground arith) (λ k lt. ground arith) refl 1 (omega arith)

make_chunked_updates-step_example :
    find_array_position (pos 2 ∷ pos 3 ∷ pos 1 ∷ []) (map pos some_dims) 2
      +ℤ pos 1
      +ℤ get_or
          (make_chunked_updates
            (pos 0 ∷ pos 0 ∷ pos 0 ∷ [])
            (map pos some_chunk)
            (map pos some_dims)
            3)
          1
          (pos 0)
    ≡ pos 35
make_chunked_updates-step_example =
    make_chunked_updates-step some_chunk some_dims 3 (pos 0 ∷ pos 0 ∷ pos 0 ∷ []) 1 (omega arith)
      (λ k lt. ground arith) (omega arith)

-- The chunk in the last corner has 2 by 3 by 2 elements in the array.
abbrev corner : List ℕ
corner = 3 ∷ 4 ∷ 0 ∷ []

corner-IsChunk : IsChunk 3 some_chunk corner some_dims
corner-IsChunk = record {
  some_dims = omega arith;
  few_dims = omega arith;
  sides = λ k lt. ground arith;
  inside = λ k lt. ground arith;
}

copy_chunk-rows_of_example :
    copy_chunk (chunked_object 3 some_chunk some_dims) (map pos corner)
    ≡ rows_of (sides_of some_chunk corner some_dims 3) some_dims some_chunk 2 23 0
copy_chunk-rows_of_example = copy_chunk-rows_of 2 some_chunk corner some_dims corner-IsChunk

copy_chunk-ends_example :
    copy_loop 90
      (layout (chunked_object 3 some_chunk some_dims) (map pos corner))
      (replicate 33 0)
      2
      (find_array_position (map pos corner) (map pos some_dims) 3)
      (pos 0)
    ≡ copy_chunk (chunked_object 3 some_chunk some_dims) (map pos corner)
copy_chunk-ends_example = copy_chunk-ends 2 some_chunk corner some_dims 20 corner-IsChunk

abbrev some_call : PlaceCall
some_call = record { dst_ind = pos 63; src_ind = pos 15; num_elems = pos 2 }

copy_chunk-covers_example :
    Memᴰ some_call (copy_chunk (chunked_object 3 some_chunk some_dims) (map pos corner))
copy_chunk-covers_example =
    copy_chunk-covers 2 some_chunk corner some_dims (0 ∷ 1 ∷ 1 ∷ []) corner-IsChunk
      (λ k lt. ground arith) refl

copy_chunk-Ends_example : Ends some_call 70 24
copy_chunk-Ends_example = copy_chunk-Ends 2 some_chunk corner some_dims some_call corner-IsChunk (
    copy_chunk-covers 2 some_chunk corner some_dims (0 ∷ 1 ∷ 1 ∷ []) corner-IsChunk
      (λ k lt. ground arith) refl)
