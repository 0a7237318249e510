-- ===== src/ChunkedData/Copy/Whole.antt =====
-- What the loop of `doInflate_` copies of a whole chunk.
use getmatvar.Common.{
  ℕ, suc, ◌+◌, ◌-◌, ◌≤◌, ◌<◌, ◌≡◌, sym, ap₂, ◌∙◌, List, map, min, subst, arith, get_or, replicate,
  pos,
}
use mathlib.Core.List.{Memᴰ}
use mathlib.Core.List.Memᴰ
use getmatvar.ChunkedData.{find_array_position}
use getmatvar.ChunkedData.Copy.Places.{Ends, further, rows_of-Ends, rows_of-covers}
use getmatvar.ChunkedData.Position.{block, offset}
use getmatvar.ChunkedData.Updates.{Fits, corner-bound}
use getmatvar.ChunkedData.Copy.{PlaceCall, copy_loop, layout, copy_chunk}
use getmatvar.ChunkedData.Copy.Layouts.{IsChunk, chunked_object, IsSides, sides_of-IsSides}
use getmatvar.ChunkedData.Copy.Sides.{sides_of}
use getmatvar.ChunkedData.Copy.Rows.{rows_of}
use getmatvar.ChunkedData.Copy.Chunk.{started, whole_loop, sum_bound, sides_inside}

-- For a chunk that starts in the array, of an object with up to 32 dimensions, the loop of
-- `doInflate_` gives one call of `placeData` for each row of what the chunk has of the array, the
-- rows in their order, each at its place in the array and at its place in the buffer.
pub copy_chunk-rows_of :
    (m : ℕ) (chunked_dims start dims : List ℕ)
    → IsChunk (suc m) chunked_dims start dims
    → copy_chunk (chunked_object (suc m) chunked_dims dims) (map pos start)
      ≡ rows_of
          (sides_of chunked_dims start dims (suc m))
          dims
          chunked_dims
          m
          (offset start dims (suc m))
          0
unfolding copy_chunk
copy_chunk-rows_of m chunked_dims start dims is =
    started m chunked_dims start dims (block dims (suc m))
    ∙ whole_loop m chunked_dims start dims (block dims (suc m)) is (omega arith)

-- For a chunk that starts in the array, of an object with up to 32 dimensions, more rounds than the
-- object has elements change nothing: the loop over the rows has ended before.
pub copy_chunk-ends :
    (m : ℕ) (chunked_dims start dims : List ℕ) (more : ℕ)
    → IsChunk (suc m) chunked_dims start dims
    → copy_loop
        (block dims (suc m) + more)
        (layout (chunked_object (suc m) chunked_dims dims) (map pos start))
        (replicate 33 0)
        2
        (find_array_position (map pos start) (map pos dims) (suc m))
        (pos 0)
      ≡ copy_chunk (chunked_object (suc m) chunked_dims dims) (map pos start)
copy_chunk-ends m chunked_dims start dims more is =
    started m chunked_dims start dims (block dims (suc m) + more)
    ∙ whole_loop m chunked_dims start dims (block dims (suc m) + more) is (omega arith)
    ∙ sym (copy_chunk-rows_of m chunked_dims start dims is)

-- For a chunk that starts in the array, of an object with up to 32 dimensions, each call of
-- `placeData` stays within the elements of the object and within those of the chunk's buffer.
pub copy_chunk-Ends :
    (m : ℕ) (chunked_dims start dims : List ℕ) (c : PlaceCall)
    → IsChunk (suc m) chunked_dims start dims
    → Memᴰ c (copy_chunk (chunked_object (suc m) chunked_dims dims) (map pos start))
    → Ends c (block dims (suc m)) (block chunked_dims (suc m))
copy_chunk-Ends m chunked_dims start dims c is mem =
    further
      (rows_of-Ends sides dims chunked_dims m (λ k le. (inside k (omega (arith, le))).0)
        (offset start dims (suc m)) 0 c
        (subst (λ (calls : List PlaceCall). Memᴰ c calls)
          (copy_chunk-rows_of m chunked_dims start dims is) mem))
      (omega (arith, sum_bound start sides dims (suc m) inside))
      (omega (arith, corner-bound sides chunked_dims (suc m) fits))
  where
    sides : List ℕ
    sides = sides_of chunked_dims start dims (suc m)

    inside :
        (k : ℕ)
        → k < suc m
        → (1 ≤ get_or sides k 0) × (get_or start k 0 + get_or sides k 0 ≤ get_or dims k 0)
    inside =
        sides_inside (suc m) chunked_dims start dims sides is
          (sides_of-IsSides (suc m) chunked_dims start dims is.few_dims)

    fits : Fits sides chunked_dims (suc m)
    fits k lt = (
      (inside k lt).0,
      omega (arith, (sides_of-IsSides (suc m) chunked_dims start dims is.few_dims).entry k lt),
    )

-- For a chunk that starts in the array, of an object with up to 32 dimensions: for each element of
-- the chunk that lies in the array and is the first of its row, the row is copied from the place
-- of the element in the buffer to the place of the element in the array.
pub copy_chunk-covers :
    (m : ℕ) (chunked_dims start dims coords : List ℕ)
    → IsChunk (suc m) chunked_dims start dims
    → ((k : ℕ)
        → k < suc m
        → (get_or coords k 0 < get_or chunked_dims k 0)
          × (get_or start k 0 + get_or coords k 0 < get_or dims k 0))
    → get_or coords 0 0 ≡ 0
    → Memᴰ
        (record {
          dst_ind = pos (offset start dims (suc m) + offset coords dims (suc m));
          src_ind = pos (offset coords chunked_dims (suc m));
          num_elems = pos (min (get_or chunked_dims 0 0) (get_or dims 0 0 - get_or start 0 0));
        })
        (copy_chunk (chunked_object (suc m) chunked_dims dims) (map pos start))
copy_chunk-covers m chunked_dims start dims coords is inside first =
    subst
      (λ (calls : List PlaceCall).
        Memᴰ
          (row_of (offset coords chunked_dims (suc m))
            (min (get_or chunked_dims 0 0) (get_or dims 0 0 - get_or start 0 0)))
          calls)
      (sym (copy_chunk-rows_of m chunked_dims start dims is))
      (Memᴰ.cast
        (ap₂ row_of (from_start (offset coords chunked_dims (suc m)))
          (sym (are.entry 0 (omega arith))))
        (rows_of-covers sides dims chunked_dims coords m
          (λ k le. omega (arith, are.entry k (omega (arith, le)), inside k (omega (arith, le))))
          first (offset start dims (suc m)) 0))
  where
    sides : List ℕ
    sides = sides_of chunked_dims start dims (suc m)

    are : IsSides (suc m) chunked_dims start dims (sides_of chunked_dims start dims (suc m))
    are = sides_of-IsSides (suc m) chunked_dims start dims is.few_dims

    row_of : ℕ → ℕ → PlaceCall
    row_of b row = record {
      dst_ind = pos (offset start dims (suc m) + offset coords dims (suc m));
      src_ind = pos b;
      num_elems = pos row;
    }

    from_start : (b : ℕ) → b ≡ 0 + b
    from_start b = omega arith
