-- ===== src/ChunkedData.antt =====
-- src/placeChunkedData.c and `coordToInd` of src/utils.c: places in an array of several dimensions,
-- whose first dimension varies fastest. `index_t` is a signed 64-bit integer, whose overflow C leaves
-- undefined: here it is an integer without a bound. An array is the list of its entries; a read past
-- them has no meaning in C, and gives 0 here.
pub mod Position
pub mod Updates
pub mod Copy
pub mod Tests
use getmatvar.Common.{ℕ, zero, suc, List, get_or, set, ℤ, pos, ◌+ℤ◌, ◌-ℤ◌, ◌*ℤ◌}

-- The rounds of a loop are counted down by the first argument.
unfoldable pub coord_loop : ℕ → ℕ → ℤ → ℤ → List ℤ → List ℤ → ℤ
coord_loop zero i ret mult coords dims = ret
coord_loop (suc left) i ret mult coords dims =
    coord_loop left (suc i) (ret +ℤ (get_or coords i (pos 0) -ℤ pos 1) *ℤ mult)
      (mult *ℤ get_or dims i (pos 0)) coords dims

unfoldable pub coord_to_ind : List ℤ → List ℤ → ℕ → ℤ
unfolding coord_loop
coord_to_ind coords dims num_dims = coord_loop num_dims 0 (pos 0) (pos 1) coords dims

-- `for(int j = i - 1; j >= 0; j--) temp *= array_dims[j];`
unfoldable pub scale_loop : ℕ → ℤ → List ℤ → ℤ
scale_loop zero temp array_dims = temp
scale_loop (suc j) temp array_dims = scale_loop j (temp *ℤ get_or array_dims j (pos 0)) array_dims

unfoldable pub position_loop : ℕ → ℕ → ℤ → List ℤ → List ℤ → ℤ
unfolding scale_loop
position_loop zero i array_pos coordinates array_dims = array_pos
position_loop (suc left) i array_pos coordinates array_dims =
    position_loop left (suc i) (array_pos +ℤ scale_loop i (get_or coordinates i (pos 0)) array_dims)
      coordinates array_dims

unfoldable pub find_array_position : List ℤ → List ℤ → ℕ → ℤ
unfolding position_loop
find_array_position coordinates array_dims num_chunked_dims =
    position_loop num_chunked_dims 0 (pos 0) coordinates array_dims

-- `cu` and `du` after the inner loop of `makeChunkedUpdates`.
unfoldable pub sums_loop : ℕ → ℕ → ℤ → ℤ → List ℤ → List ℤ → ℤ × ℤ
sums_loop zero k cu du chunked_dims dims = (cu, du)
sums_loop (suc left) k cu du chunked_dims dims =
    sums_loop left (suc k) (cu +ℤ (get_or chunked_dims k (pos 0) -ℤ pos 1) *ℤ du)
      (du *ℤ get_or dims k (pos 0)) chunked_dims dims

unfoldable pub update_at : ℕ → List ℤ → List ℤ → ℤ
update_at i chunked_dims dims =
    let cu_du = sums_loop (suc i) 0 (pos 0) (pos 1) chunked_dims dims in cu_du.1 -ℤ cu_du.0 -ℤ pos 1

unfoldable pub updates_loop : ℕ → ℕ → List ℤ → List ℤ → List ℤ → List ℤ
unfolding update_at
updates_loop zero i chunk_update chunked_dims dims = chunk_update
updates_loop (suc left) i chunk_update chunked_dims dims =
    updates_loop left (suc i) (set chunk_update i (update_at i chunked_dims dims)) chunked_dims dims

unfoldable pub make_chunked_updates : List ℤ → List ℤ → List ℤ → ℕ → List ℤ
unfolding updates_loop
make_chunked_updates chunk_update chunked_dims dims num_dims =
    updates_loop num_dims 0 chunk_update chunked_dims dims
