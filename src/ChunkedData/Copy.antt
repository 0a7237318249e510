-- ===== src/ChunkedData/Copy.antt =====
-- src/placeChunkedData.c: what `doInflate_` does with a chunk once it is decompressed. The result is
-- the list of the calls of `placeData`, each with its place in the array, its place in the buffer of
-- the chunk, and the number of elements that it copies. `num_used` stays 0 in the source.
pub mod Carry
pub mod Rows
pub mod Steps
pub mod Blocks
pub mod Levels
pub mod Sides
pub mod Corners
pub mod Layouts
pub mod Chunk
pub mod Places
pub mod Whole
use getmatvar.Common.{
  ℕ, zero, suc, ◌+◌, Bool, true, false, List, [], ◌∷◌, length, get_or, set, replicate, ltb, leb,
  ◌==◌, if◌then◌else◌, ℤ, pos, negsuc, pos_part, neg_part, ◌+ℤ◌, ◌-ℤ◌, ◌*ℤ◌,
}
use getmatvar.ChunkedData.{find_array_position, make_chunked_updates}

pub record PlaceCall : Type 0 where
  pub dst_ind : ℤ
  pub src_ind : ℤ
  pub num_elems : ℤ

abbrev pub ltb_ℤ : ℤ → ℤ → Bool
ltb_ℤ a b = ltb (pos_part a + neg_part b) (pos_part b + neg_part a)

abbrev pub eq_ℤ : ℤ → ℤ → Bool
eq_ℤ a b = (pos_part a + neg_part b) == (pos_part b + neg_part a)

-- The side of the chunk in one dimension, less what lies behind the edge of the array.
unfoldable pub clamped : ℤ → ℤ → ℤ → ℤ
clamped chunked_dim start dim =
    chunked_dim -ℤ (if ltb_ℤ dim (start +ℤ chunked_dim) then start +ℤ chunked_dim -ℤ dim else pos 0)

unfoldable pub clamp_loop : ℕ → ℕ → List ℤ → List ℤ → List ℤ → List ℤ → List ℤ
unfolding clamped
clamp_loop zero j these_dims chunked_dims chunk_start dims = these_dims
clamp_loop (suc left) j these_dims chunked_dims chunk_start dims =
    clamp_loop left (suc j)
      (set these_dims j (
        clamped (get_or chunked_dims j (pos 0)) (get_or chunk_start j (pos 0))
          (get_or dims j (pos 0))))
      chunked_dims chunk_start dims

-- Whether a side of the chunk was clamped.
unfoldable pub differs : ℕ → ℕ → List ℤ → List ℤ → Bool
differs zero j these_dims chunked_dims = false
differs (suc left) j these_dims chunked_dims =
    let rest = differs left (suc j) these_dims chunked_dims in
    if eq_ℤ (get_or these_dims j (pos 0)) (get_or chunked_dims j (pos 0)) then rest else true

-- `these_num_chunked_elems *= these_chunked_dims[k]`
unfoldable pub count_loop : ℕ → ℕ → List ℤ → ℤ → ℤ
count_loop zero k these_dims elems = elems
count_loop (suc left) k these_dims elems =
    count_loop left (suc k) these_dims (elems *ℤ get_or these_dims k (pos 0))

-- The counters of the rows after the loop over `j`, the bound on `j`, and `use_update`. The counters
-- are only set to 0 and increased. `j` stays below the 33 entries of the array, which bounds the
-- rounds left.
pub record Counters : Type 0 where
  pub chunk_pos : List ℕ
  pub curr_max_dim : ℕ
  pub use_update : ℕ

unfoldable pub carry_loop : ℕ → ℕ → List ℤ → Counters → Counters
carry_loop zero j these_dims c = c
carry_loop (suc left) j these_dims c =
    let carried = carry_loop left (suc j) these_dims (record {
      chunk_pos = set (set c.chunk_pos j 0) (suc j) (suc (get_or (set c.chunk_pos j 0) (suc j) 0));
      curr_max_dim = if leb c.curr_max_dim (suc j) then suc c.curr_max_dim else c.curr_max_dim;
      use_update = suc c.use_update;
    }) in
    let kept = carry_loop left (suc j) these_dims c in
    if ltb j c.curr_max_dim
    then if eq_ℤ (pos (get_or c.chunk_pos j 0)) (get_or these_dims j (pos 0)) then carried else kept
    else c

-- What the rows of one chunk share.
pub record Layout : Type 0 where
  pub these_chunked_dims : List ℤ
  pub these_index_updates : List ℤ
  pub these_chunked_updates : List ℤ
  pub num_elems : ℤ
  pub these_num_chunked_elems : ℤ

-- One row a round, on fuel. `index` grows in each round, so `num_elems` rounds are enough.
unfoldable pub copy_loop : ℕ → Layout → List ℕ → ℕ → ℤ → ℤ → List PlaceCall
copy_loop zero l chunk_pos curr_max_dim index db_pos = []
copy_loop (suc fuel) l chunk_pos curr_max_dim index db_pos =
    let rest =
      (let row = get_or l.these_chunked_dims 0 (pos 0) in
        let c = carry_loop 32 1 l.these_chunked_dims (record {
          chunk_pos = set chunk_pos 1 (suc (get_or chunk_pos 1 0));
          curr_max_dim = curr_max_dim;
          use_update = 0;
        }) in
        record { dst_ind = index; src_ind = db_pos; num_elems = row }
        ∷ copy_loop fuel l c.chunk_pos c.curr_max_dim
            (index +ℤ row +ℤ get_or l.these_index_updates c.use_update (pos 0))
            (db_pos +ℤ row +ℤ get_or l.these_chunked_updates c.use_update (pos 0))) in
    if ltb_ℤ index l.num_elems
    then if ltb_ℤ (pos 0) l.these_num_chunked_elems then rest else []
    else []

-- The fields of the object that are read, `num_chunked_dims` being `num_dims`.
pub record Chunked : Type 0 where
  pub num_dims : ℕ
  pub dims : List ℤ
  pub num_elems : ℤ
  pub chunked_dims : List ℤ
  pub chunk_update : List ℤ
  pub num_chunked_elems : ℤ

unfoldable pub layout : Chunked → List ℤ → Layout
unfolding clamp_loop differs count_loop
layout o chunk_start =
    let n = o.num_dims in
    let these_dims = clamp_loop n 0 (replicate 33 (pos 0)) o.chunked_dims chunk_start o.dims in
    if differs n 0 these_dims o.chunked_dims
    then record {
      these_chunked_dims = these_dims;
      these_index_updates = make_chunked_updates (replicate 32 (pos 0)) these_dims o.dims n;
      these_chunked_updates =
          make_chunked_updates (replicate 32 (pos 0)) these_dims o.chunked_dims n;
      num_elems = o.num_elems;
      these_num_chunked_elems = count_loop n 0 these_dims (pos 1);
    }
    else record {
      these_chunked_dims = these_dims;
      these_index_updates = o.chunk_update;
      these_chunked_updates = replicate 32 (pos 0);
      num_elems = o.num_elems;
      these_num_chunked_elems = o.num_chunked_elems;
    }

unfoldable pub copy_chunk : Chunked → List ℤ → List PlaceCall
unfolding layout copy_loop
copy_chunk o chunk_start =
    copy_loop (pos_part o.num_elems) (layout o chunk_start) (replicate 33 0) 2
      (find_array_position chunk_start o.dims o.num_dims) (pos 0)
