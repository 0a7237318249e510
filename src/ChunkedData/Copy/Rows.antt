-- ===== src/ChunkedData/Copy/Rows.antt =====
-- The rows of a chunk, in order, and what the loop needs of the layout of a chunk.
use getmatvar.Common.{ℕ, zero, suc, ◌+◌, ◌-◌, ◌≤◌, ◌<◌, ◌≡◌, true, List, [], ◌∷◌, ◌++◌, get_or, pos}
use getmatvar.ChunkedData.Position.{block, offset, from_zero}
use getmatvar.ChunkedData.Updates.{Fits}
use getmatvar.ChunkedData.Copy.{PlaceCall, Layout, ltb_ℤ}

-- `count` blocks, each `di` further in the array and `db` further in the buffer than the last.
abbrev pub repeated : (ℕ → ℕ → List PlaceCall) → ℕ → ℕ → ℕ → ℕ → ℕ → List PlaceCall
repeated rows di db zero i b = []
repeated rows di db (suc count) i b = rows i b ++ repeated rows di db count (i + di) (b + db)

-- The rows of a chunk with the sides `sides` in its dimensions 1 to `m`, in an array of the sizes
-- `dims` and a buffer of the sizes `buffer`, the first at `i` and `b`.
abbrev pub rows_of : List ℕ → List ℕ → List ℕ → ℕ → ℕ → ℕ → List PlaceCall
rows_of sides dims buffer zero i b =
    record { dst_ind = pos i; src_ind = pos b; num_elems = pos (get_or sides 0 0) } ∷ []
rows_of sides dims buffer (suc m) i b =
    repeated (rows_of sides dims buffer m) (block dims (suc m)) (block buffer (suc m))
      (get_or sides (suc m) 0) i b

-- What the loop needs of a chunk's layout, `n` being the number of dimensions and `total` that of
-- the array's elements.
pub record IsLayout (l : Layout) (n total : ℕ) (sides dims buffer : List ℕ) : Type 0 where
  pub some_dims : 1 ≤ n
  pub few_dims : n ≤ 32
  pub fits_dims : Fits sides dims n
  pub fits_buffer : Fits sides buffer n
  pub no_side : get_or sides n 0 ≡ 0
  pub side : (k : ℕ) → get_or l.these_chunked_dims k (pos 0) ≡ pos (get_or sides k 0)
  pub index_update :
      (k : ℕ)
      → k < n
      → get_or l.these_index_updates k (pos 0)
        ≡ pos (block dims (suc k) - offset (from_zero sides) dims (suc k) - 1)
  pub chunked_update :
      (k : ℕ)
      → k < n
      → get_or l.these_chunked_updates k (pos 0)
        ≡ pos (block buffer (suc k) - offset (from_zero sides) buffer (suc k) - 1)
  pub elems : l.num_elems ≡ pos total
  pub not_empty : ltb_ℤ (pos 0) l.these_num_chunked_elems ≡ true
