-- ===== src/ChunkedData/Copy/Steps.antt =====
-- The loop of `doInflate_` over the rows of a chunk, from one counter of the rows to the next.
use getmatvar.Common.{
  ℕ, zero, suc, ◌+◌, ◌-◌, ◌*◌, ◌≤◌, ◌<◌, ◌≡◌, ◌≢◌, ap, ap₂, ◌∙◌, true, false, List, ◌∷◌, ◌++◌,
  arith, length, get_or, set, length-set, get_or-set_self, get_or-set_ne, leb, if◌then◌else◌, max,
  ℤ, pos, ◌+ℤ◌, +ℤ-pos,
}
use getmatvar.ChunkedData.Position.{block, offset, from_zero, get_or-from_zero}
use getmatvar.ChunkedData.Updates.{Fits, corner-bound}
use getmatvar.ChunkedData.Copy.{PlaceCall, Layout, Counters, eq_ℤ, ltb_ℤ, carry_loop, copy_loop}
use getmatvar.ChunkedData.Copy.Carry.{carry_loop-kept, carry_loop-carried}
use getmatvar.ChunkedData.Copy.Rows.{rows_of, IsLayout}

less_total :
    (i : ℕ) (elems : ℤ) (total : ℕ) → elems ≡ pos total → i < total → ltb_ℤ (pos i) elems ≡ true
less_total i elems total e lt = rw e (ground arith)

not_end : (a : ℕ) (side : ℤ) (b : ℕ) → side ≡ pos b → a ≢ b → eq_ℤ (pos a) side ≡ false
not_end a side b e lt = rw e (ground arith)

at_end : (a : ℕ) (side : ℤ) (b : ℕ) → side ≡ pos b → a ≡ b → eq_ℤ (pos a) side ≡ true
at_end a side b e same = rw e (ground arith)

regroup : (i e b : ℕ) → e + 1 ≤ b → i + e + 1 + (b - e - 1) ≡ i + b
regroup i e b le = omega arith

module _ {l : Layout} {n total : ℕ} {sides dims buffer : List ℕ}
    (is : IsLayout l n total sides dims buffer) where
  -- The last element of a block of the first `m` dimensions, counted from the block's first.
  abbrev pub end_of : List ℕ → ℕ → ℕ
  end_of sizes m = offset (from_zero sides) sizes m

  -- The counters at the first row of a block of the dimensions up to `m`, at the place `i`.
  pub record At (m : ℕ) (chunk_pos : List ℕ) (bound i fuel : ℕ) : Type 0 where
    pub whole : length chunk_pos ≡ 33
    pub zeros : (j : ℕ) → 1 ≤ j → j ≤ m → get_or chunk_pos j 0 ≡ 0
    pub below : (j : ℕ) → suc m ≤ j → j < n → get_or chunk_pos j 0 < get_or sides j 0
    pub top : get_or chunk_pos n 0 ≡ 0
    pub at_least : 2 ≤ bound
    pub at_most : bound ≤ n + (2 - n)
    pub level : suc m ≤ n
    pub inside : i + end_of dims (suc m) + 1 ≤ total
    pub enough : total ≤ i + fuel

  -- The rest of the loop from where the last row of a block has been copied, and the counter of
  -- dimension `m + 1` has been increased; `i` and `b` are behind that row.
  abbrev pub behind : ℕ → ℕ → List ℕ → ℕ → ℕ → ℕ → List PlaceCall
  behind m fuel chunk_pos bound i b =
      let c =
        carry_loop (32 - m) (suc m) l.these_chunked_dims
          (record { chunk_pos = chunk_pos; curr_max_dim = bound; use_update = m }) in
      copy_loop fuel l c.chunk_pos c.curr_max_dim
        (pos i +ℤ get_or l.these_index_updates c.use_update (pos 0))
        (pos b +ℤ get_or l.these_chunked_updates c.use_update (pos 0))

  pub record Copied (m : ℕ) (chunk_pos : List ℕ) (bound i b fuel : ℕ) (rows : List PlaceCall)
      (found : List PlaceCall) : Type 0 where
    pub pos_behind : List ℕ
    pub fuel_behind : ℕ
    pub runs :
        found
        ≡ rows
          ++ behind m fuel_behind pos_behind
              (max bound (m + 2))
              (i + end_of dims (suc m) + 1)
              (b + end_of buffer (suc m) + 1)
    pub whole : length pos_behind ≡ 33
    pub zeros : (j : ℕ) → 1 ≤ j → j ≤ m → get_or pos_behind j 0 ≡ 0
    pub next : get_or pos_behind (suc m) 0 ≡ suc (get_or chunk_pos (suc m) 0)
    pub others : (j : ℕ) → suc m < j → get_or pos_behind j 0 ≡ get_or chunk_pos j 0
    pub enough : total ≤ i + end_of dims (suc m) + 1 + fuel_behind

  -- One row.
  pub row-Copied :
      (chunk_pos : List ℕ) (bound i b fuel : ℕ)
      → At 0 chunk_pos bound i fuel
      → Copied 0 chunk_pos bound i b fuel
          (rows_of sides dims buffer 0 i b)
          (copy_loop fuel l chunk_pos bound (pos i) (pos b))
  unfolding copy_loop
  row-Copied chunk_pos bound i b zero at = absurd (omega (arith, at.inside, at.enough))
  row-Copied chunk_pos bound i b (suc fuel) at = record {
    pos_behind = set chunk_pos 1 (suc (get_or chunk_pos 1 0));
    fuel_behind = fuel;
    runs =
        rw (more, is.not_empty, is.side 0, +ℤ-pos i (get_or sides 0 0), +ℤ-pos b (get_or sides 0 0))
          (ap (λ (w : ℕ). first ∷ behind 0 fuel counted w (i + row) (b + row)) wide
            ∙ ap (λ (w : ℕ). first ∷ behind 0 fuel counted (max bound 2) w (b + row)) (row_end i)
            ∙ ap (λ (w : ℕ). first ∷ behind 0 fuel counted (max bound 2) (i + end_of dims 1 + 1) w)
                (row_end b));
    whole = length-set chunk_pos 1 (suc (get_or chunk_pos 1 0)) ∙ at.whole;
    zeros = λ j from to. absurd (omega (arith, from, to));
    next = get_or-set_self chunk_pos 1 (suc (get_or chunk_pos 1 0)) 0 (omega (arith, at.whole));
    others = λ j after.
        get_or-set_ne chunk_pos 1 j (suc (get_or chunk_pos 1 0)) 0 (omega (arith, after));
    enough = omega (arith, at.enough);
  }
    where
      row : ℕ
      row = get_or sides 0 0

      first : PlaceCall
      first = record { dst_ind = pos i; src_ind = pos b; num_elems = pos row }

      counted : List ℕ
      counted = set chunk_pos 1 (suc (get_or chunk_pos 1 0))

      more : ltb_ℤ (pos i) l.num_elems ≡ true
      more = less_total i l.num_elems total is.elems (omega (arith, at.inside))

      wide : bound ≡ max bound 2
      wide = omega (arith, at.at_least)

      row_end : (k : ℕ) → k + row ≡ k + (0 + get_or (from_zero sides) 0 0 * 1) + 1
      row_end k =
          omega (arith, get_or-from_zero sides 0, is.fits_dims 0 (omega (arith, is.some_dims)))

  -- No counter from `m + 1` on has reached its end: the next block begins.
  pub behind-kept :
      (m fuel bound i b : ℕ) (chunk_pos : List ℕ)
      → suc m ≤ n
      → ((k : ℕ) → suc m ≤ k → k < bound → get_or chunk_pos k 0 ≢ get_or sides k 0)
      → behind m fuel chunk_pos bound (i + end_of dims (suc m) + 1) (b + end_of buffer (suc m) + 1)
        ≡ copy_loop fuel l chunk_pos bound
            (pos (i + block dims (suc m)))
            (pos (b + block buffer (suc m)))
  behind-kept m fuel bound i b chunk_pos level open_end =
      rw
        (
          carry_loop-kept (32 - m) (suc m) l.these_chunked_dims
              (record { chunk_pos = chunk_pos; curr_max_dim = bound; use_update = m })
              (λ k from to.
                not_end (get_or chunk_pos k 0) (get_or l.these_chunked_dims k (pos 0))
                  (get_or sides k 0) (is.side k) (open_end k from to)),
          is.index_update m level,
          is.chunked_update m level,
          +ℤ-pos (i + end_of dims (suc m) + 1),
          +ℤ-pos (b + end_of buffer (suc m) + 1),
        )
        (ap₂ (λ (x y : ℕ). copy_loop fuel l chunk_pos bound (pos x) (pos y))
          (regroup i (end_of dims (suc m)) (block dims (suc m))
            (corner-bound sides dims (suc m) (inner dims is.fits_dims)))
          (regroup b (end_of buffer (suc m)) (block buffer (suc m))
            (corner-bound sides buffer (suc m) (inner buffer is.fits_buffer))))
    where
      inner : (sizes : List ℕ) → Fits sides sizes n → Fits sides sizes (suc m)
      inner sizes fits j lt = fits j (omega arith)

  -- The counter `m + 1` has reached its end: the next one goes on.
  pub behind-carried :
      (m fuel bound x y : ℕ) (chunk_pos : List ℕ)
      → suc (suc m) ≤ n
      → suc m < bound
      → get_or chunk_pos (suc m) 0 ≡ get_or sides (suc m) 0
      → behind m fuel chunk_pos bound x y
        ≡ behind
            (suc m)
            fuel
            (set
              (set chunk_pos (suc m) 0)
              (suc (suc m))
              (suc (get_or (set chunk_pos (suc m) 0) (suc (suc m)) 0)))
            (if leb bound (suc (suc m)) then suc bound else bound)
            x
            y
  behind-carried m fuel bound x y chunk_pos level inside end =
      ap
        (λ (c : Counters).
          copy_loop fuel l c.chunk_pos c.curr_max_dim
            (pos x +ℤ get_or l.these_index_updates c.use_update (pos 0))
            (pos y +ℤ get_or l.these_chunked_updates c.use_update (pos 0)))
        (ap
            (λ (left : ℕ).
              carry_loop left (suc m) l.these_chunked_dims
                (record { chunk_pos = chunk_pos; curr_max_dim = bound; use_update = m }))
            one_more
          ∙ carry_loop-carried (32 - suc m) (suc m) l.these_chunked_dims
              (record { chunk_pos = chunk_pos; curr_max_dim = bound; use_update = m }) inside
              (at_end (get_or chunk_pos (suc m) 0) (get_or l.these_chunked_dims (suc m) (pos 0))
                (get_or sides (suc m) 0) (is.side (suc m)) end))
    where
      one_more : 32 - m ≡ suc (32 - suc m)
      one_more = omega (arith, is.few_dims)
