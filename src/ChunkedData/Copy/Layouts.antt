-- ===== src/ChunkedData/Copy/Layouts.antt =====
-- The layout of each chunk of a well-formed object is what the loop over its rows needs.
use getmatvar.Common.{
  ℕ, suc, ◌+◌, ◌-◌, ◌≤◌, ◌<◌, ◌≡◌, refl, sym, ap, ◌∙◌, Bool, true, false, List, map, arith, get_or,
  replicate, ltb, lt→ltb, subst, if◌then◌else◌, min, ℤ, pos,
}
use getmatvar.ChunkedData.{make_chunked_updates}
use getmatvar.ChunkedData.Position.{block, offset, from_zero, get_or-map_pos}
use getmatvar.ChunkedData.Updates.{Fits}
use getmatvar.ChunkedData.Copy.{Layout, Chunked, clamp_loop, differs, count_loop, layout}
use getmatvar.ChunkedData.Copy.Rows.{IsLayout}
use getmatvar.ChunkedData.Copy.Sides.{
  get_or-zeros, side_at, sides_of, get_or-entries, clamp_loop-sides,
}
use getmatvar.ChunkedData.Copy.Corners.{
  more_than_0, nothing_left, length-replicate, make_chunked_updates-at, differs-same,
  count_loop-block, block_positive, full_corner, offset_agree,
}

-- An object in chunks, and where one of its chunks starts.
pub record IsChunk (n : ℕ) (chunked_dims start dims : List ℕ) : Type 0 where
  pub some_dims : 1 ≤ n
  pub few_dims : n ≤ 32
  pub sides : (k : ℕ) → k < n → 1 ≤ get_or chunked_dims k 0
  pub inside : (k : ℕ) → k < n → get_or start k 0 < get_or dims k 0

-- The fields that the messages of the object set.
abbrev pub chunked_object : ℕ → List ℕ → List ℕ → Chunked
chunked_object n chunked_dims dims = record {
  num_dims = n;
  dims = map pos dims;
  num_elems = pos (block dims n);
  chunked_dims = map pos chunked_dims;
  chunk_update =
      make_chunked_updates (replicate (suc n) (pos 0)) (map pos chunked_dims) (map pos dims) n;
  num_chunked_elems = pos (block chunked_dims n);
}

-- The sides of the chunk, less what lies behind the edge of the array.
pub record IsSides (n : ℕ) (chunked_dims start dims sides : List ℕ) : Type 0 where
  pub entry :
      (k : ℕ)
      → k < n
      → get_or sides k 0 ≡ min (get_or chunked_dims k 0) (get_or dims k 0 - get_or start k 0)
  pub no_side : get_or sides n 0 ≡ 0

module _ (n : ℕ) (chunked_dims start dims sides : List ℕ) (is : IsChunk n chunked_dims start dims)
    (are : IsSides n chunked_dims start dims sides) where
  abbrev clamped_layout : Layout
  clamped_layout = record {
    these_chunked_dims = map pos sides;
    these_index_updates =
        make_chunked_updates (replicate 32 (pos 0)) (map pos sides) (map pos dims) n;
    these_chunked_updates =
        make_chunked_updates (replicate 32 (pos 0)) (map pos sides) (map pos chunked_dims) n;
    num_elems = pos (block dims n);
    these_num_chunked_elems = count_loop n 0 (map pos sides) (pos 1);
  }

  abbrev whole_layout : Layout
  whole_layout = record {
    these_chunked_dims = map pos sides;
    these_index_updates =
        make_chunked_updates (replicate (suc n) (pos 0)) (map pos chunked_dims) (map pos dims) n;
    these_chunked_updates = replicate 32 (pos 0);
    num_elems = pos (block dims n);
    these_num_chunked_elems = pos (block chunked_dims n);
  }

  dims-Fits : Fits sides dims n
  dims-Fits k lt = (
    omega (arith, are.entry k lt, is.sides k lt, is.inside k lt),
    omega (arith, are.entry k lt, is.inside k lt),
  )

  buffer-Fits : Fits sides chunked_dims n
  buffer-Fits k lt = (
    omega (arith, are.entry k lt, is.sides k lt, is.inside k lt),
    omega (arith, are.entry k lt, is.inside k lt),
  )

  clamped_layout-IsLayout : IsLayout clamped_layout n (block dims n) sides dims chunked_dims
  clamped_layout-IsLayout = record {
    some_dims = is.some_dims;
    few_dims = is.few_dims;
    fits_dims = dims-Fits;
    fits_buffer = buffer-Fits;
    no_side = are.no_side;
    side = get_or-map_pos sides;
    index_update = λ k lt.
        make_chunked_updates-at sides dims n (replicate 32 (pos 0)) k is.few_dims dims-Fits lt;
    chunked_update = λ k lt.
        make_chunked_updates-at sides chunked_dims n (replicate 32 (pos 0)) k is.few_dims
          buffer-Fits lt;
    elems = refl;
    not_empty =
        more_than_0 (count_loop n 0 (map pos sides) (pos 1)) (block sides n)
          (count_loop-block sides n 0 ∙ ap (λ (j : ℕ). pos (block sides j)) (omega arith))
          (block_positive sides n (λ k lt. (dims-Fits k lt).0));
  }

  whole_layout-IsLayout :
      differs n 0 (map pos sides) (map pos chunked_dims) ≡ false
      → IsLayout whole_layout n (block dims n) sides dims chunked_dims
  whole_layout-IsLayout clear = record {
    some_dims = is.some_dims;
    few_dims = is.few_dims;
    fits_dims = dims-Fits;
    fits_buffer = buffer-Fits;
    no_side = are.no_side;
    side = get_or-map_pos sides;
    index_update = λ k lt.
        make_chunked_updates-at chunked_dims dims n (replicate (suc n) (pos 0)) k
          (omega (arith, length-replicate (suc n) (pos 0))) chunked_fits lt
        ∙ ap (λ (o : ℕ). pos (block dims (suc k) - o - 1))
            (sym (offset_agree sides chunked_dims dims (suc k) (whole k lt)));
    chunked_update = λ k lt.
        get_or-zeros 32 k
        ∙ ap pos (
            nothing_left (block chunked_dims (suc k))
              (offset (from_zero sides) chunked_dims (suc k))
              (ap (λ (o : ℕ). o + 1)
                  (offset_agree sides chunked_dims chunked_dims (suc k) (whole k lt))
                ∙ full_corner chunked_dims (suc k)
                    (λ j below. is.sides j (omega (arith, below, lt)))));
    elems = refl;
    not_empty =
        more_than_0 (pos (block chunked_dims n)) (block chunked_dims n) refl
          (block_positive chunked_dims n is.sides);
  }
    where
      whole : (k : ℕ) → k < n → (j : ℕ) → j < suc k → get_or sides j 0 ≡ get_or chunked_dims j 0
      whole k lt j below =
          differs-same sides chunked_dims n 0 clear j (omega arith) (omega (arith, below, lt))

      chunked_fits : Fits chunked_dims dims n
      chunked_fits k lt = (is.sides k lt, omega (arith, whole k lt k (omega arith), dims-Fits k lt))

  either-IsLayout :
      (b : Bool)
      → differs n 0 (map pos sides) (map pos chunked_dims) ≡ b
      → IsLayout
          (if b then clamped_layout else whole_layout)
          n
          (block dims n)
          sides
          dims
          chunked_dims
  either-IsLayout true e = clamped_layout-IsLayout
  either-IsLayout false e = whole_layout-IsLayout e

  layout_lem :
      clamp_loop n 0 (replicate 33 (pos 0)) (map pos chunked_dims) (map pos start) (map pos dims)
        ≡ map pos sides
      → layout (chunked_object n chunked_dims dims) (map pos start) ≡ (
          if differs n 0 (map pos sides) (map pos chunked_dims)
          then clamped_layout
          else whole_layout)
  unfolding layout
  layout_lem e =
      ap
        (λ (these : List ℤ).
          if differs n 0 these (map pos chunked_dims)
          then record {
            these_chunked_dims = these;
            these_index_updates =
                make_chunked_updates (replicate 32 (pos 0)) these (map pos dims) n;
            these_chunked_updates =
                make_chunked_updates (replicate 32 (pos 0)) these (map pos chunked_dims) n;
            num_elems = pos (block dims n);
            these_num_chunked_elems = count_loop n 0 these (pos 1);
          }
          else record {
            these_chunked_dims = these;
            these_index_updates =
                make_chunked_updates (replicate (suc n) (pos 0)) (map pos chunked_dims)
                  (map pos dims) n;
            these_chunked_updates = replicate 32 (pos 0);
            num_elems = pos (block dims n);
            these_num_chunked_elems = pos (block chunked_dims n);
          })
        e

self_false : (k : ℕ) → ltb k k ≡ false
self_false k = ground arith

pub sides_of-IsSides :
    (n : ℕ) (chunked_dims start dims : List ℕ)
    → n ≤ 32
    → IsSides n chunked_dims start dims (sides_of chunked_dims start dims n)
sides_of-IsSides n chunked_dims start dims few = record {
  entry = λ k lt.
      get_or-entries (side_at chunked_dims start dims n) 33 k (omega (arith, lt, few))
      ∙ ap
          (λ (t : Bool).
            if t then min (get_or chunked_dims k 0) (get_or dims k 0 - get_or start k 0) else 0)
          (lt→ltb k n lt);
  no_side =
      get_or-entries (side_at chunked_dims start dims n) 33 n (omega (arith, few))
      ∙ ap
          (λ (t : Bool).
            if t then min (get_or chunked_dims n 0) (get_or dims n 0 - get_or start n 0) else 0)
          (self_false n);
}

-- Each chunk of a well-formed object that starts in the array.
pub layout-IsLayout :
    (n : ℕ) (chunked_dims start dims : List ℕ)
    → IsChunk n chunked_dims start dims
    → IsLayout
        (layout (chunked_object n chunked_dims dims) (map pos start))
        n
        (block dims n)
        (sides_of chunked_dims start dims n)
        dims
        chunked_dims
layout-IsLayout n chunked_dims start dims is =
    subst
      (λ (l : Layout).
        IsLayout l n (block dims n) (sides_of chunked_dims start dims n) dims chunked_dims)
      (sym (
        layout_lem n chunked_dims start dims (sides_of chunked_dims start dims n) is
          (sides_of-IsSides n chunked_dims start dims is.few_dims)
          (clamp_loop-sides chunked_dims start dims n is.few_dims is.inside)))
      (either-IsLayout n chunked_dims start dims (sides_of chunked_dims start dims n) is
        (sides_of-IsSides n chunked_dims start dims is.few_dims)
        (differs n 0 (map pos (sides_of chunked_dims start dims n)) (map pos chunked_dims)) refl)
