-- ===== src/ChunkedData/Copy/Chunk.antt =====
-- The calls of `placeData` for a whole chunk.
use native.Mathlib.Nat.{mul-le-mul_left}
use getmatvar.Common.{
  ℕ, zero, suc, ◌+◌, ◌-◌, ◌*◌, ◌≤◌, ◌<◌, ◌≡◌, refl, ap, ◌∙◌, false, List, [], map, ◌++◌, append-nil,
  arith, get_or, replicate, max, ℤ, pos,
}
use getmatvar.ChunkedData.{find_array_position}
use getmatvar.ChunkedData.Position.{
  find_array_position-offset, block, offset, from_zero, get_or-from_zero,
}
use getmatvar.ChunkedData.Copy.{PlaceCall, Layout, ltb_ℤ, copy_loop, layout}
use getmatvar.ChunkedData.Copy.Layouts.{
  IsChunk, chunked_object, IsSides, sides_of-IsSides, layout-IsLayout,
}
use getmatvar.ChunkedData.Copy.Sides.{sides_of}
use getmatvar.ChunkedData.Copy.Rows.{rows_of, IsLayout}
use getmatvar.ChunkedData.Copy.Steps.{Copied, behind, behind-kept}
use getmatvar.ChunkedData.Copy.Levels.{all-Level}

get_or-replicate : (n j : ℕ) → get_or (replicate {A = ℕ} n 0) j 0 ≡ 0
get_or-replicate zero j = refl
get_or-replicate (suc n) zero = refl
get_or-replicate (suc n) (suc j) = get_or-replicate n j

at_total :
    (i : ℕ) (elems : ℤ) (total : ℕ) → elems ≡ pos total → total ≤ i → ltb_ℤ (pos i) elems ≡ false
at_total i elems total e le = rw e (ground arith)

copy_loop-ended :
    (fuel : ℕ) (l : Layout) (chunk_pos : List ℕ) (bound : ℕ) (index db_pos : ℤ)
    → ltb_ℤ index l.num_elems ≡ false
    → copy_loop fuel l chunk_pos bound index db_pos ≡ []
unfolding copy_loop
copy_loop-ended zero l chunk_pos bound index db_pos ended = refl
copy_loop-ended (suc fuel) l chunk_pos bound index db_pos ended = rw ended refl

-- Each row of the chunk is copied once, and then the loop ends.
copy_loop-rows :
    (l : Layout) (m : ℕ) (sides dims buffer : List ℕ) (i fuel : ℕ)
    → IsLayout l (suc m) (block dims (suc m)) sides dims buffer
    → i + offset (from_zero sides) dims (suc m) + 1 ≤ block dims (suc m)
    → block dims (suc m) ≤ i + fuel
    → copy_loop fuel l (replicate 33 0) 2 (pos i) (pos 0) ≡ rows_of sides dims buffer m i 0
copy_loop-rows l m sides dims buffer i fuel is inside enough =
    d.runs
    ∙ ap (λ (x : List PlaceCall). rows_of sides dims buffer m i 0 ++ x) ended
    ∙ append-nil (rows_of sides dims buffer m i 0)
  where
    d :
        Copied is m
          (replicate 33 0)
          2
          i
          0
          fuel
          (rows_of sides dims buffer m i 0)
          (copy_loop fuel l (replicate 33 0) 2 (pos i) (pos 0))
    d = all-Level is m (omega arith) (replicate 33 0) 2 i 0 fuel (record {
      whole = refl;
      zeros = λ j from to. get_or-replicate 33 j;
      below = λ j from to. absurd (omega (arith, from, to));
      top = get_or-replicate 33 (suc m);
      at_least = omega arith;
      at_most = omega arith;
      level = omega arith;
      inside = inside;
      enough = enough;
    })

    last_one : (k : ℕ) → suc m ≤ k → k < max 2 (m + 2) → k ≡ suc m
    last_one k from to = omega (arith, from, to)

    ended :
        behind is m d.fuel_behind d.pos_behind
          (max 2 (m + 2))
          (i + offset (from_zero sides) dims (suc m) + 1)
          (0 + offset (from_zero sides) buffer (suc m) + 1)
        ≡ []
    ended =
        behind-kept is m d.fuel_behind (max 2 (m + 2)) i 0 d.pos_behind (omega arith) (λ k from to.
          rw (last_one k from to, d.next, get_or-replicate 33 (suc m), is.no_side) (omega arith))
        ∙ copy_loop-ended d.fuel_behind l d.pos_behind (max 2 (m + 2))
            (pos (i + block dims (suc m))) _
            (at_total _ l.num_elems (block dims (suc m)) is.elems (omega arith))

sum_step :
    (o e b s side size : ℕ)
    → o + e + 1 ≤ b
    → 1 ≤ side
    → s + side ≤ size
    → o + s * b + (e + (side - 1) * b) + 1 ≤ b * size
sum_step o e b s zero size le some inside = absurd (omega (arith, some))
sum_step o e b s (suc side) size le some inside =
    omega (arith, mul-le-mul_left b inside, ap (λ (k : ℕ). k * b) (one_less side))
  where
    one_less : (k : ℕ) → suc k - 1 ≡ k
    one_less k = omega arith

-- A block that begins in the array and fits in it ends in it.
pub sum_bound :
    (start sides dims : List ℕ) (n : ℕ)
    → ((k : ℕ)
        → k < n
        → (1 ≤ get_or sides k 0) × (get_or start k 0 + get_or sides k 0 ≤ get_or dims k 0))
    → offset start dims n + offset (from_zero sides) dims n + 1 ≤ block dims n
sum_bound start sides dims zero inside = omega arith
sum_bound start sides dims (suc n) inside = rw (get_or-from_zero sides n) (
    sum_step (offset start dims n) (offset (from_zero sides) dims n) (block dims n)
      (get_or start n 0) (get_or sides n 0) (get_or dims n 0)
      (sum_bound start sides dims n (λ k lt. inside k (omega (arith, lt))))
      (inside n (omega arith)).0 (inside n (omega arith)).1)

pub sides_inside :
    (n : ℕ) (chunked_dims start dims sides : List ℕ)
    → IsChunk n chunked_dims start dims
    → IsSides n chunked_dims start dims sides
    → (k : ℕ) → k < n
    → (1 ≤ get_or sides k 0) × (get_or start k 0 + get_or sides k 0 ≤ get_or dims k 0)
sides_inside n chunked_dims start dims sides is are k lt = (
  omega (arith, are.entry k lt, is.sides k lt, is.inside k lt),
  omega (arith, are.entry k lt, is.inside k lt),
)

pub started :
    (m : ℕ) (chunked_dims start dims : List ℕ) (fuel : ℕ)
    → copy_loop fuel
        (layout (chunked_object (suc m) chunked_dims dims) (map pos start))
        (replicate 33 0)
        2
        (find_array_position (map pos start) (map pos dims) (suc m))
        (pos 0)
      ≡ copy_loop fuel
          (layout (chunked_object (suc m) chunked_dims dims) (map pos start))
          (replicate 33 0)
          2
          (pos (offset start dims (suc m)))
          (pos 0)
started m chunked_dims start dims fuel =
    ap
      (λ (index : ℤ).
        copy_loop fuel (layout (chunked_object (suc m) chunked_dims dims) (map pos start))
          (replicate 33 0) 2 index (pos 0))
      (find_array_position-offset start dims (suc m))

pub whole_loop :
    (m : ℕ) (chunked_dims start dims : List ℕ) (fuel : ℕ)
    → IsChunk (suc m) chunked_dims start dims
    → block dims (suc m) ≤ fuel
    → copy_loop fuel
        (layout (chunked_object (suc m) chunked_dims dims) (map pos start))
        (replicate 33 0)
        2
        (pos (offset start dims (suc m)))
        (pos 0)
      ≡ rows_of
          (sides_of chunked_dims start dims (suc m))
          dims
          chunked_dims
          m
          (offset start dims (suc m))
          0
whole_loop m chunked_dims start dims fuel is enough =
    copy_loop-rows (layout (chunked_object (suc m) chunked_dims dims) (map pos start)) m
      (sides_of chunked_dims start dims (suc m)) dims chunked_dims (offset start dims (suc m)) fuel
      (layout-IsLayout (suc m) chunked_dims start dims is)
      (sum_bound start (sides_of chunked_dims start dims (suc m)) dims (suc m) (
        sides_inside (suc m) chunked_dims start dims (sides_of chunked_dims start dims (suc m)) is
          (sides_of-IsSides (suc m) chunked_dims start dims is.few_dims)))
      (omega (arith, enough))
