-- ===== src/PlaceData/Inflated.antt =====
-- A decompressed chunk in the array of its object: `copy_chunk` and `placeData` together.
use mathlib.Core.List.{Memᴰ}
use native.Mathlib.Nat.{mul-le-mul_right}
use getmatvar.Common.{
  ℕ, suc, ◌+◌, ◌*◌, ◌-◌, ◌≤◌, ◌<◌, ◌≡◌, refl, sym, ap, ap₂, ◌∙◌, ◌⊎◌, inl, inr, some, List, map,
  length, arith, get_or, ◌==◌, if◌then◌else◌, min, pos, pos_part, subst,
}
use getmatvar.NumberHelper.{ByteOrder}
use getmatvar.ChunkedData.Position.{block, offset}
use getmatvar.ChunkedData.Copy.{PlaceCall, copy_chunk}
use getmatvar.ChunkedData.Copy.Sides.{sides_of, entries, get_or-entries}
use getmatvar.ChunkedData.Copy.Layouts.{IsChunk, sides_of-IsSides, chunked_object}
use getmatvar.ChunkedData.Copy.Chunk.{sides_inside}
use getmatvar.ChunkedData.Copy.Whole.{copy_chunk-rows_of, copy_chunk-Ends, copy_chunk-covers}
use getmatvar.PlaceData.{Object, place_calls}
use getmatvar.PlaceData.Sums.{
  sum_of, sum_of-offset, sum_of_agree, sum_of-add, along, sum_of-along, sum_of-injective,
}
use getmatvar.PlaceData.Rows.{rows_of-RowAt}
use getmatvar.PlaceData.Copies.{Writes, byte_of, Stays, IsReady, Placed, place_calls-Placed}
use getmatvar.PlaceData.Chunks.{Element, written_row, last_byte}

row_writes :
    (size i s p u r t : ℕ)
    → p ≡ s + u
    → u < r
    → t < size
    → (size * (i + s) ≤ (i + p) * size + t) × ((i + p) * size + t < size * (i + s) + r * size)
row_writes size i s p u r t e lt lt' =
    subst
      (λ (x : ℕ).
        (size * (i + s) ≤ (i + x) * size + t) × ((i + x) * size + t < size * (i + s) + r * size))
      (sym e) (omega arith, omega (arith, last_byte size u r t lt lt'))

module _ (host : ByteOrder) (o : Object) (order : ByteOrder) (m : ℕ)
    (chunked_dims start dims array buffer : List ℕ) (is : IsChunk (suc m) chunked_dims start dims)
    (ready : IsReady host o order) (whole : length array ≡ block dims (suc m) * o.elem_size)
    (part : length buffer ≡ block chunked_dims (suc m) * o.elem_size) where
  abbrev calls : List PlaceCall
  calls = copy_chunk (chunked_object (suc m) chunked_dims dims) (map pos start)

  stays : (c : PlaceCall) → Memᴰ c calls → Stays o.elem_size c (length array) (length buffer)
  stays c mem =
      let e = copy_chunk-Ends m chunked_dims start dims c is mem in
      (
        subst (λ (x : ℕ). x ≤ length array)
            (sym (ap₂ scaled (ap pos_part e.dst) (ap pos_part e.count)))
            (omega (arith, whole, fit e.from e.row (block dims (suc m)) e.dst_end)),
        subst (λ (x : ℕ). x ≤ length buffer)
            (sym (ap₂ scaled (ap pos_part e.src) (ap pos_part e.count)))
            (omega (arith, part, fit e.begin e.row (block chunked_dims (suc m)) e.src_end)),
      )
    where
      scaled : ℕ → ℕ → ℕ
      scaled x y = o.elem_size * x + y * o.elem_size

      fit : (x y b : ℕ) → x + y ≤ b → o.elem_size * x + y * o.elem_size ≤ b * o.elem_size
      fit x y b le = omega (arith, mul-le-mul_right o.elem_size le)

  placed : Placed host calls o order array buffer
  placed = place_calls-Placed host calls o order array buffer ready stays

  sides_at_most :
      (k : ℕ)
      → k < suc m
      → (1 ≤ get_or (sides_of chunked_dims start dims (suc m)) k 0)
        × (get_or start k 0 + get_or (sides_of chunked_dims start dims (suc m)) k 0
            ≤ get_or dims k 0)
        × (get_or (sides_of chunked_dims start dims (suc m)) k 0 ≤ get_or chunked_dims k 0)
  sides_at_most k lt =
      let are = sides_of-IsSides (suc m) chunked_dims start dims is.few_dims in
      let both =
        sides_inside (suc m) chunked_dims start dims (sides_of chunked_dims start dims (suc m)) is
          are k lt in
      (both.0, both.1, omega (arith, are.entry k lt))

  written :
      (c : PlaceCall) (p t : ℕ)
      → Memᴰ c calls
      → t < o.elem_size
      → Writes o.elem_size c (p * o.elem_size + t)
      → Element o.elem_size m
          (sides_of chunked_dims start dims (suc m))
          chunked_dims
          start
          dims
          c
          p
          t
          buffer
  written c p t mem lt w =
      written_row o.elem_size m (sides_of chunked_dims start dims (suc m)) chunked_dims start dims c
        p t buffer lt
        (rows_of-RowAt (sides_of chunked_dims start dims (suc m)) dims chunked_dims m
          (sides_at_most 0 (omega arith)).0 (offset start dims (suc m)) 0 c
          (subst (λ (cs : List PlaceCall). Memᴰ c cs)
            (copy_chunk-rows_of m chunked_dims start dims is) mem))
        w

  -- The coordinates of the element that a call writes at a place are those of the place.
  same_element :
      (c : PlaceCall) (p t : ℕ) (at : ℕ → ℕ)
      → ((k : ℕ) → k < suc m → at k < get_or dims k 0)
      → p ≡ sum_of at dims (suc m)
      → (e : Element o.elem_size m
          (sides_of chunked_dims start dims (suc m))
          chunked_dims
          start
          dims
          c
          p
          t
          buffer)
      → (k : ℕ) → k < suc m
      → at k ≡ get_or start k 0 + e.rel k
  same_element c p t at inside here e k lt =
      sum_of-injective at (λ j. get_or start j 0 + e.rel j) dims (suc m) inside
        (λ j below. omega (arith, e.in_chunk j (omega (arith, below)), sides_at_most j below))
        (sym here ∙ e.place) k lt

  -- For a chunk that starts in the array, of an object of numbers with up to 32 dimensions, its
  -- array and the buffer as long as its sizes and the chunk's say, and the bytes in the machine's
  -- order: the calls of `placeData` for the chunk run without a fault, and leave each byte of an
  -- element of the array that is not in the chunk.
  pub inflated-outside :
      (coords : List ℕ) (t k : ℕ)
      → t < o.elem_size
      → ((j : ℕ) → j < suc m → get_or coords j 0 < get_or dims j 0)
      → k ≤ m
      → (get_or coords k 0 < get_or start k 0)
        ⊎ (get_or start k 0 + get_or chunked_dims k 0 ≤ get_or coords k 0)
      → (out : List ℕ) × (place_calls host
            (copy_chunk (chunked_object (suc m) chunked_dims dims) (map pos start))
            (record o { data_array = some array })
            buffer
            order
          ≡ some (record o { data_array = some out }, buffer))
        × (get_or out (offset coords dims (suc m) * o.elem_size + t) 0
            ≡ get_or array (offset coords dims (suc m) * o.elem_size + t) 0)
  inflated-outside coords t k lt inside le out = (
    placed.out,
    placed.runs,
    placed.byte (offset coords dims (suc m) * o.elem_size + t) _
        (λ c mem w. absurd (apart (written c (offset coords dims (suc m)) t mem lt w))) (inl refl),
  )
    where
      apart :
          {c : PlaceCall}
          → Element o.elem_size m
              (sides_of chunked_dims start dims (suc m))
              chunked_dims
              start
              dims
              c
              (offset coords dims (suc m))
              t
              buffer
          → ⊥
      apart {c} e =
          let same =
            same_element c (offset coords dims (suc m)) t (λ j. get_or coords j 0) inside
              (sum_of-offset (λ j. get_or coords j 0) coords dims (suc m) (λ j below. refl)) e k
              (omega (arith, le)) in
          elim out [
            | inl before ↦ omega (arith, before, same)
            | inr past ↦
                omega (arith, past, same, e.in_chunk k le, sides_at_most k (omega (arith, le)))
          ]

  -- For a chunk that starts in the array, of an object of numbers with up to 32 dimensions, its
  -- array and the buffer as long as its sizes and the chunk's say, and the bytes in the machine's
  -- order: the calls of `placeData` for the chunk run without a fault, and each byte of an element
  -- of the chunk that lies in the array is set to that of this element in the buffer.
  pub inflated-inside :
      (coords : List ℕ) (t : ℕ)
      → t < o.elem_size
      → ((k : ℕ)
          → k < suc m
          → (get_or coords k 0 < get_or chunked_dims k 0)
            × (get_or start k 0 + get_or coords k 0 < get_or dims k 0))
      → (out : List ℕ) × (place_calls host
            (copy_chunk (chunked_object (suc m) chunked_dims dims) (map pos start))
            (record o { data_array = some array })
            buffer
            order
          ≡ some (record o { data_array = some out }, buffer))
        × (get_or out ((offset start dims (suc m) + offset coords dims (suc m)) * o.elem_size + t) 0
            ≡ get_or buffer (offset coords chunked_dims (suc m) * o.elem_size + t) 0)
  inflated-inside coords t lt inside = (
    placed.out,
    placed.runs,
    placed.byte (p * o.elem_size + t) _ (λ c mem w. agree c (written c p t mem lt w))
        (inr (writer, mem_writer, writes)),
  )
    where
      p : ℕ
      p = offset start dims (suc m) + offset coords dims (suc m)

      at : ℕ → ℕ
      at k = get_or start k 0 + get_or coords k 0

      place : p ≡ sum_of at dims (suc m)
      place =
          ap₂ (λ (x y : ℕ). x + y)
            (sum_of-offset (λ j. get_or start j 0) start dims (suc m) (λ j below. refl))
            (sum_of-offset (λ j. get_or coords j 0) coords dims (suc m) (λ j below. refl))
          ∙ sym (sum_of-add (λ j. get_or start j 0) (λ j. get_or coords j 0) dims (suc m))

      agree :
          (c : PlaceCall)
          → Element o.elem_size m
              (sides_of chunked_dims start dims (suc m))
              chunked_dims
              start
              dims
              c
              p
              t
              buffer
          → byte_of o.elem_size c buffer (p * o.elem_size + t)
            ≡ get_or buffer (offset coords chunked_dims (suc m) * o.elem_size + t) 0
      agree c e =
          e.value
          ∙ ap (λ (x : ℕ). get_or buffer (x * o.elem_size + t) 0)
              (sum_of_agree e.rel (λ k. get_or coords k 0) chunked_dims (suc m)
                  (λ k below.
                    omega (arith, same_element c p t at (λ j b. (inside j b).1) place e k below))
                ∙ sym (
                    sum_of-offset (λ j. get_or coords j 0) coords chunked_dims (suc m)
                      (λ j below. refl)))

      first_of : ℕ → ℕ
      first_of k = if k == 0 then 0 else get_or coords k 0

      first_coords : List ℕ
      first_coords = entries first_of (suc m) 0

      at_most : (k x : ℕ) → (if k == 0 then 0 else x) ≤ x
      at_most k x = ground arith

      entry_le : (k : ℕ) → k < suc m → get_or first_coords k 0 ≤ get_or coords k 0
      entry_le k below =
          omega (arith, get_or-entries first_of (suc m) k below, at_most k (get_or coords k 0))

      writer : PlaceCall
      writer = record {
        dst_ind = pos (offset start dims (suc m) + offset first_coords dims (suc m));
        src_ind = pos (offset first_coords chunked_dims (suc m));
        num_elems = pos (min (get_or chunked_dims 0 0) (get_or dims 0 0 - get_or start 0 0));
      }

      mem_writer : Memᴰ writer calls
      mem_writer =
          copy_chunk-covers m chunked_dims start dims first_coords is
            (λ k below. (
              omega (arith, entry_le k below, (inside k below).0),
              omega (arith, entry_le k below, (inside k below).1),
            ))
            (get_or-entries first_of (suc m) 0 (omega arith))

      split :
          (k x : ℕ)
          → (k ≡ 0 → x ≡ get_or coords 0 0)
          → x ≡ (if k == 0 then 0 else x) + along (get_or coords 0 0) k
      split k x e = ground (arith, e)

      row_place : offset coords dims (suc m) ≡ offset first_coords dims (suc m) + get_or coords 0 0
      row_place =
          sum_of-offset (λ j. first_of j + along (get_or coords 0 0) j) coords dims (suc m)
            (λ k below. split k (get_or coords k 0) (λ e. ap (λ (x : ℕ). get_or coords x 0) e))
          ∙ sum_of-add first_of (along (get_or coords 0 0)) dims (suc m)
          ∙ ap₂ (λ (x y : ℕ). x + y)
              (sym (
                sum_of-offset first_of first_coords dims (suc m) (get_or-entries first_of (suc m))))
              (sum_of-along (get_or coords 0 0) dims m)

      writes : Writes o.elem_size writer (p * o.elem_size + t)
      writes =
          row_writes o.elem_size (offset start dims (suc m)) (offset first_coords dims (suc m))
            (offset coords dims (suc m)) (get_or coords 0 0)
            (min (get_or chunked_dims 0 0) (get_or dims 0 0 - get_or start 0 0)) t row_place
            (omega (arith, inside 0 (omega arith))) lt
