-- ===== src/PlaceData/Allocated.antt =====
-- `placeData` after `allocateSpace`, and on bytes in the order that is not the machine's.
use getmatvar.Common.{
  ℕ, zero, suc, ◌+◌, ◌*◌, ◌%◌, ◌^◌, ◌≤◌, ◌<◌, ◌≡◌, refl, sym, ap, ◌⊎◌, inl, inr, true, false,
  Option, none, some, List, length, arith, ltb, leb, ltb→lt, Bool-cases, subst,
}
use native.Mathlib.Nat.{mul-le-mul_right}
use getmatvar.NumberHelper.{ByteOrder, little_endian, big_endian, same_order, reverse_bytes}
use getmatvar.PlaceData.{
  Object, case_of, numbers, allocate_space, allocate_case, code_of, memcpy, reverse_elems,
  place_class, place_data,
}
use getmatvar.PlaceData.Copies.{IsReady, past-ltb, memcpy_fits}

-- `mxMalloc` gives as many bytes as it is asked for, or none.
abbrev pub GivesSize : (ℕ → Option (List ℕ)) → Type 0
GivesSize mx_malloc = (n : ℕ) (a : List ℕ) → mx_malloc n ≡ some a → length a ≡ n

-- The array was given, and the call of `placeData` changes it.
pub record Succeeds (host : ByteOrder) (o : Object) (buffer : List ℕ) (dst src count : ℕ)
    (order : ByteOrder) (code_object : ℕ × Object) : Type 0 where
  pub code : code_object.0 ≡ 0
  pub array : List ℕ
  pub given : code_object.1 ≡ record o { data_array = some array }
  pub out : List ℕ
  pub placed :
      place_data host code_object.1 buffer dst src count o.elem_size order
      ≡ some (record o { data_array = some out }, buffer)

memcpy_any :
    (dst : List ℕ) (d : ℕ) (src : List ℕ) (s n : ℕ)
    → d + n ≤ length dst
    → s + n ≤ length src
    → (out : List ℕ) × (memcpy (some dst) d src s n ≡ some out)
memcpy_any dst d src s n fits fits' = (_, memcpy_fits dst d src s n fits fits')

place_given :
    (host : ByteOrder) (o : Object) (order : ByteOrder) (array buffer : List ℕ) (dst src count : ℕ)
    → IsReady host o order
    → o.elem_size * dst + count * o.elem_size ≤ length array
    → o.elem_size * src + count * o.elem_size ≤ length buffer
    → (out : List ℕ) × (place_data host
          (record o { data_array = some array })
          buffer
          dst
          src
          count
          o.elem_size
          order
        ≡ some (record o { data_array = some out }, buffer))
unfolding place_data place_class
place_given host o order array buffer dst src count is fits fits' =
    let (out, runs) =
      memcpy_any array (o.elem_size * dst) buffer (o.elem_size * src) (count * o.elem_size) fits
        fits' in
    (out, rw (is.same_bytes, is.of_numbers, runs) refl)

allocated :
    (mx_malloc : ℕ → Option (List ℕ)) (o : Object) (a : Option (List ℕ))
    → case_of o.matlab_internal_type ≡ numbers
    → ltb 16 o.elem_size ≡ false
    → o.num_elems * o.elem_size < 2 ^ 64
    → mx_malloc (o.num_elems * o.elem_size) ≡ a
    → allocate_space mx_malloc o ≡ (code_of a, record o { data_array = a })
unfolding allocate_space allocate_case
allocated mx_malloc o a is narrow no_wrap e =
    rw (is, narrow, size (o.num_elems * o.elem_size) no_wrap, e) refl
  where
    size : (n : ℕ) → n < 2 ^ 64 → n % 2 ^ 64 ≡ n
    size n lt = omega arith

refused :
    (mx_malloc : ℕ → Option (List ℕ)) (o : Object)
    → case_of o.matlab_internal_type ≡ numbers
    → ltb 16 o.elem_size ≡ true
    → allocate_space mx_malloc o ≡ (1, o)
unfolding allocate_space allocate_case
refused mx_malloc o is wide = rw (is, wide) refl

-- For an object of numbers of fewer than 2^64 bytes, and an `mxMalloc` that gives as many bytes as
-- it is asked for or none: `allocateSpace` returns 1, and the size of an element is above 16 or
-- nothing was given; or it returns 0, and `placeData` of elements within the object and within the
-- buffer, in the machine's byte order, runs without a fault.
pub allocate_space-place_data :
    (mx_malloc : ℕ → Option (List ℕ)) (host : ByteOrder) (o : Object) (order : ByteOrder)
    (buffer : List ℕ) (dst src count : ℕ)
    → GivesSize mx_malloc
    → IsReady host o order
    → dst + count ≤ o.num_elems
    → (src + count) * o.elem_size ≤ length buffer
    → o.num_elems * o.elem_size < 2 ^ 64
    → (((allocate_space mx_malloc o).0 ≡ 1)
        × ((16 < o.elem_size) ⊎ (mx_malloc (o.num_elems * o.elem_size) ≡ none)))
      ⊎ Succeeds host o buffer dst src count order (allocate_space mx_malloc o)
unfolding code_of
allocate_space-place_data mx_malloc host o order buffer dst src count gives is fits fits' no_wrap =
    elim (Bool-cases (ltb 16 o.elem_size)) [
      | inl wide ↦ inl (
        ap (λ (r : ℕ × Object). r.0) (refused mx_malloc o is.of_numbers wide),
        inl (ltb→lt 16 o.elem_size wide),
      )
      | inr narrow ↦ by_malloc narrow (mx_malloc (o.num_elems * o.elem_size)) refl
    ]
  where
    by_malloc :
        ltb 16 o.elem_size ≡ false
        → (a : Option (List ℕ)) → mx_malloc (o.num_elems * o.elem_size) ≡ a
        → (((allocate_space mx_malloc o).0 ≡ 1)
            × ((16 < o.elem_size) ⊎ (mx_malloc (o.num_elems * o.elem_size) ≡ none)))
          ⊎ Succeeds host o buffer dst src count order (allocate_space mx_malloc o)
    by_malloc narrow none e = inl (
      ap (λ (r : ℕ × Object). r.0) (allocated mx_malloc o none is.of_numbers narrow no_wrap e),
      inr e,
    )
    by_malloc narrow (some array) e =
        let given = allocated mx_malloc o (some array) is.of_numbers narrow no_wrap e in
        let long = gives (o.num_elems * o.elem_size) array e in
        let (out, runs) =
          place_given host o order array buffer dst src count is
            (omega (arith, long, mul-le-mul_right o.elem_size fits)) (omega (arith, fits')) in
        inr (
          subst (Succeeds host o buffer dst src count order) (sym given)
            (record { code = refl; array = array; given = refl; out = out; placed = runs }))

stopped :
    (fuel j : ℕ) (buffer : List ℕ) (count size : ℕ)
    → count ≤ j
    → reverse_elems fuel j buffer count size ≡ some buffer
unfolding reverse_elems
stopped zero j buffer count size le = rw (past-ltb j count le) refl
stopped (suc fuel) j buffer count size le = rw (past-ltb j count le) refl

reverse_once :
    (buffer : List ℕ) (count size : ℕ)
    → 1 ≤ count
    → count ≤ size
    → size ≤ length buffer
    → reverse_elems count 0 buffer count size ≡ some (reverse_bytes buffer size)
unfolding reverse_elems
reverse_once buffer zero size one few long = absurd (omega (arith, one))
reverse_once buffer (suc count) size one few long =
    rw (first, fits)
      (stopped count (0 + size) (reverse_bytes buffer size) (suc count) size (omega (arith, few)))
  where
    first : ltb 0 (suc count) ≡ true
    first = ground arith

    fits : leb (0 + size) (length buffer) ≡ true
    fits = ground (arith, long)

-- Of a row of one element or more, but no more than an element has bytes, with the bytes in the order
-- that is not the machine's, and an element in the buffer: `placeData` reverses the first element of
-- the buffer alone, and copies the row as it then is.
pub place_data-first_reversed :
    (host : ByteOrder) (o : Object) (order : ByteOrder) (buffer : List ℕ) (dst src count size : ℕ)
    → same_order host order ≡ false
    → 1 ≤ count
    → count ≤ size
    → size ≤ length buffer
    → place_data host o buffer dst src count size order
      ≡ place_data host o (reverse_bytes buffer size) dst src count size host
unfolding place_data same_order
place_data-first_reversed host o order buffer dst src count size other one few long =
    rw (other, reverse_once buffer count size one few long, own host) refl
  where
    own : (h : ByteOrder) → same_order h h ≡ true
    own little_endian = refl
    own big_endian = refl
