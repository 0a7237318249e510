-- ===== src/ChunkedData/Updates.antt =====
-- What `makeChunkedUpdates` computes: how far to go on from the last element of a row of blocks.
use native.Mathlib.Nat.{mul-le-mul_left}
use getmatvar.Common.{
  ℕ, zero, suc, ◌+◌, ◌-◌, ◌≤◌, ◌<◌, ◌≡◌, refl, sym, ap, ◌∙◌, inl, inr, List, map, arith, length,
  get_or, set, length-set, get_or-set_self, get_or-set_ne, ◌==◌, ==_iff, Bool-cases, ℤ, pos, ◌+ℤ◌,
  +ℤ-pos, *ℤ-pos, -ℤ-pos,
}
use getmatvar.ChunkedData.{
  sums_loop, update_at, updates_loop, make_chunked_updates, find_array_position,
}
use getmatvar.ChunkedData.Position.{
  block, offset, get_or-map_pos, from_zero, get_or-from_zero, find_array_position-offset,
}

zero_add : (n : ℕ) → 0 + n ≡ n
zero_add n = omega arith

module _ (chunked_dims dims : List ℕ) where
  abbrev pub Fits : ℕ → Type 0
  Fits n =
      (k : ℕ) → k < n → (1 ≤ get_or chunked_dims k 0) × (get_or chunked_dims k 0 ≤ get_or dims k 0)

  sums_loop-offset :
      (left k : ℕ)
      → Fits (k + left)
      → sums_loop left k
          (pos (offset (from_zero chunked_dims) dims k))
          (pos (block dims k))
          (map pos chunked_dims)
          (map pos dims)
        ≡ (pos (offset (from_zero chunked_dims) dims (k + left)), pos (block dims (k + left)))
  unfolding sums_loop
  sums_loop-offset zero k fits =
      ap (λ (j : ℕ). (pos (offset (from_zero chunked_dims) dims j), pos (block dims j)))
        (omega arith)
  sums_loop-offset (suc left) k fits =
      rw
        (
          get_or-map_pos chunked_dims k,
          get_or-map_pos dims k,
          -ℤ-pos (get_or chunked_dims k 0) 1 (fits k (omega arith)).0,
          *ℤ-pos (get_or chunked_dims k 0 - 1) (block dims k),
          *ℤ-pos (block dims k) (get_or dims k 0),
          +ℤ-pos,
          sym (get_or-from_zero chunked_dims k),
        )
        (sums_loop-offset left (suc k) (λ j lt. fits j (omega arith))
          ∙ ap (λ (j : ℕ). (pos (offset (from_zero chunked_dims) dims j), pos (block dims j)))
              (omega arith))

  -- The last element of the chunk is one of the array's.
  pub corner-bound : (n : ℕ) → Fits n → offset (from_zero chunked_dims) dims n + 1 ≤ block dims n
  corner-bound zero fits = omega arith
  corner-bound (suc n) fits = omega (
    arith,
    corner-bound n (λ j lt. fits j (omega arith)),
    get_or-from_zero chunked_dims n,
    fits n (omega arith),
    mul-le-mul_left (block dims n) side,
  )
    where
      side : get_or (from_zero chunked_dims) n 0 + 1 ≤ get_or dims n 0
      side = omega (arith, get_or-from_zero chunked_dims n, fits n (omega arith))

  pub update_at-block :
      (i : ℕ)
      → Fits (suc i)
      → update_at i (map pos chunked_dims) (map pos dims)
        ≡ pos (block dims (suc i) - offset (from_zero chunked_dims) dims (suc i) - 1)
  unfolding update_at
  update_at-block i fits = rw sums (
      rw
        (
          -ℤ-pos (block dims (suc i)) (offset (from_zero chunked_dims) dims (suc i))
              (omega (arith, corner-bound (suc i) fits)),
          -ℤ-pos (block dims (suc i) - offset (from_zero chunked_dims) dims (suc i)) 1
              (omega (arith, corner-bound (suc i) fits)),
        )
        refl)
    where
      sums :
          sums_loop (suc i) 0 (pos 0) (pos 1) (map pos chunked_dims) (map pos dims)
          ≡ (pos (offset (from_zero chunked_dims) dims (suc i)), pos (block dims (suc i)))
      sums =
          sums_loop-offset (suc i) 0 (λ j lt. fits j (omega arith))
          ∙ ap (λ (j : ℕ). (pos (offset (from_zero chunked_dims) dims j), pos (block dims j)))
              (zero_add (suc i))

  updates_loop-below :
      (left i : ℕ) (chunk_update : List ℤ) (j : ℕ)
      → j < i
      → get_or (updates_loop left i chunk_update (map pos chunked_dims) (map pos dims)) j (pos 0)
        ≡ get_or chunk_update j (pos 0)
  unfolding updates_loop
  updates_loop-below zero i chunk_update j lt = refl
  updates_loop-below (suc left) i chunk_update j lt =
      updates_loop-below left (suc i) _ j (omega arith)
      ∙ get_or-set_ne chunk_update i j _ (pos 0) (omega arith)

  pub updates_loop-at :
      (left i : ℕ) (chunk_update : List ℤ) (j : ℕ)
      → i + left ≤ length chunk_update
      → i ≤ j
      → j < i + left
      → get_or (updates_loop left i chunk_update (map pos chunked_dims) (map pos dims)) j (pos 0)
        ≡ update_at j (map pos chunked_dims) (map pos dims)
  unfolding updates_loop
  updates_loop-at zero i chunk_update j room from to = ground arith
  updates_loop-at (suc left) i chunk_update j room from to =
      let u = update_at i (map pos chunked_dims) (map pos dims) in
      elim (Bool-cases (j == i)) [
        | inl e ↦ rw ((==_iff j i).0 e) (
            updates_loop-below left (suc i) (set chunk_update i u) i (omega arith)
            ∙ get_or-set_self chunk_update i u (pos 0) (omega arith))
        | inr ne ↦
            updates_loop-at left (suc i) (set chunk_update i u) j
              (omega (arith, length-set chunk_update i u)) (ground arith) (omega arith)
      ]

  -- For a chunk with every side at least 1 and no longer than the array's: from the last element
  -- of a block of the chunk's first `i + 1` dimensions, one step and the entry `i` that
  -- `makeChunkedUpdates` writes lead to where the next such block begins, as many elements further
  -- than the start of the first as the array has in these dimensions.
  pub make_chunked_updates-step :
      (n : ℕ) (chunk_update : List ℤ) (i : ℕ)
      → n ≤ length chunk_update
      → Fits n
      → i < n
      → find_array_position (map pos (from_zero chunked_dims)) (map pos dims) (suc i)
          +ℤ pos 1
          +ℤ get_or
              (make_chunked_updates chunk_update (map pos chunked_dims) (map pos dims) n)
              i
              (pos 0)
        ≡ pos (block dims (suc i))
  unfolding make_chunked_updates
  make_chunked_updates-step n chunk_update i room fits lt =
      rw
        (
          find_array_position-offset (from_zero chunked_dims) dims (suc i),
          updates_loop-at n 0 chunk_update i (omega arith) (omega arith) (omega arith),
          update_at-block i inner,
          +ℤ-pos (offset (from_zero chunked_dims) dims (suc i)) 1,
          +ℤ-pos (offset (from_zero chunked_dims) dims (suc i) + 1),
        )
        (ap pos (omega (arith, corner-bound (suc i) inner)))
    where
      inner : Fits (suc i)
      inner j below = fits j (omega arith)
