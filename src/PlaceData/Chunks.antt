-- ===== src/PlaceData/Chunks.antt =====
-- Which element of a chunk a call of `placeData` writes.
use native.Mathlib.Nat.{mul-le-mul_left, mul-le-mul_right}
use getmatvar.Common.{
  ℕ, suc, ◌+◌, ◌*◌, ◌-◌, ◌≤◌, ◌<◌, ◌≡◌, ◌≢◌, refl, sym, ap, ap₂, ◌∙◌, ◌⊎◌, inl, inr, List, arith,
  get_or, pos_part, subst,
}
use getmatvar.ChunkedData.Position.{offset}
use getmatvar.ChunkedData.Copy.{PlaceCall}
use getmatvar.PlaceData.Sums.{sum_of, sum_of-offset, sum_of-add, along, sum_of-along}
use getmatvar.PlaceData.Rows.{RowAt}
use getmatvar.PlaceData.Copies.{Writes, byte_of}

-- The element of a byte of a row.
element_of :
    (size a r p t : ℕ)
    → size * a ≤ p * size + t
    → p * size + t < size * a + r * size
    → t < size
    → (a ≤ p) × (p < a + r)
element_of size a r p t from to lt = (lower (le_or_past a p), upper (le_or_past (a + r) p))
  where
    le_or_past : (x y : ℕ) → (x ≤ y) ⊎ (suc y ≤ x)
    le_or_past x y = omega arith

    lower : (a ≤ p) ⊎ (suc p ≤ a) → a ≤ p
    lower (inl le) = le
    lower (inr past) = absurd (omega (arith, from, lt, mul-le-mul_left size past))

    upper : (a + r ≤ p) ⊎ (suc p ≤ a + r) → p < a + r
    upper (inl le) = absurd (omega (arith, to, lt, mul-le-mul_left size le))
    upper (inr past) = past

pub last_byte : (size u r t : ℕ) → u < r → t < size → u * size + t < r * size
last_byte size u r t lt lt' = omega (arith, lt', mul-le-mul_right size lt)

along-less : (u side k : ℕ) → k ≢ 0 → along u k ≡ 0
along-less u side k ne = ground (arith, ne)

zero_or_later : (k : ℕ) → (k ≡ 0) ⊎ (k ≢ 0)
zero_or_later k = ground arith

shifted :
    (size i s b u t : ℕ)
    → size * (0 + b) + ((i + (s + u)) * size + t - size * (i + s)) ≡ (b + u) * size + t
shifted size i s b u t = omega arith

module _ (size m : ℕ) (sides chunked_dims start dims : List ℕ) where
  -- The element of the chunk that a call writes at the byte `t` of the place `p`.
  pub record Element (c : PlaceCall) (p t : ℕ) (buffer : List ℕ) : Type 0 where
    pub rel : ℕ → ℕ
    pub in_chunk : (k : ℕ) → k ≤ m → rel k < get_or sides k 0
    pub place : p ≡ sum_of (λ k. get_or start k 0 + rel k) dims (suc m)
    pub value :
        byte_of size c buffer (p * size + t)
        ≡ get_or buffer (sum_of rel chunked_dims (suc m) * size + t) 0

  pub written_row :
      (c : PlaceCall) (p t : ℕ) (buffer : List ℕ)
      → t < size
      → RowAt sides dims chunked_dims m (offset start dims (suc m)) 0 c
      → Writes size c (p * size + t)
      → Element c p t buffer
  written_row c p t buffer lt r w = record {
    rel = λ k. r.at k + along u k;
    in_chunk = λ k le. elim (zero_or_later k) [
      | inl e ↦
          subst (λ (x : ℕ). r.at x + along u x < get_or sides x 0) (sym e)
            (omega (arith, r.first, short))
      | inr ne ↦ omega (arith, along-less u 0 k ne, r.inside k le)
    ];
    place = whole_place ∙ sym started;
    value =
        ap (λ (x : ℕ). get_or buffer x 0)
          (moved src dst whole_place
            ∙ ap (λ (x : ℕ). x * size + t)
                (sym (
                  sum_of-add r.at (along u) chunked_dims (suc m)
                  ∙ ap (λ (x : ℕ). sum_of r.at chunked_dims (suc m) + x)
                      (sum_of-along u chunked_dims m))));
  }
    where
      dst : pos_part c.dst_ind ≡ offset start dims (suc m) + sum_of r.at dims (suc m)
      dst = ap pos_part r.dst

      src : pos_part c.src_ind ≡ 0 + sum_of r.at chunked_dims (suc m)
      src = ap pos_part r.src

      count : pos_part c.num_elems ≡ get_or sides 0 0
      count = ap pos_part r.count

      within : (pos_part c.dst_ind ≤ p) × (p < pos_part c.dst_ind + pos_part c.num_elems)
      within = element_of size (pos_part c.dst_ind) (pos_part c.num_elems) p t w.0 w.1 lt

      u : ℕ
      u = p - pos_part c.dst_ind

      short : p - pos_part c.dst_ind < get_or sides 0 0
      short = omega (arith, within.0, within.1, count)

      whole_place : p ≡ offset start dims (suc m) + (sum_of r.at dims (suc m) + u)
      whole_place = omega (arith, dst, within.0)

      started :
          sum_of (λ k. get_or start k 0 + (r.at k + along u k)) dims (suc m)
          ≡ offset start dims (suc m) + (sum_of r.at dims (suc m) + u)
      started =
          sum_of-add (λ k. get_or start k 0) (λ k. r.at k + along u k) dims (suc m)
          ∙ ap₂ (λ (x y : ℕ). x + y)
              (sym (sum_of-offset (λ k. get_or start k 0) start dims (suc m) (λ k below. refl)))
              (sum_of-add r.at (along u) dims (suc m)
                ∙ ap (λ (x : ℕ). sum_of r.at dims (suc m) + x) (sum_of-along u dims m))

      moved :
          pos_part c.src_ind ≡ 0 + sum_of r.at chunked_dims (suc m)
          → pos_part c.dst_ind ≡ offset start dims (suc m) + sum_of r.at dims (suc m)
          → p ≡ offset start dims (suc m) + (sum_of r.at dims (suc m) + u)
          → size * pos_part c.src_ind + (p * size + t - size * pos_part c.dst_ind)
            ≡ (sum_of r.at chunked_dims (suc m) + u) * size + t
      moved s d w =
          ap₂ (λ (x y : ℕ). size * x + (p * size + t - size * y)) s d
          ∙ ap
              (λ (x : ℕ).
                size * (0 + sum_of r.at chunked_dims (suc m))
                + (x * size + t - size * (offset start dims (suc m) + sum_of r.at dims (suc m))))
              w
          ∙ shifted size (offset start dims (suc m)) (sum_of r.at dims (suc m))
              (sum_of r.at chunked_dims (suc m)) u t
