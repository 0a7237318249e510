-- ===== src/PlaceData/Rows.antt =====
-- Each row of a chunk is that of some coordinates.
use mathlib.Core.List.{Memᴰ}
use mathlib.Core.List.Memᴰ
use getmatvar.Common.{
  ℕ, zero, suc, ◌+◌, ◌*◌, ◌≤◌, ◌<◌, ◌≡◌, refl, sym, ap, ◌∙◌, List, arith, get_or, ◌==◌,
  if◌then◌else◌, true, false, pos, inl, inr, subst, Bool-cases, ==_iff,
}
use getmatvar.ChunkedData.Position.{block}
use getmatvar.ChunkedData.Copy.{PlaceCall}
use getmatvar.ChunkedData.Copy.Rows.{repeated, rows_of}
use getmatvar.PlaceData.Sums.{sum_of, sum_of_agree}

-- The call `c` copies the row that begins at the coordinates `at`, of a chunk at `i` and `b`.
pub record RowAt (sides dims buffer : List ℕ) (m i b : ℕ) (c : PlaceCall) : Type 0 where
  pub at : ℕ → ℕ
  pub inside : (k : ℕ) → k ≤ m → at k < get_or sides k 0
  pub first : at 0 ≡ 0
  pub dst : c.dst_ind ≡ pos (i + sum_of at dims (suc m))
  pub src : c.src_ind ≡ pos (b + sum_of at buffer (suc m))
  pub count : c.num_elems ≡ pos (get_or sides 0 0)

repeated-at :
    (rows : ℕ → ℕ → List PlaceCall) (di db : ℕ) (c : PlaceCall) (count i b : ℕ)
    → Memᴰ c (repeated rows di db count i b)
    → (j : ℕ) × (j < count) × Memᴰ c (rows (i + j * di) (b + j * db))
repeated-at rows di db c zero i b mem = absurd (Memᴰ.not-nil mem)
repeated-at rows di db c (suc count) i b mem = elim (Memᴰ.append_cases (rows i b) mem) [
  | inl here ↦ (
    0,
    omega arith,
    subst (λ (x : ℕ). Memᴰ c (rows x (b + 0 * db))) (no_step i di)
        (subst (λ (y : ℕ). Memᴰ c (rows i y)) (no_step b db) here),
  )
  | inr later ↦
      let (j, lt, found) = repeated-at rows di db c count (i + di) (b + db) later in
      (
        suc j,
        omega (arith, lt),
        subst (λ (x : ℕ). Memᴰ c (rows x (b + suc j * db))) (one_step i di j)
            (subst (λ (y : ℕ). Memᴰ c (rows (i + di + j * di) y)) (one_step b db j) found),
      )
]
  where
    no_step : (k d : ℕ) → k ≡ k + 0 * d
    no_step k d = omega arith

    one_step : (k d j : ℕ) → k + d + j * d ≡ k + suc j * d
    one_step k d j = omega arith

module _ (sides dims buffer : List ℕ) where
  only : 1 ≤ get_or sides 0 0 → (k : ℕ) → k ≤ 0 → 0 < get_or sides k 0
  only some zero le = some
  only some (suc k) le = absurd (omega (arith, le))

  next-RowAt :
      (m j i b : ℕ) (c : PlaceCall)
      → j < get_or sides (suc m) 0
      → RowAt sides dims buffer m (i + j * block dims (suc m)) (b + j * block buffer (suc m)) c
      → RowAt sides dims buffer (suc m) i b c
  next-RowAt m j i b c lt r = record {
    at = at;
    inside = λ k le. elim (Bool-cases (k == suc m)) [
      | inl e ↦
          subst (λ (x : ℕ). x < get_or sides k 0) (sym (last k e))
            (subst (λ (x : ℕ). j < get_or sides x 0) (sym ((==_iff k (suc m)).0 e)) lt)
      | inr ne ↦
          subst (λ (x : ℕ). x < get_or sides k 0) (sym (before k ne)) (r.inside k (below k le ne))
    ];
    first = before 0 (ground arith) ∙ r.first;
    dst = r.dst ∙ ap pos (regroup i dims);
    src = r.src ∙ ap pos (regroup b buffer);
    count = r.count;
  }
    where
      at : ℕ → ℕ
      at k = if k == suc m then j else r.at k

      last : (k : ℕ) → (k == suc m) ≡ true → at k ≡ j
      last k e = rw e refl

      before : (k : ℕ) → (k == suc m) ≡ false → at k ≡ r.at k
      before k ne = rw ne refl

      below : (k : ℕ) → k ≤ suc m → (k == suc m) ≡ false → k ≤ m
      below k le ne = ground (arith, le, ne)

      self : suc m == suc m ≡ true
      self = ground arith

      apart : (k : ℕ) → k < suc m → (k == suc m) ≡ false
      apart k lt = ground (arith, lt)

      regroup :
          (k : ℕ) (sizes : List ℕ)
          → k + j * block sizes (suc m) + sum_of r.at sizes (suc m)
            ≡ k + sum_of at sizes (suc (suc m))
      regroup k sizes = omega (
        arith,
        sum_of_agree at r.at sizes (suc m) (λ x lt. before x (apart x lt)),
        ap (λ (x : ℕ). x * block sizes (suc m)) (last (suc m) self),
      )

  pub rows_of-RowAt :
      (m : ℕ)
      → 1 ≤ get_or sides 0 0
      → (i b : ℕ) (c : PlaceCall) → Memᴰ c (rows_of sides dims buffer m i b)
      → RowAt sides dims buffer m i b c
  rows_of-RowAt zero some i b c mem =
      subst (λ (x : PlaceCall). RowAt sides dims buffer 0 i b x) (sym (Memᴰ.eq_of_singleton mem))
        (record {
          at = λ k. 0;
          inside = only some;
          first = refl;
          dst = ap pos (omega arith);
          src = ap pos (omega arith);
          count = refl;
        })
  rows_of-RowAt (suc m) some i b c mem =
      let (j, lt, found) =
        repeated-at (rows_of sides dims buffer m) (block dims (suc m)) (block buffer (suc m)) c
          (get_or sides (suc m) 0) i b mem in
      next-RowAt m j i b c lt
        (rows_of-RowAt m some (i + j * block dims (suc m)) (b + j * block buffer (suc m)) c found)
