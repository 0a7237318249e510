-- ===== src/ChunkedData/Copy/Places.antt =====
-- Where the rows of a chunk lie, in the array and in the buffer of the chunk.
use mathlib.Core.List.{Memᴰ}
use mathlib.Core.List.Memᴰ
use getmatvar.Common.{
  ℕ, zero, suc, ◌+◌, ◌-◌, ◌*◌, ◌≤◌, ◌<◌, ◌≡◌, refl, sym, ap, ap₂, inl, inr, List, arith, get_or,
  subst, pos,
}
use getmatvar.ChunkedData.Position.{block, offset, from_zero, get_or-from_zero}
use getmatvar.ChunkedData.Copy.{PlaceCall}
use getmatvar.ChunkedData.Copy.Rows.{repeated, rows_of}

-- The call copies a row of `row` elements, which end before `to` in the array and before `end` in the buffer.
pub record Ends (c : PlaceCall) (to end : ℕ) : Type 0 where
  pub from : ℕ
  pub begin : ℕ
  pub row : ℕ
  pub dst : c.dst_ind ≡ pos from
  pub src : c.src_ind ≡ pos begin
  pub count : c.num_elems ≡ pos row
  pub dst_end : from + row ≤ to
  pub src_end : begin + row ≤ end

pub further :
    {c : PlaceCall} {to to' end end' : ℕ} → Ends c to end → to ≤ to' → end ≤ end' → Ends c to' end'
further e le le' = record {
  from = e.from;
  begin = e.begin;
  row = e.row;
  dst = e.dst;
  src = e.src;
  count = e.count;
  dst_end = omega (arith, e.dst_end, le);
  src_end = omega (arith, e.src_end, le');
}

one_less : (n : ℕ) → 1 ≤ n → suc (n - 1) ≡ n
one_less n some = omega arith

repeated-Ends :
    (rows : ℕ → ℕ → List PlaceCall) (di db e f : ℕ)
    → ((i b : ℕ) (c : PlaceCall) → Memᴰ c (rows i b) → Ends c (i + e) (b + f))
    → (count i b : ℕ) (c : PlaceCall) → Memᴰ c (repeated rows di db (suc count) i b)
    → Ends c (i + (count * di + e)) (b + (count * db + f))
repeated-Ends rows di db e f each zero i b c mem = elim (Memᴰ.append_cases (rows i b) mem) [
  | inl here ↦ further (each i b c here) (omega arith) (omega arith)
  | inr nowhere ↦ absurd (Memᴰ.not-nil nowhere)
]
repeated-Ends rows di db e f each (suc count) i b c mem = elim (Memᴰ.append_cases (rows i b) mem) [
  | inl here ↦ further (each i b c here) (omega arith) (omega arith)
  | inr later ↦
      further (repeated-Ends rows di db e f each count (i + di) (b + db) c later) (omega arith)
        (omega arith)
]

repeated-covers :
    (rows : ℕ → ℕ → List PlaceCall) (di db : ℕ) (x : PlaceCall) (count c i b : ℕ)
    → c < count
    → Memᴰ x (rows (i + c * di) (b + c * db))
    → Memᴰ x (repeated rows di db count i b)
repeated-covers rows di db x zero c i b lt mem = absurd (omega (arith, lt))
repeated-covers rows di db x (suc count) zero i b lt mem =
    Memᴰ.append_left (repeated rows di db count (i + di) (b + db)) (
      subst (λ (y : ℕ). Memᴰ x (rows y b)) (no_step i di)
        (subst (λ (y : ℕ). Memᴰ x (rows (i + 0 * di) y)) (no_step b db) mem))
  where
    no_step : (k d : ℕ) → k + 0 * d ≡ k
    no_step k d = omega arith
repeated-covers rows di db x (suc count) (suc c) i b lt mem = Memᴰ.append_right (rows i b) (
    repeated-covers rows di db x count c (i + di) (b + db) (omega (arith, lt)) (
      subst (λ (y : ℕ). Memᴰ x (rows y (b + db + c * db))) (one_step i di)
        (subst (λ (y : ℕ). Memᴰ x (rows (i + suc c * di) y)) (one_step b db) mem)))
  where
    one_step : (k d : ℕ) → k + suc c * d ≡ k + d + c * d
    one_step k d = omega arith

module _ (sides dims buffer : List ℕ) where
  abbrev last : List ℕ → ℕ → ℕ
  last sizes m = offset (from_zero sides) sizes (suc m) + 1

  one_row :
      (k : ℕ) (sizes : List ℕ) → 1 ≤ get_or sides 0 0 → k + get_or sides 0 0 ≤ k + last sizes 0
  one_row k sizes some = omega (arith, some, get_or-from_zero sides 0)

  last-repeated :
      (k m : ℕ) (sizes : List ℕ)
      → k + ((get_or sides (suc m) 0 - 1) * block sizes (suc m) + last sizes m)
        ≤ k + last sizes (suc m)
  last-repeated k m sizes =
      omega (arith, ap (λ (x : ℕ). x * block sizes (suc m)) (get_or-from_zero sides (suc m)))

  pub rows_of-Ends :
      (m : ℕ)
      → ((k : ℕ) → k ≤ m → 1 ≤ get_or sides k 0)
      → (i b : ℕ) (c : PlaceCall) → Memᴰ c (rows_of sides dims buffer m i b)
      → Ends c (i + last dims m) (b + last buffer m)
  rows_of-Ends zero some i b c mem =
      subst (λ (x : PlaceCall). Ends x (i + last dims 0) (b + last buffer 0))
        (sym (Memᴰ.eq_of_singleton mem))
        (record {
          from = i;
          begin = b;
          row = get_or sides 0 0;
          dst = refl;
          src = refl;
          count = refl;
          dst_end = one_row i dims (some 0 (omega arith));
          src_end = one_row b buffer (some 0 (omega arith));
        })
  rows_of-Ends (suc m) some i b c mem =
      further
        (repeated-Ends (rows_of sides dims buffer m) (block dims (suc m)) (block buffer (suc m))
          (last dims m) (last buffer m) (rows_of-Ends m (λ k le. some k (omega (arith, le))))
          (get_or sides (suc m) 0 - 1) i b c
          (subst
            (λ (count : ℕ). Memᴰ c (
              repeated (rows_of sides dims buffer m) (block dims (suc m)) (block buffer (suc m))
                count i b))
            (sym (one_less (get_or sides (suc m) 0) (some (suc m) (omega arith)))) mem))
        (last-repeated i m dims) (last-repeated b m buffer)

  -- A row for each element of the chunk with the coordinate 0 in the first dimension.
  pub rows_of-covers :
      (coords : List ℕ) (m : ℕ)
      → ((k : ℕ) → k ≤ m → get_or coords k 0 < get_or sides k 0)
      → get_or coords 0 0 ≡ 0
      → (i b : ℕ)
      → Memᴰ
          (record {
            dst_ind = pos (i + offset coords dims (suc m));
            src_ind = pos (b + offset coords buffer (suc m));
            num_elems = pos (get_or sides 0 0);
          })
          (rows_of sides dims buffer m i b)
  rows_of-covers coords zero inside first i b = Memᴰ.head (
      ap₂
        (λ (x y : ℕ). record {
          dst_ind = pos x;
          src_ind = pos y;
          num_elems = pos (get_or sides 0 0);
        })
        (at_first i) (at_first b))
    where
      at_first : (k : ℕ) → k + (0 + get_or coords 0 0 * 1) ≡ k
      at_first k = omega (arith, first)
  rows_of-covers coords (suc m) inside first i b =
      repeated-covers (rows_of sides dims buffer m) (block dims (suc m)) (block buffer (suc m)) _
        (get_or sides (suc m) 0) (get_or coords (suc m) 0) i b (inside (suc m) (omega arith))
        (subst
          (λ (x : PlaceCall). Memᴰ x (
            rows_of sides dims buffer m (i + get_or coords (suc m) 0 * block dims (suc m))
              (b + get_or coords (suc m) 0 * block buffer (suc m))))
          (ap₂
            (λ (x y : ℕ). record {
              dst_ind = pos x;
              src_ind = pos y;
              num_elems = pos (get_or sides 0 0);
            })
            (regroup i _ _) (regroup b _ _))
          (rows_of-covers coords m (λ k le. inside k (omega (arith, le))) first
            (i + get_or coords (suc m) 0 * block dims (suc m))
            (b + get_or coords (suc m) 0 * block buffer (suc m))))
    where
      regroup : (k o p : ℕ) → k + p + o ≡ k + (o + p)
      regroup k o p = omega arith
