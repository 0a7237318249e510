-- ===== src/ChunkedData/Copy/Levels.antt =====
-- All blocks of a dimension, from those of the dimension before.
use getmatvar.Common.{
  ℕ, zero, suc, ◌+◌, ◌-◌, ◌*◌, ◌≤◌, ◌<◌, ◌≡◌, ◌≢◌, sym, ap, ap₂, ◌∙◌, ◌⊎◌, inl, inr, List, ◌++◌,
  append_assoc, arith, get_or, max, pos,
}
use getmatvar.ChunkedData.Position.{block, from_zero, get_or-from_zero}
use getmatvar.ChunkedData.Copy.{PlaceCall, Layout, copy_loop}
use getmatvar.ChunkedData.Copy.Rows.{repeated, rows_of, IsLayout}
use getmatvar.ChunkedData.Copy.Steps.{At, Copied, behind, end_of, behind-kept, row-Copied}
use getmatvar.ChunkedData.Copy.Blocks.{Level, Repeated, next-At, last-Repeated}

wider : (bound m : ℕ) → max (max bound (m + 2)) (m + 3) ≡ max bound (m + 3)
wider bound m = omega arith

next_place :
    (i block count end : ℕ) → i + block + count * block + end + 1 ≡ i + suc count * block + end + 1
next_place i block count end = omega arith

one_less : (side : ℕ) → 1 ≤ side → suc (side - 1) ≡ side
one_less side some = omega arith

three_more : (m : ℕ) → m + 3 ≡ suc m + 2
three_more m = omega arith

less_differs : {a b : ℕ} → a < b → a ≢ b
less_differs lt = omega (arith, lt)

module _ {l : Layout} {n total : ℕ} {sides dims buffer : List ℕ}
    (is : IsLayout l n total sides dims buffer) where
  -- One block and the rest of them.
  more-Repeated :
      (m count : ℕ) (chunk_pos : List ℕ) (bound i b fuel : ℕ) (found : List PlaceCall)
      → At is m chunk_pos bound i fuel
      → (d : Copied is m chunk_pos bound i b fuel (rows_of sides dims buffer m i b) found)
      → suc (suc m) ≤ n
      → get_or chunk_pos (suc m) 0 + suc (suc count) ≡ get_or sides (suc m) 0
      → Repeated is m count d.pos_behind
          (max bound (m + 2))
          (i + block dims (suc m))
          (b + block buffer (suc m))
          (copy_loop d.fuel_behind l d.pos_behind
            (max bound (m + 2))
            (pos (i + block dims (suc m)))
            (pos (b + block buffer (suc m))))
      → Repeated is m (suc count) chunk_pos bound i b found
  more-Repeated m count chunk_pos bound i b fuel found at d level left r = record {
    pos_behind = r.pos_behind;
    fuel_behind = r.fuel_behind;
    runs =
        d.runs
        ∙ ap (λ (x : List PlaceCall). rows ++ x)
            (behind-kept is m d.fuel_behind (max bound (m + 2)) i b d.pos_behind
                (omega (arith, level)) open_end
              ∙ r.runs)
        ∙ sym (append_assoc rows _ _)
        ∙ ap
            (λ (w : ℕ).
              (rows ++ rest)
              ++ behind is (suc m) r.fuel_behind r.pos_behind w
                  (i + block dims (suc m) + count * block dims (suc m) + end_of is dims (suc m) + 1)
                  (b
                    + block buffer (suc m)
                    + count * block buffer (suc m)
                    + end_of is buffer (suc m)
                    + 1))
            (wider bound m)
        ∙ ap₂
            (λ (x y : ℕ).
              (rows ++ rest)
              ++ behind is (suc m) r.fuel_behind r.pos_behind (max bound (m + 3)) x y)
            (next_place i (block dims (suc m)) count (end_of is dims (suc m)))
            (next_place b (block buffer (suc m)) count (end_of is buffer (suc m)));
    whole = r.whole;
    zeros = r.zeros;
    next = r.next ∙ ap suc (d.others (suc (suc m)) (omega arith));
    others = λ j beyond. r.others j beyond ∙ d.others j (omega (arith, beyond));
    enough = omega (arith, r.enough);
  }
    where
      rows : List PlaceCall
      rows = rows_of sides dims buffer m i b

      rest : List PlaceCall
      rest =
          repeated (rows_of sides dims buffer m) (block dims (suc m)) (block buffer (suc m))
            (suc count) (i + block dims (suc m)) (b + block buffer (suc m))

      first_or_after : (j : ℕ) → suc m ≤ j → (j ≡ suc m) ⊎ (suc m < j)
      first_or_after j from = omega arith

      open_end :
          (k : ℕ) → suc m ≤ k → k < max bound (m + 2) → get_or d.pos_behind k 0 ≢ get_or sides k 0
      open_end k from to = elim (first_or_after k from) [
        | inl e ↦ rw (e, d.next) (omega (arith, left))
        | inr after ↦
            rw (d.others k after)
              (less_differs (at.below k from (omega (arith, to, at.at_most, level))))
      ]

  -- All blocks that are left in the dimension `m + 1`.
  blocks-Repeated :
      (m : ℕ)
      → Level is m
      → suc (suc m) ≤ n
      → (count : ℕ) (chunk_pos : List ℕ) (bound i b fuel : ℕ) → At is m chunk_pos bound i fuel
      → get_or chunk_pos (suc m) 0 + suc count ≡ get_or sides (suc m) 0
      → i + count * block dims (suc m) + end_of is dims (suc m) + 1 ≤ total
      → Repeated is m count chunk_pos bound i b (copy_loop fuel l chunk_pos bound (pos i) (pos b))
  blocks-Repeated m one level zero chunk_pos bound i b fuel at left inside =
      last-Repeated is m chunk_pos bound i b fuel _ at (one chunk_pos bound i b fuel at) level left
  blocks-Repeated m one level (suc count) chunk_pos bound i b fuel at left inside =
      let d = one chunk_pos bound i b fuel at in
      more-Repeated m count chunk_pos bound i b fuel _ at d level left (
        blocks-Repeated m one level count d.pos_behind (max bound (m + 2)) (i + block dims (suc m))
          (b + block buffer (suc m)) d.fuel_behind
          (next-At is m chunk_pos bound i b fuel _ _ at d level (omega (arith, left))
            (omega (arith, inside)))
          (ap (λ (k : ℕ). k + suc count) d.next ∙ omega (arith, left)) (omega (arith, inside)))

  -- A block of one dimension more.
  next-Level : (m : ℕ) → suc (suc m) ≤ n → Level is m → Level is (suc m)
  next-Level m level one chunk_pos bound i b fuel at = record {
    pos_behind = r.pos_behind;
    fuel_behind = r.fuel_behind;
    runs =
        r.runs
        ∙ ap₂
            (λ (x y : ℕ).
              repeated (rows_of sides dims buffer m) (block dims (suc m)) (block buffer (suc m))
                (suc count) i b
              ++ behind is (suc m) r.fuel_behind r.pos_behind (max bound (m + 3)) x y)
            (corner i dims) (corner b buffer)
        ∙ ap₂
            (λ (c w : ℕ).
              repeated (rows_of sides dims buffer m) (block dims (suc m)) (block buffer (suc m)) c i
                b
              ++ behind is (suc m) r.fuel_behind r.pos_behind (max bound w)
                  (i + end_of is dims (suc (suc m)) + 1) (b + end_of is buffer (suc (suc m)) + 1))
            (one_less (get_or sides (suc m) 0) some_side) (three_more m);
    whole = r.whole;
    zeros = r.zeros;
    next = r.next;
    others = r.others;
    enough = omega (arith, r.enough, corner i dims);
  }
    where
      count : ℕ
      count = get_or sides (suc m) 0 - 1

      some_side : 1 ≤ get_or sides (suc m) 0
      some_side = (is.fits_dims (suc m) level).0

      first_or_after : (j : ℕ) → suc m ≤ j → (j ≡ suc m) ⊎ (suc m < j)
      first_or_after j from = omega arith

      last_block :
          (sizes : List ℕ)
          → get_or (from_zero sides) (suc m) 0 * block sizes (suc m) ≡ count * block sizes (suc m)
      last_block sizes = ap (λ (k : ℕ). k * block sizes (suc m)) (get_or-from_zero sides (suc m))

      corner :
          (k : ℕ) (sizes : List ℕ)
          → k + count * block sizes (suc m) + end_of is sizes (suc m) + 1
            ≡ k + end_of is sizes (suc (suc m)) + 1
      corner k sizes = omega (arith, last_block sizes)

      at_first : At is m chunk_pos bound i fuel
      at_first = record {
        whole = at.whole;
        zeros = λ j from to. at.zeros j from (omega (arith, to));
        below = λ j from to. elim (first_or_after j from) [
          | inl e ↦ rw (e, at.zeros (suc m) (omega arith) (omega arith)) some_side
          | inr after ↦ at.below j after to
        ];
        top = at.top;
        at_least = at.at_least;
        at_most = at.at_most;
        level = omega (arith, level);
        inside = omega (arith, at.inside);
        enough = at.enough;
      }

      r : Repeated is m count chunk_pos bound i b (copy_loop fuel l chunk_pos bound (pos i) (pos b))
      r =
          blocks-Repeated m one level count chunk_pos bound i b fuel at_first
            (rw (at.zeros (suc m) (omega arith) (omega arith)) (omega (arith, some_side)))
            (omega (arith, at.inside, last_block dims))

  pub all-Level : (m : ℕ) → suc m ≤ n → Level is m
  all-Level zero level = row-Copied is
  all-Level (suc m) level = next-Level m level (all-Level m (omega arith))
