-- ===== src/ChunkedData/Copy/Blocks.antt =====
-- The rows of a chunk, dimension by dimension.
use getmatvar.Common.{
  ℕ, suc, ◌+◌, ◌*◌, ◌≤◌, ◌<◌, ◌≡◌, ◌≢◌, sym, ap, ap₂, ◌∙◌, ◌⊎◌, inl, inr, List, ◌++◌, append-nil,
  arith, length, get_or, set, length-set, get_or-set_self, get_or-set_ne, leb, if◌then◌else◌, max,
  pos,
}
use getmatvar.ChunkedData.Position.{block}
use getmatvar.ChunkedData.Updates.{Fits, corner-bound}
use getmatvar.ChunkedData.Copy.{PlaceCall, Layout, copy_loop}
use getmatvar.ChunkedData.Copy.Rows.{repeated, rows_of, IsLayout}
use getmatvar.ChunkedData.Copy.Steps.{At, Copied, behind, end_of, behind-carried}

same_place : (i block end : ℕ) → i + end + 1 ≡ i + 0 * block + end + 1
same_place i block end = omega arith

widened :
    (bound m : ℕ)
    → (if leb (max bound (m + 2)) (suc (suc m)) then suc (max bound (m + 2)) else max bound (m + 2))
      ≡ max bound (m + 3)
widened bound m = ground arith

module _ {l : Layout} {n total : ℕ} {sides dims buffer : List ℕ}
    (is : IsLayout l n total sides dims buffer) where
  abbrev pub Level : ℕ → Type 0
  Level m =
      (chunk_pos : List ℕ) (bound i b fuel : ℕ)
      → At is m chunk_pos bound i fuel
      → Copied is m chunk_pos bound i b fuel (rows_of sides dims buffer m i b)
          (copy_loop fuel l chunk_pos bound (pos i) (pos b))

  -- `count + 1` blocks are left in the dimension `m + 1`.
  pub record Repeated (m count : ℕ) (chunk_pos : List ℕ) (bound i b : ℕ) (found : List PlaceCall)
      : Type 0 where
    pub pos_behind : List ℕ
    pub fuel_behind : ℕ
    pub runs :
        found
        ≡ repeated
            (rows_of sides dims buffer m)
            (block dims (suc m))
            (block buffer (suc m))
            (suc count)
            i
            b
          ++ behind is
              (suc m)
              fuel_behind
              pos_behind
              (max bound (m + 3))
              (i + count * block dims (suc m) + end_of is dims (suc m) + 1)
              (b + count * block buffer (suc m) + end_of is buffer (suc m) + 1)
    pub whole : length pos_behind ≡ 33
    pub zeros : (j : ℕ) → 1 ≤ j → j ≤ suc m → get_or pos_behind j 0 ≡ 0
    pub next : get_or pos_behind (suc (suc m)) 0 ≡ suc (get_or chunk_pos (suc (suc m)) 0)
    pub others : (j : ℕ) → suc (suc m) < j → get_or pos_behind j 0 ≡ get_or chunk_pos j 0
    pub enough : total ≤ i + count * block dims (suc m) + end_of is dims (suc m) + 1 + fuel_behind

  inner : (m : ℕ) (sizes : List ℕ) → m ≤ n → Fits sides sizes n → Fits sides sizes m
  inner m sizes level fits j lt = fits j (omega (arith, lt, level))

  -- The next block of the dimension `m + 1`.
  pub next-At :
      (m : ℕ) (chunk_pos : List ℕ) (bound i b fuel : ℕ) (rows found : List PlaceCall)
      → At is m chunk_pos bound i fuel
      → (d : Copied is m chunk_pos bound i b fuel rows found) → suc (suc m) ≤ n
      → suc (get_or chunk_pos (suc m) 0) < get_or sides (suc m) 0
      → i + block dims (suc m) + end_of is dims (suc m) + 1 ≤ total
      → At is m d.pos_behind (max bound (m + 2)) (i + block dims (suc m)) d.fuel_behind
  next-At m chunk_pos bound i b fuel rows found at d level more inside = record {
    whole = d.whole;
    zeros = d.zeros;
    below = λ j from to. elim (first_or_after j from) [
      | inl e ↦ rw (e, d.next) more
      | inr after ↦ rw (d.others j after) (at.below j from to)
    ];
    top = d.others n (omega (arith, level)) ∙ at.top;
    at_least = omega (arith, at.at_least);
    at_most = omega (arith, at.at_most, level);
    level = at.level;
    inside = inside;
    enough = omega (
      arith,
      d.enough,
      corner-bound sides dims (suc m) (inner (suc m) dims (omega (arith, level)) is.fits_dims),
    );
  }
    where
      first_or_after : (j : ℕ) → suc m ≤ j → (j ≡ suc m) ⊎ (suc m < j)
      first_or_after j from = omega arith

  -- The end of the last block of the dimension `m + 1`.
  pub last-Repeated :
      (m : ℕ) (chunk_pos : List ℕ) (bound i b fuel : ℕ) (found : List PlaceCall)
      → At is m chunk_pos bound i fuel
      → Copied is m chunk_pos bound i b fuel (rows_of sides dims buffer m i b) found
      → suc (suc m) ≤ n
      → get_or chunk_pos (suc m) 0 + 1 ≡ get_or sides (suc m) 0
      → Repeated m 0 chunk_pos bound i b found
  last-Repeated m chunk_pos bound i b fuel found at d level last = record {
    pos_behind = after;
    fuel_behind = d.fuel_behind;
    runs =
        d.runs
        ∙ ap (λ (x : List PlaceCall). rows ++ x)
            (behind-carried is m d.fuel_behind (max bound (m + 2)) (i + end_of is dims (suc m) + 1)
              (b + end_of is buffer (suc m) + 1) d.pos_behind level (omega arith)
              (d.next ∙ omega (arith, last)))
        ∙ ap₂ (λ (x y : ℕ). rows ++ behind is (suc m) d.fuel_behind after w x y)
            (same_place i (block dims (suc m)) (end_of is dims (suc m)))
            (same_place b (block buffer (suc m)) (end_of is buffer (suc m)))
        ∙ ap₂
            (λ (first : List PlaceCall) (w : ℕ).
              first
              ++ behind is (suc m) d.fuel_behind after w
                  (i + 0 * block dims (suc m) + end_of is dims (suc m) + 1)
                  (b + 0 * block buffer (suc m) + end_of is buffer (suc m) + 1))
            (sym (append-nil rows)) (widened bound m);
    whole =
        length-set (set d.pos_behind (suc m) 0) (suc (suc m)) _
        ∙ length-set d.pos_behind (suc m) 0
        ∙ d.whole;
    zeros = λ j from to. elim (last_or_before j to) [
      | inl e ↦ rw e (
          get_or-set_ne _ (suc (suc m)) (suc m) _ 0 (omega arith)
          ∙ get_or-set_self d.pos_behind (suc m) 0 0 (omega (arith, d.whole, level, is.few_dims)))
      | inr before ↦
          others_kept j (omega (arith, before)) (omega (arith, before)) ∙ d.zeros j from before
    ];
    next =
        get_or-set_self (set d.pos_behind (suc m) 0) (suc (suc m)) _ 0
          (omega (arith, length-set d.pos_behind (suc m) 0, d.whole, level, is.few_dims))
        ∙ ap suc (
            get_or-set_ne d.pos_behind (suc m) (suc (suc m)) 0 0 (omega arith)
            ∙ d.others (suc (suc m)) (omega arith));
    others = λ j beyond.
        others_kept j (omega (arith, beyond)) (omega (arith, beyond))
        ∙ d.others j (omega (arith, beyond));
    enough = omega (arith, d.enough);
  }
    where
      rows : List PlaceCall
      rows = rows_of sides dims buffer m i b

      w : ℕ
      w =
          if leb (max bound (m + 2)) (suc (suc m))
          then suc (max bound (m + 2))
          else max bound (m + 2)

      after : List ℕ
      after =
          set (set d.pos_behind (suc m) 0) (suc (suc m))
            (suc (get_or (set d.pos_behind (suc m) 0) (suc (suc m)) 0))

      last_or_before : (j : ℕ) → j ≤ suc m → (j ≡ suc m) ⊎ (j ≤ m)
      last_or_before j to = omega arith

      others_kept :
          (j : ℕ) → suc m ≢ j → suc (suc m) ≢ j → get_or after j 0 ≡ get_or d.pos_behind j 0
      others_kept j ne ne' =
          get_or-set_ne (set d.pos_behind (suc m) 0) (suc (suc m)) j _ 0 ne'
          ∙ get_or-set_ne d.pos_behind (suc m) j 0 0 ne
