-- ===== src/ChunkedData/Copy/Corners.antt =====
-- The entries that `makeChunkedUpdates` writes for the sides of a chunk.
use native.Mathlib.Nat.{mul-le-mul_left}
use getmatvar.Common.{
  ℕ, zero, suc, ◌+◌, ◌-◌, ◌*◌, ◌≤◌, ◌<◌, ◌≡◌, refl, sym, ap, ap₂, ◌∙◌, ◌⊎◌, inl, inr, true, false,
  List, map, arith, length, get_or, replicate, ℤ, pos, *ℤ-pos, Bool-cases,
}
use getmatvar.ChunkedData.{make_chunked_updates}
use getmatvar.ChunkedData.Position.{block, offset, from_zero, get_or-map_pos, get_or-from_zero}
use getmatvar.ChunkedData.Updates.{Fits, update_at-block, updates_loop-at}
use getmatvar.ChunkedData.Copy.{eq_ℤ, ltb_ℤ, differs, count_loop}

pub more_than_0 :
    (elems : ℤ) (count : ℕ) → elems ≡ pos count → 1 ≤ count → ltb_ℤ (pos 0) elems ≡ true
more_than_0 elems count e some = rw e (ground arith)

pub nothing_left : (b o : ℕ) → o + 1 ≡ b → 0 ≡ b - o - 1
nothing_left b o e = omega arith

pub length-replicate : (count : ℕ) (z : ℤ) → length (replicate count z) ≡ count
length-replicate zero z = refl
length-replicate (suc count) z = ap suc (length-replicate count z)

pub make_chunked_updates-at :
    (sides sizes : List ℕ) (n : ℕ) (old : List ℤ) (k : ℕ)
    → n ≤ length old
    → Fits sides sizes n
    → k < n
    → get_or (make_chunked_updates old (map pos sides) (map pos sizes) n) k (pos 0)
      ≡ pos (block sizes (suc k) - offset (from_zero sides) sizes (suc k) - 1)
unfolding make_chunked_updates
make_chunked_updates-at sides sizes n old k room fits lt =
    updates_loop-at sides sizes n 0 old k (omega (arith, room)) (omega arith) (omega (arith, lt))
    ∙ update_at-block sides sizes k (λ j below. fits j (omega (arith, below, lt)))

same_sides : (a b : ℕ) → eq_ℤ (pos a) (pos b) ≡ true → a ≡ b
same_sides a b e = ground arith

pub differs-same :
    (xs ys : List ℕ) (left j : ℕ)
    → differs left j (map pos xs) (map pos ys) ≡ false
    → (k : ℕ) → j ≤ k
    → k < j + left
    → get_or xs k 0 ≡ get_or ys k 0
unfolding differs
differs-same xs ys zero j clear k from to = absurd (omega (arith, from, to))
differs-same xs ys (suc left) j clear k from to =
    elim (Bool-cases (eq_ℤ (get_or (map pos xs) j (pos 0)) (get_or (map pos ys) j (pos 0)))) [
      | inl e ↦ elim (first_or_after from) [
        | inl at_j ↦ rw at_j (
            same_sides (get_or xs j 0) (get_or ys j 0)
              (ap₂ eq_ℤ (sym (get_or-map_pos xs j)) (sym (get_or-map_pos ys j)) ∙ e))
        | inr after ↦ differs-same xs ys left (suc j) (rw e at clear) k after (omega (arith, to))
      ]
      | inr ne ↦ absurd (ground (arith, ne, clear))
    ]
  where
    first_or_after : j ≤ k → (k ≡ j) ⊎ (suc j ≤ k)
    first_or_after le = omega arith

pub count_loop-block :
    (xs : List ℕ) (left k : ℕ)
    → count_loop left k (map pos xs) (pos (block xs k)) ≡ pos (block xs (k + left))
unfolding count_loop
count_loop-block xs zero k = ap (λ (j : ℕ). pos (block xs j)) (omega arith)
count_loop-block xs (suc left) k =
    rw (get_or-map_pos xs k, *ℤ-pos (block xs k) (get_or xs k 0))
      (count_loop-block xs left (suc k) ∙ ap (λ (j : ℕ). pos (block xs j)) (omega arith))

pub block_positive : (xs : List ℕ) (n : ℕ) → ((k : ℕ) → k < n → 1 ≤ get_or xs k 0) → 1 ≤ block xs n
block_positive xs zero some = omega arith
block_positive xs (suc n) some = omega (
  arith,
  block_positive xs n (λ k lt. some k (omega arith)),
  some n (omega arith),
  mul-le-mul_left (block xs n) (some n (omega arith)),
)

full_step : (o x y b : ℕ) → o + 1 ≡ b → y ≡ x - 1 → 1 ≤ x → o + y * b + 1 ≡ b * x
full_step o zero y b e less some = absurd (omega (arith, some))
full_step o (suc x) y b e less some =
    let same : y ≡ x = omega (arith, less) in rw same (omega (arith, e))

-- The last element of a block of the whole sizes is the block's last.
pub full_corner :
    (xs : List ℕ) (n : ℕ)
    → ((k : ℕ) → k < n → 1 ≤ get_or xs k 0)
    → offset (from_zero xs) xs n + 1 ≡ block xs n
full_corner xs zero some = refl
full_corner xs (suc n) some =
    full_step (offset (from_zero xs) xs n) (get_or xs n 0) (get_or (from_zero xs) n 0) (block xs n)
      (full_corner xs n (λ k lt. some k (omega (arith, lt)))) (get_or-from_zero xs n)
      (some n (omega arith))

pub offset_agree :
    (xs ys sizes : List ℕ) (n : ℕ)
    → ((k : ℕ) → k < n → get_or xs k 0 ≡ get_or ys k 0)
    → offset (from_zero xs) sizes n ≡ offset (from_zero ys) sizes n
offset_agree xs ys sizes zero same = refl
offset_agree xs ys sizes (suc n) same =
    ap₂ (λ (o x : ℕ). o + x * block sizes n)
      (offset_agree xs ys sizes n (λ k lt. same k (omega (arith, lt))))
      (get_or-from_zero xs n
        ∙ ap (λ (x : ℕ). x - 1) (same n (omega arith))
        ∙ sym (get_or-from_zero ys n))
