-- ===== src/ChunkedData/Position.antt =====
-- `findArrayPosition` and `coordToInd` are the same numbering of an array's elements, and its places
-- lie in the array.
use native.Mathlib.Nat.{mul-le-mul_left, mul-le-mul_right}
use getmatvar.Common.{
  ℕ, zero, suc, ◌+◌, ◌-◌, ◌*◌, ◌≤◌, ◌<◌, ◌≡◌, refl, sym, ap, ◌∙◌, List, [], ◌∷◌, map, arith, ◌⊎◌,
  inl, inr, get_or, pos, pos_part, ◌*ℤ◌, +ℤ-pos, *ℤ-pos, -ℤ-pos,
}
use getmatvar.ChunkedData.{coord_loop, coord_to_ind, scale_loop, position_loop, find_array_position}

-- The number of elements in the first `n` dimensions.
abbrev pub block : List ℕ → ℕ → ℕ
block dims zero = 1
block dims (suc n) = block dims n * get_or dims n 0

-- The place of the element with the given coordinates, which count from 0.
abbrev pub offset : List ℕ → List ℕ → ℕ → ℕ
offset coords dims zero = 0
offset coords dims (suc n) = offset coords dims n + get_or coords n 0 * block dims n

pub get_or-map_pos : (xs : List ℕ) (i : ℕ) → get_or (map pos xs) i (pos 0) ≡ pos (get_or xs i 0)
get_or-map_pos [] i = refl
get_or-map_pos (x ∷ xs) zero = refl
get_or-map_pos (x ∷ xs) (suc i) = get_or-map_pos xs i

scale_loop-block :
    (dims : List ℕ) (j temp : ℕ)
    → scale_loop j (pos temp) (map pos dims) ≡ pos (temp * block dims j)
unfolding scale_loop
scale_loop-block dims zero temp = ap pos (omega arith)
scale_loop-block dims (suc j) temp =
    ap (λ z. scale_loop j (pos temp *ℤ z) (map pos dims)) (get_or-map_pos dims j)
    ∙ ap (λ z. scale_loop j z (map pos dims)) (*ℤ-pos temp (get_or dims j 0))
    ∙ scale_loop-block dims j (temp * get_or dims j 0)
    ∙ ap pos (omega arith)

module _ (coords dims : List ℕ) where
  position_loop-offset :
      (left i : ℕ)
      → position_loop left i (pos (offset coords dims i)) (map pos coords) (map pos dims)
        ≡ pos (offset coords dims (i + left))
  unfolding position_loop
  position_loop-offset zero i = ap (λ (k : ℕ). pos (offset coords dims k)) (omega arith)
  position_loop-offset (suc left) i =
      rw (get_or-map_pos, scale_loop-block, +ℤ-pos)
        (position_loop-offset left (suc i)
          ∙ ap (λ (k : ℕ). pos (offset coords dims k)) (omega arith))

  -- The loop computes the place of an element whose coordinates count from 0.
  pub find_array_position-offset :
      (n : ℕ) → find_array_position (map pos coords) (map pos dims) n ≡ pos (offset coords dims n)
  unfolding find_array_position
  find_array_position-offset n =
      position_loop-offset n 0 ∙ ap (λ (k : ℕ). pos (offset coords dims k)) (omega arith)

  -- An element inside the array has its place inside the array.
  pub offset-bound :
      (n : ℕ)
      → ((i : ℕ) → i < n → get_or coords i 0 < get_or dims i 0)
      → offset coords dims n < block dims n
  offset-bound zero inside = omega arith
  offset-bound (suc n) inside = omega (
    arith,
    offset-bound n (λ i lt. inside i (omega arith)),
    mul-le-mul_left (block dims n) (inside n (omega arith)),
  )

-- The coordinates that count from 0, for those that count from 1.
abbrev pub from_zero : List ℕ → List ℕ
from_zero coords = map (λ (c : ℕ). c - 1) coords

pub get_or-from_zero : (xs : List ℕ) (i : ℕ) → get_or (from_zero xs) i 0 ≡ get_or xs i 0 - 1
get_or-from_zero [] i = refl
get_or-from_zero (x ∷ xs) zero = refl
get_or-from_zero (x ∷ xs) (suc i) = get_or-from_zero xs i

module _ (coords dims : List ℕ) where
  coord_loop-offset :
      (left i : ℕ)
      → ((k : ℕ) → k < i + left → 1 ≤ get_or coords k 0)
      → coord_loop left i
          (pos (offset (from_zero coords) dims i))
          (pos (block dims i))
          (map pos coords)
          (map pos dims)
        ≡ pos (offset (from_zero coords) dims (i + left))
  unfolding coord_loop
  coord_loop-offset zero i from_1 =
      ap (λ (k : ℕ). pos (offset (from_zero coords) dims k)) (omega arith)
  coord_loop-offset (suc left) i from_1 =
      rw
        (
          get_or-map_pos coords i,
          get_or-map_pos dims i,
          -ℤ-pos (get_or coords i 0) 1 (from_1 i (omega arith)),
          *ℤ-pos (get_or coords i 0 - 1) (block dims i),
          *ℤ-pos (block dims i) (get_or dims i 0),
          +ℤ-pos,
          sym (get_or-from_zero coords i),
        )
        (coord_loop-offset left (suc i) (λ k lt. from_1 k (omega arith))
          ∙ ap (λ (k : ℕ). pos (offset (from_zero coords) dims k)) (omega arith))

  -- For coordinates from 1 on, `coordToInd` is what `findArrayPosition` is for the same coordinates
  -- less 1.
  pub coord_to_ind-find_array_position :
      (n : ℕ)
      → ((k : ℕ) → k < n → 1 ≤ get_or coords k 0)
      → coord_to_ind (map pos coords) (map pos dims) n
        ≡ find_array_position (map pos (from_zero coords)) (map pos dims) n
  unfolding coord_to_ind
  coord_to_ind-find_array_position n from_1 =
      coord_loop-offset n 0 (λ k lt. from_1 k (omega arith))
      ∙ ap (λ (k : ℕ). pos (offset (from_zero coords) dims k)) (omega arith)
      ∙ sym (find_array_position-offset (from_zero coords) dims n)

last_or_below : (i n : ℕ) → i < suc n → (i < n) ⊎ (i ≡ n)
last_or_below i n lt = omega arith

-- Two ways to count in rows of length `b` that end at the same place are the same.
row_unique : (b x y c d : ℕ) → x < b → y < b → x + c * b ≡ y + d * b → (x ≡ y) × (c ≡ d)
row_unique b x y c d lx ly same = elim (compare c d) [
  | inl lt ↦ omega (arith, mul-le-mul_right b lt)
  | inr (inl e) ↦ omega (arith, ap (λ (t : ℕ). t * b) e)
  | inr (inr gt) ↦ omega (arith, mul-le-mul_right b gt)
]
  where
    compare : (m n : ℕ) → (m < n) ⊎ ((m ≡ n) ⊎ (n < m))
    compare m n = omega arith

module _ (coords others dims : List ℕ) where
  pub offset-injective :
      (n : ℕ)
      → ((i : ℕ) → i < n → get_or coords i 0 < get_or dims i 0)
      → ((i : ℕ) → i < n → get_or others i 0 < get_or dims i 0)
      → offset coords dims n ≡ offset others dims n
      → (i : ℕ) → i < n
      → get_or coords i 0 ≡ get_or others i 0
  offset-injective zero inside inside' same i lt = omega arith
  offset-injective (suc n) inside inside' same i lt =
      let here = (λ (j : ℕ) (below : j < n). inside j (omega arith)) in
      let here' = (λ (j : ℕ) (below : j < n). inside' j (omega arith)) in
      let both =
        row_unique (block dims n) (offset coords dims n) (offset others dims n) (get_or coords n 0)
          (get_or others n 0) (offset-bound coords dims n here) (offset-bound others dims n here')
          same in
      elim (last_or_below i n lt) [
        | inl below ↦ offset-injective n here here' both.0 i below
        | inr e ↦ rw e both.1
      ]

-- With each coordinate below the size of its dimension, `findArrayPosition` gives a place below the
-- number of the array's elements.
pub find_array_position-bound :
    (coords dims : List ℕ) (n : ℕ)
    → ((i : ℕ) → i < n → get_or coords i 0 < get_or dims i 0)
    → pos_part (find_array_position (map pos coords) (map pos dims) n) < block dims n
find_array_position-bound coords dims n inside =
    rw (find_array_position-offset coords dims n) (offset-bound coords dims n inside)

-- With each coordinate below the size of its dimension, elements with the same place by
-- `findArrayPosition` have the same coordinates.
pub find_array_position-injective :
    (coords others dims : List ℕ) (n : ℕ)
    → ((i : ℕ) → i < n → get_or coords i 0 < get_or dims i 0)
    → ((i : ℕ) → i < n → get_or others i 0 < get_or dims i 0)
    → find_array_position (map pos coords) (map pos dims) n
      ≡ find_array_position (map pos others) (map pos dims) n
    → (i : ℕ) → i < n
    → get_or coords i 0 ≡ get_or others i 0
find_array_position-injective coords others dims n inside inside' same =
    offset-injective coords others dims n inside inside' (
      ap pos_part (
        sym (find_array_position-offset coords dims n)
        ∙ same
        ∙ find_array_position-offset others dims n))
