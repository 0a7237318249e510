-- ===== src/PlaceData/Sums.antt =====
-- The place of an element whose coordinates are a function of the dimension.
use getmatvar.Common.{
  ℕ, zero, suc, ◌+◌, ◌*◌, ◌<◌, ◌≡◌, refl, sym, ap, ap₂, ◌∙◌, List, arith, get_or, ◌==◌,
  if◌then◌else◌,
}
use getmatvar.ChunkedData.Position.{block, offset, offset-injective}
use getmatvar.ChunkedData.Copy.Sides.{entries, get_or-entries}

abbrev pub sum_of : (ℕ → ℕ) → List ℕ → ℕ → ℕ
sum_of g dims zero = 0
sum_of g dims (suc n) = sum_of g dims n + g n * block dims n

pub sum_of-offset :
    (g : ℕ → ℕ) (xs dims : List ℕ) (n : ℕ)
    → ((k : ℕ) → k < n → get_or xs k 0 ≡ g k)
    → offset xs dims n ≡ sum_of g dims n
sum_of-offset g xs dims zero same = refl
sum_of-offset g xs dims (suc n) same =
    ap₂ (λ (o x : ℕ). o + x * block dims n)
      (sum_of-offset g xs dims n (λ k lt. same k (omega (arith, lt)))) (same n (omega arith))

pub sum_of_agree :
    (g h : ℕ → ℕ) (dims : List ℕ) (n : ℕ)
    → ((k : ℕ) → k < n → g k ≡ h k)
    → sum_of g dims n ≡ sum_of h dims n
sum_of_agree g h dims zero same = refl
sum_of_agree g h dims (suc n) same =
    ap₂ (λ (o x : ℕ). o + x * block dims n)
      (sum_of_agree g h dims n (λ k lt. same k (omega (arith, lt)))) (same n (omega arith))

pub sum_of-add :
    (g h : ℕ → ℕ) (dims : List ℕ) (n : ℕ)
    → sum_of (λ k. g k + h k) dims n ≡ sum_of g dims n + sum_of h dims n
sum_of-add g h dims zero = refl
sum_of-add g h dims (suc n) = omega (arith, sum_of-add g h dims n)

-- `u` further along the first dimension.
abbrev pub along : ℕ → ℕ → ℕ
along u k = if k == 0 then u else 0

pub sum_of-along : (u : ℕ) (dims : List ℕ) (m : ℕ) → sum_of (along u) dims (suc m) ≡ u
sum_of-along u dims zero = omega arith
sum_of-along u dims (suc m) =
    omega (arith, sum_of-along u dims m, ap (λ (x : ℕ). x * block dims (suc m)) (past m))
  where
    past : (m : ℕ) → along u (suc m) ≡ 0
    past m = ground arith

pub sum_of-injective :
    (g h : ℕ → ℕ) (dims : List ℕ) (n : ℕ)
    → ((k : ℕ) → k < n → g k < get_or dims k 0)
    → ((k : ℕ) → k < n → h k < get_or dims k 0)
    → sum_of g dims n ≡ sum_of h dims n
    → (k : ℕ) → k < n
    → g k ≡ h k
sum_of-injective g h dims n inside inside' same k lt =
    sym (get_or-entries g n k lt)
    ∙ offset-injective (entries g n 0) (entries h n 0) dims n
        (λ j below. omega (arith, inside j below, get_or-entries g n j below))
        (λ j below. omega (arith, inside' j below, get_or-entries h n j below))
        (sum_of-offset g (entries g n 0) dims n (get_or-entries g n)
          ∙ same
          ∙ sym (sum_of-offset h (entries h n 0) dims n (get_or-entries h n)))
        k lt
    ∙ get_or-entries h n k lt
