-- ===== src/NumberHelper/Number.antt =====
-- What `getBytesAsNumber` returns.
use mathlib.Core.List.{reverse_aux, reverse-cons}
use native.Mathlib.Nat.{pow-suc}
use getmatvar.Common.{
  ℕ, zero, suc, ◌+◌, ◌-◌, ◌*◌, ◌%◌, ◌^◌, ◌≤◌, ◌<◌, ◌≡◌, refl, ap, ◌∙◌, false, some, List, [], ◌∷◌,
  ◌++◌, reverse, arith, length, take, replicate, ltb, length-take, length-append, take-append_left,
  drop-append_left, drop-replicate,
}
use getmatvar.NumberHelper.{
  little_endian, big_endian, same_order, reverse_local, copy_local, le_value, be_value, host_value,
  get_bytes_as_number, round_up_8,
}
use getmatvar.NumberHelper.Reverse.{reverse_bytes-reverse}

le_value-zeros : (xs : List ℕ) (k : ℕ) → le_value (xs ++ replicate k 0) ≡ le_value xs
le_value-zeros [] zero = refl
le_value-zeros [] (suc k) = omega (arith, le_value-zeros [] k)
le_value-zeros (x ∷ xs) k = omega (arith, le_value-zeros xs k)

le_value-reverse_aux : (xs ys : List ℕ) → le_value (reverse_aux xs ys) ≡ be_value (le_value ys) xs
le_value-reverse_aux [] ys = refl
le_value-reverse_aux (x ∷ xs) ys =
    le_value-reverse_aux xs (x ∷ ys) ∙ ap (λ (k : ℕ). be_value k xs) (omega arith)

be_value-zeros : (acc k : ℕ) → be_value acc (replicate k 0) ≡ acc * 256 ^ k
be_value-zeros acc zero = omega arith
be_value-zeros acc (suc k) =
    be_value-zeros (acc * 256 + 0) k ∙ omega (arith, ap (λ (t : ℕ). acc * t) (pow-suc 256 k))

be_value-append :
    (acc : ℕ) (xs ys : List ℕ) → be_value acc (xs ++ ys) ≡ be_value (be_value acc xs) ys
be_value-append acc [] ys = refl
be_value-append acc (x ∷ xs) ys = be_value-append (acc * 256 + x) xs ys

be_value-reverse : (xs : List ℕ) → be_value 0 (reverse xs) ≡ le_value xs
be_value-reverse [] = refl
be_value-reverse (x ∷ xs) =
    ap (λ (l : List ℕ). be_value 0 l) (reverse-cons x xs)
    ∙ be_value-append 0 (reverse xs) (x ∷ [])
    ∙ omega (arith, be_value-reverse xs)

be_value-padded : (xs : List ℕ) (k : ℕ) → be_value 0 (xs ++ replicate k 0) ≡ be_value 0 xs * 256 ^ k
be_value-padded xs k = be_value-append 0 xs (replicate k 0) ∙ be_value-zeros (be_value 0 xs) k

not-lt : (n k : ℕ) → n ≤ k → ltb k n ≡ false
not-lt n k h = ground arith

-- The local variable after the copy.
module _ (p : List ℕ) (n : ℕ) (small : n ≤ 8) (inside : n ≤ length p) where
  copied : copy_local (replicate 8 0) p n ≡ some (take n p ++ replicate (8 - n) 0)
  unfolding copy_local
  copied =
      rw (not-lt n (length p) inside, not-lt n 8 small)
        (ap (λ l. some (take n p ++ l)) (drop-replicate n 8 0))

  reversed :
      reverse_local (take n p ++ replicate (8 - n) 0) n
      ≡ some (reverse (take n p) ++ replicate (8 - n) 0)
  unfolding reverse_local
  reversed =
      rw
        (
          not-lt n 8 small,
          reverse_bytes-reverse (take n p ++ replicate (8 - n) 0) n long,
          take-append_left (take n p) (replicate (8 - n) 0) n (length-take n p inside),
          drop-append_left (take n p) (replicate (8 - n) 0) n (length-take n p inside),
        )
        refl
    where
      long : n ≤ length (take n p ++ replicate (8 - n) 0)
      long = omega (arith, length-append (take n p) (replicate (8 - n) 0), length-take n p inside)

  -- On a little-endian machine up to eight bytes inside the file are read as the number that they write, whichever
  -- byte order they are in.
  pub get_bytes_as_number-value :
      (get_bytes_as_number little_endian p n little_endian ≡ some (le_value (take n p)))
      × (get_bytes_as_number little_endian p n big_endian ≡ some (be_value 0 (take n p)))
  unfolding get_bytes_as_number same_order host_value
  get_bytes_as_number-value = (
    rw (not-lt n 8 small, copied) (ap some (le_value-zeros (take n p) (8 - n))),
    rw (not-lt n 8 small, copied, reversed)
        (ap some
          (le_value-zeros (reverse (take n p)) (8 - n) ∙ le_value-reverse_aux (take n p) [])),
  )

  -- On a big-endian machine up to eight bytes inside the file are read into the high end of the variable, so the number comes out
  -- multiplied by 256 for each byte short of eight.
  pub get_bytes_as_number-big_host :
      (get_bytes_as_number big_endian p n big_endian ≡ some (be_value 0 (take n p) * 256 ^ (8 - n)))
      × (get_bytes_as_number big_endian p n little_endian
          ≡ some (le_value (take n p) * 256 ^ (8 - n)))
  unfolding get_bytes_as_number same_order host_value
  get_bytes_as_number-big_host = (
    rw (not-lt n 8 small, copied) (ap some (be_value-padded (take n p) (8 - n))),
    rw (not-lt n 8 small, copied, reversed)
        (ap some (
          be_value-padded (reverse (take n p)) (8 - n)
          ∙ ap (λ (t : ℕ). t * 256 ^ (8 - n)) (be_value-reverse (take n p)))),
  )

-- While `n + 8` does not wrap, `roundUp8` gives the least multiple of 8 that is not below `n`.
pub round_up_8-bounds :
    (n : ℕ) → n + 8 < 2 ^ 64 → (n ≤ round_up_8 n) × (round_up_8 n < n + 8) × (round_up_8 n % 8 ≡ 0)
unfolding round_up_8
round_up_8-bounds n small = ground arith
