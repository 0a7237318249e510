-- ===== src/Message/Dataspace.antt =====
-- What `readDataSpaceMessage` reads on a little-endian machine.
use native.Mathlib.Nat.{mul-le-mul_right}
use getmatvar.Common.{
  ℕ, zero, suc, ◌+◌, ◌-◌, ◌*◌, ◌^◌, ◌≤◌, ◌<◌, ◌≡◌, refl, sym, ap, ◌∙◌, true, false, some, List, [],
  ◌∷◌, ◌++◌, map, append_assoc, arith, length, get_or, set, take, drop, replicate, length-set,
  length-append, length-drop, set-middle, drop-replicate, ltb, ℤ, pos, *ℤ-pos, in_int64-pos,
}
use mathlib.Core.List.{map-append}
use getmatvar.NumberHelper.{little_endian, le_value, get_bytes_as_number}
use getmatvar.NumberHelper.Number.{get_bytes_as_number-value}
use getmatvar.Superblock.{Superblock, to_signed}
use getmatvar.Superblock.Encoded.{to_signed-pos}
use getmatvar.Message.{Data, dims_loop, elems_loop, read_data_space_message}

-- The `i`-th of the numbers of `width` bytes that stand one behind the other.
abbrev pub field : List ℕ → ℕ → ℕ → ℕ
field p width i = le_value (take width (drop (i * width) p))

-- `count` of them from the `i`-th on, the last one first.
abbrev pub sizes : List ℕ → ℕ → ℕ → ℕ → List ℕ
sizes p width zero i = []
sizes p width (suc count) i = sizes p width count (suc i) ++ (field p width i ∷ [])

abbrev pub until_zero : List ℕ → List ℕ
until_zero [] = []
until_zero (zero ∷ ds) = []
until_zero (suc d ∷ ds) = suc d ∷ until_zero ds

abbrev pub product : ℕ → List ℕ → ℕ
product acc [] = acc
product acc (d ∷ ds) = product (acc * d) ds

length-sizes : (p : List ℕ) (width count i : ℕ) → length (sizes p width count i) ≡ count
length-sizes p width zero i = refl
length-sizes p width (suc count) i = omega (
  arith,
  length-append (sizes p width count (suc i)) (field p width i ∷ []),
  length-sizes p width count (suc i),
)

pub length-map_pos : (xs : List ℕ) → length (map pos xs) ≡ length xs
length-map_pos [] = refl
length-map_pos (x ∷ xs) = ap suc (length-map_pos xs)

drop-set {ℓ} :
    {A : Type ℓ} (l : ℕ) (xs : List A) (v : A)
    → l < length xs
    → drop l (set xs l v) ≡ v ∷ drop (suc l) xs
drop-set l [] v lt = ground arith
drop-set zero (x ∷ xs) v lt = refl
drop-set (suc l) (x ∷ xs) v lt = drop-set l xs v (omega arith)

pub length-replicate {ℓ} : {A : Type ℓ} (n : ℕ) (a : A) → length (replicate n a) ≡ n
length-replicate zero a = refl
length-replicate (suc n) a = ap suc (length-replicate n a)

next_less : (n : ℕ) → n + 1 - n ≡ 1
next_less n = omega arith

le-mul : (a d : ℕ) → a ≤ a * suc d
le-mul a d = grind arith

le-product : (acc : ℕ) (ds : List ℕ) → acc ≤ product acc (until_zero ds)
le-product acc [] = omega arith
le-product acc (zero ∷ ds) = omega arith
le-product acc (suc d ∷ ds) = omega (arith, le-mul acc d, le-product (acc * suc d) ds)

elems_loop-product :
    (ds : List ℕ) (acc : ℕ)
    → product acc (until_zero ds) < 2 ^ 63
    → elems_loop (map pos ds ++ (pos 0 ∷ [])) (pos acc) ≡ some (pos (product acc (until_zero ds)))
unfolding elems_loop
elems_loop-product [] acc small = refl
elems_loop-product (zero ∷ ds) acc small = refl
elems_loop-product (suc d ∷ ds) acc small =
    rw (*ℤ-pos acc (suc d), positive d, in_int64-pos (acc * suc d) next)
      (elems_loop-product ds (acc * suc d) small)
  where
    positive : (d : ℕ) → ltb 0 (suc d) ≡ true
    positive d = ground arith

    next : acc * suc d < 2 ^ 63
    next = omega (arith, small, le-product (acc * suc d) ds)

module _ (p : List ℕ) (width n : ℕ) (small : width ≤ 8) (inside : n * width ≤ length p)
    (signed : (i : ℕ) → i < n → field p width i < 2 ^ 63) where
  pub dims_loop-sizes :
      (left i : ℕ) (array : List ℤ)
      → i + left ≡ n
      → left ≤ length array
      → dims_loop little_endian left i n width p array
        ≡ some (map pos (sizes p width left i) ++ drop left array)
  unfolding dims_loop
  dims_loop-sizes zero i array e room = refl
  dims_loop-sizes (suc left) i array e room = rw read (
      ap (λ (k : ℕ). dims_loop little_endian left (suc i) n width p (set array k (to_signed v)))
        place
      ∙ ap (λ z. dims_loop little_endian left (suc i) n width p (set array left z))
          (to_signed-pos v (signed i more))
      ∙ dims_loop-sizes left (suc i) (set array left (pos v)) (omega (arith, e))
          (omega (arith, length-set array left (pos v), room))
      ∙ ap some (
          ap (λ l. map pos after ++ l) (drop-set left array (pos v) (omega (arith, room)))
          ∙ sym (append_assoc (map pos after) (pos v ∷ []) (drop (suc left) array))
          ∙ ap (λ l. l ++ drop (suc left) array) (sym (map-append pos after (v ∷ [])))))
    where
      v : ℕ
      v = field p width i

      after : List ℕ
      after = sizes p width left (suc i)

      place : n - i - 1 ≡ left
      place = omega (arith, e)

      more : i < n
      more = omega (arith, e)

      enough : width ≤ length (drop (i * width) p)
      enough = omega (arith, mul-le-mul_right width more, length-drop (i * width) p, inside)

      read :
          get_bytes_as_number little_endian (drop (i * width) p) width little_endian
          ≡ some (field p width i)
      read = (get_bytes_as_number-value (drop (i * width) p) width small enough).0

-- On a little-endian machine with memory, the message of version 1 for `n` dimensions, at most 32,
-- whose sizes are numbers of at most eight bytes and below 2 ^ 63, the product of those before the
-- first that is 0 being below 2 ^ 63 too: `readDataSpaceMessage` does not fail, gives the object the sizes from the
-- last to the first and a 0 behind them, and as `num_elems` the product of those before the first
-- that is 0.
pub read_data_space_message-sizes :
    (s_block : Superblock) (msg : List ℕ) (object : Data) (n : ℕ)
    → 8 + n * s_block.size_of_lengths ≤ length msg
    → get_or msg 0 0 ≡ 1
    → get_or msg 1 0 ≡ n
    → n ≤ 32
    → s_block.size_of_lengths ≤ 8
    → ((i : ℕ) → i < n → field (drop 8 msg) s_block.size_of_lengths i < 2 ^ 63)
    → product 1 (until_zero (sizes (drop 8 msg) s_block.size_of_lengths n 0)) < 2 ^ 63
    → read_data_space_message little_endian true s_block msg object
      ≡ some (
        record object {
          num_dims = n;
          dims = map pos (sizes (drop 8 msg) s_block.size_of_lengths n 0) ++ (pos 0 ∷ []);
          num_elems = pos (product 1 (until_zero (sizes (drop 8 msg) s_block.size_of_lengths n 0)));
        },
        0,
      )
unfolding read_data_space_message
read_data_space_message-sizes s_block msg object n inside version count few small signed elems_fit =
    rw
      (
        in_message 0 (omega (arith, inside)),
        in_message 1 (omega (arith, inside)),
        version,
        count,
        not_more,
        sizes_read,
        last_written,
        elems_loop-product read 1 elems_fit,
      )
      refl
  where
    width : ℕ
    width = s_block.size_of_lengths

    read : List ℕ
    read = sizes (drop 8 msg) width n 0

    one_left : replicate (n + 1 - n) (pos 0) ≡ pos 0 ∷ []
    one_left = ap (λ (k : ℕ). replicate k (pos 0)) (next_less n)

    sizes_read :
        dims_loop little_endian n 0 n width (drop 8 msg) (replicate (n + 1) (pos 0))
        ≡ some (map pos read ++ (pos 0 ∷ []))
    sizes_read =
        dims_loop-sizes (drop 8 msg) width n small (omega (arith, length-drop 8 msg, inside)) signed
          n 0 (replicate (n + 1) (pos 0)) (omega arith)
          (omega (arith, length-replicate (n + 1) (pos 0)))
        ∙ ap (λ l. some (map pos read ++ l)) (drop-replicate n (n + 1) (pos 0) ∙ one_left)

    last_written : set (map pos read ++ (pos 0 ∷ [])) n (pos 0) ≡ map pos read ++ (pos 0 ∷ [])
    last_written =
        ap (λ (k : ℕ). set (map pos read ++ (pos 0 ∷ [])) k (pos 0))
          (sym (length-map_pos read ∙ length-sizes (drop 8 msg) width n 0))
        ∙ set-middle (map pos read) [] (pos 0) (pos 0)

    in_message : (k : ℕ) → k < length msg → ltb k (length msg) ≡ true
    in_message k lt = ground arith

    not_more : ltb 32 n ≡ false
    not_more = ground (arith, few)
