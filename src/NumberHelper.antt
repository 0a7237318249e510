-- ===== src/NumberHelper.antt =====
-- src/numberHelper.c: numbers out of the bytes of the file. A pointer into the mapped file is the list
-- of the bytes from there on; a read past its end is a fault (`none`). `size_t` is eight bytes wide.
pub mod Reverse
pub mod Number
pub mod Encoded
pub mod Tests
use getmatvar.Common.{
  ℕ, zero, suc, ◌+◌, ◌-◌, ◌*◌, ◌%◌, ◌^◌, Bool, true, false, not, Option, none, some, List, [], ◌∷◌,
  ◌++◌, length, get_or, set, take, drop, replicate, ltb, leb, ◌==◌, if◌then◌else◌,
}

pub data ByteOrder : Type 0 where
  little_endian big_endian : ByteOrder

unfoldable pub same_order : ByteOrder → ByteOrder → Bool
same_order little_endian little_endian = true
same_order big_endian big_endian = true
same_order _ _ = false

-- `for(start = p, end = start + n - 1; start < end; ++start, --end)` swaps two bytes a round. `stop`
-- is `end + 1`, which stays above zero.
unfoldable pub reverse_loop : ℕ → ℕ → ℕ → List ℕ → List ℕ
reverse_loop zero start stop buf = buf
reverse_loop (suc fuel) start stop buf =
    let rest =
      reverse_loop fuel (start + 1) (stop - 1)
        (set (set buf start (get_or buf (stop - 1) 0)) (stop - 1) (get_or buf start 0)) in
    if ltb (start + 1) stop then rest else buf

-- The distance falls by two a round, so `num_elems` rounds are enough.
unfoldable pub reverse_bytes : List ℕ → ℕ → List ℕ
unfolding reverse_loop
reverse_bytes buf num_elems = reverse_loop num_elems 0 num_elems buf

-- `reverseBytes` on the eight bytes of a local variable: more than eight run over it.
unfoldable pub reverse_local : List ℕ → ℕ → Option (List ℕ)
unfolding reverse_bytes
reverse_local ret num_bytes = if ltb 8 num_bytes then none else some (reverse_bytes ret num_bytes)

-- `memcpy(&ret, p, n)` onto the first bytes of a local variable of eight bytes.
unfoldable pub copy_local : List ℕ → List ℕ → ℕ → Option (List ℕ)
copy_local ret p n =
    if ltb (length p) n then none else if ltb 8 n then none else some (take n p ++ drop n ret)

-- What a number written from the lowest byte on stands for.
abbrev pub le_value : List ℕ → ℕ
le_value [] = 0
le_value (b ∷ bs) = b + 256 * le_value bs

-- What a number written from the highest byte on stands for, `acc` being the part read.
abbrev pub be_value : ℕ → List ℕ → ℕ
be_value acc [] = acc
be_value acc (b ∷ bs) = be_value (acc * 256 + b) bs

-- The value of the variable whose bytes in memory are these, on a machine of that byte order.
unfoldable pub host_value : ByteOrder → List ℕ → ℕ
host_value little_endian bs = le_value bs
host_value big_endian bs = be_value 0 bs

infixl 5 ◌>>=◌
abbrev pub ◌>>=◌ {ℓ κ} : {A : Type ℓ} {B : Type κ} → Option A → (A → Option B) → Option B
none >>= k = none
some a >>= k = k a

-- `host` is `__byte_order__`.
unfoldable pub get_bytes_as_number : ByteOrder → List ℕ → ℕ → ByteOrder → Option ℕ
get_bytes_as_number host p num_bytes endianness = do
  ret ←
      (if ltb 8 num_bytes
        then if not (same_order host endianness)
          then (do
            ret ← copy_local (replicate 8 0) (drop (num_bytes - 8) p) 8
            reverse_local ret num_bytes)
          else copy_local (replicate 8 0) p 8
        else (do
          ret ← copy_local (replicate 8 0) p num_bytes
          if not (same_order host endianness) then reverse_local ret num_bytes else some ret))
  some (host_value host ret)

-- `size_t` arithmetic wraps.
unfoldable pub round_up_8 : ℕ → ℕ
round_up_8 num_to_round =
    if num_to_round % 8 == 0
    then num_to_round
    else ((num_to_round + 8) % 2 ^ 64 + 2 ^ 64 - num_to_round % 8) % 2 ^ 64
