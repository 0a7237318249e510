-- ===== src/NumberHelper/Encoded.antt =====
-- Numbers written to the file, the lowest byte first, and read back.
use native.Mathlib.Nat.{pow-suc}
use getmatvar.Common.{
  ℕ, zero, suc, ◌/◌, ◌%◌, ◌^◌, ◌≤◌, ◌<◌, ◌≡◌, refl, ap, ◌∙◌, some, List, [], ◌∷◌, ◌++◌, arith,
  length, length-append, take-append_left,
}
use getmatvar.NumberHelper.{little_endian, le_value, get_bytes_as_number}
use getmatvar.NumberHelper.Number.{get_bytes_as_number-value}

-- A number in `width` bytes, the lowest first.
abbrev pub le_bytes : ℕ → ℕ → List ℕ
le_bytes zero v = []
le_bytes (suc width) v = v % 256 ∷ le_bytes width (v / 256)

pub length-le_bytes : (width v : ℕ) → length (le_bytes width v) ≡ width
length-le_bytes zero v = refl
length-le_bytes (suc width) v = ap suc (length-le_bytes width (v / 256))

pub le_value-le_bytes : (width v : ℕ) → v < 256 ^ width → le_value (le_bytes width v) ≡ v
le_value-le_bytes zero v small = omega (arith, small)
le_value-le_bytes (suc width) v small =
    omega (arith, le_value-le_bytes width (v / 256) (omega (arith, small, pow-suc 256 width)))

pub read-le_bytes :
    (width v : ℕ) (rest : List ℕ)
    → width ≤ 8
    → v < 256 ^ width
    → get_bytes_as_number little_endian (le_bytes width v ++ rest) width little_endian ≡ some v
read-le_bytes width v rest few small =
    (get_bytes_as_number-value (le_bytes width v ++ rest) width few
      (omega (arith, length-append (le_bytes width v) rest, length-le_bytes width v))).0
    ∙ ap some (
        ap le_value (take-append_left (le_bytes width v) rest width (length-le_bytes width v))
        ∙ le_value-le_bytes width v small)
