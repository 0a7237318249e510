-- ===== src/NumberHelper/Tests.antt =====
-- The bytes of a small file.
use getmatvar.Common.{ℕ, ◌*◌, ◌^◌, ◌≡◌, some, [], ◌∷◌, List, arith}
use getmatvar.NumberHelper.{little_endian, big_endian, reverse_bytes, get_bytes_as_number}
use getmatvar.NumberHelper.Reverse.{reverse_bytes-reverse}
use getmatvar.NumberHelper.Number.{get_bytes_as_number-value, get_bytes_as_number-big_host}

abbrev some_bytes : List ℕ
some_bytes = 1 ∷ 2 ∷ 3 ∷ 4 ∷ 5 ∷ []

reverse_bytes-reverse_example : reverse_bytes some_bytes 4 ≡ 4 ∷ 3 ∷ 2 ∷ 1 ∷ 5 ∷ []
reverse_bytes-reverse_example = reverse_bytes-reverse some_bytes 4 (omega arith)

get_bytes_as_number-value_example :
    (get_bytes_as_number little_endian some_bytes 2 little_endian ≡ some 513)
    × (get_bytes_as_number little_endian some_bytes 2 big_endian ≡ some 258)
get_bytes_as_number-value_example =
    get_bytes_as_number-value some_bytes 2 (omega arith) (omega arith)

get_bytes_as_number-big_host_example :
    (get_bytes_as_number big_endian some_bytes 2 big_endian ≡ some (258 * 256 ^ 6))
    × (get_bytes_as_number big_endian some_bytes 2 little_endian ≡ some (513 * 256 ^ 6))
get_bytes_as_number-big_host_example =
    get_bytes_as_number-big_host some_bytes 2 (omega arith) (omega arith)
