-- ===== src/Varname.antt =====
-- src/utils.c: the name of a variable in the request (`removeSpaces`, `makeVarnameQueue`,
-- `parseCoordinates`). A string is the list of its characters' codes, without the zero that ends it;
-- `removeSpaces`, which works in place, takes the buffer with the zero. `strtok` is the C library's:
-- the runs of characters that are no delimiters. Allocations are taken to succeed. `none` is a loop
-- that never ends, a write past an array, or an overflow of an `index_t`. The queue of tokens is
-- given by its contents.
pub mod Spaces
pub mod Coordinates
pub mod Tests
use getmatvar.Common.{
  ℕ, zero, suc, ◌+◌, ◌%◌, Bool, true, false, ◌&&◌, ◌||◌, Option, none, some, List, [], ◌∷◌, ◌++◌,
  length, get_or, set, replicate, ltb, leb, ◌==◌, if◌then◌else◌, ℤ, pos, ◌+ℤ◌, ◌-ℤ◌, ◌*ℤ◌, in_int64,
}
use getmatvar.NumberHelper.{◌>>=◌}

pub data VariableNameType : Type 0 where
  unknown local_name local_index local_coordinates : VariableNameType

pub record VariableNameToken : Type 0 where
  variable_name_type : VariableNameType
  variable_local_index : ℤ
  variable_local_coordinates : List ℤ
  variable_local_name : List ℕ

-- `while(*j != 0)`; the rounds are as many as the buffer has characters.
unfoldable pub remove_loop : ℕ → ℕ → ℕ → List ℕ → List ℕ
remove_loop zero i j source = source
remove_loop (suc fuel) i j source =
    let c = get_or source j 0 in
    let rest = remove_loop fuel (if c == 32 then i else i + 1) (j + 1) (set source i c) in
    if c == 0 then set source i 0 else rest

unfoldable pub remove_spaces : List ℕ → List ℕ
unfolding remove_loop
remove_spaces source = remove_loop (length source) 0 0 source

-- The tokens that `strtok` yields one after another; `run` is the part of the next one that is read.
abbrev pub emit : List ℕ → List (List ℕ) → List (List ℕ)
emit [] tokens = tokens
emit (c ∷ run) tokens = (c ∷ run) ∷ tokens

abbrev pub strtok : (ℕ → Bool) → List ℕ → List ℕ → List (List ℕ)
strtok is_delim run [] = emit run []
strtok is_delim run (c ∷ cs) = elim (is_delim c) [
  | true ↦ emit run (strtok is_delim [] cs)
  | false ↦ strtok is_delim (run ++ (c ∷ [])) cs
]

-- `coord_num_str[j] - '0'`.
abbrev pub digit : ℕ → ℤ
digit c = pos c -ℤ pos 48

-- `coord*10 + (c - '0')`, of `index_t` numbers.
unfoldable pub next_digit : ℤ → ℕ → Option ℤ
next_digit coord c = do tens ← in_int64 (coord *ℤ pos 10); in_int64 (tens +ℤ digit c)

-- The counter is a `uint8_t`.
unfoldable pub digits_loop : ℕ → ℕ → ℤ → List ℕ → Option ℤ
digits_loop zero j coord str = if ltb j (length str) then none else some coord
digits_loop (suc fuel) j coord str =
    let rest =
      next_digit coord (get_or str j 0) >>= (λ next. digits_loop fuel ((j + 1) % 256) next str) in
    if ltb j (length str) then rest else some coord

-- The array of coordinates has 32 entries.
unfoldable pub coords_loop : List (List ℕ) → ℕ → List ℤ → Option (List ℤ)
unfolding digits_loop
coords_loop [] i coordinates = some coordinates
coords_loop (str ∷ strs) i coordinates =
    if ltb i 32
    then (do
      coord ← digits_loop (length str) 0 (pos 0) str
      coords_loop strs (i + 1) (set coordinates i coord))
    else none

unfoldable pub parse_coordinates : VariableNameToken → Option VariableNameToken
unfolding coords_loop
parse_coordinates vnt = do
  coordinates ←
      coords_loop (strtok (λ c. c == 44) [] vnt.variable_local_name) 0
        vnt.variable_local_coordinates
  some (record vnt { variable_local_coordinates = coordinates })

-- The loop that finds out what a token is; the result is the index so far and the type.
unfoldable pub classify_loop : ℕ → ℕ → ℤ → List ℕ → Option (ℤ × VariableNameType)
classify_loop zero i index name = if ltb i (length name) then none else some (index, local_index)
classify_loop (suc fuel) i index name =
    let c = get_or name i 0 in
    let rest = next_digit index c >>= (λ next. classify_loop fuel ((i + 1) % 256) next name) in
    if ltb i (length name)
    then if ltb c 48 || ltb 57 c
      then if c == 44 then some (index, local_coordinates) else some (pos 0, local_name)
      else rest
    else some (index, local_index)

abbrev pub is_index : VariableNameType → Bool
is_index local_index = true
is_index _ = false

-- The coordinates are not written before `parseCoordinates`; the zeros stand for what the memory has.
unfoldable pub make_token : List ℕ → Option VariableNameToken
unfolding classify_loop
make_token name = do
  found ← classify_loop (length name) 0 (pos 0) name
  some (record {
    variable_name_type = found.1;
    variable_local_index = if is_index found.1 then found.0 -ℤ pos 1 else found.0;
    variable_local_coordinates = replicate 32 (pos 0);
    variable_local_name = name;
  })

abbrev pub is_coordinates : VariableNameType → Bool
is_coordinates local_coordinates = true
is_coordinates _ = false

abbrev pub all_some {ℓ κ} : {A : Type ℓ} {B : Type κ} → (A → Option B) → List A → Option (List B)
all_some f [] = some []
all_some f (x ∷ xs) = do y ← f x; ys ← all_some f xs; some (y ∷ ys)

-- `removeSpaces` has been run on `name`.
unfoldable pub make_varname_queue : List ℕ → Option (List VariableNameToken)
unfolding make_token parse_coordinates
make_varname_queue name = do
  vnts ←
      all_some make_token
        (strtok (λ c. c == 46 || c == 123 || c == 125 || c == 40 || c == 41) [] name)
  all_some
      (λ (vnt : VariableNameToken).
        if is_coordinates vnt.variable_name_type then parse_coordinates vnt else some vnt)
      vnts
