-- ===== src/Superblock.antt =====
-- src/superblock.c: the search for the superblock, and what it says, from the bytes of the file from
-- it on. `address_t` is a signed 64-bit integer, here without a bound.
pub mod Encoded
pub mod Search
pub mod Tests
use getmatvar.Common.{
  ℕ, zero, suc, ◌+◌, ◌*◌, ◌%◌, ◌^◌, Bool, Option, none, some, List, [], ◌∷◌, length, take, drop,
  ltb, if◌then◌else◌, ℤ, pos, ◌+ℤ◌, ◌-ℤ◌,
}
use getmatvar.Navigate.{at_address}
use getmatvar.Ezq.Walk.Search.{same_text}
use getmatvar.NumberHelper.{ByteOrder, little_endian, get_bytes_as_number, ◌>>=◌}

pub record Superblock : Type 0 where
  pub size_of_offsets : ℕ
  pub size_of_lengths : ℕ
  pub leaf_node_k : ℕ
  pub internal_node_k : ℕ
  pub sym_table_entry_size : ℕ
  pub base_address : ℤ
  pub root_tree_address : ℤ
  pub root_heap_address : ℤ

-- A `size_t` turned into an `index_t` or an `address_t`.
abbrev pub to_signed : ℕ → ℤ
to_signed v = if ltb v (2 ^ 63) then pos v else pos v -ℤ pos (2 ^ 64)

unfoldable pub fill_superblock : ByteOrder → List ℕ → Option Superblock
fill_superblock host superblock_pointer = do
  offsets ← get_bytes_as_number host (drop 13 superblock_pointer) 1 little_endian
  lengths ← get_bytes_as_number host (drop 14 superblock_pointer) 1 little_endian
  leaf ← get_bytes_as_number host (drop 16 superblock_pointer) 2 little_endian
  internal ← get_bytes_as_number host (drop 18 superblock_pointer) 2 little_endian
  base ← get_bytes_as_number host (drop 24 superblock_pointer) (offsets % 2 ^ 8) little_endian
  root ← get_bytes_as_number host (drop 80 superblock_pointer) (offsets % 2 ^ 8) little_endian
  heap ←
      get_bytes_as_number host (drop (offsets % 2 ^ 8) (drop 80 superblock_pointer))
        (offsets % 2 ^ 8) little_endian
  some (record {
    size_of_offsets = offsets % 2 ^ 8;
    size_of_lengths = lengths % 2 ^ 8;
    leaf_node_k = leaf % 2 ^ 16;
    internal_node_k = internal % 2 ^ 16;
    sym_table_entry_size = (2 * (offsets % 2 ^ 8) + 4 + 4 + 16) % 2 ^ 16;
    base_address = to_signed base;
    root_tree_address = to_signed root +ℤ to_signed base;
    root_heap_address = to_signed heap +ℤ to_signed base;
  })

abbrev pub superblock_interval : ℕ
superblock_interval = 512

abbrev pub format_sig : List ℕ
format_sig = 137 ∷ 72 ∷ 68 ∷ 70 ∷ 13 ∷ 10 ∷ 26 ∷ 10 ∷ []

abbrev pub is_signed : List ℕ → Bool
is_signed chunk_start = same_text (take 8 chunk_start) format_sig

-- The inner `none` is NULL.
unfoldable pub find_loop : ℕ → List ℕ → ℕ → Option (Option (List ℕ))
find_loop zero file chunk_address = none
find_loop (suc fuel) file chunk_address =
    if ltb chunk_address (length file)
    then (do
      chunk_start ← at_address file (pos chunk_address) superblock_interval
      if is_signed chunk_start
          then some (some chunk_start)
          else find_loop fuel file (chunk_address + superblock_interval))
    else some none

-- Each round raises the address, so as many rounds as the file has bytes and one more are enough.
unfoldable pub find_superblock : List ℕ → Option (Option (List ℕ))
unfolding find_loop
find_superblock file = find_loop (suc (length file)) file 0

-- The inner `none` is the error with which the program stops.
unfoldable pub get_superblock : ByteOrder → List ℕ → Option (Option Superblock)
unfolding find_superblock fill_superblock
get_superblock host file = do
  found ← find_superblock file
  elim found [
    | none ↦ some none
    | some superblock_pointer ↦ (do
      s_block ← fill_superblock host superblock_pointer
      some (some s_block))
  ]
