-- ===== src/Message.antt =====
-- src/readMessage.c: the header messages of an object that give its dimensions, its layout and its
-- filters. A pointer into the mapped file is the list of the bytes from there on, and a read past
-- them is a fault (`none`), as is a write past an array. `index_t` and `address_t` are signed
-- 64-bit integers, addresses here without a bound; `has_memory` is what a call of `mxMalloc` finds.
-- A message that is refused sets the error flag to 1. A product of sizes that overflows is a fault.
-- `Data` has the fields of the object that the messages set.
pub mod Dataspace
pub mod Datatype
pub mod Class
pub mod Filters
pub mod Attribute
pub mod Tests
use getmatvar.Common.{
  ℕ, zero, suc, ◌+◌, ◌-◌, ◌*◌, ◌%◌, ◌^◌, Bool, true, false, not, Option, none, some, List, [], ◌∷◌,
  ◌&&◌, length, get_or, set, drop, replicate, ltb, ◌==◌, if◌then◌else◌, ℤ, pos, negsuc, ◌+ℤ◌, ◌-ℤ◌,
  ◌*ℤ◌, in_int64,
}
use getmatvar.NumberHelper.{ByteOrder, little_endian, get_bytes_as_number, ◌>>=◌}
use getmatvar.Superblock.{Superblock, to_signed}
use getmatvar.ChunkedData.{make_chunked_updates}

pub record Filter : Type 0 where
  pub filter_id : ℕ
  pub optional_flag : ℕ
  pub num_client_vals : ℕ
  pub client_data : List ℕ

pub record Data : Type 0 where
  pub num_dims : ℕ
  pub dims : List ℤ
  pub num_elems : ℤ
  pub layout_class : ℕ
  pub data_address : ℤ
  pub num_chunked_dims : ℕ
  pub chunked_dims : List ℤ
  pub chunk_update : List ℤ
  pub num_chunked_elems : ℤ
  pub num_filters : ℕ
  pub filters : List Filter

abbrev pub byte_at : List ℕ → ℕ → Option ℕ
byte_at p i = if ltb i (length p) then some (get_or p i 0) else none

abbrev pub is_positive : ℤ → Bool
is_positive (pos n) = ltb 0 n
is_positive (negsuc n) = false

-- `array[count - i - 1] = getBytesAsNumber(p + i*width, width)`, the rounds counted down first.
unfoldable pub dims_loop : ByteOrder → ℕ → ℕ → ℕ → ℕ → List ℕ → List ℤ → Option (List ℤ)
dims_loop host zero i count width p array = some array
dims_loop host (suc left) i count width p array = do
  v ← get_bytes_as_number host (drop (i * width) p) width little_endian
  dims_loop host left (suc i) count width p (set array (count - i - 1) (to_signed v))

-- `while(dims[index] > 0)`: the last entry is 0, so as many rounds as entries are enough.
unfoldable pub elems_loop : List ℤ → ℤ → Option ℤ
elems_loop [] num_elems = some num_elems
elems_loop (d ∷ dims) num_elems =
    let rest = in_int64 (num_elems *ℤ d) >>= (λ more. elems_loop dims more) in
    if is_positive d then rest else some num_elems

-- Each entry of the array that `mxMalloc` returns is written before it is read.
unfoldable pub read_data_space_message :
    ByteOrder → Bool → Superblock → List ℕ → Data → Option (Data × ℕ)
unfolding dims_loop elems_loop
read_data_space_message host has_memory s_block msg object = do
  version ← byte_at msg 0
  if not (version == 1) then some (object, 1) else (do
    n ← byte_at msg 1
    if ltb 32 n
        then some (record object { num_dims = n }, 1)
        else if not has_memory
        then some (record object { num_dims = n; dims = [] }, 1)
        else (do
          dims ←
              dims_loop host n 0 n s_block.size_of_lengths (drop 8 msg) (replicate (n + 1) (pos 0))
          num_elems ← elems_loop (set dims n (pos 0)) (pos 1)
          some (
            record object { num_dims = n; dims = set dims n (pos 0); num_elems = num_elems },
            0,
          )))

unfoldable pub product_loop : ℕ → ℕ → List ℤ → ℤ → Option ℤ
product_loop zero i dims acc = some acc
product_loop (suc left) i dims acc =
    in_int64 (acc *ℤ get_or dims i (pos 0)) >>= (λ more. product_loop left (suc i) dims more)

unfoldable pub read_chunked_layout :
    ByteOrder → Bool → Superblock → List ℕ → Data → Option (Data × ℕ)
unfolding dims_loop product_loop
read_chunked_layout host has_memory s_block msg object = do
  b ← byte_at msg 2
  let n = (b + 255) % 256 in
      if not has_memory then some (record object { num_chunked_dims = n }, 1) else (do
        address ← get_bytes_as_number host (drop 3 msg) s_block.size_of_offsets little_endian
        dims ←
            dims_loop host n 0 n 4 (drop (3 + s_block.size_of_offsets) msg)
              (replicate (n + 1) (pos 0))
        if ltb (n + 1) object.num_dims then none else (do
          num_chunked_elems ← product_loop n 0 (set dims n (pos 0)) (pos 1)
          some (
            record object {
              data_address = to_signed address +ℤ s_block.base_address;
              num_chunked_dims = n;
              chunked_dims = set dims n (pos 0);
              num_chunked_elems = num_chunked_elems;
              chunk_update =
                  make_chunked_updates (replicate (n + 1) (pos 0)) (set dims n (pos 0)) object.dims
                    object.num_dims;
            },
            0,
          )))

unfoldable pub read_data_layout_message :
    ByteOrder → Bool → Superblock → List ℕ → ℤ → Data → Option (Data × ℕ)
unfolding read_chunked_layout
read_data_layout_message host has_memory s_block msg msg_address object = do
  version ← byte_at msg 0
  if not (version == 3) then some (object, 1) else (do
    layout ← byte_at msg 1
    let object = record object { layout_class = layout } in
        if layout == 0
        then some (record object { data_address = msg_address +ℤ pos 4 }, 0)
        else if layout == 1
        then (do
          address ← get_bytes_as_number host (drop 2 msg) s_block.size_of_offsets little_endian
          some (record object { data_address = to_signed address +ℤ s_block.base_address }, 0))
        else if layout == 2
        then read_chunked_layout host has_memory s_block msg object
        else some (object, 1))

-- The values of a filter, and the pointer behind them.
unfoldable pub client_loop : ByteOrder → ℕ → List ℕ → Option (List ℕ × List ℕ)
client_loop host zero p = some ([], p)
client_loop host (suc left) p = do
  v ← get_bytes_as_number host p 4 little_endian
  rest ← client_loop host left (drop 4 p)
  some (v % 2 ^ 32 ∷ rest.0, rest.1)

-- Version 1 has the length of a name at `helper_pointer + 2`, and the name behind the eight bytes.
unfoldable pub filter_loop : ByteOrder → Bool → ℕ → List ℕ → Option (List Filter)
unfolding client_loop
filter_loop host named zero p = some []
filter_loop host named (suc left) p = do
  id ← get_bytes_as_number host p 2 little_endian
  name_size ← (if named then get_bytes_as_number host (drop 2 p) 2 little_endian else some 0)
  flags ← get_bytes_as_number host (drop (if named then 4 else 2) p) 2 little_endian
  count ← get_bytes_as_number host (drop (if named then 6 else 4) p) 2 little_endian
  client ← client_loop host (count % 2 ^ 16) (drop (if named then 8 + name_size % 2 ^ 16 else 6) p)
  rest ← filter_loop host named left client.1
  some (
      record {
        filter_id = id;
        optional_flag = flags % 2;
        num_client_vals = count % 2 ^ 16;
        client_data = client.0;
      }
      ∷ rest)

-- A message of no filter leaves the array of filters as it was.
abbrev pub filters_after : ℕ → List Filter → List Filter → List Filter
filters_after zero old new = old
filters_after (suc n) old new = new

-- `has_memory` is for the array of filters; those for the values of each are taken to succeed.
unfoldable pub read_data_storage_pipeline_message :
    ByteOrder → Bool → List ℕ → Data → Option (Data × ℕ)
unfolding filter_loop
read_data_storage_pipeline_message host has_memory msg object = do
  n ← byte_at msg 1
  if ltb 0 n && not has_memory
      then some (record object { num_filters = n; filters = [] }, 1)
      else (do
        version ← byte_at msg 0
        if version == 1
            then (do
              filters ← filter_loop host true n (drop 8 msg)
              some (
                record object { num_filters = n; filters = filters_after n object.filters filters },
                0,
              ))
            else if version == 2
            then (do
              filters ← filter_loop host false n (drop 2 msg)
              some (
                record object { num_filters = n; filters = filters_after n object.filters filters },
                0,
              ))
            else some (record object { num_filters = n }, 1))
