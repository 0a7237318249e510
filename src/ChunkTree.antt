-- ===== src/ChunkTree.antt =====
-- `fillNode` of src/placeChunkedData.c: the walk over the tree of the chunks of an object, which notes
-- each chunk in the page of the file that it starts in and queues it for that page. `file` is the
-- bytes of the file, and a read past those that were mapped is a fault.
pub mod Written
pub mod Keys
pub mod Steps
pub mod Filled
pub mod Noted
mod Tests
use getmatvar.Common.{
  ℕ, zero, suc, ◌+◌, ◌*◌, ◌/◌, Bool, true, false, not, Option, none, some, List, [], ◌∷◌, ◌++◌,
  length, get_or, set, take, drop, replicate, ltb, ◌==◌, if◌then◌else◌, ℤ, pos, negsuc, ◌+ℤ◌,
}
use getmatvar.NumberHelper.{ByteOrder, little_endian, get_bytes_as_number, ◌>>=◌}
use getmatvar.Superblock.{Superblock, to_signed}
use getmatvar.Navigate.{at_address}
use getmatvar.Message.{dims_loop}
use getmatvar.Pages.{PageObject, DataPair, initial_page, count_chunk}
use getmatvar.Ezq.Walk.Search.{same_text}

-- Of these `group` is 0 and `chunk` 1 in the file; the others are not in it.
pub data NodeType : Type 0 where
  group chunk undefined root raw_data symbol : NodeType

-- A `DataPair`, with its place in the array.
pub record QueuedChunk : Type 0 where
  pub pair : DataPair
  pub chunk_start : List ℤ

-- `page_objects` and `data_page_buckets`, the queues as what is queued in them.
pub record Buckets : Type 0 where
  pub page_objects : List PageObject
  pub data_page_buckets : List (List QueuedChunk)

abbrev pub new_page : PageObject
new_page = initial_page 0 0 0

-- `page_index` is `address / alloc_gran`, with no test against the number of the pages.
unfoldable pub note_chunk : ℕ → QueuedChunk → Buckets → Option Buckets
note_chunk alloc_gran c b =
    let i = c.pair.address / alloc_gran in
    if ltb i (length b.page_objects)
    then some (record {
      page_objects =
          set b.page_objects i (count_chunk alloc_gran (get_or b.page_objects i new_page) c.pair);
      data_page_buckets = set b.data_page_buckets i (get_or b.data_page_buckets i [] ++ (c ∷ []));
    })
    else none

-- The four bytes `TREE`, and `SNOD`.
abbrev pub is_tree : List ℕ → Bool
is_tree p = same_text (take 4 p) (84 ∷ 82 ∷ 69 ∷ 69 ∷ [])

abbrev pub is_snod : List ℕ → Bool
is_snod p = same_text (take 4 p) (83 ∷ 78 ∷ 79 ∷ 68 ∷ [])

abbrev pub is_raw_data : NodeType → Bool
is_raw_data raw_data = true
is_raw_data _ = false

-- A file offset as an address in memory: a negative one is no place in the file.
abbrev pub file_address : ℤ → Option ℕ
file_address (pos a) = some a
file_address (negsuc a) = none

module _ (host : ByteOrder) (has_memory : Bool) (s_block : Superblock) (file : List ℕ)
    (alloc_gran num_chunked_dims : ℕ) where
  -- The chunk that the key at `key_pointer` is for.
  unfoldable pub read_key : List ℕ → ℤ → Option QueuedChunk
  read_key key_pointer sub_address = do
    size ← get_bytes_as_number host key_pointer 4 little_endian
    starts ←
        dims_loop host num_chunked_dims 0 num_chunked_dims 8 (drop 8 key_pointer)
          (replicate (num_chunked_dims + 1) (pos 0))
    address ← file_address sub_address
    some (record {
      pair = record { address = address; chunk_size = size };
      chunk_start = set starts num_chunked_dims (pos 0);
    })

  -- The loop over the entries of a node. `sub_node` is the call for the node at an address, with the
  -- type that it finds, the pages and the error.
  unfoldable pub entries_loop :
      (ℤ → Buckets → Option (NodeType × Buckets × ℕ)) → ℕ → List ℕ → Buckets → Option (Buckets × ℕ)
  unfolding read_key note_chunk
  entries_loop sub_node zero key_pointer b = some (b, 0)
  entries_loop sub_node (suc left) key_pointer b = do
    offset ←
        get_bytes_as_number host (drop (8 + (num_chunked_dims + 1) * 8) key_pointer)
          s_block.size_of_offsets little_endian
    let address = to_signed offset +ℤ s_block.base_address in
        (do
          r ← sub_node address b
          if not (r.2 == 0)
              then some (r.1, 1)
              else if is_raw_data r.0
              then if not has_memory then some (r.1, 1) else (do
                c ← read_key key_pointer address
                noted ← note_chunk alloc_gran c r.1
                entries_loop sub_node left
                    (drop (8 + (num_chunked_dims + 1) * 8 + s_block.size_of_offsets) key_pointer)
                    noted)
              else entries_loop sub_node left
                  (drop (8 + (num_chunked_dims + 1) * 8 + s_block.size_of_offsets) key_pointer) r.1)

  -- `fuel` is for the depth of the tree. The node at `UNDEF_ADDR`, which is -1, keeps the type that
  -- its parent gave it.
  unfoldable pub fill_node : ℕ → ℤ → Buckets → Option (NodeType × Buckets × ℕ)
  unfolding entries_loop
  fill_node zero address b = none
  fill_node (suc fuel) (negsuc zero) b = some (undefined, b, 0)
  fill_node (suc fuel) (negsuc (suc n)) b = none
  fill_node (suc fuel) (pos a) b = do
    tree_pointer ← at_address file (pos a) alloc_gran
    if not (is_tree tree_pointer)
        then some (if is_snod tree_pointer then symbol else raw_data, b, 0)
        else (do
          type ← get_bytes_as_number host (drop 4 tree_pointer) 1 little_endian
          entries_used ← get_bytes_as_number host (drop 6 tree_pointer) 2 little_endian
          if not (type == 1) then some (if type == 0 then group else undefined, b, 1) else (do
            key_pointer ← at_address file (pos a +ℤ pos (8 + 2 * s_block.size_of_offsets)) (
                (entries_used + 1) * (8 + (num_chunked_dims + 1) * 8)
                + entries_used * s_block.size_of_offsets)
            r ← entries_loop (fill_node fuel) entries_used key_pointer b
            some (chunk, r.0, r.1)))
