-- ===== src/ChunkTree/Tests.antt =====
-- A tree of two chunks, one of them below a second node, in pages of 64 bytes.
use getmatvar.Common.{
  ℕ, ◌<◌, ◌≡◌, refl, true, some, List, [], ◌∷◌, ◌++◌, arith, take, drop, replicate, pos,
}
use getmatvar.NumberHelper.{little_endian}
use getmatvar.Superblock.{Superblock}
use getmatvar.Ezq.Walk.Search.{same_text}
use getmatvar.Pages.{initial_page}
use getmatvar.ChunkTree.{chunk, Buckets, fill_node}
use getmatvar.ChunkTree.Written.{
  Key, key_bytes, Entries, end, leaf, node, encode, head_bytes, chunks, IsKey, IsWritten,
}
use getmatvar.ChunkTree.Noted.{HasNoted, fill_node-HasNoted}

abbrev eight_bytes : Superblock
eight_bytes = record {
  size_of_offsets = 8;
  size_of_lengths = 8;
  leaf_node_k = 4;
  internal_node_k = 16;
  sym_table_entry_size = 40;
  base_address = pos 0;
  root_tree_address = pos 136;
  root_heap_address = pos 680;
}

abbrev some_key : ℕ → Key
some_key first = record { size = 8; mask = 0 ∷ 0 ∷ 0 ∷ 0 ∷ []; starts = first ∷ []; last_start = 0 }

abbrev last_key : List ℕ
last_key = key_bytes (some_key 2)

abbrev below : Entries
below = leaf (some_key 0) 192 end

abbrev entries : List ℕ → Entries
entries rest = node (some_key 0) 112 0 rest last_key below (leaf (some_key 1) 200 end)

abbrev tree_file : List ℕ
tree_file =
    head_bytes 1 2 (replicate 16 255)
    ++ (encode (entries []) last_key
        ++ (head_bytes 0 1 (replicate 16 255) ++ (encode below last_key ++ replicate 16 7)))

abbrev four_pages : Buckets
four_pages = record {
  page_objects =
      initial_page 64 208 0
      ∷ initial_page 64 208 1
      ∷ initial_page 64 208 2
      ∷ initial_page 64 208 3
      ∷ [];
  data_page_buckets = [] ∷ [] ∷ [] ∷ [] ∷ [];
}

abbrev all_entries : Entries
all_entries = entries (take 56 (drop 120 tree_file))

some_key-IsKey : (first : ℕ) → first < 3 → IsKey tree_file 64 1 0 (some_key first)
some_key-IsKey first lt = (omega arith, refl, refl, (omega arith, tt))

tree-IsWritten : IsWritten tree_file 64 1 0 all_entries
unfolding same_text
tree-IsWritten = (
  some_key-IsKey 0 (omega arith),
  omega arith,
  omega arith,
  refl,
  refl,
  (some_key-IsKey 0 (omega arith), omega arith, (replicate 16 7, refl, refl, refl), tt),
  (some_key-IsKey 1 (omega arith), omega arith, (replicate 8 7, refl, refl, refl), tt),
)

fill_node-HasNoted_example :
    (b' : Buckets) × (fill_node little_endian true eight_bytes tree_file 64 1 3 (pos 0) four_pages
      ≡ some (chunk, b', 0))
    × ((i : ℕ) → i < 4 → HasNoted 64 i (chunks 0 all_entries) four_pages b')
fill_node-HasNoted_example =
    fill_node-HasNoted eight_bytes 0 tree_file 64 1 3 0 1 (take 56 (drop 8 tree_file)) last_key
      all_entries four_pages refl refl (omega arith) tree-IsWritten (omega arith) refl refl refl
      (omega arith, (omega arith, tt))
