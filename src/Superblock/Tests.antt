-- ===== src/Superblock/Tests.antt =====
-- A superblock for a file with the base address 512.
use getmatvar.Common.{
  ℕ, zero, suc, ◌<◌, ◌≡◌, refl, false, some, List, [], ◌++◌, arith, replicate, pos,
}
use getmatvar.NumberHelper.{little_endian, ◌>>=◌}
use getmatvar.Ezq.Walk.Search.{same_text}
use getmatvar.Superblock.{fill_superblock, format_sig, is_signed, get_superblock}
use getmatvar.Superblock.Search.{block, get_superblock-first}
use getmatvar.Superblock.Encoded.{superblock_bytes, fill_superblock-written}

abbrev written : List ℕ
written =
    superblock_bytes (replicate 13 137) (replicate 4 0) (replicate 48 255) [] 8 0 4 16 512 136 680

fill_superblock-written_example :
    fill_superblock little_endian written
    ≡ some (record {
      size_of_offsets = 8;
      size_of_lengths = 8;
      leaf_node_k = 4;
      internal_node_k = 16;
      sym_table_entry_size = 40;
      base_address = pos 512;
      root_tree_address = pos 648;
      root_heap_address = pos 1192;
    })
fill_superblock-written_example =
    fill_superblock-written (replicate 13 137) (replicate 4 0) (replicate 48 255) [] 8 0 4 16 512
      136 680 refl refl refl (omega arith) (omega arith) (omega arith) (omega arith) (omega arith)
      (omega arith)

-- A block of 512 bytes before the superblock.
abbrev user_file : List ℕ
user_file =
    replicate 512 32
    ++ superblock_bytes (format_sig ++ replicate 5 0) (replicate 4 0) (replicate 48 255) [] 8 0 4 16
        512 136 680

not_before : (j : ℕ) → j < 1 → is_signed (block user_file j) ≡ false
unfolding same_text
not_before zero lt = refl
not_before (suc j) lt = absurd (omega arith)

get_superblock-first_example :
    get_superblock little_endian user_file
    ≡ (fill_superblock little_endian (block user_file 1) >>= λ s. some (some s))
unfolding same_text
get_superblock-first_example =
    get_superblock-first little_endian user_file 1 (omega arith) not_before refl
